-- ===== src/Wm/Window/Geometry.antt =====
-- Where windows stand: on the screen after a move, and back in their place after two toggles.
use barry_os.Common.{
  ◌≤◌, ◌<◌, ◌≡◌, false, arith, length, refl, get_or-set_self, ◌+◌, ◌≢◌, set, ◌-◌, get_or-set_ne,
  length-set,
}
use barry_os.Common.Int.{ℤ, pos, negsuc}
use barry_os.Wm.Window.{ℕ, List, Window, win_at, empty}
use barry_os.Wm.Window.Moves.{toggle, toggle_maximize, clamp, move_to, move_window}

clamp-le : (x : ℤ) (most : ℕ) → clamp x most ≤ most
unfolding clamp
clamp-le (pos n) most = omega arith
clamp-le (negsuc n) most = omega arith

move_to-set :
    (screen : ℕ × ℕ) (ws : List Window) (idx : ℕ) (x y : ℤ)
    → (win_at ws idx).maximized ≡ false
    → move_to screen ws idx x y ≡ set ws idx (move_window screen (win_at ws idx) x y)
unfolding move_to
move_to-set screen ws idx x y small = rw small

-- A window that fits the screen and is not maximised is whole on the screen after a move, wherever the
-- pointer is, and keeps its size; the other windows keep everything.
pub move_to_lem :
    (sw sh : ℕ) (ws : List Window) (idx : ℕ) (x y : ℤ)
    → idx < length ws
    → (win_at ws idx).maximized ≡ false
    → (win_at ws idx).w ≤ sw
    → (win_at ws idx).h ≤ sh
    → let moved = win_at (move_to (sw, sh) ws idx x y) idx in
      (moved.x + moved.w ≤ sw)
      × (moved.y + moved.h ≤ sh)
      × (moved.w ≡ (win_at ws idx).w)
      × (moved.h ≡ (win_at ws idx).h)
      × ((j : ℕ) → idx ≢ j → win_at (move_to (sw, sh) ws idx x y) j ≡ win_at ws j)
move_to_lem sw sh ws idx x y inside small wide high =
    rw
      (
        move_to-set (sw, sh) ws idx x y small,
        get_or-set_self ws idx (move_window (sw, sh) (win_at ws idx) x y) empty inside,
      )
      (
        unfold move_window in omega (arith, clamp-le x (sw - (win_at ws idx).w)),
        unfold move_window in omega (arith, clamp-le y (sh - (win_at ws idx).h)),
        unfold move_window in refl,
        unfold move_window in refl,
        λ j ne. get_or-set_ne ws idx j (move_window (sw, sh) (win_at ws idx) x y) empty ne,
      )

toggle_twice :
    (screen : ℕ × ℕ) (w : Window)
    → w.maximized ≡ false
    → let back = toggle screen (toggle screen w) in
      (back.x ≡ w.x) × (back.y ≡ w.y) × (back.w ≡ w.w) × (back.h ≡ w.h) × (back.maximized ≡ false)
unfolding toggle
toggle_twice screen w small = rw (small) (refl, refl, refl, refl, refl)

-- A window that is maximised and restored is where it was, with the size it had.
pub toggle_maximize_twice :
    (screen : ℕ × ℕ) (ws : List Window) (idx : ℕ)
    → idx < length ws
    → (win_at ws idx).maximized ≡ false
    → let back = win_at (toggle_maximize screen (toggle_maximize screen ws idx) idx) idx in
      let w = win_at ws idx in
      (back.x ≡ w.x) × (back.y ≡ w.y) × (back.w ≡ w.w) × (back.h ≡ w.h) × (back.maximized ≡ false)
unfolding toggle_maximize
toggle_maximize_twice screen ws idx inside small =
    rw
      (
        get_or-set_self ws idx (toggle screen (win_at ws idx)) empty inside,
        get_or-set_self (set ws idx (toggle screen (win_at ws idx))) idx
            (toggle screen (toggle screen (win_at ws idx))) empty
            (omega (arith, length-set ws idx (toggle screen (win_at ws idx)))),
      )
      (toggle_twice screen (win_at ws idx) small)
