-- ===== src/Wm/Tests.antt =====
-- The theorems on windows at a desktop with two windows.
use barry_os.Wm.Window.Order.{bring_to_front_lem}
use barry_os.Wm.Window.Hits.{focus_lem}
use barry_os.Common.Int.{negsuc, pos}
use barry_os.Wm.Window.Geometry.{move_to_lem}
use barry_os.Wm.Window.Reached.{Reached-IsWindows, start, opens, Reached, next}
use barry_os.Wm.Window.Ids.{IsWindows}
use barry_os.Wm.Window.{
  Windows, bring_to_front, create, index_of, win_at, topmost_id, init, Window, focus, free_slot,
  bubble, new_window, onto_screen, visible,
}
use barry_os.Wm.Window.Points.{contains, at}
use barry_os.Wm.Window.Moves.{move_to}
use barry_os.Common.{
  ℕ, List, ◌≡◌, ◌+◌, ◌∷◌, [], false, take, ◌≤◌, ◌≢◌, true, ◌++◌, arith, some, drop, length, refl,
}

abbrev screen : ℕ × ℕ
screen = (800, 600)

abbrev note : List ℕ
note = b'n' ∷ b'o' ∷ b't' ∷ b'e' ∷ []

abbrev one : Windows
one = (create screen init 10 30 200 100 note).1

-- The second window is above the first.
abbrev two : Windows
two = (create screen one 790 40 200 100 note).1

-- The newest window is on top, and was moved onto the screen.
two_top : win_at two.table 15 ≡ new_window 2 600 40 200 100 note
unfolding create free_slot bring_to_front bubble new_window onto_screen
two_top = refl

two_topmost : topmost_id two.table ≡ 2
unfolding topmost_id create free_slot bring_to_front bubble new_window onto_screen
two_topmost = refl

first_index : index_of two.table 1 ≡ some 14
unfolding index_of create free_slot bring_to_front bubble new_window onto_screen
first_index = refl

two_whole : length two.table ≡ 16
unfolding create free_slot bring_to_front bubble new_window onto_screen
two_whole = refl

first_seen : visible (win_at two.table 14) ≡ true
unfolding create free_slot bring_to_front bubble new_window onto_screen
first_seen = refl

bring_to_front_lem_example :
    bring_to_front two.table 14
    ≡ take 14 two.table ++ (drop 15 two.table ++ win_at two.table 14 ∷ [])
bring_to_front_lem_example = bring_to_front_lem two.table 14 two_whole (omega arith)

focus_lem_example :
    (topmost_id (focus two.table 1) ≡ 1)
    × ((x y : ℕ)
        → contains (win_at two.table 14) x y ≡ true
        → (at (focus two.table 1) x y ≡ some 15)
          × (win_at (focus two.table 1) 15 ≡ win_at two.table 14))
focus_lem_example = focus_lem two.table 1 14 two_whole first_index first_seen

two-Reached : Reached screen two
two-Reached =
    next (next start (opens init 10 30 200 100 note (omega arith)))
      (opens one 790 40 200 100 note (unfold create free_slot in omega arith))

Reached-IsWindows_example : IsWindows two
Reached-IsWindows_example = Reached-IsWindows two-Reached

first_small : (win_at two.table 14).maximized ≡ false
unfolding create free_slot bring_to_front bubble new_window onto_screen
first_small = refl

first_w : (win_at two.table 14).w ≡ 200
unfolding create free_slot bring_to_front bubble new_window onto_screen
first_w = refl

first_h : (win_at two.table 14).h ≡ 100
unfolding create free_slot bring_to_front bubble new_window onto_screen
first_h = refl

abbrev dragged : List Window
dragged = move_to screen two.table 14 (negsuc 4) (pos 900)

move_to_lem_example :
    ((win_at dragged 14).x + (win_at dragged 14).w ≤ 800)
    × ((win_at dragged 14).y + (win_at dragged 14).h ≤ 600)
    × ((win_at dragged 14).w ≡ (win_at two.table 14).w)
    × ((win_at dragged 14).h ≡ (win_at two.table 14).h)
    × ((j : ℕ) → 14 ≢ j → win_at dragged j ≡ win_at two.table j)
move_to_lem_example =
    move_to_lem 800 600 two.table 14 (negsuc 4) (pos 900) (omega (arith, two_whole)) first_small
      (omega (arith, first_w)) (omega (arith, first_h))
