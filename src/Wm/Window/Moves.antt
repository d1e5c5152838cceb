-- ===== src/Wm/Window/Moves.antt =====
-- kernel/src/wm/window.rs: moving, hiding, showing and maximising a window.
use barry_os.Wm.Window.{Window, bring_to_front, win_at, minimized, normal}
use barry_os.Common.Int.{ℤ, pos, negsuc}
use barry_os.Common.{ℕ, false, List, if◌then◌else◌, ◌-◌, set, ◌+◌, true, min}

-- A coordinate of the pointer, an `i32`, kept between 0 and `most`.
unfoldable pub clamp : ℤ → ℕ → ℕ
clamp (pos n) most = min n most
clamp (negsuc n) most = 0

-- A screen has fewer than 2 ^ 31 pixels each way, so the source's casts to `i32` change nothing.
unfoldable pub move_window : ℕ × ℕ → Window → ℤ → ℤ → Window
unfolding clamp
move_window (sw, sh) w x y = record w { x = clamp x (sw - w.w); y = clamp y (sh - w.h) }

unfoldable pub move_to : ℕ × ℕ → List Window → ℕ → ℤ → ℤ → List Window
move_to screen ws idx x y =
    let w = win_at ws idx in if w.maximized then ws else set ws idx (move_window screen w x y)

unfoldable pub minimize : List Window → ℕ → List Window
minimize ws idx = set ws idx (record (win_at ws idx) { state = minimized })

unfoldable pub restore : List Window → ℕ → List Window
restore ws idx = bring_to_front (set ws idx (record (win_at ws idx) { state = normal })) idx

abbrev pub status_bar_h : ℕ
status_bar_h = 20

abbrev pub dock_h : ℕ
dock_h = 36

-- Below the status bar and above the dock.
unfoldable pub work_area : ℕ × ℕ → ℕ × ℕ × ℕ × ℕ
work_area (sw, sh) = (0, status_bar_h, sw, sh - (status_bar_h + dock_h))

unfoldable pub toggle : ℕ × ℕ → Window → Window
unfolding work_area
toggle screen w =
    let (ax, ay, aw, ah) = work_area screen in
    if w.maximized
    then record w { x = w.rst_x; y = w.rst_y; w = w.rst_w; h = w.rst_h; maximized = false }
    else record w {
      rst_x = w.x;
      rst_y = w.y;
      rst_w = w.w;
      rst_h = w.h;
      x = ax;
      y = ay;
      w = aw;
      h = ah;
      maximized = true;
    }

unfoldable pub toggle_maximize : ℕ × ℕ → List Window → ℕ → List Window
toggle_maximize screen ws idx = set ws idx (toggle screen (win_at ws idx))
