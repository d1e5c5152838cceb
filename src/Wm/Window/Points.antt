-- ===== src/Wm/Window/Points.antt =====
-- kernel/src/wm/window.rs: which window a point is in, and where in its title bar.
use barry_os.Wm.Window.{Window, visible, win_at, max_windows}
use barry_os.Common.Words.{u32_mod, add32}
use barry_os.Common.{
  ℕ, Option, List, Bool, ◌&&◌, if◌then◌else◌, ◌-◌, ◌+◌, none, suc, leb, some, not, ltb, zero, ◌*◌,
  ◌%◌, ◌/◌,
}

abbrev pub title_bar_h : ℕ
title_bar_h = 20

abbrev pub btn_w : ℕ
btn_w = 14

abbrev pub btn_h : ℕ
btn_h = 12

abbrev pub btn_gap : ℕ
btn_gap = 2

abbrev pub btn_margin : ℕ
btn_margin = 6

pub data TitleButton : Type 0 where
  minimize_button maximize_button close_button : TitleButton

-- The rectangle of title-bar button `i`, with the source's wrap-around.
unfoldable pub button_rect : Window → ℕ → ℕ × ℕ × ℕ × ℕ
button_rect w i = (
  (w.x + w.w + u32_mod - (btn_margin + btn_w + i * (btn_w + btn_gap))) % u32_mod,
  add32 w.y ((title_bar_h - btn_h) / 2),
  btn_w,
  btn_h,
)

-- Is the point in the window?
unfoldable pub contains : Window → ℕ → ℕ → Bool
contains w x y = leb w.x x && (ltb x (add32 w.x w.w) && (leb w.y y && ltb y (add32 w.y w.h)))

-- The loop of `at`, from the slot below `n` down.
unfoldable pub hit_below : ℕ → List Window → ℕ → ℕ → Option ℕ
unfolding contains
hit_below zero ws x y = none
hit_below (suc n) ws x y =
    let rest = hit_below n ws x y in
    if visible (win_at ws n) && contains (win_at ws n) x y then some n else rest

unfoldable pub at : List Window → ℕ → ℕ → Option ℕ
unfolding hit_below
at ws x y = hit_below max_windows ws x y

unfoldable pub in_title_bar : List Window → ℕ → ℕ → ℕ → Bool
in_title_bar ws idx x y =
    let w = win_at ws idx in
    visible w
    && (leb w.x x && (ltb x (add32 w.x w.w) && (leb w.y y && ltb y (add32 w.y title_bar_h))))

unfoldable pub in_button : Window → ℕ → ℕ → ℕ → Bool
unfolding button_rect
in_button w i x y =
    let (bx, by, bw, bh) = button_rect w i in
    leb bx x && (ltb x (add32 bx bw) && (leb by y && ltb y (add32 by bh)))

unfoldable pub button_at : List Window → ℕ → ℕ → ℕ → Option TitleButton
unfolding in_button
button_at ws idx x y =
    let w = win_at ws idx in
    if not (visible w)
    then none
    else if in_button w 0 x y
    then some close_button
    else if in_button w 1 x y
    then some maximize_button
    else if in_button w 2 x y
    then some minimize_button
    else none
