-- ===== src/Wm/Window.antt =====
-- kernel/src/wm/window.rs: the table of windows, which is their order from bottom to top. The size of
-- the screen, which the framebuffer knows, is an argument. Drawing is left out, and so is a call with
-- an index out of the table, which no caller makes.
pub mod Points
pub mod Moves
pub mod Order
pub mod Hits
pub mod Ids
pub mod Reached
pub mod Geometry
use barry_os.Common.Words.{add64}
use barry_os.Common.{
  ℕ, Option, false, List, replicate, Bool, ◌&&◌, if◌then◌else◌, ◌-◌, set, ◌+◌, none, suc, leb, true,
  min, some, get_or, not, ltb, ◌==◌, length, zero, write_at, take,
}

abbrev pub max_windows : ℕ
max_windows = 16

pub data WinState : Type 0 where
  free normal minimized : WinState

pub record Window : Type 0 where
  pub id : ℕ
  pub state : WinState
  pub x : ℕ
  pub y : ℕ
  pub w : ℕ
  pub h : ℕ
  pub rst_x : ℕ
  pub rst_y : ℕ
  pub rst_w : ℕ
  pub rst_h : ℕ
  pub maximized : Bool
  pub title : List ℕ
  pub title_len : ℕ
  pub bg_r : ℕ
  pub bg_g : ℕ
  pub bg_b : ℕ

abbrev pub empty : Window
empty = record {
  id = 0;
  state = free;
  x = 0;
  y = 0;
  w = 0;
  h = 0;
  rst_x = 0;
  rst_y = 0;
  rst_w = 0;
  rst_h = 0;
  maximized = false;
  title = replicate 24 0;
  title_len = 0;
  bg_r = 0;
  bg_g = 0;
  bg_b = 0;
}

abbrev pub is_normal : WinState → Bool
is_normal free = false
is_normal normal = true
is_normal minimized = false

abbrev pub is_free : WinState → Bool
is_free free = true
is_free normal = false
is_free minimized = false

abbrev pub visible : Window → Bool
visible w = is_normal w.state

-- The title is cut at 23 bytes and ended by a zero.
unfoldable pub set_title : Window → List ℕ → Window
set_title w title =
    let n = min (length title) 23 in
    record w { title = set (write_at w.title 0 (take n title)) n 0; title_len = n }

-- WINDOWS and NEXT_WID.
pub record Windows : Type 0 where
  pub table : List Window
  pub next_wid : ℕ

abbrev pub init : Windows
init = record { table = replicate max_windows empty; next_wid = 1 }

abbrev pub win_at : List Window → ℕ → Window
win_at ws i = get_or ws i empty

-- The loop of `bring_to_front` from slot `i` on: each round swaps two neighbours.
unfoldable pub bubble : ℕ → ℕ → List Window → List Window
bubble zero i ws = ws
bubble (suc n) i ws = bubble n (i + 1) (set (set ws i (win_at ws (i + 1))) (i + 1) (win_at ws i))

unfoldable pub bring_to_front : List Window → ℕ → List Window
unfolding bubble
bring_to_front ws idx = if leb max_windows idx then ws else bubble (max_windows - 1 - idx) idx ws

-- The loop over the table from slot `i` on for a free one.
unfoldable pub free_slot : ℕ → ℕ → List Window → Option ℕ
free_slot zero i ws = none
free_slot (suc n) i ws =
    let rest = free_slot n (i + 1) ws in if is_free (win_at ws i).state then some i else rest

-- A coordinate that keeps a window of size `size` on a screen of size `screen`.
unfoldable pub onto_screen : ℕ → ℕ → ℕ → ℕ
onto_screen screen size place = if ltb size screen then min place (screen - size) else 0

unfoldable pub new_window : ℕ → ℕ → ℕ → ℕ → ℕ → List ℕ → Window
unfolding set_title
new_window id x y w h title =
    record (set_title (record empty { id = id; state = normal; x = x; y = y; w = w; h = h })
      title) { bg_r = 0x1a; bg_g = 0x1f; bg_b = 0x35 }

-- The screen's width and height come first.
unfoldable pub create : ℕ × ℕ → Windows → ℕ → ℕ → ℕ → ℕ → List ℕ → ℕ × Windows
create (sw, sh) s x y w h title =
    let counted = record s { next_wid = add64 s.next_wid 1 } in
    let win = new_window s.next_wid (onto_screen sw w x) (onto_screen sh h y) w h title in
    elim (free_slot max_windows 0 s.table) [
      | none ↦ (0, counted)
      | some i ↦ (s.next_wid, record counted { table = bring_to_front (set s.table i win) i })
    ]

-- The loop over the table from slot `i` on for an id.
unfoldable pub find_id : ℕ → ℕ → List Window → ℕ → Option ℕ
find_id zero i ws id = none
find_id (suc n) i ws id =
    let rest = find_id n (i + 1) ws id in
    if (win_at ws i).id == id && not (is_free (win_at ws i).state) then some i else rest

unfoldable pub index_of : List Window → ℕ → Option ℕ
unfolding find_id
index_of ws id = if id == 0 then none else find_id max_windows 0 ws id

abbrev pub is_some {ℓ} : {A : Type ℓ} → Option A → Bool
is_some none = false
is_some (some a) = true

unfoldable pub exists : List Window → ℕ → Bool
unfolding index_of
exists ws id = is_some (index_of ws id)

unfoldable pub focus : List Window → ℕ → List Window
focus ws id = elim (index_of ws id) [ none ↦ ws | some i ↦ bring_to_front ws i ]

unfoldable pub retitle : List Window → ℕ → List ℕ → List Window
retitle ws id title = elim (index_of ws id) [
  | none ↦ ws
  | some i ↦ set ws i (set_title (win_at ws i) title)
]

unfoldable pub close : List Window → ℕ → List Window
close ws idx = set ws idx empty

-- The loop of `topmost_id` from slot `i` on; `top` is the id of the last visible window so far.
unfoldable pub topmost_from : ℕ → ℕ → List Window → ℕ → ℕ
topmost_from zero i ws top = top
topmost_from (suc n) i ws top =
    topmost_from n (i + 1) ws (if visible (win_at ws i) then (win_at ws i).id else top)

unfoldable pub topmost_id : List Window → ℕ
unfolding topmost_from
topmost_id ws = topmost_from max_windows 0 ws 0

-- The number of windows that are not free.
unfoldable pub count_below : ℕ → List Window → ℕ
count_below zero ws = 0
count_below (suc n) ws = count_below n ws + (if is_free (win_at ws n).state then 0 else 1)

unfoldable pub count : List Window → ℕ
unfolding count_below
count ws = count_below max_windows ws
