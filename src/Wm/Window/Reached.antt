-- ===== src/Wm/Window/Reached.antt =====
-- The operations keep the ids of the open windows one to one, in any order in which they come.
use barry_os.Common.Words.{u64_mod, add64}
use barry_os.Wm.Window.Ids.{
  holders, IsWindows, set-IsWindows, weight, holders-set, bring_to_front-IsWindows, free_slot_lem,
}
use barry_os.Common.Int.{ℤ}
use barry_os.Wm.Window.{
  Windows, new_window, Window, set_title, is_free, init, max_windows, win_at, create, close,
  bring_to_front, empty, free_slot, onto_screen,
}
use barry_os.Wm.Window.Moves.{toggle, move_to, minimize, restore, toggle_maximize, move_window}
use barry_os.Common.{
  ℕ, List, ◌≡◌, ◌<◌, ◌+◌, true, arith, false, refl, set, ◌⊎◌, ◌≤◌, if◌then◌else◌, Bool-cases, inl,
  sym, ◌==◌, Bool, inr, ◌≢◌, Option-cases, length-set, ◌∙◌, ap, ℕ_discrete, ne→==,
}

abbrev pub IsOpen : List Window → ℕ → Type 0
IsOpen ws idx = (idx < max_windows) × (is_free (win_at ws idx).state ≡ false)

-- A window in place of another with the same id, that is open if the other was.
same_id :
    (id : ℕ) (v w : Window)
    → w.id ≡ v.id
    → is_free v.state ≡ is_free w.state
    → weight id w ≤ weight id v
same_id id v w e f = rw (e, sym f) (omega arith)

free_weight : (id : ℕ) (w : Window) → is_free w.state ≡ true → weight id w ≡ 0
free_weight id w e = rw e (ground arith)

new_window_lem :
    (id x y w h : ℕ) (title : List ℕ)
    → ((new_window id x y w h title).id ≡ id)
      × (is_free (new_window id x y w h title).state ≡ false)
unfolding new_window set_title
new_window_lem id x y w h title = (refl, refl)

weight_new :
    (id n : ℕ) (w : Window)
    → w.id ≡ n
    → is_free w.state ≡ false
    → weight id w ≡ (if n == id then 1 else 0)
weight_new id n w e f = rw (e, f) (ground arith)

init-IsWindows : IsWindows init
unfolding holders
init-IsWindows = record {
  whole = refl;
  started = omega arith;
  once = λ id. ground arith;
  given = λ id h. ground arith;
}

abbrev one_if : Bool → ℕ
one_if b = if b then 1 else 0

placed-IsWindows :
    (s : Windows) (i : ℕ) (w : Window)
    → IsWindows s
    → s.next_wid + 1 < u64_mod
    → i < max_windows
    → is_free (win_at s.table i).state ≡ true
    → w.id ≡ s.next_wid
    → is_free w.state ≡ false
    → IsWindows (record { table = set s.table i w; next_wid = add64 s.next_wid 1 })
placed-IsWindows s i w v room inside empty_slot named opened = record {
  whole = length-set s.table i w ∙ v.whole;
  started = omega arith;
  once = λ id. elim (ℕ_discrete s.next_wid id) [
    | yes e ↦ omega (
      arith,
      changed id,
      at_new id,
      v.given id (inr (omega (arith, e))),
      if_le_one (s.next_wid == id),
    )
    | no ne ↦ omega (
      arith,
      changed id,
      at_new id,
      v.once id,
      ap (λ (b : Bool). one_if b) (ne→== s.next_wid id ne),
    )
  ];
  given = λ id h. omega (
    arith,
    changed id,
    at_new id,
    v.given id (earlier id h),
    ap (λ (b : Bool). one_if b) (ne→== s.next_wid id (other id h)),
  );
}
  where
    changed :
        (id : ℕ)
        → holders id (set s.table i w) + weight id (win_at s.table i)
          ≡ holders id s.table + weight id w
    changed id = holders-set id s.table i w (omega (arith, v.whole))

    at_new : (id : ℕ) → weight id w ≡ (if s.next_wid == id then 1 else 0)
    at_new id = weight_new id s.next_wid w named opened

    if_le_one : (b : Bool) → one_if b ≤ 1
    if_le_one b = ground arith

    earlier : (id : ℕ) → (id ≡ 0) ⊎ (add64 s.next_wid 1 ≤ id) → (id ≡ 0) ⊎ (s.next_wid ≤ id)
    earlier id (inl e) = inl e
    earlier id (inr h) = inr (omega arith)

    other : (id : ℕ) → (id ≡ 0) ⊎ (add64 s.next_wid 1 ≤ id) → s.next_wid ≢ id
    other id (inl e) = λ p. omega (arith, v.started, p, e)
    other id (inr h) = λ p. omega (arith, p, h)

-- A window is opened with the next id, on top.
pub create-IsWindows :
    (screen : ℕ × ℕ) (s : Windows) (x y w h : ℕ) (title : List ℕ)
    → IsWindows s
    → s.next_wid + 1 < u64_mod
    → IsWindows (create screen s x y w h title).1
unfolding create
create-IsWindows (sw, sh) s x y w h title v room =
    elim (Option-cases (free_slot max_windows 0 s.table)) [
      | inl full ↦ rw (full, create) (counted v)
      | inr (i, e) ↦
          let slot = free_slot_lem max_windows 0 s.table i e in
          let fresh =
            new_window_lem s.next_wid (onto_screen sw w x) (onto_screen sh h y) w h title in
          rw (e, create)
            (bring_to_front-IsWindows _ i
              (placed-IsWindows s i
                (new_window s.next_wid (onto_screen sw w x) (onto_screen sh h y) w h title) v room
                (omega (arith, slot.0)) slot.1 fresh.0 fresh.1)
              (omega (arith, slot.0)))
    ]
  where
    later : (id : ℕ) → (id ≡ 0) ⊎ (add64 s.next_wid 1 ≤ id) → (id ≡ 0) ⊎ (s.next_wid ≤ id)
    later id (inl e) = inl e
    later id (inr h) = inr (omega arith)

    counted : IsWindows s → IsWindows (record s { next_wid = add64 s.next_wid 1 })
    counted v = record {
      whole = v.whole;
      started = omega arith;
      once = v.once;
      given = λ id h. v.given id (later id h);
    }

-- What the desktop does with the table. An index comes from a search for an open window.
pub data Step (screen : ℕ × ℕ) : Windows → Windows → Type 0 where
  opens :
      (s : Windows) (x y w h : ℕ) (title : List ℕ)
      → s.next_wid + 1 < u64_mod
      → Step screen s (create screen s x y w h title).1
  closes :
      (s : Windows) (idx : ℕ)
      → idx < max_windows
      → Step screen s (record s { table = close s.table idx })
  raises :
      (s : Windows) (idx : ℕ)
      → idx < max_windows
      → Step screen s (record s { table = bring_to_front s.table idx })
  hides :
      (s : Windows) (idx : ℕ)
      → IsOpen s.table idx
      → Step screen s (record s { table = minimize s.table idx })
  shows :
      (s : Windows) (idx : ℕ)
      → IsOpen s.table idx
      → Step screen s (record s { table = restore s.table idx })
  moves :
      (s : Windows) (idx : ℕ) (x y : ℤ)
      → idx < max_windows
      → Step screen s (record s { table = move_to screen s.table idx x y })
  toggles :
      (s : Windows) (idx : ℕ)
      → idx < max_windows
      → Step screen s (record s { table = toggle_maximize screen s.table idx })

pub data Reached (screen : ℕ × ℕ) : Windows → Type 0 where
  start : Reached screen init
  next : {s t : Windows} → Reached screen s → Step screen s t → Reached screen t

toggle_lem :
    (screen : ℕ × ℕ) (w : Window)
    → ((toggle screen w).id ≡ w.id) × ((toggle screen w).state ≡ w.state)
unfolding toggle
toggle_lem screen w = ground arith

-- A window keeps its id and whether it is open.
kept-IsWindows :
    (s : Windows) (i : ℕ) (w : Window)
    → IsWindows s
    → i < max_windows
    → w.id ≡ (win_at s.table i).id
    → is_free (win_at s.table i).state ≡ is_free w.state
    → IsWindows (record s { table = set s.table i w })
kept-IsWindows s i w v inside named state =
    set-IsWindows s i w v inside (λ id. same_id id (win_at s.table i) w named state)

moved-IsWindows :
    (screen : ℕ × ℕ) (s : Windows) (i : ℕ) (x y : ℤ)
    → IsWindows s
    → i < max_windows
    → IsWindows (record s { table = move_to screen s.table i x y })
unfolding move_to move_window
moved-IsWindows (sw, sh) s i x y v inside = elim (Bool-cases (win_at s.table i).maximized) [
  | inl full ↦ rw full v
  | inr small ↦ rw small (kept-IsWindows s i _ v inside refl refl)
]

Step-IsWindows : {screen : ℕ × ℕ} {s t : Windows} → Step screen s t → IsWindows s → IsWindows t
unfolding close minimize restore toggle_maximize
Step-IsWindows {screen} (opens s x y w h title room) v =
    create-IsWindows screen s x y w h title v room
Step-IsWindows (closes s idx inside) v =
    set-IsWindows s idx empty v inside (λ id. omega (arith, free_weight id empty refl))
Step-IsWindows (raises s idx inside) v = bring_to_front-IsWindows s idx v inside
Step-IsWindows (hides s idx (inside, seen)) v = kept-IsWindows s idx _ v inside refl seen
Step-IsWindows (shows s idx (inside, seen)) v =
    bring_to_front-IsWindows _ idx (kept-IsWindows s idx _ v inside refl seen) inside
Step-IsWindows {screen} (moves s idx x y inside) v = moved-IsWindows screen s idx x y v inside
Step-IsWindows {screen} (toggles s idx inside) v =
    let same = toggle_lem screen (win_at s.table idx) in
    kept-IsWindows s idx (toggle screen (win_at s.table idx)) v inside same.0
      (ap is_free (sym same.1))

-- Whatever windows are opened, closed, raised, hidden, shown, moved and maximised, as long as the ids
-- do not run out: the table keeps its size, no two open windows have the same id, and no open window
-- has the id 0 or one that is still to be given out.
pub Reached-IsWindows : {screen : ℕ × ℕ} {s : Windows} → Reached screen s → IsWindows s
Reached-IsWindows start = init-IsWindows
Reached-IsWindows (next r step) = Step-IsWindows step (Reached-IsWindows r)
