-- ===== src/Wm/Window/Ids.antt =====
-- The ids of the open windows are one to one.
use barry_os.Wm.Window.{free_slot}
use barry_os.Wm.Window.Order.{bring_to_front-length, bring_to_front_lem, around}
use barry_os.Wm.Window.{Windows, Window, max_windows, bring_to_front, is_free, win_at, empty}
use barry_os.Common.{
  ℕ, length, List, ◌<◌, ◌∷◌, ◌++◌, set, ◌≡◌, if◌then◌else◌, some, ◌≤◌, ◌+◌, ◌==◌, ◌⊎◌, arith, ◌&&◌,
  not, ap, ◌∙◌, true, length-set, suc, [], Bool-cases, zero, take, inl, subst, drop, some-eq, sym,
  inr,
}

-- How many open windows of the table have the id.
unfoldable pub holders : ℕ → List Window → ℕ
holders id [] = 0
holders id (w ∷ ws) = (if w.id == id && not (is_free w.state) then 1 else 0) + holders id ws

-- The table is whole, no two open windows have the same id, and an open window's id is positive and
-- was given out.
pub record IsWindows (s : Windows) : Type 0 where
  pub whole : length s.table ≡ max_windows
  pub started : 0 < s.next_wid
  pub once : (id : ℕ) → holders id s.table ≤ 1
  pub given : (id : ℕ) → (id ≡ 0) ⊎ (s.next_wid ≤ id) → holders id s.table ≡ 0

holders-append :
    (id : ℕ) (xs ys : List Window) → holders id (xs ++ ys) ≡ holders id xs + holders id ys
unfolding holders
holders-append id [] ys = omega arith
holders-append id (x ∷ xs) ys = omega (arith, holders-append id xs ys)

-- Raising a window changes no id.
holders-bring_to_front :
    (id : ℕ) (ws : List Window) (idx : ℕ)
    → length ws ≡ max_windows
    → idx < max_windows
    → holders id (bring_to_front ws idx) ≡ holders id ws
holders-bring_to_front id ws idx whole inside =
    ap (holders id) (bring_to_front_lem ws idx whole inside)
    ∙ holders-append id (take idx ws) (drop (suc idx) ws ++ win_at ws idx ∷ [])
    ∙ ap (λ n. holders id (take idx ws) + n)
        (holders-append id (drop (suc idx) ws) (win_at ws idx ∷ []))
    ∙ swap (holders id (take idx ws)) (holders id (drop (suc idx) ws))
        (holders id (win_at ws idx ∷ []))
    ∙ ap (λ n. holders id (take idx ws) + n)
        (sym (holders-append id (win_at ws idx ∷ []) (drop (suc idx) ws)))
    ∙ sym (holders-append id (take idx ws) (win_at ws idx ∷ drop (suc idx) ws))
    ∙ ap (holders id) (sym (around ws idx empty (omega (arith, whole))))
  where
    swap : (a b c : ℕ) → a + (b + c) ≡ a + (c + b)
    swap a b c = omega arith

abbrev pub weight : ℕ → Window → ℕ
weight id w = if w.id == id && not (is_free w.state) then 1 else 0

-- A write to one slot.
pub holders-set :
    (id : ℕ) (ws : List Window) (i : ℕ) (w : Window)
    → i < length ws
    → holders id (set ws i w) + weight id (win_at ws i) ≡ holders id ws + weight id w
unfolding holders
holders-set id [] i w lt = absurd (omega arith)
holders-set id (v ∷ ws) zero w lt = omega arith
holders-set id (v ∷ ws) (suc i) w lt = omega (arith, holders-set id ws i w (omega arith))

pub bring_to_front-IsWindows :
    (s : Windows) (idx : ℕ)
    → IsWindows s
    → idx < max_windows
    → IsWindows (record s { table = bring_to_front s.table idx })
bring_to_front-IsWindows s idx v inside = record {
  whole = bring_to_front-length s.table idx v.whole inside;
  started = v.started;
  once = λ id. omega (arith, v.once id, holders-bring_to_front id s.table idx v.whole inside);
  given = λ id h. holders-bring_to_front id s.table idx v.whole inside ∙ v.given id h;
}

-- A write that opens no window under another id.
pub set-IsWindows :
    (s : Windows) (i : ℕ) (w : Window)
    → IsWindows s
    → i < max_windows
    → ((id : ℕ) → weight id w ≤ weight id (win_at s.table i))
    → IsWindows (record s { table = set s.table i w })
set-IsWindows s i w v inside fewer = record {
  whole = length-set s.table i w ∙ v.whole;
  started = v.started;
  once = λ id. omega (arith, v.once id, changed id, fewer id);
  given = λ id h. omega (arith, v.given id h, changed id, fewer id);
}
  where
    changed :
        (id : ℕ)
        → holders id (set s.table i w) + weight id (win_at s.table i)
          ≡ holders id s.table + weight id w
    changed id = holders-set id s.table i w (omega (arith, v.whole))

pub free_slot_lem :
    (n i : ℕ) (ws : List Window) (k : ℕ)
    → free_slot n i ws ≡ some k
    → (k < i + n) × (is_free (win_at ws k).state ≡ true)
unfolding free_slot
free_slot_lem zero i ws k e = cc
free_slot_lem (suc n) i ws k e = elim (Bool-cases (is_free (win_at ws i).state)) [
  | inl here ↦
      subst (λ j. (j < i + suc n) × (is_free (win_at ws j).state ≡ true)) (some-eq (rw here at e))
        (omega arith, here)
  | inr later ↦
      let rest = free_slot_lem n (i + 1) ws k (rw later at e) in (omega (arith, rest.0), rest.1)
]
