-- ===== src/Wm/Window/Hits.antt =====
-- What a click hits, and who has the keyboard.
use barry_os.Common.Bits.{and_left, and_right}
use barry_os.Wm.Window.Order.{raised_on_top}
use barry_os.Wm.Window.{index_of, topmost_id, find_id, focus, bring_to_front, is_free}
use barry_os.Wm.Window.Points.{at}
use barry_os.Wm.Window.{Window, max_windows, visible, win_at}
use barry_os.Wm.Window.Points.{hit_below, contains}
use barry_os.Common.{
  ℕ, List, ◌≡◌, arith, Option, ◌<◌, suc, none, ◌-◌, ◌⊎◌, some, ◌&&◌, ◌+◌, true, Option-cases, false,
  inl, zero, subst, ℕ_discrete, clash, inr, Bool-cases, length, ap, Bool, ◌==◌, none-ne-some, ◌∙◌,
  not, ==→eq, ap₂, some-eq, refl,
}

-- A visible window that contains the point.
abbrev pub IsHit : List Window → ℕ → ℕ → ℕ → Type 0
IsHit ws x y i = (visible (win_at ws i) && contains (win_at ws i) x y) ≡ true

-- The result of a search for the top-most hit below `n`.
abbrev TopHit : ℕ → List Window → ℕ → ℕ → Option ℕ → Type 0
TopHit n ws x y none = (i : ℕ) → i < n → ¬ (IsHit ws x y i)
TopHit n ws x y (some k) = (k < n) × IsHit ws x y k × ((i : ℕ) → k < i → i < n → ¬ (IsHit ws x y i))

hit_below-TopHit : (n : ℕ) (ws : List Window) (x y : ℕ) → TopHit n ws x y (hit_below n ws x y)
unfolding hit_below
hit_below-TopHit zero ws x y = λ i lt. absurd (omega arith)
hit_below-TopHit (suc n) ws x y =
    elim (Bool-cases (visible (win_at ws n) && contains (win_at ws n) x y)) [
      | inl hit ↦ rw hit (omega arith, hit, λ i above below. absurd (omega arith))
      | inr miss ↦ rw miss (lower (hit_below n ws x y) miss (hit_below-TopHit n ws x y))
    ]
  where
    not_here :
        (visible (win_at ws n) && contains (win_at ws n) x y) ≡ false
        → (i : ℕ) → i < suc n
        → (i < n → ¬ (IsHit ws x y i))
        → ¬ (IsHit ws x y i)
    not_here miss i lt below = elim (ℕ_discrete i n) [
      | yes e ↦ λ hit. clash (subst (IsHit ws x y) e hit) miss
      | no ne ↦ below (omega (arith, ne))
    ]

    lower :
        (o : Option ℕ)
        → (visible (win_at ws n) && contains (win_at ws n) x y) ≡ false
        → TopHit n ws x y o
        → TopHit (suc n) ws x y o
    lower none miss all = λ i lt. not_here miss i lt (all i)
    lower (some k) miss found =
        (omega (arith, found.0), found.1, λ i above lt. not_here miss i lt (found.2 i above))

-- `at` gives the highest window that is visible and contains the point, and none exactly if there is
-- no such window.
pub at_lem :
    (ws : List Window) (x y : ℕ)
    → ((at ws x y ≡ none) × ((i : ℕ) → i < max_windows → ¬ (IsHit ws x y i)))
      ⊎ ((k : ℕ) × (at ws x y ≡ some k)
          × (k < max_windows)
          × IsHit ws x y k
          × ((i : ℕ) → k < i → i < max_windows → ¬ (IsHit ws x y i)))
unfolding at
at_lem ws x y = elim (Option-cases (hit_below max_windows ws x y)) [
  | inl e ↦ inl (e, subst (TopHit max_windows ws x y) e (hit_below-TopHit max_windows ws x y))
  | inr (k, e) ↦
      let (lt, hit, above) =
        subst (TopHit max_windows ws x y) e (hit_below-TopHit max_windows ws x y) in
      inr (k, e, lt, hit, above)
]

-- A hit in the last slot is the one that `at` gives.
at_top :
    (ws : List Window) (x y : ℕ)
    → IsHit ws x y (max_windows - 1)
    → at ws x y ≡ some (max_windows - 1)
unfolding at
at_top ws x y hit = rw hit

topmost_top :
    (ws : List Window)
    → visible (win_at ws (max_windows - 1)) ≡ true
    → topmost_id ws ≡ (win_at ws (max_windows - 1)).id
unfolding topmost_id
topmost_top ws seen = rw seen

find_id_lem :
    (n i : ℕ) (ws : List Window) (id k : ℕ)
    → find_id n i ws id ≡ some k
    → (k < i + n) × ((win_at ws k).id ≡ id) × (is_free (win_at ws k).state ≡ false)
unfolding find_id
find_id_lem zero i ws id k e = cc
find_id_lem (suc n) i ws id k e =
    elim (Bool-cases ((win_at ws i).id == id && not (is_free (win_at ws i).state))) [
      | inl here ↦ found here (some-eq (rw here at e))
      | inr later ↦
          let rest = find_id_lem n (i + 1) ws id k (rw later at e) in
          (omega (arith, rest.0), rest.1, rest.2)
    ]
  where
    not_false : (b : Bool) → not b ≡ true → b ≡ false
    not_false true h = cc
    not_false false h = refl

    found :
        ((win_at ws i).id == id && not (is_free (win_at ws i).state)) ≡ true
        → i ≡ k
        → (k < i + suc n) × ((win_at ws k).id ≡ id) × (is_free (win_at ws k).state ≡ false)
    found both at_k =
        subst
          (λ j. (j < i + suc n) × ((win_at ws j).id ≡ id) × (is_free (win_at ws j).state ≡ false))
          at_k
          (
            omega arith,
            ==→eq (win_at ws i).id id
                (and_left ((win_at ws i).id == id) (not (is_free (win_at ws i).state)) both),
            not_false (is_free (win_at ws i).state)
                (and_right ((win_at ws i).id == id) (not (is_free (win_at ws i).state)) both),
          )

-- The slot that `index_of` gives holds a window of that id, which is not free.
pub index_of_lem :
    (ws : List Window) (id k : ℕ)
    → index_of ws id ≡ some k
    → (k < max_windows) × ((win_at ws k).id ≡ id) × (is_free (win_at ws k).state ≡ false)
unfolding index_of
index_of_lem ws id k e = elim (Bool-cases (id == 0)) [
  | inl zero_id ↦ absurd (none-ne-some (rw zero_id at e))
  | inr proper ↦
      let found = find_id_lem max_windows 0 ws id k (rw proper at e) in
      (omega (arith, found.0), found.1, found.2)
]

focus-raise :
    (ws : List Window) (id k : ℕ) → index_of ws id ≡ some k → focus ws id ≡ bring_to_front ws k
unfolding focus
focus-raise ws id k e = rw (e, focus)

-- In a whole table, a visible window that is given the focus is the one that the keyboard goes to, and
-- a click on any of its points hits it.
pub focus_lem :
    (ws : List Window) (id k : ℕ)
    → length ws ≡ max_windows
    → index_of ws id ≡ some k
    → visible (win_at ws k) ≡ true
    → (topmost_id (focus ws id) ≡ id)
      × ((x y : ℕ)
          → contains (win_at ws k) x y ≡ true
          → (at (focus ws id) x y ≡ some (max_windows - 1))
            × (win_at (focus ws id) (max_windows - 1) ≡ win_at ws k))
focus_lem ws id k whole e seen = (
  topmost_top (focus ws id) (ap visible top ∙ seen) ∙ ap (λ (w : Window). w.id) top ∙ found.1,
  λ x y inside. (
    at_top (focus ws id) x y (ap (λ w. visible w && contains w x y) top ∙ ap₂ ◌&&◌ seen inside),
    top,
  ),
)
  where
    found : (k < max_windows) × ((win_at ws k).id ≡ id) × (is_free (win_at ws k).state ≡ false)
    found = index_of_lem ws id k e

    top : win_at (focus ws id) (max_windows - 1) ≡ win_at ws k
    top =
        ap (λ l. win_at l (max_windows - 1)) (focus-raise ws id k e)
        ∙ raised_on_top ws k whole found.0
