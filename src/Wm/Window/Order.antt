-- ===== src/Wm/Window/Order.antt =====
-- Raising a window takes it out of its place and puts it on top; the others keep their order.
use barry_os.Common.{
  List, ℕ, length, ◌≡◌, ◌<◌, ◌++◌, set, take, get_or, ◌∷◌, drop, ap, ◌∙◌, [], ◌-◌, ◌+◌, sym, ap₂,
  arith, gt→leb, get_or-append, suc, append_assoc, length-append, length-take, length-drop,
  set-append, refl, zero,
}
use barry_os.Wm.Window.{bubble, bring_to_front, Window, max_windows, win_at, empty}

swapped :
    (front : List Window) (a b : Window) (back : List Window) (i : ℕ)
    → i ≡ length front
    → set
        (set (front ++ a ∷ b ∷ back) i (win_at (front ++ a ∷ b ∷ back) (i + 1)))
        (i + 1)
        (win_at (front ++ a ∷ b ∷ back) i)
      ≡ (front ++ b ∷ []) ++ a ∷ back
swapped front a b back i e =
    ap₂ (λ p q. set (set (front ++ a ∷ b ∷ back) i p) (i + 1) q)
      (get_or-append front (a ∷ b ∷ back) (i + 1) 1 empty (omega (arith, e)))
      (get_or-append front (a ∷ b ∷ back) i 0 empty (omega (arith, e)))
    ∙ ap (λ l. set l (i + 1) a)
        (set-append front (b ∷ back) i a b e ∙ sym (append_assoc front (b ∷ []) (b ∷ back)))
    ∙ set-append (front ++ b ∷ []) back (i + 1) b a (omega (arith, e, length-append front (b ∷ [])))

bubble-append :
    (back front : List Window) (a : Window) (i : ℕ)
    → i ≡ length front
    → bubble (length back) i (front ++ a ∷ back) ≡ front ++ (back ++ a ∷ [])
unfolding bubble
bubble-append [] front a i e = refl
bubble-append (b ∷ back) front a i e =
    ap (bubble (length back) (i + 1)) (swapped front a b back i e)
    ∙ bubble-append back (front ++ b ∷ []) a (i + 1)
        (omega (arith, e, length-append front (b ∷ [])))
    ∙ append_assoc front (b ∷ []) (back ++ a ∷ [])

-- A list around one of its entries.
pub around {ℓ} :
    {A : Type ℓ} (xs : List A) (i : ℕ) (d : A)
    → i < length xs
    → xs ≡ take i xs ++ get_or xs i d ∷ drop (suc i) xs
around [] i d h = absurd (omega arith)
around (x ∷ xs) zero d h = refl
around (x ∷ xs) (suc i) d h = ap (◌∷◌ x) (around xs i d (omega arith))

-- In a whole table, a window that is raised leaves its place, the windows above it move down by one,
-- and it stands on top.
pub bring_to_front_lem :
    (ws : List Window) (idx : ℕ)
    → length ws ≡ max_windows
    → idx < max_windows
    → bring_to_front ws idx ≡ take idx ws ++ (drop (suc idx) ws ++ win_at ws idx ∷ [])
unfolding bring_to_front
bring_to_front_lem ws idx whole inside = rw (gt→leb max_windows idx inside) (
    ap (bubble (max_windows - 1 - idx) idx) (around ws idx empty (omega (arith, whole)))
    ∙ ap (λ n. bubble n idx (take idx ws ++ win_at ws idx ∷ drop (suc idx) ws))
        {x = max_windows - 1 - idx} {y = length (drop (suc idx) ws)}
        (omega (arith, length-drop (suc idx) ws, whole))
    ∙ bubble-append (drop (suc idx) ws) (take idx ws) (win_at ws idx) idx
        (omega (arith, length-take idx ws, whole)))

pub bring_to_front-length :
    (ws : List Window) (idx : ℕ)
    → length ws ≡ max_windows
    → idx < max_windows
    → length (bring_to_front ws idx) ≡ max_windows
bring_to_front-length ws idx whole inside =
    ap length (bring_to_front_lem ws idx whole inside)
    ∙ omega (
      arith,
      whole,
      length-append (take idx ws) (drop (suc idx) ws ++ win_at ws idx ∷ []),
      length-append (drop (suc idx) ws) (win_at ws idx ∷ []),
      length-take idx ws,
      length-drop (suc idx) ws,
    )

-- The window that was raised is the last of the table.
pub raised_on_top :
    (ws : List Window) (idx : ℕ)
    → length ws ≡ max_windows
    → idx < max_windows
    → win_at (bring_to_front ws idx) (max_windows - 1) ≡ win_at ws idx
raised_on_top ws idx whole inside =
    ap (λ l. win_at l (max_windows - 1))
      (bring_to_front_lem ws idx whole inside
        ∙ sym (append_assoc (take idx ws) (drop (suc idx) ws) (win_at ws idx ∷ [])))
    ∙ get_or-append (take idx ws ++ drop (suc idx) ws) (win_at ws idx ∷ []) (max_windows - 1) 0
        empty
        (omega (
          arith,
          whole,
          length-append (take idx ws) (drop (suc idx) ws),
          length-take idx ws,
          length-drop (suc idx) ws,
        ))
