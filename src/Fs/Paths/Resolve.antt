-- ===== src/Fs/Paths/Resolve.antt =====
-- Resolution follows the components of a path, and composes.
use barry_os.Common.{
  ◌≡◌, ◌++◌, ◌∷◌, if◌then◌else◌, ◌==◌, [], refl, ℕ_discrete, arith, ◌≢◌, ne→==, Bool-cases, inl, ap,
  inr,
}
use barry_os.Fs.Vnodes.{Vfs, root_id, get_parent, find_slot, get}
use barry_os.Fs.Vfs.{lookup}
use barry_os.Fs.Paths.{
  slash, cons_first, split_slash, enter, resolve_parts, resolve, resolve_from, starts_with_slash, ℕ,
  List, ◌++◌,
}

enter-zero : (s : Vfs) (p : List ℕ) → enter s 0 p ≡ 0
unfolding enter lookup get_parent get find_slot
enter-zero s p = ground arith

-- From no vnode a path leads nowhere.
resolve_parts-zero : (s : Vfs) (ps : List (List ℕ)) → resolve_parts s 0 ps ≡ 0
unfolding resolve_parts
resolve_parts-zero s [] = refl
resolve_parts-zero s (p ∷ ps) = ground (arith, resolve_parts-zero s ps, enter-zero s p)

pub resolve_parts-append :
    (s : Vfs) (cur : ℕ) (ps qs : List (List ℕ))
    → resolve_parts s cur (ps ++ qs)
      ≡ (if resolve_parts s cur ps == 0 then 0 else resolve_parts s (resolve_parts s cur ps) qs)
unfolding resolve_parts
resolve_parts-append s cur [] qs = elim (ℕ_discrete cur 0) [
  | yes e ↦ rw e (resolve_parts-zero s qs)
  | no ne ↦ rw (ne→== _ _ ne)
]
resolve_parts-append s cur (p ∷ ps) qs =
    ground (arith, resolve_parts-append s cur ps qs, resolve_parts-append s (enter s cur p) ps qs)

split_slash-ne : (cs : List ℕ) → split_slash cs ≢ []
unfolding split_slash
split_slash-ne [] e = cc
split_slash-ne (c ∷ cs) e = ground (arith, split_slash-ne cs)

-- A path that is joined by a slash has the parts of both.
pub split_slash-append :
    (a b : List ℕ) → split_slash (a ++ slash ∷ b) ≡ split_slash a ++ split_slash b
unfolding split_slash
split_slash-append [] b = refl
split_slash-append (c ∷ cs) b = elim (Bool-cases (c == slash)) [
  | inl here ↦ rw here (ap (◌∷◌ []) (split_slash-append cs b))
  | inr other ↦ rw (other, split_slash-append cs b) (go (split_slash cs) (split_slash-ne cs))
]
  where
    go :
        (ps : List (List ℕ))
        → ps ≢ []
        → cons_first c (ps ++ split_slash b) ≡ cons_first c ps ++ split_slash b
    go [] ne = absurd (ne refl)
    go (p ∷ ps) ne = refl

-- Going along `a/b`, for an `a` that is not empty, is going along `a` and from there, if that is
-- somewhere, along `b`.
pub resolve_from-append :
    (s : Vfs) (cwd c : ℕ) (a b : List ℕ)
    → let d = resolve_from s cwd (c ∷ a) in
      resolve_from s cwd ((c ∷ a) ++ slash ∷ b)
      ≡ (if d == 0 then 0 else resolve_parts s d (split_slash b))
unfolding resolve_from starts_with_slash
resolve_from-append s cwd c a b = rw (split_slash-append (c ∷ a) b) (
    resolve_parts-append s (if c == slash then root_id else cwd) (split_slash (c ∷ a))
      (split_slash b))

-- An absolute path means the same from everywhere.
resolve_from-absolute :
    (s : Vfs) (cwd : ℕ) (a : List ℕ) → resolve_from s cwd (slash ∷ a) ≡ resolve s (slash ∷ a)
unfolding resolve_from starts_with_slash resolve
resolve_from-absolute s cwd a = refl
