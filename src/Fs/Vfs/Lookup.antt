-- ===== src/Fs/Vfs/Lookup.antt =====
-- `lookup` by id: the child of a directory that carries a name.
use barry_os.Common.{
  All, ◌≢◌, ◌≡◌, ◌++◌, false, inl, some, true, ◌∷◌, ◌+◌, ◌≤◌, ◌<◌, Bool-cases, inr, arith, refl,
  none, if◌then◌else◌, ◌==◌, ℕ_discrete,
}
use barry_os.Fs.Vnodes.{Vnode, Vfs, max_name, max_children, has_name, find_slot}
use barry_os.Fs.Vnodes.Access.{node, find_cases, IsTable}
use barry_os.Fs.Vfs.{children, child_matches, lookup_in, lookup, ℕ, Option, List, [], length, Bool}

abbrev pub matches : List ℕ → Option Vnode → Bool
matches name none = false
matches name (some v) = has_name v name

pub child_matches_lem :
    (s : Vfs) (name : List ℕ) (cid : ℕ) → child_matches s name cid ≡ matches name (node s cid)
unfolding child_matches
child_matches_lem s name cid = elim (find_cases s cid) [
  | inl (e, n) ↦ rw (e, child_matches, n) refl
  | inr (k, e, n, _, _) ↦ rw (e, child_matches, n) refl
]

-- The children of an id, none if it is not there.
abbrev pub kids : Option Vnode → List ℕ
kids none = []
kids (some v) = children v

pub lookup_lem :
    (s : Vfs) (parent_id : ℕ) (name : List ℕ)
    → lookup s parent_id name ≡ lookup_in s name (kids (node s parent_id))
unfolding lookup lookup_in
lookup_lem s parent_id name = elim (find_cases s parent_id) [
  | inl (e, n) ↦ rw (e, lookup, n) refl
  | inr (k, e, n, _, _) ↦ rw (e, lookup, n) refl
]

-- Two states that agree on the children's names agree on the lookup.
pub lookup_in-eq :
    (s t : Vfs) (name : List ℕ) (cs : List ℕ)
    → All (λ c. child_matches t name c ≡ child_matches s name c) cs
    → lookup_in t name cs ≡ lookup_in s name cs
unfolding lookup_in
lookup_in-eq s t name [] h = refl
lookup_in-eq s t name (c ∷ cs) h = ground (arith, h.0, lookup_in-eq s t name cs h.1)

-- Id 0 names nothing.
child_matches-zero : (s : Vfs) (name : List ℕ) → child_matches s name 0 ≡ false
unfolding child_matches find_slot
child_matches-zero s name = refl

pub lookup_in-append :
    (s : Vfs) (name : List ℕ) (cs : List ℕ) (c : ℕ)
    → lookup_in s name (cs ++ c ∷ []) ≡ (
        if lookup_in s name cs == 0
        then (if child_matches s name c then c else 0)
        else lookup_in s name cs)
unfolding lookup_in
lookup_in-append s name [] c = ground arith
lookup_in-append s name (d ∷ cs) c = elim (ℕ_discrete d 0) [
  | yes e ↦ rw e (ground (arith, child_matches-zero s name, lookup_in-append s name cs c))
  | no ne ↦ ground (arith, lookup_in-append s name cs c)
]

-- A lookup that finds an id finds a child of that name.
pub lookup_in-matches :
    (s : Vfs) (name : List ℕ) (cs : List ℕ)
    → lookup_in s name cs ≢ 0
    → child_matches s name (lookup_in s name cs) ≡ true
unfolding lookup_in
lookup_in-matches s name [] h = absurd (h refl)
lookup_in-matches s name (c ∷ cs) h = elim (Bool-cases (child_matches s name c)) [
  | inl here ↦ rw (here, lookup_in) here
  | inr later ↦ rw later (lookup_in-matches s name cs (rw later at h))
]

-- What every state of the tree satisfies: the arrays have their sizes, and ids come from the counter.
pub record IsShaped (next_id : ℕ) (v : Vnode) : Type 0 where
  pub buffer : length v.name ≡ max_name + 1
  pub short : v.name_len ≤ max_name
  pub slots : length v.child_ids ≡ max_children
  pub within : v.child_count ≤ max_children
  pub known : All (λ c. c < next_id) (children v)

pub record IsForest (s : Vfs) : Type 0 where
  pub table : IsTable s
  pub shaped : (id : ℕ) (v : Vnode) → node s id ≡ some v → IsShaped s.next_id v
  pub below : (id : ℕ) (v : Vnode) → node s id ≡ some v → id < s.next_id
  pub started : 0 < s.next_id
