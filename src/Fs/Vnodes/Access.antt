-- ===== src/Fs/Vnodes/Access.antt =====
-- Reads and writes of the vnode table by id.
use barry_os.Common.{
  ℕ_discrete, ◌≢◌, ◌≡◌, none, inl, some, if◌then◌else◌, none-ne-some, ◌⊎◌, inr, arith, ◌==◌, ◌∙◌,
  sym, Option-cases, subst, refl, some-eq, length-set, ap,
}
use barry_os.Fs.Vnodes.Table.{
  Distinct, Finds, first_slot-some, node_in-set, Distinct-set, node_in, Distinct-fill, node_in-fill,
  Finds-id, first_slot-none, node_in-clear, Distinct-clear, Finds-node_in,
}
use barry_os.Fs.Vnodes.{
  Vnode, Vfs, empty, max_vnodes, find_slot, alloc_slot, vnode_at, write_vnode, get, update, ℕ,
  Option, length, first_slot,
}

-- The vnode of an id.
unfoldable pub node : Vfs → ℕ → Option Vnode
node s id = if id == 0 then none else node_in id s.vnodes

-- A search by id ends at the id's entry, or there is none.
abbrev pub Found : Vfs → ℕ → Type 0
Found s id =
    ((find_slot s id ≡ none) × (node s id ≡ none))
    ⊎ ((k : ℕ) × (find_slot s id ≡ some k)
        × (node s id ≡ some (vnode_at s k))
        × (id ≢ 0)
        × Finds id s.vnodes k)

pub find_cases : (s : Vfs) (id : ℕ) → Found s id
unfolding node find_slot vnode_at
find_cases s id = elim (ℕ_discrete id 0) [
  | yes e ↦ inl (ground arith, ground arith)
  | no ne ↦ elim (Option-cases (first_slot id s.vnodes 0)) [
    | inl e ↦ inl (ground arith, ground (arith, first_slot-none id s.vnodes 0 e))
    | inr (k, e) ↦
        let (m, at, finds) = first_slot-some id s.vnodes 0 e in
        let here = subst (Finds id s.vnodes) {x = m} {y = k} (omega arith) finds in
        inr (k, ground arith, ground (arith, Finds-node_in id s.vnodes k here), ne, here)
  ]
]

-- A field read by id.
pub get_lem {ℓ} :
    {A : Type ℓ} (s : Vfs) (id : ℕ) (f : Vnode → A)
    → get s id f ≡ elim (node s id) [ none ↦ none | some v ↦ some (f v) ]
unfolding get
get_lem s id f = elim (find_cases s id) [
  | inl (e, n) ↦ rw (e, get, n) refl
  | inr (k, e, n, ne, finds) ↦ rw (e, get, n) refl
]

-- The ids in use are one to one.
pub record IsTable (s : Vfs) : Type 0 where
  pub distinct : Distinct s.vnodes
  pub sized : length s.vnodes ≡ max_vnodes

-- Three kinds of write to a slot: over the entry of an id, into a free entry, and of a blank entry.
module _ (s : Vfs) (k : ℕ) (w : Vnode) where
  node-write_self :
      (id j : ℕ)
      → id ≢ 0
      → Finds id s.vnodes k
      → w.id ≡ id
      → node (write_vnode s k w) j ≡ (if id == j then some w else node s j)
  unfolding node write_vnode
  node-write_self id j ne finds e = ground (arith, node_in-set id s.vnodes k w j finds e)

  pub node-write_free :
      (j : ℕ)
      → w.id ≢ 0
      → alloc_slot s ≡ some k
      → node s w.id ≡ none
      → node (write_vnode s k w) j ≡ (if w.id == j then some w else node s j)
  unfolding node write_vnode alloc_slot
  node-write_free j ne e fresh =
      let (m, at, finds) = first_slot-some 0 s.vnodes 0 e in
      let here = subst (Finds 0 s.vnodes) {x = m} {y = k} (omega arith) finds in
      ground (arith, node_in-fill s.vnodes k w j here)

  pub free-IsTable :
      w.id ≢ 0
      → alloc_slot s ≡ some k
      → node s w.id ≡ none
      → IsTable s
      → IsTable (write_vnode s k w)
  unfolding node write_vnode alloc_slot
  free-IsTable ne e fresh t =
      let (m, at, finds) = first_slot-some 0 s.vnodes 0 e in
      let here = subst (Finds 0 s.vnodes) {x = m} {y = k} (omega arith) finds in
      record {
        distinct = Distinct-fill s.vnodes k w here (ground arith) t.distinct;
        sized = length-set s.vnodes k w ∙ t.sized;
      }

pub node-write_new :
    (s : Vfs) (k : ℕ) (w : Vnode) (id j : ℕ)
    → w.id ≡ id
    → id ≢ 0
    → alloc_slot s ≡ some k
    → node s id ≡ none
    → node (write_vnode s k w) j ≡ (if id == j then some w else node s j)
node-write_new s k w id j e ne slot fresh =
    node-write_free s k w j (λ z. ne (sym e ∙ z)) slot (ap (node s) e ∙ fresh)
    ∙ ap (λ i. if i == j then some w else node s j) e

pub node-write_blank :
    (s : Vfs) (id k j : ℕ)
    → IsTable s
    → find_slot s id ≡ some k
    → node (write_vnode s k empty) j ≡ (if id == j then none else node s j)
unfolding node write_vnode
node-write_blank s id k j t e = elim (find_cases s id) [
  | inl (e', n) ↦ absurd (none-ne-some (sym e' ∙ e))
  | inr (k', e', n, ne, finds) ↦
      let here = subst (Finds id s.vnodes) (some-eq (sym e' ∙ e)) finds in
      ground (arith, node_in-clear id s.vnodes k j here t.distinct ne)
]

pub blank-IsTable :
    (s : Vfs) (id k : ℕ) → IsTable s → find_slot s id ≡ some k → IsTable (write_vnode s k empty)
unfolding write_vnode
blank-IsTable s id k t e = elim (find_cases s id) [
  | inl (e', n) ↦ absurd (none-ne-some (sym e' ∙ e))
  | inr (k', e', n, ne, finds) ↦
      let here = subst (Finds id s.vnodes) (some-eq (sym e' ∙ e)) finds in
      record {
        distinct = Distinct-clear id s.vnodes k here ne t.distinct;
        sized = length-set s.vnodes k empty ∙ t.sized;
      }
]

-- A write by id, of fields other than the id, changes the vnode of that id alone, and nothing when
-- there is none.
pub node-update :
    (s : Vfs) (id : ℕ) (f : Vnode → Vnode) (j : ℕ)
    → ((v : Vnode) → (f v).id ≡ v.id)
    → node (update s id f).1 j
      ≡ (if id == j then elim (node s id) [ none ↦ none | some v ↦ some (f v) ] else node s j)
unfolding update vnode_at
node-update s id f j keeps = elim (find_cases s id) [
  | inl (e, n) ↦ rw (e, update, n) (same (ℕ_discrete id j) n)
  | inr (k, e, n, ne, finds) ↦
      rw (e, update, n)
        (node-write_self s k (f (vnode_at s k)) id j ne finds
          (keeps _ ∙ Finds-id id s.vnodes k finds))
]
  where
    same : Dec (id ≡ j) → node s id ≡ none → node s j ≡ (if id == j then none else node s j)
    same (yes e) n = rw (← e) (n ∙ ground arith)
    same (no ne) n = ground arith

pub update-IsTable :
    (s : Vfs) (id : ℕ) (f : Vnode → Vnode)
    → ((v : Vnode) → (f v).id ≡ v.id)
    → IsTable s
    → IsTable (update s id f).1
unfolding update write_vnode vnode_at
update-IsTable s id f keeps t = elim (find_cases s id) [
  | inl (e, n) ↦ rw (e, update) t
  | inr (k, e, n, ne, finds) ↦
      rw (e, update)
        (record {
          distinct =
              Distinct-set id s.vnodes k (f (vnode_at s k)) finds
                (keeps _ ∙ Finds-id id s.vnodes k finds) t.distinct;
          sized = length-set s.vnodes k _ ∙ t.sized;
        })
]
