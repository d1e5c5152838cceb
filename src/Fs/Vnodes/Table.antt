-- ===== src/Fs/Vnodes/Table.antt =====
-- The vnode table as a map from ids to vnodes: what each access by slot means by id.
use barry_os.Common.{
  ◌≡◌, ◌≢◌, ◌⊎◌, suc, some, none, set, if◌then◌else◌, none-ne-some, arith, ◌==◌, ◌+◌, [],
  ℕ_discrete, refl, zero, ne→==, subst, inl, ◌∙◌, sym,
}
use barry_os.Fs.Vnodes.{Vnode, empty, first_slot, List, ℕ, get_or, Option, ◌∷◌}

-- The first vnode of the table with an id.
unfoldable pub node_in : ℕ → List Vnode → Option Vnode
node_in id [] = none
node_in id (v ∷ vs) = if v.id == id then some v else node_in id vs

-- Entry `m` is the first one with the id.
abbrev pub Finds : ℕ → List Vnode → ℕ → Type 0
Finds id [] m = ⊥
Finds id (v ∷ vs) zero = v.id ≡ id
Finds id (v ∷ vs) (suc m) = (v.id ≢ id) × Finds id vs m

-- No two entries in use have one id.
abbrev pub Distinct : List Vnode → Type 0
Distinct [] = Unit
Distinct (v ∷ vs) = ((v.id ≡ 0) ⊎ (node_in v.id vs ≡ none)) × Distinct vs

pub first_slot-some :
    (id : ℕ) (vs : List Vnode) (i : ℕ) {k : ℕ}
    → first_slot id vs i ≡ some k
    → (m : ℕ) × (k ≡ i + m) × Finds id vs m
unfolding first_slot
first_slot-some id [] i e = absurd (none-ne-some e)
first_slot-some id (v ∷ vs) i {k} e = elim (ℕ_discrete v.id id) [
  | yes here ↦ (0, ground arith, here)
  | no later ↦
      let (m, at, finds) = first_slot-some id vs (i + 1) (rw (ne→== _ _ later) at e) in
      (suc m, omega arith, (later, finds))
]

pub first_slot-none :
    (id : ℕ) (vs : List Vnode) (i : ℕ) → first_slot id vs i ≡ none → node_in id vs ≡ none
unfolding first_slot node_in
first_slot-none id [] i e = refl
first_slot-none id (v ∷ vs) i e = ground (arith, first_slot-none id vs (i + 1))

pub Finds-node_in :
    (id : ℕ) (vs : List Vnode) (m : ℕ) → Finds id vs m → node_in id vs ≡ some (get_or vs m empty)
unfolding node_in
Finds-node_in id [] m h = absurd h
Finds-node_in id (v ∷ vs) zero h = ground arith
Finds-node_in id (v ∷ vs) (suc m) h = ground (arith, Finds-node_in id vs m h.1)

pub Finds-id : (id : ℕ) (vs : List Vnode) (m : ℕ) → Finds id vs m → (get_or vs m empty).id ≡ id
Finds-id id [] m h = absurd h
Finds-id id (v ∷ vs) zero h = h
Finds-id id (v ∷ vs) (suc m) h = Finds-id id vs m h.1

pub node_in-id : (id : ℕ) (vs : List Vnode) {v : Vnode} → node_in id vs ≡ some v → v.id ≡ id
unfolding node_in
node_in-id id [] e = absurd (none-ne-some e)
node_in-id id (w ∷ vs) {v} e = ground (arith, node_in-id id vs {v = v})

-- A write that keeps the entry's id.
pub node_in-set :
    (id : ℕ) (vs : List Vnode) (m : ℕ) (v : Vnode) (j : ℕ)
    → Finds id vs m
    → v.id ≡ id
    → node_in j (set vs m v) ≡ (if id == j then some v else node_in j vs)
unfolding node_in
node_in-set id [] m v j h e = absurd h
node_in-set id (w ∷ vs) zero v j h e = ground arith
node_in-set id (w ∷ vs) (suc m) v j h e = ground (arith, node_in-set id vs m v j h.1 e)

-- A write of a new id into a free entry.
pub node_in-fill :
    (vs : List Vnode) (m : ℕ) (v : Vnode) (j : ℕ)
    → Finds 0 vs m
    → node_in v.id vs ≡ none
    → j ≢ 0
    → node_in j (set vs m v) ≡ (if v.id == j then some v else node_in j vs)
unfolding node_in
node_in-fill [] m v j h fresh ne = absurd h
node_in-fill (w ∷ vs) zero v j h fresh ne = ground arith
node_in-fill (w ∷ vs) (suc m) v j h fresh ne = ground (arith, node_in-fill vs m v j h.1)

-- A write of a blank entry over the id's only one.
pub node_in-clear :
    (id : ℕ) (vs : List Vnode) (m : ℕ) (j : ℕ)
    → Finds id vs m
    → Distinct vs
    → id ≢ 0
    → j ≢ 0
    → node_in j (set vs m empty) ≡ (if id == j then none else node_in j vs)
unfolding node_in
node_in-clear id [] m j h d ne nj = absurd h
node_in-clear id (w ∷ vs) zero j h d ne nj = ground (arith, d.0, h)
node_in-clear id (w ∷ vs) (suc m) j h d ne nj =
    ground (arith, node_in-clear id vs m j h.1 d.1 ne nj, d.0, h.0)

pub Distinct-set :
    (id : ℕ) (vs : List Vnode) (m : ℕ) (v : Vnode)
    → Finds id vs m
    → v.id ≡ id
    → Distinct vs
    → Distinct (set vs m v)
Distinct-set id [] m v h e d = absurd h
Distinct-set id (w ∷ vs) zero v h e d =
    (subst (λ k. (k ≡ 0) ⊎ (node_in k vs ≡ none)) (h ∙ sym e) d.0, d.1)
Distinct-set id (w ∷ vs) (suc m) v h e d =
    (ground (arith, d.0, h.0, node_in-set id vs m v w.id h.1 e), Distinct-set id vs m v h.1 e d.1)

pub Distinct-fill :
    (vs : List Vnode) (m : ℕ) (v : Vnode)
    → Finds 0 vs m
    → node_in v.id vs ≡ none
    → Distinct vs
    → Distinct (set vs m v)
unfolding node_in
Distinct-fill [] m v h fresh d = absurd h
Distinct-fill (w ∷ vs) zero v h fresh d = (ground arith, d.1)
Distinct-fill (w ∷ vs) (suc m) v h fresh d = (
  ground (arith, d.0, h.0, node_in-fill vs m v w.id h.1),
  Distinct-fill vs m v h.1 (ground arith) d.1,
)

pub Distinct-clear :
    (id : ℕ) (vs : List Vnode) (m : ℕ)
    → Finds id vs m
    → id ≢ 0
    → Distinct vs
    → Distinct (set vs m empty)
Distinct-clear id [] m h ne d = absurd h
Distinct-clear id (w ∷ vs) zero h ne d = (inl refl, d.1)
Distinct-clear id (w ∷ vs) (suc m) h ne d = (
  ground (arith, d.0, h.0, node_in-clear id vs m w.id h.1 d.1 ne),
  Distinct-clear id vs m h.1 ne d.1,
)
