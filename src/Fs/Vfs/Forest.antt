-- ===== src/Fs/Vfs/Forest.antt =====
-- The tree stays well formed: `create_node` keeps the invariant of the vnode table.
use barry_os.Fs.Vnodes.Access.{node, get_lem, IsTable, update-IsTable, free-IsTable}
use barry_os.Common.Words.{u64_mod}
use barry_os.Common.{
  sym, inl, inr, ℕ, List, All, ◌≤◌, ◌+◌, ◌<◌, ◌++◌, ◌∷◌, [], arith, ◌≡◌, some, length, set, ◌∙◌, ap,
  ℕ_discrete, lt→ltb, some-eq, subst, refl, eq→==, length-set, ne→==, ◌≢◌, Option-cases, if-cases,
  ◌==◌, ◌||◌, ltb, not, leb,
}
use barry_os.Fs.Vfs.Lookup.{IsShaped, IsForest}
use barry_os.Fs.Vfs.Create.{
  counted, fresh_vnode, placed, Passed, create-Passed, push_child-id, node-placed, children-pushed,
  fresh-IsNamed, fresh_id, no_newborn,
}
use barry_os.Fs.Vnodes.{alloc_id, child_count, set_name_raw, update, write_vnode, alloc_slot}
use barry_os.Fs.Vfs.{
  create_node, Vnode, Vfs, VnodeType, children, push_child, new_vnode, child_count, set_name_raw,
  max_children, link_child, max_name, alloc_id, find_slot, place_node, lookup,
}

All-mono : (n m : ℕ) (cs : List ℕ) → n ≤ m → All (λ c. c < n) cs → All (λ c. c < m) cs
All-mono n m [] le h = tt
All-mono n m (c ∷ cs) le h = (omega (arith, h.0), All-mono n m cs le h.1)

All-snoc : (n : ℕ) (cs : List ℕ) → All (λ c. c < n) cs → All (λ c. c < n + 1) (cs ++ n ∷ [])
All-snoc n [] h = (omega arith, tt)
All-snoc n (c ∷ cs) h = (omega (arith, h.0), All-snoc n cs h.1)

update-next : (s : Vfs) (id : ℕ) (f : Vnode → Vnode) → (update s id f).1.next_id ≡ s.next_id
unfolding update write_vnode
update-next s id f = elim (Option-cases (find_slot s id)) [
  | inl e ↦ rw (e, update) refl
  | inr (k, e) ↦ rw (e, update) refl
]

later : (n m : ℕ) (v : Vnode) → n ≤ m → IsShaped n v → IsShaped m v
later n m v le sh = record {
  buffer = sh.buffer;
  short = sh.short;
  slots = sh.slots;
  within = sh.within;
  known = All-mono n m (children v) le sh.known;
}

module _ (ids : ℕ × ℕ) (s : Vfs) (parent_id : ℕ) (name : List ℕ) (vtype : VnodeType)
    (f : IsForest s) (ids_left : s.next_id + 1 < u64_mod) (p : Vnode)
    (has_parent : node s parent_id ≡ some p) where
  abbrev made : ℕ × Vfs
  made = create_node ids s parent_id name vtype

  pushed_eq :
      p.child_count < max_children
      → push_child s.next_id p ≡ record p {
        child_ids = set p.child_ids p.child_count s.next_id;
        child_count = p.child_count + 1;
      }
  unfolding push_child
  pushed_eq lt = rw (lt→ltb _ _ lt) refl

  pushed-IsShaped :
      Passed ids s parent_id name vtype made → IsShaped (s.next_id + 1) (push_child s.next_id p)
  unfolding child_count
  pushed-IsShaped q =
      let sh = f.shaped parent_id p has_parent in
      let counted_p : child_count s parent_id ≡ p.child_count =
        ground (arith, get_lem s parent_id (λ v. v.child_count), has_parent) in
      let lt : p.child_count < max_children = omega (arith, q.room, counted_p) in
      let lt_suc : p.child_count + 1 ≤ max_children = omega arith in
      let kids_p = children-pushed ids s parent_id name vtype f ids_left p has_parent q in
      record {
        buffer = ap (λ v. length v.name) (pushed_eq lt) ∙ sh.buffer;
        short = subst (λ v. v.name_len ≤ max_name) (sym (pushed_eq lt)) sh.short;
        slots =
            ap (λ v. length v.child_ids) (pushed_eq lt)
            ∙ length-set p.child_ids p.child_count s.next_id
            ∙ sh.slots;
        within = subst (λ v. v.child_count ≤ max_children) (sym (pushed_eq lt)) lt_suc;
        known =
            subst (All (λ c. c < s.next_id + 1)) (sym kids_p)
              (All-snoc s.next_id (children p) sh.known);
      }

  fresh-IsShaped :
      length name ≤ max_name → IsShaped (s.next_id + 1) (fresh_vnode ids s parent_id name vtype)
  unfolding fresh_vnode new_vnode set_name_raw
  fresh-IsShaped h =
      let (named, shape) = fresh-IsNamed ids s parent_id name vtype f ids_left p has_parent h in
      record {
        buffer = shape.buffer;
        short = shape.short;
        slots = refl;
        within = omega arith;
        known = tt;
      }

  placed-IsShaped :
      (slot id : ℕ) (v : Vnode)
      → Passed ids s parent_id name vtype made
      → alloc_slot (counted ids s parent_id name vtype) ≡ some slot
      → node (placed ids s parent_id name vtype slot) id ≡ some v
      → IsShaped (s.next_id + 1) v × (id < s.next_id + 1)
  placed-IsShaped slot id v q e at =
      let it =
        sym (node-placed ids s parent_id name vtype f ids_left p has_parent slot id e) ∙ at in
      elim (ℕ_discrete parent_id id) [
        | yes here ↦
            let w = some-eq (rw (eq→== _ _ here) at it) in
            (
              subst (IsShaped (s.next_id + 1)) w (pushed-IsShaped q),
              omega (arith, f.below parent_id p has_parent),
            )
        | no there ↦ elim (ℕ_discrete s.next_id id) [
          | yes here ↦
              let w = some-eq (rw (ne→== _ _ there, eq→== _ _ here) at it) in
              (subst (IsShaped (s.next_id + 1)) w (fresh-IsShaped q.short_name), omega arith)
          | no other ↦
              let w = rw (ne→== _ _ there, ne→== _ _ other) at it in
              (
                later s.next_id (s.next_id + 1) v (omega arith) (f.shaped id v w),
                omega (arith, f.below id v w),
              )
        ]
      ]

  placed-IsTable :
      (slot : ℕ)
      → alloc_slot (counted ids s parent_id name vtype) ≡ some slot
      → IsTable (placed ids s parent_id name vtype slot)
  unfolding placed link_child counted alloc_id
  placed-IsTable slot e =
      let fid = fresh_id ids s parent_id name vtype f ids_left p has_parent in
      let fresh =
        ap (node (counted ids s parent_id name vtype)) fid
        ∙ no_newborn ids s parent_id name vtype f ids_left p has_parent in
      update-IsTable _ parent_id (push_child s.next_id) (push_child-id s.next_id) (
        free-IsTable _ slot (fresh_vnode ids s parent_id name vtype)
          (λ z. omega (arith, z, fid, f.started)) e fresh
          (record { distinct = f.table.distinct; sized = f.table.sized }))

  next_placed : (slot : ℕ) → (placed ids s parent_id name vtype slot).next_id ≡ s.next_id + 1
  unfolding placed link_child counted alloc_id write_vnode
  next_placed slot = update-next _ parent_id (push_child s.next_id) ∙ omega arith

  -- The state with an id given out, on which nothing is placed.
  counted-IsForest : IsForest (counted ids s parent_id name vtype)
  unfolding counted alloc_id node
  counted-IsForest = record {
    table = record { distinct = f.table.distinct; sized = f.table.sized };
    shaped = λ id v at. later s.next_id _ v (omega arith) (f.shaped id v at);
    below = λ id v at. omega (arith, f.below id v at);
    started = omega arith;
  }

  place_node-IsForest :
      (place_node ids s parent_id name vtype).0 ≡ 0
      → IsForest (place_node ids s parent_id name vtype).1
  unfolding place_node counted alloc_id
  place_node-IsForest = elim (Option-cases (alloc_slot (counted ids s parent_id name vtype))) [
    | inl full ↦ rw (full, place_node) (λ z. counted-IsForest)
    | inr (slot, e) ↦ rw (e, place_node) (λ z. absurd (omega (arith, z, f.started)))
  ]

  refused-IsForest : made.0 ≡ 0 → IsForest made.1
  unfolding create_node
  refused-IsForest =
      let P : ℕ × Vfs → Type 0 = λ o. o.0 ≡ 0 → IsForest o.1 in
      if-cases P (length name == 0 || ltb max_name (length name)) _ _ (λ bad z. f)
        λ fine.
          if-cases P (not (lookup s parent_id name == 0)) _ _ (λ taken z. f)
            λ unused.
              if-cases P (leb max_children (child_count s parent_id)) _ _ (λ full z. f)
                (λ room. place_node-IsForest)

  made-IsForest : made.0 ≢ 0 → IsForest made.1
  made-IsForest nonzero =
      let q = create-Passed ids s parent_id name vtype nonzero in
      let (slot, e, r) = q.free_slot in
      rw r (record {
        table = placed-IsTable slot e;
        shaped = λ id v at.
            subst (λ n. IsShaped n v) (sym (next_placed slot)) (placed-IsShaped slot id v q e at).0;
        below = λ id v at. omega (arith, next_placed slot, (placed-IsShaped slot id v q e at).1);
        started = omega (arith, next_placed slot);
      })

  -- In a well-formed tree with ids left, `create_node` in an existing vnode leaves the tree well
  -- formed, whether it makes a vnode or refuses: ids one to one and below the counter, child arrays
  -- and names in bounds, children below the counter.
  pub create_node-IsForest : IsForest (create_node ids s parent_id name vtype).1
  create_node-IsForest = elim (ℕ_discrete made.0 0) [
    | yes none_made ↦ refused-IsForest none_made
    | no nonzero ↦ made-IsForest nonzero
  ]
