-- ===== src/Fs/Vfs/Create.antt =====
-- What `create_node` makes, and what it leaves alone.
use barry_os.Common.Words.{u64_mod}
use barry_os.Common.{
  ◌≢◌, ◌≤◌, Bool-cases, ◌≡◌, ◌==◌, ◌<◌, ◌||◌, ltb, some, inl, inr, leb, Option-cases, refl, arith,
  ◌+◌, none, if◌then◌else◌, ◌∙◌, ne→==, ◌++◌, ◌∷◌, [], ap, lt→ltb, take-set, sym, eq→==, ℕ_discrete,
  All, Option, ◌⊎◌,
}
use barry_os.Fs.Vnodes.{
  Vnode, Vfs, VnodeType, empty, max_name, max_children, alloc_id, alloc_slot, write_vnode,
  set_name_raw, has_name, child_count,
}
use barry_os.Fs.Vnodes.Access.{node, node-update, get_lem, node-write_new}
use barry_os.Fs.Vnodes.Names.{IsNamed, name_of, name_of-set_name_raw, has_name_iff}
use barry_os.Fs.Vfs.{
  children, child_matches, lookup_in, lookup, push_child, link_child, new_vnode, place_node,
  create_node, ℕ, List, length,
}
use barry_os.Fs.Vfs.Lookup.{
  IsForest, lookup_lem, child_matches_lem, lookup_in-eq, lookup_in-append, matches, kids,
}

pub push_child-id : (c : ℕ) (v : Vnode) → (push_child c v).id ≡ v.id
unfolding push_child
push_child-id c v = ground arith

module _ (ids : ℕ × ℕ) (s : Vfs) (parent_id : ℕ) (name : List ℕ) (vtype : VnodeType) where
  -- The state before the new vnode is linked into its directory, and after.
  unfoldable pub counted : Vfs
  counted = (alloc_id s).1

  unfoldable pub fresh_vnode : Vnode
  fresh_vnode = new_vnode ids s.next_id vtype parent_id name

  unfoldable pub placed : ℕ → Vfs
  placed slot = link_child (write_vnode counted slot fresh_vnode) parent_id s.next_id

  -- What `create_node` has checked when it returns an id.
  pub record Passed (r : ℕ × Vfs) : Type 0 where
    pub some_name : length name ≢ 0
    pub short_name : length name ≤ max_name
    pub new_name : lookup s parent_id name ≡ 0
    pub room : child_count s parent_id < max_children
    pub free_slot : (slot : ℕ) × (alloc_slot counted ≡ some slot) × (r ≡ (s.next_id, placed slot))

  pub create-Passed :
      (create_node ids s parent_id name vtype).0 ≢ 0
      → Passed (create_node ids s parent_id name vtype)
  unfolding create_node place_node counted fresh_vnode placed alloc_id
  create-Passed made = elim (Bool-cases (length name == 0 || ltb max_name (length name))) [
    | inl bad ↦ absurd (rw (bad, create_node) at made refl)
    | inr fine ↦ elim (Bool-cases (lookup s parent_id name == 0)) [
      | inr taken ↦ absurd (rw (fine, taken, create_node) at made refl)
      | inl unused ↦ elim (Bool-cases (leb max_children (child_count s parent_id))) [
        | inl full ↦ absurd (rw (fine, unused, full, create_node) at made refl)
        | inr room ↦ elim (Option-cases (alloc_slot counted)) [
          | inl no_slot ↦
              absurd (rw (fine, unused, room, no_slot, create_node, place_node) at made refl)
          | inr (slot, e) ↦ record {
            some_name = ground arith;
            short_name = ground arith;
            new_name = ground arith;
            room = ground arith;
            free_slot = (slot, e, rw (fine, unused, room, e, create_node, place_node) refl);
          }
        ]
      ]
    ]
  ]

  module _ (f : IsForest s) (ids_left : s.next_id + 1 < u64_mod) (p : Vnode)
      (has_parent : node s parent_id ≡ some p) where
    unborn : (v : Vnode) → node s s.next_id ≡ some v → ⊥
    unborn v e = absurd (omega (arith, f.below s.next_id v e))

    node-counted : (j : ℕ) → node counted j ≡ node s j
    unfolding counted alloc_id node
    node-counted j = refl

    pub no_newborn : node counted s.next_id ≡ none
    no_newborn = elim (Option-cases (node s s.next_id)) [
      | inl e ↦ node-counted s.next_id ∙ e
      | inr (v, e) ↦ absurd (unborn v e)
    ]

    pub fresh_id : fresh_vnode.id ≡ s.next_id
    unfolding fresh_vnode new_vnode set_name_raw
    fresh_id = refl

    node-written :
        (slot j : ℕ)
        → alloc_slot counted ≡ some slot
        → node (write_vnode counted slot fresh_vnode) j
          ≡ (if s.next_id == j then some fresh_vnode else node s j)
    node-written slot j e =
        node-write_new counted slot fresh_vnode s.next_id j fresh_id (omega (arith, f.started)) e
          no_newborn
        ∙ ap (λ o. if s.next_id == j then some fresh_vnode else o) (node-counted j)

    -- The whole table after the call.
    pub node-placed :
        (slot j : ℕ)
        → alloc_slot counted ≡ some slot
        → node (placed slot) j ≡ (
            if parent_id == j
            then some (push_child s.next_id p)
            else if s.next_id == j
            then some fresh_vnode
            else node s j)
    unfolding placed link_child
    node-placed slot j e =
        node-update (write_vnode counted slot fresh_vnode) parent_id (push_child s.next_id) j
          (push_child-id s.next_id)
        ∙ rw (at_parent, node-written slot j e) refl
      where
        at_parent : node (write_vnode counted slot fresh_vnode) parent_id ≡ some p
        at_parent =
            node-written slot parent_id e
            ∙ rw (ne→== s.next_id parent_id (omega (arith, f.below parent_id p has_parent)))
                has_parent

    -- The directory's entries are those it had, then the new one.
    pub children-pushed :
        Passed (create_node ids s parent_id name vtype)
        → children (push_child s.next_id p) ≡ children p ++ s.next_id ∷ []
    unfolding push_child child_count
    children-pushed q =
        let counted_p : child_count s parent_id ≡ p.child_count =
          ground (arith, get_lem s parent_id (λ v. v.child_count), has_parent) in
        let room : p.child_count < max_children = omega (arith, q.room, counted_p) in
        rw (lt→ltb _ _ room) (
          take-set p.child_count p.child_ids s.next_id
            (omega (arith, (f.shaped parent_id p has_parent).slots)))

    has_name-pushed : (b : List ℕ) → has_name (push_child s.next_id p) b ≡ has_name p b
    unfolding push_child has_name
    has_name-pushed b = ground arith

    pub fresh-IsNamed : length name ≤ max_name → (name_of fresh_vnode ≡ name) × IsNamed fresh_vnode
    unfolding fresh_vnode new_vnode
    fresh-IsNamed h =
        let blank : Vnode = record empty { id = s.next_id; vtype = vtype } in
        let (named, shape) =
          name_of-set_name_raw blank name (record { buffer = refl; short = omega arith }) h in
        (named, record { buffer = shape.buffer; short = shape.short })

    -- A name other than the new vnode's matches what it matched; ids already there keep their names.
    matches_old :
        (slot : ℕ) (nm : List ℕ) (c : ℕ)
        → alloc_slot counted ≡ some slot
        → c < s.next_id
        → child_matches (placed slot) nm c ≡ child_matches s nm c
    matches_old slot nm c e lt =
        child_matches_lem (placed slot) nm c
        ∙ ap (matches nm) (node-placed slot c e)
        ∙ same
        ∙ sym (child_matches_lem s nm c)
      where
        same :
            matches nm (
              if parent_id == c
              then some (push_child s.next_id p)
              else if s.next_id == c
              then some fresh_vnode
              else node s c)
            ≡ matches nm (node s c)
        same = elim (ℕ_discrete parent_id c) [
          | yes here ↦
              rw (eq→== _ _ here)
                (has_name-pushed nm ∙ sym (ap (matches nm) (ap (node s) (sym here) ∙ has_parent)))
          | no there ↦ rw (ne→== _ _ there, ne→== s.next_id c (omega arith)) refl
        ]

    matches_new :
        (slot : ℕ) (nm : List ℕ)
        → alloc_slot counted ≡ some slot
        → child_matches (placed slot) nm s.next_id ≡ has_name fresh_vnode nm
    matches_new slot nm e =
        child_matches_lem (placed slot) nm s.next_id
        ∙ ap (matches nm) (node-placed slot s.next_id e)
        ∙ ground (arith, f.below parent_id p has_parent)

    old_kids :
        (slot q : ℕ) (nm : List ℕ)
        → alloc_slot counted ≡ some slot
        → lookup_in (placed slot) nm (kids (node s q)) ≡ lookup_in s nm (kids (node s q))
    old_kids slot q nm e = lookup_in-eq s (placed slot) nm (kids (node s q)) (each (node s q) refl)
      where
        olds :
            (cs : List ℕ)
            → All (λ c. c < s.next_id) cs
            → All (λ c. child_matches (placed slot) nm c ≡ child_matches s nm c) cs
        olds = elim [ [] ↦ λ h. tt | c ∷ (cs → ih) ↦ λ h. (matches_old slot nm c e h.0, ih h.1) ]

        each :
            (o : Option Vnode)
            → node s q ≡ o
            → All (λ c. child_matches (placed slot) nm c ≡ child_matches s nm c) (kids o)
        each none h = tt
        each (some v) h = olds (children v) (f.shaped q v h).known

    -- A lookup after the call, in the directory and elsewhere.
    lookup-placed_here :
        (slot : ℕ) (nm : List ℕ)
        → Passed (create_node ids s parent_id name vtype)
        → alloc_slot counted ≡ some slot
        → lookup (placed slot) parent_id nm ≡ (
            if lookup s parent_id nm == 0
            then (if has_name fresh_vnode nm then s.next_id else 0)
            else lookup s parent_id nm)
    lookup-placed_here slot nm q e =
        lookup_lem (placed slot) parent_id nm
        ∙ ap (λ o. lookup_in (placed slot) nm (kids o)) (node-placed slot parent_id e)
        ∙ rw (eq→== parent_id parent_id refl, children-pushed q)
            (lookup_in-append (placed slot) nm (children p) s.next_id
              ∙ rw (matches_new slot nm e, before) refl)
      where
        before : lookup_in (placed slot) nm (children p) ≡ lookup s parent_id nm
        before =
            ap (λ o. lookup_in (placed slot) nm (kids o)) (sym has_parent)
            ∙ old_kids slot parent_id nm e
            ∙ sym (lookup_lem s parent_id nm)

    lookup-placed_there :
        (slot q : ℕ) (nm : List ℕ)
        → alloc_slot counted ≡ some slot
        → q ≢ parent_id
        → q ≢ s.next_id
        → lookup (placed slot) q nm ≡ lookup s q nm
    lookup-placed_there slot q nm e here new =
        lookup_lem (placed slot) q nm
        ∙ ap (λ o. lookup_in (placed slot) nm (kids o)) (node-placed slot q e)
        ∙ rw (ne→== parent_id q (λ z. here (sym z)), ne→== s.next_id q (λ z. new (sym z)))
            (old_kids slot q nm e)
        ∙ sym (lookup_lem s q nm)

    -- In a well-formed tree with ids left, a file or directory that `create_node` has made in an
    -- existing vnode is found there under its name.
    pub lookup-create :
        (create_node ids s parent_id name vtype).0 ≢ 0
        → let (id, t) = create_node ids s parent_id name vtype in lookup t parent_id name ≡ id
    lookup-create made =
        let q = create-Passed made in
        let (slot, e, r) = q.free_slot in
        let (named, shape) = fresh-IsNamed q.short_name in
        rw r (
          lookup-placed_here slot name q e
          ∙ rw (q.new_name, (has_name_iff fresh_vnode name shape).1 named) refl)

    -- In a well-formed tree with ids left, the creation in an existing vnode changes no other
    -- lookup: every other name keeps its meaning in every directory but the one that was made.
    pub lookup-create_ne :
        (q : ℕ) (nm : List ℕ)
        → (create_node ids s parent_id name vtype).0 ≢ 0
        → (q ≢ parent_id) ⊎ (nm ≢ name)
        → q ≢ (create_node ids s parent_id name vtype).0
        → lookup (create_node ids s parent_id name vtype).1 q nm ≡ lookup s q nm
    lookup-create_ne q nm made other new =
        let passed = create-Passed made in
        let (slot, e, r) = passed.free_slot in
        let (named, shape) = fresh-IsNamed passed.short_name in
        rw r (
          go slot e named shape passed (ℕ_discrete q parent_id) other
            (λ z. new (z ∙ sym (ap (λ t. t.0) r))))
      where
        go :
            (slot : ℕ)
            → alloc_slot counted ≡ some slot
            → name_of fresh_vnode ≡ name
            → IsNamed fresh_vnode
            → Passed (create_node ids s parent_id name vtype)
            → Dec (q ≡ parent_id)
            → (q ≢ parent_id) ⊎ (nm ≢ name)
            → q ≢ s.next_id
            → lookup (placed slot) q nm ≡ lookup s q nm
        go slot e named shape passed (no there) other fresh =
            lookup-placed_there slot q nm e there fresh
        go slot e named shape passed (yes here) (inl there) fresh = absurd (there here)
        go slot e named shape passed (yes here) (inr differs) fresh = rw here (
            lookup-placed_here slot nm passed e ∙ elim (Bool-cases (has_name fresh_vnode nm)) [
              | inl same ↦
                  absurd (differs (sym ((has_name_iff fresh_vnode nm shape).0 same) ∙ named))
              | inr differ ↦ rw differ (ground arith)
            ])
