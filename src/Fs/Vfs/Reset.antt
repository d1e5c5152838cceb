-- ===== src/Fs/Vfs/Reset.antt =====
-- What `reset` leaves.
use barry_os.Fs.Vnodes.Access.{node, IsTable, free-IsTable, node-write_new}
use barry_os.Fs.Vnodes.Table.{node_in, Distinct}
use Prim.Native.Nat.{suc, zero}
use barry_os.Common.{
  write_at, sym, inl, arith, ℕ, ◌≡◌, replicate, ◌≢◌, refl, none, some, if◌then◌else◌, ne→==,
  ℕ_discrete, ◌∙◌, ◌==◌, some-eq, eq→==, ap, subst, none-ne-some,
}
use barry_os.Fs.Vfs.Lookup.{IsShaped, IsForest}
use barry_os.Fs.Vnodes.{first_slot, vnode_at, empty, set_name_raw, write_vnode, alloc_slot}
use barry_os.Fs.Vfs.{reset, init, root_vnode, Vfs, Vnode, max_vnodes, root_id}

-- The table of blank vnodes.
Distinct-replicate : (n : ℕ) → Distinct (replicate n empty)
Distinct-replicate zero = tt
Distinct-replicate (suc n) = (inl refl, Distinct-replicate n)

node_in-replicate : (n id : ℕ) → id ≢ 0 → node_in id (replicate n empty) ≡ none
unfolding node_in
node_in-replicate zero id ne = refl
node_in-replicate (suc n) id ne = rw (ne→== 0 id (λ z. ne (sym z))) (node_in-replicate n id ne)

abbrev blanks : Vfs
blanks = record { vnodes = replicate max_vnodes empty; next_id = 2 }

blanks-IsTable : IsTable blanks
blanks-IsTable = record { distinct = Distinct-replicate 64; sized = refl }

node-blanks : (id : ℕ) → node blanks id ≡ none
unfolding node
node-blanks id = elim (ℕ_discrete id 0) [
  | yes z ↦ ground arith
  | no nz ↦ ground (arith, node_in-replicate 64 id nz)
]

abbrev root : Vnode
root = root_vnode empty

reset_lem : (s : Vfs) → reset s ≡ write_vnode blanks 0 root
unfolding reset init alloc_slot first_slot vnode_at
reset_lem s = refl

node-reset :
    (id : ℕ) → node (write_vnode blanks 0 root) id ≡ (if root_id == id then some root else none)
unfolding alloc_slot first_slot root_vnode set_name_raw
node-reset id =
    node-write_new blanks 0 root root_id id refl (omega arith) refl (node-blanks root_id)
    ∙ ap (λ o. if root_id == id then some root else o) (node-blanks id)

root-IsShaped : IsShaped 2 root
unfolding root_vnode set_name_raw write_at
root-IsShaped = record {
  buffer = refl;
  short = omega arith;
  slots = refl;
  within = omega arith;
  known = tt;
}

root_at :
    (id : ℕ) (v : Vnode)
    → node (write_vnode blanks 0 root) id ≡ some v
    → (root_id ≡ id) × (root ≡ v)
root_at id v at =
    let it = sym (node-reset id) ∙ at in
    elim (ℕ_discrete root_id id) [
      | yes here ↦ (here, some-eq (rw (eq→== _ _ here) at it))
      | no there ↦ absurd (none-ne-some (rw (ne→== _ _ there) at it))
    ]

-- After `reset` the tree is well formed, whatever it was: it holds the root alone.
pub reset-IsForest :
    (s : Vfs)
    → IsForest (reset s)
      × ((id : ℕ) → node (reset s) id ≡ (if root_id == id then some (root_vnode empty) else none))
unfolding alloc_slot first_slot root_vnode set_name_raw write_vnode
reset-IsForest s = rw (reset_lem s) (
  record {
    table =
        free-IsTable blanks 0 root (λ z. omega (arith, z)) refl (node-blanks root_id)
          blanks-IsTable;
    shaped = λ id v at. subst (IsShaped 2) (root_at id v at).1 root-IsShaped;
    below = λ id v at. omega (arith, (root_at id v at).0);
    started = omega arith;
  },
  node-reset,
)
