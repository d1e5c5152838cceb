-- ===== src/Fs/RamFs/Start.antt =====
-- The pool at boot: no byte has an owner.
use barry_os.Fs.Vnodes.Access.{IsTable}
use barry_os.Common.{ℕ, ◌≡◌, All, All-get_or, arith, length, refl}
use barry_os.Fs.Vnodes.{vnode_at, Vnode, empty}
use barry_os.Fs.RamFs.Blocks.{holds, free_owners, owners}
use barry_os.Common.Sums.{sum_below}
use Prim.Native.Nat.{suc, zero}
use barry_os.Fs.RamFs.{new, List, Vfs}
use barry_os.Fs.RamFs.Owners.{file_owners, IsOwned, vnode_holds}

-- No file has bytes.
abbrev pub IsBare : List Vnode → Type 0
IsBare = All (λ w. (w.size ≡ 0) × (w.data_cap ≡ 0))

sum_zero : (n : ℕ) (f : ℕ → ℕ) → ((k : ℕ) → f k ≡ 0) → sum_below n f ≡ 0
unfolding sum_below
sum_zero zero f h = refl
sum_zero (suc n) f h = omega (arith, sum_zero n f h, h n)

bare_slot :
    (v : Vfs) (k : ℕ) → IsBare v.vnodes → ((vnode_at v k).size ≡ 0) × ((vnode_at v k).data_cap ≡ 0)
unfolding vnode_at
bare_slot v k b = All-get_or (λ w. (w.size ≡ 0) × (w.data_cap ≡ 0)) v.vnodes k empty (refl, refl) b

holds_none : (off capacity a : ℕ) → capacity ≡ 0 → holds off capacity a ≡ 0
unfolding holds
holds_none off capacity a e = ground arith

-- At boot, with a table of distinct ids and no bytes in any file, every byte of the pool has at
-- most one owner.
pub new-IsOwned : (v : Vfs) → IsTable v → IsBare v.vnodes → IsOwned (new v)
unfolding file_owners free_owners owners sum_below
new-IsOwned v t b = record {
  table = t;
  listed = record { sized = refl; counted = omega arith; started = omega arith };
  once = λ a. omega (
    arith,
    sum_zero (length v.vnodes) (λ k. vnode_holds a (vnode_at v k))
        (λ k. holds_none _ _ a (bare_slot v k b).1),
    sum_zero 0 (λ k. 0) (λ k. refl),
  );
  fits = λ k. omega (arith, bare_slot v k b);
}
