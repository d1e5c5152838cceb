-- ===== src/Mem/Heap/Blocks.antt =====
-- The blocks that the heap hands out: aligned, inside the heap, and apart from one another.
use native.Mathlib.Nat.{div-add-mod', mod-lt, mul-mod_left}
use barry_os.Common.{
  ◌≤◌, ◌≡◌, ◌<◌, ◌+◌, ◌%◌, ◌^◌, ◌-◌, ◌/◌, ◌*◌, arith, Bool-cases, ltb, inl, inr, sym, ltb→ge, List,
  ltb→lt, ◌∷◌, All, refl, if◌then◌else◌, ◌==◌, ◌∙◌, ◌⊎◌, [],
}
use barry_os.Common.Masks.{bit_and_high, positive}
use barry_os.Mem.Heap.{
  BumpAlloc, Layout, alloc, align_up, mark, reset_to, heap_used, heap_free, ℕ, sub64, add64,
}

-- The pointers are ordered, and the heap lies in the memory that the frame bitmap covers.
pub record IsValid (h : BumpAlloc) : Type 0 where
  pub low : h.heap_start ≤ h.next
  pub high : h.next ≤ h.heap_end
  pub small : h.heap_end ≤ 0x1000_0000

-- What Rust guarantees of a layout: the alignment is a power of two, and the size rounded up to it
-- fits a signed word.
pub record IsLayout (l : Layout) (k : ℕ) : Type 0 where
  pub power : l.align ≡ 2 ^ k
  pub word : k < 63
  pub fits : l.size + l.align ≤ 2 ^ 63

-- The next multiple of the alignment.
abbrev pub round_up : ℕ → ℕ → ℕ
round_up start align = (start + align - 1) / align * align

align_up-round :
    (start align k : ℕ)
    → start ≤ 0x1000_0000
    → align ≤ 2 ^ 63
    → k < 63
    → align ≡ 2 ^ k
    → align_up start align ≡ round_up start align
unfolding align_up
align_up-round start align k hs ha hk e =
    let some_align : 0 < align = omega (arith, e, positive k) in
    let unwrapped : sub64 (add64 start align) 1 ≡ start + align - 1 = omega arith in
    let rounded = bit_and_high k 64 (start + align - 1) (omega arith) (omega arith) in
    rw (unwrapped, e) (rw e at rounded)

round_up_bounds :
    (start align : ℕ)
    → 0 < align
    → (start ≤ round_up start align)
      × (round_up start align < start + align)
      × (round_up start align % align ≡ 0)
round_up_bounds start align h =
    let exact = div-add-mod' (start + align - 1) align in
    let short = mod-lt (start + align - 1) h in
    (omega arith, omega arith, mul-mod_left ((start + align - 1) / align) align)

-- What one call of `alloc` does.
pub data Allocates (h : BumpAlloc) (l : Layout) : ℕ × BumpAlloc → Type 0 where
  gives :
      {t : BumpAlloc} (p : ℕ)
      → p % l.align ≡ 0
      → h.next ≤ p
      → p < h.next + l.align
      → p + l.size ≡ t.next
      → t.next ≤ h.heap_end
      → t.heap_start ≡ h.heap_start
      → t.heap_end ≡ h.heap_end
      → Allocates h l (p, t)
  refuses : h.heap_end < round_up h.next l.align + l.size → Allocates h l (0, h)

-- On a valid heap a request with an alignment that is a power of two gets the next aligned address,
-- and the heap ends right behind its block; or it is refused, the heap unchanged, exactly when the
-- block does not fit. The heap stays valid.
pub heap_alloc_lem :
    (h : BumpAlloc) (l : Layout) (k : ℕ)
    → IsValid h
    → IsLayout l k
    → Allocates h l (alloc h l) × IsValid (alloc h l).1
unfolding alloc
heap_alloc_lem h l k v w =
    let at =
      align_up-round h.next l.align k (omega (arith, v.high, v.small)) (omega (arith, w.fits))
        w.word w.power in
    let some_align : 0 < l.align = omega (arith, w.power, positive k) in
    let (above, near, aligned) = round_up_bounds h.next l.align some_align in
    let p = align_up h.next l.align in
    let exact : add64 p l.size ≡ p + l.size = omega (arith, w.fits, v.high, v.small) in
    elim (Bool-cases (ltb h.heap_end (add64 p l.size))) [
      | inl full ↦ rw (full, alloc) (refuses omega (arith, ltb→lt _ _ full), v)
      | inr room ↦
          rw (room, alloc)
            (
              gives p (rw at aligned) (omega arith) (omega arith) (sym exact) (ltb→ge _ _ room) refl
                  refl,
              record { low = omega (arith, v.low); high = ltb→ge _ _ room; small = v.small },
            )
    ]

-- A history of requests: the blocks that are handed out, each an address and a size, and the heap.
unfoldable pub alloc_all : BumpAlloc → List Layout → List (ℕ × ℕ) × BumpAlloc
alloc_all h [] = ([], h)
alloc_all h (l ∷ ls) =
    let (p, h') = alloc h l in
    let (bs, h'') = alloc_all h' ls in (if p == 0 then bs else (p, l.size) ∷ bs, h'')

-- The blocks follow one another between two addresses.
abbrev pub Apart : ℕ → List (ℕ × ℕ) → ℕ → Type 0
Apart lo [] hi = lo ≤ hi
Apart lo ((p, n) ∷ bs) hi = (lo ≤ p) × Apart (p + n) bs hi

Apart-below : (a lo hi : ℕ) (bs : List (ℕ × ℕ)) → a ≤ lo → Apart lo bs hi → Apart a bs hi
Apart-below a lo hi [] h r = omega arith
Apart-below a lo hi ((p, n) ∷ bs) h r = (omega arith, r.1)

abbrev pub AreLayouts : List Layout → Type 0
AreLayouts = All (λ l. (k : ℕ) × IsLayout l k)

-- One request moves `next` up and leaves the heap's bounds alone.
Allocates-bounds :
    {h : BumpAlloc} {l : Layout} {r : ℕ × BumpAlloc}
    → Allocates h l r
    → (h.next ≤ r.1.next) × (r.1.heap_start ≡ h.heap_start) × (r.1.heap_end ≡ h.heap_end)
Allocates-bounds (refuses full) = (omega arith, refl, refl)
Allocates-bounds (gives p aligned above near ends fits same_start same_end) =
    (omega arith, same_start, same_end)

Allocates-Apart :
    {h : BumpAlloc} {l : Layout} {r : ℕ × BumpAlloc} (bs : List (ℕ × ℕ)) (hi : ℕ)
    → Allocates h l r
    → Apart r.1.next bs hi
    → Apart h.next (if r.0 == 0 then bs else (r.0, l.size) ∷ bs) hi
Allocates-Apart bs hi (refuses full) rest = rest
Allocates-Apart {h} {l} bs hi (gives {t} p aligned above near ends fits same_start same_end) rest =
    elim (Bool-cases (p == 0)) [
      | inl null ↦ rw null (Apart-below h.next t.next hi bs (omega arith) rest)
      | inr block ↦ rw block (above, Apart-below (p + l.size) t.next hi bs (omega arith) rest)
    ]

-- On a valid heap, the blocks of a history of requests with proper alignments are handed out in
-- order, without overlap, between the heap's `next` before and after it; the heap stays valid with
-- its bounds.
pub alloc_all-Apart :
    (h : BumpAlloc) (ls : List Layout)
    → IsValid h
    → AreLayouts ls
    → let (bs, t) = alloc_all h ls in
      Apart h.next bs t.next × IsValid t × (t.heap_start ≡ h.heap_start) × (t.heap_end ≡ h.heap_end)
unfolding alloc_all
alloc_all-Apart h [] v ws = (omega arith, v, refl, refl)
alloc_all-Apart h (l ∷ ls) v ws =
    let (made, v') = heap_alloc_lem h l ws.0.0 v ws.0.1 in
    let (apart, v'', start, end) = alloc_all-Apart (alloc h l).1 ls v' ws.1 in
    let (up, same_start, same_end) = Allocates-bounds made in
    (Allocates-Apart _ _ made apart, v'', start ∙ same_start, end ∙ same_end)

next-alloc_all :
    (h : BumpAlloc) (ls : List Layout)
    → IsValid h
    → AreLayouts ls
    → h.next ≤ (alloc_all h ls).1.next
unfolding alloc_all
next-alloc_all h [] v ws = omega arith
next-alloc_all h (l ∷ ls) v ws =
    let (made, v') = heap_alloc_lem h l ws.0.0 v ws.0.1 in
    omega (arith, Allocates-bounds made, next-alloc_all (alloc h l).1 ls v' ws.1)

-- On a valid heap, going back to a mark after a history of requests with proper alignments gives a
-- valid heap with the room used and the room left that it had at the mark.
reset_to-mark :
    (h : BumpAlloc) (ls : List Layout)
    → IsValid h
    → AreLayouts ls
    → let t = reset_to (alloc_all h ls).1 (mark h) in
      IsValid t × (heap_used t ≡ heap_used h) × (heap_free t ≡ heap_free h)
unfolding reset_to mark heap_used heap_free
reset_to-mark h ls v ws =
    let (apart, v', start, end) = alloc_all-Apart h ls v ws in
    ground (arith, next-alloc_all h ls v ws)

-- A mark outside the heap is ignored.
pub reset_to_outside :
    (h : BumpAlloc) (m : ℕ) → (m < h.heap_start) ⊎ (h.heap_end < m) → reset_to h m ≡ h
unfolding reset_to
reset_to_outside h m out = ground arith
