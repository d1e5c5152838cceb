-- ===== src/Mem/MemMap/Totals.antt =====
-- The page totals of a memory map, and what the parser keeps of the loader's table.
use barry_os.Common.{
  ℕ, zero, suc, ◌+◌, ◌-◌, ◌/◌, ◌%◌, ◌<◌, ◌≤◌, ◌≡◌, ◌≢◌, refl, ◌∙◌, List, [], ◌∷◌, ◌++◌, Bool, true,
  Option, none, some, ◌==◌, ltb, ◌||◌, if◌then◌else◌, length, take, get_or, arith, min, length-set,
  get_or-set_self, get_or-set_ne, Bool-cases, inl, inr, leb, ◌&&◌, dec_lt, ℕ_discrete, eq→==, ne→==,
  take-set,
}
use barry_os.Common.Words.{u64_mod}
use barry_os.Mem.MemMap.{
  MemMap, Region, MemoryType, EfiMemoryDescriptor, BootInfo, blank, is_usable, max_regions, push,
  new, bios_fallback_into, push_descriptors, parse_uefi_into, parse_into, region_of, desc_at,
  bootinfo_magic,
}

-- The pages of the regions that pass a test.
pub pages_of : (MemoryType → Bool) → List Region → ℕ
pages_of p [] = 0
pages_of p (r ∷ rs) = (if p r.kind then r.pages else 0) + pages_of p rs

abbrev pub every : MemoryType → Bool
every t = true

-- The counters are the sums over the regions that are kept.
pub record IsTotalled (m : MemMap) : Type 0 where
  pub sized : length m.regions ≡ max_regions
  pub within : m.count ≤ max_regions
  pub totals : m.total_pages ≡ pages_of every (take m.count m.regions) % u64_mod
  pub usables : m.usable_pages ≡ pages_of is_usable (take m.count m.regions) % u64_mod

pages_of-append :
    (p : MemoryType → Bool) (rs : List Region) (r : Region)
    → pages_of p (rs ++ r ∷ []) ≡ pages_of p rs + (if p r.kind then r.pages else 0)
unfolding pages_of
pages_of-append p [] r = ground arith
pages_of-append p (x ∷ rs) r = omega (arith, pages_of-append p rs r)

push-IsTotalled : (m : MemMap) (r : Region) → IsTotalled m → IsTotalled (push m r)
unfolding push
push-IsTotalled m r v = elim (Bool-cases (ltb m.count max_regions)) [
  | inr full ↦ rw (full, push) v
  | inl room ↦
      let kept = take-set m.count m.regions r (ground (arith, v.sized)) in
      rw (room, push)
        (record {
          sized = length-set m.regions m.count r ∙ v.sized;
          within = ground arith;
          totals =
              rw kept (omega (arith, pages_of-append every (take m.count m.regions) r, v.totals));
          usables =
              rw kept
                (ground (arith, pages_of-append is_usable (take m.count m.regions) r, v.usables));
        })
]

bios-IsTotalled : (m : MemMap) → IsTotalled m → IsTotalled (bios_fallback_into m)
unfolding bios_fallback_into
bios-IsTotalled m v = push-IsTotalled _ _ (
    push-IsTotalled _ _
      (record { sized = v.sized; within = v.within; totals = v.totals; usables = v.usables }))

pub new-IsTotalled : IsTotalled new
unfolding new pages_of
new-IsTotalled = omega arith

-- One more region: it is kept if there is room.
push_lem :
    (m : MemMap) (r : Region) (j : ℕ)
    → length m.regions ≡ max_regions
    → m.count ≤ max_regions
    → j < max_regions
    → ((push m r).count ≡ min max_regions (m.count + 1))
      × (length (push m r).regions ≡ max_regions)
      × (get_or (push m r).regions j blank ≡ (if m.count == j then r else get_or m.regions j blank))
unfolding push
push_lem m r j sized within hj = elim (ℕ_discrete m.count j) [
  | yes e ↦
      ground (arith, length-set m.regions m.count r, get_or-set_self m.regions m.count r blank)
  | no ne ↦
      ground (arith, length-set m.regions m.count r, get_or-set_ne m.regions m.count j r blank ne)
]

module _ (read_volatile : ℕ → EfiMemoryDescriptor) where
  push_descriptors-IsTotalled :
      (bi : BootInfo) (k i : ℕ) (m : MemMap)
      → IsTotalled m
      → IsTotalled (push_descriptors read_volatile bi k i m)
  unfolding push_descriptors
  push_descriptors-IsTotalled bi zero i m v = v
  push_descriptors-IsTotalled bi (suc k) i m v =
      push_descriptors-IsTotalled bi k (i + 1) _ (push-IsTotalled m _ v)

  parse_uefi-IsTotalled :
      (bi : BootInfo) (m : MemMap) → IsTotalled m → IsTotalled (parse_uefi_into read_volatile bi m)
  unfolding parse_uefi_into
  parse_uefi-IsTotalled bi m v =
      let v' : IsTotalled (record m { source = "UEFI" }) = record {
        sized = v.sized;
        within = v.within;
        totals = v.totals;
        usables = v.usables;
      } in
      elim (Bool-cases (bi.memmap == 0 || bi.memmap_size == 0 || bi.memmap_desc_size == 0)) [
        | inl missing ↦ rw missing (bios-IsTotalled _ v')
        | inr present ↦ rw present (push_descriptors-IsTotalled bi _ 0 _ v')
      ]

  -- Whatever BootInfo holds, from a map whose counters are the page sums of its regions, all of
  -- them and the usable ones, the parser makes such a map.
  pub parse_into-IsTotalled :
      (b : Option BootInfo) (m : MemMap) → IsTotalled m → IsTotalled (parse_into read_volatile b m)
  unfolding parse_into
  parse_into-IsTotalled none m v = bios-IsTotalled m v
  parse_into-IsTotalled (some bi) m v = elim (Bool-cases (bi.magic == bootinfo_magic)) [
    | inl ours ↦ rw (ours, parse_into) (parse_uefi-IsTotalled bi m v)
    | inr other ↦ rw (other, parse_into) (bios-IsTotalled m v)
  ]

  -- Region `j` of the map after the loop over the descriptors.
  regions-push_descriptors :
      (bi : BootInfo) (k i : ℕ) (m : MemMap) (j : ℕ)
      → length m.regions ≡ max_regions
      → m.count ≤ max_regions
      → j < max_regions
      → let out = push_descriptors read_volatile bi k i m in
        (out.count ≡ min max_regions (m.count + k))
        × (get_or out.regions j blank ≡ (
            if leb m.count j && ltb j (m.count + k)
            then region_of (read_volatile (desc_at bi (i + (j - m.count))))
            else get_or m.regions j blank))
  unfolding push_descriptors
  regions-push_descriptors bi zero i m j sized within hj = (omega arith, ground arith)
  regions-push_descriptors bi (suc k) i m j sized within hj =
      let r : Region = region_of (read_volatile (desc_at bi i)) in
      let (counted, sized', at) = push_lem m r j sized within hj in
      let (total, later) =
        regions-push_descriptors bi k (i + 1) (push m r) j sized' (omega arith) hj in
      (
        omega arith,
        later ∙ (elim (dec_lt m.count j) [
          | yes past ↦
              let next : i + 1 + (j - (push m r).count) ≡ i + (j - m.count) = omega arith in
              rw next (ground (arith, at))
          | no before ↦ elim (ℕ_discrete m.count j) [
            | yes e ↦ let here : i + (j - m.count) ≡ i = omega arith in rw here (ground (arith, at))
            | no ne ↦ ground (arith, at)
          ]
        ]),
      )

  -- From an empty map and a marked, non-empty table, the parser keeps the first 32 descriptors of
  -- the loader's table, in order, and counts them.
  pub regions-parse_into :
      (bi : BootInfo) (j : ℕ)
      → bi.magic ≡ bootinfo_magic
      → bi.memmap ≢ 0
      → bi.memmap_size ≢ 0
      → bi.memmap_desc_size ≢ 0
      → j < max_regions
      → j < bi.memmap_size / bi.memmap_desc_size
      → let out = parse_into read_volatile (some bi) new in
        (out.count ≡ min max_regions (bi.memmap_size / bi.memmap_desc_size))
        × (get_or out.regions j blank ≡ region_of (read_volatile (desc_at bi j)))
  unfolding parse_into parse_uefi_into new
  regions-parse_into bi j magic present size desc_size hj hn =
      let start : MemMap = record new { source = "UEFI" } in
      let (counted, at) =
        regions-push_descriptors bi (bi.memmap_size / bi.memmap_desc_size) 0 start j refl
          (omega arith) hj in
      let same : 0 + (j - 0) ≡ j = omega arith in
      rw (eq→== _ _ magic, ne→== _ _ present, ne→== _ _ size, ne→== _ _ desc_size)
        (counted ∙ omega arith, at ∙ rw same (ground arith))
