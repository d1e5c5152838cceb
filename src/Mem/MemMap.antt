-- ===== src/Mem/MemMap.antt =====
-- kernel/src/mem/efi.rs and memmap.rs: the memory map that the boot loader hands over. The memory
-- that BootInfo points to enters as an argument: `none` for a null pointer, and a function that
-- reads the descriptor at an address.
pub mod Totals
use Prim.Native.String.{String}
use barry_os.Common.{
  ℕ, zero, suc, ◌+◌, ◌/◌, ◌%◌, List, Bool, true, false, Option, none, some, ◌==◌, ltb, ◌||◌,
  if◌then◌else◌, set, replicate,
}
use barry_os.Common.Words.{add64, mul64}

pub data MemoryType : Type 0 where
  reserved loader_code loader_data boot_services_code boot_services_data : MemoryType
  runtime_services_code runtime_services_data conventional_memory unusable_memory : MemoryType
  acpi_reclaim_memory acpi_memory_nvs memory_mapped_io memory_mapped_io_port_space : MemoryType
  pal_code persistent_memory : MemoryType

unfoldable pub from_u32 : ℕ → MemoryType
from_u32 v =
    if v == 0
    then reserved
    else if v == 1
    then loader_code
    else if v == 2
    then loader_data
    else if v == 3
    then boot_services_code
    else if v == 4
    then boot_services_data
    else if v == 5
    then runtime_services_code
    else if v == 6
    then runtime_services_data
    else if v == 7
    then conventional_memory
    else if v == 8
    then unusable_memory
    else if v == 9
    then acpi_reclaim_memory
    else if v == 10
    then acpi_memory_nvs
    else if v == 11
    then memory_mapped_io
    else if v == 12
    then memory_mapped_io_port_space
    else if v == 13
    then pal_code
    else if v == 14
    then persistent_memory
    else reserved

unfoldable pub is_usable : MemoryType → Bool
is_usable conventional_memory = true
is_usable _ = false

pub record EfiMemoryDescriptor : Type 0 where
  pub memory_type : ℕ
  pub physical_start : ℕ
  pub virtual_start : ℕ
  pub number_of_pages : ℕ
  pub attribute : ℕ

unfoldable pub region_type : EfiMemoryDescriptor → MemoryType
region_type d = from_u32 d.memory_type

pub record Region : Type 0 where
  pub start : ℕ
  pub pages : ℕ
  pub kind : MemoryType

abbrev pub max_regions : ℕ
max_regions = 32

pub record MemMap : Type 0 where
  pub regions : List Region
  pub count : ℕ
  pub source : String
  pub total_pages : ℕ
  pub usable_pages : ℕ

abbrev pub blank : Region
blank = record { start = 0; pages = 0; kind = reserved }

unfoldable pub new : MemMap
new = record {
  regions = replicate max_regions blank;
  count = 0;
  source = "";
  total_pages = 0;
  usable_pages = 0;
}

unfoldable pub push : MemMap → Region → MemMap
push m r =
    if ltb m.count max_regions
    then record m {
      total_pages = add64 m.total_pages r.pages;
      usable_pages = if is_usable r.kind then add64 m.usable_pages r.pages else m.usable_pages;
      regions = set m.regions m.count r;
      count = m.count + 1;
    }
    else m

pub record BootInfo : Type 0 where
  pub magic : ℕ
  pub memmap : ℕ
  pub memmap_size : ℕ
  pub memmap_desc_size : ℕ
  pub boot_flags : ℕ

abbrev pub bootinfo_magic : ℕ
bootinfo_magic = 0x534F_5252_4142

unfoldable pub boot_flags : Option BootInfo → ℕ
boot_flags none = 0
boot_flags (some bi) = if bi.magic == bootinfo_magic then bi.boot_flags else 0

unfoldable pub is_uefi_boot : Option BootInfo → Bool
is_uefi_boot none = false
is_uefi_boot (some bi) =
    if bi.magic == bootinfo_magic then (if bi.memmap == 0 then false else true) else false

unfoldable pub bios_fallback_into : MemMap → MemMap
bios_fallback_into out =
    let kernel : Region = record { start = 0x10_0000; pages = 256; kind = loader_data } in
    let free : Region = record { start = 0x20_0000; pages = 15872; kind = conventional_memory } in
    push (push (record out { source = "BIOS" }) kernel) free

abbrev pub region_of : EfiMemoryDescriptor → Region
region_of d = record { start = d.physical_start; pages = d.number_of_pages; kind = region_type d }

-- The address of the descriptor that round `i` of the loop reads.
abbrev pub desc_at : BootInfo → ℕ → ℕ
desc_at bi i = add64 bi.memmap (mul64 i bi.memmap_desc_size)

module _ (read_volatile : ℕ → EfiMemoryDescriptor) where
  -- Rounds `i`, `i + 1`, … of the loop, `k` of them.
  unfoldable pub push_descriptors : BootInfo → ℕ → ℕ → MemMap → MemMap
  push_descriptors bi zero i out = out
  push_descriptors bi (suc k) i out =
      push_descriptors bi k (i + 1) (push out (region_of (read_volatile (desc_at bi i))))

  unfoldable pub parse_uefi_into : BootInfo → MemMap → MemMap
  parse_uefi_into bi out =
      let out' = record out { source = "UEFI" } in
      if bi.memmap == 0 || bi.memmap_size == 0 || bi.memmap_desc_size == 0
      then bios_fallback_into out'
      else push_descriptors bi (bi.memmap_size / bi.memmap_desc_size) 0 out'

  unfoldable pub parse_into : Option BootInfo → MemMap → MemMap
  parse_into none out = bios_fallback_into out
  parse_into (some bi) out =
      if bi.magic == bootinfo_magic then parse_uefi_into bi out else bios_fallback_into out
