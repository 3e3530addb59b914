-- ===== src/Memory/Initialize.antt =====
-- src/memory.c: `pmm_initialize`, and the multiboot structures of src/multiboot.h that it reads.
-- A structure is read through the address that points to it: `Ram` gives the 32 bits at an address.
-- The loops over addresses end by themselves; the rounds bound how long one is followed.
pub mod Ranges
pub mod Regions
pub mod Steps
pub mod Result
pub mod WholePages
pub mod Usable
pub mod HighRegion
mod Tests
use projeto_so.Base.{
  ℕ, zero, suc, ◌+◌, ◌*◌, ◌/◌, ◌^◌, bit_and, Bool, Option, none, some, List, ◌==◌, ltb, leb,
  if◌then◌else◌, update, u32, sub_u32, u32_max, codes,
}
use projeto_so.Io.{Run, pure, ◌>>=◌, ◌>>◌}
use projeto_so.Serial.{serial_print}
use projeto_so.Memory.{Pmm, page_size, kernel_base, log, on_bitmap}
use projeto_so.Memory.Frames.{Bitmap, pmm_bitmap_size, bitmap_set, bitmap_clear}

abbrev pub Ram : Type 0
Ram = ℕ → ℕ

abbrev pub dword : Ram → ℕ → ℕ
dword ram address = u32 (ram (u32 address))

-- `multiboot_info_t`: the fields that are read.
pub record MultibootInfo : Type 0 where
  pub flags : ℕ
  pub mods_count : ℕ
  pub mods_addr : ℕ
  pub mmap_length : ℕ
  pub mmap_addr : ℕ

abbrev pub multiboot_flag_mods : ℕ
multiboot_flag_mods = 0x8

abbrev pub multiboot_flag_memmap : ℕ
multiboot_flag_memmap = 0x40

-- `multiboot_memory_map_t`
pub record MemoryMap : Type 0 where
  pub size : ℕ
  pub base_addr_low : ℕ
  pub base_addr_high : ℕ
  pub length_low : ℕ
  pub length_high : ℕ
  pub kind : ℕ  -- the field `type`

abbrev pub memory_map_at : Ram → ℕ → MemoryMap
memory_map_at ram a = record {
  size = dword ram a;
  base_addr_low = dword ram (a + 4);
  base_addr_high = dword ram (a + 8);
  length_low = dword ram (a + 12);
  length_high = dword ram (a + 16);
  kind = dword ram (a + 20);
}

-- `for (addr = …; …; addr += PAGE_SIZE)`, with the test and the change of the bitmap as arguments.
pub for_frames :
    (test : ℕ → Bool) (change : Bitmap → ℕ → Bitmap) (rounds addr : ℕ) → Bitmap → Option Bitmap
for_frames test change zero addr bm = none
for_frames test change (suc n) addr bm =
    let rest = for_frames test change n (u32 (addr + page_size)) (change bm (addr / page_size)) in
    if test addr then rest else some bm

-- An address increased by 4096 at a time leaves 32 bits within 2 ^ 20 rounds.
abbrev pub frame_rounds : ℕ
frame_rounds = suc (2 ^ 20)

-- The loops of steps 2, 3 and 4.
pub clear_frames : ℕ → ℕ → Bitmap → Option Bitmap
clear_frames region_start region_end =
    for_frames (λ addr. ltb addr region_end) bitmap_clear frame_rounds region_start

pub set_frames : ℕ → ℕ → Bitmap → Option Bitmap
set_frames first last = for_frames (λ addr. leb addr last) bitmap_set frame_rounds first

-- The entry at `mmap` of the memory map.
pub visit_entry : MemoryMap → Bitmap → Option Bitmap
visit_entry mmap bm =
    let region_start = mmap.base_addr_low in
    let region_end = u32 (region_start + mmap.length_low) in
    if mmap.kind == 1 then clear_frames region_start region_end bm else some bm

pub walk_map : (rounds : ℕ) → Ram → (mmap limit : ℕ) → Bitmap → Option Bitmap
walk_map zero ram mmap limit bm = none
walk_map (suc n) ram mmap limit bm =
    let rest = λ (b : Bitmap). walk_map n ram (u32 (mmap + dword ram mmap + 4)) limit b in
    let visited = visit_entry (memory_map_at ram mmap) bm in
    if ltb mmap limit then elim visited [ none ↦ none | some b ↦ rest b ] else some bm

-- An entry takes at least the 4 bytes of its size.
abbrev pub map_rounds : ℕ
map_rounds = suc (2 ^ 30)

-- Step 1.
pub fill_words : (left i : ℕ) → Bitmap → Bitmap
fill_words zero i bm = bm
fill_words (suc n) i bm = fill_words n (i + 1) (update bm i u32_max)

-- Step 4, `mods[mod_idx]` being 16 bytes.
pub set_modules : (left mod_idx : ℕ) → Ram → (mods : ℕ) → Bitmap → Option Bitmap
set_modules zero mod_idx ram mods bm = some bm
set_modules (suc n) mod_idx ram mods bm =
    let entry = mods + 16 * mod_idx in
    elim (set_frames (dword ram entry) (dword ram (entry + 4)) bm) [
      | none ↦ none
      | some b ↦ set_modules n (mod_idx + 1) ram mods b
    ]

abbrev pub map_found : List ℕ
map_found = codes "PMM: Multiboot Memory Map detectado!\n"

abbrev pub no_map : List ℕ
no_map = codes "PMM: ERRO! GRUB bloqueou o Memory Map. Todo sistema travado como ocupado.\n"

abbrev pub pmm_ready : List ℕ
pmm_ready = codes "PMM: Gerenciador de RAM Fisica Inicializado via Bitmap.\n"

-- Step 2.
pub clear_available : MultibootInfo → Ram → Run Pmm (Unit {0})
clear_available mbinfo ram =
    let mmap_addr = u32 (mbinfo.mmap_addr + kernel_base) in
    let limit = u32 (mmap_addr + mbinfo.mmap_length) in
    if bit_and mbinfo.flags multiboot_flag_memmap == 0
    then log (serial_print no_map)
    else (log (serial_print map_found) >> on_bitmap (walk_map map_rounds ram mmap_addr limit))

-- Step 4 with its guards.
pub lock_modules : MultibootInfo → Ram → Run Pmm (Unit {0})
lock_modules mbinfo ram =
    if bit_and mbinfo.flags multiboot_flag_mods == 0
    then pure tt
    else if ltb 0 mbinfo.mods_count
    then on_bitmap (set_modules mbinfo.mods_count 0 ram (u32 (mbinfo.mods_addr + kernel_base)))
    else pure tt

unfoldable pub pmm_initialize :
    MultibootInfo → Ram → (kernel_start kernel_end : ℕ) → Run Pmm (Unit {0})
pmm_initialize mbinfo ram kernel_start kernel_end = do
  on_bitmap (λ bm. some (fill_words pmm_bitmap_size 0 bm))
  clear_available mbinfo ram
  on_bitmap (set_frames (sub_u32 kernel_start kernel_base) (sub_u32 kernel_end kernel_base))
  lock_modules mbinfo ram
  on_bitmap (λ bm. some (bitmap_set bm 0))
  log (serial_print pmm_ready)
