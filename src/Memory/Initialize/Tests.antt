-- ===== src/Memory/Initialize/Tests.antt =====
-- `pmm_initialize` on a machine with one region of memory and one module.
use projeto_so.Base.{
  inl, refl, ℕ, ◌+◌, ◌<◌, ◌≡◌, List, [], ◌∷◌, ◌≢◌, ◌/◌, ◌↔◌, ◌||◌, ◌==◌, if◌then◌else◌, arith,
  update, replicate, sub_u32,
}
use projeto_so.Io.Returns.{Returns}
use projeto_so.Memory.{Pmm, kernel_base, page_size}
use projeto_so.Memory.Search.{frames}
use projeto_so.Memory.Frames.{used, IsWords}
use projeto_so.Memory.Initialize.{Ram, MultibootInfo, MemoryMap, memory_map_at, pmm_initialize}
use projeto_so.Memory.Initialize.Ranges.{meets}
use projeto_so.Memory.Initialize.Regions.{last, more, available}
use projeto_so.Memory.Initialize.Steps.{MapIs, locked}
use projeto_so.Memory.Client.{Users, Reach, count}
use projeto_so.Memory.Handed.{held_pages-Usable}
use projeto_so.Memory.Initialize.WholePages.{Covered}
use projeto_so.Memory.Initialize.HighRegion.{pmm_initialize_frees_alias}
use projeto_so.Memory.Initialize.Usable.{Usable, pmm_initialize-Usable}
use projeto_so.Memory.Initialize.Result.{pmm_initialize_lem}

abbrev mbinfo : MultibootInfo
mbinfo = record {
  flags = 0x48;
  mods_count = 1;
  mods_addr = 0x8000;
  mmap_length = 24;
  mmap_addr = 0x9000;
}

-- The entry of the memory map: 3 MiB from 1 MiB on. The module: 17 bytes from 2 MiB on.
abbrev ram : Ram
ram =
    update
      (update
        (update
          (update (update (update (λ a. 0) 0xC000_9000 20) 0xC000_9004 0x10_0000) 0xC000_900C
            0x30_0000)
          0xC000_9014 1)
        0xC000_8000 0x20_0000)
      0xC000_8004 0x20_0010

abbrev fresh : Pmm
fresh = record { pmm_bitmap = λ i. 0; bus = record { inputs = replicate 130 0x20; trace = [] } }

abbrev entries : List MemoryMap
entries = memory_map_at ram 0xC000_9000 ∷ []

one_region : MapIs mbinfo ram entries
one_region = more (omega arith) (omega arith) (λ h. omega arith) (last (omega arith))

pmm_initialize_lem_example :
    Returns (pmm_initialize mbinfo ram 0xC010_0000 0xC010_4000) fresh (λ _ p'.
      IsWords p'.pmm_bitmap
      × ((c : ℕ)
          → c < frames
          → used p'.pmm_bitmap c ≡ (
              if c == 0
                || locked mbinfo ram c
                || meets (sub_u32 0xC010_0000 kernel_base) (sub_u32 0xC010_4000 kernel_base + 1) c
              then 1
              else if available entries c
              then 0
              else 1)))
pmm_initialize_lem_example =
    pmm_initialize_lem mbinfo ram 0xC010_0000 0xC010_4000 entries one_region (omega arith)
      (omega arith) (λ i. omega arith) (omega arith)

pmm_initialize-Usable_example :
    Returns (pmm_initialize mbinfo ram 0xC010_0000 0xC010_4000) fresh (λ _ p'.
      (c : ℕ)
      → c < frames
      → (used p'.pmm_bitmap c ≡ 0)
        ↔ Usable mbinfo ram
            (sub_u32 0xC010_0000 kernel_base)
            (sub_u32 0xC010_4000 kernel_base)
            entries
            c)
pmm_initialize-Usable_example =
    pmm_initialize-Usable mbinfo ram 0xC010_0000 0xC010_4000 entries one_region (omega arith)
      (omega arith) (omega arith) (λ i. omega arith) (omega arith)

-- One region of 3 MiB, at 4 GiB and 1 MiB, and no module.
abbrev high_ram : Ram
high_ram = update (update ram 0xC000_9008 1) 0xC000_9014 1

abbrev no_modules : MultibootInfo
no_modules = record mbinfo { flags = 0x40 }

abbrev high_entries : List MemoryMap
high_entries = memory_map_at high_ram 0xC000_9000 ∷ []

high_region : MapIs no_modules high_ram high_entries
high_region = more (omega arith) (omega arith) (λ h. omega arith) (last (omega arith))

pmm_initialize_frees_alias_example :
    Returns
      (pmm_initialize no_modules high_ram 0xC010_0000 0xC010_4000)
      fresh
      (λ _ p'. (used p'.pmm_bitmap 0x300 ≡ 0) × (¬ Covered high_entries 0x300))
pmm_initialize_frees_alias_example =
    pmm_initialize_frees_alias no_modules high_ram 0xC010_0000 0xC010_4000 high_entries
      (memory_map_at high_ram 0xC000_9000) 0x300 high_region tt (inl refl) (omega arith)
      (omega arith) (omega arith) ((λ h. omega arith), tt) (omega arith) (omega arith) refl refl
      (omega arith) (λ i. omega arith) (omega arith)

held_pages-Usable_example :
    Returns (pmm_initialize mbinfo ram 0xC010_0000 0xC010_4000) fresh (λ _ p'.
      (s : Users)
      → Reach (record { held = []; pmm = p' }) s
      → (a : ℕ) → count a s.held ≢ 0
      → Usable mbinfo ram
          (sub_u32 0xC010_0000 kernel_base)
          (sub_u32 0xC010_4000 kernel_base)
          entries
          (a / page_size))
held_pages-Usable_example =
    held_pages-Usable mbinfo ram 0xC010_0000 0xC010_4000 entries one_region (omega arith)
      (omega arith) (omega arith) (λ i. omega arith) (omega arith)
