-- ===== src/Memory/Initialize/HighRegion.antt =====
-- The high halves of the addresses in the memory map, which `pmm_initialize` does not read.
use projeto_so.Base.{
  ℕ, ◌+◌, ◌-◌, ◌*◌, ◌%◌, ◌^◌, ◌≤◌, ◌<◌, ◌≡◌, ◌≢◌, ◌⊎◌, refl, ◌∙◌, inl, inr, arith, true, false,
  List, [], ◌∷◌, ◌==◌, Bool-cases, sub_u32,
}
use projeto_so.Io.Returns.{Returns, Returns-mono}
use projeto_so.Serial.Ready.{ready_count}
use projeto_so.Memory.{Pmm, page_size, kernel_base}
use projeto_so.Memory.Search.{frames}
use projeto_so.Memory.Frames.{IsWords, used}
use projeto_so.Memory.Initialize.{Ram, MultibootInfo, MemoryMap, pmm_initialize}
use projeto_so.Memory.Initialize.Ranges.{meets}
use projeto_so.Memory.Initialize.Regions.{frees, available}
use projeto_so.Memory.Initialize.Steps.{MapIs, ModulesSound, locked}
use projeto_so.Memory.Initialize.Result.{pmm_initialize_lem}
use projeto_so.Memory.Initialize.WholePages.{Covered}

abbrev pub Listed : MemoryMap → List MemoryMap → Type 0
Listed e [] = ⊥
Listed e (e' ∷ entries) = (e' ≡ e) ⊎ Listed e entries

Listed-available :
    (e : MemoryMap) (entries : List MemoryMap) (c : ℕ)
    → Listed e entries
    → frees e c ≡ true
    → available entries c ≡ true
Listed-available e [] c h free = absurd h
Listed-available e (e' ∷ entries) c (inl same) free = rw (same, free) refl
Listed-available e (e' ∷ entries) c (inr other) free = elim (Bool-cases (frees e' c)) [
  | inl this ↦ rw this refl
  | inr not_this ↦ rw not_this (Listed-available e entries c other free)
]

-- The available regions lie above 4 GiB.
abbrev pub AllHigh : List MemoryMap → Type 0
AllHigh [] = Unit
AllHigh (e ∷ entries) = (e.kind ≡ 1 → 0 < e.base_addr_high) × AllHigh entries

not-Covered :
    (entries : List MemoryMap) (c : ℕ) → AllHigh entries → c < frames → ¬ Covered entries c
not-Covered [] c high small h = h
not-Covered (e ∷ entries) c (high, others) small (inl (kind, from, room)) =
    absurd (omega (arith, high kind))
not-Covered (e ∷ entries) c (high, others) small (inr other) =
    not-Covered entries c others small other

-- Let all available regions of the memory map lie above 4 GiB, and let the low halves of one of
-- them alone, with the high halves taken as 0, describe a region around the whole page `c`; let `c`
-- not be frame 0, nor be met by the loops over the kernel and the modules. Then no available region
-- has this page in it, but `pmm_initialize`, on sound structures and with a port that takes its
-- messages, leaves frame `c` free.
pub pmm_initialize_frees_alias :
    {p : Pmm} (mbinfo : MultibootInfo) (ram : Ram) (kernel_start kernel_end : ℕ)
    (entries : List MemoryMap) (e : MemoryMap) (c : ℕ)
    → MapIs mbinfo ram entries
    → ModulesSound mbinfo ram
    → Listed e entries
    → e.kind ≡ 1
    → e.base_addr_low ≤ c * page_size
    → c * page_size + page_size ≤ e.base_addr_low + e.length_low
    → AllHigh entries
    → c ≢ 0
    → c < frames
    → locked mbinfo ram c ≡ false
    → meets (sub_u32 kernel_start kernel_base) (sub_u32 kernel_end kernel_base + 1) c ≡ false
    → sub_u32 kernel_end kernel_base
      < 2 ^ 32 - page_size + sub_u32 kernel_start kernel_base % page_size
    → IsWords p.pmm_bitmap
    → 130 ≤ ready_count p.bus.inputs
    → Returns
        (pmm_initialize mbinfo ram kernel_start kernel_end)
        p
        (λ _ p'. (used p'.pmm_bitmap c ≡ 0) × (¬ Covered entries c))
pmm_initialize_frees_alias mbinfo ram kernel_start kernel_end entries e c map mods listed kind from
      upto high nonzero small unlocked off low words ready =
    Returns-mono
      (pmm_initialize_lem mbinfo ram kernel_start kernel_end entries map mods low words ready)
      (λ _ p' (w, marks). (
        marks c small
            ∙ rw
                (
                  zero_apart nonzero,
                  unlocked,
                  off,
                  Listed-available e entries c listed (ground (arith, kind, from, upto)),
                )
                refl,
        not-Covered entries c high small,
      ))
  where
    zero_apart : c ≢ 0 → (c == 0) ≡ false
    zero_apart h = ground (arith, h)
