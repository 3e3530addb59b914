-- ===== src/Memory/Initialize/Usable.antt =====
-- What a free frame is good for, once `pmm_initialize` has run on structures whose addresses lie on
-- page boundaries.
use projeto_so.Base.{
  ℕ, ◌+◌, ◌-◌, ◌%◌, ◌^◌, ◌≤◌, ◌<◌, ◌≡◌, ◌≢◌, ◌↔◌, refl, ◌∙◌, inl, inr, arith, false, ◌||◌, List,
  ◌==◌, if◌then◌else◌, Bool-cases, u32, sub_u32, bit_and,
}
use projeto_so.Io.Returns.{Returns, Returns-mono}
use projeto_so.Serial.Ready.{ready_count}
use projeto_so.Memory.{Pmm, page_size, kernel_base}
use projeto_so.Memory.Search.{frames}
use projeto_so.Memory.Frames.{IsWords, used}
use projeto_so.Memory.Initialize.{
  Ram, MultibootInfo, MemoryMap, multiboot_flag_mods, pmm_initialize,
}
use projeto_so.Memory.Initialize.Ranges.{meets}
use projeto_so.Memory.Initialize.Regions.{available}
use projeto_so.Memory.Initialize.Steps.{MapIs, ModulesSound, locked}
use projeto_so.Memory.Initialize.Result.{pmm_initialize_lem}
use projeto_so.Memory.Initialize.WholePages.{
  Apart, meets-Apart, Apart-meets, Covered, AllInPages, available-Covered, Covered-available,
  StartOnPages, ModulesApart, locks-ModulesApart, ModulesApart-locks,
}

-- What the boot loader hands over lies on page boundaries.
abbrev pub OnPages : MultibootInfo → Ram → (kernel_start : ℕ) → List MemoryMap → Type 0
OnPages mbinfo ram kernel_start entries =
    (sub_u32 kernel_start kernel_base % page_size ≡ 0)
    × AllInPages entries
    × (if bit_and mbinfo.flags multiboot_flag_mods == 0
        then Unit
        else StartOnPages mbinfo.mods_count 0 ram (u32 (mbinfo.mods_addr + kernel_base)))

-- Page `c` is memory that nothing else claims.
pub record Usable (mbinfo : MultibootInfo) (ram : Ram) (first last : ℕ) (entries : List MemoryMap)
    (c : ℕ) : Type 0 where
  pub not_first : c ≢ 0
  pub backed : Covered entries c
  pub off_kernel : Apart first last c
  pub off_modules :
      if bit_and mbinfo.flags multiboot_flag_mods == 0
      then Unit
      else ModulesApart mbinfo.mods_count 0 ram (u32 (mbinfo.mods_addr + kernel_base)) c

module _ (mbinfo : MultibootInfo) (ram : Ram) (kernel_start kernel_end : ℕ)
    (entries : List MemoryMap) (aligned : OnPages mbinfo ram kernel_start entries) (c : ℕ) where
  abbrev first : ℕ
  first = sub_u32 kernel_start kernel_base

  abbrev last : ℕ
  last = sub_u32 kernel_end kernel_base

  off_modules_of :
      locked mbinfo ram c ≡ false
      → (if bit_and mbinfo.flags multiboot_flag_mods == 0
          then Unit
          else ModulesApart mbinfo.mods_count 0 ram (u32 (mbinfo.mods_addr + kernel_base)) c)
  off_modules_of h = elim (Bool-cases (bit_and mbinfo.flags multiboot_flag_mods == 0)) [
    | inl absent ↦ rw absent tt
    | inr present ↦ rw present (
        locks-ModulesApart mbinfo.mods_count 0 ram (u32 (mbinfo.mods_addr + kernel_base)) c
          (rw present at (aligned.2)) (rw present at h))
  ]

  off_modules_back :
      (if bit_and mbinfo.flags multiboot_flag_mods == 0
        then Unit
        else ModulesApart mbinfo.mods_count 0 ram (u32 (mbinfo.mods_addr + kernel_base)) c)
      → locked mbinfo ram c ≡ false
  off_modules_back h = elim (Bool-cases (bit_and mbinfo.flags multiboot_flag_mods == 0)) [
    | inl absent ↦ rw absent refl
    | inr present ↦ rw present (
        ModulesApart-locks mbinfo.mods_count 0 ram (u32 (mbinfo.mods_addr + kernel_base)) c
          (rw present at (aligned.2)) (rw present at h))
  ]

  free-Usable :
      {u : ℕ}
      → u ≡ (
          if c == 0 || locked mbinfo ram c || meets first (last + 1) c
          then 1
          else if available entries c
          then 0
          else 1)
      → (u ≡ 0) ↔ Usable mbinfo ram first last entries c
  free-Usable {u} e = (
    λ free. record {
      not_first = λ z. absurd (ground (arith, e, free, z));
      backed = available-Covered entries c aligned.1 (ground (arith, e, free));
      off_kernel = meets-Apart first last c aligned.0 (ground (arith, e, free));
      off_modules = off_modules_of (ground (arith, e, free));
    },
    λ usable.
        e
        ∙ rw
            (
              zero_apart usable.not_first,
              off_modules_back usable.off_modules,
              Apart-meets first last c aligned.0 usable.off_kernel,
              Covered-available entries c aligned.1 usable.backed,
            )
            refl,
  )
    where
      zero_apart : c ≢ 0 → (c == 0) ≡ false
      zero_apart h = ground (arith, h)

-- If the kernel, the modules and the available regions start on page boundaries, and these regions
-- are of whole pages and lie below 4 GiB, `pmm_initialize`, on sound structures and with a port that
-- takes its messages, leaves a frame free just when it is memory to use: not frame 0, wholly inside
-- an available region of the memory map, and without a byte of the kernel's image or of a module,
-- their last addresses included.
pub pmm_initialize-Usable :
    {p : Pmm} (mbinfo : MultibootInfo) (ram : Ram) (kernel_start kernel_end : ℕ)
    (entries : List MemoryMap)
    → MapIs mbinfo ram entries
    → ModulesSound mbinfo ram
    → OnPages mbinfo ram kernel_start entries
    → sub_u32 kernel_end kernel_base < 2 ^ 32 - page_size
    → IsWords p.pmm_bitmap
    → 130 ≤ ready_count p.bus.inputs
    → Returns (pmm_initialize mbinfo ram kernel_start kernel_end) p (λ _ p'.
      (c : ℕ)
      → c < frames
      → (used p'.pmm_bitmap c ≡ 0)
        ↔ Usable mbinfo ram
            (sub_u32 kernel_start kernel_base)
            (sub_u32 kernel_end kernel_base)
            entries
            c)
pmm_initialize-Usable mbinfo ram kernel_start kernel_end entries map mods aligned low words ready =
    Returns-mono
      (pmm_initialize_lem mbinfo ram kernel_start kernel_end entries map mods (omega (arith, low))
        words ready)
      (λ _ p' (w, marks) c h.
        free-Usable mbinfo ram kernel_start kernel_end entries aligned c (marks c h))
