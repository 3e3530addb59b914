-- ===== src/Memory/Initialize/Result.antt =====
-- The state that `pmm_initialize` leaves.
use projeto_so.Base.{
  ℕ, ◌+◌, ◌-◌, ◌%◌, ◌^◌, ◌≤◌, ◌<◌, ◌||◌, List, ◌≡◌, refl, arith, ◌==◌, if◌then◌else◌, sub_u32,
}
use projeto_so.Io.{Event}
use projeto_so.Io.Traffic.{still, whole}
use projeto_so.Io.Returns.{Returns, Returns-mono, >>=-Returns}
use projeto_so.Serial.Ready.{ready_count}
use projeto_so.Memory.{Pmm, page_size, kernel_base}
use projeto_so.Memory.Search.{frames}
use projeto_so.Memory.Frames.{IsWords, used}
use projeto_so.Memory.Initialize.{Ram, MultibootInfo, MemoryMap, pmm_initialize, pmm_ready}
use projeto_so.Memory.Initialize.Ranges.{meets}
use projeto_so.Memory.Initialize.Regions.{available}
use projeto_so.Memory.Initialize.Steps.{
  Marked, MapIs, ModulesSound, locked, log-Marked, fill-Marked, clear_available-Marked,
  kernel-Marked, lock_modules-Marked, zero-Marked,
}

-- The mark that frame `c` gets.
abbrev pub mark : MultibootInfo → Ram → (kernel_start kernel_end : ℕ) → List MemoryMap → ℕ → ℕ
mark mbinfo ram kernel_start kernel_end entries c =
    if c == 0
      || locked mbinfo ram c
      || meets (sub_u32 kernel_start kernel_base) (sub_u32 kernel_end kernel_base + 1) c
    then 1
    else if available entries c
    then 0
    else 1

-- The same, with the answers of the port that are left and the traffic since `t`.
pub pmm_initialize-Marked :
    {p : Pmm} {vs : List ℕ} {t : List Event} (left : ℕ) (mbinfo : MultibootInfo) (ram : Ram)
    (kernel_start kernel_end : ℕ) (entries : List MemoryMap)
    → MapIs mbinfo ram entries
    → ModulesSound mbinfo ram
    → sub_u32 kernel_end kernel_base
      < 2 ^ 32 - page_size + sub_u32 kernel_start kernel_base % page_size
    → Marked vs t (used p.pmm_bitmap) (130 + left) p
    → Returns
        (pmm_initialize mbinfo ram kernel_start kernel_end)
        p
        (λ _ p'. Marked vs t (mark mbinfo ram kernel_start kernel_end entries) left p')
unfolding pmm_initialize
pmm_initialize-Marked left mbinfo ram kernel_start kernel_end entries map mods low start =
    >>=-Returns _ (fill-Marked start) (λ _ p₁ m₁.
      >>=-Returns _ (clear_available-Marked left mbinfo ram entries map m₁) (λ _ p₂ m₂.
        >>=-Returns _ (kernel-Marked _ _ low m₂) (λ _ p₃ m₃.
          >>=-Returns _ (lock_modules-Marked mbinfo ram mods m₃) (λ _ p₄ m₄.
            >>=-Returns _ (zero-Marked m₄) (λ _ p₅ m₅.
              Returns-mono (log-Marked left pmm_ready m₅ refl) (λ _ p₆ m₆. record {
                words = m₆.words;
                marks = λ c h. ground (arith, m₆.marks c h);
                spare = m₆.spare;
                busy = m₆.busy;
                left_over = m₆.left_over;
              }))))))

-- Let the memory map and the module list be sound, let the kernel end below the last page of 4 GiB
-- and the words of the bitmap have 32 bits, and let the port get ready 130 times, enough for the
-- messages. Then `pmm_initialize` returns, and of the 2 ^ 20 frames it leaves in use frame 0, those that the loops over the modules and the kernel meet,
-- and those that no entry of type 1 of the memory map makes available; the others are free.
pub pmm_initialize_lem :
    {p : Pmm} (mbinfo : MultibootInfo) (ram : Ram) (kernel_start kernel_end : ℕ)
    (entries : List MemoryMap)
    → MapIs mbinfo ram entries
    → ModulesSound mbinfo ram
    → let first = sub_u32 kernel_start kernel_base in
      let last = sub_u32 kernel_end kernel_base in
      last < 2 ^ 32 - page_size + first % page_size
      → IsWords p.pmm_bitmap
      → 130 ≤ ready_count p.bus.inputs
      → Returns (pmm_initialize mbinfo ram kernel_start kernel_end) p (λ _ p'.
        IsWords p'.pmm_bitmap
        × ((c : ℕ)
            → c < frames
            → used p'.pmm_bitmap c ≡ (
                if c == 0
                  || locked mbinfo ram c
                  || meets (sub_u32 kernel_start kernel_base) (sub_u32 kernel_end kernel_base + 1) c
                then 1
                else if available entries c
                then 0
                else 1)))
pmm_initialize_lem {p} mbinfo ram kernel_start kernel_end entries map mods low words ready =
    Returns-mono
      (pmm_initialize-Marked {vs = p.bus.inputs} {t = p.bus.trace} 0 mbinfo ram kernel_start
        kernel_end entries map mods low
        (record {
          words = words;
          marks = λ c h. refl;
          spare = omega (arith, ready);
          busy = still;
          left_over = whole;
        }))
      (λ _ p' m. (m.words, m.marks))
