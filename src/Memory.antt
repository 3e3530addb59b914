-- ===== src/Memory.antt =====
-- src/memory.c: the allocator of page frames.
-- The loops over addresses and over the memory map take fuel; `none` means that it ran out.
pub mod Frames
pub mod Search
pub mod Alloc
pub mod Client
pub mod Initialize
pub mod Handed
mod Tests
use Frames.{Bitmap, pmm_bitmap_size, bitmap_set, bitmap_clear, bitmap_test}
use projeto_so.Base.{
  ℕ, zero, suc, ◌+◌, ◌*◌, ◌/◌, ◌^◌, bit_and, Option, none, some, ◌==◌, ltb, leb, if◌then◌else◌,
  update, u32, sub_u32, u32_max, codes, List, ◌≡◌, refl,
}
use projeto_so.Io.{Bus, Run, pure, zoom, ◌>>=◌, ◌>>◌}
use projeto_so.Io.Returns.{Returns, returns}
use projeto_so.Serial.{serial_print}

abbrev pub page_size : ℕ
page_size = 4096

abbrev pub kernel_base : ℕ
kernel_base = 0xC000_0000

-- The state of the allocator, and the ports it logs to.
pub record Pmm : Type 0 where
  pub pmm_bitmap : Bitmap
  pub bus : Bus

abbrev pub out_of_memory : List ℕ
out_of_memory = codes "PMM PANIC: Out of physical memory!\n"

-- A call of the serial driver.
abbrev pub log : Run Bus (Unit {0}) → Run Pmm (Unit {0})
log = zoom (λ (p : Pmm). p.bus) (λ p b. record p { bus = b })

module _ (m : Run Bus (Unit {0})) (p : Pmm) where
  pub log-run :
      {b : Bus} {u : Unit {0}} → m p.bus ≡ some (u, b) → log m p ≡ some (u, record p { bus = b })
  log-run e = rw (e, zoom)

  pub log-none : m p.bus ≡ none → log m p ≡ none
  log-none e = rw (e, zoom)

  -- Logging leaves the bitmap.
  pub log-Returns :
      {P : Bus → Type 0}
      → Returns m p.bus (λ _ b. P b)
      → Returns (log m) p (λ _ p'. (p'.pmm_bitmap ≡ p.pmm_bitmap) × P p'.bus)
  log-Returns (returns u b e q) = returns u (record p { bus = b }) (log-run e) (refl, q)

-- A change of the bitmap by a loop.
abbrev pub on_bitmap : (Bitmap → Option Bitmap) → Run Pmm (Unit {0})
on_bitmap f p = elim (f p.pmm_bitmap) [
  | none ↦ none
  | some bm ↦ some (tt, record p { pmm_bitmap = bm })
]

-- The inner loop of `pmm_alloc_page`: bits `j` on of word `i`. The result is the new bitmap and the
-- address `bit * PAGE_SIZE`, as the unsigned number that is returned.
pub alloc_in_word : ℕ → ℕ → ℕ → Bitmap → Option (Bitmap × ℕ)
alloc_in_word zero i j bm = none
alloc_in_word (suc n) i j bm =
    let bit = i * 32 + j in
    let next = alloc_in_word n i (j + 1) bm in
    if bitmap_test bm bit == 0 then some (bitmap_set bm bit, u32 (bit * page_size)) else next

-- The outer loop: words `i` on.
pub alloc_from : ℕ → ℕ → Bitmap → Option (Bitmap × ℕ)
alloc_from zero i bm = none
alloc_from (suc n) i bm =
    let next = alloc_from n (i + 1) bm in
    if bm i == u32_max
    then next
    else elim (alloc_in_word 32 i 0 bm) [ some found ↦ some found | none ↦ next ]

unfoldable pub pmm_alloc_page : Run Pmm ℕ
pmm_alloc_page p = elim (alloc_from pmm_bitmap_size 0 p.pmm_bitmap) [
  | some (bm, address) ↦ some (address, record p { pmm_bitmap = bm })
  | none ↦ (do log (serial_print out_of_memory); pure 0) p
]

unfoldable pub pmm_free_page : ℕ → Run Pmm (Unit {0})
pmm_free_page phys_addr p =
    some (tt, record p { pmm_bitmap = bitmap_clear p.pmm_bitmap (phys_addr / page_size) })
