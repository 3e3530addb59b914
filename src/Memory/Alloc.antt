-- ===== src/Memory/Alloc.antt =====
-- `pmm_alloc_page` takes the first free frame.
use projeto_so.Base.{
  ℕ, ◌*◌, ◌≤◌, ◌<◌, Option, none, some, ◌≡◌, refl, ◌∙◌, inl, inr, arith, ◌==◌, if◌then◌else◌, u32,
  ◌++◌, sym, Option-cases,
}
use projeto_so.Io.{pure}
use projeto_so.Io.Returns.{
  Returns, Returns-eq, Returns-mono, >>=-Returns, pure-Returns, >>=-none, >>=-run,
}
use projeto_so.Io.Traffic.{sent_on}
use projeto_so.Serial.{uart_data, serial_print}
use projeto_so.Serial.Ready.{ready_count}
use projeto_so.Serial.Print.{Printed, serial_print_returns}
use projeto_so.Memory.{
  Pmm, log, log-run, log-none, log-Returns, out_of_memory, page_size, alloc_from, pmm_alloc_page,
}
use projeto_so.Memory.Frames.{Bitmap, used, used-bitmap_set, bitmap_set, pmm_bitmap_size}
use projeto_so.Memory.Search.{frames, AllUsed, found, full, alloc-Search, first_unique}

-- If frame `f` is free and every frame before it is in use, `pmm_alloc_page` returns the address of
-- `f`, marks `f` and no other frame, and logs nothing.
pub pmm_alloc_page_first :
    (p : Pmm) (f : ℕ)
    → f < frames
    → used p.pmm_bitmap f ≡ 0
    → AllUsed p.pmm_bitmap 0 f
    → (bm : Bitmap) × (pmm_alloc_page p ≡ some (f * page_size, record p { pmm_bitmap = bm }))
      × ((c : ℕ) → used bm c ≡ (if f == c then 1 else used p.pmm_bitmap c))
unfolding pmm_alloc_page
pmm_alloc_page_first p f inside free before = elim (alloc-Search p.pmm_bitmap) [
  | full taken e ↦ absurd (omega (arith, taken f (omega arith) inside))
  | found g lo hi free_g before_g e ↦
      let same : g ≡ f = first_unique p.pmm_bitmap g f free_g before_g free before in
      let address : u32 (f * page_size) ≡ f * page_size = omega arith in
      let e' : alloc_from pmm_bitmap_size 0 p.pmm_bitmap
          ≡ some (bitmap_set p.pmm_bitmap f, f * page_size) =
        e ∙ rw (same, address) refl in
      (bitmap_set p.pmm_bitmap f, rw (e', pmm_alloc_page) refl, used-bitmap_set p.pmm_bitmap f)
]

pub pmm_alloc_page-Printed :
    (p : Pmm)
    → AllUsed p.pmm_bitmap 0 frames
    → 35 ≤ ready_count p.bus.inputs
    → Returns pmm_alloc_page p (λ address p'.
      (address ≡ 0) × (p'.pmm_bitmap ≡ p.pmm_bitmap) × Printed out_of_memory p.bus p'.bus)
unfolding pmm_alloc_page
pmm_alloc_page-Printed p taken ready = elim (alloc-Search p.pmm_bitmap) [
  | found f lo hi free before e ↦ absurd (omega (arith, taken f lo hi))
  | full all e ↦ Returns-eq (rw (e, pmm_alloc_page) refl) (
      >>=-Returns {Q = λ a p'. (a ≡ 0) × (p'.pmm_bitmap ≡ p.pmm_bitmap) × _} (λ _. pure 0)
        (log-Returns (serial_print out_of_memory) p
          (serial_print_returns out_of_memory p.bus (omega arith)))
        (λ _ p' logged. pure-Returns (refl, logged.0, logged.1)))
]

-- If no frame is free, `pmm_alloc_page` returns 0 and leaves the bitmap; it logs the failure, once
-- the serial port has taken the 35 bytes of the message.
pub pmm_alloc_page_full :
    (p : Pmm)
    → AllUsed p.pmm_bitmap 0 frames
    → 35 ≤ ready_count p.bus.inputs
    → Returns pmm_alloc_page p (λ address p'.
      (address ≡ 0)
      × (p'.pmm_bitmap ≡ p.pmm_bitmap)
      × (sent_on uart_data p'.bus.trace ≡ sent_on uart_data p.bus.trace ++ out_of_memory))
pmm_alloc_page_full p taken ready =
    Returns-mono (pmm_alloc_page-Printed p taken ready)
      (λ _ p' (none_left, kept, printed). (none_left, kept, printed.sent_text))

-- What a call of `pmm_alloc_page` that returned has done.
pub data Allocated (p : Pmm) (address : ℕ) (p' : Pmm) : Type 0 where
  page :
      (f : ℕ)
      → f < frames
      → used p.pmm_bitmap f ≡ 0
      → AllUsed p.pmm_bitmap 0 f
      → address ≡ f * page_size
      → p'.pmm_bitmap ≡ bitmap_set p.pmm_bitmap f
      → Allocated p address p'
  nothing :
      AllUsed p.pmm_bitmap 0 frames
      → address ≡ 0
      → p'.pmm_bitmap ≡ p.pmm_bitmap
      → Allocated p address p'

pub pmm_alloc_page-Allocated :
    (p : Pmm) {address : ℕ} {p' : Pmm}
    → pmm_alloc_page p ≡ some (address, p')
    → Allocated p address p'
unfolding pmm_alloc_page
pmm_alloc_page-Allocated p {address} {p'} r = elim (alloc-Search p.pmm_bitmap) [
  | found f lo hi free before e ↦
      let got : ◌≡◌ {A = Option (ℕ × Pmm)}
          (some (u32 (f * page_size), record p { pmm_bitmap = bitmap_set p.pmm_bitmap f }))
          (some (address, p')) =
        sym (rw (e, pmm_alloc_page) refl) ∙ r in
      page f hi free before (ground arith) (ground arith)
  | full taken e ↦ elim (Option-cases (serial_print out_of_memory p.bus)) [
    | inl waits ↦
        let stuck : ◌≡◌ {A = Option (ℕ × Pmm)} none (some (address, p')) =
          sym (
            rw (e, pmm_alloc_page)
              (>>=-none (log (serial_print out_of_memory)) _
                (log-none (serial_print out_of_memory) p waits)))
          ∙ r in
        cc
    | inr ((u, b), logged) ↦
        let got : ◌≡◌ {A = Option (ℕ × Pmm)} (some (0, record p { bus = b })) (some (address, p')) =
          sym (
            rw (e, pmm_alloc_page)
              (>>=-run (log (serial_print out_of_memory)) _
                (log-run (serial_print out_of_memory) p logged)))
          ∙ r in
        nothing taken (ground arith) (ground arith)
  ]
]
