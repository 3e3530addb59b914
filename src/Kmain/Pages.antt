-- ===== src/Kmain/Pages.antt =====
-- The part of `kmain` that sets up the allocator, and the page that it takes to try it.
use projeto_so.Base.{
  ℕ, zero, suc, ◌+◌, ◌*◌, ◌-◌, ◌^◌, ◌%◌, ◌≤◌, ◌<◌, ◌≡◌, refl, sym, ap, ◌∙◌, arith, true, false,
  codes, List, ◌==◌, ltb, if◌then◌else◌, sub_u32,
}
use projeto_so.Io.{Event, zoom}
use projeto_so.Io.Returns.{Returns, returns, >>=-Returns, Returns-mono, zoom-Returns}
use projeto_so.Io.Traffic.{Busy-trans, Tail-trans}
use projeto_so.Memory.{page_size, kernel_base, pmm_alloc_page}
use projeto_so.Memory.Search.{frames, alloc-Search, found, full}
use projeto_so.Memory.Alloc.{pmm_alloc_page_first, pmm_alloc_page-Printed}
use projeto_so.Memory.Frames.{Bitmap, IsWords, used}
use projeto_so.Memory.Initialize.{Ram, MultibootInfo, MemoryMap, pmm_initialize}
use projeto_so.Memory.Initialize.Steps.{MapIs, ModulesSound}
use projeto_so.Memory.Initialize.Result.{mark, pmm_initialize-Marked}
use projeto_so.Kmain.{Machine, Image, bus_of, on_pmm, print, set_up_memory}
use projeto_so.Kmain.Steps.{>>-Returns, Along, Along-fewer, print-Along}

-- Of frames with the marks `u` the first free one was taken, if there was one.
pub data FirstTaken (u : ℕ → ℕ) (bm : Bitmap) : Type 0 where
  page :
      (f : ℕ)
      → f < frames
      → u f ≡ 0
      → ((c : ℕ) → c < f → u c ≡ 1)
      → ((c : ℕ) → c < frames → used bm c ≡ (if f == c then 1 else u c))
      → FirstTaken u bm
  nothing :
      ((c : ℕ) → c < frames → u c ≡ 1) → ((c : ℕ) → c < frames → used bm c ≡ 1) → FirstTaken u bm

abbrev pub with_bitmap : Machine → Bitmap → Machine
with_bitmap m bm = record m { pmm_bitmap = bm }

-- The frames have the marks `u`.
record Mapped (u : ℕ → ℕ) (ref : Machine) (vs : List ℕ) (t : List Event) (left : ℕ) (m : Machine)
    : Type 0 where
  pub bitmap : Bitmap
  pub marks : (c : ℕ) → c < frames → used bitmap c ≡ u c
  pub along : Along (with_bitmap ref bitmap) vs t left m

initialize-Mapped :
    {ref : Machine} {vs : List ℕ} {t : List Event} {left : ℕ} {m : Machine} (mbinfo : MultibootInfo)
    (ram : Ram) (kernel_start kernel_end : ℕ) (entries : List MemoryMap)
    → MapIs mbinfo ram entries
    → ModulesSound mbinfo ram
    → sub_u32 kernel_end kernel_base
      < 2 ^ 32 - page_size + sub_u32 kernel_start kernel_base % page_size
    → IsWords ref.pmm_bitmap
    → 130 ≤ left
    → Along ref vs t left m
    → Returns
        (on_pmm (pmm_initialize mbinfo ram kernel_start kernel_end))
        m
        (λ _ m'. Mapped (mark mbinfo ram kernel_start kernel_end entries) ref vs t (left - 130) m')
initialize-Mapped {left} mbinfo ram kernel_start kernel_end entries map mods low words room a =
    zoom-Returns _ _
      (pmm_initialize-Marked (left - 130) mbinfo ram kernel_start kernel_end entries map mods low
        (record {
          words = rw (ap (λ b. b.0) a.same) words;
          marks = λ c h. refl;
          spare = omega (arith, room, a.spare);
          busy = a.busy;
          left_over = a.left_over;
        }))
      (λ _ p marked. record {
        bitmap = p.pmm_bitmap;
        marks = marked.marks;
        along = record {
          same = ap (λ b. (p.pmm_bitmap, b.1, b.2, b.3, b.4)) a.same;
          spare = marked.spare;
          busy = marked.busy;
          left_over = marked.left_over;
        };
      })

-- What the call of `pmm_alloc_page` leaves: the frame's address, or 0 and a message of 35 bytes.
data Tried (u : ℕ → ℕ) (ref : Machine) (vs : List ℕ) (t : List Event) (left : ℕ) (address : ℕ)
    (m : Machine) : Type 0 where
  taken :
      (bm : Bitmap)
      → FirstTaken u bm
      → 0 < address
      → Along (with_bitmap ref bm) vs t left m
      → Tried u ref vs t left address m
  out :
      (bm : Bitmap)
      → FirstTaken u bm
      → address ≡ 0
      → Along (with_bitmap ref bm) vs t (left - 35) m
      → Tried u ref vs t left address m

alloc-Tried :
    {u : ℕ → ℕ} {ref : Machine} {vs : List ℕ} {t : List Event} {left : ℕ} {m : Machine}
    → u 0 ≡ 1
    → 35 ≤ left
    → Mapped u ref vs t left m
    → Returns (on_pmm pmm_alloc_page) m (λ address m'. Tried u ref vs t left address m')
alloc-Tried {u} {m} first room s = elim (alloc-Search m.pmm_bitmap) [
  | found f lo inside free before e ↦
      let (bm, runs, marks) =
        pmm_alloc_page_first (record { pmm_bitmap = m.pmm_bitmap; bus = bus_of m }) f inside free
          before in
      returns (f * page_size) (with_bitmap m bm) (rw (runs, zoom) refl) (
        taken bm
          (page f inside (sym (known f inside) ∙ free)
            (λ c h. sym (known c (omega arith)) ∙ before c (omega arith) h)
            (λ c h. marks c ∙ ap (λ k. if f == c then 1 else k) (known c h)))
          (omega (arith, positive f free inside))
          (record {
            same = ap (λ b. (bm, b.1, b.2, b.3, b.4)) s.along.same;
            spare = s.along.spare;
            busy = s.along.busy;
            left_over = s.along.left_over;
          }))
  | full all e ↦
      zoom-Returns _ _
        (pmm_alloc_page-Printed (record { pmm_bitmap = m.pmm_bitmap; bus = bus_of m }) all
          (omega (arith, s.along.spare, room)))
        (λ address p (no_page, kept, printed).
          out p.pmm_bitmap
            (nothing (λ c h. sym (known c h) ∙ all c (omega arith) h)
              (λ c h. ap (λ bm. used bm c) kept ∙ all c (omega arith) h))
            no_page
            (record {
              same = ap (λ b. (p.pmm_bitmap, b.1, b.2, b.3, b.4)) s.along.same;
              spare = omega (arith, printed.used, s.along.spare);
              busy = Busy-trans s.along.busy printed.busy;
              left_over = Tail-trans s.along.left_over printed.left_over;
            }))
]
  where
    known : (c : ℕ) → c < frames → used m.pmm_bitmap c ≡ u c
    known c h = ap (λ bm. used bm c) (ap (λ b. b.0) s.along.same) ∙ s.marks c h

    positive : (f : ℕ) → used m.pmm_bitmap f ≡ 0 → f < frames → 0 < f
    positive zero free inside = absurd (omega (arith, first, known 0 inside, free))
    positive (suc f) free inside = omega arith

-- The state after it: the test page is taken.
pub record Started (u : ℕ → ℕ) (ref : Machine) (vs : List ℕ) (t : List Event) (left : ℕ)
    (m : Machine) : Type 0 where
  pub bitmap : Bitmap
  pub first_taken : FirstTaken u bitmap
  pub along : Along (with_bitmap ref bitmap) vs t left m

report-Started :
    {u : ℕ → ℕ} {ref : Machine} {vs : List ℕ} {t : List Event} {left address : ℕ} {m : Machine}
    → 42 ≤ left
    → Tried u ref vs t left address m
    → Returns
        (if ltb 0 address then print (codes "SUCESSO!\n") else print (codes "FALHA!\n"))
        m
        (λ _ m'. Started u ref vs t (left - 42) m')
report-Started {address} room (taken bm first positive a) =
    let e : ltb 0 address ≡ true = ground (arith, positive) in
    rw e (
      Returns-mono (print-Along _ a (omega arith)) (λ _ _ a'. record {
        bitmap = bm;
        first_taken = first;
        along = Along-fewer (omega arith) a';
      }))
report-Started {address} room (out bm first no_page a) =
    let e : ltb 0 address ≡ false = ground (arith, no_page) in
    rw e (
      Returns-mono (print-Along _ a (omega arith)) (λ _ _ a'. record {
        bitmap = bm;
        first_taken = first;
        along = Along-fewer (omega arith) a';
      }))

pub set_up_memory-Started :
    {ref : Machine} {vs : List ℕ} {t : List Event} {left : ℕ} {m : Machine} (mbinfo : MultibootInfo)
    (ram : Ram) (image : Image) (entries : List MemoryMap)
    → MapIs mbinfo ram entries
    → ModulesSound mbinfo ram
    → sub_u32 image.kernel_end kernel_base
      < 2 ^ 32 - page_size + sub_u32 image.kernel_start kernel_base % page_size
    → IsWords ref.pmm_bitmap
    → 215 ≤ left
    → Along ref vs t left m
    → Returns (set_up_memory mbinfo ram image) m (λ _ m'.
      Started
        (mark mbinfo ram image.kernel_start image.kernel_end entries)
        ref
        vs
        t
        (left - 215)
        m')
unfolding set_up_memory
set_up_memory-Started {ref} mbinfo ram image entries map mods low words room a =
    >>-Returns
      (initialize-Mapped mbinfo ram image.kernel_start image.kernel_end entries map mods low words
        (omega arith) a)
      (λ _ s. >>-Returns (print-Along _ s.along (omega arith)) (λ _ a'.
        >>=-Returns _
          (alloc-Tried {ref = ref} refl (omega arith)
            (record { bitmap = s.bitmap; marks = s.marks; along = a' }))
          (λ _ _ tried. Returns-mono (report-Started (omega arith) tried) (λ _ _ e. record {
            bitmap = e.bitmap;
            first_taken = e.first_taken;
            along = Along-fewer (omega arith) e.along;
          }))))
