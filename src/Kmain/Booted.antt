-- ===== src/Kmain/Booted.antt =====
-- What `kmain` sets up, as a property of the machine.
use projeto_so.Base.{ℕ, ◌/◌, ◌^◌, ◌<◌, ◌≤◌, Bool, true, false, List, ◌∷◌, ◌≡◌, refl, ap, ◌∙◌, arith}
use projeto_so.Io.{Event, cli, disable_interrupts, Bus}
use projeto_so.Io.Returns.{Returns, returns}
use projeto_so.Io.Traffic.{Tail, interrupts_on, interrupts_on-Busy}
use projeto_so.Memory.Frames.{Bitmap}
use projeto_so.Chat.{on_cpu}
use projeto_so.Gdt.{Gdt}
use projeto_so.Idt.{Idt}
use projeto_so.Gdt.Descriptors.{Flat, gdt_initialize-Flat}
use projeto_so.Idt.Gates.{offset_of, idt_initialize-gates}
use projeto_so.Pic.Chips.{Chip}
use projeto_so.Serial.Ready.{ready_count}
use projeto_so.Chat.Init.{Ready}
use projeto_so.Kmain.{Machine, Image, bus_of, on_kernel}
use projeto_so.Kmain.Steps.{Along, bus-Returns}
use projeto_so.Kmain.Tables.{Controllers, Controllers-Busy, Enabled, From, with_gdt, with_idt}
use projeto_so.Kmain.Pages.{FirstTaken, with_bitmap}

-- The segments are flat and their table is loaded, the vectors 0 to 47 lead to their handlers, and
-- of frames with the marks `u` the first free one is taken.
pub record InPlace (image : Image) (u : ℕ → ℕ) (gdt : Gdt) (idt : Idt) (bm : Bitmap) : Type 0 where
  pub code : Flat 0x9A (gdt.gdt_entries (gdt.segments.cs / 8))
  pub data_segment : Flat 0x92 (gdt.gdt_entries (gdt.segments.ds / 8))
  pub data_selectors :
      (gdt.segments.es ≡ gdt.segments.ds)
      × (gdt.segments.fs ≡ gdt.segments.ds)
      × (gdt.segments.gs ≡ gdt.segments.ds)
      × (gdt.segments.ss ≡ gdt.segments.ds)
  pub gdt_loaded : gdt.segments.gdtr.base ≡ image.gdt_address
  pub gates : (k : ℕ) → k < 48 → offset_of (idt.idt_entries k) ≡ image.handlers k
  pub present : (k : ℕ) → k < 48 → (idt.idt_entries k).type_attr ≡ 0x8E
  pub idt_loaded : idt.idtr.base ≡ image.idt_address
  pub first_taken : FirstTaken u bm

-- Moreover the controllers send the vectors 32 to 47, and `on` says whether interrupts are on.
pub record Booted (image : Image) (u : ℕ → ℕ) (c₁ c₂ : Chip) (on : Bool) (m : Machine)
    : Type 0 where
  pub in_place : InPlace image u m.gdt m.idt m.pmm_bitmap
  pub controllers : Controllers c₁ c₂ (bus_of m).trace
  pub interrupts : interrupts_on (bus_of m).trace ≡ on

-- The same while `kmain` runs, started in `m`.
pub record Running (image : Image) (u : ℕ → ℕ) (c₁ c₂ : Chip) (m : Machine) (left : ℕ)
    (m' : Machine) : Type 0 where
  pub bitmap : Bitmap
  pub first_taken : FirstTaken u bitmap
  pub since :
      From
        (Enabled c₁ c₂)
        (bus_of m).inputs
        (with_bitmap (with_idt image (with_gdt image m)) bitmap)
        left
        m'

module _ {image : Image} {u : ℕ → ℕ} {c₁ c₂ : Chip} {m : Machine} where
  pub still-Running :
      {left left' : ℕ} {m₁ m₂ : Machine} (r : Running image u c₁ c₂ m left m₁)
      → Along
          (with_bitmap (with_idt image (with_gdt image m)) r.bitmap)
          (bus_of m).inputs
          r.since.moment
          left'
          m₂
      → Running image u c₁ c₂ m left' m₂
  still-Running r a = record {
    bitmap = r.bitmap;
    first_taken = r.first_taken;
    since = record { moment = r.since.moment; there = r.since.there; along = a };
  }

  pub Running-Booted :
      {left : ℕ} {m' : Machine}
      → ((k : ℕ) → image.handlers k < 2 ^ 32)
      → Running image u c₁ c₂ m left m'
      → Booted image u c₁ c₂ true m'
  Running-Booted fits r =
      let a = r.since.along in
      let found = λ (k : ℕ) (h : k < 48).
        idt_initialize-gates image.handlers image.idt_address m.idt k (omega arith) (fits k) in
      let (code, data_segment, null, es, fs, gs, ss, base, limit) =
        gdt_initialize-Flat image.gdt_address m.gdt in
      record {
        in_place = record {
          code = rw (ap (λ b. b.1) a.same) code;
          data_segment = rw (ap (λ b. b.1) a.same) data_segment;
          data_selectors = rw (ap (λ b. b.1) a.same) (es, fs, gs, ss);
          gdt_loaded = rw (ap (λ b. b.1) a.same) base;
          gates = λ k h. rw (ap (λ b. b.2) a.same) (ground (arith, h, (found k h).0));
          present = λ k h. rw (ap (λ b. b.2) a.same) (ground (arith, h, (found k h).2));
          idt_loaded = rw (ap (λ b. b.2) a.same) ((found 0 (omega arith)).3);
          first_taken = rw (ap (λ b. b.0) a.same) r.first_taken;
        };
        controllers = Controllers-Busy a.busy r.since.there.controllers;
        interrupts = interrupts_on-Busy a.busy ∙ r.since.there.on;
      }

disable_interrupts-cli : (b : Bus) → Returns disable_interrupts b (λ _ b'. b'.trace ≡ cli ∷ b.trace)
unfolding disable_interrupts
disable_interrupts-cli b = returns tt _ refl refl

cli-Controllers :
    {c₁ c₂ : Chip} {t : List Event} → Controllers c₁ c₂ t → Controllers c₁ c₂ (cli ∷ t)
cli-Controllers c = record {
  mask_1 = c.mask_1;
  mask_2 = c.mask_2;
  first = c.first;
  second = c.second;
}

pub disable-Booted :
    {image : Image} {u : ℕ → ℕ} {c₁ c₂ : Chip} {on : Bool} (m : Machine)
    → Booted image u c₁ c₂ on m
    → Returns (on_kernel (on_cpu disable_interrupts)) m (λ _ m'. Booted image u c₁ c₂ false m')
disable-Booted m b = bus-Returns (disable_interrupts-cli (bus_of m)) (λ bus trace. record {
  in_place = b.in_place;
  controllers = rw trace (cli-Controllers b.controllers);
  interrupts = rw trace refl;
})

-- At the loop over `chat_poll`: the chat is set up too, and of the answers that there were in `m`
-- some are left, with `left` of them that show the port ready.
pub record AtLoop (image : Image) (u : ℕ → ℕ) (c₁ c₂ : Chip) (m : Machine) (left : ℕ) (m' : Machine)
    : Type 0 where
  pub booted : Booted image u c₁ c₂ true m'
  pub chat : Ready m'.kernel
  pub spare : left ≤ ready_count (bus_of m').inputs
  pub left_over : Tail (bus_of m).inputs (bus_of m').inputs
