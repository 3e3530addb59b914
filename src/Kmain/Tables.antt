-- ===== src/Kmain/Tables.antt =====
-- The start of `kmain` up to `sti`: the tables, the controllers, and the first messages.
use projeto_so.Base.{ℕ, ◌+◌, ◌-◌, ◌≤◌, ◌≡◌, refl, ap, arith, true, List, ◌∷◌, u8}
use projeto_so.Io.{Event, sti, Bus, outb, enable_interrupts}
use projeto_so.Io.Returns.{Returns, returns, Returns-mono}
use projeto_so.Io.Traffic.{
  Busy, still, then_sent, Busy-trans, interrupts_on, Tail, whole, past, Tail-trans,
}
use projeto_so.Serial.{serial_initialize}
use projeto_so.Serial.Ready.{ready_count, Two, two, ready_count-Two}
use projeto_so.Framebuffer.Cursor.{console_clear-Quiet}
use projeto_so.Chat.{on_cpu}
use projeto_so.Gdt.{gdt_initialize}
use projeto_so.Idt.{idt_initialize}
use projeto_so.Pic.{pic1_command, pic2_command, pic_remap}
use projeto_so.Pic.Chips.{Chip, after, Remapped, pic_remap-Remapped, after-Busy}
use projeto_so.Kmain.{Machine, Image, bus_of, on_kernel, change, set_up_tables, greet}
use projeto_so.Kmain.Steps.{
  >>-Returns, Along, Along-fewer, bus-Returns, print-Along, show-Along, screen-Along,
}

-- What the trace says of the two controllers, `c₁` and `c₂` at its start: they are ready, and their
-- vectors are those from 32 and from 40 on.
pub record Controllers (c₁ c₂ : Chip) (t : List Event) : Type 0 where
  pub mask_1 : ℕ
  pub mask_2 : ℕ
  pub first : Remapped 32 0x04 mask_1 (after pic1_command t c₁)
  pub second : Remapped 40 0x02 mask_2 (after pic2_command t c₂)

pub Controllers-Busy :
    {c₁ c₂ : Chip} {t u : List Event} → Busy t u → Controllers c₁ c₂ t → Controllers c₁ c₂ u
Controllers-Busy {c₁} {c₂} q c = record {
  mask_1 = c.mask_1;
  mask_2 = c.mask_2;
  first = rw (after-Busy pic1_command c₁ refl q) c.first;
  second = rw (after-Busy pic2_command c₂ refl q) c.second;
}

-- `serial_initialize` only sends to the serial port.
serial_initialize-Busy :
    (b : Bus) → Returns serial_initialize b (λ _ b'. (b'.inputs ≡ b.inputs) × Busy b.trace b'.trace)
unfolding serial_initialize outb
serial_initialize-Busy b = returns tt _ refl (
  refl,
  then_sent _ _ refl (
      then_sent _ _ refl (
        then_sent _ _ refl (
          then_sent _ _ refl
            (then_sent _ _ refl (then_sent _ _ refl (then_sent _ _ refl still)))))),
)

serial-Along :
    {ref : Machine} {vs : List ℕ} {t : List Event} {left : ℕ} {m : Machine}
    → Along ref vs t left m
    → Returns (on_kernel (on_cpu serial_initialize)) m (λ _ m'. Along ref vs t left m')
serial-Along {m} a = bus-Returns (serial_initialize-Busy (bus_of m)) (λ b (inputs, busy). record {
  same = a.same;
  spare = rw inputs a.spare;
  busy = Busy-trans a.busy busy;
  left_over = rw inputs a.left_over;
})

-- The trace since `t`, where `P` holds, shows only traffic with the console and the serial line.
pub record From (P : List Event → Type 0) (vs : List ℕ) (ref : Machine) (left : ℕ) (m : Machine)
    : Type 0 where
  pub moment : List Event
  pub there : P moment
  pub along : Along ref vs moment left m

module _ (image : Image) where
  -- The machine with the tables that `kmain` sets up.
  abbrev pub with_gdt : Machine → Machine
  with_gdt m = record m { gdt = gdt_initialize image.gdt_address m.gdt }

  abbrev pub with_idt : Machine → Machine
  with_idt m = record m { idt = idt_initialize image.handlers image.idt_address m.idt }

module _ (image : Image) (c₁ c₂ : Chip) where
  remap-Controllers :
      {vs : List ℕ} (t : List Event)
      → Two vs
      → Returns pic_remap
          (record { inputs = vs; trace = t })
          (λ _ b.
            Controllers c₁ c₂ b.trace
            × (ready_count vs ≤ ready_count b.inputs + 2)
            × Tail vs b.inputs)
  remap-Controllers t (two v₁ v₂ later few) =
      Returns-mono (pic_remap-Remapped v₁ v₂ later t c₁ c₂) (λ _ b (first, second, inputs). (
        record { mask_1 = u8 v₁; mask_2 = u8 v₂; first = first; second = second },
        rw inputs few,
        rw inputs (past v₁ (past v₂ whole)),
      ))

  remap-From :
      {ref : Machine} {vs : List ℕ} {t : List Event} {left : ℕ} {m : Machine}
      → 2 ≤ left
      → Along ref vs t left m
      → Returns
          (on_kernel (on_cpu pic_remap))
          m
          (λ _ m'. From (Controllers c₁ c₂) vs ref (left - 2) m')
  remap-From {left} {m} room a =
      bus-Returns
        (remap-Controllers (bus_of m).trace
          (ready_count-Two (bus_of m).inputs (omega (arith, a.spare, room))))
        (λ b (controllers, few, two_read). record {
          moment = b.trace;
          there = controllers;
          along = record {
            same = a.same;
            spare = omega (arith, few, a.spare);
            busy = still;
            left_over = Tail-trans a.left_over two_read;
          };
        })

  -- A change of the machine beside its screen.
  change_gdt-Along :
      {ref : Machine} {vs : List ℕ} {t : List Event} {left : ℕ} {m : Machine}
      → Along ref vs t left m
      → Returns (change (with_gdt image)) m (λ _ m'. Along (with_gdt image ref) vs t left m')
  unfolding change
  change_gdt-Along {m} a = returns tt (with_gdt image m) refl (record {
    same = ap (λ b. (b.0, gdt_initialize image.gdt_address b.1, b.2, b.3, b.4)) a.same;
    spare = a.spare;
    busy = a.busy;
    left_over = a.left_over;
  })

  change_idt-Along :
      {ref : Machine} {vs : List ℕ} {t : List Event} {left : ℕ} {m : Machine}
      → Along ref vs t left m
      → Returns (change (with_idt image)) m (λ _ m'. Along (with_idt image ref) vs t left m')
  unfolding change
  change_idt-Along {m} a = returns tt (with_idt image m) refl (record {
    same =
        ap (λ b. (b.0, b.1, idt_initialize image.handlers image.idt_address b.2, b.3, b.4)) a.same;
    spare = a.spare;
    busy = a.busy;
    left_over = a.left_over;
  })

  pub set_up_tables-From :
      {ref : Machine} {vs : List ℕ} {t : List Event} {left : ℕ} {m : Machine}
      → 243 ≤ left
      → Along ref vs t left m
      → Returns (set_up_tables image) m (λ _ m'.
        From (Controllers c₁ c₂) vs (with_idt image (with_gdt image ref)) (left - 243) m')
  unfolding set_up_tables
  set_up_tables-From {left} room start = >>-Returns (serial-Along start) (λ _ a₁.
      >>-Returns (print-Along _ a₁ (omega arith)) (λ _ a₂.
        >>-Returns (print-Along _ a₂ (omega arith)) (λ _ a₃.
          >>-Returns (change_gdt-Along a₃) (λ _ a₄.
            >>-Returns (print-Along _ a₄ (omega arith)) (λ _ a₅.
              >>-Returns (remap-From (omega arith) a₅) (λ _ f.
                >>-Returns (print-Along _ f.along (omega arith)) (λ _ a₆.
                  >>-Returns (change_idt-Along a₆) (λ _ a₇.
                    Returns-mono (print-Along _ a₇ (omega arith)) (λ _ _ a₈. record {
                      moment = f.moment;
                      there = f.there;
                      along = Along-fewer (omega arith) a₈;
                    })))))))))

-- The controllers are ready, and interrupts are on.
pub record Enabled (c₁ c₂ : Chip) (t : List Event) : Type 0 where
  pub controllers : Controllers c₁ c₂ t
  pub on : interrupts_on t ≡ true

enable_interrupts-sti :
    (b : Bus)
    → Returns enable_interrupts b (λ _ b'. (b'.inputs ≡ b.inputs) × (b'.trace ≡ sti ∷ b.trace))
unfolding enable_interrupts
enable_interrupts-sti b = returns tt _ refl (refl, refl)

sti-Controllers :
    {c₁ c₂ : Chip} {t : List Event} → Controllers c₁ c₂ t → Controllers c₁ c₂ (sti ∷ t)
sti-Controllers c = record {
  mask_1 = c.mask_1;
  mask_2 = c.mask_2;
  first = c.first;
  second = c.second;
}

enable-From :
    {c₁ c₂ : Chip} {vs : List ℕ} {ref : Machine} {left : ℕ} {m : Machine}
    → From (Controllers c₁ c₂) vs ref left m
    → Returns (on_kernel (on_cpu enable_interrupts)) m (λ _ m'. From (Enabled c₁ c₂) vs ref left m')
enable-From {m} f = bus-Returns (enable_interrupts-sti (bus_of m)) (λ b (inputs, trace). record {
  moment = b.trace;
  there = record {
    controllers = rw trace (sti-Controllers (Controllers-Busy f.along.busy f.there));
    on = rw trace refl;
  };
  along = record {
    same = f.along.same;
    spare = rw inputs f.along.spare;
    busy = still;
    left_over = rw inputs f.along.left_over;
  };
})

pub greet-From :
    {c₁ c₂ : Chip} {vs : List ℕ} {ref : Machine} {left : ℕ} {m : Machine}
    → 71 ≤ left
    → From (Controllers c₁ c₂) vs ref left m
    → Returns greet m (λ _ m'. From (Enabled c₁ c₂) vs ref (left - 71) m')
unfolding greet
greet-From room f = >>-Returns (screen-Along (console_clear-Quiet _) f.along) (λ _ a₁.
    >>-Returns (show-Along _ _ a₁) (λ _ a₂. >>-Returns (show-Along _ _ a₂) (λ _ a₃.
      >>-Returns (show-Along _ _ a₃) (λ _ a₄. >>-Returns (show-Along _ _ a₄) (λ _ a₅.
        >>-Returns (show-Along _ _ a₅) (λ _ a₆. >>-Returns (show-Along _ _ a₆) (λ _ a₇.
          >>-Returns (print-Along _ a₇ (omega arith)) (λ _ a₈.
            >>-Returns (enable-From (record { moment = f.moment; there = f.there; along = a₈ }))
              (λ _ g. Returns-mono (print-Along _ g.along (omega arith)) (λ _ _ a₉. record {
                moment = g.moment;
                there = g.there;
                along = Along-fewer (omega arith) a₉;
              }))))))))))
