-- ===== src/Idt/Tests.antt =====
-- The interrupt gates, the handlers being 16 bytes apart.
use projeto_so.Base.{ℕ, ◌+◌, ◌*◌, ◌≡◌, arith}
use projeto_so.Idt.{Idt, idt_initialize}
use projeto_so.Idt.Gates.{offset_of, idt_initialize-gates}

abbrev at_reset : Idt
at_reset = record {
  idt_entries =
      λ i. record { offset_low = i; selector = 7; zeros = 1; type_attr = 0xFF; offset_high = 9 };
  idt_pointer = record { limit = 0; base = 0 };
  idtr = record { limit = 0; base = 0 };
}

abbrev handlers : ℕ → ℕ
handlers i = 0xC010_1000 + i * 16

-- The vector of the keyboard.
idt_initialize-gates_example :
    (offset_of ((idt_initialize handlers 0xC010_8000 at_reset).idt_entries 33) ≡ 0xC010_1210)
    × (((idt_initialize handlers 0xC010_8000 at_reset).idt_entries 33).selector ≡ 0x08)
    × (((idt_initialize handlers 0xC010_8000 at_reset).idt_entries 33).type_attr ≡ 0x8E)
    × ((idt_initialize handlers 0xC010_8000 at_reset).idtr.base ≡ 0xC010_8000)
    × ((idt_initialize handlers 0xC010_8000 at_reset).idtr.limit + 1 ≡ 2048)
idt_initialize-gates_example =
    idt_initialize-gates handlers 0xC010_8000 at_reset 33 (omega arith) (omega arith)
