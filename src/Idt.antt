-- ===== src/Idt.antt =====
-- src/idt.c and src/idt.h: the table of interrupt gates; `load_idt` of src/interrupt_handlers.s.
pub mod Gates
mod Tests
use projeto_so.Base.{
  ℕ, zero, suc, ◌+◌, ◌-◌, ◌*◌, ◌/◌, ◌%◌, ◌^◌, bit_and, ◌==◌, if◌then◌else◌, update, u8, u16,
}
use projeto_so.Gdt.{TablePtr}

pub record IdtEntry : Type 0 where
  pub offset_low : ℕ  -- unsigned short
  pub selector : ℕ  -- unsigned short
  pub zeros : ℕ
  pub type_attr : ℕ
  pub offset_high : ℕ  -- unsigned short

-- `idtr` is what `load_idt` sets in the processor.
pub record Idt : Type 0 where
  pub idt_entries : ℕ → IdtEntry
  pub idt_pointer : TablePtr
  pub idtr : TablePtr

abbrev pub idt_num_entries : ℕ
idt_num_entries = 256

-- The size of `struct idt_entry`.
abbrev pub idt_entry_size : ℕ
idt_entry_size = 8

unfoldable pub idt_set_entry :
    (index handler selector type_attr : ℕ) → (ℕ → IdtEntry) → ℕ → IdtEntry
idt_set_entry index handler selector type_attr entries = update entries index (record {
  offset_low = u16 (bit_and handler 0xFFFF);
  selector = u16 selector;
  zeros = 0;
  type_attr = u8 type_attr;
  offset_high = u16 (bit_and (handler / 2 ^ 16) 0xFFFF);
})

-- The loop that clears the entries, from `i` on.
unfoldable pub clear_entries : (left i : ℕ) → (ℕ → IdtEntry) → ℕ → IdtEntry
clear_entries zero i entries = entries
clear_entries (suc n) i entries = clear_entries n (i + 1) (idt_set_entry i 0 0 0 entries)

-- The calls `idt_set_entry(i, (unsigned int)interrupt_handler_i, 0x08, 0x8E)`, one for each `i`.
-- `handlers` gives the address of `interrupt_handler_i`.
unfoldable pub set_gates : (handlers : ℕ → ℕ) → (left i : ℕ) → (ℕ → IdtEntry) → ℕ → IdtEntry
set_gates handlers zero i entries = entries
set_gates handlers (suc n) i entries =
    set_gates handlers n (i + 1) (idt_set_entry i (handlers i) 0x08 0x8E entries)

-- `address` is that of the table.
unfoldable pub idt_initialize : (handlers : ℕ → ℕ) → (address : ℕ) → Idt → Idt
idt_initialize handlers address t =
    let pointer : TablePtr = record {
      limit = u16 (idt_entry_size * idt_num_entries - 1);
      base = address;
    } in
    record {
      idt_entries = set_gates handlers 48 0 (clear_entries idt_num_entries 0 t.idt_entries);
      idt_pointer = pointer;
      idtr = pointer;
    }
