-- ===== src/Idt/Gates.antt =====
-- The gates that the processor finds in the table.
use projeto_so.Base.{
  ℕ, zero, suc, ◌+◌, ◌*◌, ◌/◌, ◌%◌, ◌^◌, ◌<◌, ◌≡◌, refl, arith, ◌&&◌, ◌==◌, leb, ltb, if◌then◌else◌,
}
use projeto_so.Bits.Word.{bit_and_mask}
use projeto_so.Idt.{IdtEntry, Idt, idt_set_entry, clear_entries, set_gates, idt_initialize}

abbrev pub offset_of : IdtEntry → ℕ
offset_of e = e.offset_low + e.offset_high * 2 ^ 16

-- A gate with an address in it.
abbrev pub gate : ℕ → ℕ → ℕ → IdtEntry
gate handler selector type_attr = record {
  offset_low = handler % 2 ^ 16;
  selector = selector % 2 ^ 16;
  zeros = 0;
  type_attr = type_attr % 2 ^ 8;
  offset_high = handler / 2 ^ 16 % 2 ^ 16;
}

idt_set_entry_lem :
    (index handler selector type_attr : ℕ) (entries : ℕ → IdtEntry) (k : ℕ)
    → idt_set_entry index handler selector type_attr entries k
      ≡ (if index == k then gate handler selector type_attr else entries k)
unfolding idt_set_entry
idt_set_entry_lem index handler selector type_attr entries k =
    ground (arith, bit_and_mask 16 handler, bit_and_mask 16 (handler / 2 ^ 16))

clear_entries_lem :
    (n i : ℕ) (entries : ℕ → IdtEntry) (k : ℕ)
    → clear_entries n i entries k ≡ (if leb i k && ltb k (i + n) then gate 0 0 0 else entries k)
unfolding clear_entries
clear_entries_lem zero i entries k = ground arith
clear_entries_lem (suc n) i entries k = ground (
  arith,
  clear_entries_lem n (i + 1) (idt_set_entry i 0 0 0 entries) k,
  idt_set_entry_lem i 0 0 0 entries k,
)

set_gates_lem :
    (handlers : ℕ → ℕ) (n i : ℕ) (entries : ℕ → IdtEntry) (k : ℕ)
    → set_gates handlers n i entries k
      ≡ (if leb i k && ltb k (i + n) then gate (handlers k) 0x08 0x8E else entries k)
unfolding set_gates
set_gates_lem handlers zero i entries k = ground arith
set_gates_lem handlers (suc n) i entries k = ground (
  arith,
  set_gates_lem handlers n (i + 1) (idt_set_entry i (handlers i) 0x08 0x8E entries) k,
  idt_set_entry_lem i (handlers i) 0x08 0x8E entries k,
)

-- The vectors of the exceptions and of the controllers, 0 to 47, have a present interrupt gate of
-- ring 0 (0x8E) that leads to their handler, at an address of 32 bits, in the kernel's code
-- segment; every other vector up to 255 has a gate that is not present. The processor has the
-- table's address and its size.
pub idt_initialize-gates :
    (handlers : ℕ → ℕ) (address : ℕ) (t : Idt) (k : ℕ)
    → k < 256
    → handlers k < 2 ^ 32
    → (offset_of ((idt_initialize handlers address t).idt_entries k)
        ≡ (if ltb k 48 then handlers k else 0))
      × (((idt_initialize handlers address t).idt_entries k).selector
          ≡ (if ltb k 48 then 0x08 else 0))
      × (((idt_initialize handlers address t).idt_entries k).type_attr
          ≡ (if ltb k 48 then 0x8E else 0))
      × ((idt_initialize handlers address t).idtr.base ≡ address)
      × ((idt_initialize handlers address t).idtr.limit + 1 ≡ 256 * 8)
unfolding idt_initialize
idt_initialize-gates handlers address t k small fits = (
  ground (arith, found, cleared),
  ground (arith, found, cleared),
  ground (arith, found, cleared),
  refl,
  refl,
)
  where
    found : set_gates handlers 48 0 (clear_entries 256 0 t.idt_entries) k ≡ (
        if leb 0 k && ltb k 48
        then gate (handlers k) 0x08 0x8E
        else clear_entries 256 0 t.idt_entries k)
    found = set_gates_lem handlers 48 0 (clear_entries 256 0 t.idt_entries) k

    cleared :
        clear_entries 256 0 t.idt_entries k
        ≡ (if leb 0 k && ltb k 256 then gate 0 0 0 else t.idt_entries k)
    cleared = clear_entries_lem 256 0 t.idt_entries k
