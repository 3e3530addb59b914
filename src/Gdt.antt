-- ===== src/Gdt.antt =====
-- src/gdt.c and src/gdt.h: the table of segment descriptors; src/gdt_flush.s: its loading.
pub mod Descriptors
mod Tests
use projeto_so.Base.{
  ℕ, ◌+◌, ◌-◌, ◌*◌, ◌/◌, ◌%◌, ◌^◌, bit_and, bit_or, ◌==◌, if◌then◌else◌, update, u8, u16,
}

pub record GdtEntry : Type 0 where
  pub limit_low : ℕ  -- unsigned short
  pub base_low : ℕ  -- unsigned short
  pub base_mid : ℕ
  pub access : ℕ
  pub granularity : ℕ
  pub base_high : ℕ

-- The operand of `lgdt` and `lidt`.
pub record TablePtr : Type 0 where
  pub limit : ℕ
  pub base : ℕ

-- What `gdt_flush` sets in the processor.
pub record Segments : Type 0 where
  pub gdtr : TablePtr
  pub cs : ℕ
  pub ds : ℕ
  pub es : ℕ
  pub fs : ℕ
  pub gs : ℕ
  pub ss : ℕ

pub record Gdt : Type 0 where
  pub gdt_entries : ℕ → GdtEntry
  pub gdt_pointer : TablePtr
  pub segments : Segments

abbrev pub gdt_num_entries : ℕ
gdt_num_entries = 3

-- The size of `struct gdt_entry`.
abbrev pub gdt_entry_size : ℕ
gdt_entry_size = 8

unfoldable pub gdt_set_entry :
    (index base limit access granularity : ℕ) → (ℕ → GdtEntry) → ℕ → GdtEntry
gdt_set_entry index base limit access granularity entries = update entries index (record {
  limit_low = u16 (bit_and limit 0xFFFF);
  base_low = u16 (bit_and base 0xFFFF);
  base_mid = u8 (bit_and (base / 2 ^ 16) 0xFF);
  access = u8 access;
  granularity = u8 (bit_or (bit_and (limit / 2 ^ 16) 0x0F) (bit_and granularity 0xF0));
  base_high = u8 (bit_and (base / 2 ^ 24) 0xFF);
})

unfoldable pub gdt_flush : TablePtr → Segments
gdt_flush p = record { gdtr = p; cs = 0x08; ds = 0x10; es = 0x10; fs = 0x10; gs = 0x10; ss = 0x10 }

-- `address` is that of the table.
unfoldable pub gdt_initialize : (address : ℕ) → Gdt → Gdt
gdt_initialize address g =
    let null = gdt_set_entry 0 0 0 0 0 g.gdt_entries in
    let code = gdt_set_entry 1 0 0xFFFF_FFFF 0x9A 0xCF null in
    let pointer : TablePtr = record {
      limit = u16 (gdt_entry_size * gdt_num_entries - 1);
      base = address;
    } in
    record {
      gdt_entries = gdt_set_entry 2 0 0xFFFF_FFFF 0x92 0xCF code;
      gdt_pointer = pointer;
      segments = gdt_flush pointer;
    }
