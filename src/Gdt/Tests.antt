-- ===== src/Gdt/Tests.antt =====
-- The segment descriptors from concrete tables.
use projeto_so.Base.{ℕ, ◌≡◌, ◌≢◌, arith}
use projeto_so.Gdt.{GdtEntry, Gdt, gdt_set_entry}
use projeto_so.Gdt.Descriptors.{base_of, limit_of, flags_of, gdt_set_entry-decoded}

abbrev garbage : ℕ → GdtEntry
garbage i = record {
  limit_low = i;
  base_low = 1;
  base_mid = 2;
  access = 3;
  granularity = 4;
  base_high = 5;
}

abbrev at_reset : Gdt
at_reset = record {
  gdt_entries = garbage;
  gdt_pointer = record { limit = 0; base = 0 };
  segments = record {
    gdtr = record { limit = 0; base = 0 };
    cs = 8;
    ds = 0x18;
    es = 0x18;
    fs = 0x18;
    gs = 0x18;
    ss = 0x18;
  };
}

gdt_set_entry-decoded_example :
    (base_of (gdt_set_entry 4 0x1234_5678 0xA_BCDE 0xFA 0x4F garbage 4) ≡ 0x1234_5678)
    × (limit_of (gdt_set_entry 4 0x1234_5678 0xA_BCDE 0xFA 0x4F garbage 4) ≡ 0xA_BCDE)
    × (flags_of (gdt_set_entry 4 0x1234_5678 0xA_BCDE 0xFA 0x4F garbage 4) ≡ 0x40)
    × ((gdt_set_entry 4 0x1234_5678 0xA_BCDE 0xFA 0x4F garbage 4).access ≡ 0xFA)
    × ((i : ℕ) → i ≢ 4 → gdt_set_entry 4 0x1234_5678 0xA_BCDE 0xFA 0x4F garbage i ≡ garbage i)
gdt_set_entry-decoded_example =
    gdt_set_entry-decoded 4 0x1234_5678 0xA_BCDE 0xFA 0x4F garbage (omega arith)
