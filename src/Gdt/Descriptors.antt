-- ===== src/Gdt/Descriptors.antt =====
-- What the processor reads out of a descriptor.
use projeto_so.Base.{ℕ, ◌+◌, ◌*◌, ◌/◌, ◌%◌, ◌^◌, ◌<◌, ◌≡◌, ◌≢◌, refl, arith, bit_and, bit_or, u8}
use projeto_so.Bits.Word.{bit_and_mask}
use projeto_so.Bits.Nibbles.{nibbles-lt, low_nibble, high_nibble}
use projeto_so.Gdt.{GdtEntry, Gdt, gdt_set_entry, gdt_flush, gdt_initialize}

abbrev pub base_of : GdtEntry → ℕ
base_of e = e.base_low + e.base_mid * 2 ^ 16 + e.base_high * 2 ^ 24

-- 20 bits.
abbrev pub limit_of : GdtEntry → ℕ
limit_of e = e.limit_low + e.granularity % 2 ^ 4 * 2 ^ 16

abbrev pub flags_of : GdtEntry → ℕ
flags_of e = bit_and e.granularity 0xF0

-- A descriptor that `gdt_set_entry` writes, for a base of 32 bits, is read back: the base whole,
-- the limit in its 20 bits, the access byte, and the flags in the upper half of the byte given. The
-- other entries are as before.
pub gdt_set_entry-decoded :
    (index base limit access granularity : ℕ) (entries : ℕ → GdtEntry)
    → base < 2 ^ 32
    → (base_of (gdt_set_entry index base limit access granularity entries index) ≡ base)
      × (limit_of (gdt_set_entry index base limit access granularity entries index)
          ≡ limit % 2 ^ 20)
      × (flags_of (gdt_set_entry index base limit access granularity entries index)
          ≡ bit_and granularity 0xF0)
      × ((gdt_set_entry index base limit access granularity entries index).access ≡ u8 access)
      × ((i : ℕ)
          → i ≢ index
          → gdt_set_entry index base limit access granularity entries i ≡ entries i)
unfolding gdt_set_entry
gdt_set_entry-decoded index base limit access granularity entries small = (
  ground
      (arith, bit_and_mask 16 base, bit_and_mask 8 (base / 2 ^ 16), bit_and_mask 8 (base / 2 ^ 24)),
  ground (arith, bit_and_mask 16 limit, top, low_nibble upper granularity nibble, byte),
  ground (arith, high_nibble upper granularity nibble, byte),
  ground arith,
  λ i other. ground (arith, other),
)
  where
    upper : ℕ
    upper = bit_and (limit / 2 ^ 16) 0x0F

    top : upper ≡ limit / 2 ^ 16 % 2 ^ 4
    top = bit_and_mask 4 (limit / 2 ^ 16)

    nibble : upper < 2 ^ 4
    nibble = omega (arith, top)

    byte : u8 (bit_or upper (bit_and granularity 0xF0)) ≡ bit_or upper (bit_and granularity 0xF0)
    byte = omega (arith, nibbles-lt upper granularity nibble)

-- A segment of ring 0 over all 4 GiB: base 0, the largest limit, in pages, of 32 bits.
pub record Flat (access : ℕ) (e : GdtEntry) : Type 0 where
  pub from_zero : base_of e ≡ 0
  pub to_the_end : (limit_of e + 1) * 4096 ≡ 2 ^ 32
  pub pages_32_bits : flags_of e ≡ 0xC0
  pub rights : e.access ≡ access

pub gdt_initialize-Flat :
    (address : ℕ) (g : Gdt)
    → Flat 0x9A
        ((gdt_initialize address g).gdt_entries ((gdt_initialize address g).segments.cs / 8))
      × Flat 0x92
          ((gdt_initialize address g).gdt_entries ((gdt_initialize address g).segments.ds / 8))
      × (((gdt_initialize address g).gdt_entries 0).access ≡ 0)
      × ((gdt_initialize address g).segments.es ≡ (gdt_initialize address g).segments.ds)
      × ((gdt_initialize address g).segments.fs ≡ (gdt_initialize address g).segments.ds)
      × ((gdt_initialize address g).segments.gs ≡ (gdt_initialize address g).segments.ds)
      × ((gdt_initialize address g).segments.ss ≡ (gdt_initialize address g).segments.ds)
      × ((gdt_initialize address g).segments.gdtr.base ≡ address)
      × ((gdt_initialize address g).segments.gdtr.limit + 1 ≡ 3 * 8)
unfolding gdt_initialize gdt_set_entry gdt_flush
gdt_initialize-Flat address g = (
  record { from_zero = refl; to_the_end = refl; pages_32_bits = refl; rights = refl },
  record { from_zero = refl; to_the_end = refl; pages_32_bits = refl; rights = refl },
  refl,
  refl,
  refl,
  refl,
  refl,
  refl,
  refl,
)
