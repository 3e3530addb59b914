-- ===== src/Loader/Translate.antt =====
-- The translation of addresses with paging on and off, and the stores that go through it.
use projeto_so.Base.{
  ℕ, ◌+◌, ◌*◌, ◌/◌, ◌%◌, ◌^◌, ◌≡◌, ◌≢◌, ◌<◌, ◌≤◌, ◌∙◌, sub_u32, refl, ap, arith, none, some,
  ==_false, bit_and, bit_or, update,
}
use projeto_so.Bits.{test_bit-bit_or, test_bit-lt}
use projeto_so.Bits.Word.{test_bit-pow, bit_and-pow_one}
use projeto_so.Io.Returns.{Returns, returns}
use projeto_so.Memory.{kernel_base}
use projeto_so.Loader.{Startup, translate, store, fetch, fetch_low, fetch_high}

-- A bit that was set is found.
pub bit_set : (x k : ℕ) → bit_and (bit_or x (2 ^ k)) (2 ^ k) ≢ 0
bit_set x k =
    bit_and-pow_one (bit_or x (2 ^ k)) k
      (ground (arith, test_bit-bit_or x (2 ^ k) k, test_bit-pow k k, test_bit-lt x k))

-- Paging is on, with a directory at the physical address `d`.
pub record Paged (d : ℕ) (s : Startup) : Type 0 where
  pub on : bit_and s.cr0 (2 ^ 31) ≢ 0
  pub large : bit_and s.cr4 (2 ^ 4) ≢ 0
  pub directory_at : s.cr3 / 2 ^ 12 * 2 ^ 12 ≡ d

pub translate-present :
    {d : ℕ} {s : Startup} (a : ℕ)
    → Paged d s
    → s.memory (d + a / 2 ^ 22 * 4) ≡ 0x83
    → translate s a ≡ some (a % 2 ^ 22)
translate-present a p e =
    rw (p.directory_at, e, ==_false p.on, ==_false p.large) (ap some (omega arith))

pub translate-absent :
    {d : ℕ} {s : Startup} (a : ℕ)
    → Paged d s
    → s.memory (d + a / 2 ^ 22 * 4) ≡ 0
    → translate s a ≡ none
translate-absent a p e = rw (p.directory_at, e, ==_false p.on) refl

pub translate-off : (s : Startup) (a : ℕ) → bit_and s.cr0 (2 ^ 31) ≡ 0 → translate s a ≡ some a
translate-off s a e = rw e refl

pub store-Returns :
    {s : Startup} (physical a v : ℕ)
    → translate s a ≡ some physical
    → Returns (store a v) s (λ _ s'. s' ≡ record s { memory = update s.memory physical v })
unfolding store
store-Returns {s} physical a v e =
    returns tt (record s { memory = update s.memory physical v }) (rw (e, store) refl) refl

pub fetch-run :
    {s : Startup} (eip physical : ℕ)
    → translate s eip ≡ some physical
    → fetch eip physical s ≡ some (tt, s)
unfolding fetch
fetch-run eip physical e = rw (fetch, e) (ground arith)

-- The code from `lea` to `call` is linked to lie from `kernel_base` on, in the first 4 MiB.
abbrev pub Placed : (ℕ → ℕ) → Type 0
Placed code = (i : ℕ) → i < 8 → (kernel_base ≤ code i) × (code i < kernel_base + 2 ^ 22)

-- With both entries there, the code is found at its lower and at its higher addresses.
module _ (code : ℕ → ℕ) (placed : Placed code) {d : ℕ} {s : Startup} (paged : Paged d s) where
  pub fetch_low-run : (i : ℕ) → i < 8 → s.memory d ≡ 0x83 → fetch_low code i s ≡ some (tt, s)
  fetch_low-run i small entry =
      let (from, to) = placed i small in
      let at = sub_u32 (code i) kernel_base in
      let first : d + at / 2 ^ 22 * 4 ≡ d = omega (arith, from, to) in
      fetch-run at at
        (translate-present at paged (ap s.memory first ∙ entry) ∙ ap some (omega (arith, from, to)))

  pub fetch_high-run :
      (i : ℕ) → i < 8 → s.memory (d + 3072) ≡ 0x83 → fetch_high code i s ≡ some (tt, s)
  fetch_high-run i small entry =
      let (from, to) = placed i small in
      let index : d + code i / 2 ^ 22 * 4 ≡ d + 3072 = omega (arith, from, to) in
      fetch-run (code i) (sub_u32 (code i) kernel_base) (
        translate-present (code i) paged (ap s.memory index ∙ entry)
        ∙ ap some (omega (arith, from, to)))
