-- ===== src/Bits/Nibbles.antt =====
-- The two halves of a byte, as descriptors pack them.
use projeto_so.Base.{ℕ, zero, suc, ◌%◌, ◌^◌, ◌<◌, ◌≡◌, refl, arith, bit_and, bit_or, dec_lt}
use projeto_so.Bits.Digits.{test_bit, test_bit-bit_or, test_bit-bit_and}
use projeto_so.Bits.Word.{eq_of_bits, lt_of_bits, bit_or-lt, test_bit-mod, test_bit_of_lt}

upper_bits : (j : ℕ) → j < 4 → test_bit 0xF0 j ≡ 0
upper_bits zero h = refl
upper_bits (suc zero) h = refl
upper_bits (suc (suc zero)) h = refl
upper_bits (suc (suc (suc zero))) h = refl
upper_bits (suc (suc (suc (suc j)))) h = absurd (omega arith)

upper-lt : (g : ℕ) → bit_and g 0xF0 < 2 ^ 8
upper-lt g =
    lt_of_bits 8 (bit_and g 0xF0)
      (λ j h. omega (arith, test_bit-bit_and g 0xF0 j, test_bit_of_lt 8 0xF0 j (omega arith) h))

-- Two halves of a byte, put together by `|` and `&`.
module _ (a g : ℕ) (small : a < 2 ^ 4) where
  pub nibbles-lt : bit_or a (bit_and g 0xF0) < 2 ^ 8
  nibbles-lt = bit_or-lt 8 a (bit_and g 0xF0) (omega arith) (upper-lt g)

  pub low_nibble : bit_or a (bit_and g 0xF0) % 2 ^ 4 ≡ a
  low_nibble = eq_of_bits 4 (bit_or a (bit_and g 0xF0) % 2 ^ 4) a (omega arith) small (λ j h.
      omega (
        arith,
        test_bit-mod 4 (bit_or a (bit_and g 0xF0)) j h,
        test_bit-bit_or a (bit_and g 0xF0) j,
        test_bit-bit_and g 0xF0 j,
        upper_bits j h,
      ))

  pub high_nibble : bit_and (bit_or a (bit_and g 0xF0)) 0xF0 ≡ bit_and g 0xF0
  high_nibble =
      eq_of_bits 8 (bit_and (bit_or a (bit_and g 0xF0)) 0xF0) (bit_and g 0xF0)
        (upper-lt (bit_or a (bit_and g 0xF0))) (upper-lt g)
        (λ j h. elim (dec_lt j 4) [
          | yes low ↦ omega (
            arith,
            test_bit-bit_and (bit_or a (bit_and g 0xF0)) 0xF0 j,
            test_bit-bit_and g 0xF0 j,
            upper_bits j low,
          )
          | no high ↦ omega (
            arith,
            test_bit-bit_and (bit_or a (bit_and g 0xF0)) 0xF0 j,
            test_bit-bit_or a (bit_and g 0xF0) j,
            test_bit-bit_and g 0xF0 j,
            test_bit_of_lt 4 a j small (omega arith),
          )
        ])
