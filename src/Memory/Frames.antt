-- ===== src/Memory/Frames.antt =====
-- src/memory.c: the bitmap of page frames. Bit `b % 32` of word `b / 32` is frame `b`: 1 is in use.
-- `1 << (bit % 32)` is `2 ^ (bit % 32)`, and `~x` is `u32_max - x`.
use projeto_so.Base.{
  ℕ, ◌+◌, ◌-◌, ◌*◌, ◌/◌, ◌%◌, ◌^◌, ◌<◌, bit_and, bit_or, ◌≡◌, ◌≢◌, arith, ◌==◌, if◌then◌else◌,
  update, u32_max, fun_ext,
}
use projeto_so.Bits.{test_bit, test_bit_of_zero, test_bit-lt, test_bit-bit_or, test_bit-bit_and}
use projeto_so.Bits.Word.{
  test_bit-pow, test_bit-complement, bit_or-lt, bit_and-lt, bit_and-pow_zero, bit_and-pow_one,
  eq_of_bits, pow-lt,
}

-- `pmm_bitmap`, by the index of the word.
abbrev pub Bitmap : Type 0
Bitmap = ℕ → ℕ

abbrev pub pmm_bitmap_size : ℕ
pmm_bitmap_size = 32768

unfoldable pub bitmap_set : Bitmap → ℕ → Bitmap
bitmap_set bm bit = update bm (bit / 32) (bit_or (bm (bit / 32)) (2 ^ (bit % 32)))

unfoldable pub bitmap_clear : Bitmap → ℕ → Bitmap
bitmap_clear bm bit = update bm (bit / 32) (bit_and (bm (bit / 32)) (u32_max - 2 ^ (bit % 32)))

unfoldable pub bitmap_test : Bitmap → ℕ → ℕ
bitmap_test bm bit = bit_and (bm (bit / 32)) (2 ^ (bit % 32))

-- The frame is in use (1) or free (0).
unfoldable pub used : Bitmap → ℕ → ℕ
used bm b = test_bit (bm (b / 32)) (b % 32)

-- Every word is one of 32 bits.
abbrev pub IsWords : Bitmap → Type 0
IsWords bm = (i : ℕ) → bm i < 2 ^ 32

pub used-lt : (bm : Bitmap) (b : ℕ) → used bm b < 2
unfolding used
used-lt bm b = test_bit-lt (bm (b / 32)) (b % 32)

pub used-bitmap_set :
    (bm : Bitmap) (b c : ℕ) → used (bitmap_set bm b) c ≡ (if b == c then 1 else used bm c)
unfolding used bitmap_set
used-bitmap_set bm b c = ground (
  arith,
  test_bit-bit_or (bm (b / 32)) (2 ^ (b % 32)) (c % 32),
  test_bit-pow (b % 32) (c % 32),
  test_bit-lt (bm (c / 32)) (c % 32),
)

-- Bit `j` of the mask `~(1 << k)`.
test_bit-mask : (k j : ℕ) → k < 32 → j < 32 → test_bit (u32_max - 2 ^ k) j + test_bit (2 ^ k) j ≡ 1
test_bit-mask k j hk hj = test_bit-complement 32 (2 ^ k) j (pow-lt k 32 hk) hj

pub used-bitmap_clear :
    (bm : Bitmap) (b c : ℕ) → used (bitmap_clear bm b) c ≡ (if b == c then 0 else used bm c)
unfolding used bitmap_clear
used-bitmap_clear bm b c = ground (
  arith,
  test_bit-bit_and (bm (b / 32)) (u32_max - 2 ^ (b % 32)) (c % 32),
  test_bit-mask (b % 32) (c % 32) (omega arith) (omega arith),
  test_bit-pow (b % 32) (c % 32),
  test_bit-lt (bm (c / 32)) (c % 32),
)

pub bitmap_set-IsWords : (bm : Bitmap) (b : ℕ) → IsWords bm → IsWords (bitmap_set bm b)
unfolding bitmap_set
bitmap_set-IsWords bm b w i = ground (
  arith,
  bit_or-lt 32 (bm (b / 32)) (2 ^ (b % 32)) (w (b / 32)) (pow-lt (b % 32) 32 (omega arith)),
  w i,
)

pub bitmap_clear-IsWords : (bm : Bitmap) (b : ℕ) → IsWords bm → IsWords (bitmap_clear bm b)
unfolding bitmap_clear
bitmap_clear-IsWords bm b w i =
    ground (arith, bit_and-lt 32 (bm (b / 32)) (u32_max - 2 ^ (b % 32)) (w (b / 32)), w i)

-- `bitmap_test` is 0 exactly at a free frame.
pub bitmap_test-free : (bm : Bitmap) (b : ℕ) → used bm b ≡ 0 → bitmap_test bm b ≡ 0
unfolding used bitmap_test
bitmap_test-free bm b free = bit_and-pow_zero (bm (b / 32)) (b % 32) free

pub bitmap_test-used : (bm : Bitmap) (b : ℕ) → used bm b ≢ 0 → bitmap_test bm b ≢ 0
unfolding used bitmap_test
bitmap_test-used bm b taken =
    bit_and-pow_one (bm (b / 32)) (b % 32) (omega (arith, test_bit-lt (bm (b / 32)) (b % 32)))

-- A bitmap is determined by which frames are in use.
pub eq_of_used :
    (bm bm' : Bitmap) → IsWords bm → IsWords bm' → ((b : ℕ) → used bm b ≡ used bm' b) → bm ≡ bm'
unfolding used
eq_of_used bm bm' w w' same = fun_ext (λ i. eq_of_bits 32 (bm i) (bm' i) (w i) (w' i) (λ j h.
    let e : (i * 32 + j) / 32 ≡ i = omega arith in
    let f : (i * 32 + j) % 32 ≡ j = omega arith in rw (e, f) at (same (i * 32 + j))))

-- The frames of a word of ones are in use.
pub used_of_ones : (bm : Bitmap) (b : ℕ) → bm (b / 32) ≡ u32_max → used bm b ≡ 1
unfolding used
used_of_ones bm b e = rw e (
    omega (
      arith,
      test_bit-complement 32 0 (b % 32) (omega arith) (omega arith),
      test_bit_of_zero (b % 32),
    ))
