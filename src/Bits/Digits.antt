-- ===== src/Bits/Digits.antt =====
-- The native `|` and `&` act on each bit by itself.
use Prim.Native.Nat.{digits, bit_and-bitwise, bit_or-bitwise}
use projeto_so.Base.{
  ℕ, zero, suc, ◌+◌, ◌*◌, ◌/◌, ◌%◌, ◌≤◌, ◌<◌, min, max, bit_and, bit_or, ◌≡◌, refl, arith,
}

-- Bit `j` of `w`, as a number: `(w >> j) & 1`.
abbrev pub test_bit : ℕ → ℕ → ℕ
test_bit w zero = w % 2
test_bit w (suc j) = test_bit (w / 2) j

pub test_bit-lt : (w j : ℕ) → test_bit w j < 2
test_bit-lt w zero = omega arith
test_bit-lt w (suc j) = test_bit-lt (w / 2) j

pub test_bit_of_zero : (j : ℕ) → test_bit 0 j ≡ 0
test_bit_of_zero zero = refl
test_bit_of_zero (suc j) = test_bit_of_zero j

-- An operation by digits, `z` being what is left of the second number when the first has run out.
module _ (z : ℕ → ℕ) (f : ℕ → ℕ → ℕ) (ends : (b j : ℕ) → test_bit (z b) j ≡ f 0 (test_bit b j))
    (small : (x y : ℕ) → x < 2 → y < 2 → f x y < 2) where
  test_bit-digits :
      (n a b j : ℕ) → a ≤ n → test_bit (digits z f n a b) j ≡ f (test_bit a j) (test_bit b j)
  test_bit-digits zero zero b j h = rw (test_bit_of_zero j) (ends b j)
  test_bit-digits zero (suc a) b j h = absurd (omega arith)
  test_bit-digits (suc n) zero b j h = rw (test_bit_of_zero j) (ends b j)
  test_bit-digits (suc n) (suc a) b zero h =
      omega (arith, small (suc a % 2) (b % 2) (omega arith) (omega arith))
  test_bit-digits (suc n) (suc a) b (suc j) h =
      rw halved (test_bit-digits n (suc a / 2) (b / 2) j (omega arith))
    where
      halved :
          (digits z f n (suc a / 2) (b / 2) * 2 + f (suc a % 2) (b % 2)) / 2
          ≡ digits z f n (suc a / 2) (b / 2)
      halved = omega (arith, small (suc a % 2) (b % 2) (omega arith) (omega arith))

pub test_bit-bit_or : (a b j : ℕ) → test_bit (bit_or a b) j ≡ max (test_bit a j) (test_bit b j)
test_bit-bit_or a b j = rw (bit_or-bitwise a b) (
    test_bit-digits (λ y. y) max (λ y k. omega arith) (λ x y p q. omega arith) a a b j
      (omega arith))

pub test_bit-bit_and : (a b j : ℕ) → test_bit (bit_and a b) j ≡ min (test_bit a j) (test_bit b j)
test_bit-bit_and a b j = rw (bit_and-bitwise a b) (
    test_bit-digits (λ y. 0) min (λ y k. rw (test_bit_of_zero k) (omega arith))
      (λ x y p q. omega arith) a a b j (omega arith))
