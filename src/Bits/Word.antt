-- ===== src/Bits/Word.antt =====
-- Words of `n` bits.
use native.Mathlib.Nat.{pow-suc, one-le-pow, div-add-mod', mod-lt}
use projeto_so.Base.{
  ℕ, zero, suc, ◌+◌, ◌-◌, ◌*◌, sym, ◌∙◌, ◌/◌, ◌%◌, ◌^◌, ◌≤◌, ◌<◌, bit_and, bit_or, ◌≡◌, refl, arith,
  ◌==◌, if◌then◌else◌, ap, dec_lt, ◌≢◌,
}
use projeto_so.Bits.Digits.{
  test_bit, test_bit-lt, test_bit_of_zero, test_bit-bit_or, test_bit-bit_and,
}

pub pow-lt : (k n : ℕ) → k < n → 2 ^ k < 2 ^ n
pow-lt k zero h = absurd (omega arith)
pow-lt k (suc n) h = elim (dec_lt k n) [
  | yes below ↦ omega (arith, pow-suc 2 n, pow-lt k n below)
  | no last ↦
      let e : k ≡ n = omega arith in rw e (omega (arith, pow-suc 2 n, one-le-pow n 2 (omega arith)))
]

-- `1 << k` has the one bit `k`.
pub test_bit-pow : (k j : ℕ) → test_bit (2 ^ k) j ≡ (if k == j then 1 else 0)
test_bit-pow zero zero = refl
test_bit-pow zero (suc j) = rw (test_bit_of_zero j) (ground arith)
test_bit-pow (suc k) zero = ground (arith, pow-suc 2 k)
test_bit-pow (suc k) (suc j) = rw halved (ground (arith, test_bit-pow k j))
  where
    halved : 2 ^ suc k / 2 ≡ 2 ^ k
    halved = omega (arith, pow-suc 2 k)

-- `~x` in `n` bits turns every bit round.
pub test_bit-complement :
    (n x j : ℕ) → x < 2 ^ n → j < n → test_bit (2 ^ n - 1 - x) j + test_bit x j ≡ 1
test_bit-complement zero x j hx hj = absurd (omega arith)
test_bit-complement (suc n) x zero hx hj = omega (arith, pow-suc 2 n)
test_bit-complement (suc n) x (suc j) hx hj =
    rw halved (test_bit-complement n (x / 2) j (omega (arith, pow-suc 2 n)) (omega arith))
  where
    halved : (2 ^ suc n - 1 - x) / 2 ≡ 2 ^ n - 1 - x / 2
    halved = omega (arith, pow-suc 2 n)

pub test_bit_of_lt : (n x j : ℕ) → x < 2 ^ n → n ≤ j → test_bit x j ≡ 0
test_bit_of_lt zero x j hx hj = let e : x ≡ 0 = omega arith in rw (e, test_bit_of_zero j)
test_bit_of_lt (suc n) x zero hx hj = absurd (omega arith)
test_bit_of_lt (suc n) x (suc j) hx hj =
    test_bit_of_lt n (x / 2) j (omega (arith, pow-suc 2 n)) (omega arith)

eq-zero_of_bits_fuel : (k x : ℕ) → x ≤ k → ((j : ℕ) → test_bit x j ≡ 0) → x ≡ 0
eq-zero_of_bits_fuel zero x h z = omega arith
eq-zero_of_bits_fuel (suc k) zero h z = refl
eq-zero_of_bits_fuel (suc k) (suc x) h z =
    omega (arith, z 0, eq-zero_of_bits_fuel k (suc x / 2) (omega arith) (λ j. z (suc j)))

pub eq-zero_of_bits : (x : ℕ) → ((j : ℕ) → test_bit x j ≡ 0) → x ≡ 0
eq-zero_of_bits x = eq-zero_of_bits_fuel x x (omega arith)

pub lt_of_bits : (n x : ℕ) → ((j : ℕ) → n ≤ j → test_bit x j ≡ 0) → x < 2 ^ n
lt_of_bits zero x z = omega (arith, eq-zero_of_bits x (λ j. z j (omega arith)))
lt_of_bits (suc n) x z =
    omega (arith, pow-suc 2 n, lt_of_bits n (x / 2) (λ j h. z (suc j) (omega arith)))

-- Words of `n` bits with the same bits are the same.
pub eq_of_bits :
    (n x y : ℕ) → x < 2 ^ n → y < 2 ^ n → ((j : ℕ) → j < n → test_bit x j ≡ test_bit y j) → x ≡ y
eq_of_bits zero x y hx hy e = omega arith
eq_of_bits (suc n) x y hx hy e = omega (
  arith,
  e 0 (omega arith),
  eq_of_bits n (x / 2) (y / 2) (omega (arith, pow-suc 2 n)) (omega (arith, pow-suc 2 n))
      (λ j h. e (suc j) (omega arith)),
)

pub bit_or-lt : (n a b : ℕ) → a < 2 ^ n → b < 2 ^ n → bit_or a b < 2 ^ n
bit_or-lt n a b ha hb = lt_of_bits n (bit_or a b) (λ j h.
    omega (arith, test_bit-bit_or a b j, test_bit_of_lt n a j ha h, test_bit_of_lt n b j hb h))

pub bit_and-lt : (n a b : ℕ) → a < 2 ^ n → bit_and a b < 2 ^ n
bit_and-lt n a b ha =
    lt_of_bits n (bit_and a b)
      (λ j h. omega (arith, test_bit-bit_and a b j, test_bit_of_lt n a j ha h))

-- A test `a & (1 << k)` in C reads bit `k`.
pub bit_and-pow_zero : (a k : ℕ) → test_bit a k ≡ 0 → bit_and a (2 ^ k) ≡ 0
bit_and-pow_zero a k z =
    eq-zero_of_bits (bit_and a (2 ^ k))
      (λ j. ground (arith, test_bit-bit_and a (2 ^ k) j, test_bit-pow k j, test_bit-lt a j))

pub bit_and-pow_one : (a k : ℕ) → test_bit a k ≡ 1 → bit_and a (2 ^ k) ≢ 0
bit_and-pow_one a k o e = ground (
  arith,
  test_bit-bit_and a (2 ^ k) k,
  test_bit-pow k k,
  ap (λ (x : ℕ). test_bit x k) e,
  test_bit_of_zero k,
)

-- A word that is not all ones has a bit 0.
pub zero_bit_of_ne : (n x : ℕ) → x < 2 ^ n → x ≢ 2 ^ n - 1 → (j : ℕ) × (j < n) × (test_bit x j ≡ 0)
zero_bit_of_ne zero x h ne = absurd (omega arith)
zero_bit_of_ne (suc n) x h ne = elim (dec_lt (x % 2) 1) [
  | yes low ↦ (0, omega arith, omega arith)
  | no high ↦
      let (j, below, z) =
        zero_bit_of_ne n (x / 2) (omega (arith, pow-suc 2 n)) (omega (arith, pow-suc 2 n)) in
      (suc j, omega arith, z)
]

doubled : (q k : ℕ) → q * 2 ^ suc k ≡ 2 * (q * 2 ^ k)
doubled q k = omega (arith, ap (λ (t : ℕ). q * t) (pow-suc 2 k))

-- What stands above bit `k` does not show below it.
test_bit_low : (k q r j : ℕ) → j < k → test_bit (q * 2 ^ k + r) j ≡ test_bit r j
test_bit_low zero q r j h = absurd (omega arith)
test_bit_low (suc k) q r zero h = omega (arith, doubled q k)
test_bit_low (suc k) q r (suc j) h = rw halved (test_bit_low k q (r / 2) j (omega arith))
  where
    halved : (q * 2 ^ suc k + r) / 2 ≡ q * 2 ^ k + r / 2
    halved = omega (arith, doubled q k)

pub test_bit-mod : (k x j : ℕ) → j < k → test_bit (x % 2 ^ k) j ≡ test_bit x j
test_bit-mod k x j h =
    sym (test_bit_low k (x / 2 ^ k) (x % 2 ^ k) j h)
    ∙ ap (λ (t : ℕ). test_bit t j) (div-add-mod' x (2 ^ k))

test_bit_of_ones : (k j : ℕ) → j < k → test_bit (2 ^ k - 1) j ≡ 1
test_bit_of_ones k j h =
    let e : 2 ^ k - 1 - 0 ≡ 2 ^ k - 1 = omega arith in
    let sum : test_bit (2 ^ k - 1 - 0) j + test_bit 0 j ≡ 1 =
      test_bit-complement k 0 j (one-le-pow k 2 (omega arith)) h in
    omega (arith, ap (λ (t : ℕ). test_bit t j) e, sum, test_bit_of_zero j)

-- A mask of `k` ones takes the remainder.
pub bit_and_mask : (k x : ℕ) → bit_and x (2 ^ k - 1) ≡ x % 2 ^ k
bit_and_mask k x =
    eq_of_bits k (bit_and x (2 ^ k - 1)) (x % 2 ^ k)
      (lt_of_bits k (bit_and x (2 ^ k - 1)) (λ j h.
        omega (arith, test_bit-bit_and x (2 ^ k - 1) j, test_bit_of_lt k (2 ^ k - 1) j ones h)))
      (mod-lt x (one-le-pow k 2 (omega arith)))
      (λ j h. omega (
        arith,
        test_bit-bit_and x (2 ^ k - 1) j,
        test_bit_of_ones k j h,
        test_bit-lt x j,
        test_bit-mod k x j h,
      ))
  where
    ones : 2 ^ k - 1 < 2 ^ k
    ones = omega (arith, one-le-pow k 2 (omega arith))
