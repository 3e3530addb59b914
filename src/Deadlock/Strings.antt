-- ===== src/Deadlock/Strings.antt =====
-- What `str_copy` leaves in its destination.
use projeto_so.Base.{
  ℕ, zero, suc, ◌+◌, ◌-◌, ◌<◌, ◌≤◌, ◌≡◌, refl, ◌∙◌, sym, ap, arith, List, [], ◌∷◌, ◌++◌, ◌==◌, ltb,
  Bool-cases, inl, inr, set, take, length, until_nul, Written, start, Written-set, until_nul-set,
  length-set, append-nil, append_assoc, length-append,
}
use projeto_so.Deadlock.{copy_from, str_copy}

take-nil : (n : ℕ) → take {A = ℕ} n [] ≡ []
take-nil zero = refl
take-nil (suc n) = refl

-- Where the loop stops, the 0 ends the text that is written so far.
stopped :
    {i : ℕ} {pre dst : List ℕ} (rest : List ℕ)
    → rest ≡ []
    → length pre ≡ i
    → Written pre dst
    → i < length dst
    → until_nul (set dst i 0) ≡ pre ++ rest
stopped {i} {pre} {dst} rest none_left e w h =
    until_nul-set e w h ∙ sym (ap (λ t. pre ++ t) none_left ∙ append-nil pre)

take_none : {n : ℕ} (t : List ℕ) → n ≡ 0 → take n t ≡ []
take_none t e = rw e refl

take_more : {n m : ℕ} (c : ℕ) (t : List ℕ) → n ≡ suc m → take n (c ∷ t) ≡ c ∷ take m t
take_more c t e = rw e refl

pub until_nul-copy_from :
    (src : List ℕ) (i max : ℕ) {pre dst : List ℕ}
    → length pre ≡ i
    → Written pre dst
    → i < max
    → max ≤ length dst
    → until_nul (copy_from src i max dst) ≡ pre ++ take (max - 1 - i) (until_nul src)
unfolding copy_from
until_nul-copy_from [] i max e w h room =
    stopped _ (take-nil (max - 1 - i)) e w (omega (arith, room))
until_nul-copy_from (c ∷ src) i max {pre} {dst} e w h room = elim (Bool-cases (c == 0)) [
  | inl end ↦ rw end (stopped _ (take-nil (max - 1 - i)) e w (omega (arith, room)))
  | inr more ↦ rw more (elim (Bool-cases (ltb (i + 1) max)) [
    | inl on ↦ rw on (
        until_nul-copy_from src (i + 1) max (omega (arith, e, length-append pre (c ∷ [])))
          (Written-set pre dst c e (λ z. absurd (ground (arith, z, more))) w (omega (arith, room)))
          (ground (arith, on)) (omega (arith, room, length-set dst i c))
        ∙ append_assoc pre (c ∷ []) _
        ∙ ap (λ t. pre ++ t) (sym (take_more c (until_nul src) (ground (arith, on)))))
    | inr full ↦ rw full (
        stopped _ (take_none (c ∷ until_nul src) (ground (arith, full, h))) e w
          (omega (arith, room)))
  ])
]

pub length-copy_from :
    (src : List ℕ) (i max : ℕ) (dst : List ℕ) → length (copy_from src i max dst) ≡ length dst
unfolding copy_from
length-copy_from [] i max dst = length-set dst i 0
length-copy_from (c ∷ src) i max dst =
    ground (
      arith,
      length-copy_from src (i + 1) max (set dst i c),
      length-set dst i c,
      length-set dst i 0,
    )

-- `str_copy` leaves the text of the source, cut to `max - 1` bytes, and the array keeps its size.
pub str_copy_text :
    (dst src : List ℕ) (max : ℕ)
    → 0 < max
    → max ≤ length dst
    → (until_nul (str_copy dst src max) ≡ take (max - 1) (until_nul src))
      × (length (str_copy dst src max) ≡ length dst)
unfolding str_copy
str_copy_text dst src max some_room room = (
  until_nul-copy_from src 0 max refl (start dst) some_room room
      ∙ ap (λ n. take n (until_nul src)) same,
  length-copy_from src 0 max dst,
)
  where
    same : max - 1 - 0 ≡ max - 1
    same = omega arith
