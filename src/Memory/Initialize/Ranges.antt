-- ===== src/Memory/Initialize/Ranges.antt =====
-- Which frames a loop over addresses changes.
use projeto_so.Base.{
  ℕ, zero, suc, ◌+◌, ◌-◌, ◌*◌, ◌/◌, ◌%◌, ◌^◌, ◌≤◌, ◌<◌, Bool, true, false, ◌&&◌, Option, none, some,
  ◌≡◌, refl, arith, ◌==◌, ltb, leb, if◌then◌else◌, u32, Bool-cases, inl, inr,
}
use projeto_so.Memory.{page_size}
use projeto_so.Memory.Frames.{
  Bitmap, IsWords, used, bitmap_set, bitmap_clear, used-bitmap_set, used-bitmap_clear,
  bitmap_set-IsWords, bitmap_clear-IsWords,
}
use projeto_so.Memory.Initialize.{for_frames, clear_frames, set_frames}

ltb→lt : (a b : ℕ) → ltb a b ≡ true → a < b
ltb→lt a b h = ground arith

le→leb : (a b : ℕ) → a ≤ b → leb a b ≡ true
le→leb a b h = ground arith

-- The loop ended, with a bitmap of which `P` holds.
pub data Done (r : Option Bitmap) (P : Bitmap → Type 0) : Type 0 where
  done : (bm : Bitmap) → r ≡ some bm → IsWords bm → P bm → Done r P

-- Frame `c` is met on the way from address `s`, below `stop`: the address in it that is looked at
-- has the offset of `s`.
abbrev pub meets : ℕ → ℕ → ℕ → Bool
meets s stop c = leb (s / page_size) c && ltb (c * page_size + s % page_size) stop

module _ (test : ℕ → Bool) (change : Bitmap → ℕ → Bitmap) (v stop : ℕ)
    (tests : (a : ℕ) → test a ≡ ltb a stop)
    (changes : (bm : Bitmap) (b c : ℕ) → used (change bm b) c ≡ (if b == c then v else used bm c))
    (words : (bm : Bitmap) (b : ℕ) → IsWords bm → IsWords (change bm b)) where
  for_frames-Done :
      (n s : ℕ) (bm : Bitmap)
      → stop ≤ 2 ^ 32 - page_size + s % page_size
      → stop ≤ s + n * page_size
      → IsWords bm
      → Done
          (for_frames test change (suc n) s bm)
          (λ bm'. (c : ℕ) → used bm' c ≡ (if meets s stop c then v else used bm c))
  unfolding for_frames
  for_frames-Done zero s bm low far w = done bm (rw (tests s, past) refl) w (λ c. ground arith)
    where
      past : ltb s stop ≡ false
      past = ground arith
  for_frames-Done (suc n) s bm low far w = elim (Bool-cases (ltb s stop)) [
    | inr ends ↦ done bm (rw (tests s, ends) refl) w (λ c. ground arith)
    | inl goes ↦
        let stays : u32 (s + page_size) ≡ s + page_size = omega (arith, ltb→lt s stop goes) in
        elim (for_frames-Done n (s + page_size) (change bm (s / page_size)) (omega arith)
          (omega arith) (words bm (s / page_size) w)) [
            | done bm' e w' all ↦
                done bm' (rw (tests s, goes, stays) e) w'
                  (λ c. ground (arith, all c, changes bm (s / page_size) c))
          ]
  ]

-- The loop of step 2 ends if no address that it looks at lies in the last page of the address
-- space; it frees the frames that it meets and no other.
pub clear_frames-Done :
    (s stop : ℕ) (bm : Bitmap)
    → stop ≤ 2 ^ 32 - page_size + s % page_size
    → IsWords bm
    → Done
        (clear_frames s stop bm)
        (λ bm'. (c : ℕ) → used bm' c ≡ (if meets s stop c then 0 else used bm c))
unfolding clear_frames
clear_frames-Done s stop bm low w =
    for_frames-Done (λ a. ltb a stop) bitmap_clear 0 stop (λ a. refl) used-bitmap_clear
      bitmap_clear-IsWords (2 ^ 20) s bm low (omega arith) w

-- So do the loops of steps 3 and 4, which include the last address.
pub set_frames-Done :
    (s last : ℕ) (bm : Bitmap)
    → last < 2 ^ 32 - page_size + s % page_size
    → IsWords bm
    → Done
        (set_frames s last bm)
        (λ bm'. (c : ℕ) → used bm' c ≡ (if meets s (last + 1) c then 1 else used bm c))
unfolding set_frames
set_frames-Done s last bm low w =
    for_frames-Done (λ a. leb a last) bitmap_set 1 (last + 1) (λ a. ground arith) used-bitmap_set
      bitmap_set-IsWords (2 ^ 20) s bm (omega arith) (omega arith) w

-- Where `last` is the last address of its kind, or is past it, the address wraps round before it
-- can exceed `last`: the loop is not over after any number of rounds.
pub set_frames_never_ends :
    (rounds s last : ℕ) (bm : Bitmap)
    → s < 2 ^ 32
    → 2 ^ 32 - page_size + s % page_size ≤ last
    → for_frames (λ addr. leb addr last) bitmap_set rounds s bm ≡ none
unfolding for_frames
set_frames_never_ends zero s last bm small high = refl
set_frames_never_ends (suc n) s last bm small high =
    let goes : leb s last ≡ true = le→leb s last (omega arith) in
    rw goes (
      set_frames_never_ends n (u32 (s + page_size)) last (bitmap_set bm (s / page_size))
        (omega arith) (omega arith))
