-- ===== src/Memory/Search.antt =====
-- The search of the bitmap, word by word and bit by bit.
use projeto_so.Base.{
  ℕ, zero, suc, ◌+◌, ◌*◌, ◌/◌, ◌≤◌, ◌<◌, Option, none, some, ◌≡◌, refl, ◌≢◌, inl, inr, arith, ◌==◌,
  u32, u32_max, Bool-cases, ==_iff, false, dec_lt,
}
use projeto_so.Memory.{page_size, alloc_in_word, alloc_from}
use projeto_so.Memory.Frames.{
  Bitmap, used, used-lt, used_of_ones, bitmap_set, bitmap_test-free, bitmap_test-used,
  pmm_bitmap_size,
}

-- The bitmap covers 4 GiB in frames of 4 KiB.
abbrev pub frames : ℕ
frames = pmm_bitmap_size * 32

-- No frame of `lo`, …, `hi - 1` is free.
abbrev pub AllUsed : Bitmap → ℕ → ℕ → Type 0
AllUsed bm lo hi = (g : ℕ) → lo ≤ g → g < hi → used bm g ≡ 1

AllUsed-join : (bm : Bitmap) {a b c : ℕ} → AllUsed bm a b → AllUsed bm b c → AllUsed bm a c
AllUsed-join bm {b} p q g lo hi = elim (dec_lt g b) [
  | yes below ↦ p g lo below
  | no above ↦ q g (omega arith) hi
]

AllUsed-one : (bm : Bitmap) {a : ℕ} → used bm a ≡ 1 → AllUsed bm a (a + 1)
AllUsed-one bm {a} taken g lo hi = let e : g ≡ a = omega arith in rw e taken

==_false : {a : ℕ} → a ≢ 0 → (a == 0) ≡ false
==_false h = ground arith

-- What a search of the frames `lo`, …, `hi - 1` gives.
pub data Search (bm : Bitmap) (lo hi : ℕ) (r : Option (Bitmap × ℕ)) : Type 0 where
  found :
      (f : ℕ)
      → lo ≤ f
      → f < hi
      → used bm f ≡ 0
      → AllUsed bm lo f
      → r ≡ some (bitmap_set bm f, u32 (f * page_size))
      → Search bm lo hi r
  full : AllUsed bm lo hi → r ≡ none → Search bm lo hi r

-- A search that starts one frame later, past a frame in use.
Search-extend :
    {bm : Bitmap} {lo lo' hi : ℕ} {r : Option (Bitmap × ℕ)}
    → AllUsed bm lo lo'
    → lo ≤ lo'
    → Search bm lo' hi r
    → Search bm lo hi r
Search-extend {bm} {lo} {lo'} taken h (found f above below free before e) =
    found f (omega arith) below free (AllUsed-join bm taken before) e
Search-extend {bm} taken h (full all e) = full (AllUsed-join bm taken all) e

alloc_in_word-Search :
    (n i j : ℕ) (bm : Bitmap) (lo hi : ℕ)
    → i * 32 + j ≡ lo
    → lo + n ≡ hi
    → Search bm lo hi (alloc_in_word n i j bm)
unfolding alloc_in_word
alloc_in_word-Search zero i j bm lo hi s e = full (λ g p q. absurd (omega arith)) refl
alloc_in_word-Search (suc n) i j bm lo hi s e = rw s (elim (dec_lt (used bm lo) 1) [
  | yes free ↦
      found lo (omega arith) (omega arith) (omega arith) (λ g p q. absurd (omega arith))
        (rw (bitmap_test-free bm lo (omega arith)) refl)
  | no taken ↦ rw (==_false (bitmap_test-used bm lo (omega arith))) (
      Search-extend (AllUsed-one bm (omega (arith, used-lt bm lo))) (omega arith)
        (alloc_in_word-Search n i (j + 1) bm (lo + 1) hi (omega arith) (omega arith)))
])

-- A word of ones has no free frame, any other has one.
full_word : (bm : Bitmap) (i lo : ℕ) → i * 32 ≡ lo → bm i ≡ u32_max → AllUsed bm lo (lo + 32)
full_word bm i lo s e g p q = let w : g / 32 ≡ i = omega arith in used_of_ones bm g (rw w e)

-- The word is searched, and then, if it has no free frame, the rest.
in_word :
    {bm : Bitmap} {lo mid hi : ℕ} {r next : Option (Bitmap × ℕ)}
    → lo ≤ mid
    → mid ≤ hi
    → Search bm lo mid r
    → Search bm mid hi next
    → Search bm lo hi (elim r [ some f ↦ some f | none ↦ next ])
in_word p q (found f above below free before e) rest =
    found f above (omega arith) free before (rw e refl)
in_word p q (full taken e) rest = rw e (Search-extend taken p rest)

alloc_from-Search :
    (n i : ℕ) (bm : Bitmap) (lo hi : ℕ)
    → i * 32 ≡ lo
    → lo + n * 32 ≡ hi
    → Search bm lo hi (alloc_from n i bm)
unfolding alloc_from
alloc_from-Search zero i bm lo hi s e = full (λ g p q. absurd (omega arith)) refl
alloc_from-Search (suc n) i bm lo hi s e = elim (Bool-cases (bm i == u32_max)) [
  | inl ones ↦ rw ones (
      Search-extend (full_word bm i lo s ((==_iff _ _).0 ones)) (omega arith)
        (alloc_from-Search n (i + 1) bm (lo + 32) hi (omega arith) (omega arith)))
  | inr mixed ↦ rw mixed (
      in_word (omega arith) (omega arith)
        (alloc_in_word-Search 32 i 0 bm lo (lo + 32) (omega arith) refl)
        (alloc_from-Search n (i + 1) bm (lo + 32) hi (omega arith) (omega arith)))
]

pub first_unique :
    (bm : Bitmap) (g f : ℕ)
    → used bm g ≡ 0
    → AllUsed bm 0 g
    → used bm f ≡ 0
    → AllUsed bm 0 f
    → g ≡ f
first_unique bm g f free_g before_g free_f before_f = elim (dec_lt g f) [
  | yes less ↦ absurd (omega (arith, before_f g (omega arith) less))
  | no more ↦ elim (dec_lt f g) [
    | yes less ↦ absurd (omega (arith, before_g f (omega arith) less))
    | no same ↦ omega arith
  ]
]

-- The allocator finds the first free frame, if there is one.
pub alloc-Search : (bm : Bitmap) → Search bm 0 frames (alloc_from pmm_bitmap_size 0 bm)
alloc-Search bm = alloc_from-Search pmm_bitmap_size 0 bm 0 frames refl refl
