-- ===== src/Memory/Client.antt =====
-- Users of the allocator that give back only pages they hold.
use projeto_so.Base.{
  ℕ, suc, ◌+◌, ◌*◌, ◌/◌, ◌%◌, ◌≤◌, List, [], ◌∷◌, ◌++◌, some, ◌≡◌, refl, ◌≢◌, arith, ◌==◌,
  if◌then◌else◌,
}
use projeto_so.Memory.{Pmm, page_size, pmm_alloc_page, pmm_free_page}
use projeto_so.Memory.Alloc.{Allocated, page, nothing, pmm_alloc_page-Allocated}
use projeto_so.Memory.Frames.{
  Bitmap, IsWords, used, used-lt, bitmap_set, bitmap_clear, used-bitmap_set, used-bitmap_clear,
  eq_of_used, bitmap_set-IsWords, bitmap_clear-IsWords,
}

-- `pmm_free_page` frees the frame of the address and no other.
pub used-pmm_free_page :
    (p : Pmm) (address : ℕ)
    → (p' : Pmm) × (pmm_free_page address p ≡ some (tt, p'))
      × ((c : ℕ)
          → used p'.pmm_bitmap c ≡ (if address / page_size == c then 0 else used p.pmm_bitmap c))
      × (p'.bus ≡ p.bus)
unfolding pmm_free_page
used-pmm_free_page p address = (
  record p { pmm_bitmap = bitmap_clear p.pmm_bitmap (address / page_size) },
  refl,
  used-bitmap_clear p.pmm_bitmap (address / page_size),
  refl,
)

bitmap_clear-bitmap_set :
    (bm bm' : Bitmap) (f address : ℕ)
    → IsWords bm
    → used bm f ≡ 0
    → bm' ≡ bitmap_set bm f
    → address / page_size ≡ f
    → bitmap_clear bm' (address / page_size) ≡ bm
bitmap_clear-bitmap_set bm bm' f address w free marked e =
    rw (e, marked)
      (eq_of_used (bitmap_clear (bitmap_set bm f) f) bm
        (bitmap_clear-IsWords (bitmap_set bm f) f (bitmap_set-IsWords bm f w)) w
        (λ b. ground (arith, used-bitmap_clear (bitmap_set bm f) f b, used-bitmap_set bm f b)))

-- Giving back the page that was just handed out restores the allocator.
pub pmm_free_page-pmm_alloc_page :
    (p p' : Pmm) (address : ℕ)
    → IsWords p.pmm_bitmap
    → pmm_alloc_page p ≡ some (address, p')
    → address ≢ 0
    → (q : Pmm) × (pmm_free_page address p' ≡ some (tt, q)) × (q.pmm_bitmap ≡ p.pmm_bitmap)
unfolding pmm_free_page
pmm_free_page-pmm_alloc_page p p' address w r got = elim (pmm_alloc_page-Allocated p r) [
  | nothing taken e same ↦ absurd (got e)
  | page f inside free before e marked ↦ (
    record p' { pmm_bitmap = bitmap_clear p'.pmm_bitmap (address / page_size) },
    refl,
    bitmap_clear-bitmap_set p.pmm_bitmap p'.pmm_bitmap f address w free marked (omega arith),
  )
]

-- The pages that the users hold, by address, and the allocator.
pub record Users : Type 0 where
  pub held : List ℕ
  pub pmm : Pmm

pub data Step : Users → Users → Type 0 where
  take :
      {held : List ℕ} {p p' : Pmm} {address : ℕ}
      → pmm_alloc_page p ≡ some (address, p')
      → address ≢ 0
      → Step (record { held = held; pmm = p }) (record { held = address ∷ held; pmm = p' })
  refuse :
      {held : List ℕ} {p p' : Pmm}
      → pmm_alloc_page p ≡ some (0, p')
      → Step (record { held = held; pmm = p }) (record { held = held; pmm = p' })
  give :
      {held : List ℕ} {p p' : Pmm} (address : ℕ) (before after : List ℕ)
      → held ≡ before ++ address ∷ after
      → pmm_free_page address p ≡ some (tt, p')
      → Step (record { held = held; pmm = p }) (record { held = before ++ after; pmm = p' })

pub data Reach (s : Users) : Users → Type 0 where
  here : Reach s s
  next : {t u : Users} → Reach s t → Step t u → Reach s u

-- How often a page is held.
abbrev pub count : ℕ → List ℕ → ℕ
count a [] = 0
count a (x ∷ xs) = if x == a then suc (count a xs) else count a xs

count-append : (a : ℕ) (xs ys : List ℕ) → count a (xs ++ ys) ≡ count a xs + count a ys
count-append a [] ys = omega arith
count-append a (x ∷ xs) ys = ground (arith, count-append a xs ys)

-- What the users rely on: a page is held at most once, and is then marked in the bitmap; it is the
-- start of a frame, and not address 0.
pub record IsSound (s : Users) : Type 0 where
  pub marked : (a : ℕ) → count a s.held ≤ used s.pmm.pmm_bitmap (a / page_size)
  pub aligned : (a : ℕ) → count a s.held ≢ 0 → (a % page_size ≡ 0) × (a ≢ 0)

count-le-used :
    (a f : ℕ) (bm bm' : Bitmap) (held : List ℕ)
    → used bm f ≡ 0
    → bm' ≡ bitmap_set bm f
    → count a held ≤ used bm (a / page_size)
    → count a (f * page_size ∷ held) ≤ used bm' (a / page_size)
count-le-used a f bm bm' held free e h =
    rw e (ground (arith, used-bitmap_set bm f (a / page_size), used-lt bm (a / page_size)))

take-IsSound :
    {held : List ℕ} {p p' : Pmm} {address : ℕ}
    → Allocated p address p'
    → address ≢ 0
    → IsSound (record { held = held; pmm = p })
    → IsSound (record { held = address ∷ held; pmm = p' })
take-IsSound (nothing taken e same) got v = absurd (got e)
take-IsSound {held} {p} {p'} (page f inside free before e marked) got v = rw e (record {
  marked = λ a. count-le-used a f p.pmm_bitmap p'.pmm_bitmap held free marked (v.marked a);
  aligned = λ a h. ground (arith, v.aligned a);
})

-- Without one of its pages, held or not, a list holds what it held before.
module _ (a address : ℕ) (before after : List ℕ) where
  pub count-middle :
      count a (before ++ address ∷ after)
      ≡ (if address == a then suc (count a (before ++ after)) else count a (before ++ after))
  count-middle =
      ground (arith, count-append a before (address ∷ after), count-append a before after)

give-IsSound :
    {p p' : Pmm} (address : ℕ) (before after : List ℕ)
    → pmm_free_page address p ≡ some (tt, p')
    → IsSound (record { held = before ++ address ∷ after; pmm = p })
    → IsSound (record { held = before ++ after; pmm = p' })
unfolding pmm_free_page
give-IsSound {p} {p'} address before after r v = record {
  marked = λ a. ground (
    arith,
    v.marked a,
    v.aligned a,
    v.aligned address,
    count-middle a address before after,
    count-middle address address before after,
    used-lt p.pmm_bitmap (a / page_size),
    used-bitmap_clear p.pmm_bitmap (address / page_size) (a / page_size),
  );
  aligned = λ a h. ground (arith, v.aligned a, count-middle a address before after);
}

refuse-IsSound :
    {held : List ℕ} {p p' : Pmm}
    → Allocated p 0 p'
    → IsSound (record { held = held; pmm = p })
    → IsSound (record { held = held; pmm = p' })
refuse-IsSound (nothing taken e same) v = record {
  marked = λ a. rw same (v.marked a);
  aligned = v.aligned;
}
refuse-IsSound {p} (page f inside free before e marked) v = record {
  marked = λ a. rw marked (
      ground (
        arith,
        v.marked a,
        used-bitmap_set p.pmm_bitmap f (a / page_size),
        used-lt p.pmm_bitmap (a / page_size),
      ));
  aligned = v.aligned;
}

-- Every step of the users keeps this.
pub Step-IsSound : {s t : Users} → Step s t → IsSound s → IsSound t
Step-IsSound (take {p} r got) v = take-IsSound (pmm_alloc_page-Allocated p r) got v
Step-IsSound (refuse {p} r) v = refuse-IsSound (pmm_alloc_page-Allocated p r) v
Step-IsSound (give {p} address before after e r) v = give-IsSound address before after r (rw e at v)

Reach-IsSound : {s t : Users} → Reach s t → IsSound s → IsSound t
Reach-IsSound here v = v
Reach-IsSound (next r st) v = Step-IsSound st (Reach-IsSound r v)

-- Users that start with no page and give back only pages that they hold at the time never hold one
-- page twice, in whatever order they take and give back; each page that is held is a whole frame, marked as in use, and not at address 0.
pub no_page_held_twice :
    {p : Pmm} {s : Users}
    → Reach (record { held = []; pmm = p }) s
    → (a : ℕ)
    → (count a s.held ≤ 1)
      × (count a s.held ≢ 0
          → (a % page_size ≡ 0) × (a ≢ 0) × (used s.pmm.pmm_bitmap (a / page_size) ≡ 1))
no_page_held_twice {s} r a =
    ground (arith, sound.marked a, sound.aligned a, used-lt s.pmm.pmm_bitmap (a / page_size))
  where
    sound : IsSound s
    sound = Reach-IsSound r (record { marked = λ b. omega arith; aligned = λ b h. absurd (h refl) })
