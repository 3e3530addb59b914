-- ===== src/Memory/Handed.antt =====
-- What memory the users of the allocator get, from the start of the system on.
use projeto_so.Base.{
  ℕ, ◌-◌, ◌*◌, ◌/◌, ◌^◌, ◌≤◌, ◌<◌, ◌≡◌, ◌≢◌, refl, arith, List, [], ◌∷◌, ◌++◌, ◌==◌, some, sub_u32,
  Bool-cases, inl, inr,
}
use projeto_so.Io.Returns.{Returns, Returns-mono}
use projeto_so.Serial.Ready.{ready_count}
use projeto_so.Memory.{Pmm, page_size, kernel_base, pmm_free_page}
use projeto_so.Memory.Search.{frames}
use projeto_so.Memory.Alloc.{Allocated, page, nothing, pmm_alloc_page-Allocated}
use projeto_so.Memory.Frames.{Bitmap, IsWords, used, bitmap_set, used-bitmap_set, used-bitmap_clear}
use projeto_so.Memory.Client.{
  Users, Step, take, refuse, give, Reach, here, next, count, count-middle,
}
use projeto_so.Memory.Initialize.{Ram, MultibootInfo, MemoryMap, pmm_initialize}
use projeto_so.Memory.Initialize.Steps.{MapIs, ModulesSound}
use projeto_so.Memory.Initialize.Usable.{OnPages, Usable, pmm_initialize-Usable}

module _ (P : ℕ → Type 0) where
  -- The frames that are free, and those that are held, have the property.
  record IsGood (s : Users) : Type 0 where
    pub free : (c : ℕ) → c < frames → used s.pmm.pmm_bitmap c ≡ 0 → P c
    pub held : (a : ℕ) → count a s.held ≢ 0 → P (a / page_size)

  -- A page was marked as in use.
  marked-free :
      (bm bm' : Bitmap) (f : ℕ)
      → bm' ≡ bitmap_set bm f
      → ((c : ℕ) → c < frames → used bm c ≡ 0 → P c)
      → (c : ℕ) → c < frames
      → used bm' c ≡ 0
      → P c
  marked-free bm bm' f marked good c inside free =
      good c inside (ground (arith, used-bitmap_set bm f c, (rw marked at free)))

  -- The page of frame `f` is held too.
  held-one_more :
      (f address a : ℕ) (held : List ℕ)
      → address ≡ f * page_size
      → P f
      → (count a held ≢ 0 → P (a / page_size))
      → count a (address ∷ held) ≢ 0
      → P (a / page_size)
  held-one_more f address a held e good others kept = elim (Bool-cases (address == a)) [
    | inl same ↦ let frame : a / page_size ≡ f = ground (arith, same, e) in rw frame good
    | inr other ↦ others (rw other at kept)
  ]

  take-IsGood :
      {held : List ℕ} {p p' : Pmm} {address : ℕ}
      → Allocated p address p'
      → address ≢ 0
      → IsGood (record { held = held; pmm = p })
      → IsGood (record { held = address ∷ held; pmm = p' })
  take-IsGood (nothing taken e same) got g = absurd (got e)
  take-IsGood {held} {p} {p'} {address} (page f inside free before e marked) got g = record {
    free = marked-free p.pmm_bitmap p'.pmm_bitmap f marked g.free;
    held = λ a. held-one_more f address a held e (g.free f inside free) (g.held a);
  }

  refuse-IsGood :
      {held : List ℕ} {p p' : Pmm}
      → Allocated p 0 p'
      → IsGood (record { held = held; pmm = p })
      → IsGood (record { held = held; pmm = p' })
  refuse-IsGood (nothing taken e same) g = record {
    free = λ c inside free. g.free c inside (rw same at free);
    held = g.held;
  }
  refuse-IsGood {p = p} {p'} (page f inside free before e marked) g = record {
    free = marked-free p.pmm_bitmap p'.pmm_bitmap f marked g.free;
    held = g.held;
  }

  give-IsGood :
      {p p' : Pmm} (address : ℕ) (before after : List ℕ)
      → pmm_free_page address p ≡ some (tt, p')
      → IsGood (record { held = before ++ address ∷ after; pmm = p })
      → IsGood (record { held = before ++ after; pmm = p' })
  unfolding pmm_free_page
  give-IsGood {p} {p'} address before after r g = record {
    free = λ c inside free. elim (Bool-cases (address / page_size == c)) [
      | inl same ↦
          let frame : address / page_size ≡ c = ground (arith, same) in
          rw (frame) at (g.held address (ground (arith, count-middle address address before after)))
      | inr other ↦
          g.free c inside
            (ground (arith, other, free, used-bitmap_clear p.pmm_bitmap (address / page_size) c))
    ];
    held = λ a kept. g.held a (ground (arith, kept, count-middle a address before after));
  }

  Step-IsGood : {s t : Users} → Step s t → IsGood s → IsGood t
  Step-IsGood (take {p} r got) g = take-IsGood (pmm_alloc_page-Allocated p r) got g
  Step-IsGood (refuse {p} r) g = refuse-IsGood (pmm_alloc_page-Allocated p r) g
  Step-IsGood (give {p} address before after e r) g = give-IsGood address before after r (rw e at g)

  Reach-IsGood : {s t : Users} → Reach s t → IsGood s → IsGood t
  Reach-IsGood here g = g
  Reach-IsGood (next r st) g = Step-IsGood st (Reach-IsGood r g)

-- Let the kernel, the modules and the available regions start on page boundaries, these regions be
-- of whole pages below 4 GiB, the kernel end below the last page of 4 GiB, the structures be sound
-- and the words of the bitmap of 32 bits, and let the port take the messages. Then `pmm_initialize`
-- returns, and from there on every page that a user holds, whatever users that start with none take
-- and give back of what they hold in whatever order, is memory to use: not frame 0, wholly inside an
-- available region of the memory map, and without a byte of the kernel's image or of a module.
pub held_pages-Usable :
    {p : Pmm} (mbinfo : MultibootInfo) (ram : Ram) (kernel_start kernel_end : ℕ)
    (entries : List MemoryMap)
    → MapIs mbinfo ram entries
    → ModulesSound mbinfo ram
    → OnPages mbinfo ram kernel_start entries
    → sub_u32 kernel_end kernel_base < 2 ^ 32 - page_size
    → IsWords p.pmm_bitmap
    → 130 ≤ ready_count p.bus.inputs
    → Returns (pmm_initialize mbinfo ram kernel_start kernel_end) p (λ _ p'.
      (s : Users)
      → Reach (record { held = []; pmm = p' }) s
      → (a : ℕ) → count a s.held ≢ 0
      → Usable mbinfo ram
          (sub_u32 kernel_start kernel_base)
          (sub_u32 kernel_end kernel_base)
          entries
          (a / page_size))
held_pages-Usable mbinfo ram kernel_start kernel_end entries map mods aligned low words ready =
    Returns-mono
      (pmm_initialize-Usable mbinfo ram kernel_start kernel_end entries map mods aligned low words
        ready)
      (λ _ p' free s r a kept.
        (Reach-IsGood
            (Usable mbinfo ram (sub_u32 kernel_start kernel_base) (sub_u32 kernel_end kernel_base)
              entries)
            r
            (record {
              free = λ c inside e. (free c inside).0 e;
              held = λ b h. absurd (h refl);
            })).held
          a kept)
