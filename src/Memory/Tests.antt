-- ===== src/Memory/Tests.antt =====
-- The theorems of the allocator at inputs that meet their conditions.
use projeto_so.Base.{
  ℕ, zero, suc, ◌*◌, ◌≤◌, ◌/◌, ◌%◌, ◌≡◌, ◌≢◌, refl, [], ◌∷◌, ◌++◌, some, ◌==◌, if◌then◌else◌, arith,
  update, u32_max, replicate,
}
use projeto_so.Io.Returns.{Returns}
use projeto_so.Io.Traffic.{sent_on}
use projeto_so.Serial.{uart_data}
use projeto_so.Memory.{Pmm, page_size, pmm_alloc_page, pmm_free_page, out_of_memory}
use projeto_so.Memory.Frames.{Bitmap, used, used_of_ones, IsWords}
use projeto_so.Memory.Search.{AllUsed}
use projeto_so.Memory.Alloc.{pmm_alloc_page_first, pmm_alloc_page_full}
use projeto_so.Memory.Client.{
  Users, here, next, take, count, pmm_free_page-pmm_alloc_page, no_page_held_twice,
}

-- Frames 0 to 2 are in use.
abbrev three_used : Pmm
three_used = record { pmm_bitmap = update (λ i. 0) 0 7; bus = record { inputs = []; trace = [] } }

three_used-AllUsed : AllUsed three_used.pmm_bitmap 0 3
unfolding used
three_used-AllUsed zero lo hi = refl
three_used-AllUsed (suc zero) lo hi = refl
three_used-AllUsed (suc (suc zero)) lo hi = refl
three_used-AllUsed (suc (suc (suc g))) lo hi = absurd (omega arith)

third_free : used three_used.pmm_bitmap 3 ≡ 0
unfolding used
third_free = refl

third_taken :
    (bm : Bitmap) × (pmm_alloc_page three_used
      ≡ some (3 * page_size, record three_used { pmm_bitmap = bm }))
    × ((c : ℕ) → used bm c ≡ (if 3 == c then 1 else used three_used.pmm_bitmap c))
third_taken = pmm_alloc_page_first three_used 3 (omega arith) third_free three_used-AllUsed

pmm_alloc_page_first_example :
    (bm : Bitmap) × (pmm_alloc_page three_used
      ≡ some (3 * page_size, record three_used { pmm_bitmap = bm }))
    × ((c : ℕ) → used bm c ≡ (if 3 == c then 1 else used three_used.pmm_bitmap c))
pmm_alloc_page_first_example =
    pmm_alloc_page_first three_used 3 (omega arith) third_free three_used-AllUsed

-- Every frame is in use, and the port takes the message.
abbrev all_used : Pmm
all_used = record {
  pmm_bitmap = λ i. u32_max;
  bus = record { inputs = replicate 36 0x20; trace = [] };
}

pmm_alloc_page_full_example : Returns pmm_alloc_page all_used (λ address p'.
    (address ≡ 0)
    × (p'.pmm_bitmap ≡ all_used.pmm_bitmap)
    × (sent_on uart_data p'.bus.trace ≡ [] ++ out_of_memory))
pmm_alloc_page_full_example =
    pmm_alloc_page_full all_used (λ g lo hi. used_of_ones all_used.pmm_bitmap g refl) (omega arith)

three_used-IsWords : IsWords three_used.pmm_bitmap
three_used-IsWords i = ground arith

pmm_free_page-pmm_alloc_page_example :
    (q : Pmm) × (pmm_free_page 12288 (record three_used { pmm_bitmap = third_taken.0 })
      ≡ some (tt, q))
    × (q.pmm_bitmap ≡ three_used.pmm_bitmap)
pmm_free_page-pmm_alloc_page_example =
    pmm_free_page-pmm_alloc_page three_used (record three_used { pmm_bitmap = third_taken.0 }) 12288
      three_used-IsWords third_taken.1 (omega arith)

-- A user takes page 3.
abbrev one_held : Users
one_held = record { held = 12288 ∷ []; pmm = record three_used { pmm_bitmap = third_taken.0 } }

no_page_held_twice_example :
    (count 12288 one_held.held ≤ 1)
    × (count 12288 one_held.held ≢ 0
        → (12288 % page_size ≡ 0)
          × (◌≢◌ {A = ℕ} 12288 0)
          × (used one_held.pmm.pmm_bitmap (12288 / page_size) ≡ 1))
no_page_held_twice_example =
    no_page_held_twice {p = three_used} {s = one_held}
      (next here (take third_taken.1 (omega arith))) 12288
