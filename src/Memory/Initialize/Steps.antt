-- ===== src/Memory/Initialize/Steps.antt =====
-- The steps of `pmm_initialize`, each with what it does to the marks of the frames.
use projeto_so.Base.{
  ℕ, zero, suc, ◌+◌, ◌-◌, ◌/◌, ◌%◌, ◌^◌, ◌≤◌, ◌<◌, Bool, true, false, ◌&&◌, List, [], Option, some,
  ◌≡◌, refl, ◌∙◌, arith, ◌==◌, ltb, leb, if◌then◌else◌, u32, u32_max, update, bit_and, Bool-cases,
  inl, inr, length, until_nul, ap,
}
use projeto_so.Io.{Event, pure}
use projeto_so.Io.Traffic.{Busy, Busy-trans, Tail, Tail-trans}
use projeto_so.Io.Returns.{Returns, returns, Returns-mono, >>=-Returns, pure-Returns}
use projeto_so.Serial.{serial_print}
use projeto_so.Serial.Ready.{ready_count}
use projeto_so.Serial.Print.{serial_print_returns}
use projeto_so.Memory.{Pmm, page_size, kernel_base, log, log-Returns, on_bitmap}
use projeto_so.Memory.Search.{frames}
use projeto_so.Memory.Frames.{
  Bitmap, IsWords, pmm_bitmap_size, used, used_of_ones, bitmap_set, used-bitmap_set,
  bitmap_set-IsWords,
}
use projeto_so.Memory.Initialize.{
  Ram, MultibootInfo, MemoryMap, multiboot_flag_memmap, multiboot_flag_mods, map_rounds, walk_map,
  fill_words, set_modules, set_frames, clear_available, lock_modules, map_found, no_map,
}
use projeto_so.Memory.Initialize.Ranges.{Done, done, meets, set_frames-Done}
use projeto_so.Memory.Initialize.Regions.{
  IsMap, available, walk_map-Done, locks, ModulesFit, set_modules-Done,
}

-- Frame `c` of the 2 ^ 20 has the mark `u c`, and the port will take `left` more bytes. Since the
-- trace was `t` there was only traffic with the serial line.
pub record Marked (vs : List ℕ) (t : List Event) (u : ℕ → ℕ) (left : ℕ) (p : Pmm) : Type 0 where
  pub words : IsWords p.pmm_bitmap
  pub marks : (c : ℕ) → c < frames → used p.pmm_bitmap c ≡ u c
  pub spare : left ≤ ready_count p.bus.inputs
  pub busy : Busy t p.bus.trace
  pub left_over : Tail vs p.bus.inputs

on_bitmap-Marked :
    {vs : List ℕ} {t : List Event} {u v : ℕ → ℕ} {left : ℕ} {p : Pmm} (f : Bitmap → Option Bitmap)
    → Done (f p.pmm_bitmap) (λ bm. (c : ℕ) → c < frames → used bm c ≡ v c)
    → Marked vs t u left p
    → Returns (on_bitmap f) p (λ _ p'. Marked vs t v left p')
on_bitmap-Marked {p} f (done bm e w marks) m =
    returns tt (record p { pmm_bitmap = bm }) (rw (e, on_bitmap) refl)
      (record { words = w; marks = marks; spare = m.spare; busy = m.busy; left_over = m.left_over })

pub log-Marked :
    {vs : List ℕ} {t : List Event} {u : ℕ → ℕ} {p : Pmm} (left : ℕ) (text : List ℕ)
    → Marked vs t u (length text + left) p
    → length (until_nul text) ≡ length text
    → Returns (log (serial_print text)) p (λ _ p'. Marked vs t u left p')
log-Marked {u} {p} left text m whole =
    Returns-mono
      (log-Returns (serial_print text) p
        (serial_print_returns text p.bus (omega (arith, m.spare, whole))))
      (λ _ p' h. record {
        words = rw (h.0) m.words;
        marks = rw (h.0) m.marks;
        spare = omega (arith, h.1.used, m.spare, whole);
        busy = Busy-trans m.busy (h.1.busy);
        left_over = Tail-trans m.left_over (h.1.left_over);
      })

fill_words_lem :
    (n i : ℕ) (bm : Bitmap) (k : ℕ)
    → fill_words n i bm k ≡ (if leb i k && ltb k (i + n) then u32_max else bm k)
unfolding fill_words
fill_words_lem zero i bm k = ground arith
fill_words_lem (suc n) i bm k = ground (arith, fill_words_lem n (i + 1) (update bm i u32_max) k)

ltb_zero_suc : (n : ℕ) → ltb 0 (suc n) ≡ true
ltb_zero_suc n = ground arith

pub fill-Marked :
    {vs : List ℕ} {t : List Event} {u : ℕ → ℕ} {left : ℕ} {p : Pmm}
    → Marked vs t u left p
    → Returns
        (on_bitmap (λ bm. some (fill_words pmm_bitmap_size 0 bm)))
        p
        (λ _ p'. Marked vs t (λ c. 1) left p')
fill-Marked {p} m =
    on_bitmap-Marked (λ bm. some (fill_words pmm_bitmap_size 0 bm))
      (done (fill_words pmm_bitmap_size 0 bm₀) refl
        (λ k. ground (arith, fill_words_lem pmm_bitmap_size 0 bm₀ k, m.words k))
        (λ c h.
          used_of_ones (fill_words pmm_bitmap_size 0 bm₀) c
            (ground (arith, fill_words_lem pmm_bitmap_size 0 bm₀ (c / 32)))))
      m
  where
    bm₀ : Bitmap
    bm₀ = p.pmm_bitmap

-- What the boot loader hands over is sound: with a memory map, `entries` are its entries, and
-- the loops over its regions and over the modules end.
abbrev pub MapIs : MultibootInfo → Ram → List MemoryMap → Type 0
MapIs mbinfo ram entries =
    let mmap_addr = u32 (mbinfo.mmap_addr + kernel_base) in
    if bit_and mbinfo.flags multiboot_flag_memmap == 0
    then entries ≡ []
    else IsMap ram (u32 (mmap_addr + mbinfo.mmap_length)) mmap_addr entries

abbrev pub ModulesSound : MultibootInfo → Ram → Type 0
ModulesSound mbinfo ram =
    if bit_and mbinfo.flags multiboot_flag_mods == 0
    then Unit
    else ModulesFit mbinfo.mods_count 0 ram (u32 (mbinfo.mods_addr + kernel_base))

-- Frame `c` is met by the loop over a module.
abbrev pub locked : MultibootInfo → Ram → ℕ → Bool
locked mbinfo ram c =
    if bit_and mbinfo.flags multiboot_flag_mods == 0
    then false
    else locks mbinfo.mods_count 0 ram (u32 (mbinfo.mods_addr + kernel_base)) c

Marked-mono :
    {vs : List ℕ} {t : List Event} {u v : ℕ → ℕ} {left left' : ℕ} {p : Pmm}
    → ((c : ℕ) → c < frames → u c ≡ v c)
    → left' ≤ left
    → Marked vs t u left p
    → Marked vs t v left' p
Marked-mono same fewer m = record {
  words = m.words;
  marks = λ c h. m.marks c h ∙ same c h;
  spare = omega (arith, m.spare);
  busy = m.busy;
  left_over = m.left_over;
}

walk-Marked :
    {vs : List ℕ} {t : List Event} {p : Pmm} {left a : ℕ} (ram : Ram) (limit : ℕ)
    {entries : List MemoryMap}
    → IsMap ram limit a entries
    → limit < 2 ^ 32
    → Marked vs t (λ c. 1) left p
    → Returns
        (on_bitmap (walk_map map_rounds ram a limit))
        p
        (λ _ p'. Marked vs t (λ c. if available entries c then 0 else 1) left p')
walk-Marked {p} {a = a} ram limit {entries} map small m =
    elim (walk_map-Done ram limit (2 ^ 30) p.pmm_bitmap map (omega arith) m.words) [
      | done bm e w all ↦
          on_bitmap-Marked (walk_map map_rounds ram a limit)
            (done bm e w
              (λ c h. all c ∙ ap (λ k. if available entries c then 0 else k) (m.marks c h)))
            m
    ]

pub clear_available-Marked :
    {vs : List ℕ} {t : List Event} {p : Pmm} (left : ℕ) (mbinfo : MultibootInfo) (ram : Ram)
    (entries : List MemoryMap)
    → MapIs mbinfo ram entries
    → Marked vs t (λ c. 1) (130 + left) p
    → Returns
        (clear_available mbinfo ram)
        p
        (λ _ p'. Marked vs t (λ c. if available entries c then 0 else 1) (56 + left) p')
unfolding clear_available
clear_available-Marked left mbinfo ram entries map m =
    elim (Bool-cases (bit_and mbinfo.flags multiboot_flag_memmap == 0)) [
      | inl absent ↦
          let none_listed : entries ≡ [] = rw absent at map in
          rw (absent, none_listed)
            (log-Marked (56 + left) no_map (Marked-mono (λ c h. refl) (omega arith) m) refl)
      | inr present ↦ rw present (
          >>=-Returns (λ _. on_bitmap (walk_map map_rounds ram _ _))
            (log-Marked (56 + left) map_found (Marked-mono (λ c h. refl) (omega arith) m) refl)
            (λ _ p' m'. walk-Marked ram _ (rw present at map) (omega arith) m'))
    ]

modules-Marked :
    {vs : List ℕ} {t : List Event} {p : Pmm} {u : ℕ → ℕ} {left : ℕ} (n : ℕ) (ram : Ram) (mods : ℕ)
    → ModulesFit n 0 ram mods
    → Marked vs t u left p
    → Returns
        (if ltb 0 n then on_bitmap (set_modules n 0 ram mods) else pure tt)
        p
        (λ _ p'. Marked vs t (λ c. if locks n 0 ram mods c then 1 else u c) left p')
modules-Marked zero ram mods fits m = pure-Returns m
modules-Marked {p} (suc n) ram mods fits m =
    rw (ltb_zero_suc n) (elim (set_modules-Done (suc n) 0 ram mods p.pmm_bitmap fits m.words) [
      | done bm e w all ↦
          on_bitmap-Marked (set_modules (suc n) 0 ram mods)
            (done bm e w
              (λ c h. all c ∙ ap (λ k. if locks (suc n) 0 ram mods c then 1 else k) (m.marks c h)))
            m
    ])

pub lock_modules-Marked :
    {vs : List ℕ} {t : List Event} {p : Pmm} {u : ℕ → ℕ} {left : ℕ} (mbinfo : MultibootInfo)
    (ram : Ram)
    → ModulesSound mbinfo ram
    → Marked vs t u left p
    → Returns
        (lock_modules mbinfo ram)
        p
        (λ _ p'. Marked vs t (λ c. if locked mbinfo ram c then 1 else u c) left p')
unfolding lock_modules
lock_modules-Marked mbinfo ram sound m =
    elim (Bool-cases (bit_and mbinfo.flags multiboot_flag_mods == 0)) [
      | inl absent ↦ rw absent (pure-Returns m)
      | inr present ↦ rw present (
          modules-Marked mbinfo.mods_count ram (u32 (mbinfo.mods_addr + kernel_base))
            (rw present at sound) m)
    ]

pub kernel-Marked :
    {vs : List ℕ} {t : List Event} {p : Pmm} {u : ℕ → ℕ} {left : ℕ} (first last : ℕ)
    → last < 2 ^ 32 - page_size + first % page_size
    → Marked vs t u left p
    → Returns
        (on_bitmap (set_frames first last))
        p
        (λ _ p'. Marked vs t (λ c. if meets first (last + 1) c then 1 else u c) left p')
kernel-Marked {p} first last low m = elim (set_frames-Done first last p.pmm_bitmap low m.words) [
  | done bm e w all ↦
      on_bitmap-Marked (set_frames first last)
        (done bm e w
          (λ c h. all c ∙ ap (λ k. if meets first (last + 1) c then 1 else k) (m.marks c h)))
        m
]

pub zero-Marked :
    {vs : List ℕ} {t : List Event} {p : Pmm} {u : ℕ → ℕ} {left : ℕ}
    → Marked vs t u left p
    → Returns
        (on_bitmap (λ bm. some (bitmap_set bm 0)))
        p
        (λ _ p'. Marked vs t (λ c. if 0 == c then 1 else u c) left p')
zero-Marked {p} m =
    on_bitmap-Marked (λ bm. some (bitmap_set bm 0))
      (done (bitmap_set p.pmm_bitmap 0) refl (bitmap_set-IsWords p.pmm_bitmap 0 m.words)
        (λ c h. used-bitmap_set p.pmm_bitmap 0 c ∙ ap (λ k. if 0 == c then 1 else k) (m.marks c h)))
      m
