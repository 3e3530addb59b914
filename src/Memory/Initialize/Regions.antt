-- ===== src/Memory/Initialize/Regions.antt =====
-- The walk over the memory map.
use projeto_so.Base.{
  ℕ, zero, suc, ◌+◌, ◌-◌, ◌*◌, ◌%◌, ◌^◌, ◌≤◌, ◌<◌, Bool, true, false, ◌&&◌, ◌||◌, List, [], ◌∷◌,
  some, ◌≡◌, refl, ◌∙◌, arith, ◌==◌, ltb, if◌then◌else◌, u32, Bool-cases, inl, inr,
}
use projeto_so.Memory.{page_size}
use projeto_so.Memory.Frames.{Bitmap, IsWords, used}
use projeto_so.Memory.Initialize.{
  Ram, dword, MemoryMap, memory_map_at, visit_entry, walk_map, set_modules,
}
use projeto_so.Memory.Initialize.Ranges.{Done, done, meets, clear_frames-Done, set_frames-Done}

-- The region of an entry of type 1 ends below 4 GiB, and its last page is not the last of these.
abbrev pub Fits : MemoryMap → Type 0
Fits e =
    e.kind ≡ 1 → e.base_addr_low + e.length_low ≤ 2 ^ 32 - page_size + e.base_addr_low % page_size

-- The entries that the walk from an address up to `limit` meets.
pub data IsMap (ram : Ram) (limit : ℕ) : ℕ → List MemoryMap → Type 0 where
  last : {a : ℕ} → limit ≤ a → IsMap ram limit a []
  more :
      {a : ℕ} {entries : List MemoryMap}
      → a < limit
      → a + dword ram a + 4 < 2 ^ 32
      → Fits (memory_map_at ram a)
      → IsMap ram limit (a + dword ram a + 4) entries
      → IsMap ram limit a (memory_map_at ram a ∷ entries)

ltb-false : (a limit : ℕ) → limit ≤ a → ltb a limit ≡ false
ltb-false a limit h = ground arith

ltb-true : (a limit : ℕ) → a < limit → ltb a limit ≡ true
ltb-true a limit h = ground arith

-- The entry makes frame `c` available.
abbrev pub frees : MemoryMap → ℕ → Bool
frees e c = e.kind == 1 && meets e.base_addr_low (e.base_addr_low + e.length_low) c

abbrev pub available : List MemoryMap → ℕ → Bool
available [] c = false
available (e ∷ entries) c = frees e c || available entries c

visit_entry-Done :
    (e : MemoryMap) (bm : Bitmap)
    → Fits e
    → IsWords bm
    → Done (visit_entry e bm) (λ bm'. (c : ℕ) → used bm' c ≡ (if frees e c then 0 else used bm c))
unfolding visit_entry
visit_entry-Done e bm fits w = elim (Bool-cases (e.kind == 1)) [
  | inr other ↦ done bm (rw other refl) w (λ c. ground arith)
  | inl ram ↦
      let ends : e.base_addr_low + e.length_low ≤ 2 ^ 32 - page_size + e.base_addr_low % page_size =
        fits (ground arith) in
      let whole : u32 (e.base_addr_low + e.length_low) ≡ e.base_addr_low + e.length_low =
        omega arith in
      elim (clear_frames-Done e.base_addr_low (e.base_addr_low + e.length_low) bm ends w) [
        | done bm' r w' all ↦ done bm' (rw (ram, whole) r) w' (λ c. ground (arith, all c))
      ]
]

walk_map_end :
    (n : ℕ) (ram : Ram) (a limit : ℕ) (bm : Bitmap)
    → limit ≤ a
    → walk_map (suc n) ram a limit bm ≡ some bm
unfolding walk_map
walk_map_end n ram a limit bm past = rw (ltb-false a limit past) refl

walk_map_next :
    (n : ℕ) (ram : Ram) (a limit : ℕ) (bm b : Bitmap)
    → a < limit
    → a + dword ram a + 4 < 2 ^ 32
    → visit_entry (memory_map_at ram a) bm ≡ some b
    → walk_map (suc n) ram a limit bm ≡ walk_map n ram (a + dword ram a + 4) limit b
unfolding walk_map
walk_map_next n ram a limit bm b before whole r =
    let stays : u32 (a + dword ram a + 4) ≡ a + dword ram a + 4 = omega arith in
    rw (ltb-true a limit before, r, stays) refl

-- The walk over a sound memory map ends; it has then freed the frames that some entry of type 1
-- makes available and no other.
pub walk_map-Done :
    (ram : Ram) (limit n : ℕ) (bm : Bitmap) {a : ℕ} {entries : List MemoryMap}
    → IsMap ram limit a entries
    → limit ≤ a + 4 * n
    → IsWords bm
    → Done
        (walk_map (suc n) ram a limit bm)
        (λ bm'. (c : ℕ) → used bm' c ≡ (if available entries c then 0 else used bm c))
walk_map-Done ram limit n bm {a} (last past) far w =
    done bm (walk_map_end n ram a limit bm past) w (λ c. refl)
walk_map-Done ram limit zero bm (more before whole fits rest) far w = absurd (omega arith)
walk_map-Done ram limit (suc n) bm {a} (more {entries} before whole fits rest) far w =
    elim (visit_entry-Done (memory_map_at ram a) bm fits w) [
      | done b r v freed ↦ elim (walk_map-Done ram limit n b rest (omega arith) v) [
        | done bm' r' v' all ↦
            done bm' (walk_map_next (suc n) ram a limit bm b before whole r ∙ r') v'
              (λ c. ground (arith, all c, freed c))
      ]
    ]

-- The modules `mod_idx` on, as a description: frames that their loops meet, and that their loops end.
abbrev pub locks : (left mod_idx : ℕ) → Ram → (mods : ℕ) → ℕ → Bool
locks zero mod_idx ram mods c = false
locks (suc n) mod_idx ram mods c =
    meets (dword ram (mods + 16 * mod_idx)) (dword ram (mods + 16 * mod_idx + 4) + 1) c
    || locks n (mod_idx + 1) ram mods c

abbrev pub ModulesFit : (left mod_idx : ℕ) → Ram → (mods : ℕ) → Type 0
ModulesFit zero mod_idx ram mods = Unit
ModulesFit (suc n) mod_idx ram mods =
    (dword ram (mods + 16 * mod_idx + 4)
      < 2 ^ 32 - page_size + dword ram (mods + 16 * mod_idx) % page_size)
    × ModulesFit n (mod_idx + 1) ram mods

pub set_modules-Done :
    (n mod_idx : ℕ) (ram : Ram) (mods : ℕ) (bm : Bitmap)
    → ModulesFit n mod_idx ram mods
    → IsWords bm
    → Done
        (set_modules n mod_idx ram mods bm)
        (λ bm'. (c : ℕ) → used bm' c ≡ (if locks n mod_idx ram mods c then 1 else used bm c))
unfolding set_modules
set_modules-Done zero mod_idx ram mods bm fits w = done bm refl w (λ c. refl)
set_modules-Done (suc n) mod_idx ram mods bm fits w =
    elim (set_frames-Done (dword ram (mods + 16 * mod_idx)) (dword ram (mods + 16 * mod_idx + 4)) bm
      fits.0 w) [
        | done b r v locked ↦ elim (set_modules-Done n (mod_idx + 1) ram mods b fits.1 v) [
          | done bm' r' v' all ↦
              done bm' (rw (r, set_modules) r') v' (λ c. ground (arith, all c, locked c))
        ]
      ]
