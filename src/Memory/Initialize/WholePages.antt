-- ===== src/Memory/Initialize/WholePages.antt =====
-- Regions, modules and the kernel's image against whole pages.
use projeto_so.Base.{
  ℕ, zero, suc, ◌+◌, ◌*◌, ◌/◌, ◌%◌, ◌^◌, ◌≤◌, ◌<◌, ◌≡◌, ◌⊎◌, refl, inl, inr, arith, true, false,
  List, [], ◌∷◌, leb, Bool-cases,
}
use projeto_so.Memory.{page_size}
use projeto_so.Memory.Initialize.{Ram, dword, MemoryMap}
use projeto_so.Memory.Initialize.Ranges.{meets}
use projeto_so.Memory.Initialize.Regions.{frees, available, locks}

-- No byte of page `c` is one of `first`, …, `last`.
abbrev pub Apart : (first last c : ℕ) → Type 0
Apart first last c = (c * page_size + page_size ≤ first) ⊎ (last < c * page_size)

pub meets-Apart :
    (first last c : ℕ)
    → first % page_size ≡ 0
    → meets first (last + 1) c ≡ false
    → Apart first last c
meets-Apart first last c aligned e = elim (Bool-cases (leb (first / page_size) c)) [
  | inl from ↦ inr (ground (arith, e, from, aligned))
  | inr before ↦ inl (ground (arith, before, aligned))
]

pub Apart-meets :
    (first last c : ℕ)
    → first % page_size ≡ 0
    → Apart first last c
    → meets first (last + 1) c ≡ false
Apart-meets first last c aligned (inl before) = ground (arith, before, aligned)
Apart-meets first last c aligned (inr after) = ground (arith, after, aligned)

-- The whole page `c` lies in the region of an entry of type 1, an address having 64 bits.
abbrev pub Covers : MemoryMap → ℕ → Type 0
Covers e c =
    (e.kind ≡ 1)
    × (e.base_addr_high * 2 ^ 32 + e.base_addr_low ≤ c * page_size)
    × (c * page_size + page_size
        ≤ e.base_addr_high * 2 ^ 32 + e.base_addr_low + (e.length_high * 2 ^ 32 + e.length_low))

abbrev pub Covered : List MemoryMap → ℕ → Type 0
Covered [] c = ⊥
Covered (e ∷ entries) c = Covers e c ⊎ Covered entries c

-- A region below 4 GiB, of whole pages.
abbrev pub InPages : MemoryMap → Type 0
InPages e =
    (e.base_addr_high ≡ 0)
    × (e.length_high ≡ 0)
    × (e.base_addr_low % page_size ≡ 0)
    × (e.length_low % page_size ≡ 0)

abbrev pub AllInPages : List MemoryMap → Type 0
AllInPages [] = Unit
AllInPages (e ∷ entries) = InPages e × AllInPages entries

frees-Covers : (e : MemoryMap) (c : ℕ) → InPages e → frees e c ≡ true → Covers e c
frees-Covers e c (high, long, base, size) h = ground (arith, h)

Covers-frees : (e : MemoryMap) (c : ℕ) → InPages e → Covers e c → frees e c ≡ true
Covers-frees e c (high, long, base, size) (kind, low, room) = ground arith

pub available-Covered :
    (entries : List MemoryMap) (c : ℕ)
    → AllInPages entries
    → available entries c ≡ true
    → Covered entries c
available-Covered [] c fit h = cc
available-Covered (e ∷ entries) c (fit, others) h = elim (Bool-cases (frees e c)) [
  | inl this ↦ inl (frees-Covers e c fit this)
  | inr other ↦ inr (available-Covered entries c others (rw other at h))
]

pub Covered-available :
    (entries : List MemoryMap) (c : ℕ)
    → AllInPages entries
    → Covered entries c
    → available entries c ≡ true
Covered-available [] c fit h = absurd h
Covered-available (e ∷ entries) c (fit, others) (inl this) = rw (Covers-frees e c fit this) refl
Covered-available (e ∷ entries) c (fit, others) (inr other) = elim (Bool-cases (frees e c)) [
  | inl this ↦ rw this refl
  | inr not_this ↦ rw not_this (Covered-available entries c others other)
]

-- The modules `mod_idx` on: they start on page boundaries, and page `c` is none of theirs.
abbrev pub StartOnPages : (left mod_idx : ℕ) → Ram → (mods : ℕ) → Type 0
StartOnPages zero mod_idx ram mods = Unit
StartOnPages (suc n) mod_idx ram mods =
    (dword ram (mods + 16 * mod_idx) % page_size ≡ 0) × StartOnPages n (mod_idx + 1) ram mods

abbrev pub ModulesApart : (left mod_idx : ℕ) → Ram → (mods c : ℕ) → Type 0
ModulesApart zero mod_idx ram mods c = Unit
ModulesApart (suc n) mod_idx ram mods c =
    Apart (dword ram (mods + 16 * mod_idx)) (dword ram (mods + 16 * mod_idx + 4)) c
    × ModulesApart n (mod_idx + 1) ram mods c

pub locks-ModulesApart :
    (n mod_idx : ℕ) (ram : Ram) (mods c : ℕ)
    → StartOnPages n mod_idx ram mods
    → locks n mod_idx ram mods c ≡ false
    → ModulesApart n mod_idx ram mods c
locks-ModulesApart zero mod_idx ram mods c aligned h = tt
locks-ModulesApart (suc n) mod_idx ram mods c (aligned, others) h = (
  meets-Apart _ _ c aligned (ground (arith, h)),
  locks-ModulesApart n (mod_idx + 1) ram mods c others (ground (arith, h)),
)

pub ModulesApart-locks :
    (n mod_idx : ℕ) (ram : Ram) (mods c : ℕ)
    → StartOnPages n mod_idx ram mods
    → ModulesApart n mod_idx ram mods c
    → locks n mod_idx ram mods c ≡ false
ModulesApart-locks zero mod_idx ram mods c aligned h = refl
ModulesApart-locks (suc n) mod_idx ram mods c (aligned, others) (this, rest) =
    rw (Apart-meets _ _ c aligned this) (ModulesApart-locks n (mod_idx + 1) ram mods c others rest)
