-- ===== src/Program/Endless.antt =====
-- The test program: what it leaves in `eax`, and that it does not come back.
use projeto_so.Base.{ℕ, zero, suc, ◌+◌, ◌<◌, ◌≡◌, refl, ap, ◌∙◌, arith, u32, u8, none, get_or}
use projeto_so.Memory.Initialize.{Ram}
use projeto_so.Program.{
  assembled, test_program, byte, LoadedAt, Context, goes_on, step, steps, call_program,
}

-- The jump of the program, with the value in `eax`.
abbrev pub at_jump : ℕ → Context
at_jump address = record { eax = 0xDEAD_BEEF; eip = u32 (address + 5) }

module _ (ram : Ram) (address : ℕ) (loaded : LoadedAt ram address (assembled test_program)) where
  fetched :
      (a i : ℕ)
      → u32 a ≡ u32 (address + i)
      → i < 7
      → byte ram a ≡ get_or (assembled test_program) i 0
  fetched a i e h = ap (λ k. u8 (ram k)) e ∙ loaded i h

  step-mov : (eax : ℕ) → step ram (record { eax = eax; eip = address }) ≡ goes_on (at_jump address)
  unfolding step
  step-mov eax =
      rw
        (
          fetched address 0 (omega arith) (omega arith),
          fetched (address + 1) 1 (omega arith) (omega arith),
          fetched (address + 1 + 1) 2 (omega arith) (omega arith),
          fetched (address + 1 + 2) 3 (omega arith) (omega arith),
          fetched (address + 1 + 3) 4 (omega arith) (omega arith),
        )
        refl

  step-jump : step ram (at_jump address) ≡ goes_on (at_jump address)
  unfolding step
  step-jump =
      rw
        (
          fetched (u32 (address + 5)) 5 (omega arith) (omega arith),
          fetched (u32 (address + 5) + 1) 6 (omega arith) (omega arith),
        )
        (ap (λ eip. goes_on (record { eax = 0xDEAD_BEEF; eip = eip })) (omega arith))

  steps-jump : (n : ℕ) → steps n ram (at_jump address) ≡ goes_on (at_jump address)
  unfolding steps
  steps-jump zero = refl
  steps-jump (suc n) = rw (steps, step-jump) (steps-jump n)

  -- Where the assembled program stands in memory, it stays at its jump from its first instruction
  -- on, with 0xDEADBEEF in `eax`.
  pub steps-at_jump :
      (eax n : ℕ)
      → steps (suc n) ram (record { eax = eax; eip = address }) ≡ goes_on (at_jump address)
  unfolding steps
  steps-at_jump eax n = rw (steps, step-mov eax) (steps-jump n)

  steps-goes_on :
      (eax limit : ℕ)
      → (c : Context) × (steps limit ram (record { eax = eax; eip = address }) ≡ goes_on c)
  unfolding steps
  steps-goes_on eax zero = (record { eax = eax; eip = address }, refl)
  steps-goes_on eax (suc n) = (at_jump address, steps-at_jump eax n)

  -- The call does not return, for as long as it is followed.
  pub call_program-test_program :
      {S : Type 0} (eax limit : ℕ) (s : S) → call_program ram eax limit address s ≡ none
  unfolding call_program
  call_program-test_program eax limit s =
      let (c, e) = steps-goes_on eax limit in rw (call_program, e) refl
