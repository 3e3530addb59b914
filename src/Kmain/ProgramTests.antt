-- ===== src/Kmain/ProgramTests.antt =====
-- The kernel with the test program in memory at the module's start.
use projeto_so.Base.{
  ℕ, zero, suc, ◌≡◌, refl, arith, List, [], ◌∷◌, ◌==◌, if◌then◌else◌, false, none, some,
}
use projeto_so.Io.{◌>>◌}
use projeto_so.Serial.Ready.{ready_count-replicate}
use projeto_so.Memory.Initialize.{Ram, MemoryMap, memory_map_at}
use projeto_so.Memory.Initialize.Regions.{last, more}
use projeto_so.Memory.Initialize.Steps.{MapIs}
use projeto_so.Program.{assembled, test_program, LoadedAt, goes_on, steps, call_program}
use projeto_so.Program.Endless.{at_jump}
use projeto_so.Kmain.{
  Machine, multiboot_info_at, start_kernel, before_program, start_chat, poll, kmain,
}
use projeto_so.Kmain.Booted.{Booted}
use projeto_so.Kmain.Boot.{marks}
use projeto_so.Kmain.InProgram.{kmain_stays_in_program}
use projeto_so.Kmain.Tests.{at_reset, image, chip, ram}

-- The module starts at 2 MiB.
abbrev with_program : Ram
with_program a =
    if a == 0xC020_0000
    then 0xADBE_EFB8
    else if a == 0xC020_0001
    then 0xDEAD_BEEF
    else if a == 0xC020_0002
    then 0xEBDE_ADBE
    else if a == 0xC020_0003
    then 0xFEEB_DEAD
    else if a == 0xC020_0004
    then 0xFE_EBDE
    else if a == 0xC020_0005
    then 0xFEEB
    else if a == 0xC020_0006
    then 0xFE
    else ram 1 a

abbrev entries : List MemoryMap
entries = memory_map_at with_program 0xC000_9000 ∷ []

one_region : MapIs (multiboot_info_at with_program 0xC001_0000) with_program entries
one_region = more (omega arith) (omega arith) (λ h. omega arith) (last (omega arith))

loaded : LoadedAt with_program 0xC020_0000 (assembled test_program)
loaded zero h = refl
loaded (suc zero) h = refl
loaded (suc (suc zero)) h = refl
loaded (suc (suc (suc zero))) h = refl
loaded (suc (suc (suc (suc zero)))) h = refl
loaded (suc (suc (suc (suc (suc zero))))) h = refl
loaded (suc (suc (suc (suc (suc (suc zero)))))) h = refl
loaded (suc (suc (suc (suc (suc (suc (suc i))))))) h = absurd (omega (arith, h))

kmain_stays_in_program_example :
    (m' : Machine) × ((start_kernel (multiboot_info_at with_program 0xC001_0000) with_program image
          >> before_program)
        at_reset
      ≡ some (tt, m'))
    × Booted image (marks 0xC001_0000 with_program image entries) chip chip false m'
    × ((eax limit : ℕ) (stack buf : List ℕ) (rounds kbd_rounds : ℕ)
          (arrivals : List (List (List ℕ)))
        → let run =
            kmain 0xC001_0000 with_program image
              (call_program with_program eax limit)
              stack
              buf
              rounds
              kbd_rounds
              arrivals
              at_reset in
          (run
            ≡ (call_program with_program eax limit 0xC020_0000
                  >> start_chat
                  >> poll stack buf rounds kbd_rounds arrivals)
                m')
          × (run ≡ none))
    × ((eax n : ℕ)
        → steps (suc n) with_program (record { eax = eax; eip = 0xC020_0000 })
          ≡ goes_on (at_jump 0xC020_0000))
kmain_stays_in_program_example =
    kmain_stays_in_program 0xC001_0000 with_program image entries chip chip at_reset one_region
      (omega arith, tt) (omega arith) (λ k. ground arith) (λ i. omega arith) (omega arith) refl
      (omega (arith, ready_count-replicate 900)) loaded
