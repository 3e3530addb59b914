-- ===== src/Kmain/InProgram.antt =====
-- The kernel with the test program of src/program.s as its module.
use projeto_so.Base.{
  ℕ, suc, ◌+◌, ◌-◌, ◌%◌, ◌^◌, ◌≤◌, ◌<◌, refl, false, none, some, bit_and, List, ◌≡◌, ◌≢◌, ◌∙◌,
  sub_u32,
}
use projeto_so.Io.{◌>>◌, ◌>>=◌}
use projeto_so.Serial.Ready.{ready_count}
use projeto_so.Memory.{page_size, kernel_base}
use projeto_so.Memory.Frames.{IsWords}
use projeto_so.Memory.Initialize.{Ram, MemoryMap, multiboot_flag_mods}
use projeto_so.Memory.Initialize.Steps.{MapIs, ModulesSound}
use projeto_so.Pic.Chips.{Chip}
use projeto_so.Program.{assembled, test_program, LoadedAt, goes_on, steps, call_program}
use projeto_so.Program.Endless.{at_jump, steps-at_jump, call_program-test_program}
use projeto_so.Kmain.{
  Machine, Image, bus_of, multiboot_info_at, program_address, start_kernel, before_program,
  start_chat, poll, kmain,
}
use projeto_so.Kmain.Booted.{Booted}
use projeto_so.Kmain.Boot.{marks, kmain_jumps}

module _ (ebx : ℕ) (ram : Ram) (image : Image) (entries : List MemoryMap) (c₁ c₂ : Chip)
    (m : Machine) (map : MapIs (multiboot_info_at ram ebx) ram entries)
    (mods : ModulesSound (multiboot_info_at ram ebx) ram)
    (low : sub_u32 image.kernel_end kernel_base
      < 2 ^ 32 - page_size + sub_u32 image.kernel_start kernel_base % page_size)
    (fits : (k : ℕ) → image.handlers k < 2 ^ 32) (words : IsWords m.pmm_bitmap) where
  -- As for any program, let the boot loader's structures be sound and list one module, let the
  -- addresses of the handlers and the words of the bitmap have 32 bits, let the kernel's last
  -- address be below the last page of 4 GiB, and let the serial port get ready 608 times. And let
  -- the bytes of the test program stand where `kmain` calls the module. Then `kmain` calls it with
  -- interrupts off and all set up; from its first instruction on `eax` is 0xDEADBEEF and the
  -- program at its jump, after any number of instructions; and `kmain` does not get past the call.
  pub kmain_stays_in_program :
      bit_and (multiboot_info_at ram ebx).flags multiboot_flag_mods ≢ 0
      → (multiboot_info_at ram ebx).mods_count ≡ 1
      → 608 ≤ ready_count (bus_of m).inputs
      → LoadedAt ram (program_address (multiboot_info_at ram ebx) ram) (assembled test_program)
      → let address = program_address (multiboot_info_at ram ebx) ram in
        (m' : Machine) × ((start_kernel (multiboot_info_at ram ebx) ram image >> before_program) m
          ≡ some (tt, m'))
        × Booted image (marks ebx ram image entries) c₁ c₂ false m'
        × ((eax limit : ℕ) (stack buf : List ℕ) (rounds kbd_rounds : ℕ)
              (arrivals : List (List (List ℕ)))
            → let run =
                kmain ebx ram image
                  (call_program ram eax limit)
                  stack
                  buf
                  rounds
                  kbd_rounds
                  arrivals
                  m in
              (run
                ≡ (call_program ram eax limit address
                      >> start_chat
                      >> poll stack buf rounds kbd_rounds arrivals)
                    m')
              × (run ≡ none))
        × ((eax n : ℕ)
            → steps (suc n) ram (record { eax = eax; eip = address }) ≡ goes_on (at_jump address))
  kmain_stays_in_program listed one ready loaded =
      let (m', reached, jumps, booted) =
        kmain_jumps ebx ram image entries c₁ c₂ m map mods low fits words listed one ready in
      let address = program_address (multiboot_info_at ram ebx) ram in
      (
        m',
        reached,
        booted,
        λ eax limit stack buf rounds kbd_rounds arrivals.
            let called = jumps (call_program ram eax limit) stack buf rounds kbd_rounds arrivals in
            (
              called,
              called
                  ∙ rw (◌>>◌, ◌>>=◌, call_program-test_program ram address loaded eax limit m')
                      refl,
            ),
        steps-at_jump ram address loaded,
      )
