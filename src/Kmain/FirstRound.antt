-- ===== src/Kmain/FirstRound.antt =====
-- From the start of the kernel through the first round of `chat_poll`.
use projeto_so.Base.{
  ℕ, ◌+◌, ◌-◌, ◌%◌, ◌^◌, ◌<◌, ◌≤◌, ◌≡◌, ◌≢◌, ◌⊎◌, refl, arith, some, true, bit_and, List, [], ◌∷◌,
  length, sub_u32,
}
use projeto_so.Io.{Run, zoom, ◌>>=◌}
use projeto_so.Io.Returns.{returns}
use projeto_so.Serial.Ready.{ready_count}
use projeto_so.Memory.{page_size, kernel_base}
use projeto_so.Memory.Frames.{IsWords}
use projeto_so.Memory.Initialize.{Ram, MemoryMap, multiboot_flag_mods}
use projeto_so.Memory.Initialize.Steps.{MapIs, ModulesSound}
use projeto_so.Deadlock.{data_size}
use projeto_so.Chat.{line_max}
use projeto_so.Chat.Init.{Ready}
use projeto_so.Chat.Session.{sends, leaves, NoFreeze, transfers, taken}
use projeto_so.Chat.Session.Round.{silent, silent-Tail, Polled, chat_poll-Polled}
use projeto_so.Pic.Chips.{Chip}
use projeto_so.Kmain.{Machine, Image, bus_of, multiboot_info_at, poll, kmain}
use projeto_so.Kmain.Booted.{Booted}
use projeto_so.Kmain.Boot.{marks, enter_chat-AtLoop}

module _ (ebx : ℕ) (ram : Ram) (image : Image) (entries : List MemoryMap) (c₁ c₂ : Chip)
    (m : Machine) (map : MapIs (multiboot_info_at ram ebx) ram entries)
    (mods : ModulesSound (multiboot_info_at ram ebx) ram)
    (low : sub_u32 image.kernel_end kernel_base
      < 2 ^ 32 - page_size + sub_u32 image.kernel_start kernel_base % page_size)
    (fits : (k : ℕ) → image.handlers k < 2 ^ 32) (words : IsWords m.pmm_bitmap)
    (kbd : length m.kernel.chat.kbd.line ≡ line_max + 1)
    (ser : length m.kernel.chat.ser.line ≡ line_max + 1)
    (vga : length m.kernel.world.files.file_vga.contents ≡ data_size)
    (serial : length m.kernel.world.files.file_serial.contents ≡ data_size) where
  -- Let the conditions hold under which `kmain` gets to its loop, and let the keyboard's interrupts
  -- bring bytes between the rounds of the first `chat_poll`, no line that they end being `/deadlock`;
  -- if one is `/transferir`, let the local array of the transfer have 64 bytes and its locks be
  -- followed for a round; let the array of the chat have 136 bytes, let the keyboard's loop be
  -- followed for a round more than there are bytes, let the serial port get ready 655 times and once
  -- for each byte to be sent, and let no byte come on the serial line. Then `kmain` sets the system
  -- up, the chat with its two files too, and gets through this round: in it, for each line just the transcript of the
  -- transfer was sent, nothing for `/help` or an empty line, or else `[vga] text` and a newline; the
  -- two files that the start set up were exchanged once for each transfer; the line holds what was
  -- typed since the last Enter; and the loop goes on from there.
  pub kmain_talks :
      (program : ℕ → Run Machine (Unit {0})) (stack buf : List ℕ) (rounds kbd_rounds : ℕ)
      (arrivals : List (List ℕ)) (later : List (List (List ℕ)))
      → (bit_and (multiboot_info_at ram ebx).flags multiboot_flag_mods ≡ 0)
        ⊎ ((multiboot_info_at ram ebx).mods_count ≢ 1)
      → NoFreeze (taken [] arrivals) []
      → (0 < transfers (taken [] arrivals) [] → (length stack ≡ data_size) × (0 < rounds))
      → line_max + 16 ≤ length buf
      → length (taken [] arrivals) < kbd_rounds
      → 655 + length (sends (taken [] arrivals) []) ≤ ready_count (bus_of m).inputs
      → silent (bus_of m).inputs ≡ true
      → (m₁ : Machine) × (m₂ : Machine) × (kmain ebx ram image program stack buf rounds kbd_rounds
            [] m
          ≡ some (tt, m₁))
        × (kmain ebx ram image program stack buf rounds kbd_rounds (arrivals ∷ []) m
            ≡ some (tt, m₂))
        × Booted image (marks ebx ram image entries) c₁ c₂ true m₁
        × Ready m₁.kernel
        × Polled
            (transfers (taken [] arrivals) [])
            (leaves (taken [] arrivals) [])
            (sends (taken [] arrivals) [])
            m₁.kernel
            m₂.kernel
        × (kmain ebx ram image program stack buf rounds kbd_rounds (arrivals ∷ later) m
            ≡ poll stack buf rounds kbd_rounds later m₂)
  unfolding kmain poll
  kmain_talks program stack buf rounds kbd_rounds arrivals later other fine can room fuel ready
        idle =
      elim (enter_chat-AtLoop ebx ram image entries c₁ c₂ m map mods low fits words kbd ser vga
        serial (1 + length (sends (taken [] arrivals) [])) program other (omega (arith, ready))) [
          | returns _ m₁ e₁ at ↦
              elim (chat_poll-Polled stack buf rounds room kbd_rounds arrivals m₁.kernel [] []
                at.chat.empty_ring at.chat.empty_kbd fine
                (λ some. record {
                  stack_size = (can some).0;
                  followed = (can some).1;
                  vga_file = at.chat.files.vga_file;
                  serial_file = at.chat.files.serial_file;
                })
                fuel (omega (arith, at.spare)) (silent-Tail at.left_over idle)) [
                  | returns _ k e₂ polled ↦ (
                    m₁,
                    record m₁ { kernel = k },
                    rw (e₁, ◌>>=◌) refl,
                    rw (e₁, e₂, ◌>>=◌, zoom) refl,
                    at.booted,
                    at.chat,
                    polled,
                    rw (e₁, e₂, ◌>>=◌, zoom) refl,
                  )
                ]
        ]
