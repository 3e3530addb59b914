-- ===== src/Chat/Tests.antt =====
-- The chat at a concrete state: nothing typed yet, the port always ready.
use projeto_so.Base.{
  ℕ, refl, arith, List, [], ◌∷◌, ◌++◌, inl, inr, replicate, codes, ap, get_or, bytes, ltb,
  if◌then◌else◌,
}
use projeto_so.Io.Returns.{Returns}
use projeto_so.Serial.Ready.{ready_count-replicate}
use projeto_so.Chat.{chat_submit, Kernel, chat_init, chat_kbd_enqueue}
use projeto_so.Chat.Poll.{kbd_process_char, chat_poll}
use projeto_so.Chat.SerialLine.{Echoed}
use projeto_so.Framebuffer.{console_black, console_light_green}
use projeto_so.Framebuffer.Cells.{blank}
use projeto_so.Framebuffer.Paper.{Paper, type_text, OnPaper, shows}
use projeto_so.Chat.BothScreens.{chat_submit-OnBoth}
use projeto_so.Chat.Queue.{
  Holds, Turn, bring, get, play, Played, chat_kbd_enqueue-Holds, play_in_order,
}
use projeto_so.Chat.Message.{Edited, kbd_process_char-edit}
use projeto_so.Chat.Submit.{Submitted, Command}
use projeto_so.Chat.Entered.{Entered, press, enter_sends_line}
use projeto_so.Deadlock.Safe.{safe_log}
use projeto_so.Chat.Outcome.{reply, transfers_of, not-Freezes, CanTransfer}
use projeto_so.Chat.Session.Round.{Polled, chat_poll-Polled}
use projeto_so.Chat.SerialSession.{handle_bytes, handle_bytes-Echoed}
use projeto_so.Chat.Init.{Ready, chat_init-Ready}

abbrev pub zeros : ℕ → List ℕ
zeros n = replicate n 0

abbrev pub at_reset : Kernel
at_reset = record {
  world = record {
    screen = record {
      bus = record { inputs = replicate 300 0x20; trace = [] };
      console = record { video_memory = λ k. 0; current_position = 0 };
    };
    files = record {
      file_vga = record {
        lock = record { locked = 0; name = [] };
        contents = zeros 64;
        owner = [];
      };
      file_serial = record {
        lock = record { locked = 0; name = [] };
        contents = zeros 64;
        owner = [];
      };
    };
  };
  chat = record {
    ring = record { kbd_ring = λ k. 0; kbd_head = 7; kbd_tail = 9 };
    kbd = record { line = zeros 121; len = 5 };
    ser = record { line = zeros 121; len = 0 };
  };
}

abbrev booted : Kernel
booted = chat_init at_reset

ready : Ready booted
ready = chat_init-Ready at_reset refl refl refl refl

-- Two bytes come, one is taken, and one more comes.
abbrev turns : List Turn
turns = bring b'a' ∷ bring b'b' ∷ get ∷ bring b'c' ∷ []

play_in_order_example :
    Played (codes "abc") (play turns booted.chat.ring).0 (play turns booted.chat.ring).1
play_in_order_example = play_in_order turns booted.chat.ring [] ready.empty_ring (omega arith)

kbd_process_char-edit_example :
    Returns
      (kbd_process_char (zeros 64) (zeros 136) 1 b'x')
      booted
      (λ _ k'. Edited (b'x' ∷ []) booted k')
kbd_process_char-edit_example =
    kbd_process_char-edit (zeros 64) (zeros 136) 1 b'x' booted [] (λ e. absurd (omega (arith, e)))
      ready.empty_kbd

not-Command : ¬ Command (codes "oi")
not-Command (inl e) = absurd (omega (arith, ap (λ l. get_or l 0 0) e))
not-Command (inr (inl e)) = absurd (omega (arith, ap (λ l. get_or l 0 0) e))
not-Command (inr (inr e)) = absurd (omega (arith, ap (λ l. get_or l 0 0) e))

-- "oj", a correction, and Enter.
enter_sends_line_example :
    Returns
      (press (zeros 64) (zeros 136) 1 (omega arith) (codes "oj" ++ 0x08 ∷ b'i' ∷ b'\n' ∷ []))
      booted
      (λ _ k'. Entered (codes "vga") (codes "oi") booted k')
unfolding chat_init
enter_sends_line_example =
    enter_sends_line (zeros 64) (zeros 136) 1 (omega arith) (codes "oj" ++ 0x08 ∷ b'i' ∷ []) booted
      [] refl ready.empty_kbd not-Command (omega arith) (omega (arith, ready_count-replicate 300))

-- Two bytes wait in the ring.
two_keys : Holds (chat_kbd_enqueue b'i' (chat_kbd_enqueue b'o' booted.chat.ring)) (codes "oi")
two_keys =
    chat_kbd_enqueue-Holds b'i' (chat_kbd_enqueue b'o' booted.chat.ring) (b'o' ∷ [])
      (chat_kbd_enqueue-Holds b'o' booted.chat.ring [] ready.empty_ring)

abbrev with_keys : Kernel
with_keys = record booted {
  chat = record booted.chat {
    ring = chat_kbd_enqueue b'i' (chat_kbd_enqueue b'o' booted.chat.ring);
  };
}

-- The screen at reset is a sheet of paper.
abbrev sheet : Paper
sheet = record { cells = λ i. if ltb i 2000 then (0, 0) else blank; head = 0 }

reset-OnPaper : OnPaper booted.world.screen.console sheet
unfolding chat_init
reset-OnPaper = shows 0 (record {
  window = λ i h. ground arith;
  place = refl;
  within = omega arith;
  ahead = λ i h. ground arith;
})

chat_submit-OnBoth_example :
    Returns (chat_submit (zeros 136) (codes "vga") (codes "oi")) booted.world (λ _ w'.
      OnPaper w'.screen.console
        (type_text (codes "[vga] oi\n") console_light_green console_black sheet)
      × Submitted (bytes (codes "[vga] oi\n")) booted.world w')
unfolding chat_init
chat_submit-OnBoth_example =
    chat_submit-OnBoth (zeros 136) (codes "vga") (codes "oi") booted.world sheet reset-OnPaper refl
      (omega arith) (omega arith) (omega (arith, ready_count-replicate 300))

can_transfer : CanTransfer (zeros 64) 1 booted.world.files
can_transfer = record {
  stack_size = refl;
  followed = omega arith;
  vga_file = ready.files.vga_file;
  serial_file = ready.files.serial_file;
}

-- Two keys wait, before the first round comes an Enter, and before the second a command.
chat_poll-Polled_example :
    Returns
      (chat_poll (zeros 64) (zeros 136) 1 20 ((b'\n' ∷ []) ∷ codes "/transferir\nx" ∷ []))
      with_keys
      (λ _ k'. Polled 1 (codes "x") (codes "[vga] oi\n" ++ safe_log) with_keys k')
unfolding chat_init reply transfers_of
chat_poll-Polled_example =
    chat_poll-Polled (zeros 64) (zeros 136) 1 (omega arith) 20
      ((b'\n' ∷ []) ∷ codes "/transferir\nx" ∷ []) with_keys (codes "oi") [] two_keys
      ready.empty_kbd
      (
        not-Freezes (codes "oi") (omega arith),
        (not-Freezes (codes "/transferir") (omega arith), tt),
      )
      (λ some. can_transfer) (omega arith) (omega (arith, ready_count-replicate 300)) refl

-- "oj", a correction, and Enter; the LF that some terminals send after it; and a command.
handle_bytes-Echoed_example :
    Returns
      (handle_bytes
        (zeros 64)
        (zeros 136)
        1
        (codes "oj" ++ 127 ∷ b'i' ∷ b'\r' ∷ b'\n' ∷ codes "/help\r"))
      booted
      (λ _ k'. Echoed 0 [] (codes "oji\r\n[serial] oi\n\r\n/help\r\n") booted k')
unfolding chat_init reply transfers_of
handle_bytes-Echoed_example =
    handle_bytes-Echoed (zeros 64) (zeros 136) 1 (omega arith)
      (codes "oj" ++ 127 ∷ b'i' ∷ b'\r' ∷ b'\n' ∷ codes "/help\r") booted [] ready.empty_ser
      (ground arith) (λ some. can_transfer) (omega (arith, ready_count-replicate 300))
