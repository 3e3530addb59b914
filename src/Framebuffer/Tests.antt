-- ===== src/Framebuffer/Tests.antt =====
-- The theorems of the console at concrete screens.
use projeto_so.Base.{ℕ, ◌%◌, ◌<◌, ◌≡◌, refl, arith, List, [], ◌∷◌, ◌==◌, if◌then◌else◌, codes}
use projeto_so.Io.{◌>>◌}
use projeto_so.Io.Returns.{Returns}
use projeto_so.Io.Traffic.{sent_on}
use projeto_so.Serial.{uart_data}
use projeto_so.Framebuffer.{
  Screen, console_clear, console_write, console_write_colored, console_backspace,
}
use projeto_so.Framebuffer.Cells.{blank}
use projeto_so.Framebuffer.Cursor.{cursor}
use projeto_so.Framebuffer.Bounds.{StaysInside, screen_size, console-StaysInside}
use projeto_so.Framebuffer.Paper.{Paper, type_text, OnPaper, shows, console_write_colored_refines}
use projeto_so.Framebuffer.Erase.{
  rub_out, console_backspace_refines, console_backspace-console_write,
}

-- A blank screen, the position in its last row.
abbrev last_row : Screen
last_row = record {
  bus = record { inputs = []; trace = [] };
  console = record {
    video_memory = λ k. if k % 2 == 0 then b' ' else 0x0F;
    current_position = 1999;
  };
}

abbrev paper : Paper
paper = record { cells = λ i. blank; head = 1999 }

last_row-OnPaper : OnPaper last_row.console paper
last_row-OnPaper = shows 0 (record {
  window = λ i h. ground arith;
  place = refl;
  within = omega arith;
  ahead = λ i h. refl;
})

console-StaysInside_example :
    (last_row.console.current_position < screen_size
      → ((text : List ℕ) (fg bg : ℕ)
          → Returns
              (console_write_colored text fg bg)
              last_row
              (λ _ s'. StaysInside last_row.console s'.console))
        × Returns console_backspace last_row (λ _ s'. StaysInside last_row.console s'.console))
    × Returns console_clear last_row (λ _ s'. StaysInside last_row.console s'.console)
console-StaysInside_example = console-StaysInside last_row

console_write_colored_refines_example :
    Returns (console_write_colored (codes "ok") 10 0) last_row (λ _ s'.
      OnPaper s'.console (type_text (codes "ok") 10 0 paper)
      × (cursor s'.bus.trace ≡ s'.console.current_position)
      × (s'.bus.inputs ≡ [])
      × (sent_on uart_data s'.bus.trace ≡ []))
console_write_colored_refines_example =
    console_write_colored_refines (codes "ok") 10 0 last_row paper last_row-OnPaper

console_backspace_refines_example : Returns console_backspace last_row (λ _ s'.
    OnPaper s'.console (if last_row.console.current_position == 0 then paper else rub_out paper))
console_backspace_refines_example = console_backspace_refines last_row paper last_row-OnPaper

console_backspace-console_write_example :
    Returns
      (do console_write (b'x' ∷ []); console_backspace)
      last_row
      (λ _ s'. OnPaper s'.console paper)
console_backspace-console_write_example =
    console_backspace-console_write b'x' last_row paper (λ e. absurd (omega (arith, e)))
      (λ e. absurd (omega (arith, e))) refl last_row-OnPaper
