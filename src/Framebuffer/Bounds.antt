-- ===== src/Framebuffer/Bounds.antt =====
-- The console stays inside its 4000 bytes of video memory.
use projeto_so.Base.{
  ℕ, ◌-◌, ◌*◌, ◌≤◌, ◌<◌, ◌≡◌, refl, ◌∙◌, arith, List, [], ◌∷◌, ◌==◌, Bool-cases, inl, inr,
}
use projeto_so.Io.{Run, pure}
use projeto_so.Io.Returns.{Returns, Returns-mono, Returns-eq, pure-Returns}
use projeto_so.Framebuffer.{
  vga_width, vga_height, console_white, console_black, Console, Screen, clear_cells, scroll_console,
  put_character, scroll_if_full, write_loop, erase_last, console_clear, console_write_colored,
  console_backspace, show_cursor, last_row_start,
}
use projeto_so.Framebuffer.Cursor.{show_cursor-Shown}
use projeto_so.Framebuffer.Cells.{set_character_byte, clear_cells_byte, scroll_console_byte}

abbrev pub screen_size : ℕ
screen_size = vga_width * vga_height

-- `con'` has its position on the screen, and beside the screen its memory is that of `con`.
pub record StaysInside (con con' : Console) : Type 0 where
  pub on_screen : con'.current_position < screen_size
  pub outside : (k : ℕ) → screen_size * 2 ≤ k → con'.video_memory k ≡ con.video_memory k

put_character-le :
    (c fg bg : ℕ) (con : Console)
    → con.current_position < screen_size
    → (put_character c fg bg con).current_position ≤ screen_size
unfolding put_character
put_character-le c fg bg con h = ground arith

put_character_outside :
    (c fg bg : ℕ) (con : Console) (k : ℕ)
    → con.current_position < screen_size
    → screen_size * 2 ≤ k
    → (put_character c fg bg con).video_memory k ≡ con.video_memory k
unfolding put_character
put_character_outside c fg bg con k h out =
    ground (arith, set_character_byte con.current_position c fg bg con.video_memory k)

StaysInside-trans : {a b c : Console} → StaysInside a b → StaysInside b c → StaysInside a c
StaysInside-trans p q = record {
  on_screen = q.on_screen;
  outside = λ k h. q.outside k h ∙ p.outside k h;
}

position-scroll_console : (con : Console) → (scroll_console con).current_position ≡ last_row_start
unfolding scroll_console
position-scroll_console con = refl

scroll_if_full-StaysInside :
    (con : Console) → con.current_position ≤ screen_size → StaysInside con (scroll_if_full con)
unfolding scroll_if_full
scroll_if_full-StaysInside con h = record {
  on_screen = ground (arith, position-scroll_console con);
  outside = λ k out. ground (arith, scroll_console_byte con k);
}

-- One character, with the scroll that it may cause.
character-StaysInside :
    (c fg bg : ℕ) (con : Console)
    → con.current_position < screen_size
    → StaysInside con (scroll_if_full (put_character c fg bg con))
character-StaysInside c fg bg con h = record {
  on_screen = scrolled.on_screen;
  outside = λ k out. scrolled.outside k out ∙ put_character_outside c fg bg con k h out;
}
  where
    scrolled : StaysInside (put_character c fg bg con) (scroll_if_full (put_character c fg bg con))
    scrolled =
        scroll_if_full-StaysInside (put_character c fg bg con) (put_character-le c fg bg con h)

pub write_loop-StaysInside :
    (text : List ℕ) (fg bg : ℕ) (con : Console)
    → con.current_position < screen_size
    → StaysInside con (write_loop text fg bg con)
unfolding write_loop
write_loop-StaysInside [] fg bg con h = record { on_screen = h; outside = λ k out. refl }
write_loop-StaysInside (c ∷ text) fg bg con h = elim (Bool-cases (c == 0)) [
  | inl end ↦ rw end (record { on_screen = h; outside = λ k out. refl })
  | inr more ↦ rw more (
      StaysInside-trans (character-StaysInside c fg bg con h) (
        write_loop-StaysInside text fg bg (scroll_if_full (put_character c fg bg con))
          (character-StaysInside c fg bg con h).on_screen))
]

erase_last-StaysInside :
    (con : Console) → con.current_position < screen_size → StaysInside con (erase_last con)
unfolding erase_last
erase_last-StaysInside con h = record {
  on_screen = omega arith;
  outside = λ k out. ground (
    arith,
    set_character_byte (con.current_position - 1) b' ' console_white console_black con.video_memory
        k,
  );
}

-- A console function ends in `show_cursor`: it returns, with that console.
pub shown-Returns :
    {con₀ : Console} (con : Console) (m : Run Screen (Unit {0})) (s : Screen)
    → m s ≡ show_cursor con s
    → StaysInside con₀ con
    → Returns m s (λ _ s'. StaysInside con₀ s'.console)
shown-Returns {con₀} con m s e inside = Returns-eq e (
    Returns-mono (show_cursor-Shown con s (omega (arith, inside.on_screen)))
      (λ _ s' shown. rw (shown.same_console) inside))

-- Started with its position on the screen, each function of the driver returns with its position on
-- the screen, and has written no byte beside the 4000 of the screen. `console_clear` does so from
-- any position.
pub console-StaysInside :
    (s : Screen)
    → (s.console.current_position < screen_size
        → ((text : List ℕ) (fg bg : ℕ)
            → Returns
                (console_write_colored text fg bg)
                s
                (λ _ s'. StaysInside s.console s'.console))
          × Returns console_backspace s (λ _ s'. StaysInside s.console s'.console))
      × Returns console_clear s (λ _ s'. StaysInside s.console s'.console)
unfolding console_write_colored console_backspace console_clear
console-StaysInside s = (
  λ h. (
    λ text fg bg.
        shown-Returns (write_loop text fg bg s.console) (console_write_colored text fg bg) s refl
          (write_loop-StaysInside text fg bg s.console h),
    elim (Bool-cases (s.console.current_position == 0)) [
      | inl start ↦
          Returns-eq {n = pure tt} (rw (start, console_backspace) refl)
            (pure-Returns (record { on_screen = h; outside = λ k out. refl }))
      | inr more ↦
          shown-Returns (erase_last s.console) console_backspace s
            (rw (more, console_backspace) refl) (erase_last-StaysInside s.console h)
    ],
  ),
  shown-Returns
      (record {
        video_memory = clear_cells screen_size 0 s.console.video_memory;
        current_position = 0;
      })
      console_clear s refl
      (record {
        on_screen = omega arith;
        outside = λ k out. ground (arith, clear_cells_byte screen_size 0 s.console.video_memory k);
      }),
)
