-- ===== src/Framebuffer/Paper.antt =====
-- The console as a window on an endless sheet of paper: what the driver promises.
-- The paper knows no scrolling; its rows are `vga_width` cells, and it is blank below the window.
use projeto_so.Base.{
  ℕ, ◌+◌, ◌-◌, ◌*◌, ◌/◌, ◌≤◌, ◌<◌, ◌≡◌, refl, ◌∙◌, arith, List, [], ◌∷◌, ◌==◌, leb, if◌then◌else◌,
  Bool-cases, inl, inr, update, u8, ap, sym, dec_lt,
}
use projeto_so.Io.Returns.{Returns, Returns-mono, Returns-eq}
use projeto_so.Io.Traffic.{sent_on}
use projeto_so.Serial.{uart_data}
use projeto_so.Framebuffer.{
  vga_width, Console, Screen, attribute, scroll_console, put_character, scroll_if_full, write_loop,
  console_write_colored, show_cursor,
}
use projeto_so.Framebuffer.Cells.{Cell, blank, cell, cell-set_character, cell-scroll_console}
use projeto_so.Framebuffer.Cursor.{show_cursor-Shown, cursor}
use projeto_so.Framebuffer.Bounds.{screen_size}

pub record Paper : Type 0 where
  pub cells : ℕ → Cell
  pub head : ℕ

unfoldable pub type_character : (c fg bg : ℕ) → Paper → Paper
type_character c fg bg paper =
    if c == b'\n'
    then record paper { head = (paper.head / vga_width + 1) * vga_width }
    else record {
      cells = update paper.cells paper.head (u8 c, attribute fg bg);
      head = paper.head + 1;
    }

unfoldable pub type_text : List ℕ → (fg bg : ℕ) → Paper → Paper
type_text [] fg bg paper = paper
type_text (c ∷ text) fg bg paper =
    let rest = type_text text fg bg (type_character c fg bg paper) in if c == 0 then paper else rest

-- The console shows the 25 rows of the paper from row `top` on. Its position may still stand just
-- below them, until the next scroll, if it is at most `reach`.
pub record Shows (reach : ℕ) (con : Console) (paper : Paper) (top : ℕ) : Type 0 where
  pub window :
      (i : ℕ) → i < screen_size → cell con.video_memory i ≡ paper.cells (top * vga_width + i)
  pub place : top * vga_width + con.current_position ≡ paper.head
  pub within : con.current_position ≤ reach
  pub ahead : (i : ℕ) → top * vga_width + screen_size ≤ i → paper.cells i ≡ blank

abbrev pub on_screen : ℕ
on_screen = screen_size - 1

put_character-Shows :
    (c fg bg : ℕ) {con : Console} {paper : Paper} {top : ℕ}
    → Shows on_screen con paper top
    → Shows screen_size (put_character c fg bg con) (type_character c fg bg paper) top
unfolding put_character type_character
put_character-Shows c fg bg {con} {paper} {top} s = elim (Bool-cases (c == b'\n')) [
  | inl line ↦ rw line (record {
    window = s.window;
    place = omega (arith, s.place, s.within);
    within = omega (arith, s.within);
    ahead = s.ahead;
  })
  | inr other ↦ rw other (record {
    window = λ i h. ground (
      arith,
      cell-set_character con.current_position c fg bg con.video_memory i,
      s.window i,
      s.place,
      s.within,
    );
    place = omega (arith, s.place, s.within);
    within = omega (arith, s.within);
    ahead = λ i h. ground (arith, s.ahead i, s.place, s.within);
  })
]

-- The console shows the paper from some row on.
pub data OnPaper (con : Console) (paper : Paper) : Type 0 where
  shows : (top : ℕ) → Shows on_screen con paper top → OnPaper con paper

position-scroll_console : (con : Console) → (scroll_console con).current_position ≡ 1920
unfolding scroll_console
position-scroll_console con = refl

scroll_console-Shows :
    {con : Console} {paper : Paper} {top : ℕ}
    → screen_size ≤ con.current_position
    → Shows screen_size con paper top
    → Shows on_screen (scroll_console con) paper (top + 1)
scroll_console-Shows {con} {paper} {top} full s = record {
  window = λ i h. elim (dec_lt i 1920) [
    | yes kept ↦
        let same : top * vga_width + (i + vga_width) ≡ (top + 1) * vga_width + i = omega arith in
        ground (
          arith,
          cell-scroll_console con i,
          s.window (i + vga_width),
          ap (λ (k : ℕ). paper.cells k) same,
        )
    | no cleared ↦
        ground (arith, cell-scroll_console con i, s.ahead ((top + 1) * vga_width + i) (omega arith))
  ];
  place = omega (arith, s.place, s.within, position-scroll_console con);
  within = omega (arith, position-scroll_console con);
  ahead = λ i h. s.ahead i (omega arith);
}

scroll_if_full-OnPaper :
    {con : Console} {paper : Paper} {top : ℕ}
    → Shows screen_size con paper top
    → OnPaper (scroll_if_full con) paper
unfolding scroll_if_full
scroll_if_full-OnPaper {con} {paper} {top} s =
    elim (Bool-cases (leb screen_size con.current_position)) [
      | inr room ↦ rw room (
          shows top (record {
            window = s.window;
            place = s.place;
            within = ground (arith, s.within);
            ahead = s.ahead;
          }))
      | inl full ↦ rw full (shows (top + 1) (scroll_console-Shows (ground arith) s))
    ]

pub write_loop-OnPaper :
    (text : List ℕ) (fg bg : ℕ) {con : Console} {paper : Paper}
    → OnPaper con paper
    → OnPaper (write_loop text fg bg con) (type_text text fg bg paper)
unfolding write_loop type_text
write_loop-OnPaper [] fg bg p = p
write_loop-OnPaper (c ∷ text) fg bg (shows top s) = elim (Bool-cases (c == 0)) [
  | inl end ↦ rw end (shows top s)
  | inr more ↦
      rw more
        (write_loop-OnPaper text fg bg (scroll_if_full-OnPaper (put_character-Shows c fg bg s)))
]

-- If the console shows a sheet of paper, `console_write_colored` returns, and the console then
-- shows the sheet with the text typed on it, whatever scrolling that took; the cursor blinks at the
-- position of the next character, and nothing went out on the serial line.
pub console_write_colored_refines :
    (text : List ℕ) (fg bg : ℕ) (s : Screen) (paper : Paper)
    → OnPaper s.console paper
    → Returns (console_write_colored text fg bg) s (λ _ s'.
      OnPaper s'.console (type_text text fg bg paper)
      × (cursor s'.bus.trace ≡ s'.console.current_position)
      × (s'.bus.inputs ≡ s.bus.inputs)
      × (sent_on uart_data s'.bus.trace ≡ sent_on uart_data s.bus.trace))
unfolding console_write_colored
console_write_colored_refines text fg bg s paper p = finish (write_loop-OnPaper text fg bg p)
  where
    finish :
        OnPaper (write_loop text fg bg s.console) (type_text text fg bg paper)
        → Returns (console_write_colored text fg bg) s (λ _ s'.
          OnPaper s'.console (type_text text fg bg paper)
          × (cursor s'.bus.trace ≡ s'.console.current_position)
          × (s'.bus.inputs ≡ s.bus.inputs)
          × (sent_on uart_data s'.bus.trace ≡ sent_on uart_data s.bus.trace))
    finish (shows top w) = Returns-eq {n = show_cursor (write_loop text fg bg s.console)} refl (
        Returns-mono
          (show_cursor-Shown (write_loop text fg bg s.console) s (omega (arith, w.within)))
          (λ _ s' shown. (
            rw (shown.same_console) (shows top w),
            shown.follows ∙ sym (ap (λ (c : Console). c.current_position) shown.same_console),
            shown.same_inputs,
            shown.serial_same,
          )))
