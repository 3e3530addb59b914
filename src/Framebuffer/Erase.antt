-- ===== src/Framebuffer/Erase.antt =====
-- `console_clear` and `console_backspace` on the sheet of paper that the console shows.
use projeto_so.Base.{
  ==_false, ℕ, ◌+◌, ◌-◌, ◌*◌, ◌<◌, ◌≡◌, ◌≢◌, refl, arith, false, [], ◌∷◌, ◌==◌, if◌then◌else◌,
  Bool-cases, inl, inr, update, u8, fun_ext,
}
use projeto_so.Io.{Run, ◌>>◌}
use projeto_so.Io.Returns.{Returns, Returns-mono, Returns-eq, pure-Returns, >>=-Returns}
use projeto_so.Framebuffer.{
  console_white, console_black, Console, Screen, attribute, write_loop, put_character,
  scroll_if_full, scroll_console, clear_cells, erase_last, console_write_colored, console_write,
  console_clear, console_backspace, show_cursor,
}
use projeto_so.Framebuffer.Cells.{blank, cell-set_character, clear_cells_byte}
use projeto_so.Framebuffer.Cursor.{show_cursor-Shown, cursor}
use projeto_so.Framebuffer.Bounds.{screen_size, StaysInside, write_loop-StaysInside}
use projeto_so.Framebuffer.Paper.{
  Paper, type_character, type_text, Shows, on_screen, OnPaper, shows, write_loop-OnPaper,
}

abbrev pub blank_paper : Paper
blank_paper = record { cells = λ i. blank; head = 0 }

cleared : Console → Console
cleared con = record {
  video_memory = clear_cells screen_size 0 con.video_memory;
  current_position = 0;
}

cleared-Shows : (con : Console) → Shows on_screen (cleared con) blank_paper 0
unfolding cleared
cleared-Shows con = record {
  window = λ i h. ground (
    arith,
    clear_cells_byte screen_size 0 con.video_memory (i * 2),
    clear_cells_byte screen_size 0 con.video_memory (i * 2 + 1),
  );
  place = refl;
  within = omega arith;
  ahead = λ i h. refl;
}

-- A console function that ends in `show_cursor` with a console on paper.
shown-OnPaper :
    {con : Console} {paper : Paper} (m : Run Screen (Unit {0})) (s : Screen)
    → m s ≡ show_cursor con s
    → OnPaper con paper
    → Returns m s (λ _ s'. OnPaper s'.console paper × (cursor s'.bus.trace ≡ con.current_position))
shown-OnPaper {con} m s e (shows top w) = Returns-eq e (
    Returns-mono (show_cursor-Shown con s (omega (arith, w.within)))
      (λ _ s' shown. (rw (shown.same_console) (shows top w), shown.follows)))

-- Whatever the console held before, `console_clear` returns with a blank sheet shown from its first
-- row, the next character and the cursor at its start.
pub console_clear_refines :
    (s : Screen)
    → Returns console_clear s (λ _ s'. OnPaper s'.console blank_paper × (cursor s'.bus.trace ≡ 0))
unfolding console_clear cleared
console_clear_refines s = shown-OnPaper console_clear s refl (shows 0 (cleared-Shows s.console))

-- The character before the head is blanked out, and the head moves there.
abbrev pub rub_out : Paper → Paper
rub_out paper = record { cells = update paper.cells (paper.head - 1) blank; head = paper.head - 1 }

erase_last-Shows :
    {con : Console} {paper : Paper} {top : ℕ}
    → con.current_position ≢ 0
    → Shows on_screen con paper top
    → Shows on_screen (erase_last con) (rub_out paper) top
unfolding erase_last
erase_last-Shows {con} {paper} {top} more s = record {
  window = λ i h. ground (
    arith,
    cell-set_character (con.current_position - 1) b' ' console_white console_black con.video_memory
        i,
    s.window i,
    s.place,
    s.within,
  );
  place = omega (arith, s.place);
  within = omega (arith, s.within);
  ahead = λ i h. ground (arith, s.ahead i, s.place, s.within);
}

-- `console_backspace` rubs out the last character typed, if it stands on a row that is shown; at
-- the first cell of the screen it leaves the paper as it is.
pub console_backspace_refines :
    (s : Screen) (paper : Paper)
    → OnPaper s.console paper
    → Returns console_backspace s (λ _ s'.
      OnPaper s'.console (if s.console.current_position == 0 then paper else rub_out paper))
unfolding console_backspace
console_backspace_refines s paper (shows top w) =
    elim (Bool-cases (s.console.current_position == 0)) [
      | inl start ↦
          rw start (Returns-eq (rw (start, console_backspace) refl) (pure-Returns (shows top w)))
      | inr more ↦ rw more (
          Returns-mono
            (shown-OnPaper console_backspace s (rw (more, console_backspace) refl)
              (shows top (erase_last-Shows (ground arith) w)))
            (λ _ s' p. p.0))
    ]

-- A character that is typed on a blank cell and rubbed out again.
module _ (c fg bg : ℕ) (paper : Paper) where
  rub_out-type_text :
      c ≢ 0
      → c ≢ b'\n'
      → paper.cells paper.head ≡ blank
      → rub_out (type_text (c ∷ []) fg bg paper) ≡ paper
  unfolding type_text type_character
  rub_out-type_text shown other free =
      rw (==_false shown, ==_false other) (λ i. record { cells = fun_ext same i; head = last i })
    where
      last : paper.head + 1 - 1 ≡ paper.head
      last = omega arith

      same :
          (k : ℕ)
          → update
              (update paper.cells paper.head (u8 c, attribute fg bg))
              (paper.head + 1 - 1)
              blank
              k
            ≡ paper.cells k
      same k = ground (arith, free)

position-write_loop :
    (c fg bg : ℕ) (con : Console)
    → con.current_position < screen_size
    → c ≢ 0
    → (write_loop (c ∷ []) fg bg con).current_position ≢ 0
unfolding write_loop put_character scroll_if_full scroll_console
position-write_loop c fg bg con h shown = ground arith

-- The echo of a character at the keyboard, undone by a backspace: if the cell was blank, the
-- console shows the paper as before, also where the echo scrolled it.
pub console_backspace-console_write :
    (c : ℕ) (s : Screen) (paper : Paper)
    → c ≢ 0
    → c ≢ b'\n'
    → paper.cells paper.head ≡ blank
    → OnPaper s.console paper
    → Returns (do console_write (c ∷ []); console_backspace) s (λ _ s'. OnPaper s'.console paper)
unfolding console_write console_write_colored
console_backspace-console_write c s paper shown other free (shows top w) =
    >>=-Returns (λ _. console_backspace)
      (Returns-eq {n = show_cursor echo} refl
        (show_cursor-Shown echo s (omega (arith, inside.on_screen))))
      (λ _ s' sh.
        Returns-mono (console_backspace_refines s' typed (rw (sh.same_console) on_paper))
          (λ _ s'' p.
            rw
              (
                moved s' sh.same_console,
                rub_out-type_text c console_white console_black paper shown other free,
              )
              at p))
  where
    echo : Console
    echo = write_loop (c ∷ []) console_white console_black s.console

    typed : Paper
    typed = type_text (c ∷ []) console_white console_black paper

    inside : StaysInside s.console echo
    inside =
        write_loop-StaysInside (c ∷ []) console_white console_black s.console
          (omega (arith, w.within))

    on_paper : OnPaper echo typed
    on_paper = write_loop-OnPaper (c ∷ []) console_white console_black (shows top w)

    moved : (s' : Screen) → s'.console ≡ echo → (s'.console.current_position == 0) ≡ false
    moved s' e = rw e (
        ==_false (
          position-write_loop c console_white console_black s.console (omega (arith, w.within))
            shown))
