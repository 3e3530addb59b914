-- ===== src/Deadlock/Transcript.antt =====
-- The transfers step by step: the files, and the serial log since the start.
use projeto_so.Base.{
  ℕ, suc, ◌+◌, ◌≤◌, ◌≡◌, refl, ◌∙◌, sym, ap, arith, true, List, [], ◌∷◌, ◌++◌, append-nil,
  append_assoc, some, Option, leb, length, until_nul, bytes, length-append,
}
use projeto_so.Io.{Run, ◌>>◌}
use projeto_so.Io.Returns.{Returns, returns, >>=-Returns, zoom-Returns}
use projeto_so.Io.Traffic.{sent_on, Busy, still, Busy-trans, Tail, whole, Tail-trans}
use projeto_so.Serial.{uart_data}
use projeto_so.Serial.Ready.{ready_count}
use projeto_so.Serial.Print.{Printed, serial_print_returns}
use projeto_so.Framebuffer.{Screen, console_black}
use projeto_so.Framebuffer.Cursor.{console_write_colored-Quiet}
use projeto_so.Deadlock.{Files, World, say, display, on_files, busy_delay}
use projeto_so.Deadlock.Delay.{busy_delay-run}

abbrev pub log_of : World → List ℕ
log_of w = sent_on uart_data w.screen.bus.trace

abbrev pub ready_of : World → ℕ
ready_of w = ready_count w.screen.bus.inputs

-- Started in `w₀`, the code is in `w`: the files are `f`, and the log has grown by `text`.
pub record Stage (w₀ : World) (f : Files) (text : List ℕ) (w : World) : Type 0 where
  pub files_are : w.files ≡ f
  pub logged : log_of w ≡ log_of w₀ ++ text
  pub spent : ready_of w + length text ≡ ready_of w₀
  pub busy : Busy w₀.screen.bus.trace w.screen.bus.trace
  pub left_over : Tail w₀.screen.bus.inputs w.screen.bus.inputs

pub Stage-start : (w : World) → Stage w w.files [] w
Stage-start w = record {
  files_are = refl;
  logged = sym (append-nil (log_of w));
  spent = omega arith;
  busy = still;
  left_over = whole;
}

pub length-bytes : (t : List ℕ) → length (bytes t) ≡ length t
length-bytes [] = refl
length-bytes (c ∷ t) = ap suc (length-bytes t)

-- The rule for two steps of a transfer.
pub >>-Returns :
    {m n : Run World (Unit {0})} {w : World} {P Q : Unit {0} → World → Type 0}
    → Returns m w P
    → ((w' : World) → P tt w' → Returns n w' Q)
    → Returns (m >> n) w Q
>>-Returns {m} {n} {P} first next = >>=-Returns {m = m} {P = P} (λ _. n) first (λ _ w' p. next w' p)

module _ {w₀ w : World} {f : Files} {text : List ℕ} where
  -- A line for the log, while the answers of the port last: `budget` of them are known to do.
  pub say-Stage :
      (line : List ℕ) (budget : ℕ)
      → budget ≤ ready_of w₀
      → leb (length text + length (until_nul line)) budget ≡ true
      → Stage w₀ f text w
      → Returns (say line) w (λ _ w'. Stage w₀ f (text ++ bytes (until_nul line)) w')
  unfolding say
  say-Stage line budget enough room s =
      zoom-Returns (λ (v : World). v.screen) (λ v sc. record v { screen = sc })
        {P = λ _ sc. Printed (until_nul line) w.screen.bus sc.bus}
        (zoom-Returns (λ (sc : Screen). sc.bus) (λ sc b. record sc { bus = b })
          (serial_print_returns line w.screen.bus (ground (arith, s.spent, enough, room)))
          (λ _ b printed. printed))
        (λ _ sc printed. record {
          files_are = s.files_are;
          logged =
              printed.sent_text
              ∙ ap (λ l. l ++ bytes (until_nul line)) s.logged
              ∙ append_assoc (log_of w₀) text (bytes (until_nul line));
          spent = omega (
            arith,
            s.spent,
            printed.used,
            length-append text (bytes (until_nul line)),
            length-bytes (until_nul line),
          );
          busy = Busy-trans s.busy printed.busy;
          left_over = Tail-trans s.left_over printed.left_over;
        })

  -- A line on the console changes neither.
  pub display-Stage :
      (line : List ℕ) (fg : ℕ)
      → Stage w₀ f text w
      → Returns (display line fg) w (λ _ w'. Stage w₀ f text w')
  unfolding display
  display-Stage line fg s =
      zoom-Returns (λ (v : World). v.screen) (λ v sc. record v { screen = sc })
        (console_write_colored-Quiet line fg console_black w.screen)
        (λ _ sc quiet. record {
          files_are = s.files_are;
          logged = quiet.serial_kept ∙ s.logged;
          spent = ap (λ l. ready_count l + length text) quiet.inputs_kept ∙ s.spent;
          busy = Busy-trans s.busy quiet.busy;
          left_over = rw (quiet.inputs_kept) s.left_over;
        })

  pub on_files-Stage :
      (change : Files → Option Files) {f' : Files}
      → change f ≡ some f'
      → Stage w₀ f text w
      → Returns (on_files change) w (λ _ w'. Stage w₀ f' text w')
  unfolding on_files
  on_files-Stage change {f'} e s =
      returns tt (record w { files = f' }) (rw (s.files_are, e, on_files) refl)
        (record {
          files_are = refl;
          logged = s.logged;
          spent = s.spent;
          busy = s.busy;
          left_over = s.left_over;
        })

  pub delay-Stage : Stage w₀ f text w → Returns busy_delay w (λ _ w'. Stage w₀ f text w')
  delay-Stage s = returns tt w (busy_delay-run w) s
