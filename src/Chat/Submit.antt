-- ===== src/Chat/Submit.antt =====
-- A line as a message to the console and the serial port.
use projeto_so.Base.{
  ℕ, ◌+◌, ◌<◌, ◌≤◌, ◌≡◌, ◌≢◌, ◌⊎◌, refl, ◌∙◌, ap, arith, false, List, [], ◌∷◌, ◌++◌, ◌==◌, length,
  until_nul, Bool-cases, inl, inr, get_or, bytes, codes, some,
}
use projeto_so.Io.Traffic.{sent_on, Busy, Tail}
use projeto_so.Serial.{uart_data}
use projeto_so.Serial.Ready.{ready_count}
use projeto_so.Io.{Event, cli, sti, disable_interrupts, enable_interrupts}
use projeto_so.Io.Returns.{Returns, returns, >>=-run, Returns-eq}
use projeto_so.Framebuffer.{on_bus, console_light_green}
use projeto_so.Deadlock.{World, on_screen}
use projeto_so.Deadlock.Transcript.{
  >>-Returns, Stage, Stage-start, say-Stage, display-Stage, log_of, ready_of,
}
use projeto_so.Chat.{
  line_max, str_equal, chat_submit, append_formatted, chat_try_command, submit_line,
}
use projeto_so.Chat.Strings.{formatted, append_formatted_text, str_equal_iff}

-- The message as it goes out.
abbrev pub message : (user t : List ℕ) → List ℕ
message user t = formatted user t ++ b'\n' ∷ []

-- `text` was sent, in a stretch of traffic between `cli` and `sti`.
pub record Submitted (text : List ℕ) (w w' : World) : Type 0 where
  pub files_are : w'.files ≡ w.files
  pub logged : log_of w' ≡ log_of w ++ text
  pub spent : ready_of w' + length text ≡ ready_of w
  pub left_over : Tail w.screen.bus.inputs w'.screen.bus.inputs
  pub masked : List Event
  pub after_cli : Busy (cli ∷ w.screen.bus.trace) masked
  pub before_sti : w'.screen.bus.trace ≡ sti ∷ masked

cli_run :
    (w : World)
    → Returns (on_screen (on_bus disable_interrupts)) w (λ _ w'.
      (w'.files ≡ w.files)
      × (w'.screen.bus.trace ≡ cli ∷ w.screen.bus.trace)
      × (w'.screen.bus.inputs ≡ w.screen.bus.inputs))
unfolding disable_interrupts
cli_run w = returns tt _ refl (refl, refl, refl)

-- The end of a message that was begun in `w`, with interrupts masked in `w₁`.
sti_run :
    {text : List ℕ} {w w₁ : World} (w₂ : World)
    → (w₁.files ≡ w.files)
      × (w₁.screen.bus.trace ≡ cli ∷ w.screen.bus.trace)
      × (w₁.screen.bus.inputs ≡ w.screen.bus.inputs)
    → Stage w₁ w₁.files text w₂
    → Returns (on_screen (on_bus enable_interrupts)) w₂ (λ _ w'. Submitted text w w')
unfolding enable_interrupts
sti_run {text} w₂ (files, trace, inputs) s = returns tt _ refl (record {
  files_are = s.files_are ∙ files;
  logged = s.logged ∙ ap (λ t. sent_on uart_data t ++ text) trace;
  spent = s.spent ∙ ap ready_count inputs;
  left_over = rw inputs at (s.left_over);
  masked = w₂.screen.bus.trace;
  after_cli = rw trace at (s.busy);
  before_sti = refl;
})

-- A message that is not empty, on an array and a port that can take it: `chat_submit` returns, and
-- has sent `[user] msg` and a newline on the serial port. All that it does on the ports, for the
-- console and for the serial line, lies between its `cli` and its `sti`: no other `sti` comes
-- before.
pub chat_submit-Submitted :
    (buf user msg : List ℕ) (w : World)
    → (get_or msg 0 0 == 0) ≡ false
    → line_max + 16 ≤ length buf
    → length (until_nul user) + length (until_nul msg) + 4 < line_max + 16
    → length (message (until_nul user) (until_nul msg)) ≤ ready_of w
    → Returns
        (chat_submit buf user msg)
        w
        (λ _ w'. Submitted (bytes (message (until_nul user) (until_nul msg))) w w')
unfolding chat_submit
chat_submit-Submitted buf user msg w some_text room fits enough = rw some_text (
    rw whole at (
      >>-Returns {Q = λ _ w'. Submitted (bytes (until_nul line)) w w'} (cli_run w) λ w₁ begun.
        >>-Returns (display-Stage line console_light_green (Stage-start w₁)) λ w₂ s₂.
          >>-Returns
            (say-Stage line (length (until_nul line)) (rw (whole, begun.2) enough) (ground arith)
              s₂)
            λ w₃ s₃. sti_run w₃ begun s₃))
  where
    line : List ℕ
    line = append_formatted user msg buf (line_max + 16)

    whole : until_nul line ≡ message (until_nul user) (until_nul msg)
    whole = append_formatted_text user msg buf (line_max + 16) fits room

-- The text of a line is a command.
abbrev pub Command : List ℕ → Type 0
Command t = (t ≡ codes "/deadlock") ⊎ (t ≡ codes "/transferir") ⊎ (t ≡ codes "/help")

pub str_equal-false :
    (line command : List ℕ) → until_nul line ≢ until_nul command → str_equal line command ≡ false
str_equal-false line command other = elim (Bool-cases (str_equal line command)) [
  | inl e ↦ absurd (other ((str_equal_iff line command).0 e))
  | inr e ↦ e
]

-- A line that is no command is left to `chat_submit`.
pub chat_try_command-pure :
    (stack : List ℕ) (rounds : ℕ) (line : List ℕ) (w : World)
    → ¬ Command (until_nul line)
    → chat_try_command stack rounds line w ≡ some (false, w)
unfolding chat_try_command
chat_try_command-pure stack rounds line w other =
    rw
      (
        str_equal-false line (codes "/deadlock") (λ e. other (inl e)),
        str_equal-false line (codes "/transferir") (λ e. other (inr (inl e))),
        str_equal-false line (codes "/help") (λ e. other (inr (inr e))),
      )
      refl

first_byte-nonzero : (s : List ℕ) → 0 < length (until_nul s) → (get_or s 0 0 == 0) ≡ false
first_byte-nonzero [] h = absurd (omega arith)
first_byte-nonzero (c ∷ s) h = ground (arith, h)

pub submit_line-Submitted :
    (stack buf : List ℕ) (rounds : ℕ) (user line : List ℕ) (w : World)
    → ¬ Command (until_nul line)
    → 0 < length (until_nul line)
    → length (until_nul line) ≤ line_max
    → length (until_nul user) ≤ 6
    → line_max + 16 ≤ length buf
    → length (message (until_nul user) (until_nul line)) ≤ ready_of w
    → Returns
        (submit_line stack buf rounds user line)
        w
        (λ _ w'. Submitted (bytes (message (until_nul user) (until_nul line))) w w')
unfolding submit_line
submit_line-Submitted stack buf rounds user line w other some_text fits name room enough =
    Returns-eq {n = chat_submit buf user line}
      (>>=-run (chat_try_command stack rounds line) _
        (chat_try_command-pure stack rounds line w other))
      (chat_submit-Submitted buf user line w (first_byte-nonzero line some_text) room
        (omega (arith, fits, name)) enough)
