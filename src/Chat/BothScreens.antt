-- ===== src/Chat/BothScreens.antt =====
-- A message on the two terminals: the console and the serial line get the same.
use projeto_so.Base.{
  ℕ, ◌+◌, ◌<◌, ◌≤◌, ◌≡◌, refl, ◌∙◌, false, List, [], ◌∷◌, ◌==◌, length, until_nul, bytes, get_or,
  Bool-cases, inl, inr,
}
use projeto_so.Io.{disable_interrupts, enable_interrupts}
use projeto_so.Io.Returns.{Returns, returns, Returns-both, Returns-mono, zoom-Returns}
use projeto_so.Serial.Print.{serial_print_returns}
use projeto_so.Framebuffer.{Screen, on_bus, console_black, console_light_green}
use projeto_so.Framebuffer.Paper.{
  Paper, OnPaper, type_text, type_character, console_write_colored_refines,
}
use projeto_so.Deadlock.{World, on_screen, say, display}
use projeto_so.Deadlock.Transcript.{>>-Returns, ready_of}
use projeto_so.Chat.{line_max, chat_submit, append_formatted}
use projeto_so.Chat.Strings.{append_formatted_text}
use projeto_so.Chat.Submit.{message, Submitted, chat_submit-Submitted}

-- Only the text before the first 0 is typed.
type_text-until_nul :
    (text : List ℕ) (fg bg : ℕ) (paper : Paper)
    → type_text text fg bg paper ≡ type_text (until_nul text) fg bg paper
unfolding type_text
type_text-until_nul [] fg bg paper = refl
type_text-until_nul (c ∷ text) fg bg paper = elim (Bool-cases (c == 0)) [
  | inl end ↦ rw end refl
  | inr more ↦
      rw more (type_text-until_nul text fg bg (type_character c fg bg paper) ∙ rw more refl)
]

display-OnPaper :
    (line : List ℕ) (fg : ℕ) (w : World) (paper : Paper)
    → OnPaper w.screen.console paper
    → Returns (display line fg) w (λ _ w'.
      OnPaper w'.screen.console (type_text (until_nul line) fg console_black paper)
      × (w'.screen.bus.inputs ≡ w.screen.bus.inputs))
unfolding display
display-OnPaper line fg w paper p =
    zoom-Returns (λ (v : World). v.screen) (λ v sc. record v { screen = sc })
      (console_write_colored_refines line fg console_black w.screen paper p)
      (λ _ sc (shown, cursor, inputs, log).
        (rw (type_text-until_nul line fg console_black paper) at shown, inputs))

-- What the serial port takes leaves the console.
say-console :
    (line : List ℕ) (w : World)
    → length (until_nul line) ≤ ready_of w
    → Returns (say line) w (λ _ w'. w'.screen.console ≡ w.screen.console)
unfolding say
say-console line w enough =
    zoom-Returns (λ (v : World). v.screen) (λ v sc. record v { screen = sc })
      {P = λ _ sc. sc.console ≡ w.screen.console}
      (zoom-Returns (λ (sc : Screen). sc.bus) (λ sc b. record sc { bus = b })
        (serial_print_returns line w.screen.bus enough) (λ _ b printed. refl))
      (λ _ sc e. e)

mask_console :
    (w : World)
    → Returns (on_screen (on_bus disable_interrupts)) w (λ _ w'.
      (w'.screen.console ≡ w.screen.console) × (w'.screen.bus.inputs ≡ w.screen.bus.inputs))
unfolding disable_interrupts
mask_console w = returns tt _ refl (refl, refl)

unmask_console :
    (w : World)
    → Returns
        (on_screen (on_bus enable_interrupts))
        w
        (λ _ w'. w'.screen.console ≡ w.screen.console)
unfolding enable_interrupts
unmask_console w = returns tt _ refl refl

-- If the console shows a sheet of paper, and for a message that is not empty, on an array and a port
-- that can take it, `chat_submit` returns, and the two terminals have got the same: the console
-- shows the paper with `[user] msg` and a newline typed on it in light green, and the serial port
-- has got this text, all of it between one `cli` and the next `sti`.
pub chat_submit-OnBoth :
    (buf user msg : List ℕ) (w : World) (paper : Paper)
    → OnPaper w.screen.console paper
    → (get_or msg 0 0 == 0) ≡ false
    → line_max + 16 ≤ length buf
    → length (until_nul user) + length (until_nul msg) + 4 < line_max + 16
    → length (message (until_nul user) (until_nul msg)) ≤ ready_of w
    → let text = message (until_nul user) (until_nul msg) in
      Returns (chat_submit buf user msg) w (λ _ w'.
        OnPaper w'.screen.console (type_text text console_light_green console_black paper)
        × Submitted (bytes text) w w')
unfolding chat_submit
chat_submit-OnBoth buf user msg w paper p some_text room fits enough =
    Returns-both
      (rw some_text (
        rw whole at (
          >>-Returns
            {Q = λ _ w'.
              OnPaper w'.screen.console
                (type_text (until_nul line) console_light_green console_black paper)}
            (mask_console w)
            λ w₁ (same₁, inputs₁).
              >>-Returns (display-OnPaper line console_light_green w₁ paper (rw same₁ p))
                λ w₂ (shown, inputs₂).
                  >>-Returns (say-console line w₂ (rw (whole, inputs₂, inputs₁) enough)) λ w₃ same₃.
                    Returns-mono (unmask_console w₃) (λ _ w₄ same₄. rw (same₄, same₃) shown))))
      (chat_submit-Submitted buf user msg w some_text room fits enough)
  where
    line : List ℕ
    line = append_formatted user msg buf (line_max + 16)

    whole : until_nul line ≡ message (until_nul user) (until_nul msg)
    whole = append_formatted_text user msg buf (line_max + 16) fits room
