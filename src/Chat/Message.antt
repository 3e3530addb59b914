-- ===== src/Chat/Message.antt =====
-- What the handler of the keyboard's bytes does to the line for a key that is not Enter.
use projeto_so.Base.{
  ==_false, ℕ, zero, suc, ◌-◌, ◌≡◌, ◌≢◌, refl, arith, Bool, true, false, List, [], ◌∷◌, ◌==◌, leb,
  ltb, if◌then◌else◌, take, length, Bool-cases, inl, inr,
}
use projeto_so.Io.{Run, pure, ◌>>◌}
use projeto_so.Io.Returns.{Returns, returns, Returns-eq, zoom-run, pure-Returns}
use projeto_so.Framebuffer.{Screen, console_write, console_backspace, console_white, console_black}
use projeto_so.Framebuffer.Cursor.{Quiet, console_write_colored-Quiet, console_backspace-Quiet}
use projeto_so.Deadlock.{World, on_screen}
use projeto_so.Deadlock.Transcript.{log_of}
use projeto_so.Chat.{line_max, Line, Kernel, on_world, on_chat, on_kbd, drop_last, push}
use projeto_so.Chat.Poll.{kbd_process_char}
use projeto_so.Chat.Editor.{Typed, edit, push-Typed, drop_last-Typed}

abbrev pub backspace_key : ℕ → Bool
backspace_key c = c == 0x08

-- The text after keys that are not Enter.
abbrev pub edited : List ℕ → List ℕ → List ℕ
edited [] t = t
edited (c ∷ cs) t = edited cs (edit backspace_key c t)

abbrev pub no_enter : List ℕ → Bool
no_enter [] = true
no_enter (c ∷ cs) = if c == b'\n' then false else no_enter cs

pub no_enter-head : (c : ℕ) (cs : List ℕ) → no_enter (c ∷ cs) ≡ true → c ≢ b'\n'
no_enter-head c cs e same = absurd (ground (arith, e, same))

pub no_enter-tail : (c : ℕ) (cs : List ℕ) → no_enter (c ∷ cs) ≡ true → no_enter cs ≡ true
no_enter-tail c cs e = ground (arith, e)

-- The line of the keyboard holds `t`; of the rest only the console has changed.
pub record Edited (t : List ℕ) (k k' : Kernel) : Type 0 where
  pub typed : Typed t k'.chat.kbd
  pub ring_same : k'.chat.ring ≡ k.chat.ring
  pub ser_same : k'.chat.ser ≡ k.chat.ser
  pub files_same : k'.world.files ≡ k.world.files
  pub log_same : log_of k'.world ≡ log_of k.world
  pub inputs_same : k'.world.screen.bus.inputs ≡ k.world.screen.bus.inputs

Edited-same : {t : List ℕ} {k : Kernel} → Typed t k.chat.kbd → Edited t k k
Edited-same typed = record {
  typed = typed;
  ring_same = refl;
  ser_same = refl;
  files_same = refl;
  log_same = refl;
  inputs_same = refl;
}

-- A change of the line, and then one of the console.
change_and_show :
    {t : List ℕ} (change : Line → Line) (m : Run Screen (Unit {0})) (k : Kernel)
    → Returns m k.world.screen (λ _ s'. Quiet k.world.screen s')
    → Typed t (change k.chat.kbd)
    → Returns (do on_kbd change; on_world (on_screen m)) k (λ _ k'. Edited t k k')
unfolding on_chat
change_and_show change m k (returns _ s' runs quiet) typed =
    returns tt
      (record {
        world = record k.world { screen = s' };
        chat = record k.chat { kbd = change k.chat.kbd };
      })
      (zoom-run (λ (v : Kernel). v.world) (λ v w. record v { world = w }) (on_screen m)
        (zoom-run (λ (w : World). w.screen) (λ w sc. record w { screen = sc }) m runs))
      (record {
        typed = typed;
        ring_same = refl;
        ser_same = refl;
        files_same = refl;
        log_same = quiet.serial_kept;
        inputs_same = quiet.inputs_kept;
      })

pub take_nothing : (n : ℕ) (t : List ℕ) → length t ≡ 0 → take n t ≡ t
take_nothing zero [] e = refl
take_nothing (suc n) [] e = refl
take_nothing n (c ∷ t) e = absurd (omega (arith, e))

module _ (stack buf : List ℕ) (rounds : ℕ) where
  -- A key other than Enter, on a line that holds a text: the handler returns, the line holds the
  -- edited text (at most 120 bytes, in its 121, ended by a 0), only the console has changed
  -- besides, and nothing went out on the serial port.
  pub kbd_process_char-edit :
      (c : ℕ) (k : Kernel) (t : List ℕ)
      → c ≢ b'\n'
      → Typed t k.chat.kbd
      → Returns
          (kbd_process_char stack buf rounds c)
          k
          (λ _ k'. Edited (edit backspace_key c t) k k')
  unfolding kbd_process_char console_write
  kbd_process_char-edit c k t other typed = elim (Bool-cases (c == 0x08)) [
    | inl erase ↦ rw erase (elim (Bool-cases (ltb 0 k.chat.kbd.len)) [
      | inl some_left ↦ Returns-eq (rw (==_false other, erase, some_left, kbd_process_char) refl) (
          change_and_show drop_last console_backspace k (console_backspace-Quiet k.world.screen)
            (drop_last-Typed typed))
      | inr none_left ↦
          Returns-eq {n = pure tt} (rw (==_false other, erase, none_left, kbd_process_char) refl) (
            pure-Returns (rw (take_nothing (length t - 1) t (empty none_left)) (Edited-same typed)))
    ])
    | inr keeps ↦ rw keeps (elim (Bool-cases (ltb c 32)) [
      | inl control ↦ rw control (
          Returns-eq {n = pure tt} (rw (==_false other, keeps, control, kbd_process_char) refl)
            (pure-Returns (Edited-same typed)))
      | inr shown ↦ rw shown (elim (Bool-cases (leb line_max (length t))) [
        | inl full ↦ rw full (
            Returns-eq {n = pure tt}
              (rw (==_false other, keeps, shown, full_line full, kbd_process_char) refl)
              (pure-Returns (Edited-same typed)))
        | inr room ↦ rw room (
            Returns-eq (rw (==_false other, keeps, shown, open_line room, kbd_process_char) refl) (
              change_and_show (push c) (console_write (c ∷ 0 ∷ [])) k
                (Returns-eq refl (
                  console_write_colored-Quiet (c ∷ 0 ∷ []) console_white console_black
                    k.world.screen))
                (push-Typed c (λ z. absurd (ground (arith, z, shown))) (ground (arith, room))
                  typed)))
      ])
    ])
  ]
    where
      empty : ltb 0 k.chat.kbd.len ≡ false → length t ≡ 0
      empty e = ground (arith, e, typed.at_end)

      full_line : leb line_max (length t) ≡ true → leb line_max k.chat.kbd.len ≡ true
      full_line e = ground (arith, e, typed.at_end)

      open_line : leb line_max (length t) ≡ false → leb line_max k.chat.kbd.len ≡ false
      open_line e = ground (arith, e, typed.at_end)
