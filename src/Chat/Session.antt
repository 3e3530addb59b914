-- ===== src/Chat/Session.antt =====
-- Keys at the keyboard, Enter among them: what they send, and what they leave in the line.
pub mod Keyboard
pub mod Round
use projeto_so.Base.{
  ℕ, zero, suc, ◌+◌, ◌%◌, ◌^◌, ◌<◌, ◌≤◌, ◌≡◌, ◌≢◌, refl, sym, subst, ap, ◌∙◌, arith, Bool, ◌&&◌,
  true, false, not, List, [], ◌∷◌, ◌++◌, ◌==◌, ==_false, if◌then◌else◌, append-nil, append_assoc,
  length, length-append, codes, bit_and, none, some, Bool-cases, inl, inr,
}
use projeto_so.Io.{Run, received, zoom, cli, sti, pure, ◌>>=◌, ◌>>◌, inb}
use projeto_so.Io.Traffic.{Tail, whole, past, Tail-trans, sent_on}
use projeto_so.Io.Returns.{
  Returns, returns, Returns-eq, Returns-mono, >>=-run, >>=-Returns, pure-Returns, zoom-run,
}
use projeto_so.Serial.{uart_data, uart_line_stat, serial_rx_ready}
use projeto_so.Serial.Ready.{ready_count}
use projeto_so.Deadlock.{World}
use projeto_so.Deadlock.Transcript.{log_of, ready_of}
use projeto_so.Chat.{line_max, Chat, Kernel, on_chat, on_cpu, kbd_pop}
use projeto_so.Chat.Poll.{kbd_process_char, kbd_enter, enqueue_all, kbd_loop, ser_loop, chat_poll}
use projeto_so.Chat.Queue.{Holds, enqueue, chat_kbd_enqueue-Holds, kbd_pop-Holds}
use projeto_so.Chat.Editor.{Typed, edit}
use projeto_so.Chat.Message.{backspace_key, kbd_process_char-edit}
use projeto_so.Chat.Outcome.{reply, transfers_of, Freezes, unmoved, Sent, Sent-trans}

-- What keys send, on a line that holds `t`, and the text that they leave in it.
abbrev pub sends : (keys t : List ℕ) → List ℕ
sends [] t = []
sends (c ∷ keys) t =
    if c == b'\n'
    then reply (codes "vga") t ++ sends keys []
    else sends keys (edit backspace_key c t)

abbrev pub leaves : (keys t : List ℕ) → List ℕ
leaves [] t = t
leaves (c ∷ keys) t = if c == b'\n' then leaves keys [] else leaves keys (edit backspace_key c t)

-- How many transfers the lines make that are ended.
abbrev pub transfers : (keys t : List ℕ) → ℕ
transfers [] t = 0
transfers (c ∷ keys) t =
    if c == b'\n'
    then transfers_of t + transfers keys []
    else transfers keys (edit backspace_key c t)

-- No line that is ended is `/deadlock`.
abbrev pub NoFreeze : (keys t : List ℕ) → Type 0
NoFreeze [] t = Unit
NoFreeze (c ∷ keys) t =
    if c == b'\n' then (¬ Freezes t) × NoFreeze keys [] else NoFreeze keys (edit backspace_key c t)

-- The queue after the interrupts that bring `bytes`.
abbrev pub brings : (bytes q : List ℕ) → List ℕ
brings [] q = q
brings (b ∷ bytes) q = brings bytes (enqueue b q)

-- The oldest byte of a queue, and what comes of the rest.
abbrev pub each : (q : List ℕ) → (List ℕ → List ℕ) → List ℕ
each [] next = []
each (c ∷ q) next = c ∷ next q

-- The bytes that the loop takes out, before it finds the queue empty: `arrivals` come in before
-- each of its rounds.
abbrev pub taken : (q : List ℕ) (arrivals : List (List ℕ)) → List ℕ
taken q [] = q
taken q (bytes ∷ arrivals) = each (brings bytes q) (λ q'. taken q' arrivals)

-- From `k` the keyboard's line has come to `t`, `text` was sent, and `n` transfers were made.
pub record Typing (n : ℕ) (t text : List ℕ) (k k' : Kernel) : Type 0 where
  pub typed : Typed t k'.chat.kbd
  pub ser_same : k'.chat.ser ≡ k.chat.ser
  pub sent : Sent n text k.world k'.world

pub enqueue_all-Holds :
    (bytes q : List ℕ) (c : Chat)
    → Holds c.ring q
    → Holds (enqueue_all bytes c).ring (brings bytes q)
enqueue_all-Holds [] q c h = h
enqueue_all-Holds (b ∷ bytes) q c h =
    enqueue_all-Holds bytes (enqueue b q) _ (chat_kbd_enqueue-Holds b c.ring q h)

pub enqueue_all-lines :
    (bytes : List ℕ) (c : Chat)
    → ((enqueue_all bytes c).kbd ≡ c.kbd) × ((enqueue_all bytes c).ser ≡ c.ser)
enqueue_all-lines [] c = (refl, refl)
enqueue_all-lines (b ∷ bytes) c = enqueue_all-lines bytes _

pub Typing-trans :
    {m n : ℕ} {t t' r s : List ℕ} {k k₁ k₂ : Kernel}
    → Typing m t r k k₁
    → Typing n t' s k₁ k₂
    → Typing (m + n) t' (r ++ s) k k₂
Typing-trans p q = record {
  typed = q.typed;
  ser_same = q.ser_same ∙ p.ser_same;
  sent = Sent-trans p.sent q.sent;
}

-- A stretch that sends nothing counts for nothing.
pub Typing-silent :
    {n : ℕ} {t t' s : List ℕ} {k k₁ k₂ : Kernel}
    → Typing 0 t [] k k₁
    → Typing n t' s k₁ k₂
    → Typing n t' s k k₂
Typing-silent {n} p q = let e : 0 + n ≡ n = omega arith in rw e at (Typing-trans p q)

pub popped :
    (k k₁ : Kernel) (t : List ℕ)
    → Typed t k.chat.kbd
    → k₁.world.screen.bus.trace ≡ sti ∷ cli ∷ k.world.screen.bus.trace
    → k₁.world.screen.bus.inputs ≡ k.world.screen.bus.inputs
    → k₁.chat.kbd ≡ k.chat.kbd
    → k₁.chat.ser ≡ k.chat.ser
    → k₁.world.files ≡ k.world.files
    → Typing 0 t [] k k₁
popped k k₁ t typed trace inputs kbd ser files = record {
  typed = rw kbd typed;
  ser_same = ser;
  sent = record {
    moved = unmoved files;
    logged = ap (sent_on uart_data) trace ∙ sym (append-nil (log_of k.world));
    spent = omega (arith, ap ready_count inputs);
    left_over = rw inputs whole;
  };
}
