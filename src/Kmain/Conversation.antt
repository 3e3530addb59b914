-- ===== src/Kmain/Conversation.antt =====
-- The loop of `kmain` over `chat_poll`: both users at work, over any number of its rounds.
use projeto_so.Base.{
  ℕ, ◌+◌, ◌<◌, ◌≤◌, ◌≡◌, refl, sym, ap, ◌∙◌, arith, List, [], ◌∷◌, ◌++◌, append-nil, append_assoc,
  bytes, length, some,
}
use projeto_so.Io.{zoom, ◌>>=◌}
use projeto_so.Io.Returns.{returns}
use projeto_so.Serial.Ready.{idle}
use projeto_so.Deadlock.Transcript.{log_of}
use projeto_so.Chat.{line_max, Kernel}
use projeto_so.Chat.Poll.{chat_poll}
use projeto_so.Chat.Queue.{Holds}
use projeto_so.Chat.Editor.{Typed}
use projeto_so.Chat.Outcome.{CanTransfer, CanTransfer-Moved, unmoved, Moved-trans}
use projeto_so.Chat.Session.{sends, leaves, transfers, NoFreeze, taken}
use projeto_so.Chat.SerialSession.{answers_to, left_in_line, serial_transfers, NoSerialFreeze}
use projeto_so.Chat.SerialLoop.{port_answers}
use projeto_so.Chat.Served.{Served, chat_poll-Served}
use projeto_so.Kmain.{Machine, bus_of, poll}

-- A round: the bytes that the keyboard's interrupts bring before each round of its loop, and those
-- that come on the serial line.
pub record Turn : Type 0 where
  pub arrivals : List (List ℕ)
  pub input : List ℕ

abbrev pub keys_of : Turn → List ℕ
keys_of r = taken [] r.arrivals

-- What goes out in a round, on lines that hold `t` and `s`, and the transfers that it makes.
abbrev pub round_text : (r : Turn) (t s : List ℕ) → List ℕ
round_text r t s = sends (keys_of r) t ++ answers_to (bytes r.input) s

abbrev pub round_transfers : (r : Turn) (t s : List ℕ) → ℕ
round_transfers r t s = transfers (keys_of r) t + serial_transfers (bytes r.input) s

-- The same for several rounds, and the texts that they leave in the lines.
abbrev pub talk_text : (rs : List Turn) (t s : List ℕ) → List ℕ
talk_text [] t s = []
talk_text (r ∷ rs) t s =
    round_text r t s ++ talk_text rs (leaves (keys_of r) t) (left_in_line (bytes r.input) s)

abbrev pub talk_transfers : (rs : List Turn) (t s : List ℕ) → ℕ
talk_transfers [] t s = 0
talk_transfers (r ∷ rs) t s =
    round_transfers r t s
    + talk_transfers rs (leaves (keys_of r) t) (left_in_line (bytes r.input) s)

abbrev pub kbd_after : (rs : List Turn) (t : List ℕ) → List ℕ
kbd_after [] t = t
kbd_after (r ∷ rs) t = kbd_after rs (leaves (keys_of r) t)

abbrev pub ser_after : (rs : List Turn) (s : List ℕ) → List ℕ
ser_after [] s = s
ser_after (r ∷ rs) s = ser_after rs (left_in_line (bytes r.input) s)

-- No line that is ended is `/deadlock`, and the keyboard's loop is followed for `n` rounds, which is
-- more than there are keys.
abbrev pub Harmless : (n : ℕ) (rs : List Turn) (t s : List ℕ) → Type 0
Harmless n [] t s = Unit
Harmless n (r ∷ rs) t s =
    (NoFreeze (keys_of r) t × NoSerialFreeze (bytes r.input) s × (length (keys_of r) < n))
    × Harmless n rs (leaves (keys_of r) t) (left_in_line (bytes r.input) s)

-- The answers of a port that is always ready to send and brings the bytes of each round in it.
abbrev pub port_talk : (rs : List Turn) (t s later : List ℕ) → List ℕ
port_talk [] t s later = later
port_talk (r ∷ rs) t s later = idle (length (sends (keys_of r) t)) (
    port_answers r.input s
      (port_talk rs (leaves (keys_of r) t) (left_in_line (bytes r.input) s) later))

abbrev pub arrivals_of : List Turn → List (List (List ℕ)) → List (List (List ℕ))
arrivals_of [] more = more
arrivals_of (r ∷ rs) more = r.arrivals ∷ arrivals_of rs more

Served-trans :
    {m n : ℕ} {t s r t' s' r' next later : List ℕ} {k k₁ k₂ : Kernel}
    → Served m t s r next k k₁
    → Served n t' s' r' later k₁ k₂
    → Served (m + n) t' s' (r ++ r') later k k₂
Served-trans {r = r} {r' = r'} {k = k} p q = record {
  kbd_typed = q.kbd_typed;
  ser_typed = q.ser_typed;
  ring = q.ring;
  moved = Moved-trans p.moved q.moved;
  logged = q.logged ∙ ap (λ l. l ++ r') p.logged ∙ append_assoc (log_of k.world) r r';
  inputs_are = q.inputs_are;
}

module _ (stack buf : List ℕ) (rounds n : ℕ) (room : line_max + 16 ≤ length buf)
    (later : List ℕ) where
  -- Both users at work over any number of rounds of the loop: from an empty ring and lines that hold
  -- `t` and `s`, let no line that they end be `/deadlock`, let a transfer be possible if one is
  -- `/transferir`, let the array of the chat have 136 bytes, let the keyboard's loop be followed for
  -- a round more than there are keys in a round, and let the port be always ready to send and bring
  -- the bytes of each round in it. Then the loop gets through all these rounds, and goes on
  -- with any others from the state that it has then got to. What was sent is, round by round, what the keyboard's lines send and then what goes back
  -- and out for the bytes of the serial line; the files were exchanged once for each transfer; each
  -- line holds what was typed since its last Enter; the ring is empty, the port has been read just
  -- up to `later`; and the bitmap and the tables are as before.
  pub poll-Served :
      (rs : List Turn) (m : Machine) (t s : List ℕ)
      → Holds m.kernel.chat.ring []
      → Typed t m.kernel.chat.kbd
      → Typed s m.kernel.chat.ser
      → Harmless n rs t s
      → (0 < talk_transfers rs t s → CanTransfer stack rounds m.kernel.world.files)
      → (bus_of m).inputs ≡ port_talk rs t s later
      → (k : Kernel) × Served
          (talk_transfers rs t s)
          (kbd_after rs t)
          (ser_after rs s)
          (talk_text rs t s)
          later
          m.kernel
          k
        × (poll stack buf rounds n (arrivals_of rs []) m ≡ some (tt, record m { kernel = k }))
        × ((more : List (List (List ℕ)))
            → poll stack buf rounds n (arrivals_of rs more) m
              ≡ poll stack buf rounds n more (record m { kernel = k }))
  unfolding poll
  poll-Served [] m t s ring kbd ser fine can inputs = (
    m.kernel,
    record {
      kbd_typed = kbd;
      ser_typed = ser;
      ring = ring;
      moved = unmoved refl;
      logged = sym (append-nil (log_of m.kernel.world));
      inputs_are = inputs;
    },
    refl,
    λ more. refl,
  )
  poll-Served (r ∷ rs) m t s ring kbd ser ((fine, fine', fuel), others) can inputs =
      elim (chat_poll-Served stack buf rounds room n r.arrivals m.kernel [] t r.input s
        (port_talk rs (leaves (keys_of r) t) (left_in_line (bytes r.input) s) later) ring kbd ser
        fine fine' (λ some. can (omega (arith, some))) fuel inputs) [
          | returns _ k₁ runs p ↦
              let (k, q, ends, goes_on) =
                poll-Served rs (record m { kernel = k₁ }) (leaves (keys_of r) t)
                  (left_in_line (bytes r.input) s) p.ring p.kbd_typed p.ser_typed others
                  (λ some. CanTransfer-Moved p.moved (can (omega (arith, some)))) p.inputs_are in
              (
                k,
                Served-trans p q,
                one_round [] r.arrivals runs ∙ ends,
                λ more. one_round more r.arrivals runs ∙ goes_on more,
              )
        ]
    where
      one_round :
          (more : List (List (List ℕ))) (arrivals : List (List ℕ)) {k₁ : Kernel}
          → chat_poll stack buf rounds n arrivals m.kernel ≡ some (tt, k₁)
          → poll stack buf rounds n (arrivals ∷ arrivals_of rs more) m
            ≡ poll stack buf rounds n (arrivals_of rs more) (record m { kernel = k₁ })
      one_round more arrivals e = rw (e, ◌>>=◌, zoom) refl
