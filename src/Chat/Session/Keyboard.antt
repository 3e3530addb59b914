-- ===== src/Chat/Session/Keyboard.antt =====
-- The keyboard's loop of `chat_poll`, with the interrupts that come between its rounds.
use projeto_so.Base.{
  ℕ, zero, suc, ◌+◌, ◌<◌, ◌≤◌, ◌≡◌, refl, sym, subst, ap, ◌∙◌, arith, List, [], ◌∷◌, ◌++◌, ◌==◌,
  append-nil, length, length-append, codes, none, some, Bool-cases, inl, inr,
}
use projeto_so.Io.{Run, pure, ◌>>=◌, ◌>>◌}
use projeto_so.Io.Traffic.{whole}
use projeto_so.Io.Returns.{Returns, returns, Returns-eq, Returns-mono, >>=-Returns, pure-Returns}
use projeto_so.Serial.Ready.{ready_count}
use projeto_so.Deadlock.Transcript.{log_of, ready_of}
use projeto_so.Chat.{line_max, Kernel, on_chat, kbd_pop}
use projeto_so.Chat.Poll.{kbd_process_char, kbd_enter, enqueue_all, kbd_loop}
use projeto_so.Chat.Queue.{Holds, kbd_pop-Holds}
use projeto_so.Chat.Editor.{Typed, edit}
use projeto_so.Chat.Message.{backspace_key, kbd_process_char-edit}
use projeto_so.Chat.Outcome.{reply, transfers_of, Freezes, unmoved, CanTransfer, CanTransfer-Moved}
use projeto_so.Chat.EnterKey.{kbd_enter-KbdEnded}
use projeto_so.Chat.Session.{
  sends, leaves, NoFreeze, transfers, brings, each, taken, Typing, Typing-trans, Typing-silent,
  popped, enqueue_all-Holds, enqueue_all-lines,
}

module _ (stack buf : List ℕ) (rounds : ℕ) (room : line_max + 16 ≤ length buf) where
  -- On a ring that holds `q`, the code handles `keys` and leaves the ring empty.
  abbrev pub Handles : Run Kernel (Unit {0}) → (q keys : List ℕ) → Type 0
  Handles m q keys =
      (k : Kernel) (t : List ℕ)
      → Holds k.chat.ring q
      → Typed t k.chat.kbd
      → NoFreeze keys t
      → (0 < transfers keys t → CanTransfer stack rounds k.world.files)
      → length (sends keys t) ≤ ready_of k.world
      → Returns m k (λ _ k'.
        Typing (transfers keys t) (leaves keys t) (sends keys t) k k' × Holds k'.chat.ring [])

  -- What one key does, and what is left for the keys after it.
  record Stepped (c : ℕ) (keys t : List ℕ) (k k' : Kernel) : Type 0 where
    pub now : ℕ
    pub line : List ℕ
    pub text : List ℕ
    pub typing : Typing now line text k k'
    pub ring_same : k'.chat.ring ≡ k.chat.ring
    pub fine : NoFreeze keys line
    pub counted : transfers (c ∷ keys) t ≡ now + transfers keys line
    pub sent : sends (c ∷ keys) t ≡ text ++ sends keys line
    pub left : leaves (c ∷ keys) t ≡ leaves keys line

  key-Stepped :
      (c : ℕ) (keys : List ℕ) (k : Kernel) (t : List ℕ)
      → Typed t k.chat.kbd
      → NoFreeze (c ∷ keys) t
      → (0 < transfers (c ∷ keys) t → CanTransfer stack rounds k.world.files)
      → length (sends (c ∷ keys) t) ≤ ready_of k.world
      → Returns (kbd_process_char stack buf rounds c) k (λ _ k'. Stepped c keys t k k')
  unfolding kbd_process_char
  key-Stepped c keys k t typed fine can enough = elim (Bool-cases (c == b'\n')) [
    | inl end ↦
        let (other, later) : (¬ Freezes t) × NoFreeze keys [] = rw end at fine in
        Returns-mono
          (Returns-eq {n = kbd_enter stack buf rounds} (rw end refl) (
            kbd_enter-KbdEnded stack buf rounds room k t other
              (λ some. (rw end at can) (omega (arith, some))) typed
              (omega (
                arith,
                (rw end at enough),
                length-append (reply (codes "vga") t) (sends keys []),
              ))))
          (λ _ k' e. record {
            now = transfers_of t;
            line = [];
            text = reply (codes "vga") t;
            typing = record { typed = e.typed; ser_same = e.ser_same; sent = e.sent };
            ring_same = e.ring_same;
            fine = later;
            counted = rw end refl;
            sent = rw end refl;
            left = rw end refl;
          })
    | inr key ↦
        Returns-mono
          (kbd_process_char-edit stack buf rounds c k t (λ same. absurd (ground (arith, key, same)))
            typed)
          (λ _ k' e. record {
            now = 0;
            line = edit backspace_key c t;
            text = [];
            typing = record {
              typed = e.typed;
              ser_same = e.ser_same;
              sent = record {
                moved = unmoved e.files_same;
                logged = e.log_same ∙ sym (append-nil (log_of k.world));
                spent = omega (arith, ap ready_count (e.inputs_same));
                left_over = rw (e.inputs_same) whole;
              };
            };
            ring_same = e.ring_same;
            fine = rw key at fine;
            counted = rw key (omega arith);
            sent = rw key refl;
            left = rw key refl;
          })
  ]

  -- A round of the loop that finds what `kbd_pop` gives, and what comes after.
  abbrev round : Run Kernel (Unit {0}) → Run Kernel (Unit {0})
  round after = do
    c ← kbd_pop
    elim c [ none ↦ pure tt | some b ↦ kbd_process_char stack buf rounds b >> after ]

  round-empty : (after : Run Kernel (Unit {0})) → Handles (round after) [] []
  round-empty after k t h typed fine can enough =
      >>=-Returns _ (kbd_pop-Holds k [] h) (λ c k₁ (got, ring, trace, inputs, kbd, ser, files).
        rw got (pure-Returns (popped k k₁ t typed trace inputs kbd ser files, ring)))

  round-key :
      (after : Run Kernel (Unit {0})) (b : ℕ) (q keys : List ℕ)
      → Handles after q keys
      → Handles (round after) (b ∷ q) (b ∷ keys)
  round-key after b q keys next k t h typed fine can enough =
      >>=-Returns _ (kbd_pop-Holds k (b ∷ q) h) (λ c k₁ (got, ring, trace, inputs, kbd, ser, files).
        let p₁ = popped k k₁ t typed trace inputs kbd ser files in
        rw got (
          >>=-Returns (λ _. after)
            (key-Stepped b keys k₁ t p₁.typed fine
              (λ some. CanTransfer-Moved p₁.sent.moved (can some))
              (omega (arith, ap ready_count inputs, enough)))
            (λ _ k₂ s.
              Returns-mono
                (next k₂ s.line (rw (s.ring_same) ring) s.typing.typed s.fine
                  (λ some.
                    CanTransfer-Moved s.typing.sent.moved
                      (CanTransfer-Moved p₁.sent.moved (can (omega (arith, s.counted, some)))))
                  (omega (
                    arith,
                    ap ready_count inputs,
                    s.typing.sent.spent,
                    enough,
                    ap length s.sent,
                    length-append s.text (sends keys s.line),
                  )))
                (λ _ k₃ (p₃, empty). (
                  rw (s.counted, s.sent, s.left) (Typing-silent p₁ (Typing-trans s.typing p₃)),
                  empty,
                )))))

  -- The interrupts before a round.
  arrivals-Handles :
      (m : Run Kernel (Unit {0})) (bytes q keys : List ℕ)
      → Handles m (brings bytes q) keys
      → Handles (on_chat (enqueue_all bytes) >> m) q keys
  unfolding on_chat
  arrivals-Handles m bytes q keys next k t h typed fine can enough =
      let (kbd, ser) = enqueue_all-lines bytes k.chat in
      >>=-Returns (λ _. m) (brought k)
        (λ _ k₁ e.
          Returns-mono
            (next k₁ t (rw e (enqueue_all-Holds bytes q k.chat h)) (rw (e, kbd) typed) fine
              (rw e can) (rw e enough))
            (λ _ k' (p, empty). (
              record { typed = p.typed; ser_same = p.ser_same ∙ rw e ser; sent = rw e at (p.sent) },
              empty,
            )))
    where
      brought :
          (k : Kernel)
          → Returns
              (on_chat (enqueue_all bytes))
              k
              (λ _ k₁. k₁ ≡ record k { chat = enqueue_all bytes k.chat })
      brought k = returns tt (record k { chat = enqueue_all bytes k.chat }) refl refl

  round-Handles :
      (after : Run Kernel (Unit {0})) (next : List ℕ → List ℕ) (q : List ℕ)
      → ((q' : List ℕ) → length (next q') < length (each q next) → Handles after q' (next q'))
      → Handles (round after) q (each q next)
  round-Handles after next [] handles = round-empty after
  round-Handles after next (c ∷ q) handles = round-key after c q (next q) (handles q (omega arith))

  each-all : (q : List ℕ) → each q (λ q'. q') ≡ q
  each-all [] = refl
  each-all (c ∷ q) = refl

  -- The keyboard's loop, with `arrivals` before its rounds.
  pub kbd_loop-Handles :
      (n : ℕ) (arrivals : List (List ℕ)) (q : List ℕ)
      → length (taken q arrivals) < n
      → Handles (kbd_loop stack buf rounds n arrivals) q (taken q arrivals)
  unfolding kbd_loop
  kbd_loop-Handles zero arrivals q fuel = absurd (omega arith)
  kbd_loop-Handles (suc n) [] q fuel =
      subst (λ keys. Handles (kbd_loop stack buf rounds (suc n) []) q keys) (each-all q)
        (round-Handles (kbd_loop stack buf rounds n []) (λ q'. q') q
          (λ q' shorter.
            kbd_loop-Handles n [] q' (omega (arith, shorter, fuel, ap length (each-all q)))))
  kbd_loop-Handles (suc n) (bytes ∷ arrivals) q fuel =
      arrivals-Handles (round (kbd_loop stack buf rounds n arrivals)) bytes q
        (each (brings bytes q) (λ q'. taken q' arrivals))
        (round-Handles (kbd_loop stack buf rounds n arrivals) (λ q'. taken q' arrivals)
          (brings bytes q)
          (λ q' shorter. kbd_loop-Handles n arrivals q' (omega (arith, shorter, fuel))))
