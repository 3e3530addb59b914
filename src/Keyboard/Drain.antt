-- ===== src/Keyboard/Drain.antt =====
-- The keys that the controller holds come into the ring of the chat, in order.
use projeto_so.Base.{
  ℕ, zero, suc, ◌*◌, length-append, ◌<◌, ◌≡◌, refl, ◌∙◌, arith, Bool, true, false, not, ◌&&◌,
  Option, none, some, List, [], ◌∷◌, ◌++◌, bit_and, ◌==◌, if◌then◌else◌, get_or, length, u8,
  Bool-cases, inl, inr,
}
use projeto_so.Io.{inb}
use projeto_so.Io.Returns.{
  Returns, returns, >>=-Returns, Returns-mono, Returns-eq, pure-Returns, zoom-Returns,
}
use projeto_so.Io.Traffic.{writes, inb-Returns}
use projeto_so.Framebuffer.{Screen}
use projeto_so.Deadlock.{World}
use projeto_so.Chat.{Kernel, on_cpu, on_chat}
use projeto_so.Chat.Queue.{Holds, enqueue, chat_kbd_enqueue-Holds}
use projeto_so.Keyboard.{
  scancode_to_ascii, read_scan_code, handle_scan_code, enqueue_key, one_key, kbd_data_port, drain,
  keyboard_handler,
}

-- The status says that a scan code waits.
abbrev pub waits : ℕ → Bool
waits status = not (bit_and (u8 status) 0x01 == 0)

-- What the controller answers: while scan codes wait, a status and then the code.
abbrev pub answers : List (ℕ × ℕ) → List ℕ
answers [] = []
answers ((status, code) ∷ keys) = status ∷ code ∷ answers keys

abbrev pub all_wait : List (ℕ × ℕ) → Bool
all_wait [] = true
all_wait ((status, code) ∷ keys) = waits status && all_wait keys

length-answers : (keys : List (ℕ × ℕ)) → length (answers keys) ≡ 2 * length keys
length-answers [] = refl
length-answers ((status, code) ∷ keys) = omega (arith, length-answers keys)

-- The character of a scan code: none for a key that is let go, and for one that has none.
abbrev pub character : ℕ → Option ℕ
character code =
    if bit_and code 0x80 == 0
    then (if code == 0x0E
        then some 0x08
        else if get_or scancode_to_ascii code 0 == 0
        then none
        else some (get_or scancode_to_ascii code 0))
    else none

abbrev pub enqueue_some : Option ℕ → List ℕ → List ℕ
enqueue_some none q = q
enqueue_some (some c) q = enqueue c q

-- The queue after the keys.
abbrev pub typed : List (ℕ × ℕ) → List ℕ → List ℕ
typed [] q = q
typed ((status, code) ∷ keys) q = typed keys (enqueue_some (character (u8 code)) q)

-- The ring holds `q`, the answers `later` are left, and beside the ring and the bus nothing has
-- changed; nothing was sent.
pub record Drained (q later : List ℕ) (k k' : Kernel) : Type 0 where
  pub ring : Holds k'.chat.ring q
  pub left : k'.world.screen.bus.inputs ≡ later
  pub nothing_sent : writes k'.world.screen.bus.trace ≡ writes k.world.screen.bus.trace
  pub kbd_same : k'.chat.kbd ≡ k.chat.kbd
  pub ser_same : k'.chat.ser ≡ k.chat.ser
  pub console_same : k'.world.screen.console ≡ k.world.screen.console
  pub files_same : k'.world.files ≡ k.world.files

Drained-trans :
    {q q' later later' : List ℕ} {a b c : Kernel}
    → Drained q later a b
    → Drained q' later' b c
    → Drained q' later' a c
Drained-trans p r = record {
  ring = r.ring;
  left = r.left;
  nothing_sent = r.nothing_sent ∙ p.nothing_sent;
  kbd_same = r.kbd_same ∙ p.kbd_same;
  ser_same = r.ser_same ∙ p.ser_same;
  console_same = r.console_same ∙ p.console_same;
  files_same = r.files_same ∙ p.files_same;
}

pub Drained-start :
    {q : List ℕ} {k : Kernel} → Holds k.chat.ring q → Drained q k.world.screen.bus.inputs k k
Drained-start h = record {
  ring = h;
  left = refl;
  nothing_sent = refl;
  kbd_same = refl;
  ser_same = refl;
  console_same = refl;
  files_same = refl;
}

-- A read takes one answer.
read-Drained :
    (port : ℕ) (v : ℕ) (vs q : List ℕ) (k : Kernel)
    → k.world.screen.bus.inputs ≡ v ∷ vs
    → Holds k.chat.ring q
    → Returns (on_cpu (inb port)) k (λ a k'. (a ≡ u8 v) × Drained q vs k k')
read-Drained port v vs q k e h =
    zoom-Returns (λ (v : Kernel). v.world) (λ v w. record v { world = w })
      {P = λ a w. (a ≡ u8 v) × Drained q vs k (record k { world = w })}
      (zoom-Returns (λ (w : World). w.screen) (λ w s. record w { screen = s })
        {P = λ a s.
          (a ≡ u8 v) × Drained q vs k (record k { world = record k.world { screen = s } })}
        (zoom-Returns (λ (s : Screen). s.bus) (λ s b. record s { bus = b })
          (inb-Returns port v vs k.world.screen.bus e)
          (λ a b (same, inputs, sent). (
            same,
            record {
              ring = h;
              left = inputs;
              nothing_sent = sent;
              kbd_same = refl;
              ser_same = refl;
              console_same = refl;
              files_same = refl;
            },
          )))
        (λ a s p. p))
      (λ a w p. p)

enqueue_key-Drained :
    (c : ℕ) (k : Kernel) (q : List ℕ)
    → Holds k.chat.ring q
    → Returns (enqueue_key c) k (λ _ k'. Drained (enqueue c q) k.world.screen.bus.inputs k k')
unfolding on_chat
enqueue_key-Drained c k q h = returns tt _ refl (record {
  ring = chat_kbd_enqueue-Holds c k.chat.ring q h;
  left = refl;
  nothing_sent = refl;
  kbd_same = refl;
  ser_same = refl;
  console_same = refl;
  files_same = refl;
})

handle_scan_code-Drained :
    (code : ℕ) (k : Kernel) (q : List ℕ)
    → Holds k.chat.ring q
    → Returns
        (handle_scan_code code)
        k
        (λ _ k'. Drained (enqueue_some (character code) q) k.world.screen.bus.inputs k k')
unfolding handle_scan_code
handle_scan_code-Drained code k q h = elim (Bool-cases (bit_and code 0x80 == 0)) [
  | inr released ↦ rw released (pure-Returns (Drained-start h))
  | inl pressed ↦ rw pressed (elim (Bool-cases (code == 0x0E)) [
    | inl erase ↦ rw erase (enqueue_key-Drained 0x08 k q h)
    | inr other ↦ rw other (elim (Bool-cases (get_or scancode_to_ascii code 0 == 0)) [
      | inl none_there ↦ rw none_there (pure-Returns (Drained-start h))
      | inr shown ↦ rw shown (enqueue_key-Drained (get_or scancode_to_ascii code 0) k q h)
    ])
  ])
]

one_key-Drained :
    (code : ℕ) (vs q : List ℕ) (k : Kernel)
    → k.world.screen.bus.inputs ≡ code ∷ vs
    → Holds k.chat.ring q
    → Returns one_key k (λ _ k'. Drained (enqueue_some (character (u8 code)) q) vs k k')
unfolding one_key read_scan_code
one_key-Drained code vs q k e h =
    >>=-Returns handle_scan_code (read-Drained kbd_data_port code vs q k e h) (λ a k₁ (same, d).
      rw same (
        Returns-mono (handle_scan_code-Drained (u8 code) k₁ q d.ring)
          (λ _ k₂ d₂. rw d.left at (Drained-trans d d₂))))

drain-Drained :
    (rounds : ℕ) (keys : List (ℕ × ℕ)) (last : ℕ) (later : List ℕ) (k : Kernel) (q : List ℕ)
    → length keys < rounds
    → all_wait keys ≡ true
    → waits last ≡ false
    → k.world.screen.bus.inputs ≡ answers keys ++ last ∷ later
    → Holds k.chat.ring q
    → Returns (drain rounds) k (λ _ k'. Drained (typed keys q) later k k')
unfolding drain
drain-Drained zero keys last later k q enough wait stop e h = absurd (omega arith)
drain-Drained (suc rounds) [] last later k q enough wait stop e h =
    >>=-Returns _ (read-Drained 0x64 last later q k e h)
      (λ a k₁ (same, d). rw (same, ended) (pure-Returns d))
  where
    ended : (bit_and (u8 last) 0x01 == 0) ≡ true
    ended = ground (arith, stop)
drain-Drained (suc rounds) ((status, code) ∷ keys) last later k q enough wait stop e h =
    >>=-Returns _ (read-Drained 0x64 status (code ∷ answers keys ++ last ∷ later) q k e h)
      (λ a k₁ (same, d).
        rw (same, waiting)
          (>>=-Returns (λ _. drain rounds)
            (one_key-Drained code (answers keys ++ last ∷ later) q k₁ d.left d.ring)
            (λ _ k₂ d₂.
              Returns-mono
                (drain-Drained rounds keys last later k₂ (enqueue_some (character (u8 code)) q)
                  (omega arith) rest_wait stop d₂.left d₂.ring)
                (λ _ k₃ d₃. Drained-trans d (Drained-trans d₂ d₃)))))
  where
    waiting : (bit_and (u8 status) 0x01 == 0) ≡ false
    waiting = ground (arith, wait)

    rest_wait : all_wait keys ≡ true
    rest_wait = ground (arith, wait)

-- While the controller says that scan codes wait, `keyboard_handler` takes them, and it returns
-- when the controller says that none does: the ring then holds the queue of before with the
-- characters of the keys pressed at its end, in order, as far as they fit; all the answers up to
-- that one are used up, nothing was sent, and the lines, the console and the files are as before.
pub keyboard_handler-Drained :
    (keys : List (ℕ × ℕ)) (last : ℕ) (later : List ℕ) (k : Kernel) (q : List ℕ)
    → all_wait keys ≡ true
    → waits last ≡ false
    → k.world.screen.bus.inputs ≡ answers keys ++ last ∷ later
    → Holds k.chat.ring q
    → Returns keyboard_handler k (λ _ k'. Drained (typed keys q) later k k')
unfolding keyboard_handler
keyboard_handler-Drained keys last later k q wait stop e h =
    Returns-eq {n = drain (suc (length k.world.screen.bus.inputs))} refl (
      drain-Drained (suc (length k.world.screen.bus.inputs)) keys last later k q
        (rw e (omega (arith, length-answers keys, length-append (answers keys) (last ∷ later))))
        wait stop e h)
