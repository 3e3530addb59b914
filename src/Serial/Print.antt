-- ===== src/Serial/Print.antt =====
-- What `serial_print` sends, and when it returns.
use projeto_so.Base.{
  ℕ, suc, ◌+◌, ◌%◌, ◌^◌, ◌≤◌, ◌<◌, ◌≡◌, refl, List, [], ◌∷◌, ◌++◌, none, ◌==◌, length, arith,
  Bool-cases, inl, inr, append-nil, append_assoc, until_nul, bytes, ap, ◌∙◌, map-append,
  length-append, dec_lt,
}
use projeto_so.Io.{sent, Bus, outb}
use projeto_so.Io.Returns.{
  Returns, returns, >>=-run, >>=-none, >>=-Returns, pure-Returns, Returns-mono,
}
use projeto_so.Io.Traffic.{sent_on, Busy, still, then_sent, Busy-trans, Tail, whole, Tail-trans}
use projeto_so.Serial.{uart_data, wait_transmit, serial_write_char, serial_print}
use projeto_so.Serial.Ready.{ready_count, wait_transmit-Waited, wait_transmit-none}

-- `text` went out on the port, a byte for each answer that showed it ready.
pub record Printed (text : List ℕ) (b b' : Bus) : Type 0 where
  pub sent_text : sent_on uart_data b'.trace ≡ sent_on uart_data b.trace ++ bytes text
  pub used : ready_count b'.inputs + length text ≡ ready_count b.inputs
  pub busy : Busy b.trace b'.trace
  pub left_over : Tail b.inputs b'.inputs

pub serial_write_char-Printed :
    (c : ℕ) (b : Bus)
    → 0 < ready_count b.inputs
    → Returns (serial_write_char c) b (λ _ b'. Printed (c ∷ []) b b')
unfolding serial_write_char outb
serial_write_char-Printed c b r =
    elim (wait_transmit-Waited (suc (length b.inputs)) b.inputs b.trace (omega arith) r) [
      | returns _ w runs waited ↦
          returns tt (record w { trace = sent uart_data (c % 2 ^ 8) ∷ w.trace })
            (>>=-run (wait_transmit (suc (length b.inputs))) _ runs)
            (record {
              sent_text = ap (λ t. t ++ (c % 2 ^ 8) ∷ []) waited.sent_same;
              used = waited.used_one;
              busy = then_sent _ _ refl waited.busy;
              left_over = waited.left_over;
            })
    ]

pub serial_write_char-none :
    (c : ℕ) (b : Bus) → ready_count b.inputs ≡ 0 → serial_write_char c b ≡ none
unfolding serial_write_char
serial_write_char-none c b r =
    >>=-none (wait_transmit (suc (length b.inputs))) _
      (wait_transmit-none (suc (length b.inputs)) b.inputs b.trace r)

pub Printed-trans :
    {s t : List ℕ} {b b' b'' : Bus} → Printed s b b' → Printed t b' b'' → Printed (s ++ t) b b''
Printed-trans {s} {t} p q = record {
  sent_text = rw (q.sent_text, p.sent_text, append_assoc, map-append) refl;
  used = omega (arith, length-append s t, p.used, q.used);
  busy = Busy-trans p.busy q.busy;
  left_over = Tail-trans p.left_over q.left_over;
}

pub Printed-nil : (b : Bus) → Printed [] b b
Printed-nil b = record {
  sent_text = rw append-nil refl;
  used = omega arith;
  busy = still;
  left_over = whole;
}

-- With enough answers that show the port ready, `serial_print` returns; it has then sent the text
-- of the string, byte by byte in order, and used one such answer for each byte.
pub serial_print_returns :
    (mensagem : List ℕ) (b : Bus)
    → length (until_nul mensagem) ≤ ready_count b.inputs
    → Returns (serial_print mensagem) b (λ _ b'. Printed (until_nul mensagem) b b')
unfolding serial_print
serial_print_returns [] b r = pure-Returns (Printed-nil b)
serial_print_returns (c ∷ mensagem) b r = elim (Bool-cases (c == 0)) [
  | inl end ↦ rw end (pure-Returns (Printed-nil b))
  | inr more ↦ rw more (
      >>=-Returns (λ _. serial_print mensagem)
        (serial_write_char-Printed c b (omega (arith, (rw more at r))))
        (λ _ b₁ first.
          Returns-mono
            (serial_print_returns mensagem b₁ (omega (arith, first.used, (rw more at r))))
            (λ _ b₂ rest. Printed-trans first rest)))
]

-- With too few such answers it keeps waiting.
pub serial_print_waits :
    (mensagem : List ℕ) (b : Bus)
    → ready_count b.inputs < length (until_nul mensagem)
    → serial_print mensagem b ≡ none
unfolding serial_print
serial_print_waits [] b r = absurd (omega arith)
serial_print_waits (c ∷ mensagem) b r = elim (Bool-cases (c == 0)) [
  | inl end ↦ absurd (omega (arith, (rw end at r)))
  | inr more ↦ rw more (elim (dec_lt 0 (ready_count b.inputs)) [
    | no out ↦ >>=-none (serial_write_char c) _ (serial_write_char-none c b (omega arith))
    | yes in_hand ↦ elim (serial_write_char-Printed c b in_hand) [
      | returns _ b₁ runs first ↦
          >>=-run (serial_write_char c) _ runs
          ∙ serial_print_waits mensagem b₁ (omega (arith, first.used, (rw more at r)))
    ]
  ])
]
