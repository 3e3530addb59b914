-- ===== src/Serial/Ready.antt =====
-- The busy-wait of the serial driver: it ends at the first answer that shows the port ready.
use projeto_so.Base.{
  ℕ, zero, suc, ◌+◌, ◌%◌, ◌^◌, ◌<◌, ◌≤◌, ◌+◌, ◌≡◌, refl, Bool, true, List, [], ◌∷◌, bit_and, none,
  ◌++◌, ◌==◌, if◌then◌else◌, length, arith, Bool-cases, inl, inr, not, replicate, ap,
}
use projeto_so.Io.{Event, received, Bus, inb}
use projeto_so.Io.Returns.{Returns, returns}
use projeto_so.Io.Traffic.{sent_on, Busy, still, then_received, Busy-trans, Tail, whole, past}
use projeto_so.Serial.{uart_line_stat, uart_data, wait_transmit, is_transmit_buffer_ready}

-- The port takes a byte: bit 5 of the status is set.
abbrev pub is_ready : ℕ → Bool
is_ready v = not (bit_and (v % 2 ^ 8) 0x20 == 0)

-- How many of the recorded answers show the port ready.
abbrev pub ready_count : List ℕ → ℕ
ready_count [] = 0
ready_count (v ∷ vs) = if is_ready v then suc (ready_count vs) else ready_count vs

pub ready_count-replicate : (n : ℕ) → ready_count (replicate n 0x20) ≡ n
ready_count-replicate zero = refl
ready_count-replicate (suc n) = ap suc (ready_count-replicate n)

-- What the wait leaves when it ends, started with answers `vs` on a trace `t`.
pub record Waited (vs : List ℕ) (t : List Event) (b : Bus) : Type 0 where
  pub status : ℕ
  pub before : List Event
  pub last_read : b.trace ≡ received uart_line_stat (status % 2 ^ 8) ∷ before
  pub was_ready : is_ready status ≡ true
  pub used_one : ready_count b.inputs + 1 ≡ ready_count vs
  pub sent_same : sent_on uart_data b.trace ≡ sent_on uart_data t
  pub busy : Busy t b.trace
  pub left_over : Tail vs b.inputs

pub wait_transmit-Waited :
    (rounds : ℕ) (vs : List ℕ) (t : List Event)
    → length vs < rounds
    → 0 < ready_count vs
    → Returns (wait_transmit rounds) (record { inputs = vs; trace = t }) (λ _ b. Waited vs t b)
unfolding wait_transmit is_transmit_buffer_ready inb
wait_transmit-Waited zero vs t h r = absurd (omega arith)
wait_transmit-Waited (suc rounds) [] t h r = absurd (omega arith)
wait_transmit-Waited (suc rounds) (v ∷ vs) t h r =
    elim (Bool-cases (bit_and (v % 2 ^ 8) 0x20 == 0)) [
      | inl busy ↦
          elim (wait_transmit-Waited rounds vs (received uart_line_stat (v % 2 ^ 8) ∷ t)
            (omega arith) (rw busy at r)) [
              | returns u b runs w ↦ returns u b (rw busy runs) (record {
                status = w.status;
                before = w.before;
                last_read = w.last_read;
                was_ready = w.was_ready;
                used_one = rw busy w.used_one;
                sent_same = w.sent_same;
                busy = Busy-trans (then_received _ _ still) w.busy;
                left_over = past v w.left_over;
              })
            ]
      | inr free ↦
          returns tt (record { inputs = vs; trace = received uart_line_stat (v % 2 ^ 8) ∷ t })
            (rw free refl)
            (record {
              status = v;
              before = t;
              last_read = refl;
              was_ready = rw free refl;
              used_one = rw free (omega arith);
              sent_same = refl;
              busy = then_received _ _ still;
              left_over = past v whole;
            })
    ]

-- With no answer that shows the port ready the wait does not end.
pub wait_transmit-none :
    (rounds : ℕ) (vs : List ℕ) (t : List Event)
    → ready_count vs ≡ 0
    → wait_transmit rounds (record { inputs = vs; trace = t }) ≡ none
unfolding wait_transmit is_transmit_buffer_ready inb
wait_transmit-none zero vs t r = refl
wait_transmit-none (suc rounds) [] t r = refl
wait_transmit-none (suc rounds) (v ∷ vs) t r = elim (Bool-cases (bit_and (v % 2 ^ 8) 0x20 == 0)) [
  | inl busy ↦
      rw busy
        (wait_transmit-none rounds vs (received uart_line_stat (v % 2 ^ 8) ∷ t) (rw busy at r))
  | inr free ↦ absurd (omega (arith, (rw free at r)))
]

-- Two answers, of which at most two show the port ready.
pub data Two : List ℕ → Type 0 where
  two :
      (v₁ v₂ : ℕ) (later : List ℕ)
      → ready_count (v₁ ∷ v₂ ∷ later) ≤ ready_count later + 2
      → Two (v₁ ∷ v₂ ∷ later)

ready_count-cons : (v : ℕ) (vs : List ℕ) → ready_count (v ∷ vs) ≤ ready_count vs + 1
ready_count-cons v vs = elim (Bool-cases (is_ready v)) [
  | inl e ↦ rw e (omega arith)
  | inr e ↦ rw e (omega arith)
]

pub ready_count-Two : (vs : List ℕ) → 2 ≤ ready_count vs → Two vs
ready_count-Two [] h = absurd (omega arith)
ready_count-Two (v₁ ∷ []) h = absurd (omega (arith, ready_count-cons v₁ [], h))
ready_count-Two (v₁ ∷ v₂ ∷ later) h =
    two v₁ v₂ later (omega (arith, ready_count-cons v₁ (v₂ ∷ later), ready_count-cons v₂ later))

ready_count-Tail : {vs ws : List ℕ} → Tail vs ws → ready_count ws ≤ ready_count vs
ready_count-Tail whole = omega arith
ready_count-Tail (past v {vs} {ws} p) = elim (Bool-cases (is_ready v)) [
  | inl e ↦ rw e (omega (arith, ready_count-Tail p))
  | inr e ↦ rw e (ready_count-Tail p)
]

-- `n` answers of a port that is ready and has no byte, and then `rest`.
abbrev pub idle : ℕ → List ℕ → List ℕ
idle n rest = replicate n 0x60 ++ rest

pub ready_count-idle : (n : ℕ) (rest : List ℕ) → ready_count (idle n rest) ≡ n + ready_count rest
ready_count-idle zero rest = omega arith
ready_count-idle (suc n) rest = omega (arith, ready_count-idle n rest)

-- What is left of them is known by how many are ready.
pub idle-Tail :
    {vs ws : List ℕ} (n v : ℕ) (later : List ℕ)
    → Tail vs ws
    → vs ≡ idle n (v ∷ later)
    → is_ready v ≡ true
    → ready_count ws ≡ ready_count (v ∷ later)
    → ws ≡ v ∷ later
idle-Tail zero v later whole e ready same = e
idle-Tail (suc n) v later whole e ready same =
    absurd (omega (arith, ap ready_count e, ready_count-idle n (v ∷ later), same))
idle-Tail zero v later (past u {vs} p) e ready same =
    let rest : vs ≡ later = cc in
    absurd (omega (arith, ready_count-Tail p, ap ready_count rest, (rw ready at same)))
idle-Tail (suc n) v later (past u {vs} p) e ready same =
    let rest : vs ≡ idle n (v ∷ later) = cc in idle-Tail n v later p rest ready same
