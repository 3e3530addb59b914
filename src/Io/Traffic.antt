-- ===== src/Io/Traffic.antt =====
-- Readings of a trace.
use projeto_so.Base.{
  Bool, true, false, ◌&&◌, leb, ltb, ℕ, ◌%◌, ◌^◌, ◌≡◌, refl, List, [], ◌∷◌, ◌++◌, ◌==◌,
  if◌then◌else◌,
}
use projeto_so.Io.{Event, sent, received, cli, sti, Bus, inb}
use projeto_so.Io.Returns.{Returns, returns}

-- The bytes that went out on a port, the oldest first.
abbrev pub sent_on : ℕ → List Event → List ℕ
sent_on port [] = []
sent_on port (sent p v ∷ t) = if p == port then sent_on port t ++ (v ∷ []) else sent_on port t
sent_on port (received p v ∷ t) = sent_on port t
sent_on port (cli ∷ t) = sent_on port t
sent_on port (sti ∷ t) = sent_on port t

-- All that went out, the oldest first.
abbrev pub writes : List Event → List (ℕ × ℕ)
writes [] = []
writes (sent p v ∷ t) = writes t ++ ((p, v) ∷ [])
writes (received p v ∷ t) = writes t
writes (cli ∷ t) = writes t
writes (sti ∷ t) = writes t

-- A read takes one answer, and sends nothing.
pub inb-Returns :
    (port : ℕ) (v : ℕ) (vs : List ℕ) (b : Bus)
    → b.inputs ≡ v ∷ vs
    → Returns
        (inb port)
        b
        (λ a b'. (a ≡ v % 2 ^ 8) × (b'.inputs ≡ vs) × (writes b'.trace ≡ writes b.trace))
unfolding inb
inb-Returns port v vs b e =
    returns (v % 2 ^ 8)
      (record { inputs = vs; trace = received (port % 2 ^ 16) (v % 2 ^ 8) ∷ b.trace })
      (rw (e, inb) refl) (refl, refl, refl)

-- The ports of the console and of the serial line.
abbrev pub is_terminal : ℕ → Bool
is_terminal port = leb 0x3D4 port && ltb port 0x400

-- From `t` on there was only traffic that reads, or that goes to the console or the serial line.
pub data Busy (t : List Event) : List Event → Type 0 where
  still : Busy t t
  then_sent :
      (port value : ℕ) {u : List Event}
      → is_terminal port ≡ true
      → Busy t u
      → Busy t (sent port value ∷ u)
  then_received : (port value : ℕ) {u : List Event} → Busy t u → Busy t (received port value ∷ u)

pub Busy-trans : {t u v : List Event} → Busy t u → Busy u v → Busy t v
Busy-trans p still = p
Busy-trans p (then_sent port value e q) = then_sent port value e (Busy-trans p q)
Busy-trans p (then_received port value q) = then_received port value (Busy-trans p q)

-- The newest of `cli` and `sti` is `sti`.
abbrev pub interrupts_on : List Event → Bool
interrupts_on [] = false
interrupts_on (sent p v ∷ t) = interrupts_on t
interrupts_on (received p v ∷ t) = interrupts_on t
interrupts_on (cli ∷ t) = false
interrupts_on (sti ∷ t) = true

pub interrupts_on-Busy : {t u : List Event} → Busy t u → interrupts_on u ≡ interrupts_on t
interrupts_on-Busy still = refl
interrupts_on-Busy (then_sent port value e q) = interrupts_on-Busy q
interrupts_on-Busy (then_received port value q) = interrupts_on-Busy q

-- `ws` is what is left of the answers `vs`.
pub data Tail : (vs ws : List ℕ) → Type 0 where
  whole : {vs : List ℕ} → Tail vs vs
  past : (v : ℕ) {vs ws : List ℕ} → Tail vs ws → Tail (v ∷ vs) ws

pub Tail-trans : {us vs ws : List ℕ} → Tail us vs → Tail vs ws → Tail us ws
Tail-trans whole q = q
Tail-trans (past v p) q = past v (Tail-trans p q)
