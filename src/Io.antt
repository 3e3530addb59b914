-- ===== src/Io.antt =====
-- src/io.s and src/io.h: the ports, and the runs of code that talks to them.
-- A run is followed for as long as the recorded answers of the devices last: `inputs` holds the
-- values that the next calls of `inb` return. `trace` holds what has happened, the newest first.
pub mod Returns
pub mod Traffic
use projeto_so.Base.{ℕ, ◌%◌, ◌^◌, List, [], ◌∷◌, Option, none, some}

pub data Event : Type 0 where
  sent : (port value : ℕ) → Event
  received : (port value : ℕ) → Event
  cli : Event
  sti : Event

pub record Bus : Type 0 where
  pub inputs : List ℕ
  pub trace : List Event

-- Code over a state of type `S`. `none`: the run waits for a device or a lock for as long as it is
-- followed.
abbrev pub Run : Type 0 → Type 0 → Type 0
Run S A = S → Option (A × S)

module _ {S : Type 0} where
  abbrev pub pure : {A : Type 0} → A → Run S A
  pure a s = some (a, s)

  -- `while (1);`, and a wait that is not followed further.
  abbrev pub hang : {A : Type 0} → Run S A
  hang s = none

  module _ {A B : Type 0} where
    infixl 5 ◌>>=◌ ◌>>◌
    abbrev pub ◌>>=◌ : Run S A → (A → Run S B) → Run S B
    ◌>>=◌ m f s = elim (m s) [ none ↦ none | some (a, s') ↦ f a s' ]

    abbrev pub ◌>>◌ : Run S A → Run S B → Run S B
    m >> n = m >>= λ _. n

-- Code over a part of the state, run on the whole.
abbrev pub zoom : {S T A : Type 0} → (S → T) → (S → T → S) → Run T A → Run S A
zoom part put m s = elim (m (part s)) [ none ↦ none | some (a, t) ↦ some (a, put s t) ]

-- `void outb(unsigned short port, unsigned char data)`
unfoldable pub outb : ℕ → ℕ → Run Bus (Unit {0})
outb port value b = some (tt, record b { trace = sent (port % 2 ^ 16) (value % 2 ^ 8) ∷ b.trace })

receive : ℕ → List ℕ → List Event → Option (ℕ × Bus)
receive port [] t = none
receive port (v ∷ vs) t =
    let byte = v % 2 ^ 8 in some (byte, record { inputs = vs; trace = received port byte ∷ t })

-- `unsigned char inb(unsigned short port)`
unfoldable pub inb : ℕ → Run Bus ℕ
unfolding receive
inb port b = receive (port % 2 ^ 16) b.inputs b.trace

-- `cli` and `sti`.
unfoldable pub disable_interrupts : Run Bus (Unit {0})
disable_interrupts b = some (tt, record b { trace = cli ∷ b.trace })

unfoldable pub enable_interrupts : Run Bus (Unit {0})
enable_interrupts b = some (tt, record b { trace = sti ∷ b.trace })
