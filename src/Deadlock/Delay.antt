-- ===== src/Deadlock/Delay.antt =====
-- The delay of the two transfers ends, and changes nothing.
use projeto_so.Base.{
  ℕ, zero, suc, ◌+◌, ◌<◌, ◌≤◌, ◌≡◌, refl, arith, ltb, u32, some, Bool-cases, inl, inr,
}
use projeto_so.Deadlock.{World, delay_limit, delay_loop, busy_delay}

delay_loop_lem :
    (n i : ℕ) → i ≤ delay_limit → delay_limit < i + n → delay_loop n i ≡ some delay_limit
unfolding delay_loop
delay_loop_lem zero i low long = absurd (omega arith)
delay_loop_lem (suc n) i low long = elim (Bool-cases (ltb i delay_limit)) [
  | inl below ↦
      let next : u32 (i + 1) ≡ i + 1 = omega arith in
      rw (below, next) (delay_loop_lem n (i + 1) (ground (arith, below)) (omega arith))
  | inr done ↦ ground (arith, done)
]

pub busy_delay-run : (w : World) → busy_delay w ≡ some (tt, w)
unfolding busy_delay
busy_delay-run w =
    rw (delay_loop_lem (suc delay_limit) 0 (omega arith) (omega arith), busy_delay) refl
