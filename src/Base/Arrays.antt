-- ===== src/Base/Arrays.antt =====
-- A static array, or a stretch of memory, as a function of the index.
use Prim.Native.Nat.{ℕ}
use projeto_so.Base.Tests.{◌==◌, if◌then◌else◌}

abbrev pub update {ℓ} : {A : Type ℓ} → (ℕ → A) → ℕ → A → ℕ → A
update f i a j = if i == j then a else f j
