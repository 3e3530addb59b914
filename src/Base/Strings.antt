-- ===== src/Base/Strings.antt =====
-- C strings.
use Prim.Native.Nat.{ℕ, ◌%◌, ◌^◌, ◌<◌}
use mathlib.Core.Path.{◌≡◌, refl}
use mathlib.Core.Logic.{◌≢◌}
use mathlib.Core.List.{List, [], ◌∷◌, ◌++◌, map}
use native.Mathlib.Omega.{arith}
use projeto_so.Base.Tests.{◌==◌, if◌then◌else◌}
use projeto_so.Base.Lists.{length, set}

-- The text of a C string: its bytes before the first 0.
abbrev pub until_nul : List ℕ → List ℕ
until_nul [] = []
until_nul (c ∷ s) = if c == 0 then [] else c ∷ until_nul s

-- What each number is as an `unsigned char`.
abbrev pub bytes : List ℕ → List ℕ
bytes = map (λ c. c % 2 ^ 8)

-- The first `i` bytes of `dst` are the text `pre`, and none of them is 0.
pub data Written : (pre dst : List ℕ) → Type 0 where
  start : (dst : List ℕ) → Written [] dst
  next : {c : ℕ} {pre dst : List ℕ} → c ≢ 0 → Written pre dst → Written (c ∷ pre) (c ∷ dst)

put_next :
    {pre dst : List ℕ} {c : ℕ}
    → c ≢ 0
    → Written pre dst
    → length pre < length dst
    → Written (pre ++ c ∷ []) (set dst (length pre) c)
put_next nonzero (start []) h = absurd (omega arith)
put_next nonzero (start (d ∷ dst)) h = next nonzero (start dst)
put_next nonzero (next other w) h = next other (put_next nonzero w (omega arith))

-- One more byte of the text, at its end `i`.
pub Written-set :
    {i : ℕ} (pre dst : List ℕ) (c : ℕ)
    → length pre ≡ i
    → c ≢ 0
    → Written pre dst
    → i < length dst
    → Written (pre ++ c ∷ []) (set dst i c)
Written-set pre dst c e nonzero w h = rw e at (put_next nonzero w (omega (arith, e, h)))

end_text :
    {pre dst : List ℕ}
    → Written pre dst
    → length pre < length dst
    → until_nul (set dst (length pre) 0) ≡ pre
end_text (start []) h = absurd (omega arith)
end_text (start (d ∷ dst)) h = refl
end_text {pre = c ∷ pre} (next other w) h = ground (arith, other, end_text w (omega arith))

-- A 0 after the text ends it.
pub until_nul-set :
    {i : ℕ} {pre dst : List ℕ}
    → length pre ≡ i
    → Written pre dst
    → i < length dst
    → until_nul (set dst i 0) ≡ pre
until_nul-set {i} {pre} {dst} e w h = rw e at (end_text w (omega (arith, e, h)))
