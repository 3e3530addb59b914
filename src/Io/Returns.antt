-- ===== src/Io/Returns.antt =====
-- Total correctness of a run: it comes to an end, and what holds then.
use projeto_so.Base.{Option, none, some, ◌≡◌, refl, sym, subst, ◌∙◌}
use projeto_so.Io.{Run, pure, ◌>>=◌, zoom}

-- The code `m`, started in `s`, returns, with a value and a state of which `P` holds.
pub data Returns {S A : Type 0} (m : Run S A) (s : S) (P : A → S → Type 0) : Type 0 where
  returns : (a : A) (s' : S) → m s ≡ some (a, s') → P a s' → Returns m s P

module _ {S A B : Type 0} where
  pub >>=-run :
      (m : Run S A) (f : A → Run S B) {s s' : S} {a : A} → m s ≡ some (a, s') → (m >>= f) s ≡ f a s'
  >>=-run m f e = rw (e, ◌>>=◌)

  pub >>=-none : (m : Run S A) (f : A → Run S B) {s : S} → m s ≡ none → (m >>= f) s ≡ none
  >>=-none m f e = rw (e, ◌>>=◌)

  -- The rule for a sequence of two steps.
  pub >>=-Returns :
      {m : Run S A} {s : S} {P : A → S → Type 0} {Q : B → S → Type 0} (f : A → Run S B)
      → Returns m s P
      → ((a : A) (s' : S) → P a s' → Returns (f a) s' Q)
      → Returns (m >>= f) s Q
  >>=-Returns {m} f (returns a s' e p) next = elim (next a s' p) [
    | returns b s'' e' q ↦ returns b s'' (>>=-run m f e ∙ e') q
  ]

module _ {S A : Type 0} where
  pub pure-Returns : {P : A → S → Type 0} {a : A} {s : S} → P a s → Returns (pure a) s P
  pure-Returns {a} {s} p = returns a s refl p

  -- A weaker statement of the end.
  pub Returns-mono :
      {m : Run S A} {s : S} {P Q : A → S → Type 0}
      → Returns m s P
      → ((a : A) (s' : S) → P a s' → Q a s')
      → Returns m s Q
  Returns-mono (returns a s' e p) weaken = returns a s' e (weaken a s' p)

  -- Two statements of one end.
  pub Returns-both :
      {m : Run S A} {s : S} {P Q : A → S → Type 0}
      → Returns m s P
      → Returns m s Q
      → Returns m s (λ a s'. P a s' × Q a s')
  Returns-both {Q = Q} (returns a s' e p) (returns b s'' e' q) =
      let ends : ◌≡◌ {A = Option (A × S)} (some (b, s'')) (some (a, s')) = sym e' ∙ e in
      let value : b ≡ a = cc in
      let state : s'' ≡ s' = cc in
      returns a s' e (p, subst (λ c. Q c s') value (subst (λ t. Q b t) state q))

  -- Code that behaves the same from this state.
  pub Returns-eq :
      {m n : Run S A} {s : S} {P : A → S → Type 0} → m s ≡ n s → Returns n s P → Returns m s P
  Returns-eq e (returns a s' r p) = returns a s' (e ∙ r) p

-- Code over a part of the state changes that part.
pub zoom-Returns :
    {S T A : Type 0} (part : S → T) (put : S → T → S) {m : Run T A} {s : S} {P : A → T → Type 0}
    {Q : A → S → Type 0}
    → Returns m (part s) P
    → ((a : A) (t : T) → P a t → Q a (put s t))
    → Returns (zoom part put m) s Q
zoom-Returns part put {s} (returns a t e p) weaken =
    returns a (put s t) (rw (e, zoom)) (weaken a t p)

module _ {S T A : Type 0} (part : S → T) (put : S → T → S) (m : Run T A) {s : S} where
  pub zoom-run : {a : A} {t : T} → m (part s) ≡ some (a, t) → zoom part put m s ≡ some (a, put s t)
  zoom-run e = rw (e, zoom)

  pub zoom-none : m (part s) ≡ none → zoom part put m s ≡ none
  zoom-none e = rw (e, zoom)
