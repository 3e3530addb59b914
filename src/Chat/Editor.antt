-- ===== src/Chat/Editor.antt =====
-- The line editor: the array and the index stand for the text typed so far.
use projeto_so.Base.{
  ℕ, zero, suc, ◌+◌, ◌-◌, ◌<◌, ◌≤◌, ◌≡◌, ◌≢◌, refl, ◌∙◌, arith, Bool, List, [], ◌∷◌, ◌++◌, leb, ltb,
  if◌then◌else◌, set, take, length, length-take, length-set, length-append, until_nul, Written,
  start, next, Written-set, until_nul-set,
}
use projeto_so.Chat.{line_max, Line, reset, terminate, drop_last, push}

-- The line holds the text `t`, ended by a 0.
pub record Typed (t : List ℕ) (l : Line) : Type 0 where
  pub written : Written t l.line
  pub at_end : length t ≡ l.len
  pub ended : until_nul l.line ≡ t
  pub size : length l.line ≡ line_max + 1
  pub fits : length t ≤ line_max

-- A byte that is not the Enter key, on the text of the line; `erases` is the key that rubs out.
abbrev pub edit : (erases : ℕ → Bool) → ℕ → List ℕ → List ℕ
edit erases c t =
    if erases c
    then take (length t - 1) t
    else if ltb c 32
    then t
    else if leb line_max (length t)
    then t
    else t ++ c ∷ []

-- Writing behind the text keeps it.
Written-behind :
    {t : List ℕ} {i : ℕ} {d : List ℕ} (c : ℕ) → length t ≤ i → Written t d → Written t (set d i c)
Written-behind c h (start d) = start _
Written-behind {i = zero} c h (next nonzero w) = absurd (omega arith)
Written-behind {i = suc i} c h (next nonzero w) = next nonzero (Written-behind c (omega arith) w)

Written-take : (n : ℕ) {t d : List ℕ} → Written t d → Written (take n t) d
Written-take zero w = start _
Written-take (suc n) (start d) = start d
Written-take (suc n) (next nonzero w) = next nonzero (Written-take n w)

-- A 0 at the end of what is written ends the line.
terminated :
    {t : List ℕ} {l : Line}
    → Written t l.line
    → length t ≡ l.len
    → length l.line ≡ line_max + 1
    → length t ≤ line_max
    → Typed t (terminate l)
unfolding terminate
terminated {t} {l} w e size fits = record {
  written = Written-behind 0 (omega (arith, e)) w;
  at_end = e;
  ended = until_nul-set e w (omega (arith, e, size, fits));
  size = length-set l.line l.len 0 ∙ size;
  fits = fits;
}

pub terminate-Typed : {t : List ℕ} {l : Line} → Typed t l → Typed t (terminate l)
terminate-Typed l = terminated l.written l.at_end l.size l.fits

pub reset-Typed : (l : Line) → length l.line ≡ line_max + 1 → Typed [] (reset l)
unfolding reset
reset-Typed l size = record {
  written = start _;
  at_end = refl;
  ended = until_nul-set refl (start l.line) (omega (arith, size));
  size = length-set l.line 0 0 ∙ size;
  fits = omega arith;
}

pub push-Typed :
    {t : List ℕ} {l : Line} (c : ℕ)
    → c ≢ 0
    → length t < line_max
    → Typed t l
    → Typed (t ++ c ∷ []) (push c l)
unfolding push
push-Typed {t} {l} c nonzero room typed =
    terminated
      (Written-set t l.line c typed.at_end nonzero typed.written
        (omega (arith, typed.at_end, typed.size, room)))
      (omega (arith, length-append t (c ∷ []), typed.at_end))
      (length-set l.line l.len c ∙ typed.size) (omega (arith, length-append t (c ∷ []), room))

pub drop_last-Typed :
    {t : List ℕ} {l : Line} → Typed t l → Typed (take (length t - 1) t) (drop_last l)
unfolding drop_last
drop_last-Typed {t} {l} typed =
    terminated (Written-take (length t - 1) typed.written)
      (omega (arith, length-take (length t - 1) t, typed.at_end)) typed.size
      (omega (arith, length-take (length t - 1) t, typed.fits))
