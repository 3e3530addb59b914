-- ===== src/Chat/Strings.antt =====
-- What the two string functions of the chat do.
use projeto_so.Base.{
  ℕ, ◌+◌, ◌<◌, ◌≤◌, ◌≡◌, ◌≢◌, ◌↔◌, refl, ◌∙◌, sym, arith, Bool, true, false, List, [], ◌∷◌, ◌++◌,
  ◌==◌, ltb, if◌then◌else◌, set, length, until_nul, Written, start, Written-set, until_nul-set,
  length-set, length-append, append_assoc, append-nil, Bool-cases, inl, inr, codes,
}
use projeto_so.Chat.{Out, append_loop, append_formatted, end_line, str_equal}

-- Equality of texts, byte by byte.
abbrev pub same_text : (s t : List ℕ) → Bool
same_text [] [] = true
same_text [] (y ∷ t) = false
same_text (x ∷ s) [] = false
same_text (x ∷ s) (y ∷ t) = if x == y then same_text s t else false

pub same_text_eq : (s t : List ℕ) → same_text s t ≡ true → s ≡ t
same_text_eq [] [] e = refl
same_text_eq [] (y ∷ t) e = absurd (ground (arith, e))
same_text_eq (x ∷ s) [] e = absurd (ground (arith, e))
same_text_eq (x ∷ s) (y ∷ t) e = ground (arith, e, same_text_eq s t)

same_text_self : (s : List ℕ) → same_text s s ≡ true
same_text_self [] = refl
same_text_self (x ∷ s) = ground (arith, same_text_self s)

pub str_equal-same_text : (a b : List ℕ) → str_equal a b ≡ same_text (until_nul a) (until_nul b)
unfolding str_equal
str_equal-same_text [] [] = refl
str_equal-same_text [] (y ∷ b) = ground arith
str_equal-same_text (x ∷ a) [] = ground arith
str_equal-same_text (x ∷ a) (y ∷ b) = ground (arith, str_equal-same_text a b)

-- `str_equal` answers yes for two strings just when their texts are the same.
pub str_equal_iff : (a b : List ℕ) → (str_equal a b ≡ true) ↔ (until_nul a ≡ until_nul b)
str_equal_iff a b = (
  λ e. same_text_eq (until_nul a) (until_nul b) (sym (str_equal-same_text a b) ∙ e),
  λ e. str_equal-same_text a b ∙ rw e (same_text_self (until_nul b)),
)

-- The text `pre` stands at the start of the array, and the next index is at its end.
pub record Filled (pre : List ℕ) (size : ℕ) (b : Out) : Type 0 where
  pub written : Written pre b.out
  pub at_end : length pre ≡ b.o
  pub room : length b.out ≡ size

append_loop-Filled :
    (p : List ℕ) (out_sz : ℕ) {pre : List ℕ} {size : ℕ} {b : Out}
    → Filled pre size b
    → length (pre ++ until_nul p) < out_sz
    → out_sz ≤ size
    → Filled (pre ++ until_nul p) size (append_loop p out_sz b)
unfolding append_loop
append_loop-Filled [] out_sz {pre} f fits room = rw (append-nil pre) f
append_loop-Filled (c ∷ p) out_sz {pre} {size} {b} f fits room = elim (Bool-cases (c == 0)) [
  | inl end ↦ rw (end, append-nil pre) f
  | inr more ↦
      rw (more, on (rw more at fits))
        (rw (append_assoc pre (c ∷ []) (until_nul p)) at (
          append_loop-Filled p out_sz
            (one (λ z. absurd (ground (arith, z, more))) (rw more at fits))
            (omega (
              arith,
              (rw more at fits),
              length-append (pre ++ c ∷ []) (until_nul p),
              length-append pre (c ∷ []),
              length-append pre (c ∷ until_nul p),
            ))
            room))
]
  where
    on : length (pre ++ c ∷ until_nul p) < out_sz → ltb (b.o + 1) out_sz ≡ true
    on h = ground (arith, h, f.at_end, length-append pre (c ∷ until_nul p))

    one :
        c ≢ 0
        → length (pre ++ c ∷ until_nul p) < out_sz
        → Filled (pre ++ c ∷ []) size (record { out = set b.out b.o c; o = b.o + 1 })
    one nonzero h = record {
      written =
          Written-set pre b.out c f.at_end nonzero f.written
            (omega (arith, f.room, f.at_end, room, length-append pre (c ∷ until_nul p), h));
      at_end = omega (arith, length-append pre (c ∷ []), f.at_end);
      room = length-set b.out b.o c ∙ f.room;
    }

-- `[user] msg` and the end of the line.
abbrev pub formatted : (user msg : List ℕ) → List ℕ
formatted user msg = ((codes "[" ++ user) ++ codes "] ") ++ msg

end_line-Filled :
    (out_sz : ℕ) {t : List ℕ} {size : ℕ} {b : Out}
    → Filled t size b
    → length t + 1 < out_sz
    → out_sz ≤ size
    → until_nul (end_line out_sz b) ≡ t ++ b'\n' ∷ []
unfolding end_line
end_line-Filled out_sz {t} {size} {b} f fits room = rw on (
    until_nul-set (omega (arith, length-append t (b'\n' ∷ []), f.at_end))
      (Written-set t b.out b'\n' f.at_end (λ z. absurd (omega (arith, z))) f.written
        (omega (arith, f.room, f.at_end, fits, room)))
      (omega (arith, length-set b.out b.o b'\n', f.room, f.at_end, fits, room)))
  where
    on : ltb (b.o + 1) out_sz ≡ true
    on = ground (arith, f.at_end, fits)

-- If the array is large enough, the formatted line is `[user] msg` with a newline, whole.
pub append_formatted_text :
    (user msg out : List ℕ) (out_sz : ℕ)
    → length (until_nul user) + length (until_nul msg) + 4 < out_sz
    → out_sz ≤ length out
    → until_nul (append_formatted user msg out out_sz)
      ≡ formatted (until_nul user) (until_nul msg) ++ b'\n' ∷ []
unfolding append_formatted
append_formatted_text user msg out out_sz fits room =
    end_line-Filled out_sz
      (append_loop-Filled msg out_sz
        (append_loop-Filled (codes "] ") out_sz
          (append_loop-Filled user out_sz
            (append_loop-Filled (codes "[") out_sz
              (record { written = start out; at_end = refl; room = refl }) (omega (arith, fits))
              room)
            (omega (arith, sizes)) room)
          (omega (arith, sizes)) room)
        (omega (arith, sizes)) room)
      (omega (arith, sizes)) room
  where
    sizes :
        (length (codes "[" ++ until_nul user) ≡ length (until_nul user) + 1)
        × (length ((codes "[" ++ until_nul user) ++ codes "] ") ≡ length (until_nul user) + 3)
        × (length (formatted (until_nul user) (until_nul msg))
            ≡ length (until_nul user) + length (until_nul msg) + 3)
    sizes = (
      omega arith,
      omega (arith, length-append (codes "[" ++ until_nul user) (codes "] ")),
      omega (
        arith,
        length-append ((codes "[" ++ until_nul user) ++ codes "] ") (until_nul msg),
        length-append (codes "[" ++ until_nul user) (codes "] "),
      ),
    )
