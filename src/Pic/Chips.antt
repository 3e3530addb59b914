-- ===== src/Pic/Chips.antt =====
-- What the two 8259A controllers make of the bytes that they are sent.
use projeto_so.Base.{
  ℕ, ◌+◌, ◌*◌, ◌/◌, ◌≡◌, refl, arith, true, false, ◌&&◌, ◌||◌, List, [], ◌∷◌, ◌++◌, append-nil,
  append_assoc, sym, ap, ◌∙◌, bit_and, ◌==◌, ltb, leb, if◌then◌else◌, u8, Bool-cases, inl, inr,
}
use projeto_so.Io.{Event, sent, received, cli, sti, Bus, inb, outb}
use projeto_so.Io.Returns.{Returns, returns}
use projeto_so.Io.Traffic.{writes, Busy, still, then_sent, then_received}
use projeto_so.Pic.{pic1_command, pic2_command, pic_ack, pic_remap, pic_acknowledge}

-- `awaits` is the number of the initialisation word that comes next, 0 when there is none to come.
-- `icw1` is the first word: its bit 0 says that a fourth one comes, its bit 1 that the controller is
-- alone, so that no third one comes. `acknowledged` counts the ends of interrupts.
pub record Chip : Type 0 where
  pub awaits : ℕ
  pub icw1 : ℕ
  pub vector : ℕ
  pub cascade : ℕ
  pub mode : ℕ
  pub mask : ℕ
  pub acknowledged : ℕ

-- A fourth word comes only if the first one says so; without it the mode is 0, that of the 8085.
abbrev pub command : ℕ → Chip → Chip
command v c =
    if bit_and v 0x10 == 0
    then (if v == pic_ack then record c { acknowledged = c.acknowledged + 1 } else c)
    else record c {
      awaits = 2;
      icw1 = v;
      mode = if bit_and v 0x01 == 0 then 0 else c.mode;
      mask = 0;
    }

abbrev fourth_or_none : ℕ → ℕ
fourth_or_none icw1 = if bit_and icw1 0x01 == 0 then 0 else 4

-- The lower three bits of the second word are not used: the line takes their place.
abbrev pub word : ℕ → Chip → Chip
word v c =
    if c.awaits == 2
    then record c {
      vector = v / 8 * 8;
      awaits = if bit_and c.icw1 0x02 == 0 then 3 else fourth_or_none c.icw1;
    }
    else if c.awaits == 3
    then record c { cascade = v; awaits = fourth_or_none c.icw1 }
    else if c.awaits == 4
    then record c { mode = v; awaits = 0 }
    else record c { mask = v }

-- The chip whose command port is `port`, and its data port the next.
abbrev pub after : ℕ → List Event → Chip → Chip
after port [] c = c
after port (sent p v ∷ t) c =
    if p == port
    then command v (after port t c)
    else if p == port + 1
    then word v (after port t c)
    else after port t c
after port (received p v ∷ t) c = after port t c
after port (cli ∷ t) c = after port t c
after port (sti ∷ t) c = after port t c

-- Ready, with its vectors from `vector` on, its cascade word, 8086 mode, and its mask.
pub record Remapped (vector cascade mask : ℕ) (c : Chip) : Type 0 where
  pub ready : c.awaits ≡ 0
  pub vectors : c.vector ≡ vector
  pub not_alone : bit_and c.icw1 0x02 ≡ 0
  pub cascaded : c.cascade ≡ cascade
  pub in_8086 : c.mode ≡ 1
  pub masked : c.mask ≡ mask

-- From any state of the two chips, `pic_remap` returns if they answer with their masks, and leaves
-- both ready in 8086 mode and not alone: the first with its vectors from 32 on and the second chip on
-- its line 2, the second with its vectors from 40 on and that line as its identity, each with the
-- mask it had. The modes are those that the first and the fourth word ask for.
pub pic_remap-Remapped :
    (m₁ m₂ : ℕ) (later : List ℕ) (t : List Event) (c₁ c₂ : Chip)
    → Returns pic_remap
        (record { inputs = m₁ ∷ m₂ ∷ later; trace = t })
        (λ _ b.
          Remapped 32 0x04 (u8 m₁) (after pic1_command b.trace c₁)
          × Remapped 40 0x02 (u8 m₂) (after pic2_command b.trace c₂)
          × (b.inputs ≡ later))
unfolding pic_remap inb outb
pic_remap-Remapped m₁ m₂ later t c₁ c₂ = returns tt _ refl (
  record {
    ready = refl;
    vectors = refl;
    not_alone = refl;
    cascaded = refl;
    in_8086 = refl;
    masked = omega arith;
  },
  record {
    ready = refl;
    vectors = refl;
    not_alone = refl;
    cascaded = refl;
    in_8086 = refl;
    masked = omega arith;
  },
  refl,
)

-- `pic_acknowledge` returns; the first chip is told of the end of each interrupt from 32 to 47, the
-- second of those from 40 on, and of no other.
pub pic_acknowledge-acknowledged :
    (interrupt : ℕ) (b : Bus) (c₁ c₂ : Chip)
    → Returns (pic_acknowledge interrupt) b (λ _ b'.
      ((after pic1_command b'.trace c₁).acknowledged
        ≡ (after pic1_command b.trace c₁).acknowledged
          + (if leb 32 interrupt && leb interrupt 47 then 1 else 0))
      × ((after pic2_command b'.trace c₂).acknowledged
          ≡ (after pic2_command b.trace c₂).acknowledged
            + (if leb 40 interrupt && leb interrupt 47 then 1 else 0))
      × (b'.inputs ≡ b.inputs))
unfolding pic_acknowledge outb
pic_acknowledge-acknowledged interrupt b c₁ c₂ =
    elim (Bool-cases (ltb interrupt 32 || ltb 47 interrupt)) [
      | inl other ↦
          returns tt b (rw other refl) (ground (arith, other), ground (arith, other), refl)
      | inr ours ↦ elim (Bool-cases (leb 40 interrupt)) [
        | inl second ↦
            returns tt
              (record b { trace = sent pic1_command pic_ack ∷ sent pic2_command pic_ack ∷ b.trace })
              (rw (ours, second) refl)
              (ground (arith, ours, second), ground (arith, ours, second), refl)
        | inr first ↦
            returns tt (record b { trace = sent pic1_command pic_ack ∷ b.trace })
              (rw (ours, first) refl)
              (ground (arith, ours, first), ground (arith, ours, first), refl)
      ]
    ]

-- The port and the byte of each end of interrupt that is due.
abbrev pub ends : ℕ → List (ℕ × ℕ)
ends interrupt =
    if leb 40 interrupt && leb interrupt 47
    then (0xA0, 0x20) ∷ (0x20, 0x20) ∷ []
    else if leb 32 interrupt && leb interrupt 47
    then (0x20, 0x20) ∷ []
    else []

pub pic_acknowledge-writes :
    (interrupt : ℕ) (b : Bus)
    → Returns
        (pic_acknowledge interrupt)
        b
        (λ _ b'. (writes b'.trace ≡ writes b.trace ++ ends interrupt) × (b'.inputs ≡ b.inputs))
unfolding pic_acknowledge outb
pic_acknowledge-writes interrupt b = elim (Bool-cases (ltb interrupt 32 || ltb 47 interrupt)) [
  | inl other ↦
      returns tt b (rw other refl)
        (sym (ap (λ l. writes b.trace ++ l) (none_due other) ∙ append-nil (writes b.trace)), refl)
  | inr ours ↦ elim (Bool-cases (leb 40 interrupt)) [
    | inl second ↦
        returns tt
          (record b { trace = sent pic1_command pic_ack ∷ sent pic2_command pic_ack ∷ b.trace })
          (rw (ours, second) refl)
          (
            append_assoc (writes b.trace) _ _
                ∙ ap (λ l. writes b.trace ++ l) (sym (two_due ours second)),
            refl,
          )
    | inr first ↦
        returns tt (record b { trace = sent pic1_command pic_ack ∷ b.trace })
          (rw (ours, first) refl) (ap (λ l. writes b.trace ++ l) (sym (one_due ours first)), refl)
  ]
]
  where
    none_due : (ltb interrupt 32 || ltb 47 interrupt) ≡ true → ends interrupt ≡ []
    none_due e = ground (arith, e)

    one_due :
        (ltb interrupt 32 || ltb 47 interrupt) ≡ false
        → leb 40 interrupt ≡ false
        → ends interrupt ≡ (0x20, 0x20) ∷ []
    one_due e f = ground (arith, e, f)

    two_due :
        (ltb interrupt 32 || ltb 47 interrupt) ≡ false
        → leb 40 interrupt ≡ true
        → ends interrupt ≡ (0xA0, 0x20) ∷ (0x20, 0x20) ∷ []
    two_due e f = ground (arith, e, f)

-- Traffic with the console and the serial line does not reach a controller.
pub after-Busy :
    (port : ℕ) {t u : List Event} (c : Chip)
    → ltb (port + 1) 0x3D4 ≡ true
    → Busy t u
    → after port u c ≡ after port t c
after-Busy port c low still = refl
after-Busy port c low (then_sent p v e q) =
    let other : (p == port) ≡ false = ground (arith, low, e) in
    let beside : (p == port + 1) ≡ false = ground (arith, low, e) in
    rw (other, beside) (after-Busy port c low q)
after-Busy port c low (then_received p v q) = after-Busy port c low q
