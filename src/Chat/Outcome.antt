-- ===== src/Chat/Outcome.antt =====
-- What comes of a line that either user ends: what it sends, and what it does to the files.
use projeto_so.Base.{
  ◌⊎◌, inl, inr, ℕ, zero, suc, ◌+◌, ◌<◌, ◌≡◌, refl, sym, ap, ◌∙◌, arith, List, [], ◌∷◌, ◌++◌,
  if◌then◌else◌, append-nil, append_assoc, length, length-append, bytes, codes,
}
use projeto_so.Io.Traffic.{Tail, whole, Tail-trans}
use projeto_so.Deadlock.{data_size, Files, World}
use projeto_so.Deadlock.Swap.{IsFile, Exchanged}
use projeto_so.Deadlock.Safe.{safe_log}
use projeto_so.Deadlock.Transcript.{log_of, ready_of}
use projeto_so.Chat.Strings.{same_text}
use projeto_so.Chat.Submit.{message}

-- What goes out for a line that is no command: nothing for an empty one.
abbrev pub line_log : (user t : List ℕ) → List ℕ
line_log user [] = []
line_log user (c ∷ t) = bytes (message user (c ∷ t))

-- What goes out on the serial port for any line but `/deadlock`.
unfoldable pub reply : (user t : List ℕ) → List ℕ
reply user t =
    if same_text t (codes "/transferir")
    then safe_log
    else if same_text t (codes "/help")
    then []
    else line_log user t

-- How many transfers it makes.
unfoldable pub transfers_of : List ℕ → ℕ
transfers_of t = if same_text t (codes "/transferir") then 1 else 0

-- No line comes back from this one.
abbrev pub Freezes : List ℕ → Type 0
Freezes t = t ≡ codes "/deadlock"

pub not-Freezes : (t : List ℕ) → length t < 9 ⊎ 9 < length t → ¬ Freezes t
not-Freezes t (inl short) e = absurd (omega (arith, ap length e, short))
not-Freezes t (inr long) e = absurd (omega (arith, ap length e, long))

-- `f` has become `g` by `n` exchanges of the two texts.
pub data Moved : ℕ → Files → Files → Type 0 where
  unmoved : {f g : Files} → g ≡ f → Moved zero f g
  then_exchanged : {n : ℕ} {f g h : Files} → Moved n f g → Exchanged g h → Moved (suc n) f h

Moved-count : {m n : ℕ} {f g : Files} → m ≡ n → Moved m f g → Moved n f g
Moved-count e p = rw e at p

pub Moved-trans : {m n : ℕ} {f g h : Files} → Moved m f g → Moved n g h → Moved (m + n) f h
Moved-trans p (unmoved e) = Moved-count (omega arith) (rw (sym e) at p)
Moved-trans p (then_exchanged q e) = Moved-count (omega arith) (then_exchanged (Moved-trans p q) e)

pub Moved-zero : {n : ℕ} {f g : Files} → n ≡ 0 → Moved n f g → g ≡ f
Moved-zero none (unmoved e) = e
Moved-zero none (then_exchanged p e) = absurd (omega (arith, none))

-- What a transfer needs: the local array of 64 bytes, a round for the locks, and two files that
-- hold strings.
pub record CanTransfer (stack : List ℕ) (rounds : ℕ) (f : Files) : Type 0 where
  pub stack_size : length stack ≡ data_size
  pub followed : 0 < rounds
  pub vga_file : IsFile f.file_vga.contents
  pub serial_file : IsFile f.file_serial.contents

pub CanTransfer-Moved :
    {stack : List ℕ} {rounds n : ℕ} {f g : Files}
    → Moved n f g
    → CanTransfer stack rounds f
    → CanTransfer stack rounds g
CanTransfer-Moved (unmoved e) can = rw e can
CanTransfer-Moved (then_exchanged p e) can = record {
  stack_size = can.stack_size;
  followed = can.followed;
  vga_file = e.vga_file;
  serial_file = e.serial_file;
}

-- `text` went out on the serial port, and `n` transfers were made.
pub record Sent (n : ℕ) (text : List ℕ) (w w' : World) : Type 0 where
  pub moved : Moved n w.files w'.files
  pub logged : log_of w' ≡ log_of w ++ text
  pub spent : ready_of w' + length text ≡ ready_of w
  pub left_over : Tail w.screen.bus.inputs w'.screen.bus.inputs

pub Sent-nothing : (w : World) → Sent 0 [] w w
Sent-nothing w = record {
  moved = unmoved refl;
  logged = sym (append-nil (log_of w));
  spent = omega arith;
  left_over = whole;
}

pub Sent-trans :
    {m n : ℕ} {s t : List ℕ} {u v w : World}
    → Sent m s u v
    → Sent n t v w
    → Sent (m + n) (s ++ t) u w
Sent-trans {s = s} {t} {u} p q = record {
  moved = Moved-trans p.moved q.moved;
  logged = q.logged ∙ ap (λ l. l ++ t) p.logged ∙ append_assoc (log_of u) s t;
  spent = omega (arith, q.spent, p.spent, length-append s t);
  left_over = Tail-trans p.left_over q.left_over;
}
