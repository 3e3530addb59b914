-- ===== src/Chat/Queue.antt =====
-- The ring of the keyboard is a first-in first-out queue of at most 255 bytes.
use projeto_so.Base.{
  ℕ, zero, suc, ◌+◌, ◌-◌, ◌%◌, ◌≤◌, ◌<◌, ◌≡◌, refl, ◌∙◌, sym, ap, arith, true, false, Option, none,
  some, List, [], ◌∷◌, ◌++◌, ◌==◌, leb, if◌then◌else◌, get_or, length, u8, u32, Bool-cases, inl,
  inr, append_assoc, append-nil, length-append,
}
use projeto_so.Io.{cli, sti, disable_interrupts, enable_interrupts}
use projeto_so.Io.Returns.{Returns, returns}
use projeto_so.Chat.{kbd_ring_sz, Ring, Kernel, chat_kbd_enqueue, pop_ring, take_key, kbd_pop}

abbrev pub capacity : ℕ
capacity = kbd_ring_sz - 1

-- The ring holds the bytes of `q`, the oldest first.
pub record Holds (r : Ring) (q : List ℕ) : Type 0 where
  pub head_small : r.kbd_head < kbd_ring_sz
  pub tail_at : r.kbd_tail ≡ (r.kbd_head + length q) % kbd_ring_sz
  pub bounded : length q ≤ capacity
  pub entries : (i : ℕ) → i < length q → r.kbd_ring ((r.kbd_head + i) % kbd_ring_sz) ≡ get_or q i 0

-- The queue that drops what does not fit.
abbrev pub enqueue : ℕ → List ℕ → List ℕ
enqueue c q = if leb capacity (length q) then q else q ++ (u8 c ∷ [])

abbrev pub first : List ℕ → Option ℕ
first [] = none
first (c ∷ q) = some c

abbrev pub rest : List ℕ → List ℕ
rest [] = []
rest (c ∷ q) = q

get_or-append :
    (q : List ℕ) (c i : ℕ) → get_or (q ++ c ∷ []) i 0 ≡ (if i == length q then c else get_or q i 0)
get_or-append [] c zero = refl
get_or-append [] c (suc i) = ground arith
get_or-append (x ∷ q) c zero = ground arith
get_or-append (x ∷ q) c (suc i) = ground (arith, get_or-append q c i)

-- On a ring that holds a queue, `chat_kbd_enqueue` puts a byte at the end of the queue, or drops it
-- if 255 bytes wait.
pub chat_kbd_enqueue-Holds :
    (c : ℕ) (r : Ring) (q : List ℕ) → Holds r q → Holds (chat_kbd_enqueue c r) (enqueue c q)
unfolding chat_kbd_enqueue
chat_kbd_enqueue-Holds c r q h = elim (Bool-cases (leb capacity (length q))) [
  | inl full ↦ rw (full, same full) h
  | inr room ↦
      rw (room, moved room)
        (record {
          head_small = h.head_small;
          tail_at = omega (arith, h.tail_at, length-append q (u8 c ∷ []));
          bounded = ground (arith, length-append q (u8 c ∷ []), room);
          entries = λ i small. ground (
            arith,
            get_or-append q (u8 c) i,
            h.entries i,
            h.tail_at,
            h.head_small,
            h.bounded,
            length-append q (u8 c ∷ []),
          );
        })
]
  where
    same :
        leb capacity (length q) ≡ true → (u32 (r.kbd_tail + 1) % kbd_ring_sz == r.kbd_head) ≡ true
    same full = ground (arith, full, h.tail_at, h.bounded, h.head_small)

    moved :
        leb capacity (length q) ≡ false → (u32 (r.kbd_tail + 1) % kbd_ring_sz == r.kbd_head) ≡ false
    moved room = ground (arith, room, h.tail_at, h.head_small)

-- An empty queue gives nothing, any other its oldest byte.
pub pop_ring-Holds :
    (r : Ring) (q : List ℕ) → Holds r q → ((pop_ring r).0 ≡ first q) × Holds (pop_ring r).1 (rest q)
unfolding pop_ring
pop_ring-Holds r [] h = rw empty (refl, h)
  where
    empty : (r.kbd_head == r.kbd_tail) ≡ true
    empty = ground (arith, h.tail_at, h.head_small)
pop_ring-Holds r (c ∷ q) h = rw waiting (
  ap some oldest,
  record {
    head_small = omega arith;
    tail_at = omega (arith, h.tail_at);
    bounded = omega (arith, h.bounded);
    entries = λ i small. ap (λ k. r.kbd_ring k) (same i) ∙ h.entries (i + 1) (omega arith) ∙ next i;
  },
)
  where
    waiting : (r.kbd_head == r.kbd_tail) ≡ false
    waiting = ground (arith, h.tail_at, h.head_small, h.bounded)

    same :
        (i : ℕ)
        → (u8 (u32 (r.kbd_head + 1) % kbd_ring_sz) + i) % kbd_ring_sz
          ≡ (r.kbd_head + (i + 1)) % kbd_ring_sz
    same i = omega (arith, h.head_small)

    next : (i : ℕ) → get_or (c ∷ q) (i + 1) 0 ≡ get_or q i 0
    next i = ground arith

    oldest : r.kbd_ring r.kbd_head ≡ c
    oldest = ap (λ k. r.kbd_ring k) at_head ∙ h.entries 0 (omega arith)
      where
        at_head : r.kbd_head ≡ (r.kbd_head + 0) % kbd_ring_sz
        at_head = omega (arith, h.head_small)

-- A turn of the kernel at the ring: the interrupt brings a byte, or the main loop takes one.
pub data Turn : Type 0 where
  bring : ℕ → Turn
  get : Turn

-- The bytes brought, the oldest first.
abbrev pub brought : List Turn → List ℕ
brought [] = []
brought (bring c ∷ ts) = u8 c ∷ brought ts
brought (get ∷ ts) = brought ts

abbrev pub taken : Option ℕ → List ℕ → List ℕ
taken none cs = cs
taken (some c) cs = c ∷ cs

-- What the main loop gets, and the ring at the end.
abbrev pub play : List Turn → Ring → List ℕ × Ring
play [] r = ([], r)
play (bring c ∷ ts) r = play ts (chat_kbd_enqueue c r)
play (get ∷ ts) r = (taken (pop_ring r).0 (play ts (pop_ring r).1).0, (play ts (pop_ring r).1).1)

-- What the ring still holds, after what was got out of it.
pub data Played (q : List ℕ) (got : List ℕ) (r : Ring) : Type 0 where
  played : (waiting : List ℕ) → got ++ waiting ≡ q → Holds r waiting → Played q got r

-- A byte that fits is put at the end.
Holds-enqueue :
    (c : ℕ) (r : Ring) (q : List ℕ)
    → Holds r q
    → length q < capacity
    → Holds (chat_kbd_enqueue c r) (q ++ u8 c ∷ [])
Holds-enqueue c r q h fits = rw room at (chat_kbd_enqueue-Holds c r q h)
  where
    room : leb capacity (length q) ≡ false
    room = ground (arith, fits)

length-rest : (q later : List ℕ) → length (rest q ++ later) ≤ length (q ++ later)
length-rest [] later = omega arith
length-rest (c ∷ q) later = omega arith

-- What a turn of the main loop adds to the turns after it.
get-Played :
    (o : Option ℕ) (q later got : List ℕ) {end : Ring}
    → o ≡ first q
    → Played (rest q ++ later) got end
    → Played (q ++ later) (taken o got) end
get-Played o [] later got e p = rw e p
get-Played o (c ∷ q) later got e (played waiting same holds) =
    rw e (played waiting (ap (λ l. c ∷ l) same) holds)

-- In whatever order the interrupt and the main loop come to the ring: while the bytes that wait and
-- those that come are at most 255, none is lost, none comes twice, and the main loop gets them in
-- the order in which they came.
pub play_in_order :
    (turns : List Turn) (r : Ring) (q : List ℕ)
    → Holds r q
    → length (q ++ brought turns) ≤ capacity
    → Played (q ++ brought turns) (play turns r).0 (play turns r).1
play_in_order [] r q h fits = played q (sym (append-nil q)) h
play_in_order (bring c ∷ ts) r q h fits = rw (append_assoc q (u8 c ∷ []) (brought ts)) at (
    play_in_order ts (chat_kbd_enqueue c r) (q ++ u8 c ∷ [])
      (Holds-enqueue c r q h (omega (arith, fits, length-append q (u8 c ∷ brought ts))))
      (ground (arith, fits, append_assoc q (u8 c ∷ []) (brought ts))))
play_in_order (get ∷ ts) r q h fits =
    get-Played (pop_ring r).0 q (brought ts) (play ts (pop_ring r).1).0 (pop_ring-Holds r q h).0 (
      play_in_order ts (pop_ring r).1 (rest q) (pop_ring-Holds r q h).1
        (omega (arith, fits, length-rest q (brought ts))))

-- On a ring that holds a queue, `kbd_pop` returns the oldest byte that waits, or none, with the
-- rest left in the ring. All that it adds to the trace is `cli` and `sti`; it takes no answer of a
-- device, and leaves the two lines and the files as they are.
pub kbd_pop-Holds :
    (k : Kernel) (q : List ℕ)
    → Holds k.chat.ring q
    → Returns kbd_pop k (λ c k'.
      (c ≡ first q)
      × Holds k'.chat.ring (rest q)
      × (k'.world.screen.bus.trace ≡ sti ∷ cli ∷ k.world.screen.bus.trace)
      × (k'.world.screen.bus.inputs ≡ k.world.screen.bus.inputs)
      × (k'.chat.kbd ≡ k.chat.kbd)
      × (k'.chat.ser ≡ k.chat.ser)
      × (k'.world.files ≡ k.world.files))
unfolding kbd_pop take_key disable_interrupts enable_interrupts
kbd_pop-Holds k q h = returns (pop_ring k.chat.ring).0 _ refl (
  (pop_ring-Holds k.chat.ring q h).0,
  (pop_ring-Holds k.chat.ring q h).1,
  refl,
  refl,
  refl,
  refl,
  refl,
)
