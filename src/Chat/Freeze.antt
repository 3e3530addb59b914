-- ===== src/Chat/Freeze.antt =====
-- The command `/deadlock`: the line from which nothing comes back.
use projeto_so.Base.{
  ℕ, zero, suc, ◌≤◌, ◌≡◌, refl, sym, ap, ◌∙◌, true, List, [], ◌∷◌, ◌++◌, append_assoc, append-nil,
  length, until_nul, codes, none, some, leb, u8, Bool-cases, inl, inr,
}
use projeto_so.Io.{Run, zoom, ◌>>=◌, ◌>>◌, pure}
use projeto_so.Io.Returns.{returns, >>=-none}
use projeto_so.Deadlock.{World}
use projeto_so.Deadlock.Unsafe.{unsafe_log, deadlock_demo_unsafe_deadlocks}
use projeto_so.Deadlock.Transcript.{ready_of}
use projeto_so.Chat.{Kernel, on_chat, kbd_pop, terminate, chat_try_command, submit_line}
use projeto_so.Chat.Strings.{same_text, str_equal-same_text}
use projeto_so.Chat.Poll.{kbd_process_char, kbd_enter, enqueue_all, kbd_loop, ser_loop, chat_poll}
use projeto_so.Chat.Queue.{Holds, capacity, kbd_pop-Holds}
use projeto_so.Chat.Editor.{Typed, edit, terminate-Typed}
use projeto_so.Chat.Message.{
  backspace_key, edited, no_enter, no_enter-head, no_enter-tail, kbd_process_char-edit,
}
use projeto_so.Chat.Session.{brings, enqueue_all-Holds, enqueue_all-lines}

pub submit_line-none :
    (stack buf : List ℕ) (rounds : ℕ) (user line : List ℕ) (w : World)
    → until_nul line ≡ codes "/deadlock"
    → length unsafe_log ≤ ready_of w
    → submit_line stack buf (suc rounds) user line w ≡ none
unfolding submit_line chat_try_command
submit_line-none stack buf rounds user line w holds enough =
    rw
      (
        str_equal-same_text line (codes "/deadlock")
            ∙ ap (λ s. same_text s (codes "/deadlock")) holds,
        (deadlock_demo_unsafe_deadlocks rounds w enough).1,
        ◌>>=◌,
      )
      refl

-- What is in the queue stays there, whatever the interrupts bring.
brings-append : (bytes q : List ℕ) → (new : List ℕ) × (brings bytes q ≡ q ++ new)
brings-append [] q = ([], sym (append-nil q))
brings-append (b ∷ bytes) q = elim (Bool-cases (leb capacity (length q))) [
  | inl full ↦ rw full (brings-append bytes q)
  | inr room ↦
      let (new, e) = brings-append bytes (q ++ u8 b ∷ []) in
      (u8 b ∷ new, rw room (e ∙ append_assoc q (u8 b ∷ []) new))
]

module _ (stack buf : List ℕ) (rounds : ℕ) where
  enter-none :
      (k : Kernel)
      → Typed (codes "/deadlock") k.chat.kbd
      → length unsafe_log ≤ ready_of k.world
      → kbd_process_char stack buf (suc rounds) b'\n' k ≡ none
  unfolding kbd_process_char kbd_enter on_chat
  enter-none k typed enough =
      rw
        (
          submit_line-none stack buf rounds (codes "vga") (terminate k.chat.kbd).line k.world
              (terminate-Typed typed).ended enough,
          ◌>>=◌,
          zoom,
        )
        refl

  -- The loop on a queue in which the command waits, behind keys that make the line what it is.
  abbrev Hangs : Run Kernel (Unit {0}) → (keys more t : List ℕ) → Type 0
  Hangs m keys more t =
      (k : Kernel)
      → Holds k.chat.ring (keys ++ b'\n' ∷ more)
      → Typed t k.chat.kbd
      → length unsafe_log ≤ ready_of k.world
      → m k ≡ none

  abbrev round : Run Kernel (Unit {0}) → Run Kernel (Unit {0})
  round after = do
    c ← kbd_pop
    elim c [ none ↦ pure tt | some b ↦ kbd_process_char stack buf (suc rounds) b >> after ]

  round-Hangs :
      (after : Run Kernel (Unit {0})) (keys more t : List ℕ)
      → no_enter keys ≡ true
      → edited keys t ≡ codes "/deadlock"
      → ((c : ℕ) (cs : List ℕ) → keys ≡ c ∷ cs → Hangs after cs more (edit backspace_key c t))
      → Hangs (round after) keys more t
  round-Hangs after [] more t ok made next k h typed enough =
      elim (kbd_pop-Holds k (b'\n' ∷ more) h) [
        | returns c k₁ popped (got, ring, trace, inputs, kbd, ser, files) ↦
            rw (popped, got, ◌>>=◌, enter-none k₁ (rw (kbd, sym made) typed) (rw inputs enough))
              refl
      ]
  round-Hangs after (b ∷ keys) more t ok made next k h typed enough =
      elim (kbd_pop-Holds k (b ∷ keys ++ b'\n' ∷ more) h) [
        | returns c k₁ popped (got, ring, trace, inputs, kbd, ser, files) ↦
            elim (kbd_process_char-edit stack buf (suc rounds) b k₁ t (no_enter-head b keys ok)
              (rw kbd typed)) [
                | returns _ k₂ runs e ↦
                    rw
                      (
                        popped,
                        got,
                        ◌>>=◌,
                        runs,
                        next b keys refl k₂ (rw (e.ring_same) ring) e.typed
                            (rw (e.inputs_same, inputs) enough),
                      )
                      refl
              ]
      ]

  loop-Hangs :
      (n : ℕ) (arrivals : List (List ℕ)) (keys more t : List ℕ)
      → no_enter keys ≡ true
      → edited keys t ≡ codes "/deadlock"
      → Hangs (kbd_loop stack buf (suc rounds) n arrivals) keys more t
  unfolding kbd_loop on_chat
  loop-Hangs zero arrivals keys more t ok made k h typed enough = refl
  loop-Hangs (suc n) [] keys more t ok made k h typed enough =
      round-Hangs (kbd_loop stack buf (suc rounds) n []) keys more t ok made
        (λ c cs e. loop-Hangs n [] cs more (edit backspace_key c t) (later e) (rw e at made)) k h
        typed enough
    where
      later : {c : ℕ} {cs : List ℕ} → keys ≡ c ∷ cs → no_enter cs ≡ true
      later {c} {cs} e = no_enter-tail c cs (rw e at ok)
  loop-Hangs (suc n) (bytes ∷ arrivals) keys more t ok made k h typed enough =
      let (new, e) = brings-append bytes (keys ++ b'\n' ∷ more) in
      let (kbd, ser) = enqueue_all-lines bytes k.chat in
      round-Hangs (kbd_loop stack buf (suc rounds) n arrivals) keys (more ++ new) t ok made
        (λ c cs e.
          loop-Hangs n arrivals cs (more ++ new) (edit backspace_key c t) (later e) (rw e at made))
        (record k { chat = enqueue_all bytes k.chat })
        ((rw (e, append_assoc) at (enqueue_all-Holds bytes (keys ++ b'\n' ∷ more) k.chat h)))
        (rw kbd typed) enough
    where
      later : {c : ℕ} {cs : List ℕ} → keys ≡ c ∷ cs → no_enter cs ≡ true
      later {c} {cs} e = no_enter-tail c cs (rw e at ok)

  -- If the keys that wait in the ring make the line `/deadlock` and an Enter follows them, whatever
  -- comes after, and the port gets ready once for each byte of the transcript, `chat_poll` does not
  -- return, for however many rounds its loops and the locks are followed and whatever the
  -- interrupts bring.
  pub chat_poll_freezes :
      (n : ℕ) (arrivals : List (List ℕ)) (keys more t : List ℕ) (k : Kernel)
      → no_enter keys ≡ true
      → edited keys t ≡ codes "/deadlock"
      → Holds k.chat.ring (keys ++ b'\n' ∷ more)
      → Typed t k.chat.kbd
      → length unsafe_log ≤ ready_of k.world
      → chat_poll stack buf (suc rounds) n arrivals k ≡ none
  unfolding chat_poll
  chat_poll_freezes n arrivals keys more t k ok made h typed enough =
      >>=-none (kbd_loop stack buf (suc rounds) n arrivals)
        (λ _ k₁. ser_loop stack buf (suc rounds) (suc (length k₁.world.screen.bus.inputs)) k₁)
        (loop-Hangs n arrivals keys more t ok made k h typed enough)
