-- ===== src/Chat/Command.antt =====
-- A line as a command or a message, for any line but `/deadlock`.
use projeto_so.Base.{
  ℕ, zero, suc, ◌+◌, ◌<◌, ◌≤◌, ◌≡◌, refl, ap, ◌∙◌, arith, true, false, List, [], ◌∷◌, ◌==◌, length,
  until_nul, codes, get_or, some, Bool-cases, inl, inr,
}
use projeto_so.Io.{Run, pure, ◌>>=◌, ◌>>◌}
use projeto_so.Io.Returns.{Returns, returns, Returns-mono, >>=-run}
use projeto_so.Framebuffer.{console_light_red, console_light_green, console_light_cyan}
use projeto_so.Deadlock.{World, deadlock_demo_safe}
use projeto_so.Deadlock.Safe.{safe_log, deadlock_demo_safe_exchanges}
use projeto_so.Deadlock.Transcript.{>>-Returns, Stage-start, display-Stage, ready_of, length-bytes}
use projeto_so.Chat.{line_max, str_equal, help, chat_submit, chat_try_command, submit_line}
use projeto_so.Chat.Strings.{same_text, same_text_eq, str_equal-same_text}
use projeto_so.Chat.Submit.{message, Command, chat_try_command-pure, submit_line-Submitted}
use projeto_so.Chat.Outcome.{
  line_log, reply, transfers_of, Freezes, unmoved, then_exchanged, CanTransfer, Sent, Sent-nothing,
}

first_byte_of_empty : (s : List ℕ) → until_nul s ≡ [] → (get_or s 0 0 == 0) ≡ true
first_byte_of_empty [] e = refl
first_byte_of_empty (c ∷ s) e = ground (arith, e)

submit_empty :
    (stack buf : List ℕ) (rounds : ℕ) (user line : List ℕ) (w : World)
    → until_nul line ≡ []
    → ¬ Command (until_nul line)
    → submit_line stack buf rounds user line w ≡ some (tt, w)
unfolding submit_line chat_submit
submit_empty stack buf rounds user line w e other =
    >>=-run (chat_try_command stack rounds line) _ (chat_try_command-pure stack rounds line w other)
    ∙ rw (first_byte_of_empty line e) refl

-- A line that is no command.
message-Sent :
    (stack buf : List ℕ) (rounds : ℕ) (user line t : List ℕ) (w : World)
    → until_nul line ≡ t
    → ¬ Command t
    → length t ≤ line_max
    → length (until_nul user) ≤ 6
    → line_max + 16 ≤ length buf
    → length (line_log (until_nul user) t) ≤ ready_of w
    → Returns
        (submit_line stack buf rounds user line)
        w
        (λ _ w'. Sent 0 (line_log (until_nul user) t) w w')
message-Sent stack buf rounds user line [] w e other fits name room enough =
    returns tt w (submit_empty stack buf rounds user line w e (rw e other)) (Sent-nothing w)
message-Sent stack buf rounds user line (c ∷ t) w e other fits name room enough =
    Returns-mono
      (submit_line-Submitted stack buf rounds user line w (rw e other) (rw e (omega arith))
        (rw e fits) name room
        (rw e (omega (arith, enough, length-bytes (message (until_nul user) (c ∷ t))))))
      (λ _ w' s. record {
        moved = unmoved s.files_are;
        logged = rw e at (s.logged);
        spent = rw e at (s.spent);
        left_over = s.left_over;
      })

-- `/help` writes to the console only.
help-Sent : (w : World) → Returns help w (λ _ w'. Sent 0 [] w w')
unfolding help
help-Sent w =
    Returns-mono
      (>>-Returns (display-Stage _ console_light_cyan (Stage-start w)) λ w₁ s₁.
        >>-Returns (display-Stage _ console_light_green s₁)
          λ w₂ s₂. display-Stage _ console_light_red s₂)
      (λ _ w' s. record {
        moved = unmoved s.files_are;
        logged = s.logged;
        spent = s.spent;
        left_over = s.left_over;
      })

transfer-Sent :
    (stack : List ℕ) (rounds : ℕ) (w : World)
    → CanTransfer stack rounds w.files
    → length safe_log ≤ ready_of w
    → Returns (deadlock_demo_safe stack rounds) w (λ _ w'. Sent 1 safe_log w w')
transfer-Sent stack zero w can enough = absurd (omega (arith, can.followed))
transfer-Sent stack (suc rounds) w can enough =
    Returns-mono
      (deadlock_demo_safe_exchanges stack rounds w enough can.stack_size can.vga_file
        can.serial_file)
      (λ _ w' t. record {
        moved = then_exchanged (unmoved refl) t.exchanged;
        logged = t.logged;
        spent = t.spent;
        left_over = t.left_over;
      })

module _ (stack buf : List ℕ) (rounds : ℕ) (user line : List ℕ) where
  -- A command that returns is all that the line does.
  command-Returns :
      {m : Run World (Unit {0})} {w : World} {P : World → Type 0}
      → chat_try_command stack rounds line w ≡ (do m; pure true) w
      → Returns m w (λ _ w'. P w')
      → Returns (submit_line stack buf rounds user line) w (λ _ w'. P w')
  unfolding submit_line
  command-Returns e (returns _ w' runs p) = returns tt w' (rw (e, runs, ◌>>=◌) refl) p

  module _ {t : List ℕ} (holds : until_nul line ≡ t) where
    compared : (command : List ℕ) → str_equal line command ≡ same_text t (until_nul command)
    compared command =
        str_equal-same_text line command ∙ ap (λ s. same_text s (until_nul command)) holds

    no_freeze : ¬ Freezes t → str_equal line (codes "/deadlock") ≡ false
    no_freeze other =
        compared (codes "/deadlock") ∙ (elim (Bool-cases (same_text t (codes "/deadlock"))) [
          | inl e ↦ absurd (other (same_text_eq t (codes "/deadlock") e))
          | inr e ↦ e
        ])

    transfer-Returns :
        (w : World)
        → ¬ Freezes t
        → same_text t (codes "/transferir") ≡ true
        → CanTransfer stack rounds w.files
        → length safe_log ≤ ready_of w
        → Returns (submit_line stack buf rounds user line) w (λ _ w'. Sent 1 safe_log w w')
    unfolding chat_try_command
    transfer-Returns w other e can enough =
        command-Returns {m = deadlock_demo_safe stack rounds}
          (rw (no_freeze other, compared (codes "/transferir") ∙ e) refl)
          (transfer-Sent stack rounds w can enough)

    help-Returns :
        (w : World)
        → ¬ Freezes t
        → same_text t (codes "/transferir") ≡ false
        → same_text t (codes "/help") ≡ true
        → Returns (submit_line stack buf rounds user line) w (λ _ w'. Sent 0 [] w w')
    unfolding chat_try_command
    help-Returns w other e₁ e₂ =
        command-Returns {m = help}
          (rw (no_freeze other, compared (codes "/transferir") ∙ e₁, compared (codes "/help") ∙ e₂)
            refl)
          (help-Sent w)

    not-Command :
        ¬ Freezes t
        → same_text t (codes "/transferir") ≡ false
        → same_text t (codes "/help") ≡ false
        → ¬ Command t
    not-Command other e₁ e₂ (inl e) = other e
    not-Command other e₁ e₂ (inr (inl e)) = cc (ap (λ s. same_text s (codes "/transferir")) e)
    not-Command other e₁ e₂ (inr (inr e)) = cc (ap (λ s. same_text s (codes "/help")) e)

    -- A line with any text but `/deadlock`.
    pub submit_line-Sent :
        (w : World)
        → ¬ Freezes t
        → (0 < transfers_of t → CanTransfer stack rounds w.files)
        → length t ≤ line_max
        → length (until_nul user) ≤ 6
        → line_max + 16 ≤ length buf
        → length (reply (until_nul user) t) ≤ ready_of w
        → Returns
            (submit_line stack buf rounds user line)
            w
            (λ _ w'. Sent (transfers_of t) (reply (until_nul user) t) w w')
    unfolding reply transfers_of
    submit_line-Sent w other can fits name room enough =
        elim (Bool-cases (same_text t (codes "/transferir"))) [
          | inl e ↦ rw e (transfer-Returns w other e ((rw e at can) (omega arith)) (rw e at enough))
          | inr e₁ ↦ rw e₁ (elim (Bool-cases (same_text t (codes "/help"))) [
            | inl e₂ ↦ rw e₂ (help-Returns w other e₁ e₂)
            | inr e₂ ↦ rw e₂ (
                message-Sent stack buf rounds user line t w holds (not-Command other e₁ e₂) fits
                  name room (rw (e₁, e₂) at enough))
          ])
        ]
