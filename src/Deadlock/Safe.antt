-- ===== src/Deadlock/Safe.antt =====
-- The safe transfer: the locks in one order, and the exchange of the two files.
use projeto_so.Base.{
  ℕ, suc, ◌+◌, ◌≤◌, ◌≡◌, refl, ◌∙◌, arith, true, leb, List, ◌++◌, length, until_nul, codes,
}
use projeto_so.Io.{◌>>◌}
use projeto_so.Io.Traffic.{Tail}
use projeto_so.Io.Returns.{Returns, Returns-mono, Returns-eq}
use projeto_so.Framebuffer.{console_white, console_light_magenta}
use projeto_so.Deadlock.{
  data_size, Files, World, spin_unlock, put_locks, unlock_both, swap_contents, announce,
  deadlock_demo_safe,
}
use projeto_so.Deadlock.Swap.{IsFile, Exchanged, swap_contents-Exchanged}
use projeto_so.Deadlock.Spin.{lock_vga_free, lock_serial_free}
use projeto_so.Deadlock.Transcript.{
  >>-Returns, Stage, Stage-start, say-Stage, display-Stage, on_files-Stage, delay-Stage, log_of,
  ready_of,
}

-- What the safe transfer writes to the log.
abbrev pub safe_log : List ℕ
safe_log =
    codes "  TRANSFERENCIA SEGURA (hierarquia)\r\n"
    ++ codes "[Seguro] Pegando lock_vga (1o)...\r\n"
    ++ codes "[Seguro] lock_vga ok!\r\n"
    ++ codes "[Seguro] Pegando lock_serial (2o)...\r\n"
    ++ codes "[Seguro] lock_serial ok!\r\n"
    ++ codes "[Seguro] Transferindo dados...\r\n"
    ++ codes "[Seguro] Locks liberados!\r\n\r\n"

announce-Stage :
    {w₀ w : World} {f : Files} {text : List ℕ}
    → length safe_log ≤ ready_of w₀
    → (leb (length text + 32) (length safe_log) ≡ true)
    → Stage w₀ f text w
    → Returns announce w
        (λ _ w'. Stage w₀ f (text ++ codes "[Seguro] Transferindo dados...\r\n") w')
unfolding announce
announce-Stage {w₀} {w} enough room s = Returns-eq refl (
    >>-Returns
      (say-Stage (codes "[Seguro] Transferindo dados...\r\n") (length safe_log) enough room s)
      λ w₁ s₁. >>-Returns (display-Stage (codes "[Seguro] Trocando: ") console_white s₁) λ w₂ s₂.
        >>-Returns (display-Stage w.files.file_vga.contents console_light_magenta s₂) λ w₃ s₃.
          >>-Returns (display-Stage (codes " <-> ") console_white s₃) λ w₄ s₄.
            >>-Returns (display-Stage w.files.file_serial.contents console_light_magenta s₄)
              λ w₅ s₅. display-Stage (codes "\n") console_white s₅)

pub record Transferred (w w' : World) : Type 0 where
  pub exchanged : Exchanged w.files w'.files
  pub vga_free : w'.files.file_vga.lock.locked ≡ 0
  pub serial_free : w'.files.file_serial.lock.locked ≡ 0
  pub logged : log_of w' ≡ log_of w ++ safe_log
  pub spent : ready_of w' + length safe_log ≡ ready_of w
  pub left_over : Tail w.screen.bus.inputs w'.screen.bus.inputs

-- The files at the end.
after_transfer : List ℕ → Files → Files
after_transfer stack f = unlock_both (swap_contents stack (put_locks 1 1 f))

module _ (stack : List ℕ) (rounds : ℕ) (w : World) (enough : length safe_log ≤ ready_of w) where
  safe-Stage :
      Returns
        (deadlock_demo_safe stack (suc rounds))
        w
        (λ _ w'. Stage w (after_transfer stack w.files) safe_log w')
  unfolding deadlock_demo_safe put_locks after_transfer
  safe-Stage = >>-Returns (on_files-Stage _ refl (Stage-start w)) λ w₁ s₁.
      >>-Returns (say-Stage _ (length safe_log) enough refl s₁) λ w₂ s₂.
        >>-Returns (display-Stage _ _ s₂) λ w₃ s₃. >>-Returns (display-Stage _ _ s₃) λ w₄ s₄.
          >>-Returns (say-Stage _ (length safe_log) enough refl s₄) λ w₅ s₅.
            >>-Returns (display-Stage _ _ s₅) λ w₆ s₆.
              >>-Returns (on_files-Stage _ (lock_vga_free rounds _ refl) s₆) λ w₇ s₇.
                >>-Returns (say-Stage _ (length safe_log) enough refl s₇) λ w₈ s₈.
                  >>-Returns (display-Stage _ _ s₈) λ w₉ s₉. >>-Returns (delay-Stage s₉) λ v d.
                    >>-Returns (say-Stage _ (length safe_log) enough refl d) λ w₁₀ s₁₀.
                      >>-Returns (display-Stage _ _ s₁₀) λ w₁₁ s₁₁.
                        >>-Returns (on_files-Stage _ (lock_serial_free rounds _ refl) s₁₁)
                          λ w₁₂ s₁₂.
                            >>-Returns (say-Stage _ (length safe_log) enough refl s₁₂) λ w₁₃ s₁₃.
                              >>-Returns (display-Stage _ _ s₁₃) λ w₁₄ s₁₄.
                                >>-Returns (announce-Stage enough refl s₁₄) λ w₁₅ s₁₅.
                                  >>-Returns (on_files-Stage _ refl s₁₅) λ w₁₆ s₁₆.
                                    >>-Returns (on_files-Stage _ refl s₁₆) λ w₁₇ s₁₇.
                                      >>-Returns (say-Stage _ (length safe_log) enough refl s₁₇)
                                        λ w₁₈ s₁₈. display-Stage _ _ s₁₈

after_transfer-Transferred :
    (stack : List ℕ) {w w' : World}
    → length stack ≡ data_size
    → IsFile w.files.file_vga.contents
    → IsFile w.files.file_serial.contents
    → Stage w (after_transfer stack w.files) safe_log w'
    → Transferred w w'
unfolding after_transfer unlock_both put_locks spin_unlock
after_transfer-Transferred stack {w} {w'} room v s stage = record {
  exchanged = rw (stage.files_are) (record {
    vga_text = e.vga_text;
    serial_text = e.serial_text;
    vga_file = e.vga_file;
    serial_file = e.serial_file;
    vga_owner = e.vga_owner;
    serial_owner = e.serial_owner;
  });
  vga_free = rw (stage.files_are) refl;
  serial_free = rw (stage.files_are) refl;
  logged = stage.logged;
  spent = stage.spent;
  left_over = stage.left_over;
}
  where
    e : Exchanged (put_locks 1 1 w.files) (swap_contents stack (put_locks 1 1 w.files))
    e = swap_contents-Exchanged stack (put_locks 1 1 w.files) room v s

-- If both arrays hold strings that end inside them, the port gets ready once for each byte of the
-- log, and the locks are followed for at least one round, the safe transfer returns: the two texts are exchanged, both
-- locks are free, the owners are kept, and the log has got its seven lines in order. It does so
-- whatever the locks and the stack held before.
pub deadlock_demo_safe_exchanges :
    (stack : List ℕ) (rounds : ℕ) (w : World)
    → length safe_log ≤ ready_of w
    → length stack ≡ data_size
    → IsFile w.files.file_vga.contents
    → IsFile w.files.file_serial.contents
    → Returns (deadlock_demo_safe stack (suc rounds)) w (λ _ w'. Transferred w w')
deadlock_demo_safe_exchanges stack rounds w enough room v s =
    Returns-mono (safe-Stage stack rounds w enough)
      (λ _ w' stage. after_transfer-Transferred stack room v s stage)

-- If both arrays hold strings that end inside them and the port gets ready once for each
-- byte of the two logs, two safe transfers return, and each file then holds its first text again.
pub deadlock_demo_safe_twice :
    (stack₁ stack₂ : List ℕ) (rounds : ℕ) (w : World)
    → length safe_log + length safe_log ≤ ready_of w
    → length stack₁ ≡ data_size
    → length stack₂ ≡ data_size
    → IsFile w.files.file_vga.contents
    → IsFile w.files.file_serial.contents
    → Returns
        (do deadlock_demo_safe stack₁ (suc rounds); deadlock_demo_safe stack₂ (suc rounds))
        w
        (λ _ w'.
          (until_nul w'.files.file_vga.contents ≡ until_nul w.files.file_vga.contents)
          × (until_nul w'.files.file_serial.contents ≡ until_nul w.files.file_serial.contents))
deadlock_demo_safe_twice stack₁ stack₂ rounds w enough room₁ room₂ v s =
    >>-Returns (deadlock_demo_safe_exchanges stack₁ rounds w (omega (arith, enough)) room₁ v s)
      λ w₁ first.
        Returns-mono
          (deadlock_demo_safe_exchanges stack₂ rounds w₁ (omega (arith, enough, first.spent)) room₂
            first.exchanged.vga_file first.exchanged.serial_file)
          (λ _ w₂ second. (
            second.exchanged.vga_text ∙ first.exchanged.serial_text,
            second.exchanged.serial_text ∙ first.exchanged.vga_text,
          ))
