-- ===== src/Deadlock/Unsafe.antt =====
-- The unsafe transfer: each side holds the lock that the other waits for.
use projeto_so.Base.{ℕ, suc, ◌≤◌, ◌≡◌, refl, ◌∙◌, List, ◌++◌, none, codes, length}
use projeto_so.Io.Returns.{Returns, returns, >>=-run, >>=-none}
use projeto_so.Deadlock.{
  World, lock_serial, put_locks, on_files, unsafe_before_last_lock, deadlock_demo_unsafe,
}
use projeto_so.Deadlock.Spin.{lock_vga_free, lock_serial_held}
use projeto_so.Deadlock.Transcript.{
  >>-Returns, Stage, Stage-start, say-Stage, display-Stage, on_files-Stage, delay-Stage, log_of,
  ready_of,
}

-- What the log shows before the standstill.
abbrev pub unsafe_log : List ℕ
unsafe_log =
    codes "  DEMO: DEADLOCK\r\n"
    ++ codes "[VGA]    Travando lock_vga...\r\n"
    ++ codes "[VGA]    lock_vga travado!\r\n"
    ++ codes "[Serial] Travando lock_serial...\r\n"
    ++ codes "[Serial] lock_serial travado!\r\n"
    ++ codes "\r\n[VGA]    Tentando lock_serial...\r\n"
    ++ codes "[Serial] Tentando lock_vga...\r\n"
    ++ codes "\r\n DEADLOCK: Os dois aguardam na fila infinitamente.\r\n"
    ++ codes "Kernel travou. Reset para sair.\r\n\r\n"

unsafe-Stage :
    (rounds : ℕ) (w : World)
    → length unsafe_log ≤ ready_of w
    → Returns
        (unsafe_before_last_lock (suc rounds))
        w
        (λ _ w'. Stage w (put_locks 1 1 w.files) unsafe_log w')
unfolding unsafe_before_last_lock put_locks
unsafe-Stage rounds w enough = >>-Returns (on_files-Stage _ refl (Stage-start w)) λ w₁ s₁.
    >>-Returns (say-Stage _ (length unsafe_log) enough refl s₁) λ w₂ s₂.
      >>-Returns (display-Stage _ _ s₂) λ w₃ s₃.
        >>-Returns (say-Stage _ (length unsafe_log) enough refl s₃) λ w₄ s₄.
          >>-Returns (display-Stage _ _ s₄) λ w₅ s₅.
            >>-Returns (on_files-Stage _ (lock_vga_free rounds _ refl) s₅) λ w₆ s₆.
              >>-Returns (say-Stage _ (length unsafe_log) enough refl s₆) λ w₇ s₇.
                >>-Returns (display-Stage _ _ s₇) λ w₈ s₈. >>-Returns (delay-Stage s₈) λ v d.
                  >>-Returns (say-Stage _ (length unsafe_log) enough refl d) λ w₉ s₉.
                    >>-Returns (display-Stage _ _ s₉) λ w₁₀ s₁₀.
                      >>-Returns (on_files-Stage _ refl s₁₀) λ w₁₁ s₁₁.
                        >>-Returns (say-Stage _ (length unsafe_log) enough refl s₁₁) λ w₁₂ s₁₂.
                          >>-Returns (display-Stage _ _ s₁₂) λ w₁₃ s₁₃.
                            >>-Returns (delay-Stage s₁₃) λ v' d'.
                              >>-Returns (say-Stage _ (length unsafe_log) enough refl d') λ w₁₄ s₁₄.
                                >>-Returns (say-Stage _ (length unsafe_log) enough refl s₁₄)
                                  λ w₁₅ s₁₅.
                                    >>-Returns (say-Stage _ (length unsafe_log) enough refl s₁₅)
                                      λ w₁₆ s₁₆.
                                        >>-Returns (say-Stage _ (length unsafe_log) enough refl s₁₆)
                                          λ w₁₇ s₁₇. >>-Returns (display-Stage _ _ s₁₇) λ w₁₈ s₁₈.
                                            >>-Returns (display-Stage _ _ s₁₈) λ w₁₉ s₁₉.
                                              >>-Returns (display-Stage _ _ s₁₉)
                                                λ w₂₀ s₂₀. display-Stage _ _ s₂₀

-- Both locks are held, and the log tells of it.
pub record Standstill (w w' : World) : Type 0 where
  pub vga_held : w'.files.file_vga.lock.locked ≡ 1
  pub serial_held : w'.files.file_serial.lock.locked ≡ 1
  pub logged : log_of w' ≡ log_of w ++ unsafe_log

on_files-none :
    (rounds : ℕ) (w : World)
    → w.files.file_serial.lock.locked ≡ 1
    → on_files (lock_serial rounds) w ≡ none
unfolding on_files
on_files-none rounds w held = rw (lock_serial_held rounds w.files held, on_files) refl

-- The demonstration of the deadlock, with the port ready once for each byte of its log: it gets to its last
-- `spin_lock` with both locks held and its nine lines in the log, and from there it does not
-- return, for however many rounds that lock is tried.
pub deadlock_demo_unsafe_deadlocks :
    (rounds : ℕ) (w : World)
    → length unsafe_log ≤ ready_of w
    → Returns (unsafe_before_last_lock (suc rounds)) w (λ _ w'. Standstill w w')
      × (deadlock_demo_unsafe (suc rounds) w ≡ none)
unfolding deadlock_demo_unsafe put_locks
deadlock_demo_unsafe_deadlocks rounds w enough = elim (unsafe-Stage rounds w enough) [
  | returns _ w' runs stage ↦ (
    returns tt w' runs (record {
      vga_held = rw (stage.files_are) refl;
      serial_held = rw (stage.files_are) refl;
      logged = stage.logged;
    }),
    >>=-run (unsafe_before_last_lock (suc rounds)) _ runs
        ∙ >>=-none (on_files (lock_serial (suc rounds))) _
            (on_files-none (suc rounds) w' (rw (stage.files_are) refl)),
  )
]
