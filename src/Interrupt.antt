-- ===== src/Interrupt.antt =====
-- src/interrupt.c: the handler that all interrupts share. What `pushad` saved is not looked at.
pub mod Dispatch
pub mod Typing
pub mod Stubs
mod Tests
mod TypingTests
use projeto_so.Base.{ℕ, ◌==◌, if◌then◌else◌}
use projeto_so.Io.{Run, pure, ◌>>=◌, ◌>>◌}
use projeto_so.Chat.{Kernel, on_cpu}
use projeto_so.Keyboard.{keyboard_handler}
use projeto_so.Pic.{pic_acknowledge}

abbrev pub keyboard_interrupt : ℕ
keyboard_interrupt = 33

unfoldable pub interrupt_handler : ℕ → Run Kernel (Unit {0})
interrupt_handler interrupt = do
  if interrupt == keyboard_interrupt then keyboard_handler else pure tt
  on_cpu (pic_acknowledge interrupt)
