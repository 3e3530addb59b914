-- ===== src/Chat/Init.antt =====
-- The state that `chat_init` sets up.
use projeto_so.Base.{◌+◌, ◌≡◌, refl, arith, [], length}
use projeto_so.Deadlock.{data_size}
use projeto_so.Deadlock.Init.{Initial, deadlock_init-Initial}
use projeto_so.Chat.{line_max, Kernel, chat_init}
use projeto_so.Chat.Queue.{Holds}
use projeto_so.Chat.Editor.{Typed, reset-Typed}

pub record Ready (k : Kernel) : Type 0 where
  pub empty_ring : Holds k.chat.ring []
  pub empty_kbd : Typed [] k.chat.kbd
  pub empty_ser : Typed [] k.chat.ser
  pub files : Initial k.world.files

-- Whatever the static data held, its arrays having their sizes, `chat_init` leaves an empty ring,
-- two empty lines, and the two files set up for a transfer.
pub chat_init-Ready :
    (k : Kernel)
    → length k.chat.kbd.line ≡ line_max + 1
    → length k.chat.ser.line ≡ line_max + 1
    → length k.world.files.file_vga.contents ≡ data_size
    → length k.world.files.file_serial.contents ≡ data_size
    → Ready (chat_init k)
unfolding chat_init
chat_init-Ready k kbd ser vga serial = record {
  empty_ring = record {
    head_small = omega arith;
    tail_at = refl;
    bounded = omega arith;
    entries = λ i h. absurd (omega arith);
  };
  empty_kbd = reset-Typed k.chat.kbd kbd;
  empty_ser = reset-Typed k.chat.ser ser;
  files = deadlock_init-Initial k.world.files vga serial;
}
