-- ===== src/Pic.antt =====
-- src/pic.c and src/pic.h: the two interrupt controllers.
pub mod Chips
use projeto_so.Base.{ℕ, ◌+◌, Bool, ◌||◌, ltb, leb, if◌then◌else◌}
use projeto_so.Io.{Bus, Run, pure, ◌>>=◌, ◌>>◌, inb, outb}

abbrev pub pic1_command : ℕ
pic1_command = 0x20

abbrev pub pic1_data : ℕ
pic1_data = 0x21

abbrev pub pic2_command : ℕ
pic2_command = 0xA0

abbrev pub pic2_data : ℕ
pic2_data = 0xA1

abbrev pub pic1_start_interrupt : ℕ
pic1_start_interrupt = 0x20

abbrev pub pic2_start_interrupt : ℕ
pic2_start_interrupt = 0x28

abbrev pub pic2_end_interrupt : ℕ
pic2_end_interrupt = pic2_start_interrupt + 7

abbrev pub pic_ack : ℕ
pic_ack = 0x20

abbrev pub icw1_init : ℕ
icw1_init = 0x11

abbrev pub icw4_8086 : ℕ
icw4_8086 = 0x01

unfoldable pub pic_remap : Run Bus (Unit {0})
pic_remap = do
  mask1 ← inb pic1_data
  mask2 ← inb pic2_data
  outb pic1_command icw1_init
  outb pic2_command icw1_init
  outb pic1_data pic1_start_interrupt
  outb pic2_data pic2_start_interrupt
  outb pic1_data 0x04
  outb pic2_data 0x02
  outb pic1_data icw4_8086
  outb pic2_data icw4_8086
  outb pic1_data mask1
  outb pic2_data mask2

unfoldable pub pic_acknowledge : ℕ → Run Bus (Unit {0})
pic_acknowledge interrupt =
    if ltb interrupt pic1_start_interrupt || ltb pic2_end_interrupt interrupt then pure tt else do
      if leb pic2_start_interrupt interrupt then outb pic2_command pic_ack else pure tt
      outb pic1_command pic_ack
