-- ===== src/Framebuffer.antt =====
-- src/framebuffer.c and src/framebuffer.h: the text console in the VGA's memory.
-- `video_memory` is the memory from VGA_ADDRESS on, by the offset of the byte.
pub mod Cells
pub mod Bounds
pub mod Paper
pub mod Erase
pub mod Cursor
mod Tests
use projeto_so.Base.{
  ℕ, zero, suc, ◌+◌, ◌-◌, ◌*◌, ◌/◌, ◌%◌, ◌^◌, bit_and, bit_or, List, [], ◌∷◌, ◌==◌, leb,
  if◌then◌else◌, update, u8, u16, u32,
}
use projeto_so.Io.{Bus, Run, pure, zoom, ◌>>=◌, ◌>>◌, outb}

abbrev pub vga_width : ℕ
vga_width = 80

abbrev pub vga_height : ℕ
vga_height = 25

abbrev pub vga_cmd_port : ℕ
vga_cmd_port = 0x3D4

abbrev pub vga_data_port : ℕ
vga_data_port = 0x3D5

abbrev pub vga_cursor_high_byte : ℕ
vga_cursor_high_byte = 14

abbrev pub vga_cursor_low_byte : ℕ
vga_cursor_low_byte = 15

abbrev pub console_black : ℕ
console_black = 0

abbrev pub console_magenta : ℕ
console_magenta = 5

abbrev pub console_light_grey : ℕ
console_light_grey = 7

abbrev pub console_light_green : ℕ
console_light_green = 10

abbrev pub console_light_cyan : ℕ
console_light_cyan = 11

abbrev pub console_light_red : ℕ
console_light_red = 12

abbrev pub console_light_magenta : ℕ
console_light_magenta = 13

abbrev pub console_light_brown : ℕ
console_light_brown = 14

abbrev pub console_white : ℕ
console_white = 15

pub record Console : Type 0 where
  pub video_memory : ℕ → ℕ
  pub current_position : ℕ  -- unsigned short

-- The console and the ports.
pub record Screen : Type 0 where
  pub bus : Bus
  pub console : Console

-- Code on the ports, run with the console beside it.
abbrev pub on_bus : {A : Type 0} → Run Bus A → Run Screen A
on_bus = zoom (λ (s : Screen). s.bus) (λ s b. record s { bus = b })

unfoldable pub update_cursor_position : ℕ → Run Bus (Unit {0})
update_cursor_position pos = do
  outb vga_cmd_port vga_cursor_high_byte
  outb vga_data_port (bit_and (pos / 2 ^ 8) 0x00FF)
  outb vga_cmd_port vga_cursor_low_byte
  outb vga_data_port (bit_and pos 0x00FF)

-- `((bg & 0x0F) << 4) | (fg & 0x0F)`
abbrev pub attribute : ℕ → ℕ → ℕ
attribute fg bg = u8 (bit_or (bit_and bg 0x0F * 2 ^ 4) (bit_and fg 0x0F))

unfoldable pub set_character : (idx c fg bg : ℕ) → (ℕ → ℕ) → ℕ → ℕ
set_character idx c fg bg video =
    let vga_idx = u32 (idx * 2) in
    update (update video vga_idx (u8 c)) (u32 (vga_idx + 1)) (attribute fg bg)

-- `for (i = …; …; i++) set_character(i, ' ', CONSOLE_WHITE, CONSOLE_BLACK)`
unfoldable pub clear_cells : (left i : ℕ) → (ℕ → ℕ) → ℕ → ℕ
clear_cells zero i video = video
clear_cells (suc n) i video =
    clear_cells n (i + 1) (set_character i b' ' console_white console_black video)

-- The copying loop of `scroll_console`.
unfoldable pub copy_rows : (left i : ℕ) → (ℕ → ℕ) → ℕ → ℕ
copy_rows zero i video = video
copy_rows (suc n) i video =
    let next_row = i + vga_width in
    let first = update video (i * 2) (video (next_row * 2)) in
    copy_rows n (i + 1) (update first (i * 2 + 1) (first (next_row * 2 + 1)))

abbrev pub last_row_start : ℕ
last_row_start = (vga_height - 1) * vga_width

unfoldable pub scroll_console : Console → Console
scroll_console con = record {
  video_memory = clear_cells vga_width last_row_start (copy_rows last_row_start 0 con.video_memory);
  current_position = last_row_start;
}

-- One round of the loop of `console_write_colored`: the character, and the scroll if it is due.
unfoldable pub put_character : (character fg bg : ℕ) → Console → Console
put_character character fg bg con =
    let pos = con.current_position in
    if character == b'\n'
    then record con { current_position = u16 (pos + (vga_width - pos % vga_width)) }
    else record con {
      video_memory = set_character pos character fg bg con.video_memory;
      current_position = u16 (pos + 1);
    }

unfoldable pub scroll_if_full : Console → Console
scroll_if_full con =
    if leb (vga_width * vga_height) con.current_position then scroll_console con else con

unfoldable pub write_loop : List ℕ → (fg bg : ℕ) → Console → Console
write_loop [] fg bg con = con
write_loop (c ∷ text) fg bg con =
    let rest = write_loop text fg bg (scroll_if_full (put_character c fg bg con)) in
    if c == 0 then con else rest

-- The end of the console functions: the cursor follows the position.
abbrev pub show_cursor : Console → Run Screen (Unit {0})
show_cursor con s =
    on_bus (update_cursor_position con.current_position) (record s { console = con })

unfoldable pub console_clear : Run Screen (Unit {0})
console_clear s =
    show_cursor
      (record {
        video_memory = clear_cells (vga_width * vga_height) 0 s.console.video_memory;
        current_position = 0;
      })
      s

unfoldable pub console_write_colored : List ℕ → (fg bg : ℕ) → Run Screen (Unit {0})
console_write_colored text fg bg s = show_cursor (write_loop text fg bg s.console) s

unfoldable pub console_write : List ℕ → Run Screen (Unit {0})
console_write text = console_write_colored text console_white console_black

-- The change of the console in `console_backspace`, after its guard.
unfoldable pub erase_last : Console → Console
erase_last con =
    let pos = con.current_position - 1 in
    record {
      video_memory = set_character pos b' ' console_white console_black con.video_memory;
      current_position = pos;
    }

unfoldable pub console_backspace : Run Screen (Unit {0})
console_backspace s =
    if s.console.current_position == 0 then pure tt s else show_cursor (erase_last s.console) s
