-- ===== src/Framebuffer/Cells.antt =====
-- What the loops of the console do to the cells.
use projeto_so.Base.{
  ℕ, zero, suc, ◌+◌, ◌*◌, ◌%◌, ◌^◌, ◌≤◌, ◌<◌, ◌≡◌, arith, ◌&&◌, ◌==◌, leb, ltb, if◌then◌else◌,
  update, u8,
}
use projeto_so.Framebuffer.{
  vga_width, vga_height, console_white, console_black, Console, attribute, set_character,
  clear_cells, copy_rows, last_row_start, scroll_console,
}

-- A cell is the byte of its character and that of its colours.
abbrev pub Cell : Type 0
Cell = ℕ × ℕ

abbrev pub blank : Cell
blank = (b' ', 0x0F)

abbrev pub cell : (ℕ → ℕ) → ℕ → Cell
cell video i = (video (i * 2), video (i * 2 + 1))

pub set_character_byte :
    (idx c fg bg : ℕ) (video : ℕ → ℕ) (k : ℕ)
    → idx < 2 ^ 16
    → set_character idx c fg bg video k
      ≡ (if k == idx * 2 then u8 c else if k == idx * 2 + 1 then attribute fg bg else video k)
unfolding set_character
set_character_byte idx c fg bg video k small = ground arith

pub cell-set_character :
    (idx c fg bg : ℕ) (video : ℕ → ℕ) (k : ℕ)
    → idx < 2 ^ 16
    → cell (set_character idx c fg bg video) k
      ≡ (if k == idx then (u8 c, attribute fg bg) else cell video k)
cell-set_character idx c fg bg video k small = ground (
  arith,
  set_character_byte idx c fg bg video (k * 2) small,
  set_character_byte idx c fg bg video (k * 2 + 1) small,
)

pub clear_cells_byte :
    (n i : ℕ) (video : ℕ → ℕ) (k : ℕ)
    → i + n ≤ 2 ^ 16
    → clear_cells n i video k ≡ (
        if leb (i * 2) k && ltb k ((i + n) * 2)
        then (if k % 2 == 0 then b' ' else 0x0F)
        else video k)
unfolding clear_cells
clear_cells_byte zero i video k small = ground arith
clear_cells_byte (suc n) i video k small = ground (
  arith,
  clear_cells_byte n (i + 1) (set_character i b' ' console_white console_black video) k,
  set_character_byte i b' ' console_white console_black video k,
)

pub copy_rows_byte :
    (n i : ℕ) (video : ℕ → ℕ) (k : ℕ)
    → copy_rows n i video k
      ≡ (if leb (i * 2) k && ltb k ((i + n) * 2) then video (k + vga_width * 2) else video k)
unfolding copy_rows
copy_rows_byte zero i video k = ground arith
copy_rows_byte (suc n) i video k = ground (
  arith,
  copy_rows_byte n (i + 1)
      (update (update video (i * 2) (video ((i + vga_width) * 2))) (i * 2 + 1)
        (update video (i * 2) (video ((i + vga_width) * 2)) ((i + vga_width) * 2 + 1)))
      k,
)

-- Scrolling moves each row up by one, leaves the last row blank, and changes nothing else.
pub scroll_console_byte :
    (con : Console) (k : ℕ)
    → (scroll_console con).video_memory k ≡ (
        if ltb k (last_row_start * 2)
        then con.video_memory (k + vga_width * 2)
        else if ltb k (vga_width * vga_height * 2)
        then (if k % 2 == 0 then b' ' else 0x0F)
        else con.video_memory k)
unfolding scroll_console
scroll_console_byte con k = ground (
  arith,
  clear_cells_byte vga_width last_row_start (copy_rows last_row_start 0 con.video_memory) k,
  copy_rows_byte last_row_start 0 con.video_memory k,
)

pub cell-scroll_console :
    (con : Console) (i : ℕ)
    → cell (scroll_console con).video_memory i ≡ (
        if ltb i last_row_start
        then cell con.video_memory (i + vga_width)
        else if ltb i (vga_width * vga_height)
        then blank
        else cell con.video_memory i)
cell-scroll_console con i =
    ground (arith, scroll_console_byte con (i * 2), scroll_console_byte con (i * 2 + 1))
