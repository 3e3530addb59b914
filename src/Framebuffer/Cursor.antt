-- ===== src/Framebuffer/Cursor.antt =====
-- The blinking cursor: the registers of the VGA controller after the bytes that it was sent.
use projeto_so.Base.{
  ℕ, ◌+◌, ◌*◌, ◌/◌, ◌^◌, ◌<◌, ◌≡◌, refl, arith, List, [], ◌∷◌, ◌==◌, if◌then◌else◌, Bool-cases, inl,
  inr,
}
use projeto_so.Bits.Word.{bit_and_mask}
use projeto_so.Io.{Event, sent, received, cli, sti, outb}
use projeto_so.Io.Returns.{Returns, returns, Returns-eq}
use projeto_so.Io.Traffic.{sent_on, Busy, still, then_sent}
use projeto_so.Serial.{uart_data}
use projeto_so.Framebuffer.{
  vga_cmd_port, vga_data_port, vga_cursor_high_byte, vga_cursor_low_byte, Console, Screen,
  update_cursor_position, show_cursor, console_write_colored, console_backspace, console_clear,
  write_loop, erase_last,
}

-- The command port names a register, the data port sets it.
pub record Controller : Type 0 where
  pub index : ℕ
  pub high : ℕ
  pub low : ℕ

abbrev pub select : ℕ → Controller → Controller
select v c = record c { index = v }

abbrev pub store : ℕ → Controller → Controller
store v c =
    if c.index == vga_cursor_high_byte
    then record c { high = v }
    else if c.index == vga_cursor_low_byte
    then record c { low = v }
    else c

abbrev pub controller : List Event → Controller
controller [] = record { index = 0; high = 0; low = 0 }
controller (sent p v ∷ t) =
    if p == vga_cmd_port
    then select v (controller t)
    else if p == vga_data_port
    then store v (controller t)
    else controller t
controller (received p v ∷ t) = controller t
controller (cli ∷ t) = controller t
controller (sti ∷ t) = controller t

-- Where the cursor blinks.
abbrev pub cursor : List Event → ℕ
cursor t = (controller t).high * 256 + (controller t).low

-- What a console function leaves, `con` being its console.
pub record Shown (con : Console) (s s' : Screen) : Type 0 where
  pub same_console : s'.console ≡ con
  pub follows : cursor s'.bus.trace ≡ con.current_position
  pub same_inputs : s'.bus.inputs ≡ s.bus.inputs
  pub serial_same : sent_on uart_data s'.bus.trace ≡ sent_on uart_data s.bus.trace

pub show_cursor-Shown :
    (con : Console) (s : Screen)
    → con.current_position < 2 ^ 16
    → Returns (show_cursor con) s (λ _ s'. Shown con s s')
unfolding update_cursor_position outb
show_cursor-Shown con s small = returns tt _ refl (record {
  same_console = refl;
  follows =
      ground
        (arith, bit_and_mask 8 con.current_position, bit_and_mask 8 (con.current_position / 2 ^ 8));
  same_inputs = refl;
  serial_same = refl;
})

-- What every console function keeps: the answers of the devices, and what went out on the serial
-- line.
pub record Quiet (s s' : Screen) : Type 0 where
  pub inputs_kept : s'.bus.inputs ≡ s.bus.inputs
  pub serial_kept : sent_on uart_data s'.bus.trace ≡ sent_on uart_data s.bus.trace
  pub busy : Busy s.bus.trace s'.bus.trace

show_cursor-Quiet : (con : Console) (s : Screen) → Returns (show_cursor con) s (λ _ s'. Quiet s s')
unfolding update_cursor_position outb
show_cursor-Quiet con s = returns tt _ refl (record {
  inputs_kept = refl;
  serial_kept = refl;
  busy = then_sent _ _ refl (then_sent _ _ refl (then_sent _ _ refl (then_sent _ _ refl still)));
})

pub console_write_colored-Quiet :
    (text : List ℕ) (fg bg : ℕ) (s : Screen)
    → Returns (console_write_colored text fg bg) s (λ _ s'. Quiet s s')
unfolding console_write_colored
console_write_colored-Quiet text fg bg s =
    Returns-eq {n = show_cursor (write_loop text fg bg s.console)} refl (show_cursor-Quiet _ s)

pub console_backspace-Quiet : (s : Screen) → Returns console_backspace s (λ _ s'. Quiet s s')
unfolding console_backspace
console_backspace-Quiet s = elim (Bool-cases (s.console.current_position == 0)) [
  | inl first ↦
      returns tt s (rw first refl) (record { inputs_kept = refl; serial_kept = refl; busy = still })
  | inr more ↦
      Returns-eq {n = show_cursor (erase_last s.console)} (rw more refl) (show_cursor-Quiet _ s)
]

pub console_clear-Quiet : (s : Screen) → Returns console_clear s (λ _ s'. Quiet s s')
unfolding console_clear
console_clear-Quiet s = Returns-eq {n = show_cursor _} refl (show_cursor-Quiet _ s)
