-- ===== src/Serial.antt =====
-- src/serial.c: the driver of the serial port COM1, by polling.
-- A C string is the list of its bytes; it ends at its first 0, or where the list ends.
pub mod Ready
pub mod Print
mod Tests
use projeto_so.Base.{
  ℕ, zero, suc, ◌+◌, ◌≡◌, Bool, not, List, [], ◌∷◌, bit_and, ◌==◌, if◌then◌else◌, length,
}
use projeto_so.Io.{Bus, Run, pure, hang, ◌>>=◌, ◌>>◌, outb, inb}

abbrev pub com1_base : ℕ
com1_base = 0x3F8

abbrev pub uart_data : ℕ
uart_data = com1_base + 0

abbrev pub uart_int_en : ℕ
uart_int_en = com1_base + 1

abbrev pub uart_fifo_ctrl : ℕ
uart_fifo_ctrl = com1_base + 2

abbrev pub uart_line_ctrl : ℕ
uart_line_ctrl = com1_base + 3

abbrev pub uart_modem_ctrl : ℕ
uart_modem_ctrl = com1_base + 4

abbrev pub uart_line_stat : ℕ
uart_line_stat = com1_base + 5

unfoldable pub serial_initialize : Run Bus (Unit {0})
serial_initialize = do
  outb uart_int_en 0x00
  outb uart_line_ctrl 0x80
  outb uart_data 0x01
  outb uart_int_en 0x00
  outb uart_line_ctrl 0x03
  outb uart_fifo_ctrl 0xC7
  outb uart_modem_ctrl 0x03

pub is_transmit_buffer_ready : Run Bus ℕ
is_transmit_buffer_ready = do v ← inb uart_line_stat; pure (bit_and v 0x20)

-- The busy-wait of `serial_write_char`.
pub wait_transmit : ℕ → Run Bus (Unit {0})
wait_transmit zero = hang
wait_transmit (suc rounds) = do
  ready ← is_transmit_buffer_ready
  let again = wait_transmit rounds
  if ready == 0 then again else pure tt

-- Each round takes one recorded answer, so these rounds outlast the answers.
unfoldable pub serial_write_char : ℕ → Run Bus (Unit {0})
serial_write_char x b = (do wait_transmit (suc (length b.inputs)); outb uart_data x) b

unfoldable pub serial_print : List ℕ → Run Bus (Unit {0})
serial_print [] = pure tt
serial_print (c ∷ mensagem) =
    let rest = serial_print mensagem in if c == 0 then pure tt else serial_write_char c >> rest

unfoldable pub serial_rx_ready : Run Bus Bool
serial_rx_ready = do v ← inb uart_line_stat; pure (not (bit_and v 0x01 == 0))

unfoldable pub serial_read_byte : Run Bus ℕ
serial_read_byte = inb uart_data
