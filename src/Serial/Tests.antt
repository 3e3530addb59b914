-- ===== src/Serial/Tests.antt =====
-- Runs of the serial driver, and its theorems at inputs that meet their conditions.
use projeto_so.Base.{◌≡◌, refl, [], ◌∷◌, some, codes, arith}
use projeto_so.Io.{sent, received, Bus, outb, inb}
use projeto_so.Io.Returns.{Returns}
use projeto_so.Serial.{serial_print, serial_write_char, wait_transmit, is_transmit_buffer_ready}
use projeto_so.Serial.Print.{Printed, serial_print_returns}

-- The port is busy once, and then takes two bytes.
abbrev two_ready : Bus
two_ready = record { inputs = 0x00 ∷ 0x20 ∷ 0x60 ∷ []; trace = [] }

print_ok :
    serial_print (codes "ok") two_ready
    ≡ some (
      tt,
      record {
        inputs = [];
        trace =
            sent 0x3F8 b'k'
            ∷ received 0x3FD 0x60
            ∷ sent 0x3F8 b'o'
            ∷ received 0x3FD 0x20
            ∷ received 0x3FD 0x00
            ∷ [];
      },
    )
unfolding serial_print serial_write_char wait_transmit is_transmit_buffer_ready inb outb
print_ok = refl

serial_print_returns_example :
    Returns (serial_print (codes "ok")) two_ready (λ _ b. Printed (codes "ok") two_ready b)
serial_print_returns_example = serial_print_returns (codes "ok") two_ready (omega arith)
