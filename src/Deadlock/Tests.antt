-- ===== src/Deadlock/Tests.antt =====
-- The transfers from a concrete state: the port answers 800 times, always ready.
use projeto_so.Base.{ℕ, ◌≤◌, ◌≡◌, refl, arith, none, List, [], replicate, until_nul}
use projeto_so.Io.{◌>>◌}
use projeto_so.Io.Returns.{Returns}
use projeto_so.Serial.Ready.{ready_count-replicate}
use projeto_so.Deadlock.{
  Files, World, deadlock_init, deadlock_demo_safe, deadlock_demo_unsafe, unsafe_before_last_lock,
}
use projeto_so.Deadlock.Transcript.{ready_of}
use projeto_so.Deadlock.Safe.{Transferred, deadlock_demo_safe_exchanges, deadlock_demo_safe_twice}
use projeto_so.Deadlock.Unsafe.{Standstill, deadlock_demo_unsafe_deadlocks}
use projeto_so.Deadlock.Init.{Initial, deadlock_init-Initial}

abbrev zeros : List ℕ
zeros = replicate 64 0

abbrev fresh : Files
fresh = record {
  file_vga = record { lock = record { locked = 1; name = [] }; contents = zeros; owner = [] };
  file_serial = record { lock = record { locked = 1; name = [] }; contents = zeros; owner = [] };
}

abbrev booted : World
booted = record {
  screen = record {
    bus = record { inputs = replicate 800 0x20; trace = [] };
    console = record { video_memory = λ k. 0; current_position = 0 };
  };
  files = deadlock_init fresh;
}

enough : 800 ≤ ready_of booted
enough = omega (arith, ready_count-replicate 800)

ready : Initial booted.files
ready = deadlock_init-Initial fresh refl refl

deadlock_demo_safe_exchanges_example :
    Returns (deadlock_demo_safe zeros 1) booted (λ _ w'. Transferred booted w')
deadlock_demo_safe_exchanges_example =
    deadlock_demo_safe_exchanges zeros 0 booted (omega (arith, enough)) refl ready.vga_file
      ready.serial_file

deadlock_demo_safe_twice_example :
    Returns
      (do deadlock_demo_safe zeros 1; deadlock_demo_safe zeros 1)
      booted
      (λ _ w'.
        (until_nul w'.files.file_vga.contents ≡ until_nul booted.files.file_vga.contents)
        × (until_nul w'.files.file_serial.contents ≡ until_nul booted.files.file_serial.contents))
deadlock_demo_safe_twice_example =
    deadlock_demo_safe_twice zeros zeros 0 booted (omega (arith, enough)) refl refl ready.vga_file
      ready.serial_file

deadlock_demo_unsafe_deadlocks_example :
    Returns (unsafe_before_last_lock 1000) booted (λ _ w'. Standstill booted w')
    × (deadlock_demo_unsafe 1000 booted ≡ none)
deadlock_demo_unsafe_deadlocks_example =
    deadlock_demo_unsafe_deadlocks 999 booted (omega (arith, enough))
