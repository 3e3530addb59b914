-- ===== src/Deadlock.antt =====
-- src/deadlock.c and src/deadlock.h: two files behind spinlocks, and the two transfers.
pub mod Strings
pub mod Swap
pub mod Spin
pub mod Delay
pub mod Transcript
pub mod Safe
pub mod Unsafe
pub mod Init
mod Tests
use projeto_so.Base.{
  ℕ, zero, suc, ◌+◌, Bool, not, ◌&&◌, Option, none, some, List, [], ◌∷◌, ◌++◌, ◌==◌, ltb,
  if◌then◌else◌, set, replicate, codes, u32,
}
use projeto_so.Io.{Run, pure, zoom, ◌>>=◌, ◌>>◌}
use projeto_so.Serial.{serial_print}
use projeto_so.Framebuffer.{
  Screen, on_bus, console_write_colored, console_black, console_white, console_light_red,
  console_light_green, console_light_cyan, console_light_grey, console_light_magenta,
  console_light_brown,
}

-- `spinlock_t`: 0 is free, 1 is held.
pub record Spinlock : Type 0 where
  pub locked : ℕ
  pub name : List ℕ

-- `user_file_t`: `contents` is the array `data` of 64 bytes.
pub record UserFile : Type 0 where
  pub lock : Spinlock
  pub contents : List ℕ
  pub owner : List ℕ

abbrev pub data_size : ℕ
data_size = 64

pub record Files : Type 0 where
  pub file_vga : UserFile
  pub file_serial : UserFile

pub record World : Type 0 where
  pub screen : Screen
  pub files : Files

-- The old value and the lock with the new one, in one step.
unfoldable pub atomic_xchg : Spinlock → ℕ → ℕ × Spinlock
atomic_xchg lk val = (lk.locked, record lk { locked = val })

-- The spin is followed for a number of rounds.
unfoldable pub spin_lock : ℕ → Spinlock → Option Spinlock
unfolding atomic_xchg
spin_lock zero lk = none
spin_lock (suc rounds) lk =
    let (old, lk') = atomic_xchg lk 1 in
    let again = spin_lock rounds lk' in if old == 0 then some lk' else again

unfoldable pub spin_unlock : Spinlock → Spinlock
spin_unlock lk = record lk { locked = 0 }

-- The loop of `str_copy` and the 0 after it, from index `i` on; the first argument is `src + i`.
unfoldable pub copy_from : List ℕ → (i max : ℕ) → List ℕ → List ℕ
copy_from [] i max dst = set dst i 0
copy_from (c ∷ src) i max dst =
    let rest = copy_from src (i + 1) max (set dst i c) in
    if not (c == 0) && ltb (i + 1) max then rest else set dst i 0

unfoldable pub str_copy : (dst src : List ℕ) → (max : ℕ) → List ℕ
str_copy dst src max = copy_from src 0 max dst

unfoldable pub deadlock_init : Files → Files
deadlock_init f = record {
  file_vga = record {
    lock = record { locked = 0; name = codes "lock_vga" };
    contents = str_copy f.file_vga.contents (codes "foto_ferias.png") data_size;
    owner = codes "vga";
  };
  file_serial = record {
    lock = record { locked = 0; name = codes "lock_serial" };
    contents = str_copy f.file_serial.contents (codes "trabalho.pdf") data_size;
    owner = codes "serial";
  };
}

abbrev pub on_screen : {A : Type 0} → Run Screen A → Run World A
on_screen = zoom (λ (w : World). w.screen) (λ w s. record w { screen = s })

-- A line for the serial log, and one for the console.
unfoldable pub say : List ℕ → Run World (Unit {0})
say text = on_screen (on_bus (serial_print text))

unfoldable pub display : List ℕ → ℕ → Run World (Unit {0})
display text fg = on_screen (console_write_colored text fg console_black)

abbrev pub delay_limit : ℕ
delay_limit = 3_000_000

-- `for (i = 0; i < 3000000; i++) ;`, followed for a number of rounds; the result is the last `i`.
unfoldable pub delay_loop : (rounds i : ℕ) → Option ℕ
delay_loop zero i = none
delay_loop (suc n) i =
    let rest = delay_loop n (u32 (i + 1)) in if ltb i delay_limit then rest else some i

unfoldable pub busy_delay : Run World (Unit {0})
busy_delay w = elim (delay_loop (suc delay_limit) 0) [ none ↦ none | some i ↦ some (tt, w) ]

-- A change of the files.
unfoldable pub on_files : (Files → Option Files) → Run World (Unit {0})
on_files change w = elim (change w.files) [
  | none ↦ none
  | some f ↦ some (tt, record w { files = f })
]

unfoldable pub lock_vga : ℕ → Files → Option Files
lock_vga rounds f = elim (spin_lock rounds f.file_vga.lock) [
  | none ↦ none
  | some lk ↦ some (record f { file_vga = record f.file_vga { lock = lk } })
]

unfoldable pub lock_serial : ℕ → Files → Option Files
lock_serial rounds f = elim (spin_lock rounds f.file_serial.lock) [
  | none ↦ none
  | some lk ↦ some (record f { file_serial = record f.file_serial { lock = lk } })
]

-- `file_vga.lock.locked = …; file_serial.lock.locked = …`
unfoldable pub put_locks : ℕ → ℕ → Files → Files
put_locks vga serial f = record {
  file_vga = record f.file_vga { lock = record f.file_vga.lock { locked = vga } };
  file_serial = record f.file_serial { lock = record f.file_serial.lock { locked = serial } };
}

unfoldable pub unlock_both : Files → Files
unlock_both f = record {
  file_vga = record f.file_vga { lock = spin_unlock f.file_vga.lock };
  file_serial = record f.file_serial { lock = spin_unlock f.file_serial.lock };
}

-- `char tmp[64]` holds anything before the first copy: `stack`.
unfoldable pub swap_contents : List ℕ → Files → Files
swap_contents stack f =
    let tmp = str_copy stack f.file_vga.contents data_size in
    let vga = str_copy f.file_vga.contents f.file_serial.contents data_size in
    let serial = str_copy f.file_serial.contents tmp data_size in
    record {
      file_vga = record f.file_vga { contents = vga };
      file_serial = record f.file_serial { contents = serial };
    }

-- `deadlock_demo_unsafe` up to the last `spin_lock`. The serial user's lock is taken by hand.
unfoldable pub unsafe_before_last_lock : ℕ → Run World (Unit {0})
unsafe_before_last_lock rounds = do
  on_files (λ f. some (put_locks 0 0 f))
  say (codes "  DEMO: DEADLOCK\r\n")
  display (codes "\nDEMO: DEADLOCK\n") console_light_red
  say (codes "[VGA]    Travando lock_vga...\r\n")
  display (codes "[VGA] Travando lock_vga...\n") console_light_cyan
  on_files (lock_vga rounds)
  say (codes "[VGA]    lock_vga travado!\r\n")
  display (codes "[VGA] lock_vga travado!\n") console_light_green
  busy_delay
  say (codes "[Serial] Travando lock_serial...\r\n")
  display (codes "[Serial] Travando lock_serial...\n") console_light_cyan
  on_files (λ f. some (put_locks f.file_vga.lock.locked 1 f))
  say (codes "[Serial] lock_serial travado!\r\n")
  display (codes "[Serial] lock_serial travado!\n") console_light_green
  busy_delay
  say (codes "\r\n[VGA]    Tentando lock_serial...\r\n")
  say (codes "[Serial] Tentando lock_vga...\r\n")
  say (codes "\r\n DEADLOCK: Os dois aguardam na fila infinitamente.\r\n")
  say (codes "Kernel travou. Reset para sair.\r\n\r\n")
  display (codes "\n[VGA] Tentando lock_serial...\n") console_light_brown
  display (codes "[Serial] Tentando lock_vga...\n") console_light_brown
  display (codes "\nDEADLOCK: Kernel travou.\n") console_light_red
  display (codes "Ctrl+Alt+Del para reiniciar.\n") console_light_red

-- The last message holds an `ã`, two bytes.
unfoldable pub deadlock_demo_unsafe : ℕ → Run World (Unit {0})
deadlock_demo_unsafe rounds = do
  unsafe_before_last_lock rounds
  on_files (lock_serial rounds)
  say (codes "OBS: essa mensagem n" ++ 0xC3 ∷ 0xA3 ∷ codes "o aparece!\r\n")

-- The announcement of the exchange reads the two arrays.
unfoldable pub announce : Run World (Unit {0})
announce w =
    (do
      say (codes "[Seguro] Transferindo dados...\r\n")
      display (codes "[Seguro] Trocando: ") console_white
      display w.files.file_vga.contents console_light_magenta
      display (codes " <-> ") console_white
      display w.files.file_serial.contents console_light_magenta
      display (codes "\n") console_white)
      w

unfoldable pub deadlock_demo_safe : (stack : List ℕ) → ℕ → Run World (Unit {0})
deadlock_demo_safe stack rounds = do
  on_files (λ f. some (put_locks 0 0 f))
  say (codes "  TRANSFERENCIA SEGURA (hierarquia)\r\n")
  display (codes "\nTRANSFERENCIA SEGURA\n") console_light_green
  display (codes "Regra: lock_vga sempre antes de lock_serial\n") console_light_grey
  say (codes "[Seguro] Pegando lock_vga (1o)...\r\n")
  display (codes "[Seguro] Pegando lock_vga...\n") console_light_cyan
  on_files (lock_vga rounds)
  say (codes "[Seguro] lock_vga ok!\r\n")
  display (codes "[Seguro] lock_vga ok!\n") console_light_green
  busy_delay
  say (codes "[Seguro] Pegando lock_serial (2o)...\r\n")
  display (codes "[Seguro] Pegando lock_serial...\n") console_light_cyan
  on_files (lock_serial rounds)
  say (codes "[Seguro] lock_serial ok!\r\n")
  display (codes "[Seguro] lock_serial ok!\n") console_light_green
  announce
  on_files (λ f. some (swap_contents stack f))
  on_files (λ f. some (unlock_both f))
  say (codes "[Seguro] Locks liberados!\r\n\r\n")
  display (codes "[Seguro] Sem deadlock.\n") console_light_green
