-- ===== src/Deadlock/Spin.antt =====
-- The spinlock: taken at once when free, never when held.
use projeto_so.Base.{ℕ, zero, suc, ◌≡◌, refl, none, some}
use projeto_so.Deadlock.{Spinlock, Files, atomic_xchg, spin_lock, lock_vga, lock_serial}

pub spin_lock_free :
    (rounds : ℕ) (lk : Spinlock)
    → lk.locked ≡ 0
    → spin_lock (suc rounds) lk ≡ some (record lk { locked = 1 })
unfolding spin_lock atomic_xchg
spin_lock_free rounds lk free = rw free refl

pub spin_lock_held : (rounds : ℕ) (lk : Spinlock) → lk.locked ≡ 1 → spin_lock rounds lk ≡ none
unfolding spin_lock atomic_xchg
spin_lock_held zero lk held = refl
spin_lock_held (suc rounds) lk held =
    rw held (spin_lock_held rounds (record lk { locked = 1 }) refl)

pub lock_vga_free :
    (rounds : ℕ) (f : Files)
    → f.file_vga.lock.locked ≡ 0
    → lock_vga (suc rounds) f
      ≡ some (record f {
        file_vga = record f.file_vga { lock = record f.file_vga.lock { locked = 1 } };
      })
unfolding lock_vga
lock_vga_free rounds f e = rw (spin_lock_free rounds f.file_vga.lock e, lock_vga) refl

pub lock_serial_free :
    (rounds : ℕ) (f : Files)
    → f.file_serial.lock.locked ≡ 0
    → lock_serial (suc rounds) f
      ≡ some (record f {
        file_serial = record f.file_serial { lock = record f.file_serial.lock { locked = 1 } };
      })
unfolding lock_serial
lock_serial_free rounds f e = rw (spin_lock_free rounds f.file_serial.lock e, lock_serial) refl

pub lock_serial_held :
    (rounds : ℕ) (f : Files) → f.file_serial.lock.locked ≡ 1 → lock_serial rounds f ≡ none
unfolding lock_serial
lock_serial_held rounds f e = rw (spin_lock_held rounds f.file_serial.lock e, lock_serial) refl
