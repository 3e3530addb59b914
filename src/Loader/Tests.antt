-- ===== src/Loader/Tests.antt =====
-- The loader with its directory at 1 MiB and 36 KiB, and its stack behind that.
use projeto_so.Base.{ℕ, ◌+◌, ◌*◌, refl, arith}
use projeto_so.Io.Returns.{Returns}
use projeto_so.Loader.{Startup, loader}
use projeto_so.Loader.Paging.{HigherHalf, loader-HigherHalf}

abbrev protected_mode : Startup
protected_mode = record { memory = λ a. 0; cr0 = 0x11; cr3 = 7; cr4 = 0; ecx = 1; esp = 2 }

-- Some addresses for the instructions, ten bytes apart.
abbrev code : ℕ → ℕ
code i = 0xC010_0040 + 10 * i

loader-HigherHalf_example :
    Returns
      (loader code 0x1_0000 0xC010_9000 0xC010_C000 0xC010_0040)
      protected_mode
      (λ _ s'. HigherHalf 0xC011_0000 0xC001_0000 0xC010_0040 s')
loader-HigherHalf_example =
    loader-HigherHalf code 0x10_9000 0x10_C000 (λ i h. (omega arith, omega (arith, h))) refl
      (omega arith) (omega arith) 0x1_0000 0xC010_0040 protected_mode refl (λ i h. refl)
