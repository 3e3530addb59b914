-- ===== src/Deadlock/Init.antt =====
-- The files that `deadlock_init` sets up.
use projeto_so.Base.{◌≡◌, refl, arith, length, until_nul, codes}
use projeto_so.Deadlock.{data_size, Files, str_copy, deadlock_init}
use projeto_so.Deadlock.Swap.{IsFile, str_copy-IsFile}

pub record Initial (f : Files) : Type 0 where
  pub vga_text : until_nul f.file_vga.contents ≡ codes "foto_ferias.png"
  pub serial_text : until_nul f.file_serial.contents ≡ codes "trabalho.pdf"
  pub vga_file : IsFile f.file_vga.contents
  pub serial_file : IsFile f.file_serial.contents
  pub vga_free : f.file_vga.lock.locked ≡ 0
  pub serial_free : f.file_serial.lock.locked ≡ 0

-- Whatever the two arrays of 64 bytes held, `deadlock_init` leaves the locks free and in each array
-- the text of its file, ended inside the array: the files are ready for a transfer.
pub deadlock_init-Initial :
    (f : Files)
    → length f.file_vga.contents ≡ data_size
    → length f.file_serial.contents ≡ data_size
    → Initial (deadlock_init f)
unfolding deadlock_init
deadlock_init-Initial f vga serial = record {
  vga_text = v.0;
  serial_text = s.0;
  vga_file = v.1;
  serial_file = s.1;
  vga_free = refl;
  serial_free = refl;
}
  where
    v :
        (until_nul (str_copy f.file_vga.contents (codes "foto_ferias.png") data_size)
          ≡ codes "foto_ferias.png")
        × IsFile (str_copy f.file_vga.contents (codes "foto_ferias.png") data_size)
    v = str_copy-IsFile f.file_vga.contents (codes "foto_ferias.png") vga (omega arith)

    s :
        (until_nul (str_copy f.file_serial.contents (codes "trabalho.pdf") data_size)
          ≡ codes "trabalho.pdf")
        × IsFile (str_copy f.file_serial.contents (codes "trabalho.pdf") data_size)
    s = str_copy-IsFile f.file_serial.contents (codes "trabalho.pdf") serial (omega arith)
