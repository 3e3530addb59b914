-- ===== src/Deadlock/Swap.antt =====
-- The exchange of the two files' texts by `str_copy`.
use projeto_so.Base.{
  ℕ, zero, suc, ◌<◌, ◌≤◌, ◌≡◌, refl, ◌∙◌, ap, arith, List, [], ◌∷◌, take, length, until_nul,
}
use projeto_so.Deadlock.{data_size, Files, str_copy, swap_contents}
use projeto_so.Deadlock.Strings.{str_copy_text}

-- The array of a file holds a string that is ended inside it.
pub record IsFile (contents : List ℕ) : Type 0 where
  pub size : length contents ≡ data_size
  pub ended : length (until_nul contents) < data_size

take_all : (n : ℕ) (t : List ℕ) → length t ≤ n → take n t ≡ t
take_all zero [] h = refl
take_all zero (c ∷ t) h = absurd (omega arith)
take_all (suc n) [] h = refl
take_all (suc n) (c ∷ t) h = ap (λ r. c ∷ r) (take_all n t (omega arith))

-- A text that fits is copied whole, and the array that takes it is that of a file.
pub str_copy-IsFile :
    (dst src : List ℕ)
    → length dst ≡ data_size
    → length (until_nul src) < data_size
    → (until_nul (str_copy dst src data_size) ≡ until_nul src) × IsFile (str_copy dst src data_size)
str_copy-IsFile dst src room fits = (same, record { size = copied.1 ∙ room; ended = rw same fits })
  where
    copied :
        (until_nul (str_copy dst src data_size) ≡ take 63 (until_nul src))
        × (length (str_copy dst src data_size) ≡ length dst)
    copied = str_copy_text dst src data_size (omega arith) (omega (arith, room))

    same : until_nul (str_copy dst src data_size) ≡ until_nul src
    same = copied.0 ∙ take_all 63 (until_nul src) (omega (arith, fits))

-- `g` holds the texts of `f`, exchanged.
pub record Exchanged (f g : Files) : Type 0 where
  pub vga_text : until_nul g.file_vga.contents ≡ until_nul f.file_serial.contents
  pub serial_text : until_nul g.file_serial.contents ≡ until_nul f.file_vga.contents
  pub vga_file : IsFile g.file_vga.contents
  pub serial_file : IsFile g.file_serial.contents
  pub vga_owner : g.file_vga.owner ≡ f.file_vga.owner
  pub serial_owner : g.file_serial.owner ≡ f.file_serial.owner

pub swap_contents-Exchanged :
    (stack : List ℕ) (f : Files)
    → length stack ≡ data_size
    → IsFile f.file_vga.contents
    → IsFile f.file_serial.contents
    → Exchanged f (swap_contents stack f)
unfolding swap_contents
swap_contents-Exchanged stack f room v s = record {
  vga_text = vga.0;
  serial_text = serial.0 ∙ tmp.0;
  vga_file = vga.1;
  serial_file = serial.1;
  vga_owner = refl;
  serial_owner = refl;
}
  where
    tmp :
        (until_nul (str_copy stack f.file_vga.contents data_size) ≡ until_nul f.file_vga.contents)
        × IsFile (str_copy stack f.file_vga.contents data_size)
    tmp = str_copy-IsFile stack f.file_vga.contents room v.ended

    vga :
        (until_nul (str_copy f.file_vga.contents f.file_serial.contents data_size)
          ≡ until_nul f.file_serial.contents)
        × IsFile (str_copy f.file_vga.contents f.file_serial.contents data_size)
    vga = str_copy-IsFile f.file_vga.contents f.file_serial.contents v.size s.ended

    serial :
        (until_nul (
            str_copy f.file_serial.contents
              (str_copy stack f.file_vga.contents data_size)
              data_size)
          ≡ until_nul (str_copy stack f.file_vga.contents data_size))
        × IsFile (
            str_copy f.file_serial.contents
              (str_copy stack f.file_vga.contents data_size)
              data_size)
    serial =
        str_copy-IsFile f.file_serial.contents (str_copy stack f.file_vga.contents data_size) s.size
          tmp.1.ended
