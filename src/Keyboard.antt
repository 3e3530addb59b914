-- ===== src/Keyboard.antt =====
-- src/keyboard.c and src/keyboard.h: the handler of the keyboard's interrupt.
pub mod Drain
mod Tests
use projeto_so.Base.{
  ℕ, zero, suc, Option, none, some, List, [], ◌∷◌, ◌++◌, bit_and, ◌==◌, if◌then◌else◌, get_or,
  length, replicate, codes,
}
use projeto_so.Io.{Run, pure, hang, ◌>>=◌, ◌>>◌, inb}
use projeto_so.Chat.{Kernel, Chat, on_cpu, on_chat, chat_kbd_enqueue}

abbrev pub kbd_data_port : ℕ
kbd_data_port = 0x60

-- The codes from 0x3A on have no character.
abbrev pub scancode_to_ascii : List ℕ
scancode_to_ascii =
    0 ∷ 0 ∷ codes "123456"
    ++ codes "7890-="
    ++ 0 ∷ 0 ∷ codes "qwertyui"
    ++ codes "op[]\n"
    ++ 0 ∷ codes "as"
    ++ codes "dfghjkl;"
    ++ codes "'`"
    ++ 0 ∷ codes "\\zxcv"
    ++ codes "bnm,./"
    ++ 0 ∷ b'*' ∷ 0 ∷ b' ' ∷ replicate 70 0

unfoldable pub read_scan_code : Run Kernel ℕ
read_scan_code = on_cpu (inb kbd_data_port)

abbrev pub enqueue_key : ℕ → Run Kernel (Unit {0})
enqueue_key c = on_chat (λ s. record s { ring = chat_kbd_enqueue c s.ring })

-- The body of the loop, after the scan code is read.
unfoldable pub handle_scan_code : ℕ → Run Kernel (Unit {0})
handle_scan_code scan_code =
    let ascii = get_or scancode_to_ascii scan_code 0 in
    if bit_and scan_code 0x80 == 0
    then (if scan_code == 0x0E
        then enqueue_key 0x08
        else if ascii == 0
        then pure tt
        else enqueue_key ascii)
    else pure tt

-- The body of the loop.
unfoldable pub one_key : Run Kernel (Unit {0})
one_key = read_scan_code >>= handle_scan_code

unfoldable pub drain : ℕ → Run Kernel (Unit {0})
drain zero = hang
drain (suc rounds) =
    let rest = drain rounds in
    do status ← on_cpu (inb 0x64); if bit_and status 0x01 == 0 then pure tt else (one_key >> rest)

-- Each round takes a recorded answer, so these rounds outlast the answers.
unfoldable pub keyboard_handler : Run Kernel (Unit {0})
keyboard_handler k = drain (suc (length k.world.screen.bus.inputs)) k
