-- ===== src/Chat.antt =====
-- src/chat.c and src/chat.h: the lines typed at the keyboard and on the serial port.
-- `stack` and `buf` are what the uninitialised local arrays hold, `rounds` how long a lock is
-- followed. A byte stored as `char` keeps its value as `unsigned char`.
pub mod Queue
pub mod Poll
pub mod Strings
pub mod Editor
pub mod Message
pub mod Submit
pub mod Entered
pub mod BothScreens
pub mod Outcome
pub mod Command
pub mod EnterKey
pub mod SerialLine
pub mod Loop
pub mod Session
pub mod SerialSession
pub mod SerialLoop
pub mod Served
pub mod Freeze
pub mod SerialFreeze
pub mod Init
mod Tests
mod RoundTests
use projeto_so.Base.{
  ℕ, zero, suc, ◌+◌, ◌-◌, ◌%◌, ◌^◌, Bool, true, false, not, ◌&&◌, Option, none, some, List, [], ◌∷◌,
  ◌==◌, leb, ltb, if◌then◌else◌, get_or, set, update, u8, u32, codes, length,
}
use projeto_so.Io.{Bus, Run, pure, zoom, ◌>>=◌, ◌>>◌, disable_interrupts, enable_interrupts}
use projeto_so.Serial.{serial_print, serial_rx_ready, serial_read_byte}
use projeto_so.Framebuffer.{
  Screen, on_bus, console_write, console_write_colored, console_backspace, console_black,
  console_light_red, console_light_green, console_light_cyan,
}
use projeto_so.Deadlock.{
  World, on_screen, say, display, deadlock_init, deadlock_demo_safe, deadlock_demo_unsafe,
}

abbrev pub kbd_ring_sz : ℕ
kbd_ring_sz = 256

abbrev pub line_max : ℕ
line_max = 120

-- The ring between the keyboard's interrupt and the main loop.
pub record Ring : Type 0 where
  pub kbd_ring : ℕ → ℕ
  pub kbd_head : ℕ  -- unsigned char
  pub kbd_tail : ℕ  -- unsigned char

-- `kbd_line` with `kbd_len`, or `ser_line` with `ser_len`.
pub record Line : Type 0 where
  pub line : List ℕ
  pub len : ℕ

pub record Chat : Type 0 where
  pub ring : Ring
  pub kbd : Line
  pub ser : Line

pub record Kernel : Type 0 where
  pub world : World
  pub chat : Chat

abbrev pub on_world : {A : Type 0} → Run World A → Run Kernel A
on_world = zoom (λ (k : Kernel). k.world) (λ k w. record k { world = w })

abbrev pub on_cpu : {A : Type 0} → Run Bus A → Run Kernel A
on_cpu m = on_world (on_screen (on_bus m))

unfoldable pub on_chat : (Chat → Chat) → Run Kernel (Unit {0})
on_chat change k = some (tt, record k { chat = change k.chat })

-- An array that is being written, and the index `o` of its next byte.
pub record Out : Type 0 where
  pub out : List ℕ
  pub o : ℕ

-- `while (*p && o + 1 < out_sz) out[o++] = *p++;`
unfoldable pub append_loop : List ℕ → ℕ → Out → Out
append_loop [] out_sz b = b
append_loop (c ∷ p) out_sz b =
    let rest = append_loop p out_sz (record { out = set b.out b.o c; o = b.o + 1 }) in
    if not (c == 0) && ltb (b.o + 1) out_sz then rest else b

-- `if (o + 1 < out_sz) out[o++] = '\n'; out[o] = '\0';`
unfoldable pub end_line : ℕ → Out → List ℕ
end_line out_sz b =
    if ltb (b.o + 1) out_sz then set (set b.out b.o b'\n') (b.o + 1) 0 else set b.out b.o 0

unfoldable pub append_formatted : (user msg out : List ℕ) → ℕ → List ℕ
append_formatted user msg out out_sz =
    let b₁ = append_loop (codes "[") out_sz (record { out = out; o = 0 }) in
    let b₂ = append_loop user out_sz b₁ in
    let b₃ = append_loop (codes "] ") out_sz b₂ in end_line out_sz (append_loop msg out_sz b₃)

unfoldable pub chat_submit : (buf user msg : List ℕ) → Run World (Unit {0})
chat_submit buf user msg = if get_or msg 0 0 == 0 then pure tt else do
  let line = append_formatted user msg buf (line_max + 16)
  on_screen (on_bus disable_interrupts)
  display line console_light_green
  say line
  on_screen (on_bus enable_interrupts)

-- `*b` where the list may end instead of holding a 0.
abbrev pub first_byte : List ℕ → ℕ
first_byte b = get_or b 0 0

unfoldable pub str_equal : (a b : List ℕ) → Bool
str_equal [] b = 0 == first_byte b
str_equal (x ∷ a) [] = x == 0
str_equal (x ∷ a) (y ∷ b) =
    let rest = str_equal a b in
    if not (x == 0) && not (y == 0) then (if x == y then rest else false) else x == y

unfoldable pub help : Run World (Unit {0})
help = do
  display (codes "\nComandos:\n") console_light_cyan
  display (codes "  /transferir  - troca de arquivos (com hierarquia)\n") console_light_green
  display (codes "  /deadlock  - provoca deadlock (trava tudo!)\n") console_light_red

unfoldable pub chat_try_command : (stack : List ℕ) → ℕ → (line : List ℕ) → Run World Bool
chat_try_command stack rounds line =
    if str_equal line (codes "/deadlock")
    then (do deadlock_demo_unsafe rounds; pure true)
    else if str_equal line (codes "/transferir")
    then (do deadlock_demo_safe stack rounds; pure true)
    else if str_equal line (codes "/help")
    then (do help; pure true)
    else pure false

-- `len = 0; line[0] = '\0'`
unfoldable pub reset : Line → Line
reset l = record { line = set l.line 0 0; len = 0 }

-- `line[len] = '\0'`
unfoldable pub terminate : Line → Line
terminate l = record l { line = set l.line l.len 0 }

-- `len--; line[len] = '\0'`
unfoldable pub drop_last : Line → Line
unfolding terminate
drop_last l = terminate (record l { len = l.len - 1 })

-- `line[len++] = (char)c; line[len] = '\0'`
unfoldable pub push : ℕ → Line → Line
unfolding terminate
push c l = terminate (record { line = set l.line l.len c; len = l.len + 1 })

unfoldable pub chat_init : Kernel → Kernel
chat_init k = record {
  world = record k.world { files = deadlock_init k.world.files };
  chat = record {
    ring = record k.chat.ring { kbd_head = 0; kbd_tail = 0 };
    kbd = reset k.chat.kbd;
    ser = reset k.chat.ser;
  };
}

unfoldable pub chat_kbd_enqueue : ℕ → Ring → Ring
chat_kbd_enqueue c r =
    let next = u32 (r.kbd_tail + 1) % kbd_ring_sz in
    if next == r.kbd_head
    then r
    else record r { kbd_ring = update r.kbd_ring r.kbd_tail (u8 c); kbd_tail = u8 next }

-- `kbd_pop` between `cli` and `sti`: the byte, if there is one.
unfoldable pub pop_ring : Ring → Option ℕ × Ring
pop_ring r = if r.kbd_head == r.kbd_tail then (none, r) else (
  some (r.kbd_ring r.kbd_head),
  record r { kbd_head = u8 (u32 (r.kbd_head + 1) % kbd_ring_sz) },
)

unfoldable pub take_key : Run Kernel (Option ℕ)
take_key k =
    let (c, r) = pop_ring k.chat.ring in some (c, record k { chat = record k.chat { ring = r } })

unfoldable pub kbd_pop : Run Kernel (Option ℕ)
kbd_pop = do on_cpu disable_interrupts; c ← take_key; on_cpu enable_interrupts; pure c

abbrev pub on_kbd : (Line → Line) → Run Kernel (Unit {0})
on_kbd change = on_chat (λ c. record c { kbd = change c.kbd })

abbrev pub on_ser : (Line → Line) → Run Kernel (Unit {0})
on_ser change = on_chat (λ c. record c { ser = change c.ser })

-- A whole line: a command, or a message.
unfoldable pub submit_line : (stack buf : List ℕ) → ℕ → (user line : List ℕ) → Run World (Unit {0})
submit_line stack buf rounds user line = do
  done ← chat_try_command stack rounds line
  if done then pure tt else chat_submit buf user line
