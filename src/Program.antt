-- ===== src/Program.antt =====
-- src/program.s: a program to load as a module, and the instructions that a call of it runs.
-- It is read from memory byte by byte; of the processor, it uses `eax` and its own position.
pub mod Endless
use projeto_so.Base.{
  ℕ, zero, suc, ◌+◌, ◌*◌, ◌-◌, ◌/◌, ◌^◌, ◌≡◌, ◌<◌, List, [], ◌∷◌, ◌++◌, ◌==◌, ltb, if◌then◌else◌,
  get_or, length, u8, u32,
}
use projeto_so.Io.{Run, pure, hang}
use projeto_so.Memory.Initialize.{Ram}

pub data Instruction : Type 0 where
  mov_eax : (value : ℕ) → Instruction
  jmp_short : (displacement : ℕ) → Instruction

abbrev pub ret_opcode : ℕ
ret_opcode = 0xC3

abbrev little_endian : ℕ → List ℕ
little_endian v = u8 v ∷ u8 (v / 2 ^ 8) ∷ u8 (v / 2 ^ 16) ∷ u8 (v / 2 ^ 24) ∷ []

-- The bytes of an instruction.
abbrev pub encoded : Instruction → List ℕ
encoded (mov_eax value) = 0xB8 ∷ little_endian value
encoded (jmp_short displacement) = 0xEB ∷ displacement ∷ []

-- `nasm -f bin`: the bytes of the instructions, one after the other.
abbrev pub assembled : List Instruction → List ℕ
assembled [] = []
assembled (i ∷ code) = encoded i ++ assembled code

-- `jmp $`: the jump is 2 bytes long, and goes 2 bytes back.
abbrev pub test_program : List Instruction
test_program = mov_eax 0xDEAD_BEEF ∷ jmp_short (u8 (2 ^ 8 - 2)) ∷ []

abbrev pub byte : Ram → ℕ → ℕ
byte ram a = u8 (ram (u32 a))

-- The bytes stand in memory from the address on.
abbrev pub LoadedAt : Ram → ℕ → List ℕ → Type 0
LoadedAt ram address code = (i : ℕ) → i < length code → byte ram (address + i) ≡ get_or code i 0

abbrev immediate : Ram → ℕ → ℕ
immediate ram a =
    byte ram a + 2 ^ 8 * byte ram (a + 1) + 2 ^ 16 * byte ram (a + 2) + 2 ^ 24 * byte ram (a + 3)

-- A displacement of 8 bits with its sign, as a word of 32 bits.
abbrev sign_extended : ℕ → ℕ
sign_extended d = if ltb d 0x80 then d else 2 ^ 32 - 2 ^ 8 + d

pub record Context : Type 0 where
  pub eax : ℕ
  pub eip : ℕ

pub data Outcome : Type 0 where
  goes_on : Context → Outcome
  returned other_instruction : Outcome

-- One instruction.
unfoldable pub step : Ram → Context → Outcome
step ram c =
    let opcode = byte ram c.eip in
    if opcode == 0xB8
    then goes_on (record { eax = immediate ram (c.eip + 1); eip = u32 (c.eip + 5) })
    else if opcode == 0xEB
    then goes_on (record c { eip = u32 (c.eip + 2 + sign_extended (byte ram (c.eip + 1))) })
    else if opcode == ret_opcode
    then returned
    else other_instruction

-- So many instructions.
unfoldable pub steps : ℕ → Ram → Context → Outcome
steps zero ram c = goes_on c
steps (suc n) ram c = elim (step ram c) [
  | goes_on c' ↦ steps n ram c'
  | returned ↦ returned
  | other_instruction ↦ other_instruction
]

-- The call of a program, followed for a number of instructions.
unfoldable pub call_program :
    {S : Type 0} (ram : Ram) (eax limit : ℕ) (address : ℕ) → Run S (Unit {0})
call_program ram eax limit address = elim (steps limit ram (record { eax = eax; eip = address })) [
  | goes_on c ↦ hang
  | returned ↦ pure tt
  | other_instruction ↦ hang
]
