-- ===== src/Interrupt/Stubs.antt =====
-- src/interrupt_handlers.s with src/interrupt.h: the code between the processor and the handler in
-- C. `scratch` is what the compiled C code leaves in the registers and the words that it need not
-- keep.
pub mod Frame
pub mod Restore
use projeto_so.Base.{
  ℕ, ◌+◌, ◌*◌, ◌-◌, Bool, ◌&&◌, ◌||◌, none, some, List, [], ◌∷◌, ◌==◌, leb, if◌then◌else◌, get_or,
  drop, u32, sub_u32, bit_and, u32_max,
}
use projeto_so.Io.{Run, pure, zoom, ◌>>=◌, ◌>>◌}
use projeto_so.Chat.{Kernel}
use projeto_so.Interrupt.{interrupt_handler}

-- What `pushad` saves, by ascending addresses.
pub record CpuState : Type 0 where
  pub edi : ℕ
  pub esi : ℕ
  pub ebp : ℕ
  pub esp : ℕ
  pub ebx : ℕ
  pub edx : ℕ
  pub ecx : ℕ
  pub eax : ℕ

-- What the processor saves.
pub record StackState : Type 0 where
  pub eip : ℕ
  pub cs : ℕ
  pub eflags : ℕ

-- The processor: its registers, and the stack from `registers.esp` upwards, in words of 32 bits.
pub record Cpu : Type 0 where
  pub registers : CpuState
  pub position : StackState
  pub stack : List ℕ

-- The processor and the rest of the state.
pub record Processor : Type 0 where
  pub cpu : Cpu
  pub kernel : Kernel

abbrev pub with_esp : ℕ → Cpu → Cpu
with_esp esp c = record c { registers = record c.registers { esp = esp } }

abbrev pub push_dword : ℕ → Run Cpu (Unit {0})
push_dword v c = some (tt, record (with_esp (sub_u32 c.registers.esp 4) c) { stack = v ∷ c.stack })

abbrev pub pop_from : List ℕ → Run Cpu ℕ
pop_from [] c = none
pop_from (v ∷ rest) c = some (v, record (with_esp (u32 (c.registers.esp + 4)) c) { stack = rest })

abbrev pub pop_dword : Run Cpu ℕ
pop_dword c = pop_from c.stack c

abbrev pub set_registers : (CpuState → CpuState) → Run Cpu (Unit {0})
set_registers f c = some (tt, record c { registers = f c.registers })

abbrev pub set_position : StackState → Run Cpu (Unit {0})
set_position p c = some (tt, record c { position = p })

unfoldable pub pushad : Run Cpu (Unit {0})
pushad c =
    (do
      push_dword c.registers.eax
      push_dword c.registers.ecx
      push_dword c.registers.edx
      push_dword c.registers.ebx
      push_dword c.registers.esp
      push_dword c.registers.ebp
      push_dword c.registers.esi
      push_dword c.registers.edi)
      c

-- The saved `esp` is not taken back.
unfoldable pub popad : Run Cpu (Unit {0})
popad = do
  edi ← pop_dword
  esi ← pop_dword
  ebp ← pop_dword
  esp ← pop_dword
  ebx ← pop_dword
  edx ← pop_dword
  ecx ← pop_dword
  eax ← pop_dword
  set_registers (λ r. record {
    edi = edi;
    esi = esi;
    ebp = ebp;
    esp = r.esp;
    ebx = ebx;
    edx = edx;
    ecx = ecx;
    eax = eax;
  })

-- `add esp, bytes`
unfoldable pub drop_words : ℕ → Run Cpu (Unit {0})
drop_words words c =
    some
      (tt, record (with_esp (u32 (c.registers.esp + words * 4)) c) { stack = drop words c.stack })

unfoldable pub iret : Run Cpu (Unit {0})
iret = do
  eip ← pop_dword
  cs ← pop_dword
  eflags ← pop_dword
  set_position (record { eip = eip; cs = cs; eflags = eflags })

-- The handler in C, and its arguments where the calling convention has them: behind the return
-- address, each structure by ascending addresses.
abbrev pub Handler : Type 0
Handler = CpuState → (interrupt error_code : ℕ) → StackState → Run Kernel (Unit {0})

-- The function of src/interrupt.c as the code here calls it; it does not look at the structures.
abbrev pub interrupt_handler_in_c : Handler
interrupt_handler_in_c cpu interrupt error_code stack = interrupt_handler interrupt

abbrev pub argument : Cpu → ℕ → ℕ
argument c i = get_or c.stack (i + 1) 0

abbrev pub cpu_argument : Cpu → CpuState
cpu_argument c = record {
  edi = argument c 0;
  esi = argument c 1;
  ebp = argument c 2;
  esp = argument c 3;
  ebx = argument c 4;
  edx = argument c 5;
  ecx = argument c 6;
  eax = argument c 7;
}

abbrev pub stack_argument : Cpu → StackState
stack_argument c = record { eip = argument c 10; cs = argument c 11; eflags = argument c 12 }

abbrev pub on_processor : {A : Type 0} → Run Cpu A → Run Processor A
on_processor = zoom (λ (p : Processor). p.cpu) (λ p c. record p { cpu = c })

abbrev pub run_handler : Handler → Run Processor (Unit {0})
run_handler handler p =
    zoom (λ (p : Processor). p.kernel) (λ p k. record p { kernel = k })
      (handler (cpu_argument p.cpu) (argument p.cpu 8) (argument p.cpu 9) (stack_argument p.cpu)) p

-- `eax`, `ecx`, `edx` and the flags after the call, and what is left of the words behind the return
-- address: the arguments belong to the function that is called.
pub record Scratch : Type 0 where
  pub eax : ℕ
  pub ecx : ℕ
  pub edx : ℕ
  pub eflags : ℕ
  pub arguments : List ℕ → List ℕ

abbrev pub behind_return : (List ℕ → List ℕ) → List ℕ → List ℕ
behind_return f [] = []
behind_return f (return_address ∷ words) = return_address ∷ f words

abbrev pub overwrite : Scratch → Run Cpu (Unit {0})
overwrite s c = some (
  tt,
  record c {
    registers = record c.registers { eax = s.eax; ecx = s.ecx; edx = s.edx };
    position = record c.position { eflags = s.eflags };
    stack = behind_return s.arguments c.stack;
  },
)

module _ (handler : Handler) (scratch : Scratch) (return_address : ℕ) where
  -- `call interrupt_handler`
  unfoldable pub call_handler : Run Processor (Unit {0})
  call_handler = do
    on_processor (push_dword return_address)
    run_handler handler
    on_processor (overwrite scratch)
    address ← on_processor pop_dword
    pure tt

  unfoldable pub common_interrupt_handler : Run Processor (Unit {0})
  common_interrupt_handler = do
    on_processor pushad
    call_handler
    on_processor popad
    on_processor (drop_words 2)
    on_processor iret

  unfoldable pub no_error_code_interrupt_handler : ℕ → Run Processor (Unit {0})
  no_error_code_interrupt_handler n = do
    on_processor (push_dword 0)
    on_processor (push_dword n)
    common_interrupt_handler

  unfoldable pub error_code_interrupt_handler : ℕ → Run Processor (Unit {0})
  error_code_interrupt_handler n = do on_processor (push_dword n); common_interrupt_handler

  -- `interrupt_handler_n`: which of the two macros makes it.
  unfoldable pub interrupt_stub : ℕ → Run Processor (Unit {0})
  interrupt_stub n =
      if (n == 8) || (leb 10 n && leb n 14) || (n == 17)
      then error_code_interrupt_handler n
      else no_error_code_interrupt_handler n
