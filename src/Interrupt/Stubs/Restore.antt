-- ===== src/Interrupt/Stubs/Restore.antt =====
-- The whole of an interrupt, from the code that is interrupted and back to it.
use projeto_so.Base.{
  ℕ, ◌+◌, ◌^◌, ◌<◌, ◌≡◌, refl, ap, ◌∙◌, arith, Bool, true, false, ◌||◌, ◌&&◌, List, [], ◌∷◌, ◌==◌,
  leb, if◌then◌else◌, sub_u32, u32, bit_and, Bool-cases, inl, inr,
}
use projeto_so.Io.{Run, pure, ◌>>=◌, ◌>>◌}
use projeto_so.Io.Returns.{Returns, returns, >>=-Returns, Returns-mono}
use projeto_so.Chat.{Kernel}
use projeto_so.Interrupt.Stubs.{
  Cpu, Processor, Handler, Scratch, push_dword, set_position, on_processor,
  common_interrupt_handler, error_code_interrupt_handler, no_error_code_interrupt_handler,
  interrupt_stub,
}
use projeto_so.Interrupt.Stubs.Frame.{
  at, lower, lower_lem, processor-Returns, common_interrupt_handler-Returns,
}

-- The exceptions for which the processor puts an error code on the stack.
abbrev pub with_error_code : List ℕ
with_error_code = 8 ∷ 10 ∷ 11 ∷ 12 ∷ 13 ∷ 14 ∷ 17 ∷ []

abbrev pub elem : ℕ → List ℕ → Bool
elem n [] = false
elem n (x ∷ xs) = (n == x) || elem n xs

-- The processor takes interrupt `n` through a gate to `address`: interrupts are off from there on
-- (bit 9 of the flags).
abbrev pub enter : (address n error_code : ℕ) → Run Cpu (Unit {0})
enter address n error_code c =
    (do
      push_dword c.position.eflags
      push_dword c.position.cs
      push_dword c.position.eip
      if elem n with_error_code then push_dword error_code else pure tt
      set_position
          (record { eip = address; cs = 0x08; eflags = bit_and c.position.eflags 0xFFFF_FDFF }))
      c

-- The error code that the handler gets.
abbrev pub code_of : (n error_code : ℕ) → ℕ
code_of n error_code = if elem n with_error_code then error_code else 0

-- The processor's part, the code of src/interrupt_handlers.s, and the handler in C.
abbrev pub interrupt :
    Handler → Scratch → (return_address address n error_code : ℕ) → Run Processor (Unit {0})
interrupt handler scratch return_address address n error_code =
    on_processor (enter address n error_code) >> interrupt_stub handler scratch return_address n

-- With `n` words for the handler on the stack, those that the processor and the macro put there.
record Entered (n code : ℕ) (c c' : Cpu) : Type 0 where
  registers_are : c'.registers ≡ at (sub_u32 c.registers.esp 20) c.registers
  stack_is : c'.stack ≡ n ∷ code ∷ c.position.eip ∷ c.position.cs ∷ c.position.eflags ∷ c.stack

entered :
    (n : ℕ) {code : ℕ} {c c' : Cpu}
    → c.registers.esp < 2 ^ 32
    → c'.registers ≡ at (lower 5 c.registers.esp) c.registers
    → c'.stack ≡ n ∷ code ∷ c.position.eip ∷ c.position.cs ∷ c.position.eflags ∷ c.stack
    → Entered n code c c'
entered n {c} small e s = record {
  registers_are = e ∙ ap (λ esp. at esp c.registers) (lower_lem 5 small (omega arith));
  stack_is = s;
}

-- A processor whose words for the handler are on the stack comes back.
module _ (handler : Handler) (scratch : Scratch)
    (kept : (words : List ℕ) → scratch.arguments words ≡ words) (return_address : ℕ)
    {P : Kernel → Type 0} where
  common-restores :
      {n code : ℕ} (c : Cpu) (m : Processor)
      → c.registers.esp < 2 ^ 32
      → Entered n code c m.cpu
      → Returns
          (handler (at (sub_u32 c.registers.esp 20) c.registers) n code c.position)
          m.kernel
          (λ _ k. P k)
      → Returns
          (common_interrupt_handler handler scratch return_address)
          m
          (λ _ m'. (m'.cpu ≡ c) × P m'.kernel)
  common-restores c m small e runs =
      let back : u32 (sub_u32 c.registers.esp 20 + 20) ≡ c.registers.esp = omega (arith, small) in
      Returns-mono
        (common_interrupt_handler-Returns handler scratch kept return_address m
          (rw (e.registers_are) (omega arith)) (e.stack_is) (rw (e.registers_are) runs))
        (λ _ m' (same, holds). (
          same
              ∙ rw (e.registers_are) (
                  ap
                    (λ esp. record {
                      registers = at esp c.registers;
                      position = c.position;
                      stack = c.stack;
                    })
                    back),
          holds,
        ))

-- The macros are chosen as the processor needs it.
stub-elem : (n : ℕ) → ((n == 8) || (leb 10 n && leb n 14) || (n == 17)) ≡ elem n with_error_code
stub-elem n = ground arith

-- What the processor puts on the stack.
enter-with_code :
    (address n error_code : ℕ) (c : Cpu)
    → elem n with_error_code ≡ true
    → Returns (enter address n error_code) c (λ _ c'.
      (c'.registers ≡ at (lower 4 c.registers.esp) c.registers)
      × (c'.stack ≡ error_code ∷ c.position.eip ∷ c.position.cs ∷ c.position.eflags ∷ c.stack))
enter-with_code address n error_code c e =
    returns tt
      (record {
        registers = at (lower 4 c.registers.esp) c.registers;
        position = record {
          eip = address;
          cs = 0x08;
          eflags = bit_and c.position.eflags 0xFFFF_FDFF;
        };
        stack = error_code ∷ c.position.eip ∷ c.position.cs ∷ c.position.eflags ∷ c.stack;
      })
      (rw (e, ◌>>=◌) refl) (refl, refl)

enter-without_code :
    (address n error_code : ℕ) (c : Cpu)
    → elem n with_error_code ≡ false
    → Returns (enter address n error_code) c (λ _ c'.
      (c'.registers ≡ at (lower 3 c.registers.esp) c.registers)
      × (c'.stack ≡ c.position.eip ∷ c.position.cs ∷ c.position.eflags ∷ c.stack))
enter-without_code address n error_code c e =
    returns tt
      (record {
        registers = at (lower 3 c.registers.esp) c.registers;
        position = record {
          eip = address;
          cs = 0x08;
          eflags = bit_and c.position.eflags 0xFFFF_FDFF;
        };
        stack = c.position.eip ∷ c.position.cs ∷ c.position.eflags ∷ c.stack;
      })
      (rw (e, ◌>>=◌) refl) (refl, refl)

push_dword-Returns :
    (v : ℕ) (c : Cpu)
    → Returns (push_dword v) c (λ _ c'.
      (c'.registers ≡ at (sub_u32 c.registers.esp 4) c.registers) × (c'.stack ≡ v ∷ c.stack))
push_dword-Returns v c = returns tt _ refl (refl, refl)

module _ (handler : Handler) (scratch : Scratch)
    (kept : (words : List ℕ) → scratch.arguments words ≡ words)
    (return_address address n error_code : ℕ) {P : Kernel → Type 0} (m : Processor)
    (small : m.cpu.registers.esp < 2 ^ 32)
    (runs : Returns
      (handler
        (at (sub_u32 m.cpu.registers.esp 20) m.cpu.registers)
        n
        (code_of n error_code)
        m.cpu.position)
      m.kernel
      (λ _ k. P k)) where
  with_code-restores :
      elem n with_error_code ≡ true
      → Returns
          (on_processor (enter address n error_code)
            >> error_code_interrupt_handler handler scratch return_address n)
          m
          (λ _ m'. (m'.cpu ≡ m.cpu) × P m'.kernel)
  unfolding error_code_interrupt_handler
  with_code-restores e =
      >>=-Returns _ (processor-Returns m (enter-with_code address n error_code m.cpu e))
        (λ _ m₁ ((r₁, s₁), k₁).
          >>=-Returns _ (processor-Returns m₁ (push_dword-Returns n m₁.cpu)) (λ _ m₂ ((r₂, s₂), k₂).
            common-restores handler scratch kept return_address {code = error_code} m.cpu m₂ small
              (entered n small (rw (r₂, r₁) refl) (rw (s₂, s₁) refl)) (rw (k₂, k₁) (rw e at runs))))

  without_code-restores :
      elem n with_error_code ≡ false
      → Returns
          (on_processor (enter address n error_code)
            >> no_error_code_interrupt_handler handler scratch return_address n)
          m
          (λ _ m'. (m'.cpu ≡ m.cpu) × P m'.kernel)
  unfolding no_error_code_interrupt_handler
  without_code-restores e =
      >>=-Returns _ (processor-Returns m (enter-without_code address n error_code m.cpu e))
        (λ _ m₁ ((r₁, s₁), k₁).
          >>=-Returns _ (processor-Returns m₁ (push_dword-Returns 0 m₁.cpu)) (λ _ m₂ ((r₂, s₂), k₂).
            >>=-Returns _ (processor-Returns m₂ (push_dword-Returns n m₂.cpu))
              (λ _ m₃ ((r₃, s₃), k₃).
                common-restores handler scratch kept return_address {code = 0} m.cpu m₃ small
                  (entered n small (rw (r₃, r₂, r₁) refl) (rw (s₃, s₂, s₁) refl))
                  (rw (k₃, k₂, k₁) (rw e at runs)))))

  -- An interrupt leaves the code that it interrupts as it was: let the stack pointer have 32 bits,
  -- and let the handler in C, called with the saved registers, the number of the interrupt, the
  -- error code of the processor, or 0 where it gives none, and the place of the interruption,
  -- return with `P` of the kernel's state, and let the compiled code leave its arguments on the
  -- stack as they are. Then the interrupt returns, with every register, the
  -- place, the flags and the stack as before, whatever the C code left in `eax`, `ecx`, `edx` and
  -- the flags, and `P` holds.
  pub interrupt-restores :
      Returns
        (interrupt handler scratch return_address address n error_code)
        m
        (λ _ m'. (m'.cpu ≡ m.cpu) × P m'.kernel)
  unfolding interrupt_stub
  interrupt-restores = elim (Bool-cases (elem n with_error_code)) [
    | inl e ↦ rw (stub-elem n, e) (with_code-restores e)
    | inr e ↦ rw (stub-elem n, e) (without_code-restores e)
  ]
