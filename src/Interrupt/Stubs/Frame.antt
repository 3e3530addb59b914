-- ===== src/Interrupt/Stubs/Frame.antt =====
-- What the instructions of the stubs do to the registers and the stack.
use projeto_so.Base.{
  subst, sym, zero, suc, ℕ, ◌+◌, ◌*◌, ◌^◌, ◌<◌, ◌≡◌, refl, ap, ◌∙◌, arith, List, ◌∷◌, sub_u32, u32,
}
use projeto_so.Io.{Run, zoom, ◌>>=◌}
use projeto_so.Io.Returns.{Returns, returns, zoom-Returns, >>=-Returns, Returns-mono}
use projeto_so.Chat.{Kernel}
use projeto_so.Interrupt.Stubs.{
  CpuState, StackState, Cpu, Processor, Handler, Scratch, on_processor, call_handler,
  common_interrupt_handler, pushad, popad, drop_words, iret,
}

-- The stack pointer after `n` words were pushed, and after `n` were taken.
abbrev pub lower : ℕ → ℕ → ℕ
lower zero esp = esp
lower (suc n) esp = lower n (sub_u32 esp 4)

abbrev raise : ℕ → ℕ → ℕ
raise zero esp = esp
raise (suc n) esp = raise n (u32 (esp + 4))

pub lower_lem : (n : ℕ) {esp : ℕ} → esp < 2 ^ 32 → n < 2 ^ 16 → lower n esp ≡ sub_u32 esp (n * 4)
lower_lem zero h small = omega (arith, h)
lower_lem (suc n) {esp} h small =
    lower_lem n {esp = sub_u32 esp 4} (omega arith) (omega (arith, small)) ∙ omega (arith, h, small)

raise_lem : (n : ℕ) {esp : ℕ} → esp < 2 ^ 32 → raise n esp ≡ u32 (esp + n * 4)
raise_lem zero h = omega (arith, h)
raise_lem (suc n) {esp} h = raise_lem n {esp = u32 (esp + 4)} (omega arith) ∙ omega (arith, h)

-- The registers with another stack pointer.
abbrev pub at : ℕ → CpuState → CpuState
at esp r = record r { esp = esp }

pushad-Returns :
    (c : Cpu)
    → c.registers.esp < 2 ^ 32
    → let r = c.registers in
      Returns pushad c (λ _ c'. c' ≡ record {
        registers = at (sub_u32 r.esp 32) r;
        position = c.position;
        stack = r.edi ∷ r.esi ∷ r.ebp ∷ r.esp ∷ r.ebx ∷ r.edx ∷ r.ecx ∷ r.eax ∷ c.stack;
      })
unfolding pushad
pushad-Returns c small =
    let r = c.registers in
    returns tt _ refl (
      ap
        (λ e. record {
          registers = at e r;
          position = c.position;
          stack = r.edi ∷ r.esi ∷ r.ebp ∷ r.esp ∷ r.ebx ∷ r.edx ∷ r.ecx ∷ r.eax ∷ c.stack;
        })
        (lower_lem 8 small (omega arith)))

-- Whatever the registers hold, `popad` takes those that `pushad` saved, but for the stack pointer.
popad-Returns :
    (r : CpuState) (s : List ℕ) (c : Cpu)
    → c.registers.esp < 2 ^ 32
    → c.stack ≡ r.edi ∷ r.esi ∷ r.ebp ∷ r.esp ∷ r.ebx ∷ r.edx ∷ r.ecx ∷ r.eax ∷ s
    → Returns popad c (λ _ c'.
      c'
      ≡ record { registers = at (u32 (c.registers.esp + 32)) r; position = c.position; stack = s })
unfolding popad
popad-Returns r s c small e =
    returns tt
      (record { registers = at (raise 8 c.registers.esp) r; position = c.position; stack = s })
      (rw (e, ◌>>=◌) refl)
      (ap (λ esp. record { registers = at esp r; position = c.position; stack = s })
        (raise_lem 8 small))

drop_words-Returns :
    (a b : ℕ) (s : List ℕ) (c : Cpu)
    → c.stack ≡ a ∷ b ∷ s
    → Returns (drop_words 2) c (λ _ c'. c' ≡ record {
      registers = at (u32 (c.registers.esp + 8)) c.registers;
      position = c.position;
      stack = s;
    })
unfolding drop_words
drop_words-Returns a b s c e = returns tt _ refl (rw e refl)

iret-Returns :
    (p : StackState) (s : List ℕ) (c : Cpu)
    → c.registers.esp < 2 ^ 32
    → c.stack ≡ p.eip ∷ p.cs ∷ p.eflags ∷ s
    → Returns iret c (λ _ c'.
      c'
      ≡ record { registers = at (u32 (c.registers.esp + 12)) c.registers; position = p; stack = s })
unfolding iret
iret-Returns p s c small e =
    returns tt
      (record { registers = at (raise 3 c.registers.esp) c.registers; position = p; stack = s })
      (rw (e, ◌>>=◌) refl)
      (ap (λ esp. record { registers = at esp c.registers; position = p; stack = s })
        (raise_lem 3 small))

-- Code of the processor, run beside the kernel.
pub processor-Returns :
    {code : Run Cpu (Unit {0})} {P : Cpu → Type 0} (m : Processor)
    → Returns code m.cpu (λ _ c. P c)
    → Returns (on_processor code) m (λ _ m'. P m'.cpu × (m'.kernel ≡ m.kernel))
processor-Returns m runs =
    zoom-Returns (λ (m : Processor). m.cpu) (λ m c. record m { cpu = c }) runs (λ _ c p. (p, refl))

-- The words that `pushad`, the macro and the processor put on the stack.
abbrev frame : CpuState → (n code : ℕ) → StackState → List ℕ → List ℕ
frame r n code p s =
    r.edi ∷ r.esi ∷ r.ebp ∷ r.esp ∷ r.ebx ∷ r.edx ∷ r.ecx ∷ r.eax ∷ n ∷ code ∷ p.eip ∷ p.cs
    ∷ p.eflags ∷ s

-- What the call of the handler leaves of the stack, and of the kernel.
abbrev Called : (Kernel → Type 0) → ℕ → List ℕ → Processor → Type 0
Called P esp words m = (m.cpu.registers.esp ≡ esp) × (m.cpu.stack ≡ words) × P m.kernel

module _ (handler : Handler) (scratch : Scratch)
    (kept : (words : List ℕ) → scratch.arguments words ≡ words) (return_address : ℕ)
    {p : StackState} {n code : ℕ} {s : List ℕ} {P : Kernel → Type 0} where
  call_handler-frame :
      {r : CpuState} (m : Processor)
      → m.cpu.registers.esp < 2 ^ 32
      → Returns (handler r n code p) m.kernel (λ _ k. P k)
      → Returns
          (call_handler handler scratch return_address)
          (record m { cpu = record m.cpu { stack = frame r n code p s } })
          (λ _ m'. Called P m.cpu.registers.esp (frame r n code p s) m')
  unfolding call_handler
  call_handler-frame {r} m small (returns _ k e holds) =
      returns tt
        (record {
          cpu = record {
            registers = record m.cpu.registers {
              esp = u32 (sub_u32 m.cpu.registers.esp 4 + 4);
              eax = scratch.eax;
              ecx = scratch.ecx;
              edx = scratch.edx;
            };
            position = record m.cpu.position { eflags = scratch.eflags };
            stack = scratch.arguments (frame r n code p s);
          };
          kernel = k;
        })
        (rw (e, ◌>>=◌, zoom) refl) (omega (arith, small), kept (frame r n code p s), holds)

  -- The handler gets the saved registers, the two words of the macro, and where the code was
  -- interrupted; the stack is as before the call.
  call_handler-Returns :
      {r : CpuState} (m : Processor)
      → m.cpu.registers.esp < 2 ^ 32
      → m.cpu.stack ≡ frame r n code p s
      → Returns (handler r n code p) m.kernel (λ _ k. P k)
      → Returns
          (call_handler handler scratch return_address)
          m
          (λ _ m'. Called P m.cpu.registers.esp (frame r n code p s) m')
  call_handler-Returns {r} m small e runs =
      subst
        (λ st.
          Returns (call_handler handler scratch return_address)
            (record m { cpu = record m.cpu { stack = st } })
            (λ _ m'. Called P m.cpu.registers.esp (frame r n code p s) m'))
        (sym e) (call_handler-frame m small runs)

  -- After the macros: where the code was interrupted and its registers are taken back, and the two
  -- words of the macro are dropped.
  pub common_interrupt_handler-Returns :
      (m : Processor)
      → m.cpu.registers.esp < 2 ^ 32
      → m.cpu.stack ≡ n ∷ code ∷ p.eip ∷ p.cs ∷ p.eflags ∷ s
      → Returns (handler m.cpu.registers n code p) m.kernel (λ _ k. P k)
      → Returns (common_interrupt_handler handler scratch return_address) m (λ _ m'.
        (m'.cpu ≡ record {
          registers = at (u32 (m.cpu.registers.esp + 20)) m.cpu.registers;
          position = p;
          stack = s;
        })
        × P m'.kernel)
  unfolding common_interrupt_handler
  common_interrupt_handler-Returns m small es runs =
      >>=-Returns _ (processor-Returns m (pushad-Returns m.cpu small)) (λ _ m₁ (e₁, k₁).
        >>=-Returns _
          (call_handler-Returns {r = m.cpu.registers} m₁ (rw e₁ (omega (arith, small)))
            (rw (e₁, es) refl) (rw k₁ runs))
          (λ _ m₂ (esp₂, s₂, holds).
            >>=-Returns _
              (processor-Returns m₂ (
                popad-Returns m.cpu.registers (n ∷ code ∷ p.eip ∷ p.cs ∷ p.eflags ∷ s) m₂.cpu
                  (rw (esp₂, e₁) (omega (arith, small))) s₂))
              (λ _ m₃ (e₃, k₃).
                >>=-Returns _
                  (processor-Returns m₃
                    (drop_words-Returns n code (p.eip ∷ p.cs ∷ p.eflags ∷ s) m₃.cpu (rw e₃ refl)))
                  (λ _ m₄ (e₄, k₄).
                    Returns-mono
                      (processor-Returns m₄
                        (iret-Returns p s m₄.cpu (rw e₄ (omega arith)) (rw e₄ refl)))
                      (λ _ m₅ (e₅, k₅). (
                        rw (e₅, e₄, e₃, esp₂, e₁)
                            (ap
                              (λ esp. record {
                                registers = at esp m.cpu.registers;
                                position = p;
                                stack = s;
                              })
                              (omega (arith, small))),
                        rw (k₅, k₄, k₃) holds,
                      ))))))
