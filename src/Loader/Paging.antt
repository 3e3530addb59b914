-- ===== src/Loader/Paging.antt =====
-- Where the virtual addresses lead, once the loader has called `kmain`.
use projeto_so.Base.{
  ℕ, ◌+◌, ◌-◌, ◌*◌, ◌/◌, ◌%◌, ◌^◌, ◌≤◌, ◌<◌, ◌≡◌, refl, ap, ◌∙◌, arith, true, false, ◌&&◌, none,
  some, ◌==◌, leb, ltb, if◌then◌else◌, bit_and, u32, sub_u32, update, Bool-cases, inl, inr,
}
use projeto_so.Io.{Run, ◌>>=◌, ◌>>◌}
use projeto_so.Io.Returns.{Returns-eq, Returns, returns, Returns-mono, >>=-Returns}
use projeto_so.Memory.{kernel_base}
use projeto_so.Loader.{
  Startup, fetch_low, fetch_high, translate, store, push_word, map_kernel, enable_paging,
  enter_higher_half, loader, kernel_stack_size,
}
use projeto_so.Loader.Translate.{
  bit_set, Paged, translate-present, translate-absent, translate-off, store-Returns, Placed,
  fetch_low-run, fetch_high-run,
}

-- What the loader has set up when it calls `kmain`: the virtual addresses from `kernel_base` on
-- lead to the first 4 MiB of the memory, every other one nowhere; the argument of `kmain` is
-- `argument`, and it would return to `loop`.
pub record HigherHalf (stack_top argument loop : ℕ) (s : Startup) : Type 0 where
  pub mapped :
      (a : ℕ)
      → a < 2 ^ 32
      → translate s a ≡ (
          if leb kernel_base a && ltb a (kernel_base + 2 ^ 22)
          then some (a - kernel_base)
          else none)
  pub stack_at : s.esp + 8 ≡ stack_top
  pub argument_on_stack : s.memory (s.esp + 4 - kernel_base) ≡ argument
  pub return_on_stack : s.memory (s.esp - kernel_base) ≡ loop

module _ (code : ℕ → ℕ) (d k : ℕ) (placed : Placed code) (aligned : d % 2 ^ 12 ≡ 0)
    (fits : k + 16384 ≤ 2 ^ 22) (below : d + 4096 ≤ k) where
  map_kernel-Returns :
      {m : Startup}
      → bit_and m.cr0 (2 ^ 31) ≡ 0
      → Returns
          (map_kernel (kernel_base + d))
          m
          (λ _ m'. m' ≡ record m { memory = update (update m.memory d 0x83) (d + 3072) 0x83 })
  unfolding map_kernel
  map_kernel-Returns {m} paging_off =
      let low : sub_u32 (kernel_base + d) kernel_base ≡ d = omega (arith, fits, below) in
      let high : u32 (sub_u32 (kernel_base + d) kernel_base + 768 * 4) ≡ d + 3072 =
        omega (arith, fits, below) in
      >>=-Returns _ (store-Returns d _ 0x83 (translate-off m _ paging_off ∙ ap some low))
        (λ _ m₁ e₁.
          Returns-mono
            (store-Returns (d + 3072) _ 0x83 (translate-off m₁ _ (rw e₁ paging_off) ∙ ap some high))
            (λ _ m₂ e₂. e₂ ∙ rw e₁ refl))

  -- The directory once the first entry is taken back, beside what lies from `k` on.
  record Directory (m : Startup) : Type 0 where
    pub paged : Paged d m
    pub entries : (i : ℕ) → i < 1024 → m.memory (d + i * 4) ≡ (if i == 768 then 0x83 else 0)

  Directory-HigherHalf :
      {m : Startup} (a : ℕ)
      → Directory m
      → a < 2 ^ 32
      → translate m a ≡ (
          if leb kernel_base a && ltb a (kernel_base + 2 ^ 22)
          then some (a - kernel_base)
          else none)
  Directory-HigherHalf {m} a g small = elim (Bool-cases (a / 2 ^ 22 == 768)) [
    | inl inside ↦
        let here : (leb kernel_base a && ltb a (kernel_base + 2 ^ 22)) ≡ true =
          ground (arith, inside) in
        rw here (
          translate-present a g.paged (g.entries (a / 2 ^ 22) (omega arith) ∙ rw inside refl)
          ∙ ap some (ground (arith, inside)))
    | inr outside ↦
        let elsewhere : (leb kernel_base a && ltb a (kernel_base + 2 ^ 22)) ≡ false =
          ground (arith, outside) in
        rw elsewhere
          (translate-absent a g.paged (g.entries (a / 2 ^ 22) (omega arith) ∙ rw outside refl))
  ]

  -- The stores after the directory is whole fall on the stack.
  store-Directory :
      {m : Startup} (at v : ℕ)
      → k ≤ at
      → at < 2 ^ 22
      → Directory m
      → Returns
          (store (kernel_base + at) v)
          m
          (λ _ m'. Directory m' × (m' ≡ record m { memory = update m.memory at v }))
  store-Directory {m} at v above inside g =
      Returns-mono
        (store-Returns at (kernel_base + at) v (
          Directory-HigherHalf (kernel_base + at) g (omega (arith, inside))
          ∙ ground (arith, inside)))
        (λ _ m₁ e. (
          record {
            paged = record {
              on = rw e g.paged.on;
              large = rw e g.paged.large;
              directory_at = rw e g.paged.directory_at;
            };
            entries = λ i small. rw e (ground (arith, g.entries i small, above, below));
          },
          e,
        ))

  -- The registers that only count.
  moved-Directory :
      {m : Startup} (ecx esp : ℕ) → Directory m → Directory (record m { ecx = ecx; esp = esp })
  moved-Directory ecx esp g = record {
    paged = record { on = g.paged.on; large = g.paged.large; directory_at = g.paged.directory_at };
    entries = g.entries;
  }

  push_word-Directory :
      {m : Startup} (at v : ℕ)
      → m.esp ≡ kernel_base + (at + 4)
      → k ≤ at
      → at < 2 ^ 22
      → Directory m
      → Returns (push_word v) m (λ _ m'.
        Directory m' × (m' ≡ record m { esp = kernel_base + at; memory = update m.memory at v }))
  unfolding push_word
  push_word-Directory {m} at v e above inside g =
      let down : sub_u32 m.esp 4 ≡ kernel_base + at = omega (arith, e, inside) in
      elim (store-Directory at v above inside (moved-Directory m.ecx (kernel_base + at) g)) [
        | returns u m₁ runs (g₁, e₁) ↦ returns u m₁ (rw (down, push_word, ◌>>=◌) runs) (g₁, e₁)
      ]

  fetch-Directory : {m : Startup} (i : ℕ) → i < 8 → Directory m → fetch_high code i m ≡ some (tt, m)
  fetch-Directory i small g =
      fetch_high-run code placed g.paged i small (g.entries 768 (omega arith))

  enter_higher_half-Directory :
      (s : Startup)
      → bit_and s.cr0 (2 ^ 31) ≡ 0
      → ((i : ℕ) → i < 1024 → s.memory (d + i * 4) ≡ 0)
      → Returns (enter_higher_half code (kernel_base + d)) s (λ _ m. Directory m × (m.ecx ≡ s.ecx))
  unfolding enter_higher_half enable_paging
  enter_higher_half-Directory s off blank = >>=-Returns _ (map_kernel-Returns off) (λ _ m₁ e₁.
      >>=-Returns (λ _. jump) (enabled m₁ e₁)
        (λ _ m₂ (paged, e₂, kept).
          Returns-mono
            (Returns-eq
              (rw
                (
                  fetch_low-run code placed paged 0 (omega arith) (rw e₂ (ground arith)),
                  ◌>>=◌,
                  fetch_low-run code placed paged 1 (omega arith) (rw e₂ (ground arith)),
                  fetch_high-run code placed paged 2 (omega arith) (rw e₂ (ground arith)),
                )
                refl)
              (store-Returns d (kernel_base + d) 0 (
                translate-present (kernel_base + d) paged (rw (index, e₂) (ground arith))
                ∙ ap some (omega (arith, fits, below)))))
            (λ _ m₃ e₃. (
              record {
                paged = record {
                  on = rw e₃ paged.on;
                  large = rw e₃ paged.large;
                  directory_at = rw e₃ paged.directory_at;
                };
                entries = λ i small. rw (e₃, e₂) (ground (arith, blank i small));
              },
              rw e₃ kept,
            ))))
    where
      jump : Run Startup (Unit {0})
      jump = do fetch_low code 0; fetch_low code 1; fetch_high code 2; store (kernel_base + d) 0

      index : (kernel_base + d) / 2 ^ 22 ≡ 768
      index = omega (arith, fits, below)

      mapped : ℕ → ℕ
      mapped = update (update s.memory d 0x83) (d + 3072) 0x83

      enabled :
          (m : Startup)
          → m ≡ record s { memory = mapped }
          → Returns
              (enable_paging (kernel_base + d))
              m
              (λ _ m'. Paged d m' × (m'.memory ≡ mapped) × (m'.ecx ≡ s.ecx))
      enabled m e = returns tt _ refl (
        record {
          on = bit_set m.cr0 31;
          large = bit_set m.cr4 4;
          directory_at = omega (arith, fits, below, aligned);
        },
        rw e refl,
        rw e refl,
      )

  -- Let paging be off and the page directory blank and at a page boundary, let the directory and
  -- above it the stack lie in the first 4 MiB of the memory, and let the code that runs with paging
  -- on be linked for the first 4 MiB from 0xC0000000 on. Then the loader gets to the call of `kmain`
  -- without a page fault: each store reaches the memory, and each of these instructions is found
  -- where the boot loader put it, the jump at its lower address too. There the virtual addresses
  -- from 0xC0000000 on lead to the first 4 MiB of the memory, and every other address of 32 bits
  -- leads nowhere; the stack is the kernel's, with the return address and above it the boot loader's
  -- pointer, moved up by 0xC0000000.
  pub loader-HigherHalf :
      (ebx loop : ℕ) (s : Startup)
      → bit_and s.cr0 (2 ^ 31) ≡ 0
      → ((i : ℕ) → i < 1024 → s.memory (d + i * 4) ≡ 0)
      → Returns (loader code ebx (kernel_base + d) (kernel_base + k) loop) s (λ _ s'.
        HigherHalf (kernel_base + k + kernel_stack_size) (u32 (ebx + kernel_base)) loop s')
  unfolding loader
  loader-HigherHalf ebx loop s off blank =
      elim (enter_higher_half-Directory (record s { ecx = ebx }) off blank) [
        | returns _ m₁ e₁ (g₁, ecx₁) ↦
            elim (push_word-Directory (k + 16380) (u32 (m₁.ecx + kernel_base)) (omega (arith, fits))
              (omega arith) (omega (arith, fits))
              (moved-Directory (u32 (m₁.ecx + kernel_base)) (u32 (kernel_base + k + 16384)) g₁)) [
                | returns _ m₂ e₂ (g₂, p₂) ↦
                    elim (push_word-Directory (k + 16376) loop (rw p₂ (omega arith)) (omega arith)
                      (omega (arith, fits)) g₂) [
                        | returns u m₃ e₃ (g₃, p₃) ↦
                            returns u m₃
                              (rw
                                (
                                  e₁,
                                  ◌>>=◌,
                                  fetch-Directory 3 (omega arith) g₁,
                                  fetch-Directory 4 (omega arith) g₁,
                                  fetch-Directory 5 (omega arith)
                                      (moved-Directory m₁.ecx (u32 (kernel_base + k + 16384)) g₁),
                                  fetch-Directory 6 (omega arith) (
                                      moved-Directory (u32 (m₁.ecx + kernel_base))
                                        (u32 (kernel_base + k + 16384)) g₁),
                                  e₂,
                                  fetch-Directory 7 (omega arith) g₂,
                                  e₃,
                                )
                                refl)
                              (record {
                                mapped = λ a small. Directory-HigherHalf a g₃ small;
                                stack_at = rw p₃ (omega arith);
                                argument_on_stack = rw (p₃, p₂, ecx₁) (ground arith);
                                return_on_stack = rw p₃ (ground arith);
                              })
                      ]
              ]
      ]
