-- ===== src/Loader.antt =====
-- src/loader.s: the page directory, the jump to the higher half, and the call of `kmain`.
-- The processor's own marks in the entries (accessed, dirty) are left out, and so is the buffer of
-- translations, which `invlpg` brings up to date.
pub mod Translate
pub mod Paging
mod Tests
use projeto_so.Base.{
  ℕ, ◌+◌, ◌*◌, ◌/◌, ◌%◌, ◌^◌, ◌||◌, Option, none, some, ◌==◌, if◌then◌else◌, bit_and, bit_or,
  update, u32, sub_u32,
}
use projeto_so.Io.{Run, ◌>>=◌, ◌>>◌}
use projeto_so.Memory.{kernel_base}

abbrev pub kernel_stack_size : ℕ
kernel_stack_size = 16384

abbrev pub kernel_page_number : ℕ
kernel_page_number = kernel_base / 2 ^ 22

-- Present, writable, of 4 MiB.
abbrev pub pde_flags : ℕ
pde_flags = 0x83

-- The words of the memory by their physical addresses, and the registers that are used.
pub record Startup : Type 0 where
  pub memory : ℕ → ℕ
  pub cr0 : ℕ
  pub cr3 : ℕ
  pub cr4 : ℕ
  pub ecx : ℕ
  pub esp : ℕ

-- The physical address that the processor finds for a virtual one. An entry that does not stand for
-- 4 MiB would lead to a table, and the loader makes none. The directory starts at a page: the lower
-- 12 bits of `cr3` are not part of its address.
abbrev pub translate : Startup → ℕ → Option ℕ
translate s address =
    let entry = s.memory (s.cr3 / 2 ^ 12 * 2 ^ 12 + address / 2 ^ 22 * 4) in
    if bit_and s.cr0 (2 ^ 31) == 0
    then some address
    else if bit_and entry 0x01 == 0
    then none
    else if (bit_and entry 0x80 == 0) || (bit_and s.cr4 (2 ^ 4) == 0)
    then none
    else some (entry / 2 ^ 22 * 2 ^ 22 + address % 2 ^ 22)

-- `mov dword [address], value`; `none` is a page fault.
unfoldable pub store : (address value : ℕ) → Run Startup (Unit {0})
store address value s = elim (translate s address) [
  | none ↦ none
  | some physical ↦ some (tt, record s { memory = update s.memory physical value })
]

-- The processor fetches its next instruction at the address `eip`: without a page fault, it has to
-- find the one that lies at the address `physical` of the memory.
unfoldable pub fetch : (eip physical : ℕ) → Run Startup (Unit {0})
fetch eip physical s = elim (translate s eip) [
  | none ↦ none
  | some found ↦ if found == physical then some (tt, s) else none
]

-- `code k` is the address that the linker gives the `k`th of the instructions that come once paging
-- is on: `lea`, `jmp`, and those from `higher_half` to `call`. The boot loader puts the code
-- `kernel_base` below. Up to the jump it runs at these lower addresses.
abbrev pub fetch_low : (code : ℕ → ℕ) → ℕ → Run Startup (Unit {0})
fetch_low code k = fetch (sub_u32 (code k) kernel_base) (sub_u32 (code k) kernel_base)

abbrev pub fetch_high : (code : ℕ → ℕ) → ℕ → Run Startup (Unit {0})
fetch_high code k = fetch (code k) (sub_u32 (code k) kernel_base)

abbrev pub set : (Startup → Startup) → Run Startup (Unit {0})
set f s = some (tt, f s)

unfoldable pub push_word : ℕ → Run Startup (Unit {0})
push_word value s =
    (do set (λ v. record v { esp = sub_u32 v.esp 4 }); store (sub_u32 s.esp 4) value) s

-- The two entries, before paging is on.
unfoldable pub map_kernel : (directory : ℕ) → Run Startup (Unit {0})
map_kernel directory = do
  store (sub_u32 directory kernel_base) pde_flags
  store (u32 (sub_u32 directory kernel_base + kernel_page_number * 4)) pde_flags

unfoldable pub enable_paging : (directory : ℕ) → Run Startup (Unit {0})
enable_paging directory = set (λ s. record s {
  cr3 = sub_u32 directory kernel_base;
  cr4 = bit_or s.cr4 (2 ^ 4);
  cr0 = bit_or s.cr0 (2 ^ 31);
})

-- Up to the instruction that takes the first entry back, at `higher_half`. Before paging is on an
-- address is that of the memory, and the fetches are left out.
unfoldable pub enter_higher_half : (code : ℕ → ℕ) (directory : ℕ) → Run Startup (Unit {0})
enter_higher_half code directory = do
  map_kernel directory
  enable_paging directory
  fetch_low code 0
  fetch_low code 1
  fetch_high code 2
  store directory 0

-- `directory` and `kernel_stack` are the addresses of the labels, and `loop` the one that `call`
-- pushes.
unfoldable pub loader :
    (code : ℕ → ℕ) (ebx directory kernel_stack loop : ℕ) → Run Startup (Unit {0})
loader code ebx directory kernel_stack loop = do
  set (λ s. record s { ecx = ebx })
  enter_higher_half code directory
  fetch_high code 3
  fetch_high code 4
  set (λ s. record s { esp = u32 (kernel_stack + kernel_stack_size) })
  fetch_high code 5
  set (λ s. record s { ecx = u32 (s.ecx + kernel_base) })
  fetch_high code 6
  (λ s. push_word s.ecx s)
  fetch_high code 7
  push_word loop
