-- ===== src/Kmain.antt =====
-- src/kmain.c: the start of the kernel, up to the loop over `chat_poll`, and rounds of that loop.
-- What the linker and the boot loader fix is an argument; `program` is the code of a module.
pub mod Boot
pub mod Booted
pub mod FirstRound
pub mod InProgram
pub mod Conversation
pub mod Steps
pub mod Tables
pub mod Pages
mod Tests
mod RoundTests
mod ProgramTests
use projeto_so.Base.{
  ℕ, zero, suc, ◌+◌, bit_and, List, [], ◌∷◌, ◌==◌, ltb, if◌then◌else◌, u32, codes, some,
}
use projeto_so.Io.{Bus, Run, pure, hang, zoom, ◌>>=◌, ◌>>◌, disable_interrupts, enable_interrupts}
use projeto_so.Serial.{serial_initialize, serial_print}
use projeto_so.Framebuffer.{
  console_clear, console_write_colored, console_black, console_magenta, console_light_magenta,
  console_light_grey, console_light_green, console_light_cyan, console_light_red,
  console_light_brown,
}
use projeto_so.Memory.{Pmm, pmm_alloc_page, kernel_base}
use projeto_so.Memory.Frames.{Bitmap}
use projeto_so.Memory.Initialize.{Ram, dword, MultibootInfo, multiboot_flag_mods, pmm_initialize}
use projeto_so.Deadlock.{World, on_screen}
use projeto_so.Chat.{Kernel, on_world, on_cpu, chat_init}
use projeto_so.Chat.Poll.{chat_poll}
use projeto_so.Gdt.{Gdt, gdt_initialize}
use projeto_so.Idt.{Idt, idt_initialize}
use projeto_so.Pic.{pic_remap}

-- All the state of the system.
pub record Machine : Type 0 where
  pub kernel : Kernel
  pub pmm_bitmap : Bitmap
  pub gdt : Gdt
  pub idt : Idt

-- The addresses that the linker gives: of the tables, of the stubs `interrupt_handler_i`, and of
-- KERNEL_START and KERNEL_END.
pub record Image : Type 0 where
  pub gdt_address : ℕ
  pub idt_address : ℕ
  pub handlers : ℕ → ℕ
  pub kernel_start : ℕ
  pub kernel_end : ℕ

-- The fields of the `multiboot_info_t` at an address.
abbrev pub multiboot_info_at : Ram → ℕ → MultibootInfo
multiboot_info_at ram a = record {
  flags = dword ram a;
  mods_count = dword ram (a + 20);
  mods_addr = dword ram (a + 24);
  mmap_length = dword ram (a + 44);
  mmap_addr = dword ram (a + 48);
}

abbrev pub on_kernel : {A : Type 0} → Run Kernel A → Run Machine A
on_kernel = zoom (λ (m : Machine). m.kernel) (λ m k. record m { kernel = k })

abbrev pub bus_of : Machine → Bus
bus_of m = m.kernel.world.screen.bus

abbrev pub with_bus : Machine → Bus → Machine
with_bus m b = record m {
  kernel = record m.kernel {
    world = record m.kernel.world { screen = record m.kernel.world.screen { bus = b } };
  };
}

abbrev pub on_pmm : {A : Type 0} → Run Pmm A → Run Machine A
on_pmm =
    zoom (λ (m : Machine). record { pmm_bitmap = m.pmm_bitmap; bus = bus_of m })
      (λ m p. record (with_bus m p.bus) { pmm_bitmap = p.pmm_bitmap })

-- A call that changes the state and does nothing else.
unfoldable pub change : (Machine → Machine) → Run Machine (Unit {0})
change f m = some (tt, f m)

unfoldable pub print : List ℕ → Run Machine (Unit {0})
print text = on_kernel (on_cpu (serial_print text))

unfoldable pub show : List ℕ → ℕ → Run Machine (Unit {0})
show text fg = on_kernel (on_world (on_screen (console_write_colored text fg console_black)))

-- The serial port, the segments, the controllers and the gates.
unfoldable pub set_up_tables : Image → Run Machine (Unit {0})
set_up_tables image = do
  on_kernel (on_cpu serial_initialize)
  print (codes "Porta Serial (COM1) Inicializada com sucesso!\n")
  print (codes "Kernel do Little OS Book - Teste do Capitulo 7\n")
  change (λ m. record m { gdt = gdt_initialize image.gdt_address m.gdt })
  print (codes "GDT (Global Descriptor Table) carregada com sucesso!\n")
  on_kernel (on_cpu pic_remap)
  print (codes "PIC remapeado (IRQs 0-15 -> INT 32-47)\n")
  change (λ m. record m { idt = idt_initialize image.handlers image.idt_address m.idt })
  print (codes "IDT (Interrupt Descriptor Table) carregada com sucesso!\n")

-- The first messages on the screen, and `sti`.
unfoldable pub greet : Run Machine (Unit {0})
greet = do
  on_kernel (on_world (on_screen console_clear))
  show (codes "Hello World!\n\n") console_light_magenta
  show (codes "Finalmente deu certo!\n") console_magenta
  show (codes "Usando o framebuffer vga...!\n") console_light_magenta
  show (codes "GDT carregada com sucesso!\n") console_magenta
  show (codes "IDT e PIC inicializados!\n") console_light_magenta
  show (codes "Teclado habilitado - digite algo!\n") console_magenta
  print (codes "Mensagens enviadas para o framebuffer.\n")
  on_kernel (on_cpu enable_interrupts)
  print (codes "Interrupcoes habilitadas (sti).\n")

-- The allocator, and the page that is taken to try it.
unfoldable pub set_up_memory : MultibootInfo → Ram → Image → Run Machine (Unit {0})
set_up_memory mbinfo ram image = do
  on_pmm (pmm_initialize mbinfo ram image.kernel_start image.kernel_end)
  print (codes "Teste PMM: Alocando primeira pagina 4KB... ")
  test_page ← on_pmm pmm_alloc_page
  if ltb 0 test_page then print (codes "SUCESSO!\n") else print (codes "FALHA!\n")

-- `mods->mod_start + KERNEL_VIRTUAL_BASE`
abbrev pub program_address : MultibootInfo → Ram → ℕ
program_address mbinfo ram = u32 (dword ram (u32 (mbinfo.mods_addr + kernel_base)) + kernel_base)

-- With one module, what comes before the call of `start_program`.
unfoldable pub before_program : Run Machine (Unit {0})
before_program = do
  print (codes "Modulo externo encontrado via GRUB!\n")
  show (codes "\nModulo carregado! Disparando programa...\n") console_light_green
  print (codes "Saltando para o programa em modo kernel...\n")
  on_kernel (on_cpu disable_interrupts)

unfoldable pub unexpected_modules : Run Machine (Unit {0})
unexpected_modules = do
  print (codes "Modulo externo encontrado via GRUB!\n")
  print (codes "AVISO: mods_count != 1, abortando salto.\n")
  show (codes "\nAVISO: numero de modulos inesperado!\n") console_light_red

unfoldable pub run_module :
    MultibootInfo → Ram → (program : ℕ → Run Machine (Unit {0})) → Run Machine (Unit {0})
run_module mbinfo ram program =
    if bit_and mbinfo.flags multiboot_flag_mods == 0
    then print (codes "Nenhum modulo multiboot encontrado.\n")
    else if mbinfo.mods_count == 1
    then (before_program >> program (program_address mbinfo ram))
    else unexpected_modules

-- The messages of the chat, and its start.
unfoldable pub start_chat : Run Machine (Unit {0})
start_chat = do
  print (codes "Modo chat do kernel (vga=teclado, serial=COM1).\n")
  show (codes "\n--- Chat no kernel ---\n") console_light_cyan
  show (codes "[vga] teclado na janela VGA  |  [serial] terminal host\n") console_light_grey
  show (codes "Enter envia a linha. Backspace apaga.\n") console_light_grey
  show (codes "Comandos: /transferir /deadlock\n") console_light_brown
  change (λ m. record m { kernel = chat_init m.kernel })

-- `while (1) chat_poll();`, followed for one round for each list of bytes of the keyboard's
-- interrupts: the state that the loop has then got to. It goes on from there for ever.
unfoldable pub poll : (stack buf : List ℕ) → ℕ → ℕ → List (List (List ℕ)) → Run Machine (Unit {0})
poll stack buf rounds kbd_rounds [] = pure tt
poll stack buf rounds kbd_rounds (arrivals ∷ later) =
    on_kernel (chat_poll stack buf rounds kbd_rounds arrivals)
    >> poll stack buf rounds kbd_rounds later

-- Before the call of a module.
unfoldable pub start_kernel : MultibootInfo → Ram → Image → Run Machine (Unit {0})
start_kernel mbinfo ram image = set_up_tables image >> greet >> set_up_memory mbinfo ram image

-- All of `kmain` before the loop.
unfoldable pub enter_chat :
    MultibootInfo → Ram → Image → (program : ℕ → Run Machine (Unit {0})) → Run Machine (Unit {0})
enter_chat mbinfo ram image program =
    start_kernel mbinfo ram image >> run_module mbinfo ram program >> start_chat

unfoldable pub kmain :
    (ebx : ℕ) (ram : Ram)
    → Image
    → (program : ℕ → Run Machine (Unit {0})) → (stack buf : List ℕ) → (rounds kbd_rounds : ℕ)
    → List (List (List ℕ))
    → Run Machine (Unit {0})
kmain ebx ram image program stack buf rounds kbd_rounds arrivals =
    enter_chat (multiboot_info_at ram ebx) ram image program
    >> poll stack buf rounds kbd_rounds arrivals
