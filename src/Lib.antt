-- ===== src/Lib.antt =====
-- projeto-so, a small 32-bit kernel in C: its console, its serial port, its manager of page frames,
-- its chat of two users, and its demonstration of a deadlock.
--
-- The parts and where they are modelled:
-- - Io: the instructions `in` and `out` (src/io.s), `cli` and `sti`. A run of code takes a state to
--   a value and a new state. The devices are the list of the answers that the next reads get; all
--   that is sent and received is kept in a trace, the newest first.
-- - Serial: src/serial.c, the serial port COM1 by polling.
-- - Framebuffer: src/framebuffer.c, the text console. The video memory is a function of the offset
--   of the byte; the position is the C variable `current_position`. Framebuffer/Cursor reads the
--   cursor's registers off the trace, Framebuffer/Cells says what the loops do to the cells,
--   Framebuffer/Bounds where the driver writes, Framebuffer/Paper what it promises, and
--   Framebuffer/Erase does so for the functions that erase.
-- - Memory: src/memory.c, the bitmap of page frames (Memory/Frames), the allocation
--   (Memory/Search, Memory/Alloc), its clients over time (Memory/Client, and from the start on
--   Memory/Handed), and `pmm_initialize` with the boot loader's structures of src/multiboot.h
--   (Memory/Initialize; WholePages and Usable below it say what memory a free frame is, HighRegion
--   what becomes of memory above 4 GiB).
-- - Deadlock: src/deadlock.c, two files behind spinlocks. Deadlock/Strings is about `str_copy`,
--   Deadlock/Swap about the exchange with it, Deadlock/Spin about the locks, Deadlock/Transcript
--   follows a transfer line by line, Deadlock/Safe and Deadlock/Unsafe are about the two transfers,
--   Deadlock/Delay about their delay, Deadlock/Init about the start.
-- - Chat: src/chat.c. The interrupt of the keyboard puts bytes in a ring (Chat/Queue), the main
--   loop takes them out and edits a line with them (Chat/Poll has the handlers, Chat/Editor and
--   Chat/Message are about the line), and the Enter key runs a command of Deadlock or sends the
--   line to the console and the serial port (Chat/Strings, Chat/Submit, Chat/BothScreens, and
--   Chat/Entered with the keys before). Chat/Outcome says what comes of a line, Chat/Command and
--   Chat/EnterKey that the code does this. Chat/SerialLine and Chat/SerialSession are about the line
--   of the serial port, Chat/SerialLoop about the loop that reads its bytes. Chat/Loop and
--   Chat/Session are about the keyboard's loop of `chat_poll` with the interrupts between its
--   rounds, Chat/Served about all of `chat_poll`, Chat/Freeze and Chat/SerialFreeze about the command
--   that does not come back, Chat/Init about the start.
-- - Keyboard: src/keyboard.c, the handler that reads scan codes into the ring of the chat
--   (Keyboard/Drain). Pic: src/pic.c, the two interrupt controllers (Pic/Chips has them as state
--   machines). Interrupt: src/interrupt.c, which calls the two (Interrupt/Dispatch;
--   Interrupt/Typing follows keys from the controller to the serial line), and
--   src/interrupt_handlers.s, which calls it (Interrupt/Stubs has the instructions on the registers
--   and the stack, Interrupt/Stubs/Restore the way back to the code that was interrupted).
-- - Gdt and Idt: src/gdt.c with src/gdt_flush.s, and src/idt.c, the tables of segments and of
--   interrupt gates, as functions of the index (Gdt/Descriptors and Idt/Gates read them as the
--   processor does).
-- - Kmain: src/kmain.c, which calls all of these. Kmain/Steps, Kmain/Tables and Kmain/Pages follow
--   its parts, Kmain/Booted and Kmain/Boot are about where it gets to, Kmain/FirstRound about the
--   first round of its loop, Kmain/Conversation about any number of its rounds, Kmain/InProgram
--   about the module.
-- - Program: src/program.s, the program to load as a module, in bytes, with the instructions of the
--   processor that it needs (Program/Endless). Loader: src/loader.s, which sets up paging and calls
--   `kmain` (Loader/Translate, Loader/Paging).
-- - Bits: the binary digits of a number, for the bitmap and the registers. Base: what the modules
--   share.
--
-- The state of a component is a record with the names of its static variables. A component that
-- calls another holds its state: the bus is part of the screen, the screen with the two files is
-- the world, and the world with the chat is the kernel; Kmain adds the bitmap and the tables.
-- Integers are natural numbers with their wrap-around written out. A C string is a list of bytes
-- that ends at its first 0 or at the end of the list. What an uninitialised array holds is an
-- argument.
--
-- Bounds. A run without a result waits, for a device or a lock, or stays in the module's program,
-- for as long as it is followed; the program is followed for a given number of instructions. The
-- wait for the serial port takes one recorded answer in each round and is followed for one round
-- more than there are answers. The loops over frames and over the memory map have a number of
-- rounds that no loop that ends can use up, since the counter has 32 bits. A lock is followed for a
-- given number of rounds; since nothing else runs, a free lock is taken in the first, and a held
-- one in none. The keyboard's loop of `chat_poll` is followed for a given number of rounds, with
-- the bytes that come in before each. The loop of `kmain` over it, which does not end, is followed
-- for a given number of rounds too, and the result is the state that it has then got to.
--
-- Not modelled: the addresses that src/link.ld and the linker fix, which are arguments of `kmain`,
-- and src/Makefile, which packs the image. The boot loader's structures and the module are read
-- from a memory that the code does not write to. The processor is modelled as far as the code uses
-- it: its own marks in page entries and its buffer of translations are left out, an instruction is
-- fetched by the address of its first byte, of an instruction of src/interrupt_handlers.s the
-- effect on registers and stack is taken, and of the machine code only the two instructions of
-- src/program.s and the near return are decoded. An interrupt comes between two rounds of the
-- keyboard's loop of `chat_poll`, or before `chat_poll`; where else it may come the code is
-- followed without one.
pub mod Base
pub mod Bits
pub mod Io
pub mod Serial
pub mod Memory
pub mod Framebuffer
pub mod Deadlock
pub mod Chat
pub mod Pic
pub mod Keyboard
pub mod Interrupt
pub mod Gdt
pub mod Idt
pub mod Program
pub mod Kmain
pub mod Loader
