-- ===== src/Kmain/Steps.antt =====
-- The steps of `kmain`: what a message, a table or the allocator changes of the machine.
use projeto_so.Base.{ℕ, ◌-◌, ◌≤◌, ◌≡◌, refl, arith, List, length, until_nul}
use projeto_so.Io.{Event, Bus, Run, zoom, ◌>>◌}
use projeto_so.Io.Returns.{Returns, returns, >>=-Returns}
use projeto_so.Io.Traffic.{Busy, still, Busy-trans, Tail, whole, Tail-trans}
use projeto_so.Serial.Ready.{ready_count}
use projeto_so.Serial.Print.{serial_print_returns}
use projeto_so.Framebuffer.{Screen, console_black}
use projeto_so.Framebuffer.Cursor.{Quiet, console_write_colored-Quiet}
use projeto_so.Deadlock.{on_screen}
use projeto_so.Chat.{on_world, on_cpu}
use projeto_so.Memory.Frames.{Bitmap}
use projeto_so.Chat.{Chat}
use projeto_so.Gdt.{Gdt}
use projeto_so.Idt.{Idt}
use projeto_so.Deadlock.{Files}
use projeto_so.Kmain.{Machine, on_kernel, bus_of, with_bus, print, show}

-- The rule for two steps of `kmain`.
pub >>-Returns :
    {m n : Run Machine (Unit {0})} {s : Machine} {P Q : Unit {0} → Machine → Type 0}
    → Returns m s P
    → ((s' : Machine) → P tt s' → Returns n s' Q)
    → Returns (m >> n) s Q
>>-Returns {m} {n} {P} first next = >>=-Returns {m = m} {P = P} (λ _. n) first (λ _ s' p. next s' p)

-- The machine without its screen and its ports.
abbrev pub beside : Machine → Bitmap × Gdt × Idt × Chat × Files
beside m = (m.pmm_bitmap, m.gdt, m.idt, m.kernel.chat, m.kernel.world.files)

-- Beside its screen and its ports, the machine `m` is `ref`. The port will take `left` more bytes,
-- and since the trace was `t` there was only traffic with the console and the serial line.
pub record Along (ref : Machine) (vs : List ℕ) (t : List Event) (left : ℕ) (m : Machine)
    : Type 0 where
  pub same : beside m ≡ beside ref
  pub spare : left ≤ ready_count (bus_of m).inputs
  pub busy : Busy t (bus_of m).trace
  pub left_over : Tail vs (bus_of m).inputs

pub Along-start :
    {left : ℕ} (m : Machine)
    → left ≤ ready_count (bus_of m).inputs
    → Along m (bus_of m).inputs (bus_of m).trace left m
Along-start m ready = record { same = refl; spare = ready; busy = still; left_over = whole }

-- Fewer answers.
pub Along-fewer :
    {ref : Machine} {vs : List ℕ} {t : List Event} {left left' : ℕ} {m : Machine}
    → left' ≤ left
    → Along ref vs t left m
    → Along ref vs t left' m
Along-fewer few a = record {
  same = a.same;
  spare = omega (arith, few, a.spare);
  busy = a.busy;
  left_over = a.left_over;
}

-- Code on the screen.
screen-Returns :
    {m : Machine} {code : Run Screen (Unit {0})} {P : Screen → Type 0} {Q : Machine → Type 0}
    → Returns code m.kernel.world.screen (λ _ sc. P sc)
    → ((sc : Screen)
        → P sc
        → Q (record m {
          kernel = record m.kernel { world = record m.kernel.world { screen = sc } };
        }))
    → Returns (on_kernel (on_world (on_screen code))) m (λ _ m'. Q m')
screen-Returns {m} {code} {P} {Q} (returns u sc e p) next =
    returns u
      (record m { kernel = record m.kernel { world = record m.kernel.world { screen = sc } } })
      (rw (e, zoom) refl) (next sc p)

-- Code on the ports.
pub bus-Returns :
    {m : Machine} {code : Run Bus (Unit {0})} {P : Bus → Type 0} {Q : Machine → Type 0}
    → Returns code (bus_of m) (λ _ b. P b)
    → ((b : Bus) → P b → Q (with_bus m b))
    → Returns (on_kernel (on_cpu code)) m (λ _ m'. Q m')
bus-Returns {m} {code} (returns u b e p) next =
    returns u (with_bus m b) (rw (e, zoom) refl) (next b p)

module _ {ref : Machine} {vs : List ℕ} {t : List Event} {left : ℕ} {m : Machine} where
  pub print-Along :
      (text : List ℕ)
      → Along ref vs t left m
      → length (until_nul text) ≤ left
      → Returns (print text) m (λ _ m'. Along ref vs t (left - length (until_nul text)) m')
  unfolding print
  print-Along text a room =
      bus-Returns (serial_print_returns text (bus_of m) (ground (arith, a.spare, room)))
        (λ b printed. record {
          same = a.same;
          spare = omega (arith, printed.used, a.spare);
          busy = Busy-trans a.busy printed.busy;
          left_over = Tail-trans a.left_over printed.left_over;
        })

  pub screen-Along :
      {code : Run Screen (Unit {0})}
      → Returns code m.kernel.world.screen (λ _ sc. Quiet m.kernel.world.screen sc)
      → Along ref vs t left m
      → Returns (on_kernel (on_world (on_screen code))) m (λ _ m'. Along ref vs t left m')
  screen-Along runs a = screen-Returns runs (λ sc quiet. record {
    same = a.same;
    spare = rw (quiet.inputs_kept) a.spare;
    busy = Busy-trans a.busy quiet.busy;
    left_over = rw (quiet.inputs_kept) a.left_over;
  })

  pub show-Along :
      (text : List ℕ) (fg : ℕ)
      → Along ref vs t left m
      → Returns (show text fg) m (λ _ m'. Along ref vs t left m')
  unfolding show
  show-Along text fg = screen-Along (console_write_colored-Quiet text fg console_black _)
