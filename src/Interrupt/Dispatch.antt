-- ===== src/Interrupt/Dispatch.antt =====
-- What an interrupt does: the keyboard's keys, and the end of the interrupt.
use projeto_so.Base.{==_false, ℕ, ◌≡◌, ◌≢◌, ◌∙◌, ap, true, false, List, ◌∷◌, ◌++◌}
use projeto_so.Io.Returns.{Returns, >>=-Returns, zoom-Returns, pure-Returns}
use projeto_so.Io.Traffic.{writes}
use projeto_so.Framebuffer.{Screen}
use projeto_so.Deadlock.{World}
use projeto_so.Chat.{Kernel, on_cpu}
use projeto_so.Chat.Queue.{Holds}
use projeto_so.Pic.{pic_acknowledge}
use projeto_so.Pic.Chips.{ends, pic_acknowledge-writes}
use projeto_so.Keyboard.Drain.{
  waits, answers, all_wait, typed, Drained, Drained-start, keyboard_handler-Drained,
}
use projeto_so.Interrupt.{interrupt_handler}

-- The ring holds `q`, the answers `later` are left, and the ends of the interrupt were sent.
pub record Served (interrupt : ℕ) (q later : List ℕ) (k k' : Kernel) : Type 0 where
  pub ring : Holds k'.chat.ring q
  pub left : k'.world.screen.bus.inputs ≡ later
  pub ended : writes k'.world.screen.bus.trace ≡ writes k.world.screen.bus.trace ++ ends interrupt
  pub kbd_same : k'.chat.kbd ≡ k.chat.kbd
  pub ser_same : k'.chat.ser ≡ k.chat.ser
  pub console_same : k'.world.screen.console ≡ k.world.screen.console
  pub files_same : k'.world.files ≡ k.world.files

-- After the switch, the acknowledgement.
acknowledge-Served :
    (interrupt : ℕ) {q later : List ℕ} {k k₁ : Kernel}
    → Drained q later k k₁
    → Returns (on_cpu (pic_acknowledge interrupt)) k₁ (λ _ k'. Served interrupt q later k k')
acknowledge-Served interrupt {q} {later} {k} {k₁} d =
    zoom-Returns (λ (v : Kernel). v.world) (λ v w. record v { world = w })
      {P = λ _ w. Served interrupt q later k (record k₁ { world = w })}
      (zoom-Returns (λ (w : World). w.screen) (λ w s. record w { screen = s })
        {P = λ _ s.
          Served interrupt q later k (record k₁ { world = record k₁.world { screen = s } })}
        (zoom-Returns (λ (s : Screen). s.bus) (λ s b. record s { bus = b })
          (pic_acknowledge-writes interrupt k₁.world.screen.bus)
          (λ _ b (sent, inputs). record {
            ring = d.ring;
            left = inputs ∙ d.left;
            ended = sent ∙ ap (λ l. l ++ ends interrupt) d.nothing_sent;
            kbd_same = d.kbd_same;
            ser_same = d.ser_same;
            console_same = d.console_same;
            files_same = d.files_same;
          }))
        (λ _ s p. p))
      (λ _ w p. p)

-- Let the ring hold a queue. The interrupt 33 is that of the keyboard: once the controller says
-- that no more scan codes wait it has returned, its handler has put the characters of the waiting
-- keys in the ring as far as they fit, and the first controller is told of the end. Any other
-- interrupt leaves the ring and takes no answer; the controllers are told of its end if it is
-- theirs (32 to 47). Neither changes the lines, the console or the files.
pub interrupt_handler-Served :
    (k : Kernel) (q : List ℕ)
    → Holds k.chat.ring q
    → ((keys : List (ℕ × ℕ)) (last : ℕ) (later : List ℕ)
        → all_wait keys ≡ true
        → waits last ≡ false
        → k.world.screen.bus.inputs ≡ answers keys ++ last ∷ later
        → Returns (interrupt_handler 33) k (λ _ k'. Served 33 (typed keys q) later k k'))
      × ((interrupt : ℕ)
          → interrupt ≢ 33
          → Returns
              (interrupt_handler interrupt)
              k
              (λ _ k'. Served interrupt q k.world.screen.bus.inputs k k'))
unfolding interrupt_handler
interrupt_handler-Served k q h = (
  λ keys last later wait stop e.
      >>=-Returns (λ _. on_cpu (pic_acknowledge 33))
        (keyboard_handler-Drained keys last later k q wait stop e h)
        (λ _ k₁ d. acknowledge-Served 33 d),
  λ interrupt other. rw (==_false other) (
      >>=-Returns (λ _. on_cpu (pic_acknowledge interrupt))
        (pure-Returns {a = tt} (Drained-start h)) (λ _ k₁ d. acknowledge-Served interrupt d)),
)
