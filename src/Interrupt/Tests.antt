-- ===== src/Interrupt/Tests.antt =====
-- The theorems on event injection at a guest that blocks interrupts.
use hvpp.Prelude.{ℕ, ◌-◌, ◌^◌, ◌≡◌, refl, arith, true, false, [], ◌∷◌, replicate}
use hvpp.Deque.{Deque}
use hvpp.Deque.Contents.{IsValid}
use hvpp.Interrupt.{
  InterruptType, Interrupt, make, Vcpu, QueueType, queue_size, no_interrupt, queue_at, TrueCtls,
  handle_window,
}
use hvpp.Interrupt.Inject.{waiting, other}
use hvpp.Interrupt.Window.{handle_window_lem}

abbrev all_controls : TrueCtls
all_controls = record { allowed_0_settings = 0; allowed_1_settings = 2 ^ 32 - 1 }

-- a timer interrupt
abbrev timer : Interrupt
timer = make InterruptType.external 48 0 false (2 ^ 32 - 1)

abbrev no_items : Deque Interrupt
no_items = record { queue = replicate 64 no_interrupt; first = 0; count = 0 }

abbrev one_item : Deque Interrupt
one_item = record { queue = timer ∷ replicate 63 no_interrupt; first = 0; count = 1 }

abbrev guest : ℕ → Deque Interrupt → Vcpu
guest rflags external_queue = record {
  rflags = rflags;
  guest_interruptibility_state = 0;
  exit_instruction_length = 2;
  entry_interruption_info = 0;
  entry_interruption_error_code = 0;
  entry_instruction_length = 0;
  processor_based_controls = 0;
  external_queue = external_queue;
  nmi_queue = no_items;
  suppress_rip_adjust = false;
}

one_item-IsValid :
    IsValid queue_size no_interrupt (queue_at (guest 2 one_item) QueueType.interrupt_queue_external)
unfolding queue_at
one_item-IsValid = record {
  length_queue = refl;
  first_inside = omega arith;
  count_fits = omega arith;
  small = omega arith;
}

waiting-guest : waiting (guest 2 one_item) QueueType.interrupt_queue_external ≡ timer ∷ []
unfolding queue_at
waiting-guest = refl

handle_window_lem_example :
    let v = guest 2 one_item in
    let q = QueueType.interrupt_queue_external in
    ((handle_window all_controls v q).entry_interruption_info ≡ timer.info)
    × (waiting (handle_window all_controls v q) q ≡ [])
    × IsValid queue_size no_interrupt (queue_at (handle_window all_controls v q) q)
    × (queue_at (handle_window all_controls v q) (other q) ≡ queue_at v (other q))
    × ((handle_window all_controls v q).suppress_rip_adjust ≡ true)
handle_window_lem_example =
    handle_window_lem all_controls (guest 2 one_item) QueueType.interrupt_queue_external timer []
      one_item-IsValid waiting-guest
