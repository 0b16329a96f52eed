-- ===== src/Interrupt/Window.antt =====
-- The window handlers: the next waiting interrupt is injected.
use hvpp.Prelude.{
  ℕ, zero, suc, ◌^◌, ◌<◌, ◌≡◌, refl, sym, ap, ◌∙◌, arith, true, false, if◌then◌else◌, List, [], ◌∷◌,
  bit_or, bit_and, length, not64,
}
use hvpp.Prelude.Bits.{bit, bit-bit_or, bit-bit_and, bit_pow, bit-not, bit-lt}
use hvpp.Deque
use hvpp.Deque.{Deque}
use hvpp.Deque.Contents.{items, IsValid}
use hvpp.Deque.Refine.{front-pop_front, size-contents}
use hvpp.Interrupt.{
  Interrupt, with_error_code, with_length, Vcpu, QueueType, queue_size, queue_at, with_queue,
  window_bit, no_interrupt, TrueCtls, adjust, disable_window, interrupt_inject_force,
  interrupt_is_pending, interrupt_inject_pending, handle_window,
}
use hvpp.Interrupt.Inject.{waiting, other, queue_at-with_queue, queue_at-with_other}

queue_at-with_error_code :
    (v : Vcpu) (i : Interrupt) (r : QueueType) → queue_at (with_error_code v i) r ≡ queue_at v r
unfolding with_error_code queue_at
queue_at-with_error_code v i r = ground arith

queue_at-with_length :
    (v : Vcpu) (i : Interrupt) (r : QueueType) → queue_at (with_length v i) r ≡ queue_at v r
unfolding with_length queue_at
queue_at-with_length v i r = ground arith

queue_at-info :
    (v : Vcpu) (n : ℕ) (r : QueueType)
    → queue_at (record v { entry_interruption_info = n }) r ≡ queue_at v r
unfolding queue_at
queue_at-info v n r = ground arith

pub queue_at-force :
    (v : Vcpu) (i : Interrupt) (r : QueueType)
    → queue_at (interrupt_inject_force v i) r ≡ queue_at v r
unfolding interrupt_inject_force
queue_at-force v i r =
    let w = record v { entry_interruption_info = i.info } in
    ground (
      arith,
      queue_at-with_length (with_error_code w i) i r,
      queue_at-with_error_code w i r,
      queue_at-info v i.info r,
    )

pub info-force :
    (v : Vcpu) (i : Interrupt) → (interrupt_inject_force v i).entry_interruption_info ≡ i.info
unfolding interrupt_inject_force with_length with_error_code
info-force v i = ground arith

items_pos :
    (q : List Interrupt) (f c : ℕ) (i : Interrupt) (rest : List Interrupt)
    → items queue_size no_interrupt q f c ≡ i ∷ rest
    → 0 < c
items_pos q f zero i rest e = ground arith
items_pos q f (suc c) i rest e = omega arith

window-clear :
    (t : TrueCtls) (v : Vcpu) (q : QueueType)
    → bit t.allowed_0_settings (window_bit q) ≡ 0
    → bit (disable_window t v q).processor_based_controls (window_bit q) ≡ 0
unfolding disable_window adjust
window-clear t v q h = ground (
  arith,
  bit-bit_and
      (bit_or (bit_and v.processor_based_controls (not64 (2 ^ window_bit q))) t.allowed_0_settings)
      t.allowed_1_settings (window_bit q),
  bit-bit_or (bit_and v.processor_based_controls (not64 (2 ^ window_bit q))) t.allowed_0_settings
      (window_bit q),
  bit-bit_and v.processor_based_controls (not64 (2 ^ window_bit q)) (window_bit q),
  bit-not 64 (2 ^ window_bit q) (window_bit q),
  bit_pow (window_bit q) (window_bit q),
  bit-lt v.processor_based_controls (window_bit q),
  bit-lt t.allowed_1_settings (window_bit q),
)

info-with_queue :
    (v : Vcpu) (q : QueueType) (d : Deque Interrupt)
    → (with_queue v q d).entry_interruption_info ≡ v.entry_interruption_info
unfolding with_queue
info-with_queue v q d = ground arith

cons-eq : {i j : Interrupt} {r s : List Interrupt} → i ∷ r ≡ j ∷ s → (i ≡ j) × (r ≡ s)
cons-eq e = (cc, cc)

-- Where `i` is the first interrupt that waits and `rest` are the others, the pending injection puts
-- `i` in the entry field, leaves `rest` waiting and keeps the other queue.
inject_pending_lem :
    (t : TrueCtls) (v : Vcpu) (q : QueueType) (i : Interrupt) (rest : List Interrupt)
    → IsValid queue_size no_interrupt (queue_at v q)
    → waiting v q ≡ i ∷ rest
    → ((interrupt_inject_pending t v q).entry_interruption_info ≡ i.info)
      × (waiting (interrupt_inject_pending t v q) q ≡ rest)
      × IsValid queue_size no_interrupt (queue_at (interrupt_inject_pending t v q) q)
      × (queue_at (interrupt_inject_pending t v q) (other q) ≡ queue_at v (other q))
unfolding interrupt_inject_pending
inject_pending_lem t v q i rest h e =
    let d = queue_at v q in
    let p =
      front-pop_front queue_size no_interrupt d h (items_pos d.queue d.first d.count i rest e) in
    let f = cons-eq (sym p.1 ∙ e) in
    let at-q =
      queue_at-with_queue (interrupt_inject_force v (Deque.front queue_size no_interrupt d)) q
        (Deque.pop_front queue_size no_interrupt d) in
    (
      info-with_queue (interrupt_inject_force v (Deque.front queue_size no_interrupt d)) q _
          ∙ info-force v _
          ∙ ap Interrupt.info f.0,
      rw at-q f.1,
      rw at-q p.0,
      queue_at-with_other (interrupt_inject_force v (Deque.front queue_size no_interrupt d)) q _
          ∙ queue_at-force v _ (other q),
    )

queue_at-disable_window :
    (t : TrueCtls) (v : Vcpu) (q r : QueueType) → queue_at (disable_window t v q) r ≡ queue_at v r
unfolding queue_at disable_window
queue_at-disable_window t v q r = ground arith

queue_at-suppress :
    (v : Vcpu) (r : QueueType) → queue_at (record v { suppress_rip_adjust = true }) r ≡ queue_at v r
unfolding queue_at
queue_at-suppress v r = ground arith

is_pending-waiting :
    (t : TrueCtls) (v : Vcpu) (q : QueueType)
    → waiting v q ≡ []
    → interrupt_is_pending t v q ≡ false
unfolding interrupt_is_pending
is_pending-waiting t v q e =
    ground (arith, size-contents queue_size no_interrupt (queue_at v q), ap length e)

queue_at-handle_window :
    (t : TrueCtls) (v : Vcpu) (q r : QueueType)
    → queue_at (handle_window t v q) r ≡ queue_at (interrupt_inject_pending t v q) r
unfolding handle_window
queue_at-handle_window t v q r =
    let w = interrupt_inject_pending t v q in
    queue_at-suppress (if interrupt_is_pending t w q then w else disable_window t w q) r
    ∙ ground (arith, queue_at-disable_window t w q r)

info-disable_window :
    (t : TrueCtls) (v : Vcpu) (q : QueueType)
    → (disable_window t v q).entry_interruption_info ≡ v.entry_interruption_info
unfolding disable_window
info-disable_window t v q = refl

-- Where `i` is the first interrupt that waits and `rest` are the others, the window handler sets up
-- `i` for the entry, leaves `rest` waiting in a well-formed queue, keeps the other queue and
-- suppresses the step of the instruction pointer.
pub handle_window_lem :
    (t : TrueCtls) (v : Vcpu) (q : QueueType) (i : Interrupt) (rest : List Interrupt)
    → IsValid queue_size no_interrupt (queue_at v q)
    → waiting v q ≡ i ∷ rest
    → ((handle_window t v q).entry_interruption_info ≡ i.info)
      × (waiting (handle_window t v q) q ≡ rest)
      × IsValid queue_size no_interrupt (queue_at (handle_window t v q) q)
      × (queue_at (handle_window t v q) (other q) ≡ queue_at v (other q))
      × ((handle_window t v q).suppress_rip_adjust ≡ true)
unfolding handle_window
handle_window_lem t v q i rest h e =
    let w = interrupt_inject_pending t v q in
    let p = inject_pending_lem t v q i rest h e in
    (
      ground (arith, p.0, info-disable_window t w q),
      rw (queue_at-handle_window t v q q) p.1,
      rw (queue_at-handle_window t v q q) p.2,
      queue_at-handle_window t v q (other q) ∙ p.3,
      refl,
    )

-- When the window handler has injected the last interrupt of a queue, nothing of it is pending, and
-- its window exit is off, while the processor does not force it on.
handle_window_last :
    (t : TrueCtls) (v : Vcpu) (q : QueueType) (i : Interrupt)
    → IsValid queue_size no_interrupt (queue_at v q)
    → waiting v q ≡ i ∷ []
    → bit t.allowed_0_settings (window_bit q) ≡ 0
    → (interrupt_is_pending t (handle_window t v q) q ≡ false)
      × (bit (handle_window t v q).processor_based_controls (window_bit q) ≡ 0)
unfolding handle_window
handle_window_last t v q i h e c =
    let w = interrupt_inject_pending t v q in
    (
      is_pending-waiting t (handle_window t v q) q (handle_window_lem t v q i [] h e).1,
      rw (is_pending-waiting t w q (inject_pending_lem t v q i [] h e).1) (window-clear t w q c),
    )
