-- ===== src/Interrupt/Inject.antt =====
-- What `interrupt_inject` does when the guest can and when it cannot take the interrupt.
use hvpp.Prelude.{
  ◌^◌, ◌<◌, ◌≡◌, ◌≢◌, ◌↔◌, refl, ◌∙◌, arith, Bool, true, false, some, if◌then◌else◌, List, [], ◌∷◌,
  ◌++◌, bit_or,
}
use hvpp.Prelude.Bits.{bit, bit-bit_or, bit-bit_and, bit_pow, bit-lt}
use hvpp.Deque
use hvpp.Deque.{Deque}
use hvpp.Deque.Contents.{contents, IsValid}
use hvpp.Deque.Refine.{push_back_lem, push_front_lem}
use hvpp.Interrupt.{
  InterruptType, Interrupt, type, Vcpu, QueueType, queue_size, queue_at, with_queue, window_bit,
  queue_type, no_interrupt, interruptible, TrueCtls, adjust, enable_window, enqueue,
  interrupt_inject,
}

-- the interrupts that wait in a queue, the next one first
abbrev pub waiting : Vcpu → QueueType → List Interrupt
waiting v q = contents queue_size no_interrupt (queue_at v q)

pub record IsQueue (v : Vcpu) (q : QueueType) : Type 0 where
  pub queue_IsValid : IsValid queue_size no_interrupt (queue_at v q)
  pub queue_free : (queue_at v q).count < queue_size

pub queue_at-with_queue :
    (v : Vcpu) (q : QueueType) (d : Deque Interrupt) → queue_at (with_queue v q d) q ≡ d
unfolding queue_at with_queue
queue_at-with_queue v QueueType.interrupt_queue_external d = refl
queue_at-with_queue v QueueType.interrupt_queue_nmi d = refl

abbrev pub other : QueueType → QueueType
other QueueType.interrupt_queue_external = QueueType.interrupt_queue_nmi
other QueueType.interrupt_queue_nmi = QueueType.interrupt_queue_external

pub queue_at-with_other :
    (v : Vcpu) (q : QueueType) (d : Deque Interrupt)
    → queue_at (with_queue v q d) (other q) ≡ queue_at v (other q)
unfolding queue_at with_queue
queue_at-with_other v QueueType.interrupt_queue_external d = refl
queue_at-with_other v QueueType.interrupt_queue_nmi d = refl

-- the bit of a window is one that the processor lets the code set
abbrev pub CanSet : TrueCtls → QueueType → Type 0
CanSet t q = bit t.allowed_1_settings (window_bit q) ≡ 1

pub queue_at-enable_window :
    (t : TrueCtls) (v : Vcpu) (q r : QueueType) → queue_at (enable_window t v q) r ≡ queue_at v r
unfolding queue_at enable_window
queue_at-enable_window t v q QueueType.interrupt_queue_external = refl
queue_at-enable_window t v q QueueType.interrupt_queue_nmi = refl

pub bit-enable_window :
    (t : TrueCtls) (v : Vcpu) (q : QueueType)
    → CanSet t q
    → bit (enable_window t v q).processor_based_controls (window_bit q) ≡ 1
unfolding enable_window adjust
bit-enable_window t v q h = ground (
  arith,
  bit-bit_and (bit_or (bit_or v.processor_based_controls (2 ^ window_bit q)) t.allowed_0_settings)
      t.allowed_1_settings (window_bit q),
  bit-bit_or (bit_or v.processor_based_controls (2 ^ window_bit q)) t.allowed_0_settings
      (window_bit q),
  bit-bit_or v.processor_based_controls (2 ^ window_bit q) (window_bit q),
  bit_pow (window_bit q) (window_bit q),
  bit-lt v.processor_based_controls (window_bit q),
  bit-lt t.allowed_0_settings (window_bit q),
)

entry-with_queue :
    (v : Vcpu) (q : QueueType) (d : Deque Interrupt)
    → (with_queue v q d).entry_interruption_info ≡ v.entry_interruption_info
unfolding with_queue
entry-with_queue v QueueType.interrupt_queue_external d = refl
entry-with_queue v QueueType.interrupt_queue_nmi d = refl

-- the queue after a push at either end
abbrev pushed : Deque Interrupt → Interrupt → Bool → Deque Interrupt
pushed d i true = Deque.push_front queue_size no_interrupt d i
pushed d i false = Deque.push_back queue_size no_interrupt d i

queue_at-enqueue :
    (t : TrueCtls) (v : Vcpu) (i : Interrupt) (front : Bool) (q : QueueType)
    → queue_at (enqueue t v i front q) q ≡ pushed (queue_at v q) i front
unfolding enqueue
queue_at-enqueue t v i true q =
    queue_at-enable_window t (with_queue v q (pushed (queue_at v q) i true)) q q
    ∙ queue_at-with_queue v q (pushed (queue_at v q) i true)
queue_at-enqueue t v i false q =
    queue_at-enable_window t (with_queue v q (pushed (queue_at v q) i false)) q q
    ∙ queue_at-with_queue v q (pushed (queue_at v q) i false)

queue_at-enqueue-other :
    (t : TrueCtls) (v : Vcpu) (i : Interrupt) (front : Bool) (q : QueueType)
    → queue_at (enqueue t v i front q) (other q) ≡ queue_at v (other q)
unfolding enqueue
queue_at-enqueue-other t v i front q =
    queue_at-enable_window t _ q (other q) ∙ queue_at-with_other v q _

pushed_lem :
    (d : Deque Interrupt) (i : Interrupt) (front : Bool)
    → IsValid queue_size no_interrupt d
    → d.count < queue_size
    → IsValid queue_size no_interrupt (pushed d i front)
      × (contents queue_size no_interrupt (pushed d i front) ≡ (
          if front
          then i ∷ contents queue_size no_interrupt d
          else contents queue_size no_interrupt d ++ (i ∷ [])))
pushed_lem d i true v h = push_front_lem queue_size no_interrupt d i v h
pushed_lem d i false v h = push_back_lem queue_size no_interrupt d i v h

-- An interrupt that the guest cannot take goes to the end of its queue, or to the front if `front` is
-- set; the queue stays well formed, the other one stays as it is, the call returns `false`, no event
-- is set up for the entry, and the window exit of the queue is on.
interrupt_inject_blocked :
    (t : TrueCtls) (v : Vcpu) (i : Interrupt) (front : Bool) (q : QueueType)
    → queue_type (type i) ≡ some q
    → interruptible v (type i) ≡ false
    → IsQueue v q
    → CanSet t q
    → ((interrupt_inject t v i front).1 ≡ false)
      × (waiting (interrupt_inject t v i front).0 q
          ≡ (if front then i ∷ waiting v q else waiting v q ++ (i ∷ [])))
      × IsValid queue_size no_interrupt (queue_at (interrupt_inject t v i front).0 q)
      × (queue_at (interrupt_inject t v i front).0 (other q) ≡ queue_at v (other q))
      × ((interrupt_inject t v i front).0.entry_interruption_info ≡ v.entry_interruption_info)
      × (bit (interrupt_inject t v i front).0.processor_based_controls (window_bit q) ≡ 1)
unfolding interrupt_inject enqueue enable_window
interrupt_inject_blocked t v i front q e b h c =
    rw (b, e)
      let p = pushed_lem (queue_at v q) i front h.queue_IsValid h.queue_free in
        (
          refl,
          rw (queue_at-enqueue t v i front q) p.1,
          rw (queue_at-enqueue t v i front q) p.0,
          queue_at-enqueue-other t v i front q,
          entry-with_queue v q _,
          bit-enable_window t (with_queue v q _) q c,
        )

-- With interrupts enabled in RFLAGS, an external interrupt is injected at once exactly if some bit of
-- the interruptibility state is set, which is when the guest blocks events.
interrupt_inject_external :
    (t : TrueCtls) (v : Vcpu) (i : Interrupt) (front : Bool)
    → type i ≡ InterruptType.external
    → bit v.rflags 9 ≡ 1
    → ((interrupt_inject t v i front).1 ≡ true) ↔ (v.guest_interruptibility_state ≢ 0)
unfolding interrupt_inject interruptible queue_type
interrupt_inject_external t v i front e h = rw (e, h) (ground arith)
