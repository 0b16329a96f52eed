-- ===== src/Interrupt/Exception.antt =====
-- The injection of a hardware exception, which the guest can always take.
use hvpp.Prelude.{ℕ, ◌^◌, ◌<◌, ◌≡◌, refl, ap, ◌∙◌, arith, Bool, true, if◌then◌else◌}
use hvpp.Interrupt.{
  InterruptType, Interrupt, type, valid, vector, make, has_length, provides_error_code,
  with_error_code, with_length, Vcpu, QueueType, queue_at, TrueCtls, interruptible,
  interrupt_inject_force, interrupt_inject,
}
use hvpp.Interrupt.Fields.{make_lem}
use hvpp.Interrupt.Window.{queue_at-force, info-force}

pub force-exception :
    (v : Vcpu) (i : Interrupt)
    → type i ≡ InterruptType.hardware_exception
    → valid i ≡ true
    → (interrupt_inject_force v i).entry_interruption_error_code
      ≡ (if provides_error_code (vector i) then i.error_code else v.entry_interruption_error_code)
unfolding interrupt_inject_force with_error_code with_length has_length
force-exception v i e h = rw (h, e) (ground arith)

-- A hardware exception is injected at once, whatever the guest's state: the entry field gets its
-- word, the error-code field gets its code exactly for the vectors that provide one, and no queue
-- changes.
interrupt_inject_exception :
    (t : TrueCtls) (v : Vcpu) (n code : ℕ) (with_code : Bool) (rip_adjust : ℕ) (front : Bool)
    (q : QueueType)
    → n < 2 ^ 8
    → let i = make InterruptType.hardware_exception n code with_code rip_adjust in
      let r = interrupt_inject t v i front in
      (r.1 ≡ true)
      × (r.0.entry_interruption_info ≡ i.info)
      × (r.0.entry_interruption_error_code
          ≡ (if provides_error_code n then code else v.entry_interruption_error_code))
      × (queue_at r.0 q ≡ queue_at v q)
unfolding interrupt_inject interruptible make
interrupt_inject_exception t v n c w a front q h =
    let i = make InterruptType.hardware_exception n c w a in
    let m = make_lem InterruptType.hardware_exception n c w a h in
    rw (m.1) (
      refl,
      info-force v i,
      force-exception v i m.1 m.3
          ∙ ap (λ k. if provides_error_code k then c else v.entry_interruption_error_code) m.0,
      queue_at-force v i q,
    )
