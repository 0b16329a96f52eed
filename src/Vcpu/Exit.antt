-- ===== src/Vcpu/Exit.antt =====
-- `entry_host`: how an exit ends in the guest again, and the locks that a forced resume gives back.
use hvpp.Prelude.{
  ℕ, ◌≡◌, refl, ap, ◌∙◌, Bool, true, false, not, ◌&&◌, ◌||◌, List, [], ◌∷◌, ◌==◌, if◌then◌else◌,
  add64, sub64, arith,
}
use hvpp.Vcpu.{
  State, Vcpu, Run, Hardware, Handler, is_state, pop_loop, stacked_lock_guard_pop, enter_host,
  handled, resume, add_time, leave_host, entry_host, ◌>>=◌,
}

-- The lock stands in the queue.
in_queue : List ℕ → ℕ → Bool
in_queue [] i = false
in_queue (lock ∷ queue) i = i == lock || in_queue queue i

-- The loop of a forced resume leaves no lock in the queue, and unlocks those that stood in it and no
-- others.
pop_loop_lem :
    (queue : List ℕ) (v : Vcpu) (i : ℕ)
    → v.spinlock_queue ≡ queue
    → ((pop_loop queue v).spinlock_queue ≡ [])
      × ((pop_loop queue v).locked i ≡ (v.locked i && not (in_queue queue i)))
unfolding pop_loop in_queue stacked_lock_guard_pop
pop_loop_lem [] v i e = (e, ground arith)
pop_loop_lem (lock ∷ queue) v i e =
    let next = pop_loop_lem queue (stacked_lock_guard_pop v) i (popped.0) in
    (next.0, next.1 ∙ rw popped.1 (ground arith))
  where
    popped :
        ((stacked_lock_guard_pop v).spinlock_queue ≡ queue)
        × ((stacked_lock_guard_pop v).locked i ≡ (if i == lock then false else v.locked i))
    popped = (rw e refl, rw e refl)

module _ (hw : Hardware) (handler : Handler) where
  pub entry_host-eq :
      (v : Vcpu) (now later : ℕ) (o : Vcpu × Bool)
      → v.cpu.vmx ≡ true
      → handler.handle (enter_host hw handler v now) ≡ Run.done o
      → entry_host hw handler v now later ≡ leave_host hw handler v (handled hw handler o) later
  unfolding entry_host
  entry_host-eq v now later o on h =
      ap
        (λ b.
          (if b then Run.done (enter_host hw handler v now) else Run.undefined_opcode)
          >>= (λ e. handler.handle e >>= λ x. leave_host hw handler v (handled hw handler x) later))
        on
      ∙ ap (λ x. x >>= λ y. leave_host hw handler v (handled hw handler y) later) h

  leave_host-eq :
      (v w : Vcpu) (later : ℕ)
      → is_state w.state State.terminated ≡ false
      → w.cpu.vmx ≡ true
      → leave_host hw handler v w later
        ≡ Run.done (add_time hw handler (resume hw handler w v.context.rsp v.context.rflags) later)
  unfolding leave_host
  leave_host-eq v w later lives on =
      let next = add_time hw handler (resume hw handler w v.context.rsp v.context.rflags) later in
      ap
        (λ b.
          if b
          then Run.done (add_time hw handler w later)
          else if w.cpu.vmx
          then Run.done next
          else Run.undefined_opcode)
        lives
      ∙ ap (λ b. if b then Run.done next else Run.undefined_opcode) on

  -- An exit in VMX operation. The handler begins with the time of the entry, with the step over the
  -- instruction not suppressed, whatever an earlier handler did, and with the guest's stack pointer,
  -- flags and instruction pointer as the saved registers. Let it return, or end by a forced resume, so that
  -- after `handle_guest_resume` the virtual CPU lives and is in VMX operation. Then the guest gets the stack
  -- pointer, the flags and the instruction pointer that are saved by then, a step further unless the step
  -- has been suppressed; all other fields of the VMCS stay; the registers of the host are put
  -- back, to go on at VMRESUME; and if the handler has left the counters alone, the time since the entry
  -- is added up.
  pub entry_host_lem :
      (v w z : Vcpu) (forced : Bool) (now later : ℕ)
      → v.cpu.vmx ≡ true
      → handler.handle (enter_host hw handler v now) ≡ Run.done (w, forced)
      → handled hw handler (w, forced) ≡ z
      → is_state z.state State.terminated ≡ false
      → z.cpu.vmx ≡ true
      → (z.tsc_entry ≡ (enter_host hw handler v now).tsc_entry)
        × (z.tsc_delta_sum ≡ v.tsc_delta_sum)
      → (((enter_host hw handler v now).suppress_rip_adjust ≡ false)
          × ((enter_host hw handler v now).context ≡ record v.context {
            rsp = v.vmcs.guest_rsp;
            rip = v.vmcs.guest_rip;
            rflags = v.vmcs.guest_rflags;
          }))
        × ((r : Vcpu) × (entry_host hw handler v now later ≡ Run.done r)
            × (r.vmcs ≡ record z.vmcs {
              guest_rsp = z.context.rsp;
              guest_rflags = z.context.rflags;
              guest_rip =
                  if z.suppress_rip_adjust
                  then z.context.rip
                  else add64 z.context.rip z.vmcs.exit_instruction_length;
            })
            × (r.context ≡ record z.context {
              rsp = v.context.rsp;
              rflags = v.context.rflags;
              rip = hw.vmresume_address;
            })
            × (r.tsc_delta_previous ≡ sub64 later now)
            × (r.tsc_delta_sum ≡ add64 v.tsc_delta_sum (sub64 later now)))
  unfolding enter_host resume add_time
  entry_host_lem v w z forced now later on h end lives on' (entry, sum) = (
    (refl, refl),
    (
      add_time hw handler (resume hw handler z v.context.rsp v.context.rflags) later,
      entry_host-eq v now later (w, forced) on h
          ∙ ap (λ x. leave_host hw handler v x later) end
          ∙ leave_host-eq v z later lives on',
      refl,
      refl,
      ap (sub64 later) entry,
      ap (λ x. add64 x (sub64 later z.tsc_entry)) sum
          ∙ ap (λ x. add64 v.tsc_delta_sum (sub64 later x)) entry,
    ),
  )
