-- ===== src/Vcpu/Start.antt =====
-- `start`: the way into VMX operation, and the way out of it when a step fails.
use hvpp.Prelude.{
  ℕ, Bool, arith, if◌then◌else◌, ◌^◌, ◌≡◌, refl, ap, ◌∙◌, true, false, ◌&&◌, Option, none, some,
  bit_and, add64, not64, ◌⊎◌, inl, inr, Bool-cases,
}
use hvpp.Prelude.Bits.{bit, bit-bit_and}
use hvpp.Vcpu.{
  vmread, vmread_table, vm_entry, vm_exit, Caller, State, Error, Vcpu, Run, Hardware, Handler,
  launch, load_vmxon, load_vmcs, setup_host, setup_guest, adjust, is_state, entry_guest,
  restore_guest, vmx_leave, vmx_enter, handle_common_error, start_again, start, passthrough_setup,
  passthrough,
}

-- What `vmx_leave` makes of a state that is not `initializing`.
unfoldable pub left : Vcpu → Vcpu
left v = record v {
  context = record v.context {
    rip = add64 v.context.rip (vmread v (λ m. m.exit_instruction_length));
  };
  cpu = record v.cpu {
    gdtr = vmread_table v (λ m. m.guest_gdtr);
    idtr = vmread_table v (λ m. m.guest_idtr);
    cr3 = vmread v (λ m. m.guest_cr3);
    vmx = false;
    vmcs_current = false;
    cr4 = bit_and v.cpu.cr4 (not64 (2 ^ 13));
  };
  state = State.terminated;
}

pub vmx_leave-left :
    (teardown : Vcpu → Vcpu) (v : Vcpu)
    → is_state v.state State.initializing ≡ false
    → v.cpu.vmx ≡ true
    → vmx_leave teardown v ≡ Run.done (teardown (left v))
unfolding vmx_leave restore_guest left
vmx_leave-left teardown v e h = rw e (rw h refl)

pub vmx_leave-fault :
    (teardown : Vcpu → Vcpu) (v : Vcpu)
    → v.cpu.vmx ≡ false
    → vmx_leave teardown v ≡ Run.undefined_opcode
unfolding vmx_leave restore_guest
vmx_leave-fault teardown v h = elim (Bool-cases (is_state v.state State.initializing)) [
  | inl e ↦ rw e (rw h refl)
  | inr e ↦ rw e (rw h refl)
]

pub clears_vmx_enable : (x : ℕ) → bit (bit_and x (not64 (2 ^ 13))) 13 ≡ 0
unfolding bit
clears_vmx_enable x =
    let zero_there : bit (not64 (2 ^ 13)) 13 ≡ 0 = refl in
    omega (arith, bit-bit_and x (not64 (2 ^ 13)) 13, zero_there)

module _ (hw : Hardware) (handler : Handler) where
  common_error :
      (v : Vcpu) (err : Error)
      → v.cpu.vmx ≡ true
      → handle_common_error hw handler v err ≡ Run.done (handler.teardown (left v), some err)
  unfolding handle_common_error left vmread vmread_table
  common_error v err h =
      rw (vmx_leave-left handler.teardown (record v { state = State.terminated }) refl h) refl

  failing :
      (v : Vcpu) (err : Error)
      → (handle_common_error hw handler v err ≡ Run.undefined_opcode)
        ⊎ (((w : Vcpu) × (e : Error) × (handle_common_error hw handler v err
                ≡ Run.done (handler.teardown (left w), some e)))
            ⊎ ((w : Vcpu) × (handle_common_error hw handler v err ≡ Run.done (w, none))))
  unfolding handle_common_error
  failing v err = elim (Bool-cases v.cpu.vmx) [
    | inl h ↦ inr (inl (v, err, common_error v err h))
    | inr h ↦
        inl (rw (vmx_leave-fault handler.teardown (record v { state = State.terminated }) h) refl)
  ]

  again :
      (v : Vcpu)
      → start_again hw handler (entry_guest (vm_entry v))
        ≡ Run.done (record (entry_guest (vm_entry v)) { state = State.running }, none)
  unfolding start_again entry_guest
  again v = refl

  -- The ends of a start: #UD, an error after leaving VMX operation, or a running guest.
  launch_cases :
      (x : Vcpu × Option Error)
      → (launch hw handler x ≡ Run.undefined_opcode)
        ⊎ (((w : Vcpu) × (e : Error) × (launch hw handler x
                ≡ Run.done (handler.teardown (left w), some e)))
            ⊎ ((w : Vcpu) × (launch hw handler x ≡ Run.done (w, none))))
  unfolding launch
  launch_cases (v, some e) = failing v e
  launch_cases (v, none) = elim (Bool-cases (hw.vmlaunch v)) [
    | inl l ↦ inr (
        inr (record (entry_guest (vm_entry v)) { state = State.running }, rw (l, launch) (again v)))
    | inr l ↦ rw (l, launch) (failing v Error.permission_denied)
  ]

  pub start-cases :
      (v : Vcpu)
      → (start hw handler v ≡ Run.undefined_opcode)
        ⊎ (((w : Vcpu) × (e : Error) × (start hw handler v
                ≡ Run.done (handler.teardown (left w), some e)))
            ⊎ ((w : Vcpu) × (start hw handler v ≡ Run.done (w, none))))
  unfolding start
  start-cases v = launch_cases (vmx_enter hw handler v)

  -- If VMXON fails outside VMX operation, `start` does not return its error: the way out of VMX
  -- operation, which was never entered, raises #UD.
  start_vmxon_fails :
      (v : Vcpu)
      → ((w : Vcpu) → hw.vmxon w ≡ false)
      → v.cpu.vmx ≡ false
      → start hw handler v ≡ Run.undefined_opcode
  unfolding start launch handle_common_error vmx_enter load_vmxon adjust
  start_vmxon_fails v fails h =
      ap (launch hw handler) entered
      ∙ rw (vmx_leave-fault handler.teardown (record failed { state = State.terminated }) h) refl
    where
      failed : Vcpu
      failed = record v {
        cpu = record v.cpu {
          cr0 = adjust hw.cr0_fixed v.cpu.cr0;
          cr4 = adjust hw.cr4_fixed v.cpu.cr4;
        };
      }

      entered : vmx_enter hw handler v ≡ (failed, some Error.permission_denied)
      entered = rw (fails failed, vmx_enter, load_vmxon) refl

module _ (hw : Hardware) (vm_fallback : Vcpu → Vcpu) (v : Vcpu)
    (ons : (w : Vcpu) → hw.vmxon w ≡ true) where
  -- `vmx_enter` up to the success of VMXON
  abbrev on : Vcpu
  on = record v {
    state = State.initializing;
    cpu = record v.cpu {
      cr0 = adjust hw.cr0_fixed v.cpu.cr0;
      cr4 = adjust hw.cr4_fixed v.cpu.cr4;
      vmx = true;
      vmcs_current = false;
    };
  }

  abbrev loaded : Vcpu
  loaded = record on { cpu = record on.cpu { vmcs_current = true } }

  abbrev ready : Vcpu
  ready = (passthrough_setup (setup_guest hw (setup_host hw loaded).0).0).0

  entered :
      (hw.vmclear on && hw.vmptrld on) ≡ true
      → vmx_enter hw (passthrough hw vm_fallback) v ≡ (ready, none)
  unfolding vmx_enter load_vmxon load_vmcs setup_host setup_guest passthrough_setup
  entered h = rw (ons _, vmx_enter, load_vmxon) (rw (h, load_vmcs) refl)

  not_entered :
      (hw.vmclear on && hw.vmptrld on) ≡ false
      → vmx_enter hw (passthrough hw vm_fallback) v ≡ (on, some Error.permission_denied)
  unfolding vmx_enter load_vmxon load_vmcs
  not_entered h = rw (ons _, vmx_enter, load_vmxon) (rw (h, load_vmcs) refl)

  -- With the passthrough handler, if VMCLEAR or VMPTRLD fails (`loads` is false), or else VMLAUNCH, `start`
  -- leaves VMX operation and returns the error, with `vmx_enable` clear. After VMLAUNCH it puts CR3, GDTR
  -- and IDTR back as they were. But without a current VMCS it loads 0 into CR3, and tables of limit 0 at
  -- address 0 into GDTR and IDTR.
  pub start_fails :
      (loads : Bool)
      → (hw.vmclear on && hw.vmptrld on) ≡ loads
      → ((w : Vcpu) → (loads && hw.vmlaunch w) ≡ false)
      → (r : Vcpu) × (start hw (passthrough hw vm_fallback) v
          ≡ Run.done (r, some Error.permission_denied))
        × ((r.state ≡ State.terminated) × (r.cpu.vmx ≡ false) × (bit r.cpu.cr4 13 ≡ 0))
        × (r.cpu.cr3 ≡ (if loads then v.cpu.cr3 else 0))
        × (r.cpu.gdtr ≡ (if loads then v.cpu.gdtr else record { limit = 0; base_address = 0 }))
        × (r.cpu.idtr ≡ (if loads then v.cpu.idtr else record { limit = 0; base_address = 0 }))
        × (r.cpu.cr0 ≡ adjust hw.cr0_fixed v.cpu.cr0)
  unfolding start launch left vmread vmread_table passthrough_setup setup_guest setup_host
  start_fails true h fails = (
    left ready,
    ap (launch hw (passthrough hw vm_fallback)) (entered h)
        ∙ rw (fails ready, launch)
            (common_error hw (passthrough hw vm_fallback) ready Error.permission_denied refl),
    (refl, refl, clears_vmx_enable ready.cpu.cr4),
    refl,
    refl,
    refl,
    refl,
  )
  start_fails false h fails = (
    left on,
    ap (launch hw (passthrough hw vm_fallback)) (not_entered h)
        ∙ common_error hw (passthrough hw vm_fallback) on Error.permission_denied refl,
    (refl, refl, clears_vmx_enable on.cpu.cr4),
    refl,
    refl,
    refl,
    refl,
  )

-- Where every instruction succeeds, the passthrough handler's virtual CPU runs, in VMX operation with a
-- current VMCS. The guest goes on with the control registers, the descriptor tables and the flags of the
-- operating system, with CR0 and CR4 adjusted, and its fields hold these. The next exit finds CR0 and
-- CR4 alike, the CR3 of the system, and GDTR and IDTR at their base addresses with the limit 0xffff. Guest
-- and host both begin at the end of the private stack.
pub start-passthrough :
    (hw : Hardware) (vm_fallback : Vcpu → Vcpu) (v : Vcpu)
    → ((w : Vcpu) → hw.vmxon w ≡ true)
    → ((w : Vcpu) → (hw.vmclear w && hw.vmptrld w) ≡ true)
    → ((w : Vcpu) → hw.vmlaunch w ≡ true)
    → (w : Vcpu) × (start hw (passthrough hw vm_fallback) v ≡ Run.done (w, none))
      × ((w.state ≡ State.running) × (w.cpu.vmx ≡ true) × (w.cpu.vmcs_current ≡ true))
      × ((w.cpu.cr0 ≡ adjust hw.cr0_fixed v.cpu.cr0) × (w.vmcs.guest_cr0 ≡ w.cpu.cr0))
      × ((w.cpu.cr4 ≡ adjust hw.cr4_fixed v.cpu.cr4) × (w.vmcs.guest_cr4 ≡ w.cpu.cr4))
      × ((w.cpu.cr3 ≡ v.cpu.cr3) × (w.vmcs.guest_cr3 ≡ v.cpu.cr3))
      × ((w.cpu.gdtr ≡ v.cpu.gdtr) × (w.vmcs.guest_gdtr ≡ v.cpu.gdtr))
      × ((w.cpu.idtr ≡ v.cpu.idtr) × (w.vmcs.guest_idtr ≡ v.cpu.idtr))
      × ((w.cpu.rflags ≡ v.cpu.rflags) × (w.vmcs.guest_rflags ≡ v.cpu.rflags))
      × ((place : Caller) (length : ℕ)
          → (vm_exit w place length).cpu ≡ record w.cpu {
            cr3 = hw.system_cr3;
            gdtr = record { limit = 65535; base_address = v.cpu.gdtr.base_address };
            idtr = record { limit = 65535; base_address = v.cpu.idtr.base_address };
            rflags = 2;
          })
      × ((w.vmcs.guest_rsp ≡ hw.stack_end) × (w.vmcs.host_rsp ≡ hw.stack_end))
unfolding start launch setup_host setup_guest passthrough_setup entry_guest start_again vm_entry
    vm_exit
start-passthrough hw vm_fallback v ons loads launches =
    let begun = ready hw vm_fallback v ons in
    (
      record (entry_guest (vm_entry begun)) { state = State.running },
      ap (launch hw (passthrough hw vm_fallback)) (entered hw vm_fallback v ons (loads _))
          ∙ rw (launches begun, launch) refl,
      (refl, refl, refl),
      (refl, refl),
      (refl, refl),
      (refl, refl),
      (refl, refl),
      (refl, refl),
      (refl, refl),
      λ place length. refl,
      (refl, refl),
    )
