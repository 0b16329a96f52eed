-- ===== src/Vcpu/Stop.antt =====
-- `stop` with the passthrough handler: the VMCALL that ends VMX operation.
use hvpp.Prelude.{if◌then◌else◌, ℕ, ◌%◌, ◌≡◌, refl, ap, ◌∙◌, true, false, ◌==◌, add64, arith}
use hvpp.Prelude.Bits.{bit}
use hvpp.Vcpu.{
  vmread, vmread_table, vm_exit, Caller, State, Vcpu, Run, Hardware, enter_host, handled, add_time,
  leave_host, entry_host, stop, handle_execute_vmcall, passthrough, terminate, vmcall_terminate_id,
  ◌>>=◌,
}
use hvpp.Vcpu.Start.{left, vmx_leave-left, clears_vmx_enable}
use hvpp.Vcpu.Exit.{entry_host-eq}

module _ (hw : Hardware) (vm_fallback : Vcpu → Vcpu) where
  -- Outside VMX operation, as after a start that failed, `stop` raises #UD.
  pub stop_fault :
      (v : Vcpu) (now later : ℕ)
      → v.cpu.vmx ≡ false
      → stop (terminate hw vm_fallback now later) v ≡ Run.undefined_opcode
  unfolding stop terminate entry_host
  stop_fault v now later h = rw h refl

  -- In VMX operation with a current VMCS, from kernel mode, `stop` ends it: the virtual CPU is terminated,
  -- `vmx_enable` is clear, and execution goes on after the VMCALL, on the stack and with the flags from
  -- before it. CR3, GDTR and IDTR are as before the VMCALL, whose exit has loaded those of the host
  -- with other limits, and CR0 is the host's.
  pub stop_lem :
      (v : Vcpu) (now later : ℕ)
      → v.cpu.vmx ≡ true
      → v.cpu.vmcs_current ≡ true
      → (hw.caller (record v { state = State.terminating })).cs % 4 ≡ 0
      → (w : Vcpu) × (stop (terminate hw vm_fallback now later) v ≡ Run.done w)
        × ((w.state ≡ State.terminated) × (w.cpu.vmx ≡ false) × (bit w.cpu.cr4 13 ≡ 0))
        × (w.context.rip ≡ add64 (hw.caller (record v { state = State.terminating })).rip 3)
        × (w.context.rsp ≡ (hw.caller (record v { state = State.terminating })).rsp)
        × (w.context.rflags ≡ v.cpu.rflags)
        × (w.cpu.cr3 ≡ v.cpu.cr3)
        × ((w.cpu.gdtr ≡ v.cpu.gdtr) × (w.cpu.idtr ≡ v.cpu.idtr))
        × (w.cpu.cr0 ≡ v.vmcs.host_cr0)
  unfolding stop terminate enter_host left add_time handled leave_host handle_execute_vmcall vmread
      vmread_table vm_exit
  stop_lem v now later on current kernel = (
    add_time hw (passthrough hw vm_fallback) (left entered) later,
    ap
          (λ b. (if b then Run.done called else Run.undefined_opcode) >>= λ c.
            entry_host hw (passthrough hw vm_fallback) c now later)
          on
        ∙ entry_host-eq hw (passthrough hw vm_fallback) called now later (left entered, false) on
            call
        ∙ refl,
    (refl, refl, clears_vmx_enable v.vmcs.host_cr4),
    rw current refl,
    refl,
    refl,
    rw current refl,
    (rw current refl, rw current refl),
    refl,
  )
    where
      caller : Caller
      caller = hw.caller (record v { state = State.terminating })

      called : Vcpu
      called =
          vm_exit
            (record v {
              state = State.terminating;
              context = record v.context { rcx = vmcall_terminate_id };
            })
            caller 3

      entered : Vcpu
      entered = enter_host hw (passthrough hw vm_fallback) called now

      in_kernel : (caller.cs % 4 == 0) ≡ true
      in_kernel = ground (arith, kernel)

      call : (passthrough hw vm_fallback).handle entered ≡ Run.done (left entered, false)
      call =
          rw in_kernel
            (ap (λ x. x >>= λ w. Run.done (w, false)) (vmx_leave-left (λ w. w) entered refl on))
