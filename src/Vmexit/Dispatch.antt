-- ===== src/Vmexit/Dispatch.antt =====
-- The table of methods against the reasons of an exit.
use hvpp.Prelude.{
  ℕ, zero, suc, ◌+◌, ◌≤◌, ◌≡◌, refl, Option, some, none, List, [], ◌∷◌, length, arith, Bool, true,
  false, ltb, leb, ◌==◌, ◌&&◌, ◌||◌, if◌then◌else◌,
}
use hvpp.Vmexit.Reason.{ExitReason, code}
use hvpp.Vmexit.Table.{Method, handlers, method_at, handle, base_method}

-- The method that has the name of a reason.
pub method_of : ExitReason → Option Method
method_of ExitReason.exception_or_nmi = some Method.handle_exception_or_nmi
method_of ExitReason.external_interrupt = some Method.handle_external_interrupt
method_of ExitReason.triple_fault = some Method.handle_triple_fault
method_of ExitReason.init_signal = some Method.handle_init_signal
method_of ExitReason.startup_ipi = some Method.handle_startup_ipi
method_of ExitReason.io_smi = some Method.handle_io_smi
method_of ExitReason.smi = some Method.handle_smi
method_of ExitReason.interrupt_window = some Method.handle_interrupt_window
method_of ExitReason.nmi_window = some Method.handle_nmi_window
method_of ExitReason.task_switch = some Method.handle_task_switch
method_of ExitReason.execute_cpuid = some Method.handle_execute_cpuid
method_of ExitReason.execute_getsec = some Method.handle_execute_getsec
method_of ExitReason.execute_hlt = some Method.handle_execute_hlt
method_of ExitReason.execute_invd = some Method.handle_execute_invd
method_of ExitReason.execute_invlpg = some Method.handle_execute_invlpg
method_of ExitReason.execute_rdpmc = some Method.handle_execute_rdpmc
method_of ExitReason.execute_rdtsc = some Method.handle_execute_rdtsc
method_of ExitReason.execute_rsm_in_smm = some Method.handle_execute_rsm_in_smm
method_of ExitReason.execute_vmcall = some Method.handle_execute_vmcall
method_of ExitReason.execute_vmclear = some Method.handle_execute_vmclear
method_of ExitReason.execute_vmlaunch = some Method.handle_execute_vmlaunch
method_of ExitReason.execute_vmptrld = some Method.handle_execute_vmptrld
method_of ExitReason.execute_vmptrst = some Method.handle_execute_vmptrst
method_of ExitReason.execute_vmread = some Method.handle_execute_vmread
method_of ExitReason.execute_vmresume = some Method.handle_execute_vmresume
method_of ExitReason.execute_vmwrite = some Method.handle_execute_vmwrite
method_of ExitReason.execute_vmxoff = some Method.handle_execute_vmxoff
method_of ExitReason.execute_vmxon = some Method.handle_execute_vmxon
method_of ExitReason.mov_cr = some Method.handle_mov_cr
method_of ExitReason.mov_dr = some Method.handle_mov_dr
method_of ExitReason.execute_io_instruction = some Method.handle_execute_io_instruction
method_of ExitReason.execute_rdmsr = some Method.handle_execute_rdmsr
method_of ExitReason.execute_wrmsr = some Method.handle_execute_wrmsr
method_of ExitReason.error_invalid_guest_state = some Method.handle_error_invalid_guest_state
method_of ExitReason.error_msr_load = some Method.handle_error_msr_load
method_of ExitReason.reserved_1 = some Method.handle_fallback
method_of ExitReason.execute_mwait = some Method.handle_execute_mwait
method_of ExitReason.monitor_trap_flag = some Method.handle_monitor_trap_flag
method_of ExitReason.reserved_2 = some Method.handle_fallback
method_of ExitReason.execute_monitor = some Method.handle_execute_monitor
method_of ExitReason.execute_pause = some Method.handle_execute_pause
method_of ExitReason.error_machine_check = some Method.handle_error_machine_check
method_of ExitReason.reserved_3 = some Method.handle_fallback
method_of ExitReason.tpr_below_threshold = some Method.handle_tpr_below_threshold
method_of ExitReason.apic_access = some Method.handle_apic_access
method_of ExitReason.virtualized_eoi = some Method.handle_virtualized_eoi
method_of ExitReason.gdtr_idtr_access = some Method.handle_gdtr_idtr_access
method_of ExitReason.ldtr_tr_access = some Method.handle_ldtr_tr_access
method_of ExitReason.ept_violation = some Method.handle_ept_violation
method_of ExitReason.ept_misconfiguration = some Method.handle_ept_misconfiguration
method_of ExitReason.execute_invept = some Method.handle_execute_invept
method_of ExitReason.execute_rdtscp = some Method.handle_execute_rdtscp
method_of ExitReason.vmx_preemption_timer_expired = some Method.handle_vmx_preemption_timer_expired
method_of ExitReason.execute_invvpid = some Method.handle_execute_invvpid
method_of ExitReason.execute_wbinvd = some Method.handle_execute_wbinvd
method_of ExitReason.execute_xsetbv = some Method.handle_execute_xsetbv
method_of ExitReason.apic_write = some Method.handle_apic_write
method_of ExitReason.execute_rdrand = some Method.handle_execute_rdrand
method_of ExitReason.execute_invpcid = some Method.handle_execute_invpcid
method_of ExitReason.execute_vmfunc = some Method.handle_execute_vmfunc
method_of ExitReason.execute_encls = some Method.handle_execute_encls
method_of ExitReason.execute_rdseed = some Method.handle_execute_rdseed
method_of ExitReason.page_modification_log_full = some Method.handle_page_modification_log_full
method_of ExitReason.execute_xsaves = some Method.handle_execute_xsaves
method_of ExitReason.execute_xrstors = some Method.handle_execute_xrstors
method_of (ExitReason.unlisted n) = none

-- whether the enumeration has the reason
abbrev pub is_listed : ExitReason → Bool
is_listed (ExitReason.unlisted n) = false
is_listed r = true

-- The numbers of the reasons that are instructions of VMX: VMCALL to VMXON, INVEPT, INVVPID and VMFUNC.
pub is_vmx_instruction : ℕ → Bool
is_vmx_instruction n = leb 18 n && leb n 27 || n == 50 || n == 53 || n == 59

abbrev base_of : Option Method → Option Method
base_of none = none
base_of (some m) = some (base_method m)

outside : (ms : List Method) (i : ℕ) → length ms ≤ i → method_at ms i ≡ none
outside [] i h = refl
outside (m ∷ ms) zero h = absurd (omega arith)
outside (m ∷ ms) (suc i) h = outside ms i (omega arith)

-- The table holds 65 methods, and every reason of the enumeration finds the method of its name in it; the
-- three reserved reasons find the fallback. Any other reason lies behind the table. Where a handler
-- overrides nothing, the method of an instruction of VMX is the fallback for these, and that of any
-- other reason the common one.
pub handle-method_of :
    (r : ExitReason)
    → (handle r ≡ method_of r)
      × (ltb (code r) (length handlers) ≡ is_listed r)
      × (base_of (method_of r) ≡ (
          if is_listed r
          then some (
              if is_vmx_instruction (code r)
              then Method.handle_vm_fallback
              else Method.handle_fallback)
          else none))
unfolding handle handlers code method_of base_method is_vmx_instruction
handle-method_of (ExitReason.unlisted n) =
    (outside handlers (65 + n) (omega arith), ground arith, refl)
handle-method_of r = (refl, refl, refl)
