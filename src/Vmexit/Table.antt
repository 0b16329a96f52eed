-- ===== src/Vmexit/Table.antt =====
-- The dispatch of exits (src/hvpp/hvpp/vmexit.cpp): the table `handlers_` of methods, and what each method
-- does where a handler does not override it.
use hvpp.Prelude.{ℕ, zero, suc, Option, none, some, List, [], ◌∷◌}
use hvpp.Vmexit.Reason.{ExitReason, code}

-- The methods, each named by what it handles.
pub data Method : Type 0 where
  handle_exception_or_nmi handle_external_interrupt handle_triple_fault handle_init_signal
        handle_startup_ipi handle_io_smi handle_smi handle_interrupt_window handle_nmi_window
        handle_task_switch handle_execute_cpuid handle_execute_getsec handle_execute_hlt
        handle_execute_invd handle_execute_invlpg handle_execute_rdpmc handle_execute_rdtsc
        handle_execute_rsm_in_smm handle_execute_vmcall handle_execute_vmclear
        handle_execute_vmlaunch handle_execute_vmptrld handle_execute_vmptrst handle_execute_vmread
        handle_execute_vmresume handle_execute_vmwrite handle_execute_vmxoff handle_execute_vmxon
        handle_mov_cr handle_mov_dr handle_execute_io_instruction handle_execute_rdmsr
        handle_execute_wrmsr handle_error_invalid_guest_state handle_error_msr_load
        handle_execute_mwait handle_monitor_trap_flag handle_execute_monitor handle_execute_pause
        handle_error_machine_check handle_tpr_below_threshold handle_apic_access
        handle_virtualized_eoi handle_gdtr_idtr_access handle_ldtr_tr_access handle_ept_violation
        handle_ept_misconfiguration handle_execute_invept handle_execute_rdtscp
        handle_vmx_preemption_timer_expired handle_execute_invvpid handle_execute_wbinvd
        handle_execute_xsetbv handle_apic_write handle_execute_rdrand handle_execute_invpcid
        handle_execute_vmfunc handle_execute_encls handle_execute_rdseed
        handle_page_modification_log_full handle_execute_xsaves handle_execute_xrstors
        handle_fallback handle_vm_fallback :
      Method

-- `handlers_`
unfoldable pub handlers : List Method
handlers =
    Method.handle_exception_or_nmi ∷ Method.handle_external_interrupt ∷ Method.handle_triple_fault
    ∷ Method.handle_init_signal ∷ Method.handle_startup_ipi ∷ Method.handle_io_smi
    ∷ Method.handle_smi ∷ Method.handle_interrupt_window ∷ Method.handle_nmi_window
    ∷ Method.handle_task_switch ∷ Method.handle_execute_cpuid ∷ Method.handle_execute_getsec
    ∷ Method.handle_execute_hlt ∷ Method.handle_execute_invd ∷ Method.handle_execute_invlpg
    ∷ Method.handle_execute_rdpmc ∷ Method.handle_execute_rdtsc ∷ Method.handle_execute_rsm_in_smm
    ∷ Method.handle_execute_vmcall ∷ Method.handle_execute_vmclear ∷ Method.handle_execute_vmlaunch
    ∷ Method.handle_execute_vmptrld ∷ Method.handle_execute_vmptrst ∷ Method.handle_execute_vmread
    ∷ Method.handle_execute_vmresume ∷ Method.handle_execute_vmwrite ∷ Method.handle_execute_vmxoff
    ∷ Method.handle_execute_vmxon ∷ Method.handle_mov_cr ∷ Method.handle_mov_dr
    ∷ Method.handle_execute_io_instruction ∷ Method.handle_execute_rdmsr
    ∷ Method.handle_execute_wrmsr ∷ Method.handle_error_invalid_guest_state
    ∷ Method.handle_error_msr_load ∷ Method.handle_fallback ∷ Method.handle_execute_mwait
    ∷ Method.handle_monitor_trap_flag ∷ Method.handle_fallback ∷ Method.handle_execute_monitor
    ∷ Method.handle_execute_pause ∷ Method.handle_error_machine_check ∷ Method.handle_fallback
    ∷ Method.handle_tpr_below_threshold ∷ Method.handle_apic_access ∷ Method.handle_virtualized_eoi
    ∷ Method.handle_gdtr_idtr_access ∷ Method.handle_ldtr_tr_access ∷ Method.handle_ept_violation
    ∷ Method.handle_ept_misconfiguration ∷ Method.handle_execute_invept
    ∷ Method.handle_execute_rdtscp ∷ Method.handle_vmx_preemption_timer_expired
    ∷ Method.handle_execute_invvpid ∷ Method.handle_execute_wbinvd ∷ Method.handle_execute_xsetbv
    ∷ Method.handle_apic_write ∷ Method.handle_execute_rdrand ∷ Method.handle_execute_invpcid
    ∷ Method.handle_execute_vmfunc ∷ Method.handle_execute_encls ∷ Method.handle_execute_rdseed
    ∷ Method.handle_page_modification_log_full ∷ Method.handle_execute_xsaves
    ∷ Method.handle_execute_xrstors ∷ []

-- A read of the table; outside it there is no method.
abbrev pub method_at : List Method → ℕ → Option Method
method_at [] i = none
method_at (m ∷ ms) zero = some m
method_at (m ∷ ms) (suc i) = method_at ms i

-- `vmexit_handler::handle`
unfoldable pub handle : ExitReason → Option Method
handle r = method_at handlers (code r)

-- The two kinds of a method that is not overridden: it does nothing by itself, but an instruction of VMX
-- goes through a method of its own.
unfoldable pub base_method : Method → Method
base_method Method.handle_exception_or_nmi = Method.handle_fallback
base_method Method.handle_external_interrupt = Method.handle_fallback
base_method Method.handle_triple_fault = Method.handle_fallback
base_method Method.handle_init_signal = Method.handle_fallback
base_method Method.handle_startup_ipi = Method.handle_fallback
base_method Method.handle_io_smi = Method.handle_fallback
base_method Method.handle_smi = Method.handle_fallback
base_method Method.handle_interrupt_window = Method.handle_fallback
base_method Method.handle_nmi_window = Method.handle_fallback
base_method Method.handle_task_switch = Method.handle_fallback
base_method Method.handle_execute_cpuid = Method.handle_fallback
base_method Method.handle_execute_getsec = Method.handle_fallback
base_method Method.handle_execute_hlt = Method.handle_fallback
base_method Method.handle_execute_invd = Method.handle_fallback
base_method Method.handle_execute_invlpg = Method.handle_fallback
base_method Method.handle_execute_rdpmc = Method.handle_fallback
base_method Method.handle_execute_rdtsc = Method.handle_fallback
base_method Method.handle_execute_rsm_in_smm = Method.handle_fallback
base_method Method.handle_execute_vmcall = Method.handle_vm_fallback
base_method Method.handle_execute_vmclear = Method.handle_vm_fallback
base_method Method.handle_execute_vmlaunch = Method.handle_vm_fallback
base_method Method.handle_execute_vmptrld = Method.handle_vm_fallback
base_method Method.handle_execute_vmptrst = Method.handle_vm_fallback
base_method Method.handle_execute_vmread = Method.handle_vm_fallback
base_method Method.handle_execute_vmresume = Method.handle_vm_fallback
base_method Method.handle_execute_vmwrite = Method.handle_vm_fallback
base_method Method.handle_execute_vmxoff = Method.handle_vm_fallback
base_method Method.handle_execute_vmxon = Method.handle_vm_fallback
base_method Method.handle_mov_cr = Method.handle_fallback
base_method Method.handle_mov_dr = Method.handle_fallback
base_method Method.handle_execute_io_instruction = Method.handle_fallback
base_method Method.handle_execute_rdmsr = Method.handle_fallback
base_method Method.handle_execute_wrmsr = Method.handle_fallback
base_method Method.handle_error_invalid_guest_state = Method.handle_fallback
base_method Method.handle_error_msr_load = Method.handle_fallback
base_method Method.handle_execute_mwait = Method.handle_fallback
base_method Method.handle_monitor_trap_flag = Method.handle_fallback
base_method Method.handle_execute_monitor = Method.handle_fallback
base_method Method.handle_execute_pause = Method.handle_fallback
base_method Method.handle_error_machine_check = Method.handle_fallback
base_method Method.handle_tpr_below_threshold = Method.handle_fallback
base_method Method.handle_apic_access = Method.handle_fallback
base_method Method.handle_virtualized_eoi = Method.handle_fallback
base_method Method.handle_gdtr_idtr_access = Method.handle_fallback
base_method Method.handle_ldtr_tr_access = Method.handle_fallback
base_method Method.handle_ept_violation = Method.handle_fallback
base_method Method.handle_ept_misconfiguration = Method.handle_fallback
base_method Method.handle_execute_invept = Method.handle_vm_fallback
base_method Method.handle_execute_rdtscp = Method.handle_fallback
base_method Method.handle_vmx_preemption_timer_expired = Method.handle_fallback
base_method Method.handle_execute_invvpid = Method.handle_vm_fallback
base_method Method.handle_execute_wbinvd = Method.handle_fallback
base_method Method.handle_execute_xsetbv = Method.handle_fallback
base_method Method.handle_apic_write = Method.handle_fallback
base_method Method.handle_execute_rdrand = Method.handle_fallback
base_method Method.handle_execute_invpcid = Method.handle_fallback
base_method Method.handle_execute_vmfunc = Method.handle_vm_fallback
base_method Method.handle_execute_encls = Method.handle_fallback
base_method Method.handle_execute_rdseed = Method.handle_fallback
base_method Method.handle_page_modification_log_full = Method.handle_fallback
base_method Method.handle_execute_xsaves = Method.handle_fallback
base_method Method.handle_execute_xrstors = Method.handle_fallback
base_method Method.handle_fallback = Method.handle_fallback
base_method Method.handle_vm_fallback = Method.handle_vm_fallback
