-- ===== src/Vmexit/Reason.antt =====
-- The reasons of an exit: src/hvpp/hvpp/ia32/vmx/exit_reason.h.
use hvpp.Prelude.{ℕ, ◌+◌}

-- `enum class exit_reason`. The processor reports a number of 16 bits, and the code casts it: `unlisted n`
-- is the number 65 + n, which has no name in the enumeration, such as 67 for UMWAIT.
pub data ExitReason : Type 0 where
  exception_or_nmi external_interrupt triple_fault init_signal startup_ipi io_smi smi
        interrupt_window nmi_window task_switch execute_cpuid execute_getsec execute_hlt
        execute_invd execute_invlpg execute_rdpmc execute_rdtsc execute_rsm_in_smm execute_vmcall
        execute_vmclear execute_vmlaunch execute_vmptrld execute_vmptrst execute_vmread
        execute_vmresume execute_vmwrite execute_vmxoff execute_vmxon mov_cr mov_dr
        execute_io_instruction execute_rdmsr execute_wrmsr error_invalid_guest_state error_msr_load
        reserved_1 execute_mwait monitor_trap_flag reserved_2 execute_monitor execute_pause
        error_machine_check reserved_3 tpr_below_threshold apic_access virtualized_eoi
        gdtr_idtr_access ldtr_tr_access ept_violation ept_misconfiguration execute_invept
        execute_rdtscp vmx_preemption_timer_expired execute_invvpid execute_wbinvd execute_xsetbv
        apic_write execute_rdrand execute_invpcid execute_vmfunc execute_encls execute_rdseed
        page_modification_log_full execute_xsaves execute_xrstors :
      ExitReason
  unlisted : ℕ → ExitReason

unfoldable pub code : ExitReason → ℕ
code ExitReason.exception_or_nmi = 0
code ExitReason.external_interrupt = 1
code ExitReason.triple_fault = 2
code ExitReason.init_signal = 3
code ExitReason.startup_ipi = 4
code ExitReason.io_smi = 5
code ExitReason.smi = 6
code ExitReason.interrupt_window = 7
code ExitReason.nmi_window = 8
code ExitReason.task_switch = 9
code ExitReason.execute_cpuid = 10
code ExitReason.execute_getsec = 11
code ExitReason.execute_hlt = 12
code ExitReason.execute_invd = 13
code ExitReason.execute_invlpg = 14
code ExitReason.execute_rdpmc = 15
code ExitReason.execute_rdtsc = 16
code ExitReason.execute_rsm_in_smm = 17
code ExitReason.execute_vmcall = 18
code ExitReason.execute_vmclear = 19
code ExitReason.execute_vmlaunch = 20
code ExitReason.execute_vmptrld = 21
code ExitReason.execute_vmptrst = 22
code ExitReason.execute_vmread = 23
code ExitReason.execute_vmresume = 24
code ExitReason.execute_vmwrite = 25
code ExitReason.execute_vmxoff = 26
code ExitReason.execute_vmxon = 27
code ExitReason.mov_cr = 28
code ExitReason.mov_dr = 29
code ExitReason.execute_io_instruction = 30
code ExitReason.execute_rdmsr = 31
code ExitReason.execute_wrmsr = 32
code ExitReason.error_invalid_guest_state = 33
code ExitReason.error_msr_load = 34
code ExitReason.reserved_1 = 35
code ExitReason.execute_mwait = 36
code ExitReason.monitor_trap_flag = 37
code ExitReason.reserved_2 = 38
code ExitReason.execute_monitor = 39
code ExitReason.execute_pause = 40
code ExitReason.error_machine_check = 41
code ExitReason.reserved_3 = 42
code ExitReason.tpr_below_threshold = 43
code ExitReason.apic_access = 44
code ExitReason.virtualized_eoi = 45
code ExitReason.gdtr_idtr_access = 46
code ExitReason.ldtr_tr_access = 47
code ExitReason.ept_violation = 48
code ExitReason.ept_misconfiguration = 49
code ExitReason.execute_invept = 50
code ExitReason.execute_rdtscp = 51
code ExitReason.vmx_preemption_timer_expired = 52
code ExitReason.execute_invvpid = 53
code ExitReason.execute_wbinvd = 54
code ExitReason.execute_xsetbv = 55
code ExitReason.apic_write = 56
code ExitReason.execute_rdrand = 57
code ExitReason.execute_invpcid = 58
code ExitReason.execute_vmfunc = 59
code ExitReason.execute_encls = 60
code ExitReason.execute_rdseed = 61
code ExitReason.page_modification_log_full = 62
code ExitReason.execute_xsaves = 63
code ExitReason.execute_xrstors = 64
code (ExitReason.unlisted n) = 65 + n
