-- ===== src/Events/Tests.antt =====
-- The theorems on exceptions, at a guest whose page tables map every page to frame 5.
use hvpp.Prelude.{
  ℕ, ◌+◌, ◌-◌, ◌%◌, ◌^◌, ◌≡◌, refl, false, some, [], ◌==◌, inr, if◌then◌else◌, arith, add64,
}
use hvpp.Prelude.Bits.{bit}
use hvpp.Guest.{no_pte, word}
use hvpp.Guest.Walk.{translate, or_zero, is_plain}
use hvpp.Vmexit.Opcode.{is_syscall_instruction, skip_prefixes, skip_table, starts_with}
use hvpp.Guest.Sample.{tables, table_plain, table_translate}
use hvpp.Interrupt.{type, vector, valid, error_code_valid}
use hvpp.Events.{
  Hardware, Cpu, handle_interrupt, handle_emulate_syscall, handle_emulate_sysret,
  suppress_rip_adjust, read_size, interrupt_info, fault,
}
use hvpp.Events.Syscall.{sysret-syscall}
use hvpp.Events.Fetch.{IsReadable, IsMapped, physical, code_bytes}
use hvpp.Events.Reinject.{handle_interrupt_lem, handle_interrupt-fault}

abbrev hardware : Hardware
hardware = record {
  window = 1048576;
  kernel_cr3 = λ cr3. cr3;
  true_ctls = record { allowed_0_settings = 0; allowed_1_settings = 2 ^ 32 - 1 };
  lstar = 18446735277616529408;
  fmask = 1792;
  star = 9851624184872960;
  tsc = 0;
  tsc_aux = 0;
}

-- An exception of vector `n`, at the virtual address 4096.
abbrev guest : ℕ → (ℕ → ℕ) → Cpu
guest n memory = record {
  gp_register = λ i. i;
  rip = 4096;
  vcpu = record {
    rflags = 514;
    guest_interruptibility_state = 0;
    exit_instruction_length = 2;
    entry_interruption_info = 0;
    entry_interruption_error_code = 0;
    entry_instruction_length = 0;
    processor_based_controls = 0;
    external_queue = record { queue = []; first = 0; count = 0 };
    nmi_queue = record { queue = []; first = 0; count = 0 };
    suppress_rip_adjust = false;
  };
  space = record { memory = memory; buffer = λ _. 0; pte = no_pte };
  cs = record { base_address = 0; limit = 0; access = 0; unusable = 0; selector = 51 };
  ss = record { base_address = 0; limit = 0; access = 0; unusable = 0; selector = 43 };
  guest_cr3 = 4096;
  cr2 = 0;
  exit_interruption_info = 2147484416 + n;
  exit_interruption_error_code = 0;
  linear_address = 0;
}

-- SYSCALL at the beginning of frame 5
abbrev code : ℕ → ℕ
code a = if a == 20480 then 15 else if a == 20481 then 5 else 0

readable : IsReadable hardware (guest 6 (tables code))
unfolding read_size
readable = record {
  window_aligned = refl;
  rip_lt = omega arith;
  end_le = omega arith;
  no_window = refl;
  plain = table_plain code;
}

mapped : IsMapped (physical hardware (guest 6 (tables code))) 4096 2
mapped j h = omega (arith, table_translate code (add64 4096 j))

sysret-syscall_example :
    ((handle_emulate_syscall hardware (guest 6 code)).rip ≡ 18446735277616529408)
    × ((handle_emulate_syscall hardware (guest 6 code)).cs.selector % 4 ≡ 0)
    × ((handle_emulate_syscall hardware (guest 6 code)).ss.selector % 4 ≡ 0)
    × (bit (handle_emulate_syscall hardware (guest 6 code)).vcpu.rflags 9 ≡ 0)
    × ((handle_emulate_sysret hardware (handle_emulate_syscall hardware (guest 6 code))).rip ≡ 4098)
    × ((handle_emulate_sysret hardware (handle_emulate_syscall hardware (guest 6 code))).cs.selector
          % 4
        ≡ 3)
    × ((handle_emulate_sysret hardware (handle_emulate_syscall hardware (guest 6 code))).ss.selector
          % 4
        ≡ 3)
    × (bit
          (handle_emulate_sysret hardware
            (handle_emulate_syscall hardware (guest 6 code))).vcpu.rflags
          9
        ≡ 1)
unfolding bit
sysret-syscall_example =
    sysret-syscall hardware (guest 6 code) (handle_emulate_syscall hardware (guest 6 code)) 9
      (omega arith) (omega arith) refl refl

handle_interrupt_lem_example :
    handle_interrupt hardware (guest 6 (tables code))
    ≡ some (suppress_rip_adjust (handle_emulate_syscall hardware (guest 6 (tables code))))
unfolding interrupt_info read_size code_bytes type vector error_code_valid valid bit
    is_syscall_instruction skip_prefixes skip_table starts_with translate or_zero word
handle_interrupt_lem_example =
    handle_interrupt_lem hardware (guest 6 (tables code)) refl readable mapped

nothing_mapped : IsReadable hardware (guest 13 (λ _. 0))
unfolding read_size is_plain word
nothing_mapped = record {
  window_aligned = refl;
  rip_lt = omega arith;
  end_le = omega arith;
  no_window = refl;
  plain = λ u. refl;
}

handle_interrupt-fault_example :
    handle_interrupt hardware (guest 13 (λ _. 0)) ≡ some (fault hardware (guest 13 (λ _. 0)) 4096)
unfolding interrupt_info read_size type vector error_code_valid valid bit translate or_zero word
handle_interrupt-fault_example =
    handle_interrupt-fault hardware (guest 13 (λ _. 0)) 0 refl (inr refl) nothing_mapped
      (omega arith) (λ j h. absurd (omega arith)) refl (omega arith)
