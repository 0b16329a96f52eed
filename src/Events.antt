-- ===== src/Events.antt =====
-- `handle_interrupt` of src/hvpp/hvpp/vmexit/vmexit_passthrough.cpp, which reinjects exceptions and interrupts
-- or emulates SYSCALL, SYSRET, RDTSC and RDTSCP; and `interrupt_info` of src/hvpp/hvpp/vcpu.inl.
-- It reads the instruction with `memory_translator` and injects with `interrupt_inject`, the models of
-- which it calls. The operating system's `kernel_cr3`, the MSRs, the time and the controls are in
-- `Hardware`. Tracing and `hvpp_assert` are left out.
pub mod Syscall
pub mod Fetch
pub mod Reinject
mod Tests
use hvpp.Prelude.{
  ℕ, zero, suc, ◌+◌, ◌-◌, ◌*◌, ◌/◌, ◌%◌, ◌^◌, bit_and, bit_or, Bool, true, false, Option, none,
  some, List, [], ◌∷◌, ltb, ◌==◌, if◌then◌else◌, u16, add64, not64,
}
use hvpp.Guest
use hvpp.Guest.{read_write}
use hvpp.Interrupt
use hvpp.Interrupt.{
  Vcpu, InterruptType, TrueCtls, no_interrupt, make, valid, error_code_valid, interrupt_inject,
}
use hvpp.Segment.{Segment}
use hvpp.Emulate.{update}
use hvpp.Vmexit.Opcode.{
  is_syscall_instruction, is_sysret_instruction, is_rdtsc_instruction, is_rdtscp_instruction,
}

pub record Hardware : Type 0 where
  pub window : ℕ
  pub kernel_cr3 : ℕ → ℕ
  pub true_ctls : TrueCtls
  pub lstar : ℕ
  pub fmask : ℕ
  pub star : ℕ
  pub tsc : ℕ
  pub tsc_aux : ℕ

-- The RFLAGS of the guest are those of `vcpu`.
pub record Cpu : Type 0 where
  pub gp_register : ℕ → ℕ
  pub rip : ℕ
  pub vcpu : Vcpu
  pub space : Guest.Guest
  pub cs : Segment
  pub ss : Segment
  pub guest_cr3 : ℕ
  pub cr2 : ℕ
  pub exit_interruption_info : ℕ
  pub exit_interruption_error_code : ℕ
  pub linear_address : ℕ

abbrev pub rcx : ℕ
rcx = 1

abbrev pub r11 : ℕ
r11 = 11

abbrev pub with_rflags : Cpu → ℕ → Cpu
with_rflags c flags = record c { vcpu = record c.vcpu { rflags = flags } }

abbrev pub suppress_rip_adjust : Cpu → Cpu
suppress_rip_adjust c = record c { vcpu = record c.vcpu { suppress_rip_adjust = true } }

-- `segment_access_vmx_t{ access }` in a flat segment of 4 GB
abbrev pub flat : ℕ → ℕ → Segment
flat access selector = record {
  base_address = 0;
  limit = 2 ^ 32 - 1;
  access = access;
  unusable = 0;
  selector = selector;
}

-- `rflags_t`
abbrev pub reserved_bits : ℕ
reserved_bits = 4291002408

abbrev pub fixed_bits : ℕ
fixed_bits = 2

pub interrupt_info : Cpu → Interrupt.Interrupt
interrupt_info c =
    let info = record no_interrupt { info = c.exit_interruption_info } in
    let code =
      if error_code_valid info
      then record info { error_code = c.exit_interruption_error_code }
      else info in
    if valid info then record code { rip_adjust = c.vcpu.exit_instruction_length } else info

-- the predefined `interrupt::page_fault`
abbrev pub page_fault : Interrupt.Interrupt
page_fault = make InterruptType.hardware_exception 14 0 true (2 ^ 32 - 1)

-- The instruction, or the address that could not be read.
pub data Fetched : Type 0 where
  fetched : List ℕ → Fetched
  failed : ℕ → Fetched

unfoldable pub to_list : (ℕ → ℕ) → ℕ → ℕ → List ℕ
to_list buffer pos zero = []
to_list buffer pos (suc n) = buffer pos ∷ to_list buffer (pos + 1) n

abbrev pub and_then : (Cpu → Fetched → Cpu) → Option (Cpu × Fetched) → Option Cpu
and_then f none = none
and_then f (some (c, r)) = some (f c r)

module _ (hw : Hardware) where
  abbrev pub inject : Cpu → Interrupt.Interrupt → Cpu
  inject c i =
      suppress_rip_adjust (record c { vcpu = (interrupt_inject hw.true_ctls c.vcpu i false).0 })

  pub read_size : Cpu → ℕ
  read_size c = if ltb c.vcpu.exit_instruction_length 15 then c.vcpu.exit_instruction_length else 15

  -- what is in the buffer after `guest_read_memory`, or the address that it returns
  pub received : Cpu → Option (Guest.Guest × ℕ) → Option (Cpu × Fetched)
  received c none = none
  received c (some (space, error)) = some (
    record c { space = record space { buffer = c.space.buffer } },
    if error == 0 then fetched (to_list space.buffer 0 (read_size c)) else failed error,
  )

  -- `guest_read_memory(rip, buffer, read_size)`, into a buffer of its own
  pub fetch : Cpu → Option (Cpu × Fetched)
  fetch c = received c (
      read_write hw.window (record c.space { buffer = λ _. 0 }) c.rip (hw.kernel_cr3 c.guest_cr3) 0
        (read_size c) false false)

  -- `vp.exit_instruction_length()` is added without a test.
  pub handle_emulate_syscall : Cpu → Cpu
  handle_emulate_syscall c = record c {
    gp_register =
        update (update c.gp_register rcx (add64 c.rip c.vcpu.exit_instruction_length)) r11
          c.vcpu.rflags;
    rip = hw.lstar;
    vcpu = record c.vcpu { rflags = bit_and c.vcpu.rflags (not64 hw.fmask) };
    cs = flat 41115 (u16 (hw.star / 2 ^ 32 / 4 * 4));
    ss = flat 49299 (u16 (hw.star / 2 ^ 32 / 4 * 4 + 8));
  }

  pub handle_emulate_sysret : Cpu → Cpu
  handle_emulate_sysret c = record c {
    rip = c.gp_register rcx;
    vcpu = record c.vcpu {
      rflags = bit_or (bit_and (c.gp_register r11) (not64 reserved_bits)) fixed_bits;
    };
    cs = flat 41211 (u16 (bit_or (hw.star / 2 ^ 48 + 16) 3));
    ss = flat 49395 (u16 (bit_or (hw.star / 2 ^ 48 + 8) 3));
  }

  -- RDX:RAX gets the time.
  pub handle_emulate_rdtsc : Cpu → Cpu
  handle_emulate_rdtsc c = record c {
    gp_register = update (update c.gp_register 0 (bit_and hw.tsc 4294967295)) 2 (hw.tsc / 2 ^ 32);
  }

  pub handle_emulate_rdtscp : Cpu → Cpu
  handle_emulate_rdtscp c =
      let c' = handle_emulate_rdtsc c in
      record c' { gp_register = update c'.gp_register rcx hw.tsc_aux }

  abbrev pub reinject : Cpu → Cpu
  reinject c = inject c (interrupt_info c)

  -- `write<cr2_t>` and the injection of #PF
  abbrev pub fault : Cpu → ℕ → Cpu
  fault c address = inject (record c { cr2 = address }) page_fault

  -- the case `invalid_opcode` from its reading on
  pub on_invalid_opcode : Cpu → Fetched → Cpu
  on_invalid_opcode c (failed address) = fault c address
  on_invalid_opcode c (fetched bytes) =
      if is_syscall_instruction bytes
      then suppress_rip_adjust (handle_emulate_syscall c)
      else if is_sysret_instruction bytes
      then suppress_rip_adjust (handle_emulate_sysret c)
      else reinject c

  -- the case `general_protection` from its reading on
  pub on_general_protection : Cpu → Fetched → Cpu
  on_general_protection c (failed address) = fault c address
  on_general_protection c (fetched bytes) =
      if is_rdtsc_instruction bytes
      then handle_emulate_rdtsc c
      else if is_rdtscp_instruction bytes
      then handle_emulate_rdtscp c
      else reinject c

  -- The case of an NMI goes on into that of a hardware exception.
  pub handle_hardware : Cpu → ℕ → Option Cpu
  handle_hardware c vector =
      if vector == 6
      then and_then on_invalid_opcode (fetch c)
      else if vector == 13
      then and_then on_general_protection (fetch c)
      else if vector == 14
      then some (reinject (record c { cr2 = c.linear_address }))
      else some (reinject c)

  pub by_type : Cpu → InterruptType → ℕ → Option Cpu
  by_type c InterruptType.nmi vector = handle_hardware c vector
  by_type c InterruptType.hardware_exception vector = handle_hardware c vector
  by_type c t vector = some (reinject c)

  pub handle_interrupt : Cpu → Option Cpu
  handle_interrupt c =
      by_type c (Interrupt.type (interrupt_info c)) (Interrupt.vector (interrupt_info c))
