-- ===== src/Vmexit.antt =====
-- Exit handlers of src/hvpp/hvpp/vmexit/vmexit_passthrough.cpp that emulate an instruction on the guest's
-- registers: moves to and from the control and the debug registers, and RDTSC. The injection of an
-- exception is kept in a list; what injection does is modelled with event injection. INVVPID only flushes
-- cached translations and is left out.
pub mod Reason
pub mod Table
pub mod Dispatch
pub mod Opcode
pub mod MovCr
pub mod MovDr
mod Tests
use hvpp.Prelude.{
  ℕ, ◌+◌, ◌-◌, ◌*◌, ◌/◌, ◌%◌, ◌^◌, bit_and, bit_or, Bool, true, false, ◌&&◌, ◌||◌, not, List, ◌∷◌,
  ◌==◌, if◌then◌else◌, u16, not64,
}
use hvpp.Prelude.Bits.{bit}

-- the exceptions that these handlers inject
pub data Exception : Type 0 where
  general_protection invalid_opcode debug : Exception

-- `gp_register` of `context_t` by its numbers, the debug registers of the processor, and the guest's
-- registers in the VMCS
pub record Guest : Type 0 where
  pub gp_register : ℕ → ℕ
  pub dr : ℕ → ℕ
  pub guest_dr7 : ℕ
  pub guest_cr0 : ℕ
  pub cr0_shadow : ℕ
  pub guest_cr3 : ℕ
  pub guest_cr4 : ℕ
  pub cr4_shadow : ℕ
  pub cs_dpl : ℕ
  pub injected : List Exception
  pub suppress_rip_adjust : Bool

abbrev pub set_register : (ℕ → ℕ) → ℕ → ℕ → ℕ → ℕ
set_register r i x j = if j == i then x else r j

-- `exit_qualification_mov_cr_t`
pub data CrAccess : Type 0 where
  access_to_cr access_from_cr access_clts access_lmsw : CrAccess

pub record MovCrQualification : Type 0 where
  pub cr_number : ℕ
  pub access_type : CrAccess
  pub gp_register : ℕ
  pub lmsw_source_data : ℕ

abbrev pub with_cr0 : Guest → ℕ → Guest
with_cr0 v cr0 = record v { guest_cr0 = cr0; cr0_shadow = cr0 }

-- `cr0.task_switched = false`
pub clts : ℕ → ℕ
clts cr0 = bit_and cr0 (not64 (2 ^ 3))

pub lmsw : ℕ → ℕ → ℕ
lmsw cr0 source = bit_or (bit_and cr0 (not64 14)) (bit_and (u16 source) 15)

-- A move to CR3 clears bit 63 if CR4.PCIDE is set.
pub to_cr3 : Guest → ℕ → Guest
to_cr3 v x = record v {
  guest_cr3 = if bit v.guest_cr4 17 == 1 then bit_and x (not64 (2 ^ 63)) else x;
}

pub to_cr : Guest → ℕ → ℕ → Guest
to_cr v number x =
    if number == 0
    then with_cr0 v x
    else if number == 3
    then to_cr3 v x
    else if number == 4
    then record v { guest_cr4 = x; cr4_shadow = x }
    else v

pub handle_mov_cr : Guest → MovCrQualification → Guest
handle_mov_cr v q = elim q.access_type [
  | CrAccess.access_to_cr ↦ to_cr v q.cr_number (v.gp_register q.gp_register)
  | CrAccess.access_from_cr ↦
      if q.cr_number == 3
      then record v { gp_register = set_register v.gp_register q.gp_register v.guest_cr3 }
      else v
  | CrAccess.access_clts ↦ with_cr0 v (clts v.guest_cr0)
  | CrAccess.access_lmsw ↦ with_cr0 v (lmsw v.guest_cr0 q.lmsw_source_data)
]

-- `exit_qualification_mov_dr_t`
pub data DrAccess : Type 0 where
  access_to_dr access_from_dr : DrAccess

pub record MovDrQualification : Type 0 where
  pub dr_number : ℕ
  pub access_type : DrAccess
  pub gp_register : ℕ

-- `interrupt_inject`, and `suppress_rip_adjust`
abbrev pub inject : Guest → Exception → Guest
inject v e = record v { injected = e ∷ v.injected; suppress_rip_adjust = true }

-- `vmx::adjust` of DR6 and DR7
pub adjust_dr6 : ℕ → ℕ
adjust_dr6 x = bit_or (bit_and x (not64 (2 ^ 12))) (255 * 2 ^ 4 + 32767 * 2 ^ 17)

pub adjust_dr7 : ℕ → ℕ
adjust_dr7 x = bit_or (bit_and x (not64 (2 ^ 12 + 3 * 2 ^ 14))) (2 ^ 10)

abbrev pub is_to_dr : DrAccess → Bool
is_to_dr DrAccess.access_to_dr = true
is_to_dr DrAccess.access_from_dr = false

-- DR4 and DR5 stand for DR6 and DR7.
abbrev pub aliased : ℕ → ℕ
aliased number = if number == 4 || number == 5 then number + 2 else number

abbrev pub general_detect : ℕ
general_detect = 2 ^ 13

-- `breakpoint_condition = 0` and `debug_register_access_detected = true` in DR6, and
-- `general_detect = false` in DR7
pub detect : Guest → Guest
detect v = record v {
  dr = set_register v.dr 6 (bit_or (bit_and (v.dr 6) (not64 15)) (2 ^ 13));
  guest_dr7 = bit_and v.guest_dr7 (not64 general_detect);
}

pub write_dr : Guest → ℕ → ℕ → Guest
write_dr v number x =
    if number == 7
    then record v { guest_dr7 = adjust_dr7 x }
    else if number == 6
    then record v { dr = set_register v.dr 6 (adjust_dr6 x) }
    else if number == 0 || number == 1 || number == 2 || number == 3
    then record v { dr = set_register v.dr number x }
    else v

pub read_dr : Guest → ℕ → ℕ → Guest
read_dr v number register =
    if number == 7
    then record v { gp_register = set_register v.gp_register register v.guest_dr7 }
    else if number == 0 || number == 1 || number == 2 || number == 3 || number == 6
    then record v { gp_register = set_register v.gp_register register (v.dr number) }
    else v

pub handle_mov_dr : Guest → MovDrQualification → Guest
handle_mov_dr v q =
    let number = aliased q.dr_number in
    let x = v.gp_register q.gp_register in
    if not (v.cs_dpl == 0)
    then inject v Exception.general_protection
    else if (q.dr_number == 4 || q.dr_number == 5) && bit v.guest_cr4 3 == 1
    then inject v Exception.invalid_opcode
    else if bit v.guest_dr7 13 == 1
    then inject (detect v) Exception.debug
    else if is_to_dr q.access_type && (number == 6 || number == 7) && not (x / 2 ^ 32 == 0)
    then inject v Exception.general_protection
    else if is_to_dr q.access_type
    then write_dr v number x
    else read_dr v number q.gp_register

-- `handle_execute_rdtsc`, at the time `tsc`: RAX and RDX are the registers 0 and 2.
pub handle_execute_rdtsc : Guest → ℕ → Guest
handle_execute_rdtsc v tsc = record v {
  gp_register =
      set_register (set_register v.gp_register 0 (bit_and tsc 4294967295)) 2 (tsc / 2 ^ 32);
}
