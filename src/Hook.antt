-- ===== src/Hook.antt =====
-- `vmexit_custom_handler` of src/hvppdrv/vmexit_custom.cpp: the guest asks for a page whose code and whose
-- data differ, and the handler of EPT violations changes between the two. What `setup` does to the
-- controls of the virtual CPU, tracing, and the processor's cache of translations are left out.
pub mod Runs
pub mod Steps
mod Tests
use hvpp.Prelude.{
  ℕ, ◌^◌, Bool, true, false, ◌||◌, ◌&&◌, ◌==◌, ◌⊎◌, inl, inr, Option, none, some, if◌then◌else◌,
  bit_and,
}
use hvpp.Paging.{Pml, mask}
use hvpp.Ept.{Tables, Host, map, map_identity, read_write_execute}
use hvpp.Ept.Rebuild.{construct, split, join, ◌>>=◌}

-- `access_type::execute` and `access_type::read_write`
abbrev pub execute : ℕ
execute = 4

abbrev pub read_write : ℕ
read_write = 3

-- `per_vcpu_data`, and whether the instruction is to be run again
pub record Data : Type 0 where
  pub ept : Tables
  pub page_read : ℕ
  pub page_exec : ℕ
  pub suppress_rip_adjust : Bool

-- The bits of the exit qualification that are read.
pub record Violation : Type 0 where
  pub data_read : Bool
  pub data_write : Bool
  pub data_execute : Bool

-- `vcpu_context_t::rcx`, and the two pointers as the physical addresses that the guest's page tables
-- give for them, and the level of the guest's `cs`.
pub record Call : Type 0 where
  pub rcx : ℕ
  pub read_pa : ℕ
  pub exec_pa : ℕ
  pub request_privilege_level : ℕ

-- What `vmexit_passthrough_handler` does with a call: leave VMX operation, stop at a breakpoint of the
-- debugger, or inject an invalid opcode.
pub data Passthrough : Type 0 where
  vmx_leave breakpoint vm_fallback : Passthrough

abbrev pub vmcall_terminate_id : ℕ
vmcall_terminate_id = 57005

abbrev pub vmcall_breakpoint_id : ℕ
vmcall_breakpoint_id = 43707

abbrev pub passthrough_vmcall : Call → Passthrough
passthrough_vmcall call =
    if call.rcx == vmcall_terminate_id && call.request_privilege_level == 0
    then Passthrough.vmx_leave
    else (if call.rcx == vmcall_breakpoint_id
        then Passthrough.breakpoint
        else Passthrough.vm_fallback)

abbrev pub handled : Option Data → Option (Data ⊎ Passthrough)
handled none = none
handled (some d) = some (inl d)

module _ (host : Host) where
  -- The data that `setup` makes from the memory `s`.
  abbrev pub setup : Tables → Data
  setup s = record {
    ept = map_identity host (construct host s).0 read_write_execute;
    page_read = 0;
    page_exec = 0;
    suppress_rip_adjust = false;
  }

  abbrev pub large_page_of : ℕ → ℕ
  large_page_of pa = bit_and pa (mask Pml.pd)

  -- The two calls; `none` says that a null entry is read.
  pub hook : Data → ℕ → ℕ → Option Data
  hook d read_pa exec_pa = do
    ept ←
        split host d.ept (large_page_of exec_pa) (large_page_of exec_pa) read_write_execute Pml.pd
          Pml.pt
    some (record d {
      page_read = read_pa;
      page_exec = exec_pa;
      ept = (map host ept exec_pa exec_pa execute Pml.pt).0;
    })

  pub unhook : Data → Option Data
  unhook d = do
    ept ←
        join host d.ept (large_page_of d.page_exec) (large_page_of d.page_exec) read_write_execute
          Pml.pd
    some (record d { ept = ept })

  abbrev pub handle_execute_vmcall : Data → Call → Option (Data ⊎ Passthrough)
  handle_execute_vmcall d call =
      if call.rcx == 193
      then handled (hook d call.read_pa call.exec_pa)
      else (if call.rcx == 194 then handled (unhook d) else some (inr (passthrough_vmcall call)))

  pub handle_ept_violation : Data → Violation → Data
  handle_ept_violation d v = record d {
    suppress_rip_adjust = true;
    ept =
        if v.data_read || v.data_write
        then (map host d.ept d.page_exec d.page_read read_write Pml.pt).0
        else (if v.data_execute
            then (map host d.ept d.page_exec d.page_exec execute Pml.pt).0
            else d.ept);
  }
