-- ===== src/Vcpu/Sample.antt =====
-- A processor for the tests.
use hvpp.Prelude.{Bool, true, false}
use hvpp.Vcpu.{Cpu, Vmcs, Vcpu, Controls, Hardware}

abbrev free : Controls
free = record { allowed_0 = 0; allowed_1 = 4294967295 }

abbrev pub hardware : Bool → Bool → Bool → Hardware
hardware on loads launches = record {
  caller = λ _. record { rip = 4096; rsp = 8192; cs = 16 };
  vmxon = λ _. on;
  vmclear = λ _. true;
  vmptrld = λ _. loads;
  vmlaunch = λ _. launches;
  cr0_fixed = record { allowed_0 = 33; allowed_1 = 4294967295 };
  cr4_fixed = record { allowed_0 = 8192; allowed_1 = 4294967295 };
  pinbased_ctls = free;
  procbased_ctls = free;
  procbased_ctls2 = free;
  entry_ctls = free;
  exit_ctls = free;
  system_cr3 = 1765376;
  stack_end = 32768;
  entry_host_address = 1000;
  entry_guest_address = 2000;
  vmresume_address = 3000;
}

abbrev pub cpu : Cpu
cpu = record {
  cr0 = 2147811379;
  cr3 = 5324800;
  cr4 = 1784;
  gdtr = record { limit = 127; base_address = 12345 };
  idtr = record { limit = 4095; base_address = 23456 };
  rflags = 582;
  vmx = false;
  vmcs_current = false;
}

-- fields that nobody has written yet
abbrev pub vmcs : Vmcs
vmcs = record {
  host_cr0 = 0;
  host_cr3 = 0;
  host_cr4 = 0;
  host_gdtr_base = 0;
  host_idtr_base = 0;
  host_rsp = 0;
  host_rip = 0;
  vcpu_id = 0;
  vmcs_link_pointer = 0;
  pin_based_controls = 0;
  processor_based_controls = 0;
  processor_based_controls2 = 0;
  vm_entry_controls = 0;
  vm_exit_controls = 0;
  cr0_shadow = 0;
  cr4_shadow = 0;
  guest_cr0 = 0;
  guest_cr3 = 666;
  guest_cr4 = 0;
  guest_gdtr = record { limit = 777; base_address = 778 };
  guest_idtr = record { limit = 888; base_address = 889 };
  guest_rsp = 0;
  guest_rip = 0;
  guest_rflags = 0;
  guest_cs = 16;
  exit_instruction_length = 3;
}

abbrev pub no_fallback : Vcpu → Vcpu
no_fallback v = record v { suppress_rip_adjust = true }
