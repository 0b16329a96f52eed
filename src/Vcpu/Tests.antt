-- ===== src/Vcpu/Tests.antt =====
-- The theorems on the virtual CPU, at concrete inputs.
use hvpp.Prelude.{ℕ, ◌≡◌, refl, true, false, none, some, []}
use hvpp.Prelude.Bits.{bit}
use hvpp.Vcpu.{
  State, Error, Vcpu, Run, Handler, adjust, Caller, vm_exit, handled, enter_host, entry_host, start,
  stop, handle_execute_vmcall, passthrough, terminate,
}
use hvpp.Vcpu.Sample.{hardware, cpu, vmcs, no_fallback}
use hvpp.Vcpu.Start.{start_fails, start-passthrough}
use hvpp.Vcpu.Exit.{entry_host_lem}
use hvpp.Vcpu.Stop.{stop_lem}

abbrev fresh : Vcpu
fresh = record {
  state = State.off;
  cpu = cpu;
  vmcs = vmcs;
  context = record { rax = 0; rcx = 0; rsp = 0; rip = 0; rflags = 0 };
  suppress_rip_adjust = true;
  spinlock_queue = [];
  locked = λ _. false;
  machine_frame_rip = 0;
  machine_frame_rsp = 0;
  tsc_entry = 0;
  tsc_delta_previous = 0;
  tsc_delta_sum = 0;
  user_data = 0;
}

abbrev handler : Handler
handler = passthrough (hardware true true true) no_fallback

-- VMPTRLD fails.
start_fails_example :
    (r : Vcpu) × (start
        (hardware true false true)
        (passthrough (hardware true false true) no_fallback)
        fresh
      ≡ Run.done (r, some Error.permission_denied))
    × ((r.state ≡ State.terminated) × (r.cpu.vmx ≡ false) × (bit r.cpu.cr4 13 ≡ 0))
    × (r.cpu.cr3 ≡ 0)
    × (r.cpu.gdtr ≡ record { limit = 0; base_address = 0 })
    × (r.cpu.idtr ≡ record { limit = 0; base_address = 0 })
    × (r.cpu.cr0 ≡ adjust (hardware true false true).cr0_fixed cpu.cr0)
start_fails_example =
    start_fails (hardware true false true) no_fallback fresh (λ w. refl) false refl (λ w. refl)

start-passthrough_example :
    (w : Vcpu) × (start (hardware true true true) handler fresh ≡ Run.done (w, none))
    × ((w.state ≡ State.running) × (w.cpu.vmx ≡ true) × (w.cpu.vmcs_current ≡ true))
    × ((w.cpu.cr0 ≡ adjust (hardware true true true).cr0_fixed cpu.cr0)
        × (w.vmcs.guest_cr0 ≡ w.cpu.cr0))
    × ((w.cpu.cr4 ≡ adjust (hardware true true true).cr4_fixed cpu.cr4)
        × (w.vmcs.guest_cr4 ≡ w.cpu.cr4))
    × ((w.cpu.cr3 ≡ 5324800) × (w.vmcs.guest_cr3 ≡ 5324800))
    × ((w.cpu.gdtr ≡ cpu.gdtr) × (w.vmcs.guest_gdtr ≡ cpu.gdtr))
    × ((w.cpu.idtr ≡ cpu.idtr) × (w.vmcs.guest_idtr ≡ cpu.idtr))
    × ((w.cpu.rflags ≡ 582) × (w.vmcs.guest_rflags ≡ 582))
    × ((place : Caller) (length : ℕ)
        → (vm_exit w place length).cpu ≡ record w.cpu {
          cr3 = 1765376;
          gdtr = record { limit = 65535; base_address = 12345 };
          idtr = record { limit = 65535; base_address = 23456 };
          rflags = 2;
        })
    × ((w.vmcs.guest_rsp ≡ 32768) × (w.vmcs.host_rsp ≡ 32768))
start-passthrough_example =
    start-passthrough (hardware true true true) no_fallback fresh (λ w. refl) (λ w. refl)
      (λ w. refl)

-- The guest's VMCALL of another program, and of the one that stops it.
abbrev running : ℕ → Vcpu
running rcx = record fresh {
  state = State.running;
  cpu = record cpu { vmx = true; vmcs_current = true };
  vmcs = record vmcs {
    host_cr0 = 33;
    host_cr4 = 8224;
    guest_rip = 4096;
    guest_rsp = 8192;
    guest_rflags = 582;
  };
  context = record { rax = 0; rcx = rcx; rsp = 111; rip = 0; rflags = 222 };
  tsc_delta_sum = 1000;
}

abbrev entered : Vcpu
entered = record (running 43707) {
  tsc_entry = 50;
  suppress_rip_adjust = false;
  context = record { rax = 0; rcx = 43707; rsp = 8192; rip = 4096; rflags = 582 };
  machine_frame_rip = 4099;
  machine_frame_rsp = 8192;
}

entry_host_lem_example :
    (((enter_host (hardware true true true) handler (running 43707) 50).suppress_rip_adjust ≡ false)
      × ((enter_host (hardware true true true) handler (running 43707) 50).context
          ≡ record { rax = 0; rcx = 43707; rsp = 8192; rip = 4096; rflags = 582 }))
    × ((r : Vcpu) × (entry_host (hardware true true true) handler (running 43707) 50 70
          ≡ Run.done r)
        × (r.vmcs ≡ record (running 43707).vmcs {
          guest_rsp = 8192;
          guest_rflags = 582;
          guest_rip = 4099;
        })
        × (r.context ≡ record { rax = 0; rcx = 43707; rsp = 111; rip = 3000; rflags = 222 })
        × (r.tsc_delta_previous ≡ 20)
        × (r.tsc_delta_sum ≡ 1020))
unfolding enter_host handle_execute_vmcall handled
entry_host_lem_example =
    entry_host_lem (hardware true true true) handler (running 43707) entered entered false 50 70
      refl refl refl refl refl (refl, refl)

stop_lem_example :
    (w : Vcpu) × (stop (terminate (hardware true true true) no_fallback 50 70) (running 0)
      ≡ Run.done w)
    × ((w.state ≡ State.terminated) × (w.cpu.vmx ≡ false) × (bit w.cpu.cr4 13 ≡ 0))
    × (w.context.rip ≡ 4099)
    × (w.context.rsp ≡ 8192)
    × (w.context.rflags ≡ 582)
    × (w.cpu.cr3 ≡ 5324800)
    × ((w.cpu.gdtr ≡ cpu.gdtr) × (w.cpu.idtr ≡ cpu.idtr))
    × (w.cpu.cr0 ≡ 33)
stop_lem_example = stop_lem (hardware true true true) no_fallback (running 0) 50 70 refl refl refl
