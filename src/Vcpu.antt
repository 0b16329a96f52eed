-- ===== src/Vcpu.antt =====
-- The life of a virtual CPU: src/hvpp/hvpp/vcpu.cpp, and of src/hvpp/hvpp/vmexit/vmexit_passthrough.cpp
-- the functions that set it up and end it.
-- What the processor decides is in `Hardware`: whether its instructions succeed, the MSRs with the fixed
-- bits, and the addresses of the code and the stack. An instruction of VMX outside VMX operation raises
-- #UD, which ends a run. `vm_entry` and `vm_exit` are what the processor does with the guest's and the
-- host's fields of the VMCS; the bits of CR0 and CR4 that an exit does not load are taken to be alike in
-- both. The exit handler is in `Handler`, and a handler may end by a jump, `guest_resume`. Segment
-- registers other than the selector of CS, the MSR bitmap, the saving of the SSE registers and tracing
-- are left out, and `hvpp_assert` does nothing.
pub mod Start
pub mod Exit
pub mod Stop
pub mod Sample
mod Tests
use hvpp.Prelude.{
  ℕ, ◌+◌, ◌/◌, ◌%◌, ◌^◌, bit_and, bit_or, Bool, true, false, ◌&&◌, Option, none, some, List, [],
  ◌∷◌, ◌==◌, if◌then◌else◌, add64, sub64, not64,
}
use hvpp.Segment.{DescriptorTable}

-- `vcpu_t::state`
pub data State : Type 0 where
  off initializing launching running terminating terminated : State

abbrev pub code : State → ℕ
code State.off = 0
code State.initializing = 1
code State.launching = 2
code State.running = 3
code State.terminating = 4
code State.terminated = 5

abbrev pub is_state : State → State → Bool
is_state a b = code a == code b

-- `std::errc`
pub data Error : Type 0 where
  permission_denied operation_not_permitted : Error

-- The registers of the processor, whether it is in VMX operation, and whether a VMCS is current there.
pub record Cpu : Type 0 where
  pub cr0 : ℕ
  pub cr3 : ℕ
  pub cr4 : ℕ
  pub gdtr : DescriptorTable
  pub idtr : DescriptorTable
  pub rflags : ℕ
  pub vmx : Bool
  pub vmcs_current : Bool

-- the fields of the VMCS
pub record Vmcs : Type 0 where
  pub host_cr0 : ℕ
  pub host_cr3 : ℕ
  pub host_cr4 : ℕ
  pub host_gdtr_base : ℕ
  pub host_idtr_base : ℕ
  pub host_rsp : ℕ
  pub host_rip : ℕ
  pub vcpu_id : ℕ
  pub vmcs_link_pointer : ℕ
  pub pin_based_controls : ℕ
  pub processor_based_controls : ℕ
  pub processor_based_controls2 : ℕ
  pub vm_entry_controls : ℕ
  pub vm_exit_controls : ℕ
  pub cr0_shadow : ℕ
  pub cr4_shadow : ℕ
  pub guest_cr0 : ℕ
  pub guest_cr3 : ℕ
  pub guest_cr4 : ℕ
  pub guest_gdtr : DescriptorTable
  pub guest_idtr : DescriptorTable
  pub guest_rsp : ℕ
  pub guest_rip : ℕ
  pub guest_rflags : ℕ
  pub guest_cs : ℕ
  pub exit_instruction_length : ℕ

-- `context_t`, whose `context_` shares its memory with `launch_context_`
pub record Context : Type 0 where
  pub rax : ℕ
  pub rcx : ℕ
  pub rsp : ℕ
  pub rip : ℕ
  pub rflags : ℕ

pub record Vcpu : Type 0 where
  pub state : State
  pub cpu : Cpu
  pub vmcs : Vmcs
  pub context : Context
  pub suppress_rip_adjust : Bool
  pub spinlock_queue : List ℕ
  pub locked : ℕ → Bool
  pub machine_frame_rip : ℕ
  pub machine_frame_rsp : ℕ
  pub tsc_entry : ℕ
  pub tsc_delta_previous : ℕ
  pub tsc_delta_sum : ℕ
  pub user_data : ℕ

-- A run ends with a value or with #UD.
pub data Run {ℓ} (A : Type ℓ) : Type ℓ where
  done : A → Run A
  undefined_opcode : Run A

infixl 1 ◌>>=◌
abbrev pub ◌>>=◌ {ℓ κ} : {A : Type ℓ} {B : Type κ} → Run A → (A → Run B) → Run B
Run.done a >>= f = f a
Run.undefined_opcode >>= f = Run.undefined_opcode

-- an instruction of VMX, such as `vmread`
abbrev pub vmx_only {ℓ} : {A : Type ℓ} → Vcpu → A → Run A
vmx_only v a = if v.cpu.vmx then Run.done a else Run.undefined_opcode

-- `Controls` are an MSR's `allowed_0_settings` and `allowed_1_settings`, or two MSRs of fixed bits.
pub record Controls : Type 0 where
  pub allowed_0 : ℕ
  pub allowed_1 : ℕ

-- `vmx::adjust` of control registers and of controls
pub adjust : Controls → ℕ → ℕ
adjust c desired = bit_and (bit_or desired c.allowed_0) c.allowed_1

-- where `terminate` executes VMCALL, and the stack pointer and the selector of CS there
pub record Caller : Type 0 where
  pub rip : ℕ
  pub rsp : ℕ
  pub cs : ℕ

pub record Hardware : Type 0 where
  pub caller : Vcpu → Caller
  pub vmxon : Vcpu → Bool
  pub vmclear : Vcpu → Bool
  pub vmptrld : Vcpu → Bool
  pub vmlaunch : Vcpu → Bool
  pub cr0_fixed : Controls
  pub cr4_fixed : Controls
  pub pinbased_ctls : Controls
  pub procbased_ctls : Controls
  pub procbased_ctls2 : Controls
  pub entry_ctls : Controls
  pub exit_ctls : Controls
  pub system_cr3 : ℕ
  pub stack_end : ℕ
  pub entry_host_address : ℕ
  pub entry_guest_address : ℕ
  pub vmresume_address : ℕ

-- `vmexit_handler`; `handle` also says whether it ended by `guest_resume`, and
-- `terminate` is a parameter of `stop`.
pub record Handler : Type 0 where
  pub setup : Vcpu → Vcpu × Option Error
  pub teardown : Vcpu → Vcpu
  pub handle : Vcpu → Run (Vcpu × Bool)
  pub handle_guest_resume : Vcpu → Bool → Vcpu

-- `if (auto err = ...) { return err; }`
abbrev pub and_then : Vcpu × Option Error → (Vcpu → Vcpu × Option Error) → Vcpu × Option Error
and_then (v, none) f = f v
and_then (v, some e) f = (v, some e)

-- VMREAD, which gives 0 where no VMCS is current: the wrapper of src/hvpp/hvpp/ia32/vmx.h clears its
-- buffer first, and nobody looks at the error.
pub vmread : Vcpu → (Vmcs → ℕ) → ℕ
vmread v field = if v.cpu.vmcs_current then field v.vmcs else 0

-- `guest_gdtr` and `guest_idtr`
pub vmread_table : Vcpu → (Vmcs → DescriptorTable) → DescriptorTable
vmread_table v field = record {
  limit = vmread v (λ m. (field m).limit);
  base_address = vmread v (λ m. (field m).base_address);
}

-- The processor enters the guest with the registers of the VMCS.
pub vm_entry : Vcpu → Vcpu
vm_entry v = record v {
  cpu = record v.cpu {
    cr0 = v.vmcs.guest_cr0;
    cr3 = v.vmcs.guest_cr3;
    cr4 = v.vmcs.guest_cr4;
    gdtr = v.vmcs.guest_gdtr;
    idtr = v.vmcs.guest_idtr;
    rflags = v.vmcs.guest_rflags;
  };
}

-- The processor leaves the guest at an instruction of a length: it saves the guest's registers, and loads
-- those of the host, with both limits at 0xffff.
pub vm_exit : Vcpu → Caller → ℕ → Vcpu
vm_exit v place length = record v {
  vmcs = record v.vmcs {
    guest_cr0 = v.cpu.cr0;
    guest_cr3 = v.cpu.cr3;
    guest_cr4 = v.cpu.cr4;
    guest_gdtr = v.cpu.gdtr;
    guest_idtr = v.cpu.idtr;
    guest_rsp = place.rsp;
    guest_rip = place.rip;
    guest_rflags = v.cpu.rflags;
    guest_cs = place.cs;
    exit_instruction_length = length;
  };
  cpu = record v.cpu {
    cr0 = v.vmcs.host_cr0;
    cr3 = v.vmcs.host_cr3;
    cr4 = v.vmcs.host_cr4;
    gdtr = record { limit = 65535; base_address = v.vmcs.host_gdtr_base };
    idtr = record { limit = 65535; base_address = v.vmcs.host_idtr_base };
    rflags = 2;
  };
}

module _ (hw : Hardware) where
  pub load_vmxon : Vcpu → Vcpu × Option Error
  load_vmxon v =
      let v' = record v {
        cpu = record v.cpu {
          cr0 = adjust hw.cr0_fixed v.cpu.cr0;
          cr4 = adjust hw.cr4_fixed v.cpu.cr4;
        };
      } in
      if hw.vmxon v'
      then (
        record v' {
          state = State.initializing;
          cpu = record v'.cpu { vmx = true; vmcs_current = false };
        },
        none,
      )
      else (v', some Error.permission_denied)

  pub load_vmcs : Vcpu → Vcpu × Option Error
  load_vmcs v =
      if hw.vmclear v && hw.vmptrld v
      then (record v { cpu = record v.cpu { vmcs_current = true } }, none)
      else (v, some Error.permission_denied)

  pub setup_host : Vcpu → Vcpu × Option Error
  setup_host v = (
    record v {
      vmcs = record v.vmcs {
        host_gdtr_base = v.cpu.gdtr.base_address;
        host_idtr_base = v.cpu.idtr.base_address;
        host_cr0 = v.cpu.cr0;
        host_cr3 = hw.system_cr3;
        host_cr4 = v.cpu.cr4;
        host_rsp = hw.stack_end;
        host_rip = hw.entry_host_address;
      };
    },
    none,
  )

  pub setup_guest : Vcpu → Vcpu × Option Error
  setup_guest v = (
    record v {
      vmcs = record v.vmcs {
        vcpu_id = 1;
        vmcs_link_pointer = not64 0;
        pin_based_controls = adjust hw.pinbased_ctls 0;
        processor_based_controls = adjust hw.procbased_ctls (2 ^ 31 + 2 ^ 28);
        processor_based_controls2 = adjust hw.procbased_ctls2 (2 ^ 5 + 2 ^ 3 + 2 ^ 20 + 2 ^ 12);
        vm_entry_controls = adjust hw.entry_ctls (2 ^ 9);
        vm_exit_controls = adjust hw.exit_ctls (2 ^ 9);
        guest_rsp = hw.stack_end;
        guest_rip = hw.entry_guest_address;
      };
    },
    none,
  )

-- `entry_guest`, and `restore`, which gives `start` the value of `rax`
pub entry_guest : Vcpu → Vcpu
entry_guest v = record v { context = record v.context { rax = code State.launching } }

-- the `ept_` functions
abbrev pub enable_ept : ℕ
enable_ept = 2 ^ 1

pub ept_enable : Hardware → Vcpu → Vcpu
ept_enable hw v = record v {
  vmcs = record v.vmcs {
    processor_based_controls2 =
        adjust hw.procbased_ctls2 (bit_or v.vmcs.processor_based_controls2 enable_ept);
  };
}

pub ept_disable : Hardware → Vcpu → Vcpu
ept_disable hw v = record v {
  vmcs = record v.vmcs {
    processor_based_controls2 =
        adjust hw.procbased_ctls2 (bit_and v.vmcs.processor_based_controls2 (not64 enable_ept));
  };
}

pub ept_is_enabled : Vcpu → Bool
ept_is_enabled v = v.vmcs.processor_based_controls2 / enable_ept % 2 == 1

-- The registers that `vmx_leave` gives back, unless no exit can have happened.
pub restore_guest : Vcpu → Run Vcpu
restore_guest v =
    if is_state v.state State.initializing
    then Run.done v
    else vmx_only v (record v {
      context = record v.context {
        rip = add64 v.context.rip (vmread v (λ m. m.exit_instruction_length));
      };
      cpu = record v.cpu {
        gdtr = vmread_table v (λ m. m.guest_gdtr);
        idtr = vmread_table v (λ m. m.guest_idtr);
        cr3 = vmread v (λ m. m.guest_cr3);
      };
    })

-- `invvpid`, `invept` and `vmxoff` are instructions of VMX; `vmx_enable` is bit 13 of CR4.
pub vmx_leave : (Vcpu → Vcpu) → Vcpu → Run Vcpu
vmx_leave teardown v = do
  v' ← restore_guest v
  vmx_only v' (
      teardown record v' {
        cpu = record v'.cpu {
          vmx = false;
          vmcs_current = false;
          cr4 = bit_and v'.cpu.cr4 (not64 (2 ^ 13));
        };
        state = State.terminated;
      })

-- The locks that `stacked_lock_guard_push` takes, the last one first.
pub stacked_lock_guard_push : Vcpu → ℕ → Vcpu
stacked_lock_guard_push v lock = record v {
  locked = λ i. if i == lock then true else v.locked i;
  spinlock_queue = lock ∷ v.spinlock_queue;
}

abbrev pub unlock : Vcpu → ℕ → List ℕ → Vcpu
unlock v lock rest = record v {
  locked = λ i. if i == lock then false else v.locked i;
  spinlock_queue = rest;
}

pub stacked_lock_guard_pop : Vcpu → Vcpu
stacked_lock_guard_pop v = elim v.spinlock_queue [ [] ↦ v | lock ∷ rest ↦ unlock v lock rest ]

-- `while (spinlock_queue_.size())`, as many rounds as there are locks
pub pop_loop : List ℕ → Vcpu → Vcpu
pop_loop [] v = v
pop_loop (_ ∷ queue) v = pop_loop queue (stacked_lock_guard_pop v)

module _ (hw : Hardware) (handler : Handler) where
  pub vmx_enter : Vcpu → Vcpu × Option Error
  vmx_enter v =
      and_then
        (and_then (and_then (and_then (load_vmxon hw v) (load_vmcs hw)) (setup_host hw))
          (setup_guest hw))
        handler.setup

  -- Also `handle_vmx_enter_error`, which only calls it, and `handle_vmx_launch_error`, which reads the
  -- error from the VMCS first, for its message.
  pub handle_common_error : Vcpu → Error → Run (Vcpu × Option Error)
  handle_common_error v err = do
    v' ← vmx_leave handler.teardown (record v { state = State.terminated })
    Run.done (v', some err)

  -- `start` when `capture` has returned the value of `rax`; only `entry_guest` makes it return again.
  pub start_again : Vcpu → Run (Vcpu × Option Error)
  start_again v =
      if v.context.rax == code State.launching
      then Run.done (record v { state = State.running }, none)
      else Run.done (v, some Error.permission_denied)

  -- `start` from the result of `vmx_enter` on
  pub launch : Vcpu × Option Error → Run (Vcpu × Option Error)
  launch (v, some err) = handle_common_error v err
  launch (v, none) = elim (hw.vmlaunch v) [
    | true ↦ start_again (entry_guest (vm_entry v))
    | false ↦ handle_common_error v Error.permission_denied
  ]

  -- `start` when `capture` has returned 0
  pub start : Vcpu → Run (Vcpu × Option Error)
  start v = launch (vmx_enter v)

  -- `entry_host` up to the call of the handler, at the time `now`
  pub enter_host : Vcpu → ℕ → Vcpu
  enter_host v now = record v {
    tsc_entry = now;
    suppress_rip_adjust = false;
    context = record v.context {
      rsp = v.vmcs.guest_rsp;
      rip = v.vmcs.guest_rip;
      rflags = v.vmcs.guest_rflags;
    };
    machine_frame_rip = add64 v.vmcs.guest_rip v.vmcs.exit_instruction_length;
    machine_frame_rsp = v.vmcs.guest_rsp;
  }

  -- what the handler and `handle_guest_resume` do
  pub handled : Vcpu × Bool → Vcpu
  handled (v, true) = handler.handle_guest_resume (pop_loop v.spinlock_queue v) true
  handled (v, false) =
      if is_state v.state State.terminated then v else handler.handle_guest_resume v false

  -- The way back into the guest; `rsp` and `rflags` are those of the host at the entry.
  pub resume : Vcpu → ℕ → ℕ → Vcpu
  resume v rsp rflags = record v {
    vmcs = record v.vmcs {
      guest_rsp = v.context.rsp;
      guest_rip =
          if v.suppress_rip_adjust
          then v.context.rip
          else add64 v.context.rip v.vmcs.exit_instruction_length;
      guest_rflags = v.context.rflags;
    };
    context = record v.context { rsp = rsp; rflags = rflags; rip = hw.vmresume_address };
  }

  pub add_time : Vcpu → ℕ → Vcpu
  add_time v now = record v {
    tsc_delta_previous = sub64 now v.tsc_entry;
    tsc_delta_sum = add64 v.tsc_delta_sum (sub64 now v.tsc_entry);
  }

  -- `entry_host` after the handlers, where `w` is the state then and `v` the one at the entry
  pub leave_host : Vcpu → Vcpu → ℕ → Run Vcpu
  leave_host v w later =
      if is_state w.state State.terminated
      then Run.done (add_time w later)
      else vmx_only w (add_time (resume w v.context.rsp v.context.rflags) later)

  -- `entry_host` between two readings of the time-stamp counter
  pub entry_host : Vcpu → ℕ → ℕ → Run Vcpu
  entry_host v now later = do
    entered ← vmx_only v (enter_host v now)
    outcome ← handler.handle entered
    leave_host v (handled outcome) later

-- `stop` with the handler's `terminate`
pub stop : (Vcpu → Run Vcpu) → Vcpu → Run Vcpu
stop terminate v = terminate (record v { state = State.terminating })

-- `vmexit_passthrough_handler`: an exit that a VMCALL causes. `vm_fallback` is the injection of #UD, which
-- is part of event injection, and stopping in a debugger changes nothing.
abbrev pub vmcall_terminate_id : ℕ
vmcall_terminate_id = 57005

abbrev pub vmcall_breakpoint_id : ℕ
vmcall_breakpoint_id = 43707

pub passthrough_setup : Vcpu → Vcpu × Option Error
passthrough_setup v = (
  record v {
    vmcs = record v.vmcs {
      cr0_shadow = v.cpu.cr0;
      cr4_shadow = v.cpu.cr4;
      guest_cr0 = v.cpu.cr0;
      guest_cr3 = v.cpu.cr3;
      guest_cr4 = v.cpu.cr4;
      guest_rflags = v.cpu.rflags;
      guest_gdtr = v.cpu.gdtr;
      guest_idtr = v.cpu.idtr;
    };
  },
  none,
)

module _ (hw : Hardware) (vm_fallback : Vcpu → Vcpu) where
  pub handle_execute_vmcall : Vcpu → Run Vcpu
  handle_execute_vmcall v =
      if v.context.rcx == vmcall_terminate_id && v.vmcs.guest_cs % 4 == 0
      then vmx_leave (λ w. w) v
      else if v.context.rcx == vmcall_breakpoint_id
      then Run.done v
      else Run.done (vm_fallback v)

  abbrev pub passthrough : Handler
  passthrough = record {
    setup = passthrough_setup;
    teardown = λ v. v;
    handle = λ v. handle_execute_vmcall v >>= λ w. Run.done (w, false);
    handle_guest_resume = λ v _. v;
  }

  -- `terminate`: the guest's VMCALL, an instruction of 3 bytes, leaves the guest, and `entry_host` runs.
  pub terminate : ℕ → ℕ → Vcpu → Run Vcpu
  terminate now later v = do
    called ← vmx_only v (
        vm_exit (record v { context = record v.context { rcx = vmcall_terminate_id } })
          (hw.caller v) 3)
    entry_host hw passthrough called now later
