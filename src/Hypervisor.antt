-- ===== src/Hypervisor.antt =====
-- src/hvpp/hvpp/hypervisor.cpp: the start and the stop of the virtual CPUs of all processors.
-- An inter-processor call is a run over the processors one after the other, in the order of the list; each
-- has its own virtual CPU, which the constructor of src/hvpp/hvpp/vcpu.cpp makes. Whether the memory for
-- them is there, and what the default allocator's set-up says, are parameters, as is the passthrough
-- handler's injection of #UD. `hvpp_assert` does nothing.
pub mod Start
pub mod Success
mod Tests
use hvpp.Prelude.{
  ℕ, ◌/◌, ◌%◌, ◌^◌, Bool, true, false, not, ◌&&◌, ◌||◌, Option, none, some, List, [], ◌∷◌, map, ltb,
  ◌==◌, if◌then◌else◌,
}
use hvpp.Prelude.Bits.{bit}
use hvpp.Vcpu
use hvpp.Vcpu.{State, Error, Cpu, Vmcs, Vcpu, Run, Hardware, Handler, passthrough, terminate, ◌>>=◌}

-- the registers that `check_cpu_features` reads
pub record Features : Type 0 where
  pub cpuid_ecx : ℕ
  pub cr4 : ℕ
  pub vmx_basic : ℕ
  pub vmx_ept_vpid_cap : ℕ

pub check_cpu_features : Features → Bool
check_cpu_features f =
    bit f.cpuid_ecx 5 == 1
    && not (bit f.cr4 13 == 1)
    && not (
        ltb 4096 (f.vmx_basic / 2 ^ 32 % 2 ^ 13)
        || not (f.vmx_basic / 2 ^ 50 % 2 ^ 4 == 6)
        || not (bit f.vmx_basic 55 == 1))
    && bit f.vmx_ept_vpid_cap 6 == 1
    && bit f.vmx_ept_vpid_cap 14 == 1
    && bit f.vmx_ept_vpid_cap 20 == 1
    && bit f.vmx_ept_vpid_cap 26 == 1
    && bit f.vmx_ept_vpid_cap 0 == 1
    && bit f.vmx_ept_vpid_cap 16 == 1

-- `global_t`
pub record Global : Type 0 where
  pub vcpu_list : Option (List Vcpu)
  pub running : Bool

abbrev pub running_with : List Vcpu → Global
running_with vs = record { vcpu_list = some vs; running = true }

-- The errors of `start`: its own, and those of a virtual CPU or of the allocator.
pub data StartError : Type 0 where
  operation_not_permitted not_enough_memory not_supported : StartError
  other : Error → StartError

-- What is on a processor before the start: its registers, and whatever its VMCS fields and its
-- uninitialised members hold.
pub record Processor : Type 0 where
  pub cpu : Cpu
  pub vmcs : Vmcs
  pub suppress_rip_adjust : Bool
  pub locked : ℕ → Bool

-- `vcpu_t::vcpu_t`
pub construct : Processor → Vcpu
construct p = record {
  state = State.off;
  cpu = p.cpu;
  vmcs = p.vmcs;
  context = record { rax = 0; rcx = 0; rsp = 0; rip = 0; rflags = 0 };
  suppress_rip_adjust = p.suppress_rip_adjust;
  spinlock_queue = [];
  locked = p.locked;
  machine_frame_rip = 0;
  machine_frame_rsp = 0;
  tsc_entry = 0;
  tsc_delta_previous = 0;
  tsc_delta_sum = 0;
  user_data = 0;
}

-- `compare_exchange_strong` with no error as the expected value
pub compare_exchange : Option Error → Option Error → Option Error
compare_exchange none err = err
compare_exchange (some e) err = some e

module _ (hw : Hardware) (vm_fallback : Vcpu → Vcpu) where
  pub start_all : Option Error → List Vcpu → Run (List Vcpu × Option Error)
  start_all start_err [] = Run.done ([], start_err)
  start_all start_err (v ∷ vs) = do
    (v', err) ← Vcpu.start hw (passthrough hw vm_fallback) v
    (vs', last) ← start_all (compare_exchange start_err err) vs
    Run.done (v' ∷ vs', last)

  -- The second call of `stop`; the time-stamp counter stands still.
  pub stop_all : List Vcpu → Run (List Vcpu)
  stop_all [] = Run.done []
  stop_all (v ∷ vs) = do
    v' ← Vcpu.stop (terminate hw vm_fallback 0 0) v
    vs' ← stop_all vs
    Run.done (v' ∷ vs')

  -- `stop`, where the list has been made
  pub stop : Global → Run Global
  stop g = if not g.running then Run.done g else elim g.vcpu_list [
    | none ↦ Run.done g
    | some vs ↦ stop_all vs >>= λ _. Run.done record { vcpu_list = none; running = false }
  ]

  -- `start` from the inter-processor call on
  pub launch_all : List Vcpu → Run (Global × Option StartError)
  launch_all vs = do
    (vs', err) ← start_all none vs
    elim err [
      | none ↦ Run.done (running_with vs', none)
      | some e ↦ stop (running_with vs') >>= λ g'. Run.done (g', some (StartError.other e))
    ]

  pub start :
      Global → List Processor → Bool → Option Error → Features → Run (Global × Option StartError)
  start g processors memory allocator_error features =
      if g.running
      then Run.done (g, some StartError.operation_not_permitted)
      else if not memory
      then Run.done (record g { vcpu_list = none }, some StartError.not_enough_memory)
      else elim allocator_error [
        | some e ↦ Run.done (made, some (StartError.other e))
        | none ↦
            if not (check_cpu_features features)
            then Run.done (made, some StartError.not_supported)
            else launch_all (map construct processors)
      ]
    where
      made : Global
      made = record g { vcpu_list = some (map construct processors) }
