-- ===== src/Hypervisor/Tests.antt =====
-- The theorems on the start of the hypervisor, at concrete inputs.
use hvpp.Prelude.{◌≡◌, refl, ◌+◌, ◌*◌, ◌^◌, true, false, none, Option, List, [], ◌∷◌}
use hvpp.Prelude.Bits.{bit}
use hvpp.Vcpu.{Vcpu, Run}
use hvpp.Vcpu.Sample.{hardware, cpu, vmcs, no_fallback}
use hvpp.Hypervisor.{
  Global, StartError, Features, Processor, check_cpu_features, start, running_with,
}
use hvpp.Hypervisor.Start.{start_reports_nothing}
use hvpp.Hypervisor.Success.{start_lem, all_running}

abbrev features : Features
features = record {
  cpuid_ecx = 2 ^ 5;
  cr4 = 1784;
  vmx_basic = 2 ^ 55 + 6 * 2 ^ 50 + 4096 * 2 ^ 32;
  vmx_ept_vpid_cap = 2 ^ 26 + 2 ^ 20 + 2 ^ 16 + 2 ^ 14 + 2 ^ 6 + 1;
}

abbrev processor : Processor
processor = record { cpu = cpu; vmcs = vmcs; suppress_rip_adjust = false; locked = λ _. false }

abbrev idle : Global
idle = record { vcpu_list = none; running = false }

supported : check_cpu_features features ≡ true
unfolding check_cpu_features bit
supported = refl

start_lem_example :
    (ws : List Vcpu) × (start
        (hardware true true true)
        no_fallback
        idle
        (processor ∷ processor ∷ [])
        true
        none
        features
      ≡ Run.done (running_with ws, none))
    × (all_running ws ≡ true)
start_lem_example =
    start_lem (hardware true true true) no_fallback (λ w. refl) (λ w. refl) (λ w. refl) idle
      (processor ∷ processor ∷ []) features refl supported

start_reports_nothing_example :
    (◌≡◌ {A = Option StartError} none none) × ((running_with start_lem_example.0).running ≡ true)
start_reports_nothing_example =
    start_reports_nothing (hardware true true true) no_fallback idle
      (running_with start_lem_example.0) (processor ∷ processor ∷ []) features none refl supported
      start_lem_example.1
