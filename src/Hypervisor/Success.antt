-- ===== src/Hypervisor/Success.antt =====
-- The start of the hypervisor where every instruction of VMX succeeds.
use hvpp.Prelude.{◌≡◌, refl, ◌∙◌, Bool, true, false, ◌&&◌, none, List, [], ◌∷◌, map}
use hvpp.Vcpu.{State, Vcpu, Run, Hardware, is_state}
use hvpp.Vcpu.Start.{start-passthrough}
use hvpp.Hypervisor.{
  Global, Features, Processor, check_cpu_features, construct, compare_exchange, start_all,
  launch_all, start, running_with,
}
use hvpp.Hypervisor.Start.{start_all-step}

-- Every virtual CPU is running, in VMX operation.
pub all_running : List Vcpu → Bool
all_running [] = true
all_running (v ∷ vs) = is_state v.state State.running && v.cpu.vmx && all_running vs

module _ (hw : Hardware) (vm_fallback : Vcpu → Vcpu) (on : (w : Vcpu) → hw.vmxon w ≡ true)
    (loads : (w : Vcpu) → (hw.vmclear w && hw.vmptrld w) ≡ true)
    (launches : (w : Vcpu) → hw.vmlaunch w ≡ true) where
  start_all-running :
      (vs : List Vcpu)
      → (ws : List Vcpu) × (start_all hw vm_fallback none vs ≡ Run.done (ws, none))
        × (all_running ws ≡ true)
  unfolding start_all all_running compare_exchange
  start_all-running [] = ([], refl, refl)
  start_all-running (v ∷ vs) =
      let one = start-passthrough hw vm_fallback v on loads launches in
      let rest = start_all-running vs in
      (
        one.0 ∷ rest.0,
        start_all-step hw vm_fallback none none v one.0 vs one.1 ∙ rw rest.1 refl,
        rw one.2.0 (rw one.2.1 rest.2),
      )

  pub start_lem :
      (g : Global) (processors : List Processor) (features : Features)
      → g.running ≡ false
      → check_cpu_features features ≡ true
      → (ws : List Vcpu) × (start hw vm_fallback g processors true none features
          ≡ Run.done (running_with ws, none))
        × (all_running ws ≡ true)
  unfolding start launch_all
  start_lem g processors features r f =
      let all = start_all-running (map construct processors) in
      (all.0, rw r (rw f (rw all.1 refl)), all.2)
