-- ===== src/Hypervisor/Start.antt =====
-- What the start of the hypervisor can answer.
use hvpp.Prelude.{
  ◌≡◌, refl, ap, sym, ◌∙◌, Bool, true, false, Option, none, some, List, [], ◌∷◌, map, arith, inl,
  inr, ◌⊎◌,
}
use hvpp.Vcpu
use hvpp.Vcpu.{
  State, Error, Vcpu, Run, Hardware, passthrough, vmx_enter, vmx_leave, handle_common_error, launch,
  start_again, entry_guest, terminate, ◌>>=◌,
}
use hvpp.Vcpu.Start.{left, start-cases}
use hvpp.Vcpu.Stop.{stop_fault}
use hvpp.Hypervisor.{
  Global, StartError, Features, Processor, check_cpu_features, construct, compare_exchange,
  start_all, stop_all, stop, launch_all, start, running_with,
}

value : {A : Type 0} → A → Run A → A
value d (Run.done a) = a
value d Run.undefined_opcode = d

is_done : {A : Type 0} → Run A → Bool
is_done (Run.done a) = true
is_done Run.undefined_opcode = false

done_inj : {A : Type 0} (a b : A) → ◌≡◌ {A = Run A} (Run.done a) (Run.done b) → a ≡ b
unfolding value
done_inj a b e = ap (value a) e

fault-ne-done :
    {A : Type 0} (a : A) → ◌≡◌ {A = Run A} Run.undefined_opcode (Run.done a) → true ≡ false
unfolding is_done
fault-ne-done a e = sym (ap is_done e)

true-ne-false : true ≡ false → {A : Type 0} → A
true-ne-false e = absurd (ground (arith, e))

-- A fault after any run is a fault.
fault-after :
    {A B : Type 0} (x : Run A) (f : A → Run B)
    → ((a : A) → f a ≡ Run.undefined_opcode)
    → (x >>= f) ≡ Run.undefined_opcode
fault-after (Run.done a) f h = h a
fault-after Run.undefined_opcode f h = refl

module _ (hw : Hardware) (vm_fallback : Vcpu → Vcpu) where
  abbrev start_one : Vcpu → Run (Vcpu × Option Error)
  start_one = Vcpu.start hw (passthrough hw vm_fallback)

  start_one_cases :
      (v : Vcpu)
      → (start_one v ≡ Run.undefined_opcode)
        ⊎ (((w : Vcpu) × (e : Error) × (start_one v ≡ Run.done (left w, some e)))
            ⊎ ((w : Vcpu) × (start_one v ≡ Run.done (w, none))))
  start_one_cases v = start-cases hw (passthrough hw vm_fallback) v

  abbrev rest_of : Vcpu → List Vcpu × Option Error → Run (List Vcpu × Option Error)
  rest_of w (ws, last) = Run.done (w ∷ ws, last)

  pub start_all-step :
      (acc err : Option Error) (v w : Vcpu) (vs : List Vcpu)
      → start_one v ≡ Run.done (w, err)
      → start_all hw vm_fallback acc (v ∷ vs)
        ≡ (start_all hw vm_fallback (compare_exchange acc err) vs >>= rest_of w)
  unfolding start_all
  start_all-step acc err v w vs h = rw h refl

  keeps_after :
      (e : Error) (v w : Vcpu) (vs : List Vcpu) (err : Option Error)
      → start_one v ≡ Run.done (w, err)
      → (start_all hw vm_fallback (some e) vs ≡ Run.undefined_opcode)
        ⊎ ((ws : List Vcpu) × (start_all hw vm_fallback (some e) vs ≡ Run.done (ws, some e)))
      → (start_all hw vm_fallback (some e) (v ∷ vs) ≡ Run.undefined_opcode)
        ⊎ ((ws : List Vcpu) × (start_all hw vm_fallback (some e) (v ∷ vs) ≡ Run.done (ws, some e)))
  unfolding compare_exchange
  keeps_after e v w vs err h (inl u) =
      inl (start_all-step (some e) err v w vs h ∙ ap (λ x. x >>= rest_of w) u)
  keeps_after e v w vs err h (inr (ws, d)) =
      inr (w ∷ ws, start_all-step (some e) err v w vs h ∙ ap (λ x. x >>= rest_of w) d)

  -- After an error the others start as well, and the error stays.
  start_all-keeps :
      (e : Error) (vs : List Vcpu)
      → (start_all hw vm_fallback (some e) vs ≡ Run.undefined_opcode)
        ⊎ ((ws : List Vcpu) × (start_all hw vm_fallback (some e) vs ≡ Run.done (ws, some e)))
  unfolding start_all compare_exchange
  start_all-keeps e [] = inr ([], refl)
  start_all-keeps e (v ∷ vs) = elim (start_one_cases v) [
    | inl h ↦ inl (rw h refl)
    | inr (inl (w, err, h)) ↦ keeps_after e v (left w) vs (some err) h (start_all-keeps e vs)
    | inr (inr (w, h)) ↦ keeps_after e v w vs none h (start_all-keeps e vs)
  ]

  stop_all-fault :
      (w : Vcpu) (ws : List Vcpu)
      → (w.cpu.vmx ≡ false) ⊎ (stop_all hw vm_fallback ws ≡ Run.undefined_opcode)
      → stop_all hw vm_fallback (w ∷ ws) ≡ Run.undefined_opcode
  unfolding stop_all
  stop_all-fault w ws (inl h) = rw (stop_fault hw vm_fallback w 0 0 h) refl
  stop_all-fault w ws (inr h) =
      fault-after (Vcpu.stop (terminate hw vm_fallback 0 0) w)
        (λ w'. stop_all hw vm_fallback ws >>= λ ws'. Run.done (w' ∷ ws')) (λ w'. rw h refl)

  -- The ends of all starts: #UD; no error; or an error, and then a processor is outside VMX operation.
  start_all_cases :
      (vs : List Vcpu)
      → (start_all hw vm_fallback none vs ≡ Run.undefined_opcode)
        ⊎ (((ws : List Vcpu) × (e : Error) × (start_all hw vm_fallback none vs
                ≡ Run.done (ws, some e))
              × (stop_all hw vm_fallback ws ≡ Run.undefined_opcode))
            ⊎ ((ws : List Vcpu) × (start_all hw vm_fallback none vs ≡ Run.done (ws, none))))
  unfolding start_all compare_exchange left
  start_all_cases [] = inr (inr ([], refl))
  start_all_cases (v ∷ vs) = elim (start_one_cases v) [
    | inl h ↦ inl (rw h refl)
    | inr (inl (w, e, h)) ↦ elim (start_all-keeps e vs) [
      | inl u ↦
          inl (start_all-step none (some e) v (left w) vs h ∙ ap (λ x. x >>= rest_of (left w)) u)
      | inr (ws, d) ↦ inr (
          inl (
            left w ∷ ws,
            e,
            start_all-step none (some e) v (left w) vs h ∙ ap (λ x. x >>= rest_of (left w)) d,
            stop_all-fault (left w) ws (inl refl),
          ))
    ]
    | inr (inr (w, h)) ↦ elim (start_all_cases vs) [
      | inl u ↦ inl (start_all-step none none v w vs h ∙ ap (λ x. x >>= rest_of w) u)
      | inr (inl (ws, e, d, f)) ↦ inr (
          inl (
            w ∷ ws,
            e,
            start_all-step none none v w vs h ∙ ap (λ x. x >>= rest_of w) d,
            stop_all-fault w ws (inr f),
          ))
      | inr (inr (ws, d)) ↦
          inr (inr (w ∷ ws, start_all-step none none v w vs h ∙ ap (λ x. x >>= rest_of w) d))
    ]
  ]

  pub start_reports_nothing :
      (g g' : Global) (processors : List Processor) (features : Features) (err : Option StartError)
      → g.running ≡ false
      → check_cpu_features features ≡ true
      → start hw vm_fallback g processors true none features ≡ Run.done (g', err)
      → (err ≡ none) × (g'.running ≡ true)
  unfolding start launch_all stop
  start_reports_nothing g g' processors features err r f h =
      elim (start_all_cases (map construct processors)) [
        | inl u ↦ true-ne-false (fault-ne-done (g', err) (sym (launched ∙ rw u refl) ∙ h))
        | inr (inl (ws, e, d, q)) ↦
            true-ne-false (fault-ne-done (g', err) (sym (launched ∙ rw d (rw q refl)) ∙ h))
        | inr (inr (ws, d)) ↦
            let same =
              done_inj (running_with ws, none) (g', err) (sym (launched ∙ rw d refl) ∙ h) in
            (ap (λ x. x.1) (sym same), ap (λ x. x.0.running) (sym same))
      ]
    where
      launched :
          start hw vm_fallback g processors true none features
          ≡ launch_all hw vm_fallback (map construct processors)
      launched = rw r (rw f refl)
