-- ===== src/Vmexit/Tests.antt =====
-- RDTSC, executed and recognised.
use hvpp.Prelude.{ℕ, ◌+◌, ◌≡◌, refl, true, false, [], ◌∷◌}
use hvpp.Vmexit.{Guest, handle_execute_rdtsc}
use hvpp.Vmexit.Opcode.{skip_table, skip_prefixes, starts_with, is_rdtsc_instruction}

abbrev guest : ℕ → Guest
guest dr7 = record {
  gp_register = λ i. 100 + i;
  dr = λ i. 200 + i;
  guest_dr7 = dr7;
  guest_cr0 = 2147811385;
  cr0_shadow = 2147811385;
  guest_cr3 = 4096;
  guest_cr4 = 1784;
  cr4_shadow = 1784;
  cs_dpl = 0;
  injected = [];
  suppress_rip_adjust = false;
}

rdtsc_runs :
    ((handle_execute_rdtsc (guest 1024) 21474836487).gp_register 0 ≡ 7)
    × ((handle_execute_rdtsc (guest 1024) 21474836487).gp_register 2 ≡ 5)
unfolding handle_execute_rdtsc
rdtsc_runs = (refl, refl)

rdtsc_recognised : is_rdtsc_instruction (243 ∷ 15 ∷ 49 ∷ []) ≡ true
unfolding is_rdtsc_instruction skip_prefixes skip_table starts_with
rdtsc_recognised = refl
