-- ===== src/Stats/Tests.antt =====
-- The theorems on counters, at two processors.
use hvpp.Prelude.{ℕ, ◌<◌, ◌≡◌, refl, Bool, true, false, some, List, [], ◌∷◌, arith}
use hvpp.Vmexit.{CrAccess, DrAccess}
use hvpp.Vmexit.Reason.{ExitReason, code}
use hvpp.Emulate.{IoAccess}
use hvpp.Stats.{
  Array, Exit, Storage, size, handle, dump, zeros, detail, cpuid, msr, put, break_handle, break_if,
  break_detail,
}
use hvpp.Stats.Bounds.{IsReported, is_some, handle_bounds}
use hvpp.Stats.Count.{run_all, dump_lem}
use hvpp.Stats.Break.{break_all, break_once}

abbrev exit : ExitReason → ℕ → Exit
exit reason number = record {
  reason = reason;
  vector = 14;
  eax = 2147483650;
  ecx = 3221225600;
  cr_access = CrAccess.access_to_cr;
  cr_number = number;
  dr_access = DrAccess.access_to_dr;
  dr_number = 7;
  io_access = IoAccess.access_in;
  port_number = 100;
  instruction = 1;
}

reported : (r : ExitReason) (n : ℕ) → n < 16 → IsReported (exit r n)
reported r n h = record {
  vector_lt = omega arith;
  cr_number_lt = h;
  dr_number_lt = omega arith;
  port_number_lt = omega arith;
  instruction_lt = omega arith;
}

-- MOV to CR8
handle_bounds_example :
    (is_some (handle zeros (exit ExitReason.mov_cr 8)) ≡ false)
    × (is_some (break_handle (λ a i. true) (exit ExitReason.mov_cr 8)) ≡ false)
handle_bounds_example =
    handle_bounds zeros (λ a i. true) (exit ExitReason.mov_cr 8)
      (reported ExitReason.mov_cr 8 (omega arith))

abbrev runs : List (List Exit)
runs =
    (exit ExitReason.execute_cpuid 0 ∷ exit ExitReason.execute_rdmsr 0 ∷ [])
    ∷ (exit ExitReason.execute_cpuid 0 ∷ [])
    ∷ []

dump_lem_example :
    (storages : List (Storage ℕ)) × (run_all runs ≡ some storages)
    × (dump storages Array.cpuid_8 2 ≡ 2)
unfolding size detail cpuid msr code
dump_lem_example =
    dump_lem runs Array.cpuid_8 2
      (
        (
          reported ExitReason.execute_cpuid 0 (omega arith),
          refl,
          (reported ExitReason.execute_rdmsr 0 (omega arith), refl, tt),
        ),
        ((reported ExitReason.execute_cpuid 0 (omega arith), refl, tt), tt),
      )
      (omega arith)

-- Every flag is set, then those of a CPUID and of an RDMSR are used up.
abbrev all_set : Storage Bool
all_set a i = true

abbrev one_used : Storage Bool
one_used = put (put all_set Array.vmexit 10 false) Array.cpuid_8 2 false

abbrev two_used : Storage Bool
two_used = put (put one_used Array.vmexit 31 false) Array.rdmsr_c 128 false

break_once_example :
    (t : Storage Bool) × (break_handle two_used (exit ExitReason.execute_cpuid 1) ≡ some (t, 0))
unfolding break_handle break_if break_detail break_all detail cpuid msr size code
break_once_example =
    break_once all_set one_used two_used (exit ExitReason.execute_cpuid 1)
      (exit ExitReason.execute_rdmsr 1 ∷ []) 2 2 refl refl
