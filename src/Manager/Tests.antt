-- ===== src/Manager/Tests.antt =====
-- The theorems on guards and owners, at two processors and the allocators 1 (system) and 2.
use hvpp.Prelude.{
  ℕ, ◌≡◌, refl, Bool, ◌&&◌, none, some, List, [], ◌∷◌, ◌==◌, leb, if◌then◌else◌, arith,
}
use hvpp.Manager.{Global, set_allocator, begin_guard, freed_by}
use hvpp.Manager.Guard.{Event, run, guards_restore}
use hvpp.Manager.Owner.{State, Step, Reach, delete_lem}

abbrev global : Global
global = record {
  allocator = λ cpu. 1;
  system_allocator = 1;
  custom_allocator = 2;
  guards = λ cpu. [];
}

abbrev events : List Event
events =
    Event.begins 0 2
    ∷ Event.begins 1 2
    ∷ Event.begins 0 3
    ∷ Event.ends 0
    ∷ Event.ends 1
    ∷ Event.ends 0
    ∷ []

guards_restore_example : ((run global events).allocator 0 ≡ 1) × ((run global events).guards 0 ≡ [])
guards_restore_example = guards_restore global 0 events refl

abbrev pool : ℕ → ℕ → Bool
pool a address = a == 2 && leb 4096 address

abbrev start : State
start = record { global = global; blocks = λ a. none }

abbrev guarded : State
guarded = record start { global = begin_guard global 0 2 }

abbrev used : State
used = record guarded { blocks = λ a. if a == 8192 then some 2 else none }

reached : Reach pool start used
unfolding begin_guard set_allocator
reached =
    Reach.next (Reach.next Reach.here (Step.begins start 0)) (Step.allocates guarded 0 8192 refl)

delete_lem_example : freed_by pool (begin_guard global 0 2) 8192 ≡ 2
unfolding begin_guard set_allocator
delete_lem_example =
    delete_lem pool start used 8192 2
      (record {
        custom = λ e. omega arith;
        apart = λ e. omega arith;
        asks_system = λ cpu. refl;
        no_guard = λ cpu. refl;
        no_block = λ a. refl;
      })
      reached refl
