-- ===== src/Manager.antt =====
-- Which allocator a processor uses: src/hvpp/hvpp/lib/mm.cpp, with `allocator_guard` and the operators new
-- and delete.
-- An allocator is its number, 0 for none, and a guard's start and end are steps of a processor, so that
-- those of several processors interleave. What an allocator contains is a parameter.
pub mod Guard
pub mod Owner
mod Tests
use hvpp.Prelude.{ℕ, Bool, ◌&&◌, not, List, [], ◌∷◌, ◌==◌, if◌then◌else◌}

-- `global_t`, and for each processor the allocators that its live guards have saved, the latest first.
pub record Global : Type 0 where
  pub allocator : ℕ → ℕ
  pub system_allocator : ℕ
  pub custom_allocator : ℕ
  pub guards : ℕ → List ℕ

abbrev pub update {ℓ} : {A : Type ℓ} → (ℕ → A) → ℕ → A → ℕ → A
update f i a j = if j == i then a else f j

-- `system_allocator(new_allocator)`
pub set_system_allocator : Global → ℕ → Global
set_system_allocator g a = record g { system_allocator = a; allocator = λ cpu. a }

-- `hypervisor_allocator(new_allocator)`
pub set_hypervisor_allocator : Global → ℕ → Global
set_hypervisor_allocator g a = record g { custom_allocator = a }

-- `allocator(new_allocator)` on a processor
pub set_allocator : Global → ℕ → ℕ → Global
set_allocator g cpu a = record g { allocator = update g.allocator cpu a }

-- `allocator_guard(new_allocator)`
pub begin_guard : Global → ℕ → ℕ → Global
begin_guard g cpu a = record (set_allocator g cpu a) {
  guards = update g.guards cpu (g.allocator cpu ∷ g.guards cpu);
}

-- `~allocator_guard()` of the latest guard
abbrev restore : Global → ℕ → List ℕ → Global
restore g cpu [] = g
restore g cpu (previous ∷ rest) = record (set_allocator g cpu previous) {
  guards = update g.guards cpu rest;
}

pub end_guard : Global → ℕ → Global
end_guard g cpu = restore g cpu (g.guards cpu)

-- the allocator that `generic_allocate` asks on a processor
abbrev pub asked : Global → ℕ → ℕ
asked g cpu = g.allocator cpu

-- the allocator that `generic_free` gives an address back to
pub freed_by : (ℕ → ℕ → Bool) → Global → ℕ → ℕ
freed_by contains g address =
    if not (g.custom_allocator == 0) && contains g.custom_allocator address
    then g.custom_allocator
    else g.system_allocator
