-- ===== src/Mtrr/Precedence.antt =====
-- Which range decides the memory type of an address.
use hvpp.Prelude.{
  true, ℕ, ◌≡◌, ◌⊎◌, refl, arith, Bool, false, ◌&&◌, ◌||◌, List, [], ◌∷◌, ◌++◌, ◌==◌, if◌then◌else◌,
  Option, none, some,
}
use hvpp.Memory.{physical_contains}
use hvpp.Mtrr.{uncacheable, invalid, MtrrRange, Descriptor, overlap, range_loop, memory_type_of}

-- the type of the first range that holds the address
pub first_match : List MtrrRange → ℕ → Option ℕ
first_match [] pa = none
first_match (r ∷ rs) pa = if physical_contains r.range pa then some r.type else first_match rs pa

pub any_uncacheable : List MtrrRange → ℕ → Bool
any_uncacheable [] pa = false
any_uncacheable (r ∷ rs) pa =
    (physical_contains r.range pa && r.type == uncacheable) || any_uncacheable rs pa

-- the type that the ranges give, or `invalid`
pub matched : Bool → List MtrrRange → ℕ → ℕ
matched true items pa = elim (first_match items pa) [ some t ↦ t | none ↦ invalid ]
matched false items pa = if any_uncacheable items pa then uncacheable else invalid

range_loop_lem :
    (below : Bool) (items : List MtrrRange) (pa : ℕ)
    → range_loop below items pa invalid ≡ matched below items pa
unfolding matched range_loop first_match any_uncacheable overlap
range_loop_lem true [] pa = refl
range_loop_lem false [] pa = refl
range_loop_lem true (r ∷ rs) pa = ground (arith, range_loop_lem true rs pa)
range_loop_lem false (r ∷ rs) pa = ground (arith, range_loop_lem false rs pa)

-- If the loop's variable lies below the array of variable ranges, the memory type is the one of the
-- first range that holds the address. If it does not, it is uncacheable if some range with that type
-- holds the address. Where there is no such range, or its type is the invalid one, it is the default
-- type.
pub memory_type_of_lem :
    (below : Bool) (d : Descriptor) (pa : ℕ)
    → memory_type_of below d pa ≡ (
        let t = matched below (d.fixed ++ d.variable) pa in
        if t == invalid then d.default_memory_type else t)
unfolding memory_type_of
memory_type_of_lem below d pa = rw (range_loop_lem below (d.fixed ++ d.variable) pa) refl

-- If the loop's variable does not lie below the array, the type is uncacheable or the default one,
-- whatever types the fixed and the variable ranges have.
memory_type_of_above :
    (d : Descriptor) (pa : ℕ)
    → (memory_type_of false d pa ≡ uncacheable)
      ⊎ (memory_type_of false d pa ≡ d.default_memory_type)
unfolding matched
memory_type_of_above d pa = ground (arith, memory_type_of_lem false d pa)
