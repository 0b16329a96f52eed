-- ===== src/Ept/Sparse.antt =====
-- `map_identity_sparse` of src/hvpp/hvpp/ept.cpp ends.
use hvpp.Prelude.{
  ℕ, zero, suc, ◌+◌, ◌*◌, ◌%◌, ◌^◌, ◌<◌, ◌≡◌, refl, true, false, ltb, ltb→lt, Option, some, arith,
  add64,
}
use hvpp.Paging.{Pml, size, page_align, page_align_up}
use hvpp.Paging.Align.{page_align-eq, page_align_up-eq}
use hvpp.Memory.{PhysicalMemoryRange}
use hvpp.Ept.{Tables, Host, map}
use hvpp.Ept.Shape.{Bool-All}
use hvpp.Ept.Rebuild.{range_loop, map_range}

module _ (host : Host) (access : ℕ) where
  range_loop_total :
      (n : ℕ) (s : Tables) (pa to : ℕ)
      → pa % 2 ^ 21 ≡ 0
      → to % 2 ^ 21 ≡ 0
      → to < 2 ^ 64
      → 0 < n
      → to < pa + n * 2 ^ 21
      → (s' : Tables) × (range_loop host n s pa to access ≡ some s')
  unfolding range_loop
  range_loop_total zero s pa to pa_al to_al to_lt n_pos fuel = absurd (omega (arith, n_pos))
  range_loop_total (suc n) s pa to pa_al to_al to_lt n_pos fuel =
      Bool-All (λ c. (s' : Tables) × ((elim c [ true ↦ next | false ↦ some s ]) ≡ some s'))
        (ltb pa to)
        (λ h.
          range_loop_total n (map host s pa pa access Pml.pd).0 (add64 pa (size Pml.pd)) to
            (omega (arith, pa_al, to_al, ltb→lt pa to h)) to_al to_lt
            (omega (arith, ltb→lt pa to h)) (omega (arith, ltb→lt pa to h)))
        (λ h. (s, refl))
    where
      next : Option Tables
      next = range_loop host n (map host s pa pa access Pml.pd).0 (add64 pa (size Pml.pd)) to access

-- The loop of `map_identity_sparse` over a range that begins at a 64-bit address ends, whatever the end
-- of the range is: the address never passes 2 ^ 64.
map_range_total :
    (host : Host) (s : Tables) (r : PhysicalMemoryRange) (access : ℕ)
    → r.begin < 2 ^ 64
    → (s' : Tables) × (map_range host s r access ≡ some s')
map_range_total host s r access b_lt =
    range_loop_total host access (2 ^ 64) s (page_align r.begin Pml.pd) (page_align_up r.end Pml.pd)
      (omega (arith, page_align-eq r.begin Pml.pd b_lt))
      (omega (arith, page_align_up-eq r.end Pml.pd)) (omega (arith, page_align_up-eq r.end Pml.pd))
      (omega arith) (omega (arith, page_align_up-eq r.end Pml.pd))
