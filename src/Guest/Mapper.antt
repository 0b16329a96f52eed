-- ===== src/Guest/Mapper.antt =====
-- The page-wise loop of the mapper against one copy.
use hvpp.Prelude.{
  ℕ, zero, suc, ◌+◌, ◌-◌, ◌%◌, ◌^◌, ◌≤◌, ◌<◌, ◌≡◌, refl, ap, sym, ◌∙◌, Bool, true, false, some, ltb,
  ◌==◌, if◌then◌else◌, arith, add64,
}
use hvpp.Paging.{Pml}
use hvpp.Paging.Align.{byte_offset-eq}
use hvpp.Memory.{from_pfn, pfn}
use hvpp.Guest.{
  Guest, no_pte, unmap, map, physical, transfer, bytes_to_copy, mapper_loop, mapper_read_write,
}
use hvpp.Ept.Shape.{Bool-All}
use hvpp.Guest.Copy.{transfer_add, transfer_zero}

pub bytes_to_copy_cases :
    (a size : ℕ)
    → (bytes_to_copy a size ≤ size)
      × (bytes_to_copy a size ≤ 4096 - a % 4096)
      × (0 < size → 0 < bytes_to_copy a size)
unfolding bytes_to_copy
bytes_to_copy_cases a size = ground (arith, byte_offset-eq a Pml.pt)

-- A piece that is as long as the rest allows ends the page.
pub bytes_to_copy-same :
    (a b size : ℕ) → a % 4096 ≡ b % 4096 → bytes_to_copy a size ≡ bytes_to_copy b size
unfolding bytes_to_copy
bytes_to_copy-same a b size e =
    ap (λ o. if ltb size (4096 - o) then size else 4096 - o)
      (byte_offset-eq a Pml.pt ∙ e ∙ sym (byte_offset-eq b Pml.pt))

pub transfer-pte :
    (s : Guest) (pa pos n : ℕ) (write : Bool) → (transfer s pa pos n write).pte ≡ s.pte
transfer-pte s pa pos n true = refl
transfer-pte s pa pos n false = refl

-- A round leaves the entry of the reserved page as `unmap` does.
unmap-map :
    (window : ℕ) (s : Guest) (pa q pos n : ℕ) (write : Bool)
    → s.pte ≡ no_pte
    → unmap (transfer (map window s pa).0 q pos n write) ≡ transfer s q pos n write
unfolding unmap map
unmap-map window s pa q pos n true e =
    ap (λ p. record (transfer s q pos n true) { pte = p }) (sym e)
unmap-map window s pa q pos n false e =
    ap (λ p. record (transfer s q pos n false) { pte = p }) (sym e)

empty : (s : Guest) (pa pos size : ℕ) (write : Bool) → size ≡ 0 → transfer s pa pos size write ≡ s
empty s pa pos size write e = ap (λ n. transfer s pa pos n write) e ∙ transfer_zero s pa pos write

module _ (window : ℕ) (reserved : window % 4096 ≡ 0) where
  window_offset : (s : Guest) (pa : ℕ) → (map window s pa).1 % 4096 ≡ pa % 4096
  unfolding map
  window_offset s pa = omega (arith, byte_offset-eq pa Pml.pt)

  physical-map :
      (s : Guest) (pa : ℕ) → pa < 2 ^ 48 → physical (map window s pa).0 (map window s pa).1 ≡ pa
  unfolding physical map from_pfn pfn
  physical-map s pa h = omega (
    arith,
    byte_offset-eq pa Pml.pt,
    byte_offset-eq (map window s pa).1 Pml.pt,
    window_offset s pa,
  )

  round :
      (s : Guest) (pa pos n : ℕ) (write : Bool)
      → s.pte ≡ no_pte
      → pa < 2 ^ 48
      → unmap (
          transfer
            (map window s pa).0
            (physical (map window s pa).0 (map window s pa).1)
            pos
            n
            write)
        ≡ transfer s pa pos n write
  round s pa pos n write e h =
      ap (λ q. unmap (transfer (map window s pa).0 q pos n write)) (physical-map s pa h)
      ∙ unmap-map window s pa pa pos n write e

  mapper_loop-transfer :
      (fuel : ℕ) (s : Guest) (pa pos size : ℕ) (write : Bool)
      → size ≤ fuel
      → pa + size ≤ 2 ^ 48
      → s.pte ≡ no_pte
      → mapper_loop window fuel s pa pos size write ≡ some (transfer s pa pos size write)
  unfolding mapper_loop
  mapper_loop-transfer zero s pa pos size write f h e =
      ground (arith, empty s pa pos size write (omega (arith, f)))
  mapper_loop-transfer (suc fuel) s pa pos size write f h e =
      Bool-All
        (λ c.
          elim c [
            | true ↦ some s
            | false ↦
                mapper_loop window fuel
                  (unmap (
                    transfer (map window s pa).0 (physical (map window s pa).0 (map window s pa).1)
                      pos n write))
                  (add64 pa n) (pos + n) (size - n) write
          ]
          ≡ some (transfer s pa pos size write))
        (size == 0) (λ c. ap some (sym (empty s pa pos size write (ground (arith, c)))))
        (λ c.
          let some_left : 0 < size = ground (arith, c) in
          ap (λ x. mapper_loop window fuel x (add64 pa n) (pos + n) (size - n) write)
            (round s pa pos n write e (omega (arith, some_left)))
          ∙ ap
              (λ q.
                mapper_loop window fuel (transfer s pa pos n write) q (pos + n) (size - n) write)
              {x = add64 pa n} {y = pa + n}
              (omega (arith, some_left, pieces.2 some_left, pieces.0, pieces.1))
          ∙ mapper_loop-transfer fuel (transfer s pa pos n write) (pa + n) (pos + n) (size - n)
              write (omega (arith, some_left, pieces.2 some_left, pieces.0, pieces.1))
              (omega (arith, some_left, pieces)) (transfer-pte s pa pos n write ∙ e)
          ∙ ap some (
              transfer_add s pa pos n (size - n) write
              ∙ ap (λ k. transfer s pa pos k write) {x = n + (size - n)} {y = size}
                  (omega (arith, some_left, pieces.2 some_left, pieces.0, pieces.1))))
    where
      n : ℕ
      n = bytes_to_copy (map window s pa).1 size

      pieces : (n ≤ size) × (n ≤ 4096 - (map window s pa).1 % 4096) × (0 < size → 0 < n)
      pieces = bytes_to_copy_cases (map window s pa).1 size

  -- While the reserved page is unmapped, and for physical addresses of 48 bits, the page-wise loop
  -- ends, moves the bytes that one copy of the whole range would move, in the direction that is asked
  -- for, and leaves the reserved page unmapped.
  pub mapper_read_write_lem :
      (s : Guest) (pa pos size : ℕ) (write : Bool)
      → pa + size ≤ 2 ^ 48
      → s.pte ≡ no_pte
      → mapper_read_write window s pa pos size write ≡ some (transfer s pa pos size write)
  unfolding mapper_read_write
  mapper_read_write_lem s pa pos size write h e =
      mapper_loop-transfer size s pa pos size write (omega arith) h e
