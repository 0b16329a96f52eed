-- ===== src/Vmexit/MovCr.antt =====
-- LMSW and CLTS, digit by digit.
use hvpp.Prelude.{
  ℕ, ◌<◌, ◌≡◌, refl, ap, ltb, ◌==◌, ◌&&◌, zero, suc, if◌then◌else◌, arith, bit_and, not64, u16,
}
use hvpp.Prelude.Bits.{bit, bit_zero, bit-bit_and, bit-bit_or, bit-mod, bit-lt}
use hvpp.Bitmap.Word.{bit_ones, bit-not64}
use hvpp.Vmexit.{Guest, MovCrQualification, CrAccess, handle_mov_cr, lmsw, clts}

bit_fourteen : (i : ℕ) → bit 14 i ≡ (if i == 0 then 0 else if ltb i 4 then 1 else 0)
unfolding bit
bit_fourteen zero = refl
bit_fourteen (suc i) = ground (arith, bit_ones 3 i)

bit_eight : (i : ℕ) → bit 8 i ≡ (if i == 3 then 1 else 0)
unfolding bit
bit_eight zero = refl
bit_eight (suc zero) = refl
bit_eight (suc (suc zero)) = refl
bit_eight (suc (suc (suc zero))) = refl
bit_eight (suc (suc (suc (suc i)))) = ground (arith, bit_zero i)

bit-lmsw :
    (cr0 source i : ℕ)
    → i < 64
    → bit (lmsw cr0 source) i
      ≡ (if i == 0 && bit cr0 0 == 1 then 1 else if ltb i 4 then bit source i else bit cr0 i)
unfolding lmsw
bit-lmsw cr0 source i h = ground (
  arith,
  bit-bit_or (bit_and cr0 (not64 14)) (bit_and (u16 source) 15) i,
  bit-bit_and cr0 (not64 14) i,
  bit-bit_and (u16 source) 15 i,
  bit-not64 14 i,
  bit_fourteen i,
  bit_ones 4 i,
  bit-mod source 16 i,
  bit-lt cr0 i,
  bit-lt source i,
  ap (bit cr0) {x = i} {y = 0},
)

bit-clts : (cr0 i : ℕ) → i < 64 → bit (clts cr0) i ≡ (if i == 3 then 0 else bit cr0 i)
unfolding clts
bit-clts cr0 i h =
    ground (arith, bit-bit_and cr0 (not64 8) i, bit-not64 8 i, bit_eight i, bit-lt cr0 i)

-- LMSW sets bit 0 of CR0 but never clears it, takes the bits 1 to 3 from its operand and keeps the other
-- bits of a 64-bit CR0; CLTS clears bit 3 alone. Both leave the shadow of CR0 equal to CR0.
lmsw-clts :
    (v : Guest) (q : MovCrQualification) (i : ℕ)
    → i < 64
    → ((bit (handle_mov_cr v (record q { access_type = CrAccess.access_lmsw })).guest_cr0 i ≡ (
        if i == 0 && bit v.guest_cr0 0 == 1
        then 1
        else if ltb i 4
        then bit q.lmsw_source_data i
        else bit v.guest_cr0 i)))
      × ((handle_mov_cr v (record q { access_type = CrAccess.access_lmsw })).cr0_shadow
          ≡ (handle_mov_cr v (record q { access_type = CrAccess.access_lmsw })).guest_cr0)
      × ((bit (handle_mov_cr v (record q { access_type = CrAccess.access_clts })).guest_cr0 i
          ≡ (if i == 3 then 0 else bit v.guest_cr0 i)))
      × ((handle_mov_cr v (record q { access_type = CrAccess.access_clts })).cr0_shadow
          ≡ (handle_mov_cr v (record q { access_type = CrAccess.access_clts })).guest_cr0)
unfolding handle_mov_cr
lmsw-clts v q i h =
    (bit-lmsw v.guest_cr0 q.lmsw_source_data i h, refl, bit-clts v.guest_cr0 i h, refl)
