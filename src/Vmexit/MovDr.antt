-- ===== src/Vmexit/MovDr.antt =====
-- Moves to and from the debug registers.
use hvpp.Prelude.{
  ℕ, zero, suc, ◌^◌, ◌<◌, ◌≡◌, refl, ap, ◌∙◌, true, false, ◌==◌, ◌||◌, arith, ◌∷◌, not64, bit_and,
  bit_or,
}
use hvpp.Prelude.Bits.{bit, bit-bit_and, bit-bit_or, bit-lt}
use hvpp.Vmexit.{
  Guest, Exception, MovDrQualification, DrAccess, inject, detect, write_dr, read_dr, handle_mov_dr,
  set_register,
}

-- the move of a debug register to or from a register
abbrev pub move : ℕ → DrAccess → ℕ → MovDrQualification
move number access register = record {
  dr_number = number;
  access_type = access;
  gp_register = register;
}

-- The guest's kernel, with the protection of the debug registers off.
private_tests :
    (v : Guest)
    → v.cs_dpl ≡ 0
    → bit v.guest_dr7 13 ≡ 0
    → ((v.cs_dpl == 0) ≡ true) × ((bit v.guest_dr7 13 == 1) ≡ false)
private_tests v h off = (ground (arith, h), ground (arith, off))

write_lem :
    (v : Guest) (number from : ℕ)
    → number < 4
    → v.cs_dpl ≡ 0
    → bit v.guest_dr7 13 ≡ 0
    → handle_mov_dr v (move number DrAccess.access_to_dr from)
      ≡ record v { dr = set_register v.dr number (v.gp_register from) }
unfolding handle_mov_dr write_dr
write_lem v zero from h k off = rw (private_tests v k off).0 (rw (private_tests v k off).1 refl)
write_lem v (suc zero) from h k off =
    rw (private_tests v k off).0 (rw (private_tests v k off).1 refl)
write_lem v (suc (suc zero)) from h k off =
    rw (private_tests v k off).0 (rw (private_tests v k off).1 refl)
write_lem v (suc (suc (suc zero))) from h k off =
    rw (private_tests v k off).0 (rw (private_tests v k off).1 refl)
write_lem v (suc (suc (suc (suc number)))) from h k off = absurd (omega arith)

read_lem :
    (v : Guest) (number to : ℕ)
    → number < 4
    → v.cs_dpl ≡ 0
    → bit v.guest_dr7 13 ≡ 0
    → handle_mov_dr v (move number DrAccess.access_from_dr to)
      ≡ record v { gp_register = set_register v.gp_register to (v.dr number) }
unfolding handle_mov_dr read_dr
read_lem v zero to h k off = rw (private_tests v k off).0 (rw (private_tests v k off).1 refl)
read_lem v (suc zero) to h k off = rw (private_tests v k off).0 (rw (private_tests v k off).1 refl)
read_lem v (suc (suc zero)) to h k off =
    rw (private_tests v k off).0 (rw (private_tests v k off).1 refl)
read_lem v (suc (suc (suc zero))) to h k off =
    rw (private_tests v k off).0 (rw (private_tests v k off).1 refl)
read_lem v (suc (suc (suc (suc number)))) to h k off = absurd (omega arith)

-- A guest's kernel that moves a register to one of DR0 to DR3 and from there to a register, with the
-- protection of the debug registers off, finds the value there; nothing else changes, and no exception
-- is injected.
mov_dr_round_trip :
    (v : Guest) (number from to : ℕ)
    → number < 4
    → v.cs_dpl ≡ 0
    → bit v.guest_dr7 13 ≡ 0
    → handle_mov_dr
        (handle_mov_dr v (move number DrAccess.access_to_dr from))
        (move number DrAccess.access_from_dr to)
      ≡ record v {
        dr = set_register v.dr number (v.gp_register from);
        gp_register = set_register v.gp_register to (v.gp_register from);
      }
mov_dr_round_trip v number from to h k off =
    ap (λ w. handle_mov_dr w (move number DrAccess.access_from_dr to))
      (write_lem v number from h k off)
    ∙ read_lem (record v { dr = set_register v.dr number (v.gp_register from) }) number to h k off
    ∙ ap
        (λ x. record v {
          dr = set_register v.dr number (v.gp_register from);
          gp_register = set_register v.gp_register to x;
        })
        {x = set_register v.dr number (v.gp_register from) number} {y = v.gp_register from}
        (let same : (number == number) ≡ true = ground arith in rw same refl)

bit_thirteen : (x : ℕ) → bit (bit_and x (not64 (2 ^ 13))) 13 ≡ 0
unfolding bit
bit_thirteen x =
    let zero_there : bit (not64 (2 ^ 13)) 13 ≡ 0 = refl in
    omega (arith, bit-bit_and x (not64 (2 ^ 13)) 13, zero_there)

bit_accessed : (x : ℕ) → bit (bit_or x (2 ^ 13)) 13 ≡ 1
unfolding bit
bit_accessed x =
    let one_there : bit (2 ^ 13) 13 ≡ 1 = refl in
    omega (arith, bit-bit_or x (2 ^ 13) 13, bit-lt x 13, one_there)

-- In the guest's kernel, with the protection of the debug registers on, a move of DR0 to DR3, DR6 or DR7
-- injects a debug exception and waits to be repeated. The protection is off then, the access stands in
-- DR6, and neither a general register nor DR0 to DR3 have changed.
mov_dr_detect :
    (v : Guest) (q : MovDrQualification) (i : ℕ)
    → (q.dr_number == 4 || q.dr_number == 5) ≡ false
    → v.cs_dpl ≡ 0
    → bit v.guest_dr7 13 ≡ 1
    → i < 4
    → ((handle_mov_dr v q).injected ≡ Exception.debug ∷ v.injected)
      × ((handle_mov_dr v q).suppress_rip_adjust ≡ true)
      × (bit (handle_mov_dr v q).guest_dr7 13 ≡ 0)
      × (bit ((handle_mov_dr v q).dr 6) 13 ≡ 1)
      × ((handle_mov_dr v q).gp_register ≡ v.gp_register)
      × ((handle_mov_dr v q).dr i ≡ v.dr i)
unfolding handle_mov_dr detect
mov_dr_detect v q i n k on h = (
  ap (λ w. w.injected) raised,
  ap (λ w. w.suppress_rip_adjust) raised,
  ap (λ w. bit w.guest_dr7 13) raised ∙ bit_thirteen v.guest_dr7,
  ap (λ w. bit (w.dr 6) 13) raised ∙ bit_accessed (bit_and (v.dr 6) (not64 15)),
  ap (λ w. w.gp_register) raised,
  ap (λ w. w.dr i) raised ∙ (let differs : (i == 6) ≡ false = ground arith in rw differs refl),
)
  where
    raised : handle_mov_dr v q ≡ inject (detect v) Exception.debug
    raised =
        let kernel : (v.cs_dpl == 0) ≡ true = ground (arith, k) in
        let detecting : (bit v.guest_dr7 13 == 1) ≡ true = ground (arith, on) in
        rw kernel (rw n (rw detecting refl))
