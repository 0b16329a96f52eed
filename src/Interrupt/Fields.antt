-- ===== src/Interrupt/Fields.antt =====
-- What the getters of `interrupt_t` find in the word that its constructor builds.
use hvpp.Prelude.{ℕ, ◌+◌, ◌*◌, ◌%◌, ◌^◌, ◌<◌, ◌≡◌, refl, ap, ◌∙◌, arith, Bool, true, to_bit, shr}
use hvpp.Prelude.Bits.{bit-div}
use hvpp.Interrupt.{InterruptType, code, of_code, vector, type, error_code_valid, valid, make}

of_code-code : (t : InterruptType) → of_code (code t) ≡ t
of_code-code InterruptType.external = refl
of_code-code InterruptType.reserved = refl
of_code-code InterruptType.nmi = refl
of_code-code InterruptType.hardware_exception = refl
of_code-code InterruptType.software = refl
of_code-code InterruptType.privileged_exception = refl
of_code-code InterruptType.software_exception = refl
of_code-code InterruptType.other_event = refl

code-lt : (t : InterruptType) → code t < 8
code-lt t = ground arith

-- The getters give back what an interrupt was made of: the vector, the type, whether there is an
-- error code, and that it is valid.
pub make_lem :
    (t : InterruptType) (n code : ℕ) (with_code : Bool) (rip_adjust : ℕ)
    → n < 2 ^ 8
    → (vector (make t n code with_code rip_adjust) ≡ n)
      × (type (make t n code with_code rip_adjust) ≡ t)
      × (error_code_valid (make t n code with_code rip_adjust) ≡ with_code)
      × (valid (make t n code with_code rip_adjust) ≡ true)
unfolding vector type error_code_valid valid make
make_lem t n c w r h = (
  omega (arith, code-lt t),
  ap of_code {x = shr (n % 2 ^ 8 + 2 ^ 8 * code t + 2 ^ 11 * to_bit w + 2 ^ 31) 8 % 2 ^ 3}
        {y = code t} (ground (arith, code-lt t))
      ∙ of_code-code t,
  ground (arith, bit-div (n % 2 ^ 8 + 2 ^ 8 * code t + 2 ^ 11 * to_bit w + 2 ^ 31) 11, code-lt t),
  ground (arith, bit-div (n % 2 ^ 8 + 2 ^ 8 * code t + 2 ^ 11 * to_bit w + 2 ^ 31) 31, code-lt t),
)
