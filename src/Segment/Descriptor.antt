-- ===== src/Segment/Descriptor.antt =====
-- The base address and the limit of a descriptor, whose bits lie apart.
use hvpp.Prelude.{
  ℕ, ◌*◌, ◌/◌, ◌%◌, ◌^◌, ◌<◌, ◌≡◌, refl, ap, ◌∙◌, bit_or, ◌==◌, if◌then◌else◌, arith, u16, u8, u32,
  Bool-cases, inl, inr,
}
use hvpp.Prelude.Bits.{bit_or-join}
use hvpp.Segment.{
  GdtEntry, base_address, set_base_address, limit, set_limit, descriptor_type, with_limit_high,
}

-- the three parts below 2 ^ 32
low_base :
    (value : ℕ)
    → bit_or (bit_or (u16 value) (u8 (value / 2 ^ 16) * 2 ^ 16)) (u8 (value / 2 ^ 24) * 2 ^ 24)
      ≡ value % 2 ^ 32
low_base value =
    ap (λ t. bit_or t (u8 (value / 2 ^ 24) * 2 ^ 24))
      (bit_or-join 16 (value % 2 ^ 24) (u16 value) (u8 (value / 2 ^ 16)) (omega arith)
        (omega arith))
    ∙ bit_or-join 24 (value % 2 ^ 32) (value % 2 ^ 24) (u8 (value / 2 ^ 24)) (omega arith)
        (omega arith)

-- A descriptor of the system holds the whole base address that is stored in it, one of code or data its
-- low 32 bits; the limit, the type and the rights stay as they were.
base_address-set :
    (e : GdtEntry) (value : ℕ)
    → value < 2 ^ 64
    → (base_address (set_base_address e value)
        ≡ (if descriptor_type e.access == 0 then value else value % 2 ^ 32))
      × (limit (set_base_address e value) ≡ limit e)
      × ((set_base_address e value).access ≡ e.access)
unfolding base_address set_base_address limit
base_address-set e value h = (
  elim (Bool-cases (descriptor_type e.access == 0)) [
    | inl system ↦ rw system (
        ap (λ t. bit_or t (u32 (value / 2 ^ 32) * 2 ^ 32)) (low_base value)
        ∙ bit_or-join 32 value (value % 2 ^ 32) (u32 (value / 2 ^ 32)) (omega arith) (omega arith))
    | inr code ↦ rw code (low_base value)
  ],
  refl,
  refl,
)

-- A limit that is stored comes back cut to 20 bits; the base address and the other bits of the
-- access word stay as they were.
limit-set :
    (e : GdtEntry) (value : ℕ)
    → e.access < 2 ^ 16
    → (limit (set_limit e value) ≡ value % 2 ^ 20)
      × (base_address (set_limit e value) ≡ base_address e)
      × ((set_limit e value).access % 2 ^ 8 ≡ e.access % 2 ^ 8)
      × ((set_limit e value).access / 2 ^ 12 ≡ e.access / 2 ^ 12)
unfolding limit set_limit base_address with_limit_high
limit-set e value h = (
  ap (λ t. bit_or (u16 value) (t * 2 ^ 16)) {y = value / 2 ^ 16 % 16} (omega arith)
      ∙ bit_or-join 16 (value % 2 ^ 20) (u16 value) (value / 2 ^ 16 % 16) (omega arith)
          (omega arith),
  ap
      (λ t.
        if t == 0
        then bit_or
            (bit_or (bit_or e.base_address_low (e.base_address_middle * 2 ^ 16))
              (e.base_address_high * 2 ^ 24))
            (e.base_address_upper * 2 ^ 32)
        else bit_or (bit_or e.base_address_low (e.base_address_middle * 2 ^ 16))
            (e.base_address_high * 2 ^ 24))
      (omega arith),
  omega arith,
  omega arith,
)
