-- ===== src/Emulate/Address.antt =====
-- The address of an instruction's operand.
use hvpp.Prelude.{
  ℕ, zero, suc, ◌+◌, ◌-◌, ◌*◌, ◌%◌, ◌^◌, ◌<◌, ◌≤◌, ◌≡◌, ap, ◌∙◌, bit_and, if◌then◌else◌, arith, u64,
  add64,
}
use hvpp.Paging.Align.{bit_and_low}
use hvpp.Prelude.Bits.{bit_and-le}
use hvpp.Emulate.{Guest, Operand, guest_va, size_to_mask}

module _ {World : Type 0} (g : Guest World) (o : Operand) where
  -- The processor's rule: base, scaled index, displacement and the base of the segment.
  abbrev pub base_value : ℕ
  base_value = if o.base_register_invalid then 0 else g.gp_register o.base_register

  abbrev pub index_value : ℕ
  index_value = if o.index_register_invalid then 0 else g.gp_register o.index_register

  abbrev pub linear_address : ℕ
  linear_address = u64 (
      (g.segment o.segment_register).base_address
      + base_value
      + index_value * 2 ^ o.scaling
      + o.displacement)

scaled : (x s : ℕ) → s ≤ 3 → x * (2 ^ s - 1) + x ≡ x * 2 ^ s
scaled x zero h = omega arith
scaled x (suc zero) h = omega arith
scaled x (suc (suc zero)) h = omega arith
scaled x (suc (suc (suc zero))) h = omega arith
scaled x (suc (suc (suc (suc s)))) h = absurd (omega arith)

sum :
    (a b x d left whole : ℕ)
    → left + x ≡ whole
    → u64 (add64 (add64 (add64 a b) x) d % 2 ^ 64 + left) ≡ u64 (a + b + whole + d)
sum a b x d left whole h = omega arith

module _ {World : Type 0} (g : Guest World) (o : Operand) where
  -- With a 64-bit address size, `exit_instruction_info_guest_va` takes the index once, whatever the
  -- scaling says: what it leaves out is the index `2 ^ scaling - 1` times, modulo 2 ^ 64.
  pub guest_va_lem :
      o.address_size ≡ 2
      → o.scaling ≤ 3
      → u64 (guest_va g o + index_value g o * (2 ^ o.scaling - 1)) ≡ linear_address g o
  unfolding guest_va size_to_mask
  guest_va_lem size small =
      let at_once =
        add64
          (add64 (add64 (g.segment o.segment_register).base_address (base_value g o))
            (index_value g o))
          o.displacement in
      ap (λ t. u64 (bit_and at_once t + index_value g o * (2 ^ o.scaling - 1)))
        (ap size_to_mask size)
      ∙ ap (λ t. u64 (t + index_value g o * (2 ^ o.scaling - 1))) (bit_and_low 64 at_once)
      ∙ sum (g.segment o.segment_register).base_address (base_value g o) (index_value g o)
          o.displacement (index_value g o * (2 ^ o.scaling - 1)) (index_value g o * 2 ^ o.scaling)
          (scaled (index_value g o) o.scaling small)

  pub guest_va-lt : guest_va g o < 2 ^ 64
  unfolding guest_va
  guest_va-lt =
      let at_once =
        add64
          (add64 (add64 (g.segment o.segment_register).base_address (base_value g o))
            (index_value g o))
          o.displacement in
      omega (arith, bit_and-le at_once at_once (size_to_mask o.address_size) (omega arith))
