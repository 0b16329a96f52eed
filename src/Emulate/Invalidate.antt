-- ===== src/Emulate/Invalidate.antt =====
-- INVPCID.
use hvpp.Prelude.{
  ℕ, ◌/◌, ◌%◌, ◌^◌, ◌<◌, ◌≤◌, ◌≡◌, ◌⊎◌, refl, true, false, ◌∷◌, ltb, ◌==◌, ◌&&◌, ◌||◌, not,
  Bool-cases, inl, inr, arith, add64, u32,
}
use hvpp.Prelude.Bits.{bit, bit-lt}
use hvpp.Segment.{read_bytes}
use hvpp.Emulate.{Guest, Operand, Invalidation, guest_va, handle_execute_invpcid}

-- What INVPCID of a type must invalidate at least, with the cached translations of the guest as a whole
-- as the larger choice.
abbrev pub Covers : ℕ → ℕ → Invalidation → Type 0
Covers type address (Invalidation.individual_address a) = (type ≡ 0) × (a ≡ address)
Covers type address Invalidation.single_context = (type ≡ 1) ⊎ (type ≡ 2)
Covers type address Invalidation.single_context_retaining_globals = type ≡ 3

module _ {World : Type 0} (g : Guest World) (o : Operand) (register : ℕ) where
  abbrev pub type : ℕ
  type = u32 (g.gp_register register)

  abbrev pub pcid_word : ℕ
  pcid_word = read_bytes g.memory (guest_va g o) 8

  abbrev pub address : ℕ
  address = read_bytes g.memory (add64 (guest_va g o) 8) 8

  -- the conditions of the processor's manual, on the low half of the type
  abbrev pub IsFault : Type 0
  IsFault =
      (3 < type)
      ⊎ (2 ^ 12 ≤ pcid_word)
      ⊎ ((type < 2) × (0 < pcid_word % 2 ^ 12) × (bit g.cr4 17 ≡ 0))

module _ {World : Type 0} (g : Guest World) (o : Operand) (register : ℕ) where
  covers :
      ltb 3 (type g o register) ≡ false
      → not (pcid_word g o register / 2 ^ 12 == 0) ≡ false
      → ((type g o register == 0 || type g o register == 1)
          && not (pcid_word g o register % 2 ^ 12 == 0)
          && not (bit g.cr4 17 == 1))
        ≡ false
      → (i : Invalidation) × ((handle_execute_invpcid g o register).invalidations
          ≡ i ∷ g.invalidations)
        × Covers (type g o register) (address g o register) i
  unfolding handle_execute_invpcid
  covers small plain fine = elim (Bool-cases (type g o register == 0)) [
    | inl zero_type ↦
        (Invalidation.individual_address (address g o register), ground arith, (ground arith, refl))
    | inr other ↦ elim (Bool-cases (type g o register == 3)) [
      | inl three ↦ (Invalidation.single_context_retaining_globals, ground arith, ground arith)
      | inr between ↦ (
        Invalidation.single_context,
        ground arith,
        elim (Bool-cases (type g o register == 1)) [
          | inl one ↦ inl (ground arith)
          | inr two ↦ inr (ground arith)
        ],
      )
    ]
  ]

  -- INVPCID raises #GP and invalidates nothing, for a type above 3 in the low half of the register, a reserved
  -- bit in the descriptor, or a PCID other than 0 in a type below 2 while CR4.PCIDE is clear. Else none of
  -- this holds, and it executes one INVVPID that covers the type, without a fault.
  pub invpcid_lem :
      (IsFault g o register
        × ((handle_execute_invpcid g o register).general_protection ≡ true)
        × ((handle_execute_invpcid g o register).suppress_rip_adjust ≡ true)
        × ((handle_execute_invpcid g o register).invalidations ≡ g.invalidations))
      ⊎ ((¬ IsFault g o register)
          × ((handle_execute_invpcid g o register).general_protection ≡ g.general_protection)
          × ((handle_execute_invpcid g o register).suppress_rip_adjust ≡ g.suppress_rip_adjust)
          × ((i : Invalidation) × ((handle_execute_invpcid g o register).invalidations
                ≡ i ∷ g.invalidations)
              × Covers (type g o register) (address g o register) i))
  unfolding handle_execute_invpcid
  invpcid_lem = elim (Bool-cases (ltb 3 (type g o register))) [
    | inl large ↦ inl (inl (ground arith), ground arith, ground arith, ground arith)
    | inr small ↦ elim (Bool-cases (not (pcid_word g o register / 2 ^ 12 == 0))) [
      | inl reserved ↦ inl (inr (inl (ground arith)), ground arith, ground arith, ground arith)
      | inr plain ↦
          elim (Bool-cases (
            (type g o register == 0 || type g o register == 1)
            && not (pcid_word g o register % 2 ^ 12 == 0)
            && not (bit g.cr4 17 == 1))) [
              | inl named ↦ inl (
                inr (inr (ground arith, ground arith, ground (arith, bit-lt g.cr4 17))),
                ground arith,
                ground arith,
                ground arith,
              )
              | inr fine ↦
                  inr (λ fault. ground arith, ground arith, ground arith, covers small plain fine)
            ]
    ]
  ]
