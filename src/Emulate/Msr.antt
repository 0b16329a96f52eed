-- ===== src/Emulate/Msr.antt =====
-- WRMSR and RDMSR.
use hvpp.Prelude.{
  ℕ, ◌*◌, ◌/◌, ◌%◌, ◌^◌, ◌≡◌, ap, ◌∙◌, bit_or, bit_and, Bool, ◌||◌, ◌==◌, if◌then◌else◌, arith, u32,
  shl64,
}
use hvpp.Prelude.Bits.{bit_or-join, bit_or-mod, bit_or-div}
use hvpp.Paging.Align.{bit_and_low}
use hvpp.Emulate.{
  Cpu, Guest, rax, rcx, rdx, pair, read_msr, write_msr, handle_execute_rdmsr, handle_execute_wrmsr,
  msr_debugctl, msr_fs_base, msr_gs_base,
}

-- the MSRs that are kept in the VMCS
abbrev pub is_in_vmcs : ℕ → Bool
is_in_vmcs id = id == msr_debugctl || id == msr_fs_base || id == msr_gs_base

pair_halves :
    (a d : ℕ)
    → (bit_or a (shl64 d 32) % 2 ^ 32 ≡ a % 2 ^ 32)
      × (bit_or a (shl64 d 32) / 2 ^ 32 ≡ bit_or (a / 2 ^ 32) (d % 2 ^ 32))
pair_halves a d = (
  bit_or-mod 32 a (shl64 d 32)
      ∙ ap (bit_or (a % 2 ^ 32)) {y = 0 * 2 ^ 32} (omega arith)
      ∙ bit_or-join 32 (a % 2 ^ 32) (a % 2 ^ 32) 0 (omega arith) (omega arith),
  bit_or-div 32 a (shl64 d 32) ∙ ap (bit_or (a / 2 ^ 32)) {y = d % 2 ^ 32} (omega arith),
)

module _ {World : Type 0} (cpu : Cpu World) (g : Guest World) where
  read_msr-write_msr :
      (id value : ℕ)
      → cpu.read_msr (cpu.write_msr g.world id value) id ≡ value
      → read_msr cpu (write_msr cpu g id value) id ≡ value
  unfolding read_msr write_msr
  read_msr-write_msr id value stored = ground (arith, stored)

  write_msr-world :
      (id value : ℕ)
      → (write_msr cpu g id value).world
        ≡ (if is_in_vmcs id then g.world else cpu.write_msr g.world id value)
  unfolding write_msr
  write_msr-world id value = ground arith

  write_msr-registers : (id value : ℕ) → (write_msr cpu g id value).gp_register ≡ g.gp_register
  unfolding write_msr
  write_msr-registers id value = ground arith

  -- RDMSR after WRMSR of the same register, where the processor's own registers give back what was
  -- written to them: EAX comes back in RAX. RDX gets EDX, with the bits of the upper half of RAX
  -- besides. RCX stays, and DEBUGCTL and the bases of FS and GS are taken from the guest and never
  -- written to the processor.
  pub rdmsr-wrmsr :
      cpu.read_msr
          (cpu.write_msr g.world (u32 (g.gp_register rcx)) (pair g))
          (u32 (g.gp_register rcx))
        ≡ pair g
      → ((handle_execute_rdmsr cpu (handle_execute_wrmsr cpu g)).gp_register rax
          ≡ g.gp_register rax % 2 ^ 32)
        × ((handle_execute_rdmsr cpu (handle_execute_wrmsr cpu g)).gp_register rdx
            ≡ bit_or (g.gp_register rax / 2 ^ 32) (g.gp_register rdx % 2 ^ 32))
        × ((handle_execute_rdmsr cpu (handle_execute_wrmsr cpu g)).gp_register rcx
            ≡ g.gp_register rcx)
        × ((handle_execute_rdmsr cpu (handle_execute_wrmsr cpu g)).world ≡ (
            if is_in_vmcs (u32 (g.gp_register rcx))
            then g.world
            else cpu.write_msr g.world (u32 (g.gp_register rcx)) (pair g)))
  unfolding handle_execute_rdmsr handle_execute_wrmsr
  rdmsr-wrmsr stored =
      let id = u32 (g.gp_register rcx) in
      let same : (write_msr cpu g id (pair g)).gp_register ≡ g.gp_register =
        write_msr-registers id (pair g) in
      let back : read_msr cpu (write_msr cpu g id (pair g))
            (u32 ((write_msr cpu g id (pair g)).gp_register rcx))
          ≡ pair g =
        ap (λ r. read_msr cpu (write_msr cpu g id (pair g)) (u32 (r rcx))) same
        ∙ read_msr-write_msr id (pair g) stored in
      (
        ap (λ t. bit_and t 4294967295) back
            ∙ bit_and_low 32 (pair g)
            ∙ unfold pair in (pair_halves (g.gp_register rax) (g.gp_register rdx)).0,
        ap (λ t. t / 2 ^ 32) back
            ∙ unfold pair in (pair_halves (g.gp_register rax) (g.gp_register rdx)).1,
        ap (λ r. r rcx) same,
        write_msr-world id (pair g),
      )
