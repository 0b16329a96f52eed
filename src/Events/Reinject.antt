-- ===== src/Events/Reinject.antt =====
-- The branches of `handle_interrupt`: the emulated instructions, the fault while one is read, and the
-- event that goes back to the guest.
use hvpp.Prelude.{
  ℕ, ◌<◌, ◌≡◌, ◌⊎◌, ap, ◌∙◌, ◌&&◌, some, ◌==◌, if◌then◌else◌, arith, add64, Bool-cases, inl, inr,
}
use hvpp.Interrupt
use hvpp.Interrupt.{
  InterruptType, valid, error_code_valid, provides_error_code, interrupt_inject, interruptible,
}
use hvpp.Vmexit.Opcode.{
  is_syscall_instruction, is_sysret_instruction, is_rdtsc_instruction, is_rdtscp_instruction,
}
use hvpp.Events.{
  Hardware, Cpu, Fetched, fetched, failed, fetch, interrupt_info, handle_interrupt, by_type,
  and_then, handle_hardware, on_invalid_opcode, on_general_protection, handle_emulate_syscall,
  handle_emulate_sysret, handle_emulate_rdtsc, handle_emulate_rdtscp, suppress_rip_adjust, reinject,
  fault, read_size,
}
use hvpp.Events.Fetch.{IsReadable, IsMapped, physical, instruction, fetch-mapped, fetch-unmapped}

module _ (hw : Hardware) (c : Cpu) where
  abbrev pub vector : ℕ
  vector = Interrupt.vector (interrupt_info c)

  on_exception :
      Interrupt.type (interrupt_info c) ≡ InterruptType.hardware_exception
      → handle_interrupt hw c ≡ handle_hardware hw c vector
  unfolding handle_interrupt by_type
  on_exception kind = ap (λ t. by_type hw c t vector) kind

  -- the two readers, on an instruction that has been read
  invalid_opcode :
      vector ≡ 6
      → (r : Fetched) → fetch hw c ≡ some (c, r)
      → handle_hardware hw c vector ≡ some (on_invalid_opcode hw c r)
  unfolding handle_hardware
  invalid_opcode six r read =
      ap (handle_hardware hw c) six ∙ ap (and_then (on_invalid_opcode hw)) read

  general_protection :
      vector ≡ 13
      → (r : Fetched) → fetch hw c ≡ some (c, r)
      → handle_hardware hw c vector ≡ some (on_general_protection hw c r)
  unfolding handle_hardware
  general_protection thirteen r read =
      ap (handle_hardware hw c) thirteen ∙ ap (and_then (on_general_protection hw)) read

  pub handle_interrupt_lem :
      Interrupt.type (interrupt_info c) ≡ InterruptType.hardware_exception
      → IsReadable hw c
      → IsMapped (physical hw c) c.rip (read_size hw c)
      → handle_interrupt hw c
        ≡ some (
            if vector == 6 && is_syscall_instruction (instruction hw c)
            then suppress_rip_adjust (handle_emulate_syscall hw c)
            else if vector == 6 && is_sysret_instruction (instruction hw c)
            then suppress_rip_adjust (handle_emulate_sysret hw c)
            else if vector == 13 && is_rdtsc_instruction (instruction hw c)
            then handle_emulate_rdtsc hw c
            else if vector == 13 && is_rdtscp_instruction (instruction hw c)
            then handle_emulate_rdtscp hw c
            else reinject hw (record c { cr2 = if vector == 14 then c.linear_address else c.cr2 }))
  unfolding handle_hardware on_invalid_opcode on_general_protection
  handle_interrupt_lem kind r m =
      let read = fetch-mapped hw c r m in
      on_exception kind ∙ elim (Bool-cases (vector == 6)) [
        | inl six ↦
            invalid_opcode (ground (arith, six)) (fetched (instruction hw c)) read ∙ ground arith
        | inr other ↦ elim (Bool-cases (vector == 13)) [
          | inl thirteen ↦
              general_protection (ground (arith, thirteen)) (fetched (instruction hw c)) read
              ∙ ground arith
          | inr neither ↦ ground arith
        ]
      ]

  pub handle_interrupt-fault :
      (j : ℕ)
      → Interrupt.type (interrupt_info c) ≡ InterruptType.hardware_exception
      → (vector ≡ 6) ⊎ (vector ≡ 13)
      → IsReadable hw c
      → j < read_size hw c
      → IsMapped (physical hw c) c.rip j
      → physical hw c (add64 c.rip j) ≡ 0
      → 0 < add64 c.rip j
      → handle_interrupt hw c ≡ some (fault hw c (add64 c.rip j))
  unfolding on_invalid_opcode on_general_protection
  handle_interrupt-fault j kind (inl six) r l m gone ne =
      on_exception kind
      ∙ invalid_opcode six (failed (add64 c.rip j)) (fetch-unmapped hw c j r l m gone ne)
  handle_interrupt-fault j kind (inr thirteen) r l m gone ne =
      on_exception kind
      ∙ general_protection thirteen (failed (add64 c.rip j)) (fetch-unmapped hw c j r l m gone ne)
