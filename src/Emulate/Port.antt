-- ===== src/Emulate/Port.antt =====
-- The string instructions INS and OUTS against the processor's own rule, one element after the other.
use hvpp.Prelude.{
  ℕ, zero, suc, ◌+◌, ◌*◌, ◌^◌, ◌<◌, ◌≡◌, ◌≢◌, refl, ap, sym, ◌∙◌, true, if◌then◌else◌, arith, add64,
  u16, u32,
}
use hvpp.Prelude.Bits.{bit}
use hvpp.Emulate.{
  Cpu, Guest, IoAccess, IoQualification, handle_execute_io_instruction, move_pointer,
  transfer_string, pointer, is_size, rcx,
}
use native.Mathlib.Nat.{suc-mul}

pair_eq : {A : Type 0} {a b : A} {m n : ℕ} → a ≡ b → m ≡ n → ◌≡◌ {A = A × ℕ} (a, m) (b, n)
pair_eq p q = λ i. (p i, q i)

module _ {World : Type 0} (cpu : Cpu World) where
  -- `count` elements of a string, by one of the two instructions
  abbrev pub string : IoAccess → World → ℕ → ℕ → ℕ → ℕ → World
  string IoAccess.access_in = cpu.in_string
  string IoAccess.access_out = cpu.out_string

  -- A repeated instruction of the processor is its first element and then the rest, upward.
  pub record IsUpward (direction : IoAccess) (size port : ℕ) : Type 0 where
    pub none_left : (w : World) (a : ℕ) → string direction w size port a 0 ≡ w
    pub one_more :
        (w : World) (a n : ℕ)
        → string direction w size port a (suc n)
          ≡ string direction (string direction w size port a 1) size port (add64 a size) n

  -- The reference: `count` times one element, the pointer moving up and the counter down.
  pub one_by_one : ℕ → IoAccess → ℕ → ℕ → World → ℕ → World × ℕ
  one_by_one zero direction size port w a = (w, a)
  one_by_one (suc n) direction size port w a =
      one_by_one n direction size port (string direction w size port a 1) (add64 a size)

  one_by_one_lem :
      (n : ℕ) (direction : IoAccess) (size port : ℕ) (w : World) (a : ℕ)
      → IsUpward direction size port
      → a < 2 ^ 64
      → one_by_one n direction size port w a
        ≡ (string direction w size port a n, add64 a (n * size))
  unfolding one_by_one
  one_by_one_lem zero direction size port w a up h = pair_eq (sym (up.none_left w a)) (omega arith)
  one_by_one_lem (suc n) direction size port w a up h =
      one_by_one_lem n direction size port (string direction w size port a 1) (add64 a size) up
        (omega arith)
      ∙ pair_eq (sym (up.one_more w a n)) (omega (arith, suc-mul n size))

-- how often the instruction is executed
abbrev pub count : {World : Type 0} → Guest World → IoQualification → ℕ
count g q = if q.rep_prefixed then g.gp_register rcx else 1

pointer-ne : (a : IoAccess) → pointer a ≢ rcx
pointer-ne IoAccess.access_in = λ e. omega arith
pointer-ne IoAccess.access_out = λ e. omega arith

transfer_string-string :
    {World : Type 0} (cpu : Cpu World) (g : Guest World) (a : IoAccess) (size port n : ℕ)
    → transfer_string cpu g a size port n
      ≡ string cpu a g.world size port (g.gp_register (pointer a)) n
transfer_string-string cpu g IoAccess.access_in size port n = refl
transfer_string-string cpu g IoAccess.access_out size port n = refl

module _ {World : Type 0} (g : Guest World) (q : IoQualification) (n size : ℕ) where
  move_pointer-pointer :
      bit g.rflags 10 ≡ 0
      → n * size < 2 ^ 32
      → (move_pointer g q n size).gp_register (pointer q.access_type)
        ≡ add64 (g.gp_register (pointer q.access_type)) (n * size)
  unfolding move_pointer
  move_pointer-pointer up small = let differs = pointer-ne q.access_type in ground arith

  move_pointer-counter :
      (move_pointer g q n size).gp_register rcx ≡ (if q.rep_prefixed then 0 else g.gp_register rcx)
  unfolding move_pointer
  move_pointer-counter = let differs = pointer-ne q.access_type in ground arith

  move_pointer-other :
      (j : ℕ)
      → j ≢ pointer q.access_type
      → j ≢ rcx
      → (move_pointer g q n size).gp_register j ≡ g.gp_register j
  unfolding move_pointer
  move_pointer-other j p r = ground arith

module _ {World : Type 0} (cpu : Cpu World) (g : Guest World) (q : IoQualification) where
  abbrev pub size : ℕ
  size = u32 q.size_of_access + 1

  -- the state between the transfer and the update of the registers
  abbrev transferred : Guest World
  transferred = record g {
    world =
        string cpu q.access_type g.world size (u16 q.port_number)
          (g.gp_register (pointer q.access_type)) (count g q);
  }

  handle-string :
      q.string_instruction ≡ true
      → is_size size ≡ true
      → count g q < 2 ^ 32
      → handle_execute_io_instruction cpu g q ≡ move_pointer transferred q (count g q) size
  unfolding handle_execute_io_instruction
  handle-string string_instruction known small =
      let n : (if q.rep_prefixed then u32 (g.gp_register rcx) else 1) ≡ count g q = ground arith in
      simp (string_instruction, known, n)
        (ap (λ w. move_pointer (record g { world = w }) q (count g q) size)
          (transfer_string-string cpu g q.access_type size (u16 q.port_number) (count g q)))

  -- Without the workaround for VMware: a string IN or OUT of a size that exists, with the direction flag clear and less than 2 ^ 32
  -- bytes in all, on a processor that moves the elements of a repeated instruction upward: the
  -- device and the memory end as after the elements one by one, RDI or RSI has moved past them,
  -- RCX is 0 after a REP prefix and else as it was, and no other register changes.
  pub string_lem :
      (j : ℕ)
      → q.string_instruction ≡ true
      → is_size size ≡ true
      → bit g.rflags 10 ≡ 0
      → count g q < 2 ^ 32
      → count g q * size < 2 ^ 32
      → g.gp_register (pointer q.access_type) < 2 ^ 64
      → IsUpward cpu q.access_type size (u16 q.port_number)
      → j ≢ pointer q.access_type
      → j ≢ rcx
      → ((handle_execute_io_instruction cpu g q).world
          ≡ (one_by_one cpu
              (count g q)
              q.access_type
              size
              (u16 q.port_number)
              g.world
              (g.gp_register (pointer q.access_type))).0)
        × ((handle_execute_io_instruction cpu g q).gp_register (pointer q.access_type)
            ≡ (one_by_one cpu
                (count g q)
                q.access_type
                size
                (u16 q.port_number)
                g.world
                (g.gp_register (pointer q.access_type))).1)
        × ((handle_execute_io_instruction cpu g q).gp_register rcx
            ≡ (if q.rep_prefixed then 0 else g.gp_register rcx))
        × ((handle_execute_io_instruction cpu g q).gp_register j ≡ g.gp_register j)
  unfolding move_pointer
  string_lem j string_instruction known up n_small total_small p_small law ne_pointer ne_rcx =
      let whole = handle-string string_instruction known n_small in
      let reference =
        one_by_one_lem cpu (count g q) q.access_type size (u16 q.port_number) g.world
          (g.gp_register (pointer q.access_type)) law p_small in
      (
        ap (λ h. h.world) whole ∙ sym (ap (λ r. r.0) reference),
        ap (λ h. h.gp_register (pointer q.access_type)) whole
            ∙ move_pointer-pointer transferred q (count g q) size up total_small
            ∙ sym (ap (λ r. r.1) reference),
        ap (λ h. h.gp_register rcx) whole ∙ move_pointer-counter transferred q (count g q) size,
        ap (λ h. h.gp_register j) whole
            ∙ move_pointer-other transferred q (count g q) size j ne_pointer ne_rcx,
      )
