-- ===== src/Emulate/Tables.antt =====
-- The instructions on the descriptor table registers and on TR.
use hvpp.Prelude.{
  ℕ, zero, suc, ◌+◌, ◌*◌, ◌%◌, ◌^◌, ◌<◌, ◌≤◌, ◌≡◌, refl, ap, ◌∙◌, Bool, true, false, if◌then◌else◌,
  arith, sub64,
}
use hvpp.Segment.{DescriptorTable, read_bytes, write_bytes}
use hvpp.Segment.Bytes.{
  byte, read_bytes-eq, read_bytes-write_bytes, write_bytes-inside, write_bytes-outside,
}
use hvpp.Emulate.{
  Guest, Operand, TableInstruction, guest_va, guest_in_long_mode, handle_gdtr_idtr_access, packed,
  unpacked,
}
use hvpp.Emulate.Address.{guest_va-lt}

-- `GDTR` and `IDTR`, and their instructions
pub data TableRegister : Type 0 where
  gdtr idtr : TableRegister

abbrev pub store : TableRegister → TableInstruction
store gdtr = TableInstruction.sgdt
store idtr = TableInstruction.sidt

abbrev pub load : TableRegister → TableInstruction
load gdtr = TableInstruction.lgdt
load idtr = TableInstruction.lidt

module _ {World : Type 0} where
  abbrev pub value : Guest World → TableRegister → DescriptorTable
  value g gdtr = g.gdtr
  value g idtr = g.idtr

  abbrev pub with_value : Guest World → TableRegister → DescriptorTable → Guest World
  with_value g gdtr t = record g { gdtr = t }
  with_value g idtr t = record g { idtr = t }

byte_cut : (v i : ℕ) → i < 6 → byte v i ≡ byte (v % 2 ^ 48) i
byte_cut v zero h = omega arith
byte_cut v (suc zero) h = omega arith
byte_cut v (suc (suc zero)) h = omega arith
byte_cut v (suc (suc (suc zero))) h = omega arith
byte_cut v (suc (suc (suc (suc zero)))) h = omega arith
byte_cut v (suc (suc (suc (suc (suc zero))))) h = omega arith
byte_cut v (suc (suc (suc (suc (suc (suc i)))))) h = absurd (omega arith)

read_six :
    (a v : ℕ) (memory : ℕ → ℕ) → a < 2 ^ 64 → read_bytes (write_bytes memory a 6 v) a 6 ≡ v % 2 ^ 48
read_six a v memory ha =
    read_bytes-eq 6 a (v % 2 ^ 48) (write_bytes memory a 6 v) ha (omega arith)
      (λ i l. write_bytes-inside 6 i a v memory ha l (omega arith) ∙ byte_cut v i l)

-- the bytes that SGDT and SIDT store
abbrev pub stored_size : Bool → ℕ
stored_size long = if long then 10 else 6

read_stored :
    (long : Bool) (a : ℕ) (t : DescriptorTable) (memory : ℕ → ℕ)
    → a < 2 ^ 64
    → t.limit < 2 ^ 16
    → t.base_address < 2 ^ 64
    → read_bytes (write_bytes memory a (stored_size long) (packed t)) a (stored_size long)
      ≡ t.limit + (if long then t.base_address else t.base_address % 2 ^ 32) * 2 ^ 16
read_stored true a t memory ha hl hb =
    read_bytes-write_bytes 10 a (packed t) memory ha (omega arith) (omega arith)
read_stored false a t memory ha hl hb = read_six a (packed t) memory ha ∙ (omega arith)

module _ {World : Type 0} (g : Guest World) (o : Operand) where
  -- SGDT and SIDT: the operand gets the limit in 2 bytes and then the base address, in 8 bytes if the guest's
  -- code segment is marked long and else its low 4 bytes. Every byte outside the operand stays,
  -- and so does the register.
  pub store_lem :
      (r : TableRegister) (x : ℕ)
      → (value g r).limit < 2 ^ 16
      → (value g r).base_address < 2 ^ 64
      → x < 2 ^ 64
      → stored_size (guest_in_long_mode g) ≤ sub64 x (guest_va g o)
      → (read_bytes
            (handle_gdtr_idtr_access g o (store r)).memory
            (guest_va g o)
            (stored_size (guest_in_long_mode g))
          ≡ (value g r).limit
            + (if guest_in_long_mode g
                then (value g r).base_address
                else (value g r).base_address % 2 ^ 32)
              * 2 ^ 16)
        × ((handle_gdtr_idtr_access g o (store r)).memory x ≡ g.memory x)
        × (value (handle_gdtr_idtr_access g o (store r)) r ≡ value g r)
  unfolding handle_gdtr_idtr_access
  store_lem gdtr x hl hb hx out = (
    read_stored (guest_in_long_mode g) (guest_va g o) g.gdtr g.memory (guest_va-lt g o) hl hb,
    write_bytes-outside (stored_size (guest_in_long_mode g)) (guest_va g o) (packed g.gdtr) x
        g.memory (guest_va-lt g o) hx out,
    refl,
  )
  store_lem idtr x hl hb hx out = (
    read_stored (guest_in_long_mode g) (guest_va g o) g.idtr g.memory (guest_va-lt g o) hl hb,
    write_bytes-outside (stored_size (guest_in_long_mode g)) (guest_va g o) (packed g.idtr) x
        g.memory (guest_va-lt g o) hx out,
    refl,
  )

  unpacked-packed : (t : DescriptorTable) → t.limit < 2 ^ 16 → unpacked (packed t) ≡ t
  unpacked-packed t h = ground arith

  reload :
      (t : DescriptorTable)
      → t.limit < 2 ^ 16
      → t.base_address < 2 ^ 64
      → guest_in_long_mode g ≡ true
      → unpacked (
          read_bytes
            (write_bytes g.memory (guest_va g o) (stored_size (guest_in_long_mode g)) (packed t))
            (guest_va g o)
            10)
        ≡ t
  reload t hl hb long =
      ap
        (λ b. unpacked (
          read_bytes (write_bytes g.memory (guest_va g o) (stored_size b) (packed t)) (guest_va g o)
            10))
        long
      ∙ ap unpacked (
          read_bytes-write_bytes 10 (guest_va g o) (packed t) g.memory (guest_va-lt g o)
            (omega arith) (omega arith))
      ∙ unpacked-packed t hl

  -- In a long code segment LGDT after SGDT of the same operand, and LIDT after SIDT, put the register back,
  -- whatever it has been set to in between.
  load-store :
      (r : TableRegister) (t : DescriptorTable)
      → (value g r).limit < 2 ^ 16
      → (value g r).base_address < 2 ^ 64
      → guest_in_long_mode g ≡ true
      → value
          (handle_gdtr_idtr_access
            (with_value (handle_gdtr_idtr_access g o (store r)) r t)
            o
            (load r))
          r
        ≡ value g r
  unfolding handle_gdtr_idtr_access guest_va
  load-store gdtr t hl hb long = reload g.gdtr hl hb long
  load-store idtr t hl hb long = reload g.idtr hl hb long
