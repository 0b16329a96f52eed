-- ===== src/Emulate/Tests.antt =====
-- The theorems on the emulated instructions, at concrete guests. The world is a list: the values written
-- to MSRs, and the addresses of the elements of strings.
use hvpp.Prelude.{
  ℕ, zero, suc, ◌+◌, ◌-◌, ◌*◌, ◌^◌, ◌≡◌, ◌⊎◌, refl, true, false, List, [], ◌∷◌, ◌==◌, if◌then◌else◌,
  arith, u64, add64,
}
use hvpp.Prelude.Bits.{bit}
use hvpp.Segment.{read_bytes, entry_at, at}
use hvpp.Emulate.{
  Cpu, Guest, Operand, Place, TableInstruction, SystemInstruction, IoAccess, IoQualification,
  Invalidation, handle_execute_rdmsr, handle_execute_wrmsr, handle_execute_cpuid,
  handle_execute_rdtscp, handle_gdtr_idtr_access, handle_ldtr_tr_access, handle_execute_invpcid,
  handle_execute_io_instruction, transfer_rax, store_low, pair, guest_va, size_to_mask,
  guest_in_long_mode, rax, rcx, rdx, rdi, seg_tr,
}
use hvpp.Emulate.Msr.{rdmsr-wrmsr}
use hvpp.Emulate.Address.{guest_va_lem, index_value, linear_address}
use hvpp.Emulate.Tables.{store_lem, gdtr}
use hvpp.Emulate.TaskRegister.{ltr_lem, descriptor}
use hvpp.Emulate.Port.{IsUpward, string_lem, one_by_one}
use hvpp.Emulate.Invalidate.{invpcid_lem, IsFault, Covers, type, address}

head : List ℕ → ℕ
head [] = 0
head (x ∷ xs) = x

elements : List ℕ → ℕ → ℕ → ℕ → ℕ → List ℕ
elements w size port a zero = w
elements w size port a (suc n) = elements (a ∷ w) size port (add64 a size) n

abbrev cpu : Cpu (List ℕ)
cpu = record {
  read_msr = λ w id. head w;
  write_msr = λ w id v. v ∷ w;
  cpuid = λ w leaf sub i. leaf + i;
  write_xcr = λ w id v. v ∷ w;
  read_tsc = λ w. 21474836487;
  tsc_aux = λ w. 3;
  in_port = λ w size port. (4660, port ∷ w);
  out_port = λ w size port v. v ∷ w;
  in_string = elements;
  out_string = elements;
}

-- Every register but RCX and RDI is twice its number; the code segment is the descriptor 16.
abbrev guest : ℕ → Guest (List ℕ)
guest counter = record {
  gp_register = λ i. if i == 1 then counter else if i == 7 then 8192 else 2 * i;
  rflags = 2;
  segment = λ i. record { base_address = 0; limit = 0; access = 0; unusable = 0; selector = 16 };
  gdtr = record { limit = 127; base_address = 4096 };
  idtr = record { limit = 4095; base_address = 8192 };
  cr4 = 0;
  debugctl = 0;
  memory = λ a. if a == 4118 then 32 else if a == 4117 then 9 else 0;
  invalidations = [];
  general_protection = false;
  suppress_rip_adjust = false;
  world = [];
}

-- [RDI + 8 * R8 + 100]
abbrev operand : Operand
operand = record {
  scaling = 3;
  address_size = 2;
  segment_register = 3;
  index_register = 8;
  index_register_invalid = false;
  base_register = 7;
  base_register_invalid = false;
  displacement = 100;
}

rdmsr-wrmsr_example :
    ((handle_execute_rdmsr cpu (handle_execute_wrmsr cpu (guest 27))).gp_register rax ≡ 0)
    × ((handle_execute_rdmsr cpu (handle_execute_wrmsr cpu (guest 27))).gp_register rdx ≡ 4)
    × ((handle_execute_rdmsr cpu (handle_execute_wrmsr cpu (guest 27))).gp_register rcx ≡ 27)
    × ((handle_execute_rdmsr cpu (handle_execute_wrmsr cpu (guest 27))).world
        ≡ cpu.write_msr [] 27 (pair (guest 27)))
unfolding head
rdmsr-wrmsr_example = rdmsr-wrmsr cpu (guest 27) refl

guest_va_lem_example :
    u64 (guest_va (guest 0) operand + index_value (guest 0) operand * (2 ^ 3 - 1))
    ≡ linear_address (guest 0) operand
guest_va_lem_example = guest_va_lem (guest 0) operand refl (omega arith)

-- The index 16 is not scaled.
guest_va_runs : guest_va (guest 0) operand ≡ 8308
unfolding guest_va size_to_mask
guest_va_runs = refl

store_lem_example :
    (read_bytes
        (handle_gdtr_idtr_access (guest 0) operand TableInstruction.sgdt).memory
        (guest_va (guest 0) operand)
        10
      ≡ 127 + 4096 * 2 ^ 16)
    × ((handle_gdtr_idtr_access (guest 0) operand TableInstruction.sgdt).memory 8318 ≡ 0)
    × ((handle_gdtr_idtr_access (guest 0) operand TableInstruction.sgdt).gdtr
        ≡ record { limit = 127; base_address = 4096 })
unfolding guest_in_long_mode entry_at at read_bytes guest_va size_to_mask
store_lem_example =
    store_lem (guest 0) operand gdtr 8318 (omega arith) (omega arith) (omega arith) (omega arith)

-- the guest after LTR of the selector 16 in R8
abbrev loaded : Guest (List ℕ)
loaded = handle_ldtr_tr_access (guest 0) operand (Place.access_register 8) SystemInstruction.ltr

-- The byte at 4119 lies in the descriptor, right behind the access word.
ltr_lem_example :
    (descriptor (guest 0) operand (Place.access_register 8) loaded
      ≡ record (descriptor (guest 0) operand (Place.access_register 8) (guest 0)) {
        access = (descriptor (guest 0) operand (Place.access_register 8) loaded).access;
      })
    × (bit (descriptor (guest 0) operand (Place.access_register 8) loaded).access 1 ≡ 1)
    × (loaded.memory 4119 ≡ 0)
    × (loaded.segment seg_tr ≡ record ((guest 0).segment seg_tr) { selector = 16 })
    × (loaded ≡ record (guest 0) { memory = loaded.memory; segment = loaded.segment })
unfolding at
ltr_lem_example =
    ltr_lem (guest 0) operand (Place.access_register 8) 1 4119 7 (omega arith) (omega arith)

-- REP INSW of three words
abbrev words : IoQualification
words = record {
  size_of_access = 1;
  access_type = IoAccess.access_in;
  string_instruction = true;
  rep_prefixed = true;
  port_number = 496;
}

upward : IsUpward cpu IoAccess.access_in 2 496
unfolding elements
upward = record { none_left = λ w a. refl; one_more = λ w a n. refl }

string_lem_example :
    ((handle_execute_io_instruction cpu (guest 3) words).world
      ≡ (one_by_one cpu 3 IoAccess.access_in 2 496 [] 8192).0)
    × ((handle_execute_io_instruction cpu (guest 3) words).gp_register rdi
        ≡ (one_by_one cpu 3 IoAccess.access_in 2 496 [] 8192).1)
    × ((handle_execute_io_instruction cpu (guest 3) words).gp_register rcx ≡ 0)
    × ((handle_execute_io_instruction cpu (guest 3) words).gp_register 8 ≡ 16)
unfolding bit
string_lem_example =
    string_lem cpu (guest 3) words 8 refl refl refl (omega arith) (omega arith) (omega arith) upward
      (λ e. omega arith) (λ e. omega arith)

invpcid_lem_example :
    (IsFault (guest 0) operand 8
      × ((handle_execute_invpcid (guest 0) operand 8).general_protection ≡ true)
      × ((handle_execute_invpcid (guest 0) operand 8).suppress_rip_adjust ≡ true)
      × ((handle_execute_invpcid (guest 0) operand 8).invalidations ≡ []))
    ⊎ ((¬ IsFault (guest 0) operand 8)
        × ((handle_execute_invpcid (guest 0) operand 8).general_protection ≡ false)
        × ((handle_execute_invpcid (guest 0) operand 8).suppress_rip_adjust ≡ false)
        × ((i : Invalidation) × ((handle_execute_invpcid (guest 0) operand 8).invalidations
              ≡ i ∷ [])
            × Covers (type (guest 0) operand 8) (address (guest 0) operand 8) i))
invpcid_lem_example = invpcid_lem (guest 0) operand 8

cpuid_runs : (handle_execute_cpuid cpu (guest 1)).gp_register rdx ≡ 3
unfolding handle_execute_cpuid
cpuid_runs = refl

rdtscp_runs :
    ((handle_execute_rdtscp cpu (guest 1)).gp_register rax ≡ 7)
    × ((handle_execute_rdtscp cpu (guest 1)).gp_register rdx ≡ 5)
    × ((handle_execute_rdtscp cpu (guest 1)).gp_register rcx ≡ 3)
unfolding handle_execute_rdtscp
rdtscp_runs = (refl, refl, refl)

-- A 32-bit IN leaves the upper half of RAX.
in_keeps_upper_half :
    (handle_execute_io_instruction cpu
        (record (guest 3) { gp_register = λ i. 2 ^ 40 })
        (record words { size_of_access = 3; string_instruction = false })).gp_register
      rax
    ≡ 2 ^ 40 + 4660
unfolding handle_execute_io_instruction transfer_rax store_low
in_keeps_upper_half = refl
