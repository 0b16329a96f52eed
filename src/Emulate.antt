-- ===== src/Emulate.antt =====
-- Exit handlers of src/hvpp/hvpp/vmexit/vmexit_passthrough.cpp that emulate an instruction on the guest's
-- registers and memory: CPUID, RDMSR and WRMSR, XSETBV, RDTSCP, INVPCID, the accesses to the descriptor
-- table registers, LDTR and TR, and IN and OUT; and from src/hvpp/hvpp/vcpu.inl the address of an
-- instruction's operand.
-- `World` stands for the processor outside the guest's state, and `Cpu` for its instructions. `memory` is
-- the memory as the guest's CR3 shows it, which is where `cr3_guard` makes the handlers of the tables,
-- LDTR and TR look. INVPCID and the string instructions have no such guard and go through the host's CR3,
-- which is taken to show the operand alike. IN and OUT are the code without
-- `HVPP_ENABLE_VMWARE_WORKAROUND`: src/hvpp/hvpp/config.h defines it, and then the assembly of
-- src/hvpp/hvpp/lib/vmware/ioctx.asm runs in its place, which is left out.
pub mod Msr
pub mod Address
pub mod Tables
pub mod TaskRegister
pub mod Port
pub mod Invalidate
mod Tests
use hvpp.Prelude.{
  ℕ, zero, suc, ◌+◌, ◌-◌, ◌*◌, ◌/◌, ◌%◌, ◌^◌, bit_and, bit_or, Bool, true, false, ◌&&◌, ◌||◌, not,
  List, [], ◌∷◌, ltb, ◌==◌, if◌then◌else◌, u16, u32, u64, add64, sub64, shl64,
}
use hvpp.Prelude.Bits.{bit}
use hvpp.Segment.{
  Segment, DescriptorTable, read_bytes, write_bytes, entry_at, at, long_mode, GdtEntry,
}

pub record Cpu (World : Type 0) : Type 0 where
  pub read_msr : World → ℕ → ℕ
  pub write_msr : World → ℕ → ℕ → World
  pub cpuid : World → ℕ → ℕ → ℕ → ℕ
  pub write_xcr : World → ℕ → ℕ → World
  pub read_tsc : World → ℕ
  pub tsc_aux : World → ℕ
  -- a port of 1, 2 or 4 bytes
  pub in_port : World → ℕ → ℕ → ℕ × World
  pub out_port : World → ℕ → ℕ → ℕ → World
  -- so many elements from or to an address upward
  pub in_string : World → ℕ → ℕ → ℕ → ℕ → World
  pub out_string : World → ℕ → ℕ → ℕ → ℕ → World

-- The kinds of INVVPID that the handlers execute.
pub data Invalidation : Type 0 where
  individual_address : ℕ → Invalidation
  single_context single_context_retaining_globals : Invalidation

pub record Guest (World : Type 0) : Type 0 where
  pub gp_register : ℕ → ℕ
  pub rflags : ℕ
  pub segment : ℕ → Segment
  pub gdtr : DescriptorTable
  pub idtr : DescriptorTable
  pub cr4 : ℕ
  pub debugctl : ℕ
  pub memory : ℕ → ℕ
  pub invalidations : List Invalidation
  pub general_protection : Bool
  pub suppress_rip_adjust : Bool
  pub world : World

-- `context_t`
abbrev pub rax : ℕ
rax = 0

abbrev pub rcx : ℕ
rcx = 1

abbrev pub rdx : ℕ
rdx = 2

abbrev pub rbx : ℕ
rbx = 3

abbrev pub rsi : ℕ
rsi = 6

abbrev pub rdi : ℕ
rdi = 7

abbrev pub seg_cs : ℕ
seg_cs = 1

abbrev pub seg_fs : ℕ
seg_fs = 4

abbrev pub seg_gs : ℕ
seg_gs = 5

abbrev pub seg_ldtr : ℕ
seg_ldtr = 6

abbrev pub seg_tr : ℕ
seg_tr = 7

abbrev pub update {ℓ} : {A : Type ℓ} → (ℕ → A) → ℕ → A → ℕ → A
update f i a j = if j == i then a else f j

-- the MSRs that have a place in the VMCS
abbrev pub msr_debugctl : ℕ
msr_debugctl = 473

abbrev pub msr_fs_base : ℕ
msr_fs_base = 3221225728

abbrev pub msr_gs_base : ℕ
msr_gs_base = 3221225729

-- `instruction_info_common_t`, and the displacement of the exit qualification
pub record Operand : Type 0 where
  pub scaling : ℕ
  pub address_size : ℕ
  pub segment_register : ℕ
  pub index_register : ℕ
  pub index_register_invalid : Bool
  pub base_register : ℕ
  pub base_register_invalid : Bool
  pub displacement : ℕ

-- `instruction_info_t::size_to_mask`
pub size_to_mask : ℕ → ℕ
size_to_mask size = if size == 0 then 2 ^ 16 - 1 else if size == 1 then 2 ^ 32 - 1 else 2 ^ 64 - 1

pub data TableInstruction : Type 0 where
  sgdt sidt lgdt lidt : TableInstruction

pub data SystemInstruction : Type 0 where
  sldt str lldt ltr : SystemInstruction

-- where `instruction_info_ldtr_tr_access_t` has its operand
pub data Place : Type 0 where
  access_memory : Place
  access_register : ℕ → Place

-- `exit_qualification_io_instruction_t`
pub data IoAccess : Type 0 where
  access_out access_in : IoAccess

pub record IoQualification : Type 0 where
  pub size_of_access : ℕ
  pub access_type : IoAccess
  pub string_instruction : Bool
  pub rep_prefixed : Bool
  pub port_number : ℕ

-- `descriptor_table64_t` lies in memory as 2 bytes of limit and 8 of base address.
abbrev pub packed : DescriptorTable → ℕ
packed t = t.limit + t.base_address * 2 ^ 16

abbrev pub unpacked : ℕ → DescriptorTable
unpacked n = record { limit = n % 2 ^ 16; base_address = n / 2 ^ 16 }

-- `access.type |= type_tss_busy_flag`, which leaves the other bits of the word
pub set_busy : ℕ → ℕ
set_busy access = access / 2 ^ 4 * 2 ^ 4 + bit_or (access % 2 ^ 4) 2

-- A store to the low `n` bytes of a register.
pub store_low : ℕ → ℕ → ℕ → ℕ
store_low n old value = old / 256 ^ n * 256 ^ n + value % 256 ^ n

abbrev pub pointer : IoAccess → ℕ
pointer IoAccess.access_in = rdi
pointer IoAccess.access_out = rsi

abbrev pub is_size : ℕ → Bool
is_size size = size == 1 || size == 2 || size == 4

module _ {World : Type 0} where
  abbrev pub with_segment : Guest World → ℕ → Segment → Guest World
  with_segment g i s = record g { segment = update g.segment i s }

  -- `guest_segment_base_address(index, base_address)`
  abbrev pub set_segment_base : Guest World → ℕ → ℕ → Guest World
  set_segment_base g i a = with_segment g i (record (g.segment i) { base_address = a })

  -- `guest_segment_selector(index, selector)`
  abbrev pub set_segment_selector : Guest World → ℕ → ℕ → Guest World
  set_segment_selector g i s = with_segment g i (record (g.segment i) { selector = s })

  -- `interrupt_inject(interrupt::general_protection)` and `suppress_rip_adjust`
  abbrev pub inject_general_protection : Guest World → Guest World
  inject_general_protection g = record g { general_protection = true; suppress_rip_adjust = true }

  abbrev pub invalidate : Guest World → Invalidation → Guest World
  invalidate g i = record g { invalidations = i ∷ g.invalidations }

  -- EDX:EAX, written as two 64-bit registers
  abbrev pub set_pair : Guest World → ℕ → Guest World
  set_pair g value = record g {
    gp_register = update (update g.gp_register rax (bit_and value 4294967295)) rdx (value / 2 ^ 32);
  }

  -- `rax | rdx << 32`
  pub pair : Guest World → ℕ
  pair g = bit_or (g.gp_register rax) (shl64 (g.gp_register rdx) 32)

  -- `exit_instruction_info_guest_va`
  pub guest_va : Guest World → Operand → ℕ
  guest_va g o =
      let base = if o.base_register_invalid then 0 else g.gp_register o.base_register in
      let index = if o.index_register_invalid then 0 else g.gp_register o.index_register in
      bit_and
        (add64 (add64 (add64 (g.segment o.segment_register).base_address base) index)
          o.displacement)
        (size_to_mask o.address_size)

  pub guest_in_long_mode : Guest World → Bool
  guest_in_long_mode g =
      long_mode (entry_at g.memory (at g.gdtr.base_address (g.segment seg_cs).selector)).access == 1

  abbrev pub store_table : Guest World → ℕ → DescriptorTable → Guest World
  store_table g va t = record g {
    memory = write_bytes g.memory va (if guest_in_long_mode g then 10 else 6) (packed t);
  }

  pub handle_gdtr_idtr_access : Guest World → Operand → TableInstruction → Guest World
  handle_gdtr_idtr_access g o i = elim i [
    | TableInstruction.sgdt ↦ store_table g (guest_va g o) g.gdtr
    | TableInstruction.sidt ↦ store_table g (guest_va g o) g.idtr
    | TableInstruction.lgdt ↦ record g { gdtr = unpacked (read_bytes g.memory (guest_va g o) 10) }
    | TableInstruction.lidt ↦ record g { idtr = unpacked (read_bytes g.memory (guest_va g o) 10) }
  ]

  -- `low_word`, read and written
  abbrev pub read_low_word : Guest World → Operand → Place → ℕ
  read_low_word g o Place.access_memory = read_bytes g.memory (guest_va g o) 2
  read_low_word g o (Place.access_register r) = u16 (g.gp_register r)

  abbrev pub write_low_word : Guest World → Operand → Place → ℕ → Guest World
  write_low_word g o Place.access_memory value = record g {
    memory = write_bytes g.memory (guest_va g o) 2 value;
  }
  write_low_word g o (Place.access_register r) value = record g {
    gp_register = update g.gp_register r (store_low 2 (g.gp_register r) value);
  }

  -- The task register takes the selector, and its descriptor in memory is marked busy.
  pub load_tr : Guest World → ℕ → Guest World
  load_tr g selector =
      let address = add64 (at g.gdtr.base_address selector) 5 in
      record (set_segment_selector g seg_tr selector) {
        memory = write_bytes g.memory address 2 (set_busy (read_bytes g.memory address 2));
      }

  pub handle_ldtr_tr_access : Guest World → Operand → Place → SystemInstruction → Guest World
  handle_ldtr_tr_access g o place i = elim i [
    | SystemInstruction.sldt ↦ write_low_word g o place (g.segment seg_ldtr).selector
    | SystemInstruction.str ↦ write_low_word g o place (g.segment seg_tr).selector
    | SystemInstruction.lldt ↦ set_segment_selector g seg_ldtr (read_low_word g o place)
    | SystemInstruction.ltr ↦ load_tr g (read_low_word g o place)
  ]

  -- `type` is the low half of the register, and the descriptor the 16 bytes of the operand.
  pub handle_execute_invpcid : Guest World → Operand → ℕ → Guest World
  handle_execute_invpcid g o register =
      let type = u32 (g.gp_register register) in
      let word = read_bytes g.memory (guest_va g o) 8 in
      let linear_address = read_bytes g.memory (add64 (guest_va g o) 8) 8 in
      if ltb 3 type
      then inject_general_protection g
      else if not (word / 2 ^ 12 == 0)
      then inject_general_protection g
      else if (type == 0 || type == 1) && not (word % 2 ^ 12 == 0) && not (bit g.cr4 17 == 1)
      then inject_general_protection g
      else if type == 0
      then invalidate g (individual_address linear_address)
      else if type == 3
      then invalidate g single_context_retaining_globals
      else invalidate g single_context

  -- The registers after a string instruction: `count * size` is a product of 32 bits.
  pub move_pointer : Guest World → IoQualification → ℕ → ℕ → Guest World
  move_pointer g q count size =
      let r = pointer q.access_type in
      let p = g.gp_register r in
      let moved =
        if bit g.rflags 10 == 1
        then sub64 p (u32 (count * size))
        else add64 p (u32 (count * size)) in
      let registers = update g.gp_register r moved in
      record g { gp_register = if q.rep_prefixed then update registers rcx 0 else registers }

  module _ (cpu : Cpu World) where
    pub handle_execute_cpuid : Guest World → Guest World
    handle_execute_cpuid g =
        let info = cpu.cpuid g.world (u32 (g.gp_register rax)) (u32 (g.gp_register rcx)) in
        record g {
          gp_register =
              update
                (update (update (update g.gp_register rax (u32 (info 0))) rbx (u32 (info 1))) rcx
                  (u32 (info 2)))
                rdx (u32 (info 3));
        }

    pub read_msr : Guest World → ℕ → ℕ
    read_msr g id =
        if id == msr_debugctl
        then g.debugctl
        else if id == msr_fs_base
        then (g.segment seg_fs).base_address
        else if id == msr_gs_base
        then (g.segment seg_gs).base_address
        else cpu.read_msr g.world id

    pub handle_execute_rdmsr : Guest World → Guest World
    handle_execute_rdmsr g = set_pair g (read_msr g (u32 (g.gp_register rcx)))

    pub write_msr : Guest World → ℕ → ℕ → Guest World
    write_msr g id value =
        if id == msr_debugctl
        then record g { debugctl = value }
        else if id == msr_fs_base
        then set_segment_base g seg_fs value
        else if id == msr_gs_base
        then set_segment_base g seg_gs value
        else record g { world = cpu.write_msr g.world id value }

    pub handle_execute_wrmsr : Guest World → Guest World
    handle_execute_wrmsr g = write_msr g (u32 (g.gp_register rcx)) (pair g)

    pub handle_execute_xsetbv : Guest World → Guest World
    handle_execute_xsetbv g = record g {
      world = cpu.write_xcr g.world (u32 (g.gp_register rcx)) (pair g);
    }

    pub handle_execute_rdtscp : Guest World → Guest World
    handle_execute_rdtscp g =
        let g' = set_pair g (cpu.read_tsc g.world) in
        record g' { gp_register = update g'.gp_register rcx (u32 (cpu.tsc_aux g.world)) }

    -- One value of `size` bytes through RAX.
    pub transfer_rax : Guest World → IoAccess → ℕ → ℕ → Guest World
    transfer_rax g access size port = elim access [
      | IoAccess.access_in ↦
          let answer = cpu.in_port g.world size port in
          record g {
            gp_register = update g.gp_register rax (store_low size (g.gp_register rax) answer.0);
            world = answer.1;
          }
      | IoAccess.access_out ↦ record g {
        world = cpu.out_port g.world size port (g.gp_register rax % 256 ^ size);
      }
    ]

    -- `count` values of `size` bytes at the pointer's address upward
    abbrev pub transfer_string : Guest World → IoAccess → ℕ → ℕ → ℕ → World
    transfer_string g IoAccess.access_in size port count =
        cpu.in_string g.world size port (g.gp_register rdi) count
    transfer_string g IoAccess.access_out size port count =
        cpu.out_string g.world size port (g.gp_register rsi) count

    pub handle_execute_io_instruction : Guest World → IoQualification → Guest World
    handle_execute_io_instruction g q =
        let port = u16 q.port_number in
        let count = if q.rep_prefixed then u32 (g.gp_register rcx) else 1 in
        let size = u32 q.size_of_access + 1 in
        if q.string_instruction
        then move_pointer
            (if is_size size
              then record g { world = transfer_string g q.access_type size port count }
              else g)
            q count size
        else if is_size size
        then transfer_rax g q.access_type size port
        else g
