-- ===== src/Vmcs.antt =====
-- The fields of the VMCS that hold the guest's segment registers and descriptor tables: their encodings
-- in src/hvpp/hvpp/ia32/vmx/vmcs.h, and the accessors of src/hvpp/hvpp/vcpu.inl by name and by index.
-- The VMCS is a function of the field. VMREAD and VMWRITE succeed, and a value has the width of its field.
pub mod Encoding
pub mod Register
mod Tests
use hvpp.Prelude.{ℕ, ◌+◌, ◌*◌, ◌/◌, ◌%◌, ◌^◌, bit_and, bit_or, ◌==◌, if◌then◌else◌, u16}
use hvpp.Segment.{Segment, DescriptorTable}

-- `vmcs_access_type_t`, `vmcs_type_t` and `vmcs_width_t`, with their values
pub data AccessType : Type 0 where
  full high : AccessType

pub data FieldType : Type 0 where
  control vmexit guest host : FieldType

pub data Width : Type 0 where
  bits_16 bits_64 bits_32 natural : Width

unfoldable pub access_code : AccessType → ℕ
access_code full = 0
access_code high = 1

unfoldable pub type_code : FieldType → ℕ
type_code control = 0
type_code vmexit = 1
type_code guest = 2
type_code host = 3

unfoldable pub width_code : Width → ℕ
width_code bits_16 = 0
width_code bits_64 = 1
width_code bits_32 = 2
width_code natural = 3

-- the bytes of a value, in spite of its name
unfoldable pub width_to_bits : Width → ℕ
width_to_bits bits_16 = 2
width_to_bits bits_64 = 8
width_to_bits bits_32 = 4
width_to_bits natural = 8

unfoldable pub encode : AccessType → FieldType → Width → ℕ → ℕ
encode a t w index = u16 (
    bit_or (bit_or (bit_or (access_code a) (index * 2 ^ 1)) (type_code t * 2 ^ 10))
      (width_code w * 2 ^ 13))

unfoldable pub encode_full : FieldType → Width → ℕ → ℕ
encode_full t w index = encode full t w index

-- the `static_cast`s of `decode`
unfoldable pub to_access : ℕ → AccessType
to_access n = if n == 0 then full else high

unfoldable pub to_type : ℕ → FieldType
to_type n = if n == 0 then control else if n == 1 then vmexit else if n == 2 then guest else host

unfoldable pub to_width : ℕ → Width
to_width n =
    if n == 0 then bits_16 else if n == 1 then bits_64 else if n == 2 then bits_32 else natural

pub decode : ℕ → AccessType × FieldType × Width × ℕ
decode field = (
  to_access (bit_and field 1),
  to_type (bit_and (field / 2 ^ 10) 3),
  to_width (bit_and (field / 2 ^ 13) 3),
  bit_and (field / 2 ^ 1) 511,
)

-- the segment registers, with their numbers in `context_t`
pub data SegmentRegister : Type 0 where
  es cs ss ds fs gs ldtr tr : SegmentRegister

unfoldable pub index : SegmentRegister → ℕ
index es = 0
index cs = 1
index ss = 2
index ds = 3
index fs = 4
index gs = 5
index ldtr = 6
index tr = 7

-- `guest_es_base` to `guest_tr_base`
unfoldable pub guest_base : SegmentRegister → ℕ
guest_base es = encode_full guest natural 3
guest_base cs = encode_full guest natural 4
guest_base ss = encode_full guest natural 5
guest_base ds = encode_full guest natural 6
guest_base fs = encode_full guest natural 7
guest_base gs = encode_full guest natural 8
guest_base ldtr = encode_full guest natural 9
guest_base tr = encode_full guest natural 10

unfoldable pub guest_limit : SegmentRegister → ℕ
guest_limit es = encode_full guest bits_32 0
guest_limit cs = encode_full guest bits_32 1
guest_limit ss = encode_full guest bits_32 2
guest_limit ds = encode_full guest bits_32 3
guest_limit fs = encode_full guest bits_32 4
guest_limit gs = encode_full guest bits_32 5
guest_limit ldtr = encode_full guest bits_32 6
guest_limit tr = encode_full guest bits_32 7

unfoldable pub guest_access_rights : SegmentRegister → ℕ
guest_access_rights es = encode_full guest bits_32 10
guest_access_rights cs = encode_full guest bits_32 11
guest_access_rights ss = encode_full guest bits_32 12
guest_access_rights ds = encode_full guest bits_32 13
guest_access_rights fs = encode_full guest bits_32 14
guest_access_rights gs = encode_full guest bits_32 15
guest_access_rights ldtr = encode_full guest bits_32 16
guest_access_rights tr = encode_full guest bits_32 17

unfoldable pub guest_selector : SegmentRegister → ℕ
guest_selector es = encode_full guest bits_16 0
guest_selector cs = encode_full guest bits_16 1
guest_selector ss = encode_full guest bits_16 2
guest_selector ds = encode_full guest bits_16 3
guest_selector fs = encode_full guest bits_16 4
guest_selector gs = encode_full guest bits_16 5
guest_selector ldtr = encode_full guest bits_16 6
guest_selector tr = encode_full guest bits_16 7

-- `guest_gdtr_base`, `guest_gdtr_limit`, `guest_idtr_base` and `guest_idtr_limit`
abbrev pub guest_gdtr_base : ℕ
guest_gdtr_base = encode_full guest natural 11

abbrev pub guest_gdtr_limit : ℕ
guest_gdtr_limit = encode_full guest bits_32 8

abbrev pub guest_idtr_base : ℕ
guest_idtr_base = encode_full guest natural 12

abbrev pub guest_idtr_limit : ℕ
guest_idtr_limit = encode_full guest bits_32 9

abbrev pub Vmcs : Type 0
Vmcs = ℕ → ℕ

abbrev pub vmwrite : Vmcs → ℕ → ℕ → Vmcs
vmwrite v field value x = if x == field then value else v x

-- A segment register at the four fields, where the access rights are `flags` and above them `unusable`.
unfoldable pub read_at : Vmcs → ℕ → ℕ → ℕ → ℕ → Segment
read_at v base limit access selector = record {
  base_address = v base;
  limit = v limit;
  access = v access % 2 ^ 16;
  unusable = v access / 2 ^ 16;
  selector = v selector;
}

unfoldable pub write_at : Vmcs → ℕ → ℕ → ℕ → ℕ → Segment → Vmcs
write_at v base limit access selector s =
    vmwrite
      (vmwrite (vmwrite (vmwrite v base s.base_address) limit s.limit) access
        (s.access + s.unusable * 2 ^ 16))
      selector s.selector

-- `guest_cs()` and `guest_cs(cs)`, and so for the other registers
pub named : Vmcs → SegmentRegister → Segment
named v r = read_at v (guest_base r) (guest_limit r) (guest_access_rights r) (guest_selector r)

pub set_named : Vmcs → SegmentRegister → Segment → Vmcs
set_named v r s =
    write_at v (guest_base r) (guest_limit r) (guest_access_rights r) (guest_selector r) s

-- `guest_segment(index)` and `guest_segment(index, seg)`
pub guest_segment : Vmcs → ℕ → Segment
guest_segment v i =
    read_at v (guest_base es + i * 2) (guest_limit es + i * 2) (guest_access_rights es + i * 2)
      (guest_selector es + i * 2)

pub set_guest_segment : Vmcs → ℕ → Segment → Vmcs
set_guest_segment v i s =
    write_at v (guest_base es + i * 2) (guest_limit es + i * 2) (guest_access_rights es + i * 2)
      (guest_selector es + i * 2) s

pub guest_gdtr : Vmcs → DescriptorTable
guest_gdtr v = record { limit = v guest_gdtr_limit % 2 ^ 16; base_address = v guest_gdtr_base }

pub guest_idtr : Vmcs → DescriptorTable
guest_idtr v = record { limit = v guest_idtr_limit % 2 ^ 16; base_address = v guest_idtr_base }
