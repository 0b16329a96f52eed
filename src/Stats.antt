-- ===== src/Stats.antt =====
-- Counting and breaking at exits: src/hvpp/hvpp/vmexit/vmexit_stats.cpp and
-- src/hvpp/hvpp/vmexit/vmexit_dbgbreak.cpp, over the storage of src/hvpp/hvpp/vmexit.h.
-- A storage is a function of an array and an index, a member that is no array being one of length 1. An index
-- outside its array, which C++ leaves undefined, ends a run with `none`. Tracing, printing and the
-- debugger are left out.
pub mod Count
pub mod Bounds
pub mod Break
mod Tests
use hvpp.Prelude.{
  ℕ, ◌+◌, ◌-◌, ◌*◌, ◌%◌, ◌^◌, Bool, true, false, ◌&&◌, Option, none, some, List, [], ◌∷◌, ltb, leb,
  ◌==◌, if◌then◌else◌, to_bit, u32,
}
use hvpp.Ept.Rebuild.{◌>>=◌}
use hvpp.Vmexit.{CrAccess, DrAccess}
use hvpp.Vmexit.Reason.{ExitReason, code}
use hvpp.Emulate.{IoAccess}

-- the members of `vmexit_storage_t`
pub data Array : Type 0 where
  vmexit exception_vector cpuid_0 cpuid_8 cpuid_other mov_from_cr mov_to_cr clts lmsw mov_from_dr
        mov_to_dr gdtr_idtr ldtr_tr io_in io_out rdmsr_0 rdmsr_c rdmsr_other wrmsr_0 wrmsr_c
        wrmsr_other :
      Array

abbrev pub tag : Array → ℕ
tag vmexit = 0
tag exception_vector = 1
tag cpuid_0 = 2
tag cpuid_8 = 3
tag cpuid_other = 4
tag mov_from_cr = 5
tag mov_to_cr = 6
tag clts = 7
tag lmsw = 8
tag mov_from_dr = 9
tag mov_to_dr = 10
tag gdtr_idtr = 11
tag ldtr_tr = 12
tag io_in = 13
tag io_out = 14
tag rdmsr_0 = 15
tag rdmsr_c = 16
tag rdmsr_other = 17
tag wrmsr_0 = 18
tag wrmsr_c = 19
tag wrmsr_other = 20

abbrev pub cpuid_max : ℕ
cpuid_max = 16

abbrev pub msr_max : ℕ
msr_max = 8192

-- the lengths, with `cpuid_0_max` and `cpuid_8_max` as they are by default
unfoldable pub size : Array → ℕ
size vmexit = 65
size exception_vector = 256
size cpuid_0 = cpuid_max
size cpuid_8 = cpuid_max
size cpuid_other = 1
size mov_from_cr = 8
size mov_to_cr = 8
size clts = 1
size lmsw = 1
size mov_from_dr = 8
size mov_to_dr = 8
size gdtr_idtr = 4
size ldtr_tr = 4
size io_in = 65536
size io_out = 65536
size rdmsr_0 = msr_max
size rdmsr_c = msr_max
size rdmsr_other = 1
size wrmsr_0 = msr_max
size wrmsr_c = msr_max
size wrmsr_other = 1

-- What the handlers read of the virtual CPU at an exit.
pub record Exit : Type 0 where
  pub reason : ExitReason
  pub vector : ℕ
  pub eax : ℕ
  pub ecx : ℕ
  pub cr_access : CrAccess
  pub cr_number : ℕ
  pub dr_access : DrAccess
  pub dr_number : ℕ
  pub io_access : IoAccess
  pub port_number : ℕ
  pub instruction : ℕ

abbrev pub Storage : Type 0 → Type 0
Storage T = Array → ℕ → T

abbrev pub same : Array → ℕ → Array → ℕ → Bool
same a i b j = tag b == tag a && j == i

abbrev pub put : {T : Type 0} → Storage T → Array → ℕ → T → Storage T
put s a i x b j = if same a i b j then x else s b j

unfoldable pub cpuid : ℕ → Array × ℕ
cpuid eax =
    if ltb eax cpuid_max
    then (cpuid_0, eax)
    else if leb (2 ^ 31) eax && ltb eax (2 ^ 31 + cpuid_max)
    then (cpuid_8, eax - 2 ^ 31)
    else (cpuid_other, 0)

-- One of the three counters of RDMSR, or of WRMSR.
unfoldable pub msr : Array → Array → Array → ℕ → Array × ℕ
msr low high other ecx =
    if leb ecx 8191
    then (low, ecx)
    else if leb 3221225472 ecx && leb ecx 3221233663
    then (high, ecx - 3221225472)
    else (other, 0)

unfoldable pub mov_cr : CrAccess → ℕ → Array × ℕ
mov_cr CrAccess.access_to_cr number = (mov_to_cr, number)
mov_cr CrAccess.access_from_cr number = (mov_from_cr, number)
mov_cr CrAccess.access_clts number = (clts, 0)
mov_cr CrAccess.access_lmsw number = (lmsw, 0)

unfoldable pub mov_dr : DrAccess → ℕ → Array × ℕ
mov_dr DrAccess.access_to_dr number = (mov_to_dr, number)
mov_dr DrAccess.access_from_dr number = (mov_from_dr, number)

unfoldable pub io : IoAccess → ℕ → Array × ℕ
io IoAccess.access_out port = (io_out, port)
io IoAccess.access_in port = (io_in, port)

-- The second counter of an exit: the `switch` over the reason.
unfoldable pub detail : ExitReason → Exit → Option (Array × ℕ)
detail ExitReason.exception_or_nmi e = some (exception_vector, e.vector)
detail ExitReason.external_interrupt e = some (exception_vector, e.vector)
detail ExitReason.execute_cpuid e = some (cpuid e.eax)
detail ExitReason.mov_cr e = some (mov_cr e.cr_access e.cr_number)
detail ExitReason.mov_dr e = some (mov_dr e.dr_access e.dr_number)
detail ExitReason.execute_io_instruction e = some (io e.io_access e.port_number)
detail ExitReason.execute_rdmsr e = some (msr rdmsr_0 rdmsr_c rdmsr_other e.ecx)
detail ExitReason.execute_wrmsr e = some (msr wrmsr_0 wrmsr_c wrmsr_other e.ecx)
detail ExitReason.gdtr_idtr_access e = some (gdtr_idtr, e.instruction)
detail ExitReason.ldtr_tr_access e = some (ldtr_tr, e.instruction)
detail r e = none

-- `stats.array[i] += 1`, on counters of 32 bits
pub increment : Storage ℕ → Array × ℕ → Option (Storage ℕ)
increment s (a, i) = if ltb i (size a) then some (put s a i (u32 (s a i + 1))) else none

pub increment_detail : Storage ℕ → Option (Array × ℕ) → Option (Storage ℕ)
increment_detail s none = some s
increment_detail s (some c) = increment s c

-- `vmexit_stats_handler::handle`, on the storage of the processor that it runs on
pub handle : Storage ℕ → Exit → Option (Storage ℕ)
handle s e = do s' ← increment s (vmexit, code e.reason); increment_detail s' (detail e.reason e)

pub storage_merge : Storage ℕ → Storage ℕ → Storage ℕ
storage_merge lhs rhs a i = if ltb i (size a) then u32 (lhs a i + rhs a i) else lhs a i

abbrev pub zeros : Storage ℕ
zeros a i = 0

-- The loop of `dump` over the processors, and what it prints.
pub merge_all : Storage ℕ → List (Storage ℕ) → Storage ℕ
merge_all merged [] = merged
merge_all merged (s ∷ storages) = merge_all (storage_merge merged s) storages

pub dump : List (Storage ℕ) → Storage ℕ
dump storages = merge_all zeros storages

-- `hvpp_break_if`: a flag that is set is cleared and breaks. The number counts the breaks.
pub break_if : Storage Bool → Array × ℕ → Option (Storage Bool × ℕ)
break_if s (a, i) = if ltb i (size a) then some (put s a i false, to_bit (s a i)) else none

pub break_detail : Storage Bool → Option (Array × ℕ) → Option (Storage Bool × ℕ)
break_detail s none = some (s, 0)
break_detail s (some c) = break_if s c

-- `vmexit_dbgbreak_handler::handle`
pub break_handle : Storage Bool → Exit → Option (Storage Bool × ℕ)
break_handle s e = do
  (s', n) ← break_if s (vmexit, code e.reason)
  (s'', m) ← break_detail s' (detail e.reason e)
  some (s'', n + m)
