-- ===== src/Lib.antt =====
-- hvpp, a hypervisor for Intel processors: models of its core and proofs about them.
--
-- The hypervisor gives its own objects pages from a pool (src/hvpp/hvpp/lib/mm/memory_allocator),
-- whose used pages stand in a bitmap (src/hvpp/hvpp/lib/bitmap.cpp); both round sizes to pages with
-- the helpers of src/hvpp/hvpp/ia32/paging.h. Each virtual CPU (src/hvpp/hvpp/vcpu.inl) injects
-- events into its guest, and keeps those that the guest cannot take in queues
-- (src/hvpp/hvpp/lib/deque.h) until a window exit (src/hvpp/hvpp/vmexit/vmexit_passthrough.cpp).
-- The page tables (src/hvpp/hvpp/ept.cpp) take the memory type of an address from the MTRR
-- descriptor (src/hvpp/hvpp/lib/mm/mtrr_descriptor.h), and the driver's hooks
-- (src/hvppdrv/vmexit_custom.cpp) split, map and join their pages. `hypervisor::start`
-- (src/hvpp/hvpp/hypervisor.cpp) starts a virtual CPU on each processor. At an exit it calls a
-- handler chosen by the exit's reason, and the handlers emulate the instruction on the guest's
-- registers, or give the exception back to it, and read and write its memory through its page
-- tables. Two more handlers (src/hvpp/hvpp/vmexit/vmexit_stats.cpp, vmexit_dbgbreak.cpp) count the
-- exits and break at them. `operator new` asks the allocator of the processor, which guards change
-- (src/hvpp/hvpp/lib/mm.cpp).
--
-- Files, each with a module of its name:
-- - Prelude: tests, lists, machine words, and in Prelude/Bits the binary digits of a word.
-- - Bitmap: `basic_bitmap`. `set_range` and `clear_range` are `set` and `clear` of an index and a
--   count, `get_length_of` is `get_length_of_set` and `get_length_of_clear`. Its children prove
--   what words look like (Word), that buffers keep their length (Bound), and treat the ranges
--   (Range), the run lengths (Run), the search (Find) and the tests of a range (All); Cpu computes
--   the processor's bit instructions, which are a parameter everywhere else.
-- - Paging: the levels of the page tables and the alignment helpers; Paging/Align has the proofs.
-- - Allocator: `hypervisor_memory_allocator`, one function for each method. Valid is its
--   invariant; Allocate, Request and Total are about `allocate`, Free about `free`, Attach about
--   the sizes that `attach` sets up.
-- - Deque: `fixed_dequeue`; Contents is the list of its items, Refine the operations against it.
-- - Interrupt: `interrupt_t`, `interrupt_inject` and its kin, and the window handlers, on a state
--   of the fields that they use; Fields, Inject, Window and Exception have the proofs.
-- - Memory: `pa_t`, `va_t` and the ranges of src/hvpp/hvpp/ia32/memory.h; Address and Range.
-- - Mtrr: `mtrr_descriptor_t`; Precedence is about `type`.
-- - Ept: `ept_t` of src/hvpp/hvpp/ept.cpp, as a store of frames with 512 entries each. `map_table`
--   is the four functions `map_pml4` to `map_pt`; Rebuild has the constructor, the sparse
--   identity, `unmap_entry`, `split` and `join`. Walk is the processor's reading of the tables;
--   Shape says when they form a tree, Subtable, Map and Level follow `map` down, Entry is about
--   `ept_entry`, Unmap about `unmap_entry`, and Translate, Identity, Split, Stale and Sparse have
--   the results; Sample has tables for the tests.
-- - Hook: `vmexit_custom_handler` of src/hvppdrv/vmexit_custom.cpp, whose `hook` and `unhook` are
--   the calls 0xc1 and 0xc2 of `handle_execute_vmcall`; Steps is about one exit, Runs about many.
-- - Guest: `memory_mapper` and `memory_translator` of src/hvpp/hvpp/lib/mm. `transfer` is one
--   `memcpy` in either direction; `from_pdpt`, `from_pd` and `from_pt` are `va_to_pa` from its
--   later readings on. Copy and Mapper are about the mapper, Walk has the processor's walk of the
--   tables and `va_to_pa`, Page and Bytes prepare the reading and writing of virtual memory in
--   Translator, and Skip is about `ignore_errors`; Sample has tables for the tests.
-- - Vcpu: the life of a `vcpu_t` (src/hvpp/hvpp/vcpu.cpp). `launch`, `start_again`, `enter_host`,
--   `handled`, `leave_host` and `resume` are parts of `start` and of `entry_host`, and `vm_entry`
--   and `vm_exit` are what the processor does; Start, Exit and Stop have the proofs, Sample a
--   processor for the tests.
-- - Hypervisor: `hypervisor::start` and `stop` (src/hvpp/hvpp/hypervisor.cpp); Success and Start
--   are about `start` without and with failures.
-- - Vmexit: handlers of src/hvpp/hvpp/vmexit/vmexit_passthrough.cpp, `handle_mov_cr` with its
--   cases `to_cr`, `clts` and `lmsw`, and `handle_mov_dr` with `detect`, `write_dr` and `read_dr`;
--   MovCr and MovDr have the proofs. Reason and Table are the dispatch of
--   src/hvpp/hvpp/vmexit.cpp, which Dispatch is about; Opcode recognises the instructions that the
--   handler of exceptions emulates.
-- - Segment: descriptors, descriptor tables and the loading of a segment register, from
--   src/hvpp/hvpp/ia32/arch/segment.h. Descriptor is about base addresses and limits, Bytes about
--   values in memory.
-- - Vmcs: the encoding of fields (src/hvpp/hvpp/ia32/vmx/vmcs.h) and the accessors of the segment
--   registers (src/hvpp/hvpp/vcpu.inl). `named` and `set_named` are `guest_cs` and its kin, `read_at` and
--   `write_at` what they share with `guest_segment`; Encoding and Register have the proofs.
-- - Emulate: more handlers of src/hvpp/hvpp/vmexit/vmexit_passthrough.cpp. `load_tr`,
--   `transfer_rax`, `transfer_string` and `move_pointer` are parts of them, and `guest_va` is
--   `exit_instruction_info_guest_va` of src/hvpp/hvpp/vcpu.inl. Msr, Address, Tables,
--   TaskRegister, Port and Invalidate have the proofs.
-- - Events: `handle_interrupt` of the same file, on the models of Guest, Interrupt and
--   Vmexit/Opcode. `by_type` and `handle_hardware` are its two `switch`es, `fetch` and `received`
--   its reading of the instruction. Fetch says what is read, Reinject what then happens, and
--   Syscall is about SYSCALL and SYSRET.
-- - Stats: `vmexit_stats_handler` and `vmexit_dbgbreak_handler`, which share the arrays of
--   `vmexit_storage_t`. `detail` is the `switch` of both. Bounds, Count and Break have the proofs.
-- - Manager: the allocators of src/hvpp/hvpp/lib/mm.cpp. `begin_guard` and `end_guard` are an
--   `allocator_guard`'s life, `asked` and `freed_by` are `generic_allocate` and `generic_free`;
--   Guard and Owner have the proofs, about any order of these steps on any processors.
-- The modules called Tests apply the theorems at concrete states.
--
-- Machine words are natural numbers with the wrap written out. A C array is a list. The searches of
-- the bitmap run on fuel, one more than the number of bits: each round ends after the position
-- where it began, so the fuel is enough, and the completeness of the search is proved with it.
-- Behaviour that C++ leaves undefined is the outcome `undefined` of the allocator.
--
-- The pages that `operator new[]` returns are a parameter: they differ, lie below 2 ^ 48, and one
-- that has been deleted is not returned again. The loop of the sparse identity runs on fuel, 2 ^ 64
-- rounds for each range, which is proved to be enough; the theorems on `map`, `split` and the
-- identity ask for more pages than the code takes.
--
-- The loops over guest memory run on fuel, the number of bytes, of which each round moves one at
-- least. The address of the mapper's reserved page is a parameter, a multiple of the page size. For
-- a virtual CPU the success of the instructions of VMX and the fixed bits are parameters; such an
-- instruction outside VMX operation ends the run with #UD, as the manual says, and VMREAD without a
-- current VMCS gives the 0 that its wrapper has prepared. An exit saves the guest's registers in the
-- VMCS and loads the host's, with the limits of GDTR and IDTR at 0xffff. The processors start one
-- after the other, and the theorems on the start hold for every order of them.
--
-- The instructions that the exit handlers execute for the guest, such as RDMSR, CPUID and IN, are a
-- parameter over a state of the world. An index outside an array of counters ends a run of Stats
-- with `none`.
--
-- Not modelled: the C interface (src/hvpp/hvpp/hvpp.cpp), which calls the methods that are
-- modelled; INVD, INVLPG and WBINVD, which execute one instruction; the other accessors of the VMCS,
-- which are fields of the states here; the translation through the self-mapping of the current page
-- tables. Neither are the operating system's side, logging and printing, the control
-- program, the assembly that IN and OUT go through with `HVPP_ENABLE_VMWARE_WORKAROUND`, as
-- src/hvpp/hvpp/config.h has it, and the copies of udis86 and detours.
pub mod Prelude
pub mod Bitmap
pub mod Paging
pub mod Allocator
pub mod Deque
pub mod Interrupt
pub mod Memory
pub mod Mtrr
pub mod Emulate
pub mod Ept
pub mod Events
pub mod Guest
pub mod Hook
pub mod Hypervisor
pub mod Manager
pub mod Segment
pub mod Stats
pub mod Vcpu
pub mod Vmcs
pub mod Vmexit
