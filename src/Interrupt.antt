-- ===== src/Interrupt.antt =====
-- Event injection: `interrupt_t` of src/hvpp/hvpp/interrupt.h, the `interrupt_` functions of
-- src/hvpp/hvpp/vcpu.inl with the pending queues, and the window handlers of
-- src/hvpp/hvpp/vmexit/vmexit_passthrough.cpp.
-- The state holds the VMCS fields and the members of `vcpu_t` that these functions use. Tracing and
-- `hvpp_assert` are left out.
pub mod Fields
pub mod Inject
pub mod Window
pub mod Exception
mod Tests
use hvpp.Prelude.{
  ℕ, ◌+◌, ◌-◌, ◌*◌, ◌/◌, ◌%◌, ◌^◌, bit_and, bit_or, Bool, true, false, ◌&&◌, ◌||◌, not, Option,
  none, some, ltb, leb, ◌==◌, if◌then◌else◌, to_bit, not64, shr, u32,
}
use hvpp.Prelude.Bits.{bit}
use hvpp.Deque
use hvpp.Deque.{Deque}

-- `enum class interrupt_type : uint32_t`
pub data InterruptType : Type 0 where
  external reserved nmi hardware_exception software privileged_exception software_exception
        other_event :
      InterruptType

abbrev pub code : InterruptType → ℕ
code InterruptType.external = 0
code InterruptType.reserved = 1
code InterruptType.nmi = 2
code InterruptType.hardware_exception = 3
code InterruptType.software = 4
code InterruptType.privileged_exception = 5
code InterruptType.software_exception = 6
code InterruptType.other_event = 7

abbrev pub of_code : ℕ → InterruptType
of_code n =
    if n == 0
    then InterruptType.external
    else if n == 1
    then InterruptType.reserved
    else if n == 2
    then InterruptType.nmi
    else if n == 3
    then InterruptType.hardware_exception
    else if n == 4
    then InterruptType.software
    else if n == 5
    then InterruptType.privileged_exception
    else if n == 6
    then InterruptType.software_exception
    else InterruptType.other_event

-- `info_` is the 32-bit word of `vmx::interrupt_info_t`, `error_code_` that of
-- `exception_error_code_t`, and `rip_adjust_` the bits of an `int`.
pub record Interrupt : Type 0 where
  pub info : ℕ
  pub error_code : ℕ
  pub rip_adjust : ℕ

unfoldable pub vector : Interrupt → ℕ
vector i = i.info % 2 ^ 8

unfoldable pub type : Interrupt → InterruptType
type i = of_code (shr i.info 8 % 2 ^ 3)

unfoldable pub error_code_valid : Interrupt → Bool
error_code_valid i = bit i.info 11 == 1

unfoldable pub valid : Interrupt → Bool
valid i = bit i.info 31 == 1

-- The private constructor: `info_.flags = 0`, then one store to each field.
pub make : InterruptType → ℕ → ℕ → Bool → ℕ → Interrupt
make t vector exception_code exception_code_valid rip_adjust = record {
  info = vector % 2 ^ 8 + 2 ^ 8 * code t + 2 ^ 11 * to_bit exception_code_valid + 2 ^ 31;
  error_code = exception_code;
  rip_adjust = rip_adjust;
}

-- The default constructor.
abbrev pub no_interrupt : Interrupt
no_interrupt = record { info = 0; error_code = 0; rip_adjust = 0 }

-- `enum interrupt_queue_type`
pub data QueueType : Type 0 where
  interrupt_queue_external interrupt_queue_nmi : QueueType

pub record Vcpu : Type 0 where
  pub rflags : ℕ
  pub guest_interruptibility_state : ℕ
  pub exit_instruction_length : ℕ
  pub entry_interruption_info : ℕ
  pub entry_interruption_error_code : ℕ
  pub entry_instruction_length : ℕ
  pub processor_based_controls : ℕ
  pub external_queue : Deque Interrupt
  pub nmi_queue : Deque Interrupt
  pub suppress_rip_adjust : Bool

-- `fixed_dequeue<interrupt_t, 64>`
abbrev pub queue_size : ℕ
queue_size = 64

pub queue_at : Vcpu → QueueType → Deque Interrupt
queue_at v QueueType.interrupt_queue_external = v.external_queue
queue_at v QueueType.interrupt_queue_nmi = v.nmi_queue

pub with_queue : Vcpu → QueueType → Deque Interrupt → Vcpu
with_queue v QueueType.interrupt_queue_external d = record v { external_queue = d }
with_queue v QueueType.interrupt_queue_nmi d = record v { nmi_queue = d }

-- The bit of `interrupt_window_exiting` and of `nmi_window_exiting`.
abbrev pub window_bit : QueueType → ℕ
window_bit QueueType.interrupt_queue_external = 2
window_bit QueueType.interrupt_queue_nmi = 22

-- `interrupt_type_to_queue_type`, where -1 is `none`
pub queue_type : InterruptType → Option QueueType
queue_type InterruptType.external = some QueueType.interrupt_queue_external
queue_type InterruptType.nmi = some QueueType.interrupt_queue_nmi
queue_type t = none

-- The vectors whose hardware exceptions provide an error code.
pub provides_error_code : ℕ → Bool
provides_error_code n = n == 8 || n == 10 || n == 11 || n == 12 || n == 13 || n == 14 || n == 17

-- The types for which `entry_instruction_length` is set.
pub has_length : InterruptType → Bool
has_length InterruptType.software = true
has_length InterruptType.privileged_exception = true
has_length InterruptType.software_exception = true
has_length t = false

pub with_error_code : Vcpu → Interrupt → Vcpu
with_error_code v i = elim (type i) [
  | InterruptType.hardware_exception ↦
      if provides_error_code (vector i)
      then record v { entry_interruption_error_code = i.error_code }
      else v
  | _ ↦ v
]

pub with_length : Vcpu → Interrupt → Vcpu
with_length v i =
    let adjust =
      if i.rip_adjust == 2 ^ 32 - 1 then u32 v.exit_instruction_length else i.rip_adjust in
    if has_length (type i) && ltb 0 adjust && ltb adjust (2 ^ 31)
    then record v { entry_instruction_length = adjust }
    else v

pub interrupt_inject_force : Vcpu → Interrupt → Vcpu
interrupt_inject_force v i =
    let w = record v { entry_interruption_info = i.info } in
    if valid i then with_length (with_error_code w i) i else w

-- The first two conditions of `interrupt_inject`. `blocking_by_nmi` is bit 3.
pub interruptible : Vcpu → InterruptType → Bool
interruptible v InterruptType.external =
    bit v.rflags 9 == 1 && not (v.guest_interruptibility_state == 0)
interruptible v InterruptType.nmi = not (bit v.guest_interruptibility_state 3 == 1)
interruptible v t = true

-- `vmx_true_ctls_t` as the processor reports it for the processor-based controls
pub record TrueCtls : Type 0 where
  pub allowed_0_settings : ℕ
  pub allowed_1_settings : ℕ

module _ (true_ctls : TrueCtls) where
  -- `vmx::adjust` for the controls
  pub adjust : ℕ → ℕ
  adjust flags = bit_and (bit_or flags true_ctls.allowed_0_settings) true_ctls.allowed_1_settings

  pub enable_window : Vcpu → QueueType → Vcpu
  enable_window v q = record v {
    processor_based_controls = adjust (bit_or v.processor_based_controls (2 ^ window_bit q));
  }

  pub disable_window : Vcpu → QueueType → Vcpu
  disable_window v q = record v {
    processor_based_controls =
        adjust (bit_and v.processor_based_controls (not64 (2 ^ window_bit q)));
  }

  pub enqueue : Vcpu → Interrupt → Bool → QueueType → Vcpu
  enqueue v i front q =
      let d = queue_at v q in
      let d' =
        if front
        then Deque.push_front queue_size no_interrupt d i
        else Deque.push_back queue_size no_interrupt d i in
      enable_window (with_queue v q d') q

  -- The flag is what the function returns. For a type without a queue the code would index the array
  -- of queues with -1; such an interrupt is always interruptible.
  pub interrupt_inject : Vcpu → Interrupt → Bool → Vcpu × Bool
  interrupt_inject v i front =
      if interruptible v (type i)
      then (interrupt_inject_force v i, true)
      else elim (queue_type (type i)) [ some q ↦ (enqueue v i front q, false) | none ↦ (v, false) ]

  pub interrupt_is_pending : Vcpu → QueueType → Bool
  interrupt_is_pending v q = ltb 0 (Deque.size queue_size no_interrupt (queue_at v q))

  pub interrupt_inject_pending : Vcpu → QueueType → Vcpu
  interrupt_inject_pending v q =
      let d = queue_at v q in
      let w = interrupt_inject_force v (Deque.front queue_size no_interrupt d) in
      with_queue w q (Deque.pop_front queue_size no_interrupt d)

  -- `handle_interrupt_window` and `handle_nmi_window`
  pub handle_window : Vcpu → QueueType → Vcpu
  handle_window v q =
      let w = interrupt_inject_pending v q in
      record (if interrupt_is_pending w q then w else disable_window w q) {
        suppress_rip_adjust = true;
      }
