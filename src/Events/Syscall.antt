-- ===== src/Events/Syscall.antt =====
-- The emulation of SYSCALL and of the SYSRET that ends the call.
use hvpp.Prelude.{
  ℕ, zero, suc, ◌+◌, ◌/◌, ◌%◌, ◌^◌, ◌<◌, ◌≡◌, refl, ap, ◌∙◌, bit_and, bit_or, Bool, true, ◌&&◌,
  ◌||◌, ltb, leb, ◌==◌, ==_iff, if◌then◌else◌, arith, add64, u16, not64,
}
use hvpp.Prelude.Bits.{bit, bit-lt, bit-bit_and, bit-bit_or, bit_pow, bit_or-mod}
use hvpp.Bitmap.Word.{bit-not64}
use hvpp.Events.{
  Hardware, Cpu, handle_emulate_syscall, handle_emulate_sysret, rcx, r11, reserved_bits, fixed_bits,
}

-- RF, VM and the bits that `rflags_t` names reserved
abbrev pub is_reserved : ℕ → Bool
is_reserved i = i == 3 || i == 5 || i == 15 || i == 16 || i == 17 || (leb 22 i && ltb i 32)

all_below : ℕ → (ℕ → Bool) → Bool
all_below zero p = true
all_below (suc n) p = p n && all_below n p

all_below_sound : (n : ℕ) (p : ℕ → Bool) (i : ℕ) → all_below n p ≡ true → i < n → p i ≡ true
unfolding all_below
all_below_sound zero p i h l = absurd (omega arith)
all_below_sound (suc n) p i h l = ground (arith, all_below_sound n p i, ap p {x = i} {y = n})

reserved_table : all_below 64 (λ i. bit reserved_bits i == (if is_reserved i then 1 else 0)) ≡ true
unfolding all_below bit
reserved_table = refl

bit-reserved : (i : ℕ) → i < 64 → bit reserved_bits i ≡ (if is_reserved i then 1 else 0)
bit-reserved i h = (==_iff (bit reserved_bits i) (if is_reserved i then 1 else 0)).0 (
    all_below_sound 64 (λ j. bit reserved_bits j == (if is_reserved j then 1 else 0)) i
      reserved_table h)

or_three : (r : ℕ) → r < 4 → bit_or r 3 ≡ 3
or_three zero h = refl
or_three (suc zero) h = refl
or_three (suc (suc zero)) h = refl
or_three (suc (suc (suc zero))) h = refl
or_three (suc (suc (suc (suc r)))) h = absurd (omega arith)

user : (x : ℕ) → u16 (bit_or x 3) % 4 ≡ 3
user x = omega (arith, bit_or-mod 2 x 3, or_three (x % 4) (omega arith))

kept :
    (flags i : ℕ)
    → i < 64
    → bit (bit_or (bit_and flags (not64 reserved_bits)) fixed_bits) i
      ≡ (if i == 1 then 1 else if is_reserved i then 0 else bit flags i)
kept flags i h = ground (
  arith,
  bit-bit_or (bit_and flags (not64 reserved_bits)) fixed_bits i,
  bit-bit_and flags (not64 reserved_bits) i,
  bit-not64 reserved_bits i,
  bit-reserved i h,
  bit_pow 1 i,
  bit-lt flags i,
)

masked :
    (flags mask i : ℕ)
    → mask < 2 ^ 64
    → i < 64
    → bit (bit_and flags (not64 mask)) i ≡ (if bit mask i == 1 then 0 else bit flags i)
masked flags mask i hm h =
    ground
      (arith, bit-bit_and flags (not64 mask) i, bit-not64 mask i, bit-lt flags i, bit-lt mask i)

module _ (hw : Hardware) (c c' : Cpu) where
  -- SYSCALL enters the kernel at LSTAR, at privilege 0, with the flags of FMASK cleared. A SYSRET later,
  -- which finds RCX and R11 as SYSCALL left them, goes on after the SYSCALL, at privilege 3, with the flags
  -- from before but for RF, VM and the reserved bits, which are clear, and bit 1, which is set.
  pub sysret-syscall :
      (i : ℕ)
      → hw.fmask < 2 ^ 64
      → i < 64
      → c'.gp_register rcx ≡ (handle_emulate_syscall hw c).gp_register rcx
      → c'.gp_register r11 ≡ (handle_emulate_syscall hw c).gp_register r11
      → ((handle_emulate_syscall hw c).rip ≡ hw.lstar)
        × ((handle_emulate_syscall hw c).cs.selector % 4 ≡ 0)
        × ((handle_emulate_syscall hw c).ss.selector % 4 ≡ 0)
        × (bit (handle_emulate_syscall hw c).vcpu.rflags i
            ≡ (if bit hw.fmask i == 1 then 0 else bit c.vcpu.rflags i))
        × ((handle_emulate_sysret hw c').rip ≡ add64 c.rip c.vcpu.exit_instruction_length)
        × ((handle_emulate_sysret hw c').cs.selector % 4 ≡ 3)
        × ((handle_emulate_sysret hw c').ss.selector % 4 ≡ 3)
        × (bit (handle_emulate_sysret hw c').vcpu.rflags i
            ≡ (if i == 1 then 1 else if is_reserved i then 0 else bit c.vcpu.rflags i))
  unfolding handle_emulate_syscall handle_emulate_sysret
  sysret-syscall i hm h back flags = (
    refl,
    omega arith,
    omega arith,
    masked c.vcpu.rflags hw.fmask i hm h,
    back,
    user (hw.star / 2 ^ 48 + 16),
    user (hw.star / 2 ^ 48 + 8),
    ap (λ f. bit (bit_or (bit_and f (not64 reserved_bits)) fixed_bits) i) flags
        ∙ kept c.vcpu.rflags i h,
  )
