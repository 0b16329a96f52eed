-- ===== src/Vmexit/Opcode.antt =====
-- The instructions that the handler of exceptions looks for, in
-- src/hvpp/hvpp/vmexit/vmexit_passthrough.cpp: bytes after any number of prefixes.
use hvpp.Prelude.{
  ℕ, ◌≡◌, refl, ap, ◌∙◌, ◌↔◌, Bool, true, false, ◌&&◌, ◌||◌, List, [], ◌∷◌, ◌++◌, ◌==◌, arith,
  Bool-cases, inl, inr,
}

-- `std::find` in `skip_table`
unfoldable pub skip_table : ℕ → Bool
skip_table byte =
    byte == 242
    || byte == 243
    || byte == 46
    || byte == 54
    || byte == 62
    || byte == 38
    || byte == 100
    || byte == 101
    || byte == 102
    || byte == 103

unfoldable pub skip_prefixes : List ℕ → List ℕ
skip_prefixes [] = []
skip_prefixes (byte ∷ bytes) = elim (skip_table byte) [
  | true ↦ skip_prefixes bytes
  | false ↦ byte ∷ bytes
]

-- The test of the length and `memcmp`.
unfoldable pub starts_with : List ℕ → List ℕ → Bool
starts_with bytes [] = true
starts_with [] (o ∷ opcode) = false
starts_with (byte ∷ bytes) (o ∷ opcode) = byte == o && starts_with bytes opcode

abbrev pub is_instruction : List ℕ → List ℕ → Bool
is_instruction opcode bytes = starts_with (skip_prefixes bytes) opcode

unfoldable pub is_syscall_instruction : List ℕ → Bool
is_syscall_instruction = is_instruction (15 ∷ 5 ∷ [])

pub is_sysret_instruction : List ℕ → Bool
is_sysret_instruction = is_instruction (72 ∷ 15 ∷ 7 ∷ [])

unfoldable pub is_rdtsc_instruction : List ℕ → Bool
is_rdtsc_instruction = is_instruction (15 ∷ 49 ∷ [])

pub is_rdtscp_instruction : List ℕ → Bool
is_rdtscp_instruction = is_instruction (15 ∷ 1 ∷ 249 ∷ [])

-- All bytes are prefixes.
pub all_prefixes : List ℕ → Bool
all_prefixes [] = true
all_prefixes (byte ∷ bytes) = skip_table byte && all_prefixes bytes

starts_with-split :
    (bytes opcode : List ℕ)
    → starts_with bytes opcode ≡ true
    → (rest : List ℕ) × (bytes ≡ opcode ++ rest)
unfolding starts_with
starts_with-split bytes [] h = (bytes, refl)
starts_with-split [] (o ∷ opcode) h = absurd (ground (arith, h))
starts_with-split (byte ∷ bytes) (o ∷ opcode) h =
    let same : byte ≡ o = ground (arith, h) in
    let rest = starts_with-split bytes opcode (ground (arith, h)) in
    (rest.0, ap (λ b. b ∷ bytes) same ∙ ap (λ bs. o ∷ bs) rest.1)

skip_prefixes-split :
    (bytes : List ℕ)
    → (prefixes : List ℕ) × (all_prefixes prefixes ≡ true)
      × (bytes ≡ prefixes ++ skip_prefixes bytes)
unfolding all_prefixes skip_prefixes
skip_prefixes-split [] = ([], refl, refl)
skip_prefixes-split (byte ∷ bytes) = elim (Bool-cases (skip_table byte)) [
  | inl h ↦
      let rest = skip_prefixes-split bytes in
      (byte ∷ rest.0, rw h rest.1, ap (λ bs. byte ∷ bs) rest.2 ∙ rw (h, skip_prefixes) refl)
  | inr h ↦ ([], refl, rw (h, skip_prefixes) refl)
]

starts_with-append : (opcode rest : List ℕ) → starts_with (opcode ++ rest) opcode ≡ true
unfolding starts_with
starts_with-append [] rest = refl
starts_with-append (o ∷ opcode) rest = ground (arith, starts_with-append opcode rest)

skip_prefixes-append :
    (prefixes : List ℕ) (o : ℕ) (rest : List ℕ)
    → all_prefixes prefixes ≡ true
    → skip_table o ≡ false
    → skip_prefixes (prefixes ++ (o ∷ rest)) ≡ o ∷ rest
unfolding all_prefixes skip_prefixes
skip_prefixes-append [] o rest h p = rw (p, skip_prefixes) refl
skip_prefixes-append (byte ∷ prefixes) o rest h p =
    let here : skip_table byte ≡ true = ground (arith, h) in
    rw (here, skip_prefixes) (skip_prefixes-append prefixes o rest (ground (arith, h)) p)

-- The bytes are prefixes, the opcode and anything after it.
pub HasOpcode : List ℕ → List ℕ → Type 0
HasOpcode opcode bytes =
    (prefixes : List ℕ) × (rest : List ℕ) × (all_prefixes prefixes ≡ true)
    × (bytes ≡ prefixes ++ (opcode ++ rest))

is_instruction_iff :
    (o : ℕ) (opcode bytes : List ℕ)
    → skip_table o ≡ false
    → (is_instruction (o ∷ opcode) bytes ≡ true) ↔ HasOpcode (o ∷ opcode) bytes
unfolding HasOpcode
is_instruction_iff o opcode bytes p = (
  (λ h.
      let front = skip_prefixes-split bytes in
      let back = starts_with-split (skip_prefixes bytes) (o ∷ opcode) h in
      (front.0, back.0, front.1, front.2 ∙ ap (λ x. front.0 ++ x) back.1)),
  (λ (prefixes, rest, h, e).
      ap (λ x. is_instruction (o ∷ opcode) x) e
      ∙ ap (λ x. starts_with x (o ∷ opcode)) (skip_prefixes-append prefixes o (opcode ++ rest) h p)
      ∙ starts_with-append (o ∷ opcode) rest),
)

-- Each of the four tests holds exactly for the bytes that consist of prefixes of the table, the opcode
-- and anything after it. REX is not in the table, so it may only stand before SYSRET, as 48.
opcode_lem :
    (bytes : List ℕ)
    → ((is_syscall_instruction bytes ≡ true) ↔ HasOpcode (15 ∷ 5 ∷ []) bytes)
      × ((is_sysret_instruction bytes ≡ true) ↔ HasOpcode (72 ∷ 15 ∷ 7 ∷ []) bytes)
      × ((is_rdtsc_instruction bytes ≡ true) ↔ HasOpcode (15 ∷ 49 ∷ []) bytes)
      × ((is_rdtscp_instruction bytes ≡ true) ↔ HasOpcode (15 ∷ 1 ∷ 249 ∷ []) bytes)
unfolding is_syscall_instruction is_sysret_instruction is_rdtsc_instruction is_rdtscp_instruction
    skip_table
opcode_lem bytes = (
  is_instruction_iff 15 (5 ∷ []) bytes refl,
  is_instruction_iff 72 (15 ∷ 7 ∷ []) bytes refl,
  is_instruction_iff 15 (49 ∷ []) bytes refl,
  is_instruction_iff 15 (1 ∷ 249 ∷ []) bytes refl,
)
