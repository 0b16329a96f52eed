-- ===== src/Events/Fetch.antt =====
-- The reading of an instruction, through `memory_translator`, and what an exception at a SYSCALL does.
use hvpp.Prelude.{
  ℕ, zero, suc, ◌+◌, ◌-◌, ◌%◌, ◌^◌, ◌<◌, ◌≤◌, ◌≡◌, refl, ap, ◌∙◌, true, false, List, [], ◌∷◌, some,
  ◌==◌, if◌then◌else◌, arith, add64,
}
use hvpp.Guest
use hvpp.Guest.{transfer, page_frame_number, read_write, no_pte}
use hvpp.Guest.Bytes.{bytes, bytes-step, bytes-stop}
use hvpp.Guest.Walk.{is_plain}
use hvpp.Guest.Translator.{translation, read_lem}
use hvpp.Events.{Hardware, Cpu, Fetched, fetched, failed, fetch, received, read_size, to_list}

-- All of `n` addresses from `v` on are mapped.
abbrev pub IsMapped : (ℕ → ℕ) → ℕ → ℕ → Type 0
IsMapped phys v n = (j : ℕ) → j < n → 0 < phys (add64 v j)

-- the bytes of memory at these addresses
unfoldable pub code_bytes : (ℕ → ℕ) → (ℕ → ℕ) → ℕ → ℕ → List ℕ
code_bytes memory phys v zero = []
code_bytes memory phys v (suc n) = memory (phys v) ∷ code_bytes memory phys (add64 v 1) n

first_mapped : (phys : ℕ → ℕ) (v n : ℕ) → v < 2 ^ 64 → IsMapped phys v (suc n) → 0 < phys v
first_mapped phys v n h m =
    omega (arith, m 0 (omega arith), ap phys {x = add64 v 0} {y = v} (omega arith))

rest-IsMapped :
    (phys : ℕ → ℕ) (v n : ℕ) → v < 2 ^ 64 → IsMapped phys v (suc n) → IsMapped phys (add64 v 1) n
rest-IsMapped phys v n h m j l = omega (
  arith,
  m (suc j) (omega arith),
  ap phys {x = add64 (add64 v 1) j} {y = add64 v (suc j)} (omega arith),
)

-- Up to an address that is not mapped, or to the end.
bytes-mapped :
    (j k : ℕ) (s : Guest.Guest) (phys : ℕ → ℕ) (v pos : ℕ)
    → v < 2 ^ 64
    → IsMapped phys v j
    → (s' : Guest.Guest) × (bytes (j + k) s phys v pos false
        ≡ bytes k s' phys (add64 v j) (pos + j) false)
      × (s' ≡ record s { buffer = s'.buffer })
      × (to_list s'.buffer pos j ≡ code_bytes s.memory phys v j)
      × ((i : ℕ) → i < pos → s'.buffer i ≡ s.buffer i)
unfolding to_list code_bytes
bytes-mapped zero k s phys v pos h m = (
  s,
  ap (λ n. bytes n s phys v pos false) {x = 0 + k} {y = k} (omega arith)
      ∙ ap (λ a. bytes k s phys a pos false) {x = v} {y = add64 v 0} (omega arith)
      ∙ ap (λ p. bytes k s phys (add64 v 0) p false) {x = pos} {y = pos + 0} (omega arith),
  refl,
  refl,
  λ i l. refl,
)
bytes-mapped (suc j) k s phys v pos h m =
    let one = transfer s (phys v) pos 1 false in
    let (s', run, same, list, below) =
      bytes-mapped j k one phys (add64 v 1) (pos + 1) (omega arith) (rest-IsMapped phys v j h m) in
    (
      s',
      ap (λ n. bytes n s phys v pos false) {x = suc j + k} {y = suc (j + k)} (omega arith)
          ∙ bytes-step (j + k) s phys v (phys v) pos false refl (first_mapped phys v j h m)
          ∙ run
          ∙ ap (λ a. bytes k s' phys a (pos + 1 + j) false) {x = add64 (add64 v 1) j}
              {y = add64 v (suc j)} (omega arith)
          ∙ ap (λ p. bytes k s' phys (add64 v (suc j)) p false) {x = pos + 1 + j} {y = pos + suc j}
              (omega arith),
      same,
      (λ i. (below pos (omega arith) ∙ here) i ∷ list i),
      λ i l. below i (omega arith) ∙ ground arith,
    )
  where
    here : (transfer s (phys v) pos 1 false).buffer pos ≡ s.memory (phys v)
    here = ground (arith, ap s.memory {x = phys v + (pos - pos)} {y = phys v} (omega arith))

nonzero : (a : ℕ) (f : Fetched) → 0 < a → (if a == 0 then f else failed a) ≡ failed a
nonzero a f h = ground arith

-- The reserved page is unmapped, all large pages are plain, and the instruction's addresses do not
-- wrap.
pub record IsReadable (hw : Hardware) (c : Cpu) : Type 0 where
  pub window_aligned : hw.window % 4096 ≡ 0
  pub rip_lt : c.rip < 2 ^ 64
  pub end_le : c.rip + read_size hw c ≤ 2 ^ 64
  pub no_window : c.space.pte ≡ no_pte
  pub plain :
      (u : ℕ) → is_plain 3 c.space.memory (page_frame_number (hw.kernel_cr3 c.guest_cr3)) u ≡ true

module _ (hw : Hardware) (c : Cpu) where
  -- what the guest's page tables make of an address
  abbrev pub physical : ℕ → ℕ
  physical = translation c.space.memory (hw.kernel_cr3 c.guest_cr3)

  -- the instruction as it lies in memory
  abbrev pub instruction : List ℕ
  instruction = code_bytes c.space.memory physical c.rip (read_size hw c)

  abbrev fresh : Guest.Guest
  fresh = record c.space { buffer = λ _. 0 }

  read_result :
      IsReadable hw c
      → read_write hw.window fresh c.rip (hw.kernel_cr3 c.guest_cr3) 0 (read_size hw c) false false
        ≡ some (bytes (read_size hw c) fresh physical c.rip 0 false)
  read_result r =
      (read_lem hw.window r.window_aligned fresh c.rip (hw.kernel_cr3 c.guest_cr3) 0
        (read_size hw c) r.rip_lt r.end_le r.no_window r.plain).0

  restored :
      (s : Guest.Guest)
      → s ≡ record fresh { buffer = s.buffer }
      → record c { space = record s { buffer = c.space.buffer } } ≡ c
  restored s same = ap (λ t. record c { space = record t { buffer = c.space.buffer } }) same

  pub fetch-mapped :
      IsReadable hw c
      → IsMapped physical c.rip (read_size hw c)
      → fetch hw c ≡ some (c, fetched instruction)
  unfolding fetch received bytes
  fetch-mapped r m =
      let (s, run, same, list, below) =
        bytes-mapped (read_size hw c) 0 fresh physical c.rip 0 r.rip_lt m in
      let result =
        read_result r
        ∙ ap (λ n. some (bytes n fresh physical c.rip 0 false)) {x = read_size hw c}
            {y = read_size hw c + 0} (omega arith)
        ∙ ap some run in
      ap (received hw c) result ∙ λ i. some (restored s same i, fetched (list i))

  pub fetch-unmapped :
      (j : ℕ)
      → IsReadable hw c
      → j < read_size hw c
      → IsMapped physical c.rip j
      → physical (add64 c.rip j) ≡ 0
      → 0 < add64 c.rip j
      → fetch hw c ≡ some (c, failed (add64 c.rip j))
  unfolding fetch received
  fetch-unmapped j r l m gone ne =
      let (s, run, same, list, below) =
        bytes-mapped j (suc (read_size hw c - suc j)) fresh physical c.rip 0 r.rip_lt m in
      let result =
        read_result r
        ∙ ap (λ n. some (bytes n fresh physical c.rip 0 false)) {x = read_size hw c}
            {y = j + suc (read_size hw c - suc j)} (omega arith)
        ∙ ap some (
            run
            ∙ bytes-stop (read_size hw c - suc j) s physical (add64 c.rip j) (0 + j) false gone) in
      ap (received hw c) result ∙ λ i. some (
        restored s same i,
        nonzero (add64 c.rip j) (fetched (to_list s.buffer 0 (read_size hw c))) ne i,
      )
