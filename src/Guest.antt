-- ===== src/Guest.antt =====
-- Access to guest memory: `memory_mapper` (src/hvpp/hvpp/lib/mm/memory_mapper.cpp) and
-- `memory_translator` (src/hvpp/hvpp/lib/mm/memory_translator.cpp).
-- Physical memory and the buffer of the caller are functions from addresses to bytes, and are apart.
-- The page that the mapper reserves comes from the operating system: its address is the parameter
-- `window`. The processor's cache of translations is flushed where an entry changes, so it is left out.
pub mod Copy
pub mod Mapper
pub mod Walk
pub mod Page
pub mod Bytes
pub mod Translator
pub mod Skip
pub mod Sample
mod Tests
use hvpp.Prelude.{
  ℕ, zero, suc, ◌+◌, ◌-◌, ◌*◌, ◌/◌, ◌%◌, ◌^◌, Bool, true, false, ◌&&◌, Option, none, some, ltb, leb,
  ◌==◌, if◌then◌else◌, add64, u8,
}
use hvpp.Paging.{Pml, byte_offset}
use hvpp.Memory.{from_pfn, pfn, offset}
use hvpp.Ept.Rebuild.{◌>>=◌}

-- the fields of the reserved page's entry that `map` sets
pub record Pte : Type 0 where
  pub present : Bool
  pub write : Bool
  pub global : Bool
  pub page_frame_number : ℕ

-- `flags = 0`
abbrev pub no_pte : Pte
no_pte = record { present = false; write = false; global = false; page_frame_number = 0 }

pub record Guest : Type 0 where
  pub memory : ℕ → ℕ
  pub buffer : ℕ → ℕ
  pub pte : Pte

abbrev pub page_size : ℕ
page_size = 4096

-- `memcpy`: `n` bytes of `source` from `o` on, written to `target` from `d` on.
abbrev pub memcpy : (ℕ → ℕ) → ℕ → (ℕ → ℕ) → ℕ → ℕ → ℕ → ℕ
memcpy target d source o n i = if leb d i && ltb i (d + n) then source (o + (i - d)) else target i

-- `memset` with 0
abbrev pub memset : (ℕ → ℕ) → ℕ → ℕ → ℕ → ℕ
memset target d n = memcpy target d (λ _. 0) 0 n

-- Physical memory at `pa` and the buffer at `pos`: `n` bytes go from one to the other.
abbrev pub transfer : Guest → ℕ → ℕ → ℕ → Bool → Guest
transfer s pa pos n true = record s { memory = memcpy s.memory pa s.buffer pos n }
transfer s pa pos n false = record s { buffer = memcpy s.buffer pos s.memory pa n }

-- `memory_mapper::unmap`
pub unmap : Guest → Guest
unmap s = record s { pte = no_pte }

-- A word of 8 bytes, the lowest first.
unfoldable pub word : (ℕ → ℕ) → ℕ → ℕ
word m a =
    u8 (m a)
    + 2 ^ 8 * u8 (m (a + 1))
    + 2 ^ 16 * u8 (m (a + 2))
    + 2 ^ 24 * u8 (m (a + 3))
    + 2 ^ 32 * u8 (m (a + 4))
    + 2 ^ 40 * u8 (m (a + 5))
    + 2 ^ 48 * u8 (m (a + 6))
    + 2 ^ 56 * u8 (m (a + 7))

-- `pe_t`, and `cr3_t::page_frame_number`, which lies at the same bits
abbrev pub present : ℕ → Bool
present e = e % 2 == 1

abbrev pub large_page : ℕ → Bool
large_page e = e / 2 ^ 7 % 2 == 1

abbrev pub page_frame_number : ℕ → ℕ
page_frame_number e = e / 2 ^ 12 % 2 ^ 36

-- The physical address behind a virtual address in the reserved page.
pub physical : Guest → ℕ → ℕ
physical s va = from_pfn s.pte.page_frame_number + byte_offset va Pml.pt

-- What is left of the page, but no more than `size`.
pub bytes_to_copy : ℕ → ℕ → ℕ
bytes_to_copy address size =
    let rest = page_size - byte_offset address Pml.pt in if ltb size rest then size else rest

module _ (window : ℕ) where
  -- `memory_mapper::map`
  pub map : Guest → ℕ → Guest × ℕ
  map s pa = (
    record s {
      pte = record {
        present = true;
        write = true;
        global = true;
        page_frame_number = pfn pa % 2 ^ 36;
      };
    },
    add64 window (byte_offset pa Pml.pt),
  )

  -- `memory_mapper::read_write`, with the rounds that are left as fuel
  pub mapper_loop : ℕ → Guest → ℕ → ℕ → ℕ → Bool → Option Guest
  mapper_loop zero s pa pos size write = if size == 0 then some s else none
  mapper_loop (suc fuel) s pa pos size write = elim (size == 0) [
    | true ↦ some s
    | false ↦
        let s' = (map s pa).0 in
        let va = (map s pa).1 in
        let n = bytes_to_copy va size in
        mapper_loop fuel (unmap (transfer s' (physical s' va) pos n write)) (add64 pa n) (pos + n)
          (size - n) write
  ]

  -- Each round copies a byte at least.
  pub mapper_read_write : Guest → ℕ → ℕ → ℕ → Bool → Option Guest
  mapper_read_write s pa pos size write = mapper_loop size s pa pos size write

  -- One `mapper_.read` of `va_to_pa`, into a variable of its own.
  pub read_entry : Guest → ℕ → Option (Guest × ℕ)
  read_entry s pa = do
    s' ← mapper_read_write (record s { buffer = λ _. 0 }) pa 0 8 false
    some (record s' { buffer = s.buffer }, word s'.buffer 0)

  -- `va_to_pa(va, cr3)` from its last reading on, in the page table of frame `f`; the result 0 is
  -- the address of nothing.
  pub from_pt : Guest → ℕ → ℕ → Option (Guest × ℕ)
  from_pt s va f = do
    (s', pte) ← read_entry s (add64 (from_pfn f) (offset va Pml.pt * 8))
    some (
      s',
      if present pte then add64 (from_pfn (page_frame_number pte)) (byte_offset va Pml.pt) else 0,
    )

  pub from_pd : Guest → ℕ → ℕ → Option (Guest × ℕ)
  from_pd s va f = do
    (s', pde) ← read_entry s (add64 (from_pfn f) (offset va Pml.pd * 8))
    elim (present pde) [
      | false ↦ some (s', 0)
      | true ↦ elim (large_page pde) [
        | true ↦ some (s', add64 (from_pfn (page_frame_number pde)) (byte_offset va Pml.pd))
        | false ↦ from_pt s' va (page_frame_number pde)
      ]
    ]

  pub from_pdpt : Guest → ℕ → ℕ → Option (Guest × ℕ)
  from_pdpt s va f = do
    (s', pdpte) ← read_entry s (add64 (from_pfn f) (offset va Pml.pdpt * 8))
    elim (present pdpte) [
      | false ↦ some (s', 0)
      | true ↦ elim (large_page pdpte) [
        | true ↦ some (s', add64 (from_pfn (page_frame_number pdpte)) (byte_offset va Pml.pdpt))
        | false ↦ from_pd s' va (page_frame_number pdpte)
      ]
    ]

  -- `va_to_pa(va, cr3)`
  pub va_to_pa : Guest → ℕ → ℕ → Option (Guest × ℕ)
  va_to_pa s va cr3 = do
    (s', pml4e) ← read_entry s (add64 (from_pfn (page_frame_number cr3)) (offset va Pml.pml4 * 8))
    elim (present pml4e) [ false ↦ some (s', 0) | true ↦ from_pdpt s' va (page_frame_number pml4e) ]

  -- The body of `memory_translator::read_write` between the translation and the counters, where the
  -- memory at address 0 counts as unmapped; `none` where it returns.
  pub move : Guest → ℕ → ℕ → ℕ → Bool → Bool → Option (Option Guest)
  move s pa pos n write ignore_errors =
      if pa == 0
      then (if ignore_errors
          then some (some (if write then s else record s { buffer = memset s.buffer pos n }))
          else some none)
      else (mapper_read_write s pa pos n write >>= λ s'. some (some s'))

  pub translator_loop : ℕ → Guest → ℕ → ℕ → ℕ → ℕ → Bool → Bool → Option (Guest × ℕ)
  translator_loop zero s va cr3 pos size write ignore_errors =
      if size == 0 then some (s, 0) else none
  translator_loop (suc fuel) s va cr3 pos size write ignore_errors = elim (size == 0) [
    | true ↦ some (s, 0)
    | false ↦ do
      (s', pa) ← va_to_pa s va cr3
      moved ← move s' pa pos (bytes_to_copy pa size) write ignore_errors
      elim moved [
        | none ↦ some (s', va)
        | some s'' ↦
            translator_loop fuel s'' (add64 va (bytes_to_copy pa size)) cr3
              (pos + bytes_to_copy pa size) (size - bytes_to_copy pa size) write ignore_errors
      ]
  ]

  -- `memory_translator::read` and `memory_translator::write`: the state, and the first address that
  -- could not be accessed or 0.
  pub read_write : Guest → ℕ → ℕ → ℕ → ℕ → Bool → Bool → Option (Guest × ℕ)
  read_write s va cr3 pos size write ignore_errors =
      translator_loop size s va cr3 pos size write ignore_errors
