-- ===== src/Stats/Count.antt =====
-- What the counters hold after a sequence of exits, and after the merge of all processors.
use hvpp.Prelude.{
  ℕ, ◌+◌, ◌%◌, ◌^◌, ◌<◌, ◌≡◌, refl, ap, sym, ◌∙◌, true, false, not, Option, none, some, List, [],
  ◌∷◌, ltb, ◌==◌, if◌then◌else◌, lt→ltb, arith, u32, to_bit, Bool-cases, inl, inr,
}
use hvpp.Ept.Rebuild.{◌>>=◌}
use hvpp.Vmexit.Reason.{code}
use hvpp.Vmexit.Dispatch.{is_listed}
use hvpp.Stats.{
  Array, tag, Exit, Storage, size, detail, increment, increment_detail, handle, storage_merge,
  merge_all, dump, zeros, same, put, vmexit,
}
use hvpp.Stats.Bounds.{
  IsReported, overruns, overruns-is_listed, inside, detail_inside, handle-detail,
}

array_of : ℕ → Array
array_of n =
    if n == 0
    then Array.vmexit
    else if n == 1
    then Array.exception_vector
    else if n == 2
    then Array.cpuid_0
    else if n == 3
    then Array.cpuid_8
    else if n == 4
    then Array.cpuid_other
    else if n == 5
    then Array.mov_from_cr
    else if n == 6
    then Array.mov_to_cr
    else if n == 7
    then Array.clts
    else if n == 8
    then Array.lmsw
    else if n == 9
    then Array.mov_from_dr
    else if n == 10
    then Array.mov_to_dr
    else if n == 11
    then Array.gdtr_idtr
    else if n == 12
    then Array.ldtr_tr
    else if n == 13
    then Array.io_in
    else if n == 14
    then Array.io_out
    else if n == 15
    then Array.rdmsr_0
    else if n == 16
    then Array.rdmsr_c
    else if n == 17
    then Array.rdmsr_other
    else if n == 18
    then Array.wrmsr_0
    else if n == 19
    then Array.wrmsr_c
    else Array.wrmsr_other

array_of-tag : (a : Array) → array_of (tag a) ≡ a
unfolding array_of
array_of-tag Array.vmexit = refl
array_of-tag a = refl

tag_injective : (a b : Array) → tag a ≡ tag b → a ≡ b
tag_injective a b h = sym (array_of-tag a) ∙ ap array_of h ∙ array_of-tag b

pub same_eq {ℓ} :
    {T : Type ℓ} (a : Array) (i : ℕ) (b : Array) (j : ℕ) (s : Array → ℕ → T)
    → same a i b j ≡ true
    → s b j ≡ s a i
same_eq a i b j s h =
    let tags : tag b ≡ tag a = ground (arith, h) in
    let indices : j ≡ i = ground (arith, h) in
    ap (λ c. s c j) (tag_injective b a tags) ∙ ap (s a) indices

-- How often an exit concerns a counter: for its reason, and for its details.
abbrev pub times : Option (Array × ℕ) → Array → ℕ → ℕ
times none b j = 0
times (some (a, i)) b j = to_bit (same a i b j)

abbrev pub touches : Exit → Array → ℕ → ℕ
touches e b j = times (some (vmexit, code e.reason)) b j + times (detail e.reason e) b j

put-count :
    (s : Storage ℕ) (a : Array) (i : ℕ) (b : Array) (j : ℕ)
    → s b j < 2 ^ 32
    → put s a i (u32 (s a i + 1)) b j ≡ u32 (s b j + times (some (a, i)) b j)
put-count s a i b j h = elim (Bool-cases (same a i b j)) [
  | inl hit ↦ rw hit (ap (λ n. u32 (n + 1)) (sym (same_eq a i b j s hit)))
  | inr miss ↦ rw miss (omega arith)
]

-- A sequence of exits on one processor, and one on each.
pub handle_all : Storage ℕ → List Exit → Option (Storage ℕ)
handle_all s [] = some s
handle_all s (e ∷ exits) = do s' ← handle s e; handle_all s' exits

pub run_all : List (List Exit) → Option (List (Storage ℕ))
run_all [] = some []
run_all (exits ∷ runs) = do s ← handle_all zeros exits; storages ← run_all runs; some (s ∷ storages)

-- Exits as the processor reports them, with a reason of the enumeration and no move to or from CR8.
abbrev pub IsCounted : List Exit → Type 0
IsCounted [] = Unit
IsCounted (e ∷ exits) =
    IsReported e × (overruns e.reason e.cr_access e.cr_number ≡ false) × IsCounted exits

abbrev pub AllCounted : List (List Exit) → Type 0
AllCounted [] = Unit
AllCounted (exits ∷ runs) = IsCounted exits × AllCounted runs

abbrev pub touched : List Exit → Array → ℕ → ℕ
touched [] b j = 0
touched (e ∷ exits) b j = touches e b j + touched exits b j

abbrev pub total : List (List Exit) → Array → ℕ → ℕ
total [] b j = 0
total (exits ∷ runs) b j = touched exits b j + total runs b j

-- Every counter is a word of 32 bits.
abbrev IsWords : Storage ℕ → Type 0
IsWords s = (b : Array) (j : ℕ) → s b j < 2 ^ 32

abbrev Counted : Storage ℕ → Storage ℕ → (Array → ℕ → ℕ) → Type 0
Counted s s' n = (b : Array) (j : ℕ) → s' b j ≡ u32 (s b j + n b j)

Counted-IsWords : (s s' : Storage ℕ) (n : Array → ℕ → ℕ) → Counted s s' n → IsWords s'
Counted-IsWords s s' n h b j = omega (arith, h b j)

increment_detail-count :
    (s : Storage ℕ) (c : Option (Array × ℕ))
    → inside c ≡ true
    → IsWords s
    → (s' : Storage ℕ) × (increment_detail s c ≡ some s') × Counted s s' (times c)
unfolding increment_detail increment
increment_detail-count s none h w = (s, refl, λ b j. omega (arith, w b j))
increment_detail-count s (some (a, i)) h w =
    (put s a i (u32 (s a i + 1)), rw h refl, λ b j. put-count s a i b j (w b j))

is_listed-overruns :
    (e : Exit) → overruns e.reason e.cr_access e.cr_number ≡ false → is_listed e.reason ≡ true
is_listed-overruns e o = elim (Bool-cases (is_listed e.reason)) [
  | inl l ↦ l
  | inr l ↦ absurd (cc (o, overruns-is_listed e.reason e.cr_access e.cr_number l))
]

handle-count :
    (s : Storage ℕ) (e : Exit)
    → IsReported e
    → overruns e.reason e.cr_access e.cr_number ≡ false
    → IsWords s
    → (s' : Storage ℕ) × (handle s e ≡ some s') × Counted s s' (touches e)
handle-count s e r o w =
    let first = put s vmexit (code e.reason) (u32 (s vmexit (code e.reason) + 1)) in
    let one : Counted s first (times (some (vmexit, code e.reason))) =
      λ b j. put-count s vmexit (code e.reason) b j (w b j) in
    let l = is_listed-overruns e o in
    let (s', run, two) =
      increment_detail-count first (detail e.reason e) (detail_inside e.reason e r l ∙ ap not o)
        (Counted-IsWords s first (times (some (vmexit, code e.reason))) one) in
    (s', handle-detail s e l ∙ run, λ b j. omega (arith, one b j, two b j))

handle_all-count :
    (s : Storage ℕ) (exits : List Exit)
    → IsCounted exits
    → IsWords s
    → (s' : Storage ℕ) × (handle_all s exits ≡ some s') × Counted s s' (touched exits)
unfolding handle_all
handle_all-count s [] h w = (s, refl, λ b j. omega (arith, w b j))
handle_all-count s (e ∷ exits) h w =
    let (s', run, one) = handle-count s e h.0 h.1 w in
    let (s'', rest, more) = handle_all-count s' exits h.2 (Counted-IsWords s s' (touches e) one) in
    (
      s'',
      ap (λ m. m >>= λ t. handle_all t exits) run ∙ rest,
      λ b j. omega (arith, one b j, more b j),
    )

abbrev sum_at : List (Storage ℕ) → Array → ℕ → ℕ
sum_at [] b j = 0
sum_at (s ∷ storages) b j = s b j + sum_at storages b j

merge_all-sum :
    (storages : List (Storage ℕ)) (merged : Storage ℕ) (b : Array) (j : ℕ)
    → merged b j < 2 ^ 32
    → ltb j (size b) ≡ true
    → merge_all merged storages b j ≡ u32 (merged b j + sum_at storages b j)
unfolding merge_all storage_merge
merge_all-sum [] merged b j w h = omega arith
merge_all-sum (s ∷ storages) merged b j w h =
    let one : storage_merge merged s b j ≡ u32 (merged b j + s b j) = rw h refl in
    omega (arith, one, merge_all-sum storages (storage_merge merged s) b j (omega (arith, one)) h)

run_all-count :
    (runs : List (List Exit))
    → AllCounted runs
    → (storages : List (Storage ℕ)) × (run_all runs ≡ some storages)
      × ((b : Array) (j : ℕ) → u32 (sum_at storages b j) ≡ u32 (total runs b j))
unfolding run_all
run_all-count [] h = ([], refl, λ b j. refl)
run_all-count (exits ∷ runs) h =
    let (s, one, counted) = handle_all-count zeros exits h.0 (λ b j. omega arith) in
    let (storages, more, sums) = run_all-count runs h.1 in
    (
      s ∷ storages,
      ap (λ m. m >>= λ t. run_all runs >>= λ ts. some (t ∷ ts)) one
          ∙ ap (λ m. m >>= λ ts. some (s ∷ ts)) more,
      λ b j. omega (arith, counted b j, sums b j),
    )

pub dump_lem :
    (runs : List (List Exit)) (b : Array) (j : ℕ)
    → AllCounted runs
    → j < size b
    → (storages : List (Storage ℕ)) × (run_all runs ≡ some storages)
      × (dump storages b j ≡ total runs b j % 2 ^ 32)
unfolding dump
dump_lem runs b j h l =
    let (storages, run, sums) = run_all-count runs h in
    (
      storages,
      run,
      merge_all-sum storages zeros b j (omega arith) (lt→ltb j (size b) l)
          ∙ (omega (arith, sums b j)),
    )
