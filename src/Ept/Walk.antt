-- ===== src/Ept/Walk.antt =====
-- The processor's walk of the tables that `ept_t` builds (src/hvpp/hvpp/ept.cpp), as the manual
-- describes it: an independent reading of the entries, which the source leaves to the hardware.
use hvpp.Prelude.{
  ℕ, zero, suc, ◌+◌, ◌*◌, ◌/◌, ◌%◌, ◌<◌, ◌≤◌, ◌≡◌, refl, Bool, true, false, not, ◌&&◌, ◌==◌, ltb,
  lt→ltb, ltb→lt, Bool-cases, inl, inr, Option, none, some, if◌then◌else◌, ◌∙◌, arith, ap, sym,
  bit_and,
}
use native.Mathlib.Decide.{dec_le}
use hvpp.Memory.{from_pfn}
use hvpp.Ept.{Epte, Tables, Host, index, present, delete}
use hvpp.Ept.Shape.{Shape, IsTree, span, span-suc, index-lt, Bool-All}

-- What an entry of level `k` gives: the address that it maps and the rights that are left of `access`,
-- or what the walk below it gives. In a PML4 entry the bit of a large page is reserved.
pub entry_step : ℕ → Epte → ℕ → ℕ → Option (ℕ × ℕ) → Option (ℕ × ℕ)
entry_step k e pa access rest =
    if present e
    then (if e.large_page == 1
        then (if ltb k 3
            then some (from_pfn e.page_frame_number + pa % span k, bit_and e.access access)
            else none)
        else rest)
    else none

-- The walk from the table in frame `f`, of level `k`.
pub translate : ℕ → Tables → ℕ → ℕ → ℕ → Option (ℕ × ℕ)
translate zero s f pa access =
    let e = s.words f (index pa 0) in
    if present e
    then some (from_pfn e.page_frame_number + pa % span 0, bit_and e.access access)
    else none
translate (suc k) s f pa access =
    let e = s.words f (index pa (suc k)) in
    entry_step (suc k) e pa access (translate k s e.page_frame_number pa (bit_and e.access access))

-- No large page lies over the entries of level `l` on the walk of `pa`.
unfoldable pub is_open : ℕ → Tables → ℕ → ℕ → ℕ → Bool
is_open zero s f pa l = true
is_open (suc k) s f pa l =
    let e = s.words f (index pa (suc k)) in
    let rest = is_open k s e.page_frame_number pa l in
    if ltb l (suc k) && present e then not (e.large_page == 1) && rest else true

span-div : (pa k : ℕ) → k < 4 → pa / span (suc k) ≡ pa / span k / 512
span-div pa k h = omega (arith, span-suc pa k h, index-lt pa k)

same_at : (a b l k : ℕ) → l ≡ k → b / span l ≡ a / span l → b / span k ≡ a / span k
same_at a b l k q e = ap (λ n. b / span n) (sym q) ∙ e ∙ ap (λ n. a / span n) q

-- Two addresses that share an entry share those above it.
pub same_above : (a b l k : ℕ) → l ≤ k → k < 5 → b / span l ≡ a / span l → b / span k ≡ a / span k
same_above a b l zero h k_lt e = same_at a b l 0 (omega arith) e
same_above a b l (suc k) h k_lt e = elim (dec_le l k) [
  | yes below ↦ omega (
    arith,
    same_above a b l k below (omega arith) e,
    span-div a k (omega arith),
    span-div b k (omega arith),
  )
  | no above ↦ same_at a b l (suc k) (omega arith) e
]

pub index-same : (a b k : ℕ) → b / span k ≡ a / span k → index b k ≡ index a k
unfolding index
index-same a b k e = ap (λ n. n % 512) e

entry_step-same :
    (k : ℕ) (e : Epte) (pa access : ℕ) (x y : Option (ℕ × ℕ))
    → (present e ≡ true → (e.large_page == 1) ≡ false → x ≡ y)
    → entry_step k e pa access x ≡ entry_step k e pa access y
unfolding entry_step
entry_step-same k e pa access x y h =
    Bool-All (λ p. (p ≡ true → (e.large_page == 1) ≡ false → x ≡ y) → outer p x ≡ outer p y)
      (present e)
      (λ p h'.
        Bool-All (λ l. (l ≡ false → x ≡ y) → inner l x ≡ inner l y) (e.large_page == 1)
          (λ l h''. refl) (λ l h''. h'' refl) (h' refl))
      (λ p h'. refl) h
  where
    inner : Bool → Option (ℕ × ℕ) → Option (ℕ × ℕ)
    inner l z =
        if l
        then (if ltb k 3
            then some (from_pfn e.page_frame_number + pa % span k, bit_and e.access access)
            else none)
        else z

    outer : Bool → Option (ℕ × ℕ) → Option (ℕ × ℕ)
    outer p z = if p then inner (e.large_page == 1) z else none

-- A walk whose entries are unchanged gives what it gave.
pub translate-same :
    (host : Host) (s s' : Tables) (σ : Shape) (b k f access : ℕ)
    → IsTree host s σ
    → k < 4
    → σ.depth f ≡ suc k
    → σ.prefix f ≡ b / span (suc k)
    → ((g l : ℕ)
        → l ≤ k
        → σ.depth g ≡ suc l
        → σ.prefix g ≡ b / span (suc l)
        → s'.words g (index b l) ≡ s.words g (index b l))
    → translate k s' f b access ≡ translate k s f b access
unfolding translate
translate-same host s s' σ b zero f access t k_lt d p same =
    ap
      (λ e.
        if present e
        then some (from_pfn e.page_frame_number + b % span 0, bit_and e.access access)
        else none)
      (same f 0 (omega arith) d p)
translate-same host s s' σ b (suc k) f access t k_lt d p same =
    ap (step s') (same f (suc k) (omega arith) d p)
    ∙ entry_step-same (suc k) e b access (below s' e) (below s e) (λ here small.
      let r = t.pointer f (index b (suc k)) k d (index-lt b (suc k)) here small in
      translate-same host s s' σ b k e.page_frame_number (bit_and e.access access) t (omega arith)
        r.depth_below
        (r.prefix_below ∙ ap (λ n. n * 512 + index b (suc k)) p ∙ span-suc b (suc k) k_lt)
        (λ g l h. same g l (omega arith)))
  where
    e : Epte
    e = s.words f (index b (suc k))

    below : Tables → Epte → Option (ℕ × ℕ)
    below u w = translate k u w.page_frame_number b (bit_and w.access access)

    step : Tables → Epte → Option (ℕ × ℕ)
    step u w = entry_step (suc k) w b access (below u w)

pub translate-leaf :
    (s : Tables) (k f b access : ℕ) (e : Epte)
    → s.words f (index b k) ≡ e
    → present e ≡ true
    → ((j : ℕ) → k ≡ suc j → ((e.large_page == 1) ≡ true) × (k < 3))
    → translate k s f b access
      ≡ some (from_pfn e.page_frame_number + b % span k, bit_and e.access access)
unfolding translate entry_step
translate-leaf s zero f b access e w here large = rw w (rw here refl)
translate-leaf s (suc k) f b access e w here large =
    rw w (rw here (rw (large k refl).0 (rw (lt→ltb (suc k) 3 (large k refl).1) refl)))

pub translate-pointer :
    (s : Tables) (k f g b : ℕ) (e : Epte)
    → s.words f (index b (suc k)) ≡ e
    → present e ≡ true
    → (e.large_page == 1) ≡ false
    → e.page_frame_number ≡ g
    → e.access ≡ 7
    → translate (suc k) s f b 7 ≡ translate k s g b 7
unfolding translate entry_step
translate-pointer s k f g b e w here small points rights =
    rw w (rw here (rw small (rw points (rw rights refl))))

pub translate-none :
    (s : Tables) (k f b access : ℕ)
    → present (s.words f (index b k)) ≡ false
    → translate k s f b access ≡ none
unfolding translate entry_step
translate-none s zero f b access h = rw h refl
translate-none s (suc k) f b access h = rw h refl

pub open-below :
    (s : Tables) (k f a l : ℕ)
    → l < suc k
    → is_open (suc k) s f a l ≡ true
    → present (s.words f (index a (suc k))) ≡ true
    → (((s.words f (index a (suc k))).large_page == 1) ≡ false)
      × (is_open k s (s.words f (index a (suc k))).page_frame_number a l ≡ true)
unfolding is_open
open-below s k f a l lt o p =
    both ((s.words f (index a (suc k))).large_page == 1)
      (is_open k s (s.words f (index a (suc k))).page_frame_number a l)
      (sym (rw (lt→ltb l (suc k) lt) (rw p refl)) ∙ o)
  where
    both : (c d : Bool) → (not c && d) ≡ true → (c ≡ false) × (d ≡ true)
    both c d h = (ground (arith, h), ground (arith, h))

pub open-blank :
    (s : Tables) (k f a l : ℕ)
    → ((j : ℕ) → present (s.words f j) ≡ false)
    → is_open k s f a l ≡ true
unfolding is_open
open-blank s zero f a l h = refl
open-blank s (suc k) f a l h = ground (arith, h (index a (suc k)))

-- The tests of one entry, by their values: `c` for a level above the wanted one, then the entry's
-- presence and size, and `d` for a level with large pages.
open_step :
    (c p g d : Bool) (v : ℕ × ℕ) (rest : Option (ℕ × ℕ)) (open_rest : Bool)
    → (if p then (if g then (if d then some v else none) else rest) else none) ≡ none
    → (g ≡ true → d ≡ true)
    → (rest ≡ none → open_rest ≡ true)
    → (if c && p then not g && open_rest else true) ≡ true
open_step false p g d v rest open_rest q h r = refl
open_step true false g d v rest open_rest q h r = refl
open_step true true false d v rest open_rest q h r = r q
open_step true true true true v rest open_rest q h r = absurd (ground (arith, q))
open_step true true true false v rest open_rest q h r = absurd (ground (arith, h refl))

-- Where the walk ends without a page, no large page cuts it short.
pub none-open :
    (s : Tables) (k f a l access : ℕ)
    → (((s.words f (index a k)).large_page == 1) ≡ true → k < 3)
    → k < 4
    → translate k s f a access ≡ none
    → is_open k s f a l ≡ true
unfolding is_open translate entry_step
none-open s zero f a l access h k_lt q = refl
none-open s (suc k) f a l access h k_lt q =
    open_step (ltb l (suc k)) (present e) (e.large_page == 1) (ltb (suc k) 3)
      (from_pfn e.page_frame_number + a % span (suc k), bit_and e.access access)
      (translate k s e.page_frame_number a (bit_and e.access access))
      (is_open k s e.page_frame_number a l) q (λ g. lt→ltb (suc k) 3 (h g))
      (none-open s k e.page_frame_number a l (bit_and e.access access) (λ g. omega (arith, k_lt))
        (omega (arith, k_lt)))
  where
    e : Epte
    e = s.words f (index a (suc k))

pub translate-delete :
    (s : Tables) (g k f b access : ℕ)
    → translate k (delete s g) f b access ≡ translate k s f b access
unfolding translate delete
translate-delete s g zero f b access = refl
translate-delete s g (suc k) f b access =
    ap (entry_step (suc k) e b access)
      (translate-delete s g k e.page_frame_number b (bit_and e.access access))
  where
    e : Epte
    e = s.words f (index b (suc k))

pub open-at : (s : Tables) (k f a : ℕ) → is_open k s f a k ≡ true
unfolding is_open
open-at s zero f a = refl
open-at s (suc k) f a = ground arith

pub open-pointer :
    (s : Tables) (k f g a l : ℕ) (e : Epte)
    → s.words f (index a (suc k)) ≡ e
    → (e.large_page == 1) ≡ false
    → e.page_frame_number ≡ g
    → is_open k s g a l ≡ true
    → is_open (suc k) s f a l ≡ true
unfolding is_open present
open-pointer s k f g a l e w small points o =
    rw w (rw small (rw points (rw o (both-true (ltb l (suc k) && present e)))))
  where
    both-true : (c : Bool) → (if c then true else true) ≡ true
    both-true true = refl
    both-true false = refl

-- Addresses that share the table of level `l` are open alike.
pub open-same :
    (s : Tables) (k f a b l : ℕ)
    → k < 4
    → b / span (suc l) ≡ a / span (suc l)
    → is_open k s f b l ≡ is_open k s f a l
unfolding is_open
open-same s zero f a b l k_lt q = refl
open-same s (suc k) f a b l k_lt q = elim (Bool-cases (ltb l (suc k))) [
  | inl h ↦
      ap (λ i. step i (is_open k s (s.words f i).page_frame_number b l))
        (index-same a b (suc k)
          (same_above a b (suc l) (suc k) (ltb→lt l (suc k) h) (omega (arith, k_lt)) q))
      ∙ ap (step (index a (suc k))) (
          open-same s k (s.words f (index a (suc k))).page_frame_number a b l (omega (arith, k_lt))
            q)
  | inr h ↦ rw h refl
]
  where
    step : ℕ → Bool → Bool
    step i rest =
        if ltb l (suc k) && present (s.words f i)
        then not ((s.words f i).large_page == 1) && rest
        else true
