-- ===== src/Ept/Shape.antt =====
-- The tables of `ept_t` (src/hvpp/hvpp/ept.cpp) as a tree: which frames are tables, of which level and
-- for which part of the guest's memory, and what one write and one new table do to that.
use hvpp.Prelude.{
  ℕ, zero, suc, ◌+◌, ◌*◌, ◌/◌, ◌^◌, ◌<◌, ◌≤◌, ◌≡◌, ◌≢◌, ◌⊎◌, refl, Bool, true, false, ◌&&◌, ◌==◌,
  if◌then◌else◌, ◌∙◌, arith, ap,
}
use hvpp.Ept.{Epte, Tables, Host, cleared, index, present, write, wipe, read_write_execute}

-- What an entry of level `k` covers.
abbrev pub span : ℕ → ℕ
span k = 2 ^ (12 + k * 9)

-- `depth f` is 0 if frame `f` is no table, and the number after its level's number if it is one.
-- `prefix f` is the number of the part of the guest's memory that the table translates.
pub record Shape : Type 0 where
  pub depth : ℕ → ℕ
  pub prefix : ℕ → ℕ

pub record IsPointer (σ : Shape) (k p : ℕ) (e : Epte) : Type 0 where
  pub depth_below : σ.depth e.page_frame_number ≡ suc k
  pub prefix_below : σ.prefix e.page_frame_number ≡ p
  pub all_access : e.access ≡ read_write_execute

pub record IsTree (host : Host) (s : Tables) (σ : Shape) : Type 0 where
  pub root_depth : σ.depth host.root ≡ 4
  pub root_prefix : σ.prefix host.root ≡ 0
  pub pointer :
      (f i k : ℕ)
      → σ.depth f ≡ suc (suc k)
      → i < 512
      → present (s.words f i) ≡ true
      → ((s.words f i).large_page == 1) ≡ false
      → IsPointer σ k (σ.prefix f * 512 + i) (s.words f i)
  pub blank :
      (f i k : ℕ)
      → σ.depth f ≡ suc (suc k)
      → i < 512
      → present (s.words f i) ≡ false
      → ((s.words f i).large_page == 1) ≡ false
  pub top_small : (f i : ℕ) → σ.depth f ≡ 4 → i < 512 → ((s.words f i).large_page == 1) ≡ false
  pub spare : (n : ℕ) → s.next ≤ n → n < host.pages → σ.depth (host.new_page n) ≡ 0
  pub distinct : (m n : ℕ) → m < n → n < host.pages → host.new_page m ≢ host.new_page n
  pub narrow : (n : ℕ) → n < host.pages → host.new_page n < 2 ^ 36

pub index-lt : (pa k : ℕ) → index pa k < 512
unfolding index
index-lt pa k = omega arith

-- An entry's number at one level is made from the number of its table's part, at the level above.
pub span-suc : (pa k : ℕ) → k < 4 → pa / span (suc k) * 512 + index pa k ≡ pa / span k
unfolding index
span-suc pa zero h = omega arith
span-suc pa (suc zero) h = omega arith
span-suc pa (suc (suc zero)) h = omega arith
span-suc pa (suc (suc (suc zero))) h = omega arith
span-suc pa (suc (suc (suc (suc k)))) h = absurd (omega arith)

pub words-write :
    (s : Tables) (f i : ℕ) (e : Epte) (g j : ℕ)
    → (write s f i e).words g j ≡ (if f == g && i == j then e else s.words g j)
unfolding write
words-write s f i e g j = refl

pub next-write : (s : Tables) (f i : ℕ) (e : Epte) → (write s f i e).next ≡ s.next
unfolding write
next-write s f i e = refl

pub words-write_self : (s : Tables) (f i : ℕ) (e : Epte) → (write s f i e).words f i ≡ e
words-write_self s f i e = ground (arith, words-write s f i e f i)

pub words-write_ne :
    (s : Tables) (f i : ℕ) (e : Epte) (g j : ℕ)
    → (f ≢ g) ⊎ (i ≢ j)
    → (write s f i e).words g j ≡ s.words g j
words-write_ne s f i e g j h = ground (arith, words-write s f i e g j)

pub words-wipe :
    (s : Tables) (f g j : ℕ) → (wipe s f).words g j ≡ (if f == g then cleared else s.words g j)
unfolding wipe
words-wipe s f g j = refl

pub present-cleared : present cleared ≡ false
unfolding present
present-cleared = refl

-- A new table of level `k` for part `p`.
abbrev pub extend : Shape → ℕ → ℕ → ℕ → Shape
extend σ page k p = record {
  depth = λ f. if page == f then suc k else σ.depth f;
  prefix = λ f. if page == f then p else σ.prefix f;
}

abbrev pub wiped : Tables → ℕ → Tables
wiped s page = record (wipe s page) { next = suc s.next }

-- To split on the test of a conditional and keep the equation.
pub if-All {ℓ κ} :
    {A : Type ℓ} (P : A → Type κ) (b : Bool) (x y : A)
    → (b ≡ true → P x)
    → (b ≡ false → P y)
    → P (if b then x else y)
if-All P true x y h k = h refl
if-All P false x y h k = k refl

pub Bool-All {κ} :
    (P : Bool → Type κ) (b : Bool) → (b ≡ true → P true) → (b ≡ false → P false) → P b
Bool-All P true h k = h refl
Bool-All P false h k = k refl

pub same_cell : (f i g j : ℕ) → (f == g && i == j) ≡ true → (f ≡ g) × (i ≡ j)
same_cell f i g j h = (ground (arith, h), ground (arith, h))

pub write-IsTree :
    (host : Host) (s : Tables) (σ : Shape) (f i : ℕ) (e : Epte)
    → IsTree host s σ
    → (present e ≡ false → (e.large_page == 1) ≡ false)
    → ((k : ℕ)
        → σ.depth f ≡ suc (suc k)
        → present e ≡ true
        → (e.large_page == 1) ≡ false
        → IsPointer σ k (σ.prefix f * 512 + i) e)
    → (σ.depth f ≡ 4 → (e.large_page == 1) ≡ false)
    → IsTree host (write s f i e) σ
unfolding write
write-IsTree host s σ f i e t absent below top = record {
  root_depth = t.root_depth;
  root_prefix = t.root_prefix;
  pointer = λ g j k d j_lt.
      if-All
        (λ w.
          present w ≡ true → (w.large_page == 1) ≡ false → IsPointer σ k (σ.prefix g * 512 + j) w)
        (f == g && i == j) e (s.words g j) (λ q. moved g j k d (same_cell f i g j q))
        (λ q. t.pointer g j k d j_lt);
  blank = λ g j k d j_lt.
      if-All (λ w. present w ≡ false → (w.large_page == 1) ≡ false) (f == g && i == j) e
        (s.words g j) (λ q. absent) (λ q. t.blank g j k d j_lt);
  top_small = λ g j d j_lt.
      if-All (λ w. (w.large_page == 1) ≡ false) (f == g && i == j) e (s.words g j)
        (λ q. top (ap σ.depth (same_cell f i g j q).0 ∙ d)) (λ q. t.top_small g j d j_lt);
  spare = t.spare;
  distinct = t.distinct;
  narrow = t.narrow;
}
  where
    moved :
        (g j k : ℕ)
        → σ.depth g ≡ suc (suc k)
        → (f ≡ g) × (i ≡ j)
        → present e ≡ true
        → (e.large_page == 1) ≡ false
        → IsPointer σ k (σ.prefix g * 512 + j) e
    moved g j k d (p, q) here l = record {
      depth_below = r.depth_below;
      prefix_below = ground (arith, r.prefix_below, ap σ.prefix p, q);
      all_access = r.all_access;
    }
      where
        r : IsPointer σ k (σ.prefix f * 512 + i) e
        r = below k (ap σ.depth p ∙ d) here l

pub wipe-IsTree :
    (host : Host) (s : Tables) (σ : Shape) (k p : ℕ)
    → IsTree host s σ
    → s.next < host.pages
    → IsTree host (wiped s (host.new_page s.next)) (extend σ (host.new_page s.next) k p)
unfolding wipe
wipe-IsTree host s σ k p t room = record {
  root_depth = ground (arith, t.root_depth, t.spare s.next (omega arith) room);
  root_prefix = ground (arith, t.root_prefix, t.root_depth, t.spare s.next (omega arith) room);
  pointer = λ f i k'.
      Bool-All
        (λ b.
          (if b then suc k else σ.depth f) ≡ suc (suc k')
          → i < 512
          → present (if b then cleared else s.words f i) ≡ true
          → ((if b then cleared else s.words f i).large_page == 1) ≡ false
          → IsPointer τ k' ((if b then p else σ.prefix f) * 512 + i)
              (if b then cleared else s.words f i))
        (host.new_page s.next == f)
        (λ q d i_lt here. absurd (ground (arith, present-cleared, here)))
        (λ q d i_lt here l. kept (t.pointer f i k' d i_lt here l));
  blank = λ f i k'.
      Bool-All
        (λ b.
          (if b then suc k else σ.depth f) ≡ suc (suc k')
          → i < 512
          → present (if b then cleared else s.words f i) ≡ false
          → ((if b then cleared else s.words f i).large_page == 1) ≡ false)
        (host.new_page s.next == f) (λ q d i_lt p. refl) (λ q. t.blank f i k');
  top_small = λ f i.
      Bool-All
        (λ b.
          (if b then suc k else σ.depth f) ≡ 4
          → i < 512
          → ((if b then cleared else s.words f i).large_page == 1) ≡ false)
        (host.new_page s.next == f) (λ q d i_lt. refl) (λ q. t.top_small f i);
  spare = λ n h r.
      ground (arith, t.spare n (omega (arith, h)) r, t.distinct s.next n (omega (arith, h)) r);
  distinct = t.distinct;
  narrow = t.narrow;
}
  where
    τ : Shape
    τ = extend σ (host.new_page s.next) k p

    kept : {k' p' : ℕ} {e : Epte} → IsPointer σ k' p' e → IsPointer τ k' p' e
    kept {k'} {p'} {e} r = record {
      depth_below = ground (arith, r.depth_below, t.spare s.next (omega arith) room);
      prefix_below =
          ground (arith, r.depth_below, r.prefix_below, t.spare s.next (omega arith) room);
      all_access = r.all_access;
    }
