-- ===== src/Manager/Owner.antt =====
-- Memory goes back to the allocator that it came from, on whatever processor it is deleted.
use mathlib.Core.Path.{subst}
use hvpp.Prelude.{
  ℕ, ◌≡◌, ◌≢◌, ◌⊎◌, refl, ap, sym, ◌∙◌, Bool, true, false, ◌&&◌, not, Option, none, some, List, [],
  ◌∷◌, ◌==◌, ==_iff, if◌then◌else◌, arith, Bool-cases, inl, inr,
}
use hvpp.Manager.{Global, update, set_allocator, begin_guard, end_guard, restore, asked, freed_by}

-- The memory in use, each address with the allocator that it came from.
pub record State : Type 0 where
  pub global : Global
  pub blocks : ℕ → Option ℕ

module _ (contains : ℕ → ℕ → Bool) where
  -- Guards of the default kind begin and end, `new` gets an address that the hypervisor's allocator
  -- contains exactly if it is the one that was asked, and `delete` forgets an address.
  pub data Step : State → State → Type 0 where
    begins :
        (s : State) (cpu : ℕ)
        → Step s (record s { global = begin_guard s.global cpu s.global.custom_allocator })
    ends : (s : State) (cpu : ℕ) → Step s (record s { global = end_guard s.global cpu })
    allocates :
        (s : State) (cpu address : ℕ)
        → contains s.global.custom_allocator address
          ≡ (asked s.global cpu == s.global.custom_allocator)
        → Step s (record s { blocks = update s.blocks address (some (asked s.global cpu)) })
    deletes :
        (s : State) (address : ℕ) → Step s (record s { blocks = update s.blocks address none })

  pub data Reach (s : State) : State → Type 0 where
    here : Reach s s
    next : {t u : State} → Reach s t → Step t u → Reach s u

  -- The allocators are set, two different ones; no guard has begun and no memory is in use.
  pub record IsStart (s : State) : Type 0 where
    pub custom : s.global.custom_allocator ≢ 0
    pub apart : s.global.system_allocator ≢ s.global.custom_allocator
    pub asks_system : (cpu : ℕ) → s.global.allocator cpu ≡ s.global.system_allocator
    pub no_guard : (cpu : ℕ) → s.global.guards cpu ≡ []
    pub no_block : (address : ℕ) → s.blocks address ≡ none

  module _ (c y : ℕ) where
    abbrev IsKnown : ℕ → Type 0
    IsKnown a = (a ≡ c) ⊎ (a ≡ y)

    abbrev AllKnown : List ℕ → Type 0
    AllKnown [] = Unit
    AllKnown (a ∷ l) = IsKnown a × AllKnown l

    abbrev owner : ℕ → ℕ
    owner address = if not (c == 0) && contains c address then c else y

    record IsSound (s : State) : Type 0 where
      custom : s.global.custom_allocator ≡ c
      system : s.global.system_allocator ≡ y
      known : (cpu : ℕ) → IsKnown (s.global.allocator cpu)
      saved : (cpu : ℕ) → AllKnown (s.global.guards cpu)
      owned : (address o : ℕ) → s.blocks address ≡ some o → owner address ≡ o

    update_all :
        {A : Type 0} (P : A → Type 0) (f : ℕ → A) (i : ℕ) (a : A)
        → P a
        → ((j : ℕ) → P (f j))
        → (j : ℕ) → P (update f i a j)
    update_all P f i a now all j = choose (j == i)
      where
        choose : (b : Bool) → P (if b then a else f j)
        choose true = now
        choose false = all j

    begins-IsSound :
        (s : State) (cpu : ℕ)
        → IsSound s
        → IsSound (record s { global = begin_guard s.global cpu s.global.custom_allocator })
    unfolding begin_guard set_allocator
    begins-IsSound s cpu h = record {
      custom = h.custom;
      system = h.system;
      known =
          update_all IsKnown s.global.allocator cpu s.global.custom_allocator (inl h.custom)
            h.known;
      saved =
          update_all AllKnown s.global.guards cpu (s.global.allocator cpu ∷ s.global.guards cpu)
            (h.known cpu, h.saved cpu) h.saved;
      owned = h.owned;
    }

    restore-IsSound :
        (s : State) (cpu : ℕ) (l : List ℕ)
        → IsSound s
        → AllKnown l
        → IsSound (record s { global = restore s.global cpu l })
    unfolding set_allocator
    restore-IsSound s cpu [] h k = h
    restore-IsSound s cpu (a ∷ l) h k = record {
      custom = h.custom;
      system = h.system;
      known = update_all IsKnown s.global.allocator cpu a k.0 h.known;
      saved = update_all AllKnown s.global.guards cpu l k.1 h.saved;
      owned = h.owned;
    }

    owner_asked :
        (address a : ℕ)
        → c ≢ 0
        → y ≢ c
        → IsKnown a
        → contains c address ≡ (a == c)
        → owner address ≡ a
    owner_asked address a nz ne (inl e) h = ground (arith, h)
    owner_asked address a nz ne (inr e) h = ground (arith, h)

    Step-IsSound : {s t : State} → c ≢ 0 → y ≢ c → Step s t → IsSound s → IsSound t
    unfolding end_guard
    Step-IsSound nz ne (begins s cpu) h = begins-IsSound s cpu h
    Step-IsSound nz ne (ends s cpu) h = restore-IsSound s cpu (s.global.guards cpu) h (h.saved cpu)
    Step-IsSound nz ne (allocates s cpu address own) h = record {
      custom = h.custom;
      system = h.system;
      known = h.known;
      saved = h.saved;
      owned = λ x o e. elim (Bool-cases (x == address)) [
        | inl same ↦
            let came : s.global.allocator cpu ≡ o = ground (arith, e, same) in
            ap owner ((==_iff x address).0 same)
            ∙ owner_asked address (s.global.allocator cpu) nz ne (h.known cpu) (
                ap (λ k. contains k address) (sym h.custom)
                ∙ own
                ∙ ap (λ k. s.global.allocator cpu == k) h.custom)
            ∙ came
        | inr other ↦ h.owned x o (ground (arith, e, other))
      ];
    }
    Step-IsSound nz ne (deletes s address) h = record {
      custom = h.custom;
      system = h.system;
      known = h.known;
      saved = h.saved;
      owned = λ x o e. elim (Bool-cases (x == address)) [
        | inl same ↦ absurd (ground (arith, e, same))
        | inr other ↦ h.owned x o (ground (arith, e, other))
      ];
    }

    Reach-IsSound : {s t : State} → c ≢ 0 → y ≢ c → IsSound s → Reach s t → IsSound t
    Reach-IsSound nz ne h here = h
    Reach-IsSound nz ne h (next r step) = Step-IsSound nz ne step (Reach-IsSound nz ne h r)

  -- After any number of guards, allocations and deletions on any processors, from the setting of the two
  -- allocators on: `delete` gives each address in use to the allocator that it came from.
  pub delete_lem :
      (s t : State) (address o : ℕ)
      → IsStart s
      → Reach s t
      → t.blocks address ≡ some o
      → freed_by contains t.global address ≡ o
  unfolding freed_by
  delete_lem s t address o start r block =
      let c = s.global.custom_allocator in
      let y = s.global.system_allocator in
      let sound : IsSound c y s = record {
        custom = refl;
        system = refl;
        known = λ cpu. inr (start.asks_system cpu);
        saved = λ cpu. subst (AllKnown c y) (sym (start.no_guard cpu)) tt;
        owned = λ x n e. absurd (ground (arith, e, start.no_block x));
      } in
      let end = Reach-IsSound c y start.custom start.apart sound r in
      ap (λ k. if not (k == 0) && contains k address then k else t.global.system_allocator)
        end.custom
      ∙ ap (λ k. if not (c == 0) && contains c address then c else k) end.system
      ∙ end.owned address o block
