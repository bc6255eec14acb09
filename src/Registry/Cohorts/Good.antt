-- ===== src/Registry/Cohorts/Good.antt =====
-- What `plan_cohorts` of vios/process/registry.py keeps about the cohorts it has closed and about the
-- one it is packing.

use vios_manus.Common.{
  ℕ, ◌+◌, ◌≤◌, ◌<◌, ◌≡◌, refl, ap, ◌∙◌, true, false, some, String, List, [], ◌∷◌, ◌++◌, map, arith,
  All, All-imp, All-append, length, Bool-cases, inl, inr, if◌then◌else◌,
}
use vios_manus.Registry.{Component, gpu, is_gpu, load_key}
use vios_manus.Registry.Lookup.{by_id, has}
use vios_manus.Registry.Cohorts.{Cohort, Packing, is_empty, close, resolve, add_load}
use vios_manus.Registry.Cohorts.Loads.{
  loads_cost, load_keys, has-load_keys, load_keys-All, has-add_load, resolve-append,
}

-- What a finished cohort promises: its ids are those of components of the catalogue; a component
-- on the GPU has its load in the cohort, and none needs more cards than the cohort; one of one card
-- loads, each once, what the budget has room for, and records that cost; and one of several cards
-- is a component alone.
pub record IsGoodCohort (cs : List Component) (budget : ℕ) (k : Cohort) : Type 0 where
  pub full : is_empty k.components ≡ false
  pub found : map (λ c. c.id) (resolve cs k.components) ≡ k.components
  pub loaded :
      All (λ c. is_gpu c.device ≡ true → has (load_key c) k.loads ≡ true) (resolve cs k.components)
  pub carded : All (λ c. c.cards ≤ k.cards) (resolve cs k.components)
  pub fits : k.cards ≤ 1 → loads_cost [] (resolve cs k.components) ≤ budget
  pub recorded : k.cards ≤ 1 → k.vram_mb ≡ loads_cost [] (resolve cs k.components)
  pub alone : 1 < k.cards → length k.components ≡ 1

-- The cohorts are numbered by their places.
abbrev pub IsNumbered : ℕ → List Cohort → Type 0
IsNumbered n [] = Unit {0}
IsNumbered n (k ∷ ks) = (k.index ≡ n) × IsNumbered (n + 1) ks

-- The current cohort against the components that are packed into it.
pub record IsCurrent (cs : List Component) (s : Packing) : Type 0 where
  pub names : map (λ c. c.id) (resolve cs s.cur.components) ≡ s.cur.components
  pub keys : (i : String) → has i s.cur_loads ≡ has i (load_keys (resolve cs s.cur.components))
  pub cards_fit : All (λ c. c.cards ≤ s.cur.cards) (resolve cs s.cur.components)

pub record IsPacking (cs : List Component) (budget : ℕ) (s : Packing) : Type 0 where
  pub current : IsCurrent cs s
  pub one_card : s.cur.cards ≡ 1
  pub cost : s.cur.vram_mb ≡ loads_cost [] (resolve cs s.cur.components)
  pub within : s.cur.vram_mb ≤ budget
  pub finished : All (IsGoodCohort cs budget) s.cohorts
  pub numbered : IsNumbered 0 s.cohorts
  pub next_number : s.cur.index ≡ length s.cohorts

-- A component of one card that the budget can hold, or that needs no VRAM.
abbrev pub IsHostable : ℕ → Component → Type 0
IsHostable budget c = c.device ≡ gpu → c.cards ≤ 1 → c.vram_mb ≤ budget

IsNumbered-append :
    (n : ℕ) (ks : List Cohort) (k : Cohort)
    → IsNumbered n ks
    → k.index ≡ n + length ks
    → IsNumbered n (ks ++ k ∷ [])
IsNumbered-append n [] k h e = (omega arith, tt)
IsNumbered-append n (j ∷ ks) k h e = (h.0, IsNumbered-append (n + 1) ks k h.1 (omega arith))

-- The component is the one of its id.
abbrev pub IsListed : List Component → Component → Type 0
IsListed cs c = by_id cs c.id ≡ some c

map_id-append :
    (cs : List Component) (c : Component)
    → map (λ c. c.id) (cs ++ c ∷ []) ≡ map (λ c. c.id) cs ++ c.id ∷ []
map_id-append [] c = refl
map_id-append (d ∷ cs) c = ap (λ t. d.id ∷ t) (map_id-append cs c)

module _ (cs : List Component) (budget : ℕ) where
  loads_held :
      (s : Packing)
      → IsCurrent cs s
      → All
          (λ c. is_gpu c.device ≡ true → has (load_key c) s.cur_loads ≡ true)
          (resolve cs s.cur.components)
  loads_held s h =
      All-imp _ _ (λ c held g. h.keys (load_key c) ∙ held g) _
        (load_keys-All (resolve cs s.cur.components))

  pub close-IsPacking :
      (s : Packing)
      → All (IsGoodCohort cs budget) s.cohorts
      → IsNumbered 0 s.cohorts
      → s.cur.index ≡ length s.cohorts
      → (is_empty s.cur.components ≡ false
          → IsGoodCohort cs budget (record s.cur { loads = s.cur_loads }))
      → IsPacking cs budget (close s)
  unfolding close resolve loads_cost load_keys has
  close-IsPacking s done num next good = elim (Bool-cases (is_empty s.cur.components)) [
    | inl e ↦ rw e (record {
      current = record { names = refl; keys = λ i. refl; cards_fit = tt };
      one_card = omega arith;
      cost = refl;
      within = omega arith;
      finished = done;
      numbered = num;
      next_number = refl;
    })
    | inr e ↦ rw e (record {
      current = record { names = refl; keys = λ i. refl; cards_fit = tt };
      one_card = omega arith;
      cost = refl;
      within = omega arith;
      finished = All-append (IsGoodCohort cs budget) s.cohorts _ done (good e, tt);
      numbered = IsNumbered-append 0 s.cohorts _ num (omega arith);
      next_number = refl;
    })
  ]

  pub close_packing : (s : Packing) → IsPacking cs budget s → IsPacking cs budget (close s)
  close_packing s h = close-IsPacking s h.finished h.numbered h.next_number (λ e. record {
    full = e;
    found = h.current.names;
    loaded = loads_held s h.current;
    carded = h.current.cards_fit;
    fits = λ _. omega (arith, h.cost, h.within);
    recorded = λ _. h.cost;
    alone = λ many. absurd (omega (arith, h.one_card));
  })

  -- A component more in the current cohort, with its load.
  pub append-IsCurrent :
      (c : Component) (s s' : Packing)
      → IsListed cs c
      → c.cards ≤ s'.cur.cards
      → s.cur.cards ≤ s'.cur.cards
      → s'.cur.components ≡ s.cur.components ++ c.id ∷ []
      → s'.cur_loads ≡ (if is_gpu c.device then add_load (load_key c) s.cur_loads else s.cur_loads)
      → IsCurrent cs s
      → IsCurrent cs s'
  append-IsCurrent c s s' listed few more more_ids more_loads h = record {
    names =
        rw (more_ids, resolve-append cs s.cur.components c listed, map_id-append _ c, h.names) refl;
    keys = λ i.
        rw (more_ids, resolve-append cs s.cur.components c listed, more_loads, has-load_keys i _ c)
          (elim (Bool-cases (is_gpu c.device)) [
            | inl g ↦ rw (g, has-add_load i (load_key c) s.cur_loads) (ground (arith, h.keys i))
            | inr g ↦ rw g (ground (arith, h.keys i))
          ]);
    cards_fit =
        rw (more_ids, resolve-append cs s.cur.components c listed)
          (All-append _ _ _ (All-imp _ _ (λ d k. omega (arith, k, more)) _ h.cards_fit) (few, tt));
  }
