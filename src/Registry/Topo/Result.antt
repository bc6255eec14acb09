-- ===== src/Registry/Topo/Result.antt =====
-- `topo_sort` of vios/process/registry.py on every branch: the order, the cycle, and a catalogue
-- without cycles.
use mathlib.Core.Path.{subst}
use text.Mathlib.TextPositions.{eq_refl}
use vios_manus.Common.{
  ℕ, zero, suc, ◌≤◌, ◌<◌, ◌≡◌, refl, ◌∙◌, Bool, true, false, not, List, [], ◌∷◌, arith, String,
  select, if◌then◌else◌,
}
use vios_manus.Registry.{Component}
use vios_manus.Registry.Lookup.{has, needs_of, known, dedupe}
use vios_manus.Registry.Dedupe.{times-dedupe}
use vios_manus.Registry.Topo.{Sorting, order, unknown, cycle, sorted_from, topo_sort}
use vios_manus.Registry.Topo.Texts.{times, has-times}
use vios_manus.Registry.Topo.Invariant.{IsOrdered}
use vios_manus.Registry.Topo.Sorted.{IsSorting, sorted_from-IsSorting}

module _ (cs : List Component) where
  dedupe_once : (ids : List String) (i : String) → times i (dedupe ids) ≤ 1
  dedupe_once ids i = ground (arith, times-dedupe i ids)

  sorted_lem :
      (ids : List String)
      → IsSorting cs (dedupe ids) (dedupe_once ids) (sorted_from cs (dedupe ids))
  sorted_lem ids = sorted_from-IsSorting cs (dedupe ids) (dedupe_once ids)

  -- `topo_sort` gives the sorted ids, or names ids that are not in the catalogue.
  refused_or_sorted :
      (ids gone : List String)
      → (P : Sorting → Type 0) → ((us : List String) → P (unknown us))
      → P (sorted_from cs (dedupe ids))
      → P (elim gone [ [] ↦ sorted_from cs (dedupe ids) | u ∷ us ↦ unknown (u ∷ us) ])
  refused_or_sorted ids [] P h s = s
  refused_or_sorted ids (u ∷ us) P h s = h (u ∷ us)

  -- An order that `topo_sort` returns holds every given id once and no other, and every id stands
  -- after those of its needs that are given too.
  pub topo_sort-IsOrdered :
      (ids : List String) {out : List String}
      → topo_sort cs ids ≡ order out
      → ((i : String) → times i out ≡ (if has i ids then 1 else 0))
        × IsOrdered cs (dedupe ids) [] out
  unfolding topo_sort
  topo_sort-IsOrdered ids {out} e =
      refused_or_sorted ids _
        (λ s.
          s ≡ order out
          → ((i : String) → times i out ≡ (if has i ids then 1 else 0))
            × IsOrdered cs (dedupe ids) [] out)
        (λ us f. cc)
        (λ f.
          let s = subst (IsSorting cs (dedupe ids) (dedupe_once ids)) f (sorted_lem ids) in
          (λ i. s.0 i ∙ times-dedupe i ids, s.1))
        e

  abbrev pub IsCycle : List String → Type 0
  IsCycle stuck =
      ((i : String) × (has i stuck ≡ true))
      × ((i : String)
          → has i stuck ≡ true
          → (n : String) × (has n (needs_of cs i) ≡ true) × (has n stuck ≡ true))

  -- When `topo_sort` raises the ValueError of a cycle, it names at least one component, and each
  -- component that it names needs another one that it names.
  pub topo_sort-IsCycle :
      (ids : List String) {stuck : List String} → topo_sort cs ids ≡ cycle stuck → IsCycle stuck
  unfolding topo_sort
  topo_sort-IsCycle ids {stuck} e =
      refused_or_sorted ids _ (λ s. s ≡ cycle stuck → IsCycle stuck) (λ us f. cc)
        (λ f. subst (IsSorting cs (dedupe ids) (dedupe_once ids)) f (sorted_lem ids)) e

  module _ (rank : String → ℕ)
      (falls : (i n : String) → has n (needs_of cs i) ≡ true → rank n < rank i) where
    no_cycle :
        (bound : ℕ) (stuck : List String)
        → IsCycle stuck
        → (i : String) → has i stuck ≡ true
        → rank i < bound
        → ◌≡◌ {A = Bool} true false
    no_cycle zero stuck h i e le = absurd (omega arith)
    no_cycle (suc b) stuck h i e le =
        let (n, needed, left) = h.1 i e in
        no_cycle b stuck h n left (omega (arith, falls i n needed))

    none_gone :
        (p : String → Bool) (xs : List String)
        → ((i : String) → has i xs ≡ true → p i ≡ true)
        → select (λ i. not (p i)) xs ≡ []
    unfolding select has
    none_gone p [] h = refl
    none_gone p (x ∷ xs) h =
        ground
          (arith, h x (ground (arith, eq_refl x)), none_gone p xs (λ i e. h i (ground (arith, e))))

    settled :
        (ids : List String) (s : Sorting)
        → IsSorting cs (dedupe ids) (dedupe_once ids) s
        → (out : List String) × (s ≡ order out)
    settled ids (order out) h = (out, refl)
    settled ids (unknown us) h = cc
    settled ids (cycle stuck) h =
        let (i, e) = h.0 in cc (no_cycle (suc (rank i)) stuck h i e (omega arith))

    given : (ids : List String) (i : String) → has i (dedupe ids) ≡ true → has i ids ≡ true
    given ids i e = ground (arith, times-dedupe i ids, has-times i (dedupe ids) e)

    -- If the needs of every component have a lower rank than the component, then `topo_sort` returns
    -- an order for any selection of known ids.
    pub topo_sort_total :
        (ids : List String)
        → ((i : String) → has i ids ≡ true → known cs i ≡ true)
        → (out : List String) × (topo_sort cs ids ≡ order out)
    unfolding topo_sort
    topo_sort_total ids all_known =
        rw (topo_sort, none_gone (known cs) (dedupe ids) (λ i e. all_known i (given ids i e)))
          (settled ids (sorted_from cs (dedupe ids)) (sorted_lem ids))
