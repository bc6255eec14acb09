-- ===== src/Registry/Tests.antt =====
-- The theorems about vios/process/registry.py at a catalogue of four components.
use mathlib.Core.Path.{subst}
use vios_manus.Common.{
  ◌≡◌, refl, List, [], ◌∷◌, ℕ, ◌≤◌, arith, All, ◌<◌, sort, Bool-cases, false, inl, inr, String,
  str_eq, eq_iff, if◌then◌else◌, select, true,
}
use vios_manus.Registry.{Component, component, gpu}
use vios_manus.Registry.Lookup.{by_id, has, known, needs_of, dedupe}
use vios_manus.Registry.Topo.{topo_sort, order, cycle}
use vios_manus.Registry.Topo.Texts.{times}
use vios_manus.Registry.Topo.Invariant.{IsOrdered}
use vios_manus.Registry.Topo.Result.{
  IsCycle, topo_sort-IsOrdered, topo_sort-IsCycle, topo_sort_total,
}
use vios_manus.Registry.Cohorts.{Cohort, cohorts, plan_cohorts}
use vios_manus.Registry.Cohorts.Planned.{is_hosted, plan_cohorts_in_order}
use vios_manus.Registry.Machine.{Machine, unrunnable}
use vios_manus.Registry.Machine.Fits.{plan_cohorts_fit}
use vios_manus.Registry.Cohorts.Order.{flat}
use vios_manus.Registry.Cohorts.Good.{IsGoodCohort}

abbrev probe : Component
probe = component "probe" "Probe" 0 "structure"

abbrev clip : Component
clip = record (component "clip" "Clip" 2 "vision") {
  device = gpu;
  vram_mb = 6000;
  weights = "siglip";
  needs = "probe" ∷ [];
}

abbrev caption : Component
caption = record (component "caption" "Caption" 2 "vision") {
  device = gpu;
  vram_mb = 9000;
  weights = "qwen";
}

-- Needs two cards.
abbrev judge : Component
judge = record (component "judge" "Judge" 3 "language") { device = gpu; vram_mb = 20000; cards = 2 }

abbrev small : List Component
small = probe ∷ clip ∷ judge ∷ caption ∷ []

abbrev two_ids : List String
two_ids = "clip" ∷ "probe" ∷ []

two_ids-sorted : topo_sort small two_ids ≡ order ("probe" ∷ "clip" ∷ [])
unfolding topo_sort select sort
two_ids-sorted = refl

topo_sort-IsOrdered_example :
    ((i : String) → times i ("probe" ∷ "clip" ∷ []) ≡ (if has i two_ids then 1 else 0))
    × IsOrdered small (dedupe two_ids) [] ("probe" ∷ "clip" ∷ [])
topo_sort-IsOrdered_example = topo_sort-IsOrdered small two_ids two_ids-sorted

-- Two components that need one another.
abbrev knot : List Component
knot =
    record (component "a" "A" 1 "text") { needs = "b" ∷ [] }
    ∷ record (component "b" "B" 1 "text") { needs = "a" ∷ [] }
    ∷ []

knot_stuck : topo_sort knot ("b" ∷ "a" ∷ []) ≡ cycle ("a" ∷ "b" ∷ [])
unfolding topo_sort select sort
knot_stuck = refl

topo_sort-IsCycle_example : IsCycle knot ("a" ∷ "b" ∷ [])
topo_sort-IsCycle_example = topo_sort-IsCycle knot ("b" ∷ "a" ∷ []) knot_stuck

abbrev height : String → ℕ
height i = if str_eq i "clip" then 1 else 0

-- Only `clip` has a need here.
needs_other : (i : String) → str_eq "clip" i ≡ false → needs_of small i ≡ []
unfolding needs_of by_id
needs_other i e = elim (Bool-cases (str_eq "probe" i)) [
  | inl f ↦ subst (λ j. needs_of small j ≡ []) ((eq_iff "probe" i).0 f) refl
  | inr f ↦ elim (Bool-cases (str_eq "judge" i)) [
    | inl g ↦ subst (λ j. needs_of small j ≡ []) ((eq_iff "judge" i).0 g) refl
    | inr g ↦ elim (Bool-cases (str_eq "caption" i)) [
      | inl k ↦ subst (λ j. needs_of small j ≡ []) ((eq_iff "caption" i).0 k) refl
      | inr k ↦ cc
    ]
  ]
]

probe_below : (n : String) → has n ("probe" ∷ []) ≡ true → height n < 1
unfolding has
probe_below n h = elim (Bool-cases (str_eq "probe" n)) [
  | inl e ↦ subst (λ j. height j < 1) ((eq_iff "probe" n).0 e) (omega arith)
  | inr e ↦ cc
]

height_falls : (i n : String) → has n (needs_of small i) ≡ true → height n < height i
unfolding needs_of by_id has
height_falls i n h = elim (Bool-cases (str_eq "clip" i)) [
  | inl e ↦
      subst (λ j. has n (needs_of small j) ≡ true → height n < height j) ((eq_iff "clip" i).0 e)
        (probe_below n) h
  | inr e ↦ absurd (cc (needs_other i e))
]

two_ids-known : (i : String) → has i two_ids ≡ true → known small i ≡ true
unfolding known by_id has
two_ids-known i h = elim (Bool-cases (str_eq "clip" i)) [
  | inl e ↦ subst (λ j. known small j ≡ true) ((eq_iff "clip" i).0 e) refl
  | inr e ↦ elim (Bool-cases (str_eq "probe" i)) [
    | inl f ↦ subst (λ j. known small j ≡ true) ((eq_iff "probe" i).0 f) refl
    | inr f ↦ cc
  ]
]

topo_sort_total_example : (out : List String) × (topo_sort small two_ids ≡ order out)
topo_sort_total_example = topo_sort_total small height height_falls two_ids two_ids-known

abbrev one_load : List Cohort
one_load =
    record {
      index = 0;
      components = "probe" ∷ "clip" ∷ [];
      vram_mb = 6000;
      cards = 1;
      loads = "siglip" ∷ [];
    }
    ∷ []

one_load-planned : plan_cohorts small two_ids 10000 1 ≡ cohorts one_load
unfolding plan_cohorts topo_sort select sort
one_load-planned = refl

plan_cohorts_in_order_example :
    (out : List String) × (topo_sort small two_ids ≡ order out)
    × (flat one_load ≡ select (is_hosted small 10000 1) out)
plan_cohorts_in_order_example = plan_cohorts_in_order small 10000 1 two_ids one_load-planned

abbrev big_card : Machine
big_card = record {
  usable_vram_mb = 10000;
  usable_vram_total_mb = 10000;
  gpu_count = 1;
  kaggle = true;
}

big_card-clear : unrunnable small two_ids big_card ≡ []
unfolding unrunnable
big_card-clear = refl

abbrev carded : All (λ c. 1 ≤ c.cards) small
carded = (omega arith, (omega arith, (omega arith, (omega arith, tt))))

plan_cohorts_fit_example : All (IsGoodCohort small 10000) one_load
plan_cohorts_fit_example =
    plan_cohorts_fit small two_ids big_card carded big_card-clear one_load-planned
