-- ===== src/Registry/Cohorts/Planned.antt =====
-- `plan_cohorts` of vios/process/registry.py from the selection to the cohorts.
use vios_manus.Common.{
  ℕ, ◌≡◌, refl, sym, ap, ◌∙◌, Bool, true, false, Option, none, some, List, [], ◌∷◌, map, String,
  str_eq, eq_iff, select, if◌then◌else◌, Bool-cases, inl, inr,
}
use vios_manus.Registry.{Component}
use vios_manus.Registry.Lookup.{by_id}
use vios_manus.Registry.Topo.{Sorting, order, unknown, cycle, topo_sort}
use vios_manus.Registry.Cohorts.{Cohort, Plan, cohorts, refused, cohorts_of, resolve, plan_cohorts}
use vios_manus.Registry.Cohorts.Order.{flat, has_cards, flat-cohorts_of}

abbrev get_id : Component → Option Component → String
get_id d none = d.id
get_id d (some c) = c.id

picked_id :
    (d : Component) (i : String) (hit : Bool) {c : Component}
    → (hit ≡ true → d.id ≡ i)
    → (if hit then some d else none) ≡ some c
    → c.id ≡ i
picked_id d i true {c} h e = ap (λ o. get_id d o) (sym e) ∙ h refl
picked_id d i false h e = cc

found_id :
    (d : Component) (i : String) (o : Option Component) {c : Component}
    → (o ≡ some c → c.id ≡ i)
    → ◌≡◌ {A = Option Component}
        (elim o [ some b ↦ some b | none ↦ if str_eq d.id i then some d else none ])
        (some c)
    → c.id ≡ i
found_id d i (some b) h e = h e
found_id d i none h e = picked_id d i (str_eq d.id i) (eq_iff d.id i).0 e

pub by_id-id : (cs : List Component) (i : String) {c : Component} → by_id cs i ≡ some c → c.id ≡ i
unfolding by_id
by_id-id [] i e = cc
by_id-id (d ∷ ds) i e = found_id d i (by_id ds i) (by_id-id ds i) e

abbrev cohorts_in : Plan → List Cohort
cohorts_in (cohorts ks) = ks
cohorts_in (refused s) = []

module _ (cs : List Component) (budget gpus : ℕ) where
  -- an id of a component that the cards can host
  abbrev pub is_hosted : String → Bool
  is_hosted i = elim (by_id cs i) [ some c ↦ has_cards gpus c | none ↦ false ]

  hosted_step :
      (i : String) (o : Option Component) (rest : List Component) (ids : List String)
      → ((c : Component) → o ≡ some c → c.id ≡ i)
      → map (λ c. c.id) (select (has_cards gpus) rest) ≡ ids
      → map (λ c. c.id) (select (has_cards gpus) (elim o [ some c ↦ c ∷ rest | none ↦ rest ])) ≡ (
          if (elim o as (λ _. Bool) [ some c ↦ has_cards gpus c | none ↦ false ])
          then i ∷ ids
          else ids)
  unfolding select
  hosted_step i none rest ids named h = h
  hosted_step i (some c) rest ids named h = elim (Bool-cases (has_cards gpus c)) [
    | inl f ↦ rw f (
        ap (λ j. j ∷ map (λ d. d.id) (select (has_cards gpus) rest)) (named c refl)
        ∙ ap (λ t. i ∷ t) h)
    | inr f ↦ rw f h
  ]

  flat-resolve :
      (is : List String)
      → map (λ c. c.id) (select (has_cards gpus) (resolve cs is)) ≡ select is_hosted is
  unfolding resolve select
  flat-resolve [] = refl
  flat-resolve (i ∷ is) =
      hosted_step i (by_id cs i) (resolve cs is) (select is_hosted is) (λ c. by_id-id cs i)
        (flat-resolve is)

  -- What `plan_cohorts` returns is packed from the order of the sort.
  pub planned_from :
      (s : Sorting) (ks : List Cohort)
      → ◌≡◌ {A = Plan}
          (elim s [ order out ↦ cohorts (cohorts_of budget gpus (resolve cs out)) | s ↦ refused s ])
          (cohorts ks)
      → (out : List String) × (s ≡ order out) × (cohorts_of budget gpus (resolve cs out) ≡ ks)
  planned_from (order out) ks e = (out, refl, ap cohorts_in e)
  planned_from (unknown us) ks e = cc
  planned_from (cycle us) ks e = cc

  -- The cohorts that `plan_cohorts` returns, read one after the other, are the order of `topo_sort`
  -- without the components that need more cards than there are.
  pub plan_cohorts_in_order :
      (ids : List String) {ks : List Cohort}
      → plan_cohorts cs ids budget gpus ≡ cohorts ks
      → (out : List String) × (topo_sort cs ids ≡ order out) × (flat ks ≡ select is_hosted out)
  unfolding plan_cohorts
  plan_cohorts_in_order ids {ks} e =
      let (out, sorted, packed) = planned_from (topo_sort cs ids) ks e in
      (
        out,
        sorted,
        sym (ap flat packed) ∙ flat-cohorts_of budget gpus (resolve cs out) ∙ flat-resolve out,
      )
