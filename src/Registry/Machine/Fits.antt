-- ===== src/Registry/Machine/Fits.antt =====
-- `plan_cohorts` of vios/process/registry.py on a machine that can host the whole selection.
use vios_manus.Common.{
  ◌≤◌, ◌≡◌, refl, sym, Bool, true, false, Option, none, some, List, [], ◌∷◌, arith, String, str_eq,
  All, if◌then◌else◌, inl, inr,
}
use mathlib.Core.Path.{subst}
use text.Mathlib.TextPositions.{eq_refl}
use vios_manus.Registry.{Component}
use vios_manus.Registry.Lookup.{by_id, has}
use vios_manus.Registry.Topo.{order, topo_sort}
use vios_manus.Registry.Topo.Texts.{has-times}
use vios_manus.Registry.Topo.Result.{topo_sort-IsOrdered}
use vios_manus.Registry.Cohorts.{Cohort, cohorts, resolve, plan_cohorts}
use vios_manus.Registry.Cohorts.Good.{IsGoodCohort, IsHostable, IsListed}
use vios_manus.Registry.Cohorts.Budget.{cohorts_of-IsGoodCohort}
use vios_manus.Registry.Cohorts.Planned.{by_id-id, planned_from}
use vios_manus.Registry.Machine.{Machine, unrunnable}
use vios_manus.Registry.Machine.Reported.{is_reported, reported_or_hosted}

module _ {κ} (P : Component → Type κ) where
  abbrev Holds : Option Component → Type κ
  Holds none = Unit {κ}
  Holds (some c) = P c

  found_holds :
      (d : Component) (hit : Bool) (o : Option Component) {c : Component}
      → P d
      → (o ≡ some c → P c)
      → ◌≡◌ {A = Option Component}
          (elim o [ some b ↦ some b | none ↦ if hit then some d else none ])
          (some c)
      → P c
  found_holds d hit (some b) p h e = h e
  found_holds d true none {c} p h e = subst Holds e p
  found_holds d false none p h e = cc

  -- What holds of every component holds of the one with an id.
  by_id_holds :
      (ds : List Component) (i : String) {c : Component} → All P ds → by_id ds i ≡ some c → P c
  unfolding by_id
  by_id_holds [] i h e = cc
  by_id_holds (d ∷ ds) i h e =
      found_holds d (str_eq d.id i) (by_id ds i) h.0 (by_id_holds ds i h.1) e

  resolve_step :
      (o : Option Component) (rest : List Component)
      → ((c : Component) → o ≡ some c → P c)
      → All P rest
      → All P (elim o [ some c ↦ c ∷ rest | none ↦ rest ])
  resolve_step none rest h all = all
  resolve_step (some c) rest h all = (h c refl, all)

  All-resolve :
      (cs : List Component) (is : List String)
      → ((i : String) (c : Component) → has i is ≡ true → by_id cs i ≡ some c → P c)
      → All P (resolve cs is)
  unfolding resolve has
  All-resolve cs [] h = tt
  All-resolve cs (i ∷ is) h =
      resolve_step (by_id cs i) (resolve cs is) (λ c. h i c (ground (arith, eq_refl i)))
        (All-resolve cs is (λ j c e. h j c (ground (arith, e))))

hostable_out :
    (cs : List Component) (ids : List String) (m : Machine) {out : List String}
    → All (λ c. 1 ≤ c.cards) cs
    → unrunnable cs ids m ≡ []
    → topo_sort cs ids ≡ order out
    → (i : String) (c : Component) → has i out ≡ true
    → by_id cs i ≡ some c
    → IsHostable m.usable_vram_mb c
hostable_out cs ids m {out} carded clear sorted i c h b =
    let given : has i ids ≡ true =
      ground (arith, (topo_sort-IsOrdered cs ids sorted).0 i, has-times i out h) in
    elim (reported_or_hosted cs ids m i b (by_id_holds (λ d. 1 ≤ d.cards) cs i carded b) given) [
      | inl r ↦ absurd (cc (subst (λ t. is_reported i t ≡ true) clear r))
      | inr (cards_there, fits) ↦ fits
    ]

-- When every component of the catalogue needs at least one card and `unrunnable` reports nothing of
-- the selection, every cohort that `plan_cohorts` returns for that machine has a component, and its
-- ids are those of components of the catalogue, of which none needs more cards than the cohort. Each
-- that runs on the GPU has its load among the loads of the cohort. Where one card is enough, the
-- megabytes of the components, each load counted once, are those that the cohort records, and the
-- card has room for them. Otherwise the cohort is a component alone.
pub plan_cohorts_fit :
    (cs : List Component) (ids : List String) (m : Machine) {ks : List Cohort}
    → All (λ c. 1 ≤ c.cards) cs
    → unrunnable cs ids m ≡ []
    → plan_cohorts cs ids m.usable_vram_mb m.gpu_count ≡ cohorts ks
    → All (IsGoodCohort cs m.usable_vram_mb) ks
unfolding plan_cohorts
plan_cohorts_fit cs ids m {ks} carded clear e =
    let (out, sorted, packed) =
      planned_from cs m.usable_vram_mb m.gpu_count (topo_sort cs ids) ks e in
    let all_hostable : All (λ c. IsListed cs c × IsHostable m.usable_vram_mb c) (resolve cs out) =
      All-resolve (λ c. IsListed cs c × IsHostable m.usable_vram_mb c) cs out
        (λ i c h found. (
          subst (λ j. by_id cs j ≡ some c) (sym (by_id-id cs i found)) found,
          hostable_out cs ids m carded clear sorted i c h found,
        )) in
    subst (All (IsGoodCohort cs m.usable_vram_mb)) packed
      (cohorts_of-IsGoodCohort cs m.usable_vram_mb m.gpu_count (resolve cs out) all_hostable).0
