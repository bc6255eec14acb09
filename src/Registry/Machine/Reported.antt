-- ===== src/Registry/Machine/Reported.antt =====
-- `unrunnable` against `plan_cohorts` of vios/process/registry.py.
use text.Mathlib.TextPositions.{eq_refl}
use vios_manus.Common.{
  ◌≤◌, ◌≡◌, ap, Bool, true, none, some, String, str_eq, eq_iff, List, [], ◌∷◌, arith, any, ◌⊎◌, inl,
  inr, Option-cases, Bool-cases,
}
use vios_manus.Registry.{Component, is_gpu}
use vios_manus.Registry.Lookup.{by_id, has, dedupe}
use vios_manus.Registry.Cohorts.Order.{has_cards}
use vios_manus.Registry.Cohorts.Good.{IsHostable}
use vios_manus.Registry.Dedupe.{times-dedupe}
use vios_manus.Registry.Topo.Texts.{times-has}
use vios_manus.Registry.Machine.{Machine, Reason, gpu_reason, reason, reasons, unrunnable}

-- an id that is a key of the dict
abbrev pub is_reported : String → List (String × Reason) → Bool
is_reported i report = any (λ e. str_eq e.0 i) report

runs :
    (m : Machine) (c : Component)
    → 1 ≤ c.cards
    → reason m c ≡ none
    → (has_cards m.gpu_count c ≡ true) × IsHostable m.usable_vram_mb c
unfolding reason gpu_reason
runs m c pos h = (ground arith, λ e few. ground (arith, ap is_gpu e))

module _ (cs : List Component) (m : Machine) (i : String) (c : Component) (why : Reason) where
  reported_head :
      (x : String) (xs : List String)
      → by_id cs i ≡ some c
      → reason m c ≡ some why
      → x ≡ i
      → is_reported i (reasons cs m (x ∷ xs)) ≡ true
  unfolding reasons
  reported_head x xs b r e = rw (reasons, e, b, r) (ground (arith, eq_refl i))

  reported_tail :
      (x : String) (xs : List String)
      → is_reported i (reasons cs m xs) ≡ true
      → is_reported i (reasons cs m (x ∷ xs)) ≡ true
  unfolding reasons
  reported_tail x xs h = elim (Option-cases (by_id cs x)) [
    | inl e ↦ rw (reasons, e) h
    | inr (d, e) ↦
        rw (reasons, e)
          (elim (Option-cases (reason m d)) [ inl f ↦ rw f h | inr (w, f) ↦ rw f (ground arith) ])
  ]

  reported_reason :
      (ids : List String)
      → by_id cs i ≡ some c
      → reason m c ≡ some why
      → has i ids ≡ true
      → is_reported i (reasons cs m ids) ≡ true
  unfolding has
  reported_reason [] b r h = cc
  reported_reason (x ∷ xs) b r h = elim (Bool-cases (str_eq x i)) [
    | inl e ↦ reported_head x xs b r ((eq_iff x i).0 e)
    | inr e ↦ reported_tail x xs (reported_reason xs b r (ground arith))
  ]

-- Every selected component of the catalogue that needs a card or more is either reported by `unrunnable`, or
-- `plan_cohorts` places it and it fits the card.
pub reported_or_hosted :
    (cs : List Component) (ids : List String) (m : Machine) (i : String) {c : Component}
    → by_id cs i ≡ some c
    → 1 ≤ c.cards
    → has i ids ≡ true
    → (is_reported i (unrunnable cs ids m) ≡ true)
      ⊎ ((has_cards m.gpu_count c ≡ true) × IsHostable m.usable_vram_mb c)
unfolding unrunnable
reported_or_hosted cs ids m i {c} b pos h = elim (Option-cases (reason m c)) [
  | inl e ↦ inr (runs m c pos e)
  | inr (why, e) ↦ inl (
      reported_reason cs m i c why (dedupe ids) b e
        (times-has i (dedupe ids) (rw (times-dedupe i ids, h) (omega arith))))
]
