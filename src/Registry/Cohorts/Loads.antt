-- ===== src/Registry/Cohorts/Loads.antt =====
-- The weights that the components of a cohort load, and what they cost, for `plan_cohorts` in
-- vios/process/registry.py: an account that looks at the components only.
use text.Mathlib.TextPositions.{eq_refl}
use vios_manus.Common.{
  ℕ, ◌+◌, ◌≡◌, refl, ap, true, ◌&&◌, ◌||◌, not, some, String, str_eq, List, [], ◌∷◌, ◌++◌, arith,
  All, All-imp, Bool-cases, Option-cases, inl, inr, eq_iff, if◌then◌else◌,
}
use vios_manus.Registry.{Component, is_gpu, load_key}
use vios_manus.Registry.Lookup.{by_id, has}
use vios_manus.Registry.Topo.Texts.{has-append}
use vios_manus.Registry.Cohorts.{add_load, resolve}

-- The megabytes of the loads of some components on the GPU, beyond those of these keys: each load
-- once, at the first component that needs it.
unfoldable pub loads_cost : List String → List Component → ℕ
loads_cost seen [] = 0
loads_cost seen (c ∷ cs) =
    if is_gpu c.device && not (has (load_key c) seen)
    then c.vram_mb + loads_cost (load_key c ∷ seen) cs
    else loads_cost seen cs

-- The keys of those loads.
unfoldable pub load_keys : List Component → List String
load_keys [] = []
load_keys (c ∷ cs) = if is_gpu c.device then load_key c ∷ load_keys cs else load_keys cs

pub has-load_keys :
    (i : String) (cs : List Component) (c : Component)
    → has i (load_keys (cs ++ c ∷ []))
      ≡ (has i (load_keys cs) || (is_gpu c.device && str_eq (load_key c) i))
unfolding load_keys has
has-load_keys i [] c = ground arith
has-load_keys i (d ∷ cs) c = ground (arith, has-load_keys i cs c)

pub loads_cost-append :
    (seen : List String) (cs : List Component) (c : Component)
    → loads_cost seen (cs ++ c ∷ [])
      ≡ loads_cost seen cs
        + (if is_gpu c.device && not (has (load_key c) seen || has (load_key c) (load_keys cs))
            then c.vram_mb
            else 0)
unfolding loads_cost load_keys has
loads_cost-append seen [] c = ground arith
loads_cost-append seen (d ∷ cs) c = ground (
  arith,
  loads_cost-append seen cs c,
  loads_cost-append (load_key d ∷ seen) cs c,
  eq_iff (load_key d) (load_key c),
)

-- Every component on the GPU has its key among them.
pub load_keys-All :
    (cs : List Component)
    → All (λ c. is_gpu c.device ≡ true → has (load_key c) (load_keys cs) ≡ true) cs
unfolding load_keys has
load_keys-All [] = tt
load_keys-All (c ∷ cs) = (
  λ g. ground (arith, g, eq_refl (load_key c)),
  All-imp _ _ (λ d held g. ground (arith, held g)) cs (load_keys-All cs),
)

pub has-add_load :
    (i key : String) (loads : List String)
    → has i (add_load key loads) ≡ (has i loads || str_eq key i)
unfolding add_load
has-add_load i key loads = elim (Bool-cases (has key loads)) [
  | inl there ↦ rw there (ground (arith, there, eq_iff key i))
  | inr new ↦ rw (new, has-append i loads (key ∷ [])) (unfold has in ground arith)
]

pub resolve-append :
    (cs : List Component) (is : List String) (c : Component)
    → by_id cs c.id ≡ some c
    → resolve cs (is ++ c.id ∷ []) ≡ resolve cs is ++ c ∷ []
unfolding resolve
resolve-append cs [] c known = rw (resolve, known) refl
resolve-append cs (i ∷ is) c known = elim (Option-cases (by_id cs i)) [
  | inl gone ↦ rw (resolve, gone) (resolve-append cs is c known)
  | inr (d, found) ↦ rw (resolve, found) (ap (λ t. d ∷ t) (resolve-append cs is c known))
]
