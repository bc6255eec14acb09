-- ===== src/Registry/Cohorts.antt =====
-- `plan_cohorts` of vios/process/registry.py.
pub mod Order
pub mod Loads
pub mod Good
pub mod Budget
pub mod Planned
use vios_manus.Common.{
  ℕ, zero, suc, ◌+◌, ◌*◌, Bool, true, false, ◌&&◌, ◌||◌, not, Option, none, some, String, str_eq,
  List, [], ◌∷◌, ◌++◌, map, any, select, length, ltb, leb, ◌==◌, if◌then◌else◌,
}
use vios_manus.Registry.{Component, is_gpu, load_key}
use vios_manus.Registry.Lookup.{by_id, has}
use vios_manus.Registry.Topo.{Sorting, order, topo_sort}

-- A `Cohort`.
pub record Cohort : Type 0 where
  pub index : ℕ
  pub components : List String
  pub vram_mb : ℕ
  pub cards : ℕ
  pub loads : List String

abbrev empty_cohort : ℕ → Cohort
empty_cohort i = record { index = i; components = []; vram_mb = 0; cards = 1; loads = [] }

-- The local variables of `plan_cohorts`. `cur_loads` is the dict from a load key to its megabytes,
-- of which only the keys are read again.
pub record Packing : Type 0 where
  pub cohorts : List Cohort
  pub cur : Cohort
  pub cur_loads : List String

abbrev pub start : Packing
start = record { cohorts = []; cur = empty_cohort 0; cur_loads = [] }

abbrev pub is_empty : List String → Bool
is_empty [] = true
is_empty (x ∷ xs) = false

-- The inner function `close`.
unfoldable pub close : Packing → Packing
close s =
    let closed =
      if is_empty s.cur.components
      then s.cohorts
      else s.cohorts ++ record s.cur { loads = s.cur_loads } ∷ [] in
    record { cohorts = closed; cur = empty_cohort (length closed); cur_loads = [] }

-- `cur_loads[key] = …`: a key that is there keeps its place.
unfoldable pub add_load : String → List String → List String
unfolding has
add_load key loads = if has key loads then loads else loads ++ key ∷ []

-- A component that needs several cards gets a cohort to itself.
unfoldable pub set_alone : Component → Packing → Packing
unfolding add_load load_key
set_alone c s = record s {
  cur = record s.cur {
    components = s.cur.components ++ c.id ∷ [];
    vram_mb = c.vram_mb;
    cards = c.cards;
  };
  cur_loads = add_load (load_key c) s.cur_loads;
}

unfoldable pub pack_alone : Component → Packing → Packing
unfolding close set_alone
pack_alone c s = close (set_alone c (close s))

-- `cur.components.append(cid)`, and on the GPU the load and its cost.
unfoldable pub append_component : Component → ℕ → Packing → Packing
unfolding add_load load_key
append_component c cost s =
    if is_gpu c.device
    then record s {
      cur = record s.cur {
        components = s.cur.components ++ c.id ∷ [];
        vram_mb = s.cur.vram_mb + cost;
      };
      cur_loads = add_load (load_key c) s.cur_loads;
    }
    else record s { cur = record s.cur { components = s.cur.components ++ c.id ∷ [] } }

-- What the component adds to the current cohort: nothing if its weights are loaded already.
unfoldable pub load_cost : Component → Packing → ℕ
unfolding load_key has
load_cost c s = if has (load_key c) s.cur_loads then 0 else c.vram_mb

unfoldable pub pack_shared : ℕ → Component → Packing → Packing
unfolding close append_component load_cost
pack_shared budget c s =
    if is_gpu c.device && ltb budget (s.cur.vram_mb + load_cost c s)
    then append_component c c.vram_mb (close s)
    else append_component c (load_cost c s) s

-- The body of the `for` loop.
unfoldable pub pack : ℕ → ℕ → Component → Packing → Packing
unfolding pack_alone pack_shared
pack budget gpus c s =
    if ltb gpus c.cards && is_gpu c.device
    then s
    else if ltb 1 c.cards
    then pack_alone c s
    else pack_shared budget c s

unfoldable pub pack_all : ℕ → ℕ → List Component → Packing → Packing
unfolding pack
pack_all budget gpus [] s = s
pack_all budget gpus (c ∷ cs) s = pack_all budget gpus cs (pack budget gpus c s)

-- The part of `plan_cohorts` below the sort, on the components in their order.
unfoldable pub cohorts_of : ℕ → ℕ → List Component → List Cohort
unfolding pack_all close
cohorts_of budget gpus cs =
    select (λ k. not (is_empty k.components)) (close (pack_all budget gpus cs start)).cohorts

-- `[BY_ID[i] for i in order]`
unfoldable pub resolve : List Component → List String → List Component
unfolding by_id
resolve cs [] = []
resolve cs (i ∷ is) = elim (by_id cs i) [ some c ↦ c ∷ resolve cs is | none ↦ resolve cs is ]

-- `plan_cohorts`; a KeyError or a ValueError of the sort is handed on.
pub data Plan : Type 0 where
  cohorts : List Cohort → Plan
  refused : Sorting → Plan

unfoldable pub plan_cohorts : List Component → List String → ℕ → ℕ → Plan
unfolding topo_sort resolve cohorts_of
plan_cohorts cs ids budget gpus = elim (topo_sort cs ids) [
  | order out ↦ cohorts (cohorts_of budget gpus (resolve cs out))
  | s ↦ refused s
]
