-- ===== src/Registry/Topo.antt =====
-- `topo_sort` of vios/process/registry.py.
pub mod Texts
mod Entries
pub mod Invariant
mod Round
pub mod Sorted
pub mod Result
use vios_manus.Common.{
  ℕ, zero, suc, Bool, true, false, ◌&&◌, ◌||◌, not, none, some, String, str_eq, str_le, List, [],
  ◌∷◌, ◌++◌, map, select, sort, length, ltb, ◌==◌,
}
use vios_manus.Registry.{Component}
use vios_manus.Registry.Lookup.{by_id, known, needs_of, has, dedupe}

-- What `topo_sort` returns or raises: the order, a KeyError for unknown ids, or a ValueError that
-- names the components of a cycle.
pub data Sorting : Type 0 where
  order : List String → Sorting
  unknown : List String → Sorting
  cycle : List String → Sorting

-- One entry of the dict `remaining`: an id with the needs that are still open.
pub record Open : Type 0 where
  pub id : String
  pub deps : List String

abbrev pub is_nil : List String → Bool
is_nil [] = true
is_nil (x ∷ xs) = false

-- `deps.discard(cur)`
unfoldable pub discard : String → List String → List String
discard cur deps = select (λ n. not (str_eq n cur)) deps

unfoldable pub discard_all : String → List Open → List Open
unfolding discard
discard_all cur [] = []
discard_all cur (o ∷ os) = record o { deps = discard cur o.deps } ∷ discard_all cur os

-- The entries that `cur` was the last open need of, and that are neither out nor ready.
unfoldable pub newly : String → List String → List String → List Open → List String
unfolding discard has
newly cur out ready remaining =
    map (λ o. o.id)
      (select
        (λ o.
          has cur o.deps
          && (is_nil (discard cur o.deps) && (not (has o.id out) && not (has o.id ready))))
        remaining)

-- `remaining.pop(cur, None)`
unfoldable pub pop : String → List Open → List Open
pop cur remaining = select (λ o. not (str_eq o.id cur)) remaining

module _ (cs : List Component) where
  stage_of : String → ℕ
  unfolding by_id
  stage_of i = elim (by_id cs i) [ some c ↦ c.stage | none ↦ 0 ]

  -- the sort key (stage, id)
  unfoldable pub earlier : String → String → Bool
  unfolding stage_of
  earlier i j = ltb (stage_of i) (stage_of j) || (stage_of i == stage_of j && str_le i j)

  -- `remaining` at the start
  unfoldable pub open_all : List String → List String → List Open
  unfolding needs_of has
  open_all want [] = []
  open_all want (i ∷ is) =
      record { id = i; deps = select (λ n. has n want) (needs_of cs i) } ∷ open_all want is

  -- The `while ready:` loop, with fuel for its rounds.
  unfoldable pub loop : ℕ → List String → List String → List Open → List String × List Open
  unfolding earlier discard_all newly pop
  loop fuel [] out remaining = (out, remaining)
  loop zero (cur ∷ ready) out remaining = (out, remaining)
  loop (suc fuel) (cur ∷ ready) out remaining =
      let out' = out ++ cur ∷ [] in
      loop fuel (sort earlier (ready ++ newly cur out' ready remaining)) out'
        (pop cur (discard_all cur remaining))

  unfoldable pub sorted_from : List String → Sorting
  unfolding loop open_all earlier
  sorted_from want =
      let remaining = open_all want want in
      let ready = sort earlier (map (λ o. o.id) (select (λ o. is_nil o.deps) remaining)) in
      let (out, rest) = loop (length want) ready [] remaining in
      elim rest [ [] ↦ order out | o ∷ os ↦ cycle (sort str_le (map (λ p. p.id) (o ∷ os))) ]

  unfoldable pub topo_sort : List String → Sorting
  unfolding known dedupe sorted_from
  topo_sort ids =
      let want = dedupe ids in
      elim (select (λ i. not (known cs i)) want) [
        | [] ↦ sorted_from want
        | u ∷ us ↦ unknown (u ∷ us)
      ]
