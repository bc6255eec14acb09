-- ===== src/Registry/Validate.antt =====
-- `validate` of vios/process/registry.py: the structural checks over a catalogue.
use vios_manus.Common.{
  ℕ, Bool, true, false, ◌&&◌, not, none, some, String, str_eq, List, [], ◌∷◌, ◌++◌, ltb, ◌==◌,
}
use vios_manus.Registry.{Component, is_gpu}
use vios_manus.Registry.Lookup.{by_id, all_ids, has}
use vios_manus.Registry.Topo.{Sorting, order, unknown, cycle, topo_sort}

-- CHANNELS of vios/process/__init__.py
abbrev channels : List String
channels =
    "speech" ∷ "ocr" ∷ "visual" ∷ "audio" ∷ "narrative" ∷ "style" ∷ "caption" ∷ "concept" ∷ []

abbrev outputs : List String
outputs = "video" ∷ "shots" ∷ "claims" ∷ "vectors" ∷ "artifacts" ∷ "metrics" ∷ []

-- One line of the report, with what its text names.
pub data Problem : Type 0 where
  duplicate_id : String → Problem
  unknown_channel : String → String → Problem
  unknown_need : String → String → Problem
  later_need : String → ℕ → String → ℕ → Problem
  unknown_output : String → String → Problem
  no_channel : String → Problem
  no_vram : String → Problem
  cyclic : List String → Problem

-- `if test: problems.append(problem)`
abbrev when : Bool → Problem → List Problem
when true p = p ∷ []
when false p = []

unfoldable check_need : List Component → Component → String → List Problem
unfolding by_id
check_need cs c n = elim (by_id cs n) [
  | none ↦ unknown_need c.id n ∷ []
  | some d ↦ when (ltb c.stage d.stage) (later_need c.id c.stage n d.stage)
]

unfoldable check_needs : List Component → Component → List String → List Problem
unfolding check_need
check_needs cs c [] = []
check_needs cs c (n ∷ ns) = check_need cs c n ++ check_needs cs c ns

unfoldable check_outputs : Component → List String → List Problem
unfolding has
check_outputs c [] = []
check_outputs c (p ∷ ps) = when (not (has p outputs)) (unknown_output c.id p) ++ check_outputs c ps

-- The body of the loop, `seen` being the ids of the components before it.
unfoldable check_component : List Component → List String → Component → List Problem
unfolding has check_needs check_outputs
check_component cs seen c =
    when (has c.id seen) (duplicate_id c.id)
    ++ when (not (str_eq c.channel "") && not (has c.channel channels))
        (unknown_channel c.id c.channel)
    ++ check_needs cs c c.needs
    ++ check_outputs c c.produces
    ++ when (has "claims" c.produces && str_eq c.channel "") (no_channel c.id)
    ++ when (is_gpu c.device && c.vram_mb == 0) (no_vram c.id)

unfoldable check_all : List Component → List String → List Component → List Problem
unfolding check_component
check_all cs seen [] = []
check_all cs seen (c ∷ rest) = check_component cs seen c ++ check_all cs (c.id ∷ seen) rest

-- The ValueError of `topo_sort` becomes a problem. It raises no KeyError here, as every id is one
-- of the catalogue.
unfoldable cycle_problem : Sorting → List Problem
cycle_problem (order out) = []
cycle_problem (unknown ids) = []
cycle_problem (cycle ids) = cyclic ids ∷ []

unfoldable validate : List Component → List Problem
unfolding check_all cycle_problem all_ids topo_sort
validate cs = check_all cs [] cs ++ cycle_problem (topo_sort cs (all_ids cs))
