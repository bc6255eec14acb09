-- ===== src/Registry/Stages.antt =====
-- The stages of vios/process/registry.py: `stage_of`, `stages_of` and `components_in_stage`.
use vios_manus.Common.{
  ℕ, false, Option, none, some, String, str_eq, List, [], ◌∷◌, any, select, ◌==◌, sort, leb,
  if◌then◌else◌,
}
use vios_manus.Registry.{Component, stage_names}
use vios_manus.Registry.Lookup.{by_id, all_ids, name_in}
use vios_manus.Registry.Cohorts.{resolve}

-- `stage_name`. The stages of the catalogue all have names; the text of any other number is the
-- argument.
unfoldable stage_name : (ℕ → String) → Component → String
unfolding name_in
stage_name show c = elim (name_in c.stage stage_names) [ some n ↦ n | none ↦ show c.stage ]

unfoldable pub stage_of : (ℕ → String) → List Component → String → String
unfolding by_id stage_name
stage_of show cs i = elim (by_id cs i) [ some c ↦ stage_name show c | none ↦ "" ]

-- A set of stages as a list without repetition.
unfoldable add_stage : ℕ → List ℕ → List ℕ
add_stage s have = if any (λ t. t == s) have then have else s ∷ have

unfoldable stages_had : List Component → List ℕ
unfolding add_stage
stages_had [] = []
stages_had (c ∷ cs) = add_stage c.stage (stages_had cs)

unfoldable names_of : List ℕ → List String
unfolding name_in
names_of [] = []
names_of (s ∷ ss) = elim (name_in s stage_names) [ some n ↦ n ∷ names_of ss | none ↦ names_of ss ]

-- `stages_of`
unfoldable stages_of : List Component → List String → List String
unfolding stages_had names_of resolve
stages_of cs ids = names_of (sort leb (stages_had (resolve cs ids)))

-- `components_in_stage`; `none` stands for no restriction
unfoldable components_in_stage :
    (ℕ → String) → List Component → String → Option (List String) → List String
unfolding by_id stage_name
components_in_stage show cs stage ids =
    let pool : List String = elim ids [ some given ↦ given | none ↦ all_ids cs ] in
    select (λ i. elim (by_id cs i) [ some c ↦ str_eq (stage_name show c) stage | none ↦ false ])
      pool
