-- ===== src/Registry/Lookup.antt =====
-- Reading a catalogue: `BY_ID`, `all_ids`, `defaults` and
-- `missing_dependencies` of vios/process/registry.py. The catalogue is a parameter.
use vios_manus.Common.{
  ℕ, Bool, true, false, not, Option, none, some, String, str_eq, List, [], ◌∷◌, map, any, select,
  ◌==◌, if◌then◌else◌,
}
use vios_manus.Registry.{Component}

-- `BY_ID.get(id)`: a later component of the same id wins, as in the dict comprehension.
unfoldable pub by_id : List Component → String → Option Component
by_id [] i = none
by_id (c ∷ cs) i = elim (by_id cs i) [
  | some d ↦ some d
  | none ↦ if str_eq c.id i then some c else none
]

-- `i in BY_ID`
unfoldable pub known : List Component → String → Bool
unfolding by_id
known cs i = elim (by_id cs i) [ some d ↦ true | none ↦ false ]

unfoldable pub all_ids : List Component → List String
all_ids cs = map (λ c. c.id) cs

unfoldable defaults : List Component → List String
defaults cs = map (λ c. c.id) (select (λ c. c.default_on) cs)

-- `STAGE_NAMES.get(stage, …)`, where the catalogue's stages all have names
unfoldable pub name_in : ℕ → List (ℕ × String) → Option String
name_in s [] = none
name_in s ((t, n) ∷ rest) = if t == s then some n else name_in s rest

-- `item in list`, for texts
unfoldable pub has : String → List String → Bool
has x xs = any (λ y. str_eq y x) xs

-- `list(dict.fromkeys(ids))`: each id once, at its first place.
unfoldable pub dedupe_from : List String → List String → List String
unfolding has
dedupe_from seen [] = []
dedupe_from seen (i ∷ is) =
    let again = dedupe_from seen is in
    let first = i ∷ dedupe_from (i ∷ seen) is in if has i seen then again else first

unfoldable pub dedupe : List String → List String
unfolding dedupe_from
dedupe ids = dedupe_from [] ids

-- The `needs` of an id that is in the catalogue.
unfoldable pub needs_of : List Component → String → List String
unfolding by_id
needs_of cs i = elim (by_id cs i) [ some c ↦ c.needs | none ↦ [] ]

-- `missing_dependencies`: the ids with a need outside the selection, with those needs. The ids are
-- ids of the catalogue (for any other the source raises a KeyError).
unfoldable missing_from : List Component → List String → List String → List (String × List String)
unfolding has needs_of
missing_from cs wanted [] = []
missing_from cs wanted (i ∷ is) =
    let gap = select (λ n. not (has n wanted)) (needs_of cs i) in
    let rest = missing_from cs wanted is in elim gap [ [] ↦ rest | n ∷ ns ↦ (i, n ∷ ns) ∷ rest ]

unfoldable missing_dependencies : List Component → List String → List (String × List String)
unfolding missing_from
missing_dependencies cs ids = missing_from cs ids ids
