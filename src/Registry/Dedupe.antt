-- ===== src/Registry/Dedupe.antt =====
-- How often an id stands in `list(dict.fromkeys(ids))` of vios/process/registry.py.
use vios_manus.Common.{◌≡◌, String, str_eq, eq_iff, List, [], ◌∷◌, arith, count, if◌then◌else◌}
use vios_manus.Registry.Lookup.{has, dedupe, dedupe_from}

times-dedupe_from :
    (i : String) (seen ids : List String)
    → count (λ y. str_eq y i) (dedupe_from seen ids)
      ≡ (if has i seen then 0 else if has i ids then 1 else 0)
unfolding dedupe_from has count
times-dedupe_from i seen [] = ground arith
times-dedupe_from i seen (x ∷ xs) =
    ground (arith, times-dedupe_from i seen xs, times-dedupe_from i (x ∷ seen) xs, eq_iff x i)

pub times-dedupe :
    (i : String) (ids : List String)
    → count (λ y. str_eq y i) (dedupe ids) ≡ (if has i ids then 1 else 0)
unfolding dedupe has
times-dedupe i ids = times-dedupe_from i [] ids
