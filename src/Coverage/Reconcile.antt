-- ===== src/Coverage/Reconcile.antt =====
-- `reconcile` of vios/process/coverage.py: passes whose evidence the database holds become done.
use vios_manus.Common.{
  ℕ, ◌+◌, Bool, ◌&&◌, ◌||◌, not, Option, none, some, String, str_eq, List, [], ◌∷◌, count, length,
  select, any, if◌then◌else◌,
}
use vios_manus.Sql.{update}
use vios_manus.Coverage.{queued, done, failed, is, Row, Conn, at}

-- One element of `rows`; a None counts as 0, or as the empty text.
pub record Evidence : Type 0 where
  pub video_key : String
  pub component : String
  pub observer_id : Option String
  pub claims : Option ℕ
  pub vectors : Option ℕ
  pub seconds : Option ℕ

abbrev pub or_zero : Option ℕ → ℕ
or_zero none = 0
or_zero (some n) = n

abbrev or_empty : Option String → String
or_empty none = ""
or_empty (some s) = s

pub record Reconciled : Type 0 where
  pub rows : ℕ
  pub matched : ℕ
  pub per_component : List (String × ℕ)
  pub videos : ℕ

-- `per[component] = per.get(component, 0) + 1`
unfoldable tally : String → List (String × ℕ) → List (String × ℕ)
tally c [] = (c, 1) ∷ []
tally c ((d, n) ∷ rest) =
    let more = tally c rest in if str_eq d c then (d, n + 1) ∷ rest else (d, n) ∷ more

unfoldable tally_all : List Evidence → List (String × ℕ) → List (String × ℕ)
unfolding tally
tally_all [] per = per
tally_all (e ∷ es) per = tally_all es (tally e.component per)

-- `len(vids)` for the set of the keys
unfoldable distinct_keys : List Evidence → List String → ℕ
distinct_keys [] seen = length seen
distinct_keys (e ∷ es) seen =
    distinct_keys es (if any (str_eq e.video_key) seen then seen else e.video_key ∷ seen)

unfoldable pub reconcile_row : ℕ → Evidence → Row → Row
reconcile_row now e r = record r {
  state = done;
  done_at = some now;
  seconds = some (or_zero e.seconds);
  claims = some (or_zero e.claims);
  vectors = some (or_zero e.vectors);
  observer_id = some (or_empty e.observer_id);
  lease_until = 0;
  token = none;
  next_try_at = 0;
  last_error = none;
  checkpoint = none;
}

-- WHERE video_key=? AND component=? AND state IN (?,?)
unfoldable pub to_reconcile : Evidence → Row → Bool
unfolding at
to_reconcile e r = at e.video_key e.component r && (is queued r.state || is failed r.state)

-- `executemany`: one statement for each piece of evidence, with the total row count.
unfoldable pub reconcile_all : ℕ → List Evidence → List Row → List Row × ℕ
unfolding reconcile_row to_reconcile
reconcile_all now [] rows = (rows, 0)
reconcile_all now (e ∷ es) rows =
    let (rows', n) = reconcile_all now es (update (to_reconcile e) (reconcile_row now e) rows) in
    (rows', count (to_reconcile e) rows + n)

-- `if r and r[0] and r[1]`
abbrev pub is_named : Evidence → Bool
is_named e = not (str_eq e.video_key "") && not (str_eq e.component "")

-- The rest of `reconcile`, after the filter.
unfoldable pub reconcile_named : ℕ → List Evidence → Conn → Conn × Reconciled
unfolding reconcile_all tally_all distinct_keys
reconcile_named now [] c = (c, record { rows = 0; matched = 0; per_component = []; videos = 0 })
reconcile_named now (e ∷ es) c =
    let (rows, n) = reconcile_all now (e ∷ es) c.rows in
    (
      record c { rows = rows },
      record {
        rows = n;
        matched = length (e ∷ es);
        per_component = tally_all (e ∷ es) [];
        videos = distinct_keys (e ∷ es) [];
      },
    )

unfoldable pub reconcile : ℕ → List Evidence → Conn → Conn × Reconciled
unfolding reconcile_named
reconcile now evidence c = reconcile_named now (select is_named evidence) c
