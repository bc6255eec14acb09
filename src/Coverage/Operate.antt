-- ===== src/Coverage/Operate.antt =====
-- Filling the table and the operator's actions: `plan`, `requeue`, `reset_component`,
-- `drop_component`, `reclaim_stale` and `revive_failed` of vios/process/coverage.py.
use vios_manus.Common.{
  ℕ, ◌+◌, Bool, true, ◌&&◌, not, Option, none, some, String, str_eq, List, [], ◌∷◌, ◌++◌, map, any,
  count, select, max, ltb, leb, if◌then◌else◌,
}
use vios_manus.Coverage.{
  State, queued, running, failed, is, Row, Conn, Worker, at, mine, max_revivals,
}
use vios_manus.Coverage.Finish.{updating}

-- the rowid that SQLite gives to a new row: one more than the largest
unfoldable pub next_rowid : List Row → ℕ
next_rowid [] = 1
next_rowid (r ∷ rs) = max (r.rowid + 1) (next_rowid rs)

-- INSERT INTO coverage(video_key, component): the other columns take their defaults.
unfoldable pub fresh : ℕ → String → String → Row
fresh rowid key component = record {
  rowid = rowid;
  video_key = key;
  component = component;
  state = queued;
  attempts = 0;
  worker = none;
  token = none;
  lease_until = 0;
  next_try_at = 0;
  revivals = 0;
  started_at = none;
  done_at = none;
  seconds = none;
  claims = none;
  vectors = none;
  observer_id = none;
  last_error = none;
  checkpoint = none;
}

-- INSERT OR IGNORE, against the primary key (video_key, component), with its row count.
unfoldable pub insert_or_ignore : String × String → List Row → List Row × ℕ
unfolding next_rowid fresh at
insert_or_ignore (key, component) rows =
    if any (at key component) rows
    then (rows, 0)
    else (rows ++ fresh (next_rowid rows) key component ∷ [], 1)

-- `executemany`: the statement for each pair in turn, with the total row count.
unfoldable pub insert_all : List (String × String) → List Row → List Row × ℕ
unfolding insert_or_ignore
insert_all [] rows = (rows, 0)
insert_all (p ∷ ps) rows =
    let (rows', n) = insert_or_ignore p rows in
    let (rows'', m) = insert_all ps rows' in (rows'', n + m)

-- `[(k, c) for k in video_keys for c in components]`
unfoldable pub pairs : List String → List String → List (String × String)
pairs [] components = []
pairs (k ∷ ks) components = map (λ c. (k, c)) components ++ pairs ks components

unfoldable pub plan : List String → Option (List String) → Conn → Conn × ℕ
unfolding insert_all pairs
plan [] keys c = (c, 0)
plan (x ∷ xs) keys c =
    let video_keys : List String = elim keys [
      | none ↦ map (λ v. v.video_key) c.videos
      | some ks ↦ ks
    ] in
    let (rows, n) = insert_all (pairs video_keys (x ∷ xs)) c.rows in (record c { rows = rows }, n)

unfoldable pub requeue_row : Row → Row
requeue_row r = record r {
  state = queued;
  attempts = 0;
  next_try_at = 0;
  last_error = none;
  worker = none;
  token = none;
  lease_until = 0;
}

-- WHERE state=? [AND component=?], where the empty text asks for every component
abbrev pub to_requeue : String → State → Row → Bool
to_requeue component state r =
    is state r.state && (if str_eq component "" then true else str_eq r.component component)

unfoldable pub requeue : String → State → Conn → Conn × ℕ
unfolding requeue_row
requeue component state c =
    (updating (to_requeue component state) requeue_row c, count (to_requeue component state) c.rows)

unfoldable pub reset_row : Row → Row
reset_row r = record r {
  state = queued;
  attempts = 0;
  revivals = 0;
  worker = none;
  token = none;
  lease_until = 0;
  next_try_at = 0;
  done_at = none;
  seconds = none;
  last_error = none;
  checkpoint = none;
}

unfoldable pub reset_component : String → Conn → Conn × ℕ
unfolding reset_row
reset_component component c =
    let p = λ (r : Row). str_eq r.component component in (updating p reset_row c, count p c.rows)

-- DELETE FROM coverage WHERE component=?
unfoldable pub drop_component : String → Conn → Conn × ℕ
drop_component component c =
    let p = λ (r : Row). str_eq r.component component in
    (record c { rows = select (λ r. not (p r)) c.rows }, count p c.rows)

unfoldable pub reclaim_row : Row → Row
reclaim_row r = record r { state = queued; worker = none; token = none; lease_until = 0 }

unfoldable pub reclaim_stale : ℕ → Conn → Conn × ℕ
unfolding reclaim_row
reclaim_stale now c =
    let p = λ (r : Row). is running r.state && ltb r.lease_until now in
    (updating p reclaim_row c, count p c.rows)

unfoldable pub revive_row : Row → Row
revive_row r = record r {
  state = queued;
  attempts = 0;
  next_try_at = 0;
  revivals = r.revivals + 1;
  worker = none;
  token = none;
  lease_until = 0;
}

pub record Revived : Type 0 where
  pub revived : ℕ
  pub exhausted : ℕ

-- the WHERE clauses of the update and of the count that follows it
unfoldable pub revivable : Worker → Conn → ℕ → Row → Bool
unfolding mine
revivable w c now r =
    is failed r.state && leb r.next_try_at now && ltb r.revivals max_revivals && mine w c.videos r

unfoldable pub exhausted : Worker → Conn → Row → Bool
unfolding mine
exhausted w c r = is failed r.state && leb max_revivals r.revivals && mine w c.videos r

unfoldable pub revive_failed : Worker → ℕ → Conn → Conn × Revived
unfolding revivable exhausted revive_row
revive_failed w now c =
    let c' = updating (revivable w c now) revive_row c in
    (
      c',
      record {
        revived = count (revivable w c now) c.rows;
        exhausted = count (exhausted w c') c'.rows;
      },
    )
