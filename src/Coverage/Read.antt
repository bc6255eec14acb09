-- ===== src/Coverage/Read.antt =====
-- The reading operations of vios/process/coverage.py: `pending`, `deferred`, `retry_state`
-- and `counts`.
use vios_manus.Common.{
  ℕ, ◌+◌, Bool, true, ◌&&◌, ◌||◌, Option, none, some, String, str_eq, List, [], ◌∷◌, count, select,
  min, ltb, leb, ◌==◌, ◌-◌, if◌then◌else◌,
}
use vios_manus.Coverage.{
  State, queued, failed, is, Row, Conn, Worker, claimable, mine, max_revivals, max_attempts,
}

unfoldable pub pending : Worker → String → ℕ → Conn → ℕ
unfolding claimable mine
pending w component now c =
    count (λ r. str_eq r.component component && (claimable now r && mine w c.videos r)) c.rows

-- the WHERE clause of `deferred`
unfoldable pub waiting : Worker → Conn → ℕ → Row → Bool
unfolding mine
waiting w c now r =
    ltb now r.next_try_at
    && (is queued r.state || is failed r.state && ltb r.revivals max_revivals)
    && mine w c.videos r

-- MIN(next_try_at), or NULL for no row
unfoldable pub earliest : List Row → Option ℕ
earliest [] = none
earliest (r ∷ rs) = elim (earliest rs) [
  | none ↦ some r.next_try_at
  | some t ↦ some (min r.next_try_at t)
]

-- `row["due"] or 0.0`
abbrev pub or_zero : Option ℕ → ℕ
or_zero none = 0
or_zero (some t) = t

pub record Deferred : Type 0 where
  pub rows : ℕ
  pub due_at : ℕ

unfoldable pub deferred : Worker → ℕ → Conn → Deferred
unfolding waiting earliest
deferred w now c = record {
  rows = count (waiting w c now) c.rows;
  due_at = or_zero (earliest (select (waiting w c now) c.rows));
}

-- What `retry_state` reports. `due_in` is not yet rounded to whole seconds.
pub record RetryState : Type 0 where
  pub waiting : ℕ
  pub due_at : ℕ
  pub due_in : ℕ
  pub needs_attention : ℕ
  pub ever_revived : ℕ
  pub max_revivals : ℕ
  pub max_attempts : ℕ

-- the WHERE clauses of its two counts
unfoldable pub stuck : Worker → Conn → Row → Bool
unfolding mine
stuck w c r = is failed r.state && leb max_revivals r.revivals && mine w c.videos r

unfoldable ever_revived : Worker → Conn → Row → Bool
unfolding mine
ever_revived w c r = ltb 0 r.revivals && mine w c.videos r

unfoldable retry_state : Worker → ℕ → Conn → RetryState
unfolding deferred stuck ever_revived
retry_state w now c =
    let d = deferred w now c in
    record {
      waiting = d.rows;
      due_at = d.due_at;
      due_in = if d.due_at == 0 then 0 else d.due_at - now;
      needs_attention = count (stuck w c) c.rows;
      ever_revived = count (ever_revived w c) c.rows;
      max_revivals = max_revivals;
      max_attempts = max_attempts;
    }

pub record Counts : Type 0 where
  pub queued : ℕ
  pub running : ℕ
  pub done : ℕ
  pub failed : ℕ
  pub skipped : ℕ
  pub total : ℕ

-- COUNT(*) … [WHERE component=?] GROUP BY state, at one state
unfoldable pub count_state : String → State → List Row → ℕ
count_state component s =
    count
      (λ r. (if str_eq component "" then true else str_eq r.component component) && is s r.state)

unfoldable pub counts : String → Conn → Counts
unfolding count_state
counts component c =
    let n = λ (s : State). count_state component s c.rows in
    record {
      queued = n State.queued;
      running = n State.running;
      done = n State.done;
      failed = n State.failed;
      skipped = n State.skipped;
      total = n State.queued + n State.running + n State.done + n State.failed + n State.skipped;
    }
