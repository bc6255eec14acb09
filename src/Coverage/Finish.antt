-- ===== src/Coverage/Finish.antt =====
-- How a claimed row is renewed, given back and finished: `renew`, `release`, `done`, `fail`,
-- `defer` and `skip` of vios/process/coverage.py.
use vios_manus.Common.{
  ℕ, ◌+◌, ◌-◌, ◌*◌, Bool, ◌&&◌, none, some, String, List, [], ◌∷◌, length, min, max, ltb, leb,
  is_text, or_null, coalesce, clip, if◌then◌else◌, get_or,
}
use vios_manus.Sql.{update}
use vios_manus.Coverage.{
  State, queued, running, done, failed, skipped, is, Row, Conn, Worker, at, second, lease_seconds,
  max_attempts, retry_backoff, revive_after,
}

-- UPDATE coverage SET … WHERE …
abbrev pub updating : (Row → Bool) → (Row → Row) → Conn → Conn
updating p f c = record c { rows = update p f c.rows }

unfoldable pub renew_row : ℕ → String → Row → Row
renew_row now checkpoint r = record r {
  lease_until = now + lease_seconds;
  checkpoint = coalesce (or_null checkpoint) r.checkpoint;
}

unfoldable pub renew : Worker → String → String → String → ℕ → Conn → Conn
unfolding at renew_row
renew w key component checkpoint now =
    updating (λ r. at key component r && is_text r.worker w.name) (renew_row now checkpoint)

unfoldable pub release_row : Row → Row
release_row r = record r {
  state = queued;
  worker = none;
  token = none;
  lease_until = 0;
  attempts = max (r.attempts - 1) 0;
}

unfoldable pub release : String → String → Conn → Conn
unfolding at release_row
release key component = updating (λ r. at key component r && is running r.state) release_row

unfoldable pub done_row : ℕ → ℕ → ℕ → ℕ → String → Row → Row
done_row now seconds claims vectors observer r = record r {
  state = done;
  done_at = some now;
  seconds = some seconds;
  claims = some claims;
  vectors = some vectors;
  observer_id = some observer;
  lease_until = 0;
  token = none;
  last_error = none;
  checkpoint = none;
}

-- `done`
unfoldable pub finish : String → String → ℕ → ℕ → ℕ → String → ℕ → Conn → Conn
unfolding at done_row
finish key component seconds claims vectors observer now =
    updating (at key component) (done_row now seconds claims vectors observer)

-- `fail`: the attempts that it reads, the state that it decides, and the next try.
unfoldable pub attempts_at : String → String → List Row → ℕ
unfolding at
attempts_at key component [] = max_attempts
attempts_at key component (r ∷ rs) =
    if at key component r then r.attempts else attempts_at key component rs

unfoldable pub fail_state : ℕ → State
fail_state attempts = if leb max_attempts attempts then failed else queued

unfoldable pub fail_next_try : ℕ → ℕ → ℕ
unfolding fail_state
fail_next_try attempts now =
    if is queued (fail_state attempts) && ltb 0 attempts
    then now + get_or retry_backoff (min (attempts - 1) (length retry_backoff - 1)) 0
    else if is failed (fail_state attempts)
    then now + revive_after
    else 0

unfoldable pub fail_row : State → ℕ → String → Row → Row
fail_row state next_try error r = record r {
  state = state;
  last_error = some (clip 800 error);
  lease_until = 0;
  next_try_at = next_try;
  worker = none;
  token = none;
}

unfoldable pub fail : String → String → String → ℕ → Conn → Conn × State
unfolding at attempts_at fail_state fail_next_try fail_row
fail key component error now c =
    let attempts = attempts_at key component c.rows in
    let state = fail_state attempts in
    (updating (at key component) (fail_row state (fail_next_try attempts now) error) c, state)

unfoldable pub defer_row : ℕ → String → ℕ → Row → Row
defer_row now why retry_after r = record r {
  state = queued;
  last_error = some (clip 800 why);
  lease_until = 0;
  next_try_at = now + max (5 * second) retry_after;
  worker = none;
  token = none;
}

unfoldable pub defer : String → String → String → ℕ → ℕ → Conn → Conn
unfolding at defer_row
defer key component why retry_after now =
    updating (at key component) (defer_row now why retry_after)

unfoldable pub skip_row : ℕ → String → Row → Row
skip_row now why r = record r {
  state = skipped;
  done_at = some now;
  last_error = some (clip 200 why);
  lease_until = 0;
  worker = none;
  token = none;
}

unfoldable pub skip : String → String → String → ℕ → Conn → Conn
unfolding at skip_row
skip key component why now = updating (at key component) (skip_row now why)
