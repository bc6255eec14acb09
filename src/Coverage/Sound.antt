-- ===== src/Coverage/Sound.antt =====
-- The invariant of one row of the coverage table, and the assignments of the UPDATE statements of
-- vios/process/coverage.py.
use vios_manus.Common.{ℕ, ◌≤◌, ◌<◌, ◌≡◌, ◌≢◌, Option, none, some, String, arith}
use vios_manus.Coverage.{running, failed, Row, Worker, max_attempts, max_revivals, lease_seconds}
use vios_manus.Coverage.Claim.{lease}
use vios_manus.Coverage.Finish.{
  renew_row, release_row, done_row, fail_state, fail_row, defer_row, skip_row,
}
use vios_manus.Coverage.Operate.{requeue_row, reset_row, reclaim_row, revive_row, fresh}
use vios_manus.Coverage.Reconcile.{Evidence, reconcile_row}

abbrev pub IsHeld {ℓ} : {A : Type ℓ} → Option A → Type 0
IsHeld none = ⊥
IsHeld (some a) = Unit {0}

-- What holds of a row between two statements.
pub record IsSound (r : Row) : Type 0 where
  pub failed_spent : r.state ≡ failed → max_attempts ≤ r.attempts
  pub running_tried : r.state ≡ running → 1 ≤ r.attempts
  pub running_owned : r.state ≡ running → IsHeld r.worker × IsHeld r.token
  pub running_leased : r.state ≡ running → lease_seconds ≤ r.lease_until
  pub idle_free : r.state ≢ running → r.token ≡ none
  pub revived_within : r.revivals ≤ max_revivals

pub lease-IsSound :
    (w : Worker) (now : ℕ) (t : String) (r : Row) → IsSound r → IsSound (lease w now t r)
unfolding lease
lease-IsSound w now t r h = ground arith

pub renew_row-IsSound : (now : ℕ) (c : String) (r : Row) → IsSound r → IsSound (renew_row now c r)
unfolding renew_row
renew_row-IsSound now c r h = ground arith

pub release_row-IsSound : (r : Row) → IsSound r → IsSound (release_row r)
unfolding release_row
release_row-IsSound r h = ground arith

pub done_row-IsSound :
    (now s c v : ℕ) (o : String) (r : Row) → IsSound r → IsSound (done_row now s c v o r)
unfolding done_row
done_row-IsSound now s c v o r h = ground arith

pub fail_row-IsSound :
    (next : ℕ) (e : String) (r : Row)
    → IsSound r
    → IsSound (fail_row (fail_state r.attempts) next e r)
unfolding fail_row fail_state
fail_row-IsSound next e r h = ground arith

pub defer_row-IsSound :
    (now n : ℕ) (y : String) (r : Row) → IsSound r → IsSound (defer_row now y n r)
unfolding defer_row
defer_row-IsSound now n y r h = ground arith

pub skip_row-IsSound : (now : ℕ) (y : String) (r : Row) → IsSound r → IsSound (skip_row now y r)
unfolding skip_row
skip_row-IsSound now y r h = ground arith

pub requeue_row-IsSound : (r : Row) → IsSound r → IsSound (requeue_row r)
unfolding requeue_row
requeue_row-IsSound r h = ground arith

pub reset_row-IsSound : (r : Row) → IsSound r → IsSound (reset_row r)
unfolding reset_row
reset_row-IsSound r h = ground arith

pub reclaim_row-IsSound : (r : Row) → IsSound r → IsSound (reclaim_row r)
unfolding reclaim_row
reclaim_row-IsSound r h = ground arith

pub revive_row-IsSound : (r : Row) → r.revivals < max_revivals → IsSound r → IsSound (revive_row r)
unfolding revive_row
revive_row-IsSound r few h = ground arith

pub reconcile_row-IsSound :
    (now : ℕ) (e : Evidence) (r : Row) → IsSound r → IsSound (reconcile_row now e r)
unfolding reconcile_row
reconcile_row-IsSound now e r h = ground arith

pub fresh-IsSound : (i : ℕ) (k c : String) → IsSound (fresh i k c)
unfolding fresh
fresh-IsSound i k c = ground arith
