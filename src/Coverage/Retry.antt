-- ===== src/Coverage/Retry.antt =====
-- The retry policy of vios/process/coverage.py, from a claim to its end.
use vios_manus.Common.{
  ℕ, zero, suc, ◌+◌, ◌*◌, ◌≤◌, ◌≡◌, ◌≢◌, refl, true, false, Bool, none, ◌&&◌, String, arith, All,
  leb, if◌then◌else◌,
}
use vios_manus.Sql.{update-All_to}
use vios_manus.Coverage.{
  queued, running, done, failed, skipped, is, Row, Conn, Worker, second, claimable, mine,
  max_attempts,
}
use vios_manus.Coverage.Claim.{lease}
use vios_manus.Coverage.Finish.{release_row, defer_row, fail_row, fail_state, fail_next_try}
use vios_manus.Coverage.Operate.{revive_row, revivable, exhausted, revive_failed}
use vios_manus.Coverage.Read.{waiting}
use vios_manus.Coverage.Sound.{IsSound, revive_row-IsSound}

-- A row that is claimed and then fails, as `fail` writes it.
abbrev pub failing : Worker → ℕ → String → ℕ → String → Row → Row
failing w claimed token now error r =
    let taken = lease w claimed token r in
    fail_row (fail_state taken.attempts) (fail_next_try taken.attempts now) error taken

-- A claim that is given back by `release` costs the row no attempt.
release-lease :
    (w : Worker) (now : ℕ) (token : String) (r : Row)
    → let r' = release_row (lease w now token r) in
      (r'.attempts ≡ r.attempts)
      × (r'.state ≡ queued)
      × (r'.token ≡ none)
      × (r'.next_try_at ≡ r.next_try_at)
unfolding release_row lease
release-lease w now token r = (omega arith, refl, refl, refl)

-- `n` rounds of a claim that ends in `defer`.
pub deferrals : ℕ → Worker → String → String → ℕ → ℕ → Row → Row
deferrals zero w token why after now r = r
deferrals (suc n) w token why after now r =
    deferrals n w token why after now (defer_row now why after (lease w now token r))

attempts-deferrals :
    (n : ℕ) (w : Worker) (token why : String) (after now : ℕ) (r : Row)
    → (deferrals n w token why after now r).attempts ≡ r.attempts + n
unfolding deferrals lease defer_row
attempts-deferrals zero w token why after now r = omega arith
attempts-deferrals (suc n) w token why after now r = omega (
  arith,
  attempts-deferrals n w token why after now (defer_row now why after (lease w now token r)),
)

-- Deferrals do spend attempts: each claim that ends in `defer` leaves its attempt counted, so that
-- after two of them the first failure retires the row.
pub deferrals_then_failure :
    (n : ℕ) (w : Worker) (token why error : String) (after now : ℕ) (r : Row)
    → max_attempts ≤ n + 1
    → (failing w now token now error (deferrals n w token why after now r)).state ≡ failed
unfolding fail_row fail_state lease
deferrals_then_failure n w token why error after now r h =
    ground (arith, attempts-deferrals n w token why after now r)

-- A row with no attempts behind it that is claimed and fails three times: after the first failure
-- it waits ten minutes, after the second forty-five, and after the third it is failed and waits
-- four hours for its revival.
three_failures :
    (w : Worker) (t1 t2 t3 e1 e2 e3 : String) (c1 f1 c2 f2 c3 f3 : ℕ) (r : Row)
    → r.attempts ≡ 0
    → let first = failing w c1 t1 f1 e1 r in
      let second_time = failing w c2 t2 f2 e2 first in
      let third = failing w c3 t3 f3 e3 second_time in
      (first.state ≡ queued)
      × (first.next_try_at ≡ f1 + 600 * second)
      × (second_time.state ≡ queued)
      × (second_time.next_try_at ≡ f2 + 2700 * second)
      × (third.state ≡ failed)
      × (third.next_try_at ≡ f3 + 14400 * second)
unfolding fail_row fail_state fail_next_try lease
three_failures w t1 t2 t3 e1 e2 e3 c1 f1 c2 f2 c3 f3 r h = ground arith

-- Of a row that is not finished: a claim takes it now, a clock holds it back, a worker holds it, or
-- it has spent every revival.
abbrev one_if : Bool → ℕ
one_if b = if b then 1 else 0

abbrev pub standing : Worker → Conn → ℕ → Row → ℕ
standing w c now r =
    one_if (claimable now r)
    + one_if (waiting w c now r)
    + one_if (is running r.state && leb now r.lease_until)
    + one_if (exhausted w c r)

abbrev pub IsUnfinished : Row → Type 0
IsUnfinished r = (r.state ≢ done) × (r.state ≢ skipped)

standing_one :
    (w : Worker) (c : Conn) (now : ℕ) (r : Row)
    → IsSound r
    → revivable w c now r ≡ false
    → IsUnfinished r
    → mine w c.videos r ≡ true
    → standing w c now r ≡ 1
unfolding claimable waiting exhausted revivable
standing_one w c now r h settled open_row seen = ground arith

-- Once `revive_failed` has run on rows that are sound, every unfinished row of the worker's slice stands in exactly one
-- place: claimable now, waiting as `deferred` counts it, under a live lease, or exhausted.
pub revive_failed-standing :
    (w : Worker) (now : ℕ) (c : Conn)
    → All IsSound c.rows
    → let c' = (revive_failed w now c).0 in
      All (λ r. IsUnfinished r → mine w c.videos r ≡ true → standing w c' now r ≡ 1) c'.rows
unfolding revive_failed waiting
revive_failed-standing w now c h =
    update-All_to IsSound
      (λ r.
        IsUnfinished r → mine w c.videos r ≡ true → standing w (revive_failed w now c).0 now r ≡ 1)
      (revivable w c now) revive_row c.rows
      (λ r _ s e.
        standing_one w (revive_failed w now c).0 now (revive_row r)
          (revive_row-IsSound r (ground arith) s) refl)
      (λ r s e. standing_one w (revive_failed w now c).0 now r s e) h
