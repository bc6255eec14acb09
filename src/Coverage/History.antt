-- ===== src/Coverage/History.antt =====
-- Sequences of calls on `Coverage` objects of vios/process/coverage.py, by any workers.
use vios_manus.Common.{
  ℕ, ◌≡◌, ◌<◌, refl, String, Option, none, some, map, List, [], ◌∷◌, arith, select, true,
}
use vios_manus.Sql.{update}
use vios_manus.Coverage.{State, Row, Conn, Worker, at, max_revivals}
use vios_manus.Coverage.Claim
use vios_manus.Coverage.Claim.{lease}
use vios_manus.Coverage.Finish
use vios_manus.Coverage.Finish.{
  renew_row, release_row, done_row, attempts_at, fail_state, fail_next_try, fail_row, defer_row,
  skip_row,
}
use vios_manus.Coverage.Operate
use vios_manus.Coverage.Operate.{requeue_row, reset_row, reclaim_row, revive_row, revivable, pairs}
use vios_manus.Coverage.Reconcile
use vios_manus.Coverage.Reconcile.{
  Evidence, reconcile_row, reconcile_all, reconcile_named, to_reconcile, is_named,
}
use vios_manus.Coverage.Sound.{
  lease-IsSound, renew_row-IsSound, release_row-IsSound, done_row-IsSound, fail_row-IsSound,
  defer_row-IsSound, skip_row-IsSound, requeue_row-IsSound, reset_row-IsSound, reclaim_row-IsSound,
  revive_row-IsSound, reconcile_row-IsSound,
}
use vios_manus.Coverage.Table.{
  IsSoundTable, KeepsKey, update-IsSoundTable, attempts_at_row, select-IsSoundTable,
  insert_all-IsSoundTable,
}

-- A call with its arguments. The last number of a call is the moment at which it is made.
pub data Call : Type 0 where
  claim : Worker → String → ℕ → ℕ → String → Call
  claim_for : Worker → String → List String → ℕ → String → Call
  renew : Worker → String → String → String → ℕ → Call
  release : String → String → Call
  finish : String → String → ℕ → ℕ → ℕ → String → ℕ → Call
  reconcile : ℕ → List Evidence → Call
  fail : String → String → String → ℕ → Call
  defer : String → String → String → ℕ → ℕ → Call
  skip : String → String → String → ℕ → Call
  plan : List String → Option (List String) → Call
  requeue : String → State → Call
  reset_component : String → Call
  drop_component : String → Call
  reclaim_stale : ℕ → Call
  revive_failed : Worker → ℕ → Call

unfoldable pub perform : Call → Conn → Conn
perform (claim w component n now token) c = (Claim.claim w component n now token c).0
perform (claim_for w key components now token) c = (Claim.claim_for w key components now token c).0
perform (renew w key component checkpoint now) c = Finish.renew w key component checkpoint now c
perform (release key component) c = Finish.release key component c
perform (finish key component s n v o now) c = Finish.finish key component s n v o now c
perform (reconcile now evidence) c = (Reconcile.reconcile now evidence c).0
perform (fail key component error now) c = (Finish.fail key component error now c).0
perform (defer key component why after now) c = Finish.defer key component why after now c
perform (skip key component why now) c = Finish.skip key component why now c
perform (plan components keys) c = (Operate.plan components keys c).0
perform (requeue component state) c = (Operate.requeue component state c).0
perform (reset_component component) c = (Operate.reset_component component c).0
perform (drop_component component) c = (Operate.drop_component component c).0
perform (reclaim_stale now) c = (Operate.reclaim_stale now c).0
perform (revive_failed w now) c = (Operate.revive_failed w now c).0

unfoldable pub run : List Call → Conn → Conn
run [] c = c
run (x ∷ xs) c = run xs (perform x c)

lease-KeepsKey : (w : Worker) (now : ℕ) (t : String) → KeepsKey (lease w now t)
unfolding lease
lease-KeepsKey w now t = record {
  same_id = λ r. refl;
  same_key = λ r. refl;
  same_component = λ r. refl;
}

renew_row-KeepsKey : (now : ℕ) (cp : String) → KeepsKey (renew_row now cp)
unfolding renew_row
renew_row-KeepsKey now cp = record {
  same_id = λ r. refl;
  same_key = λ r. refl;
  same_component = λ r. refl;
}

release_row-KeepsKey : KeepsKey release_row
unfolding release_row
release_row-KeepsKey = record {
  same_id = λ r. refl;
  same_key = λ r. refl;
  same_component = λ r. refl;
}

done_row-KeepsKey : (now s n v : ℕ) (o : String) → KeepsKey (done_row now s n v o)
unfolding done_row
done_row-KeepsKey now s n v o = record {
  same_id = λ r. refl;
  same_key = λ r. refl;
  same_component = λ r. refl;
}

fail_row-KeepsKey : (st : State) (n : ℕ) (e : String) → KeepsKey (fail_row st n e)
unfolding fail_row
fail_row-KeepsKey st n e = record {
  same_id = λ r. refl;
  same_key = λ r. refl;
  same_component = λ r. refl;
}

defer_row-KeepsKey : (now : ℕ) (y : String) (n : ℕ) → KeepsKey (defer_row now y n)
unfolding defer_row
defer_row-KeepsKey now y n = record {
  same_id = λ r. refl;
  same_key = λ r. refl;
  same_component = λ r. refl;
}

skip_row-KeepsKey : (now : ℕ) (y : String) → KeepsKey (skip_row now y)
unfolding skip_row
skip_row-KeepsKey now y = record {
  same_id = λ r. refl;
  same_key = λ r. refl;
  same_component = λ r. refl;
}

requeue_row-KeepsKey : KeepsKey requeue_row
unfolding requeue_row
requeue_row-KeepsKey = record {
  same_id = λ r. refl;
  same_key = λ r. refl;
  same_component = λ r. refl;
}

reset_row-KeepsKey : KeepsKey reset_row
unfolding reset_row
reset_row-KeepsKey = record {
  same_id = λ r. refl;
  same_key = λ r. refl;
  same_component = λ r. refl;
}

reclaim_row-KeepsKey : KeepsKey reclaim_row
unfolding reclaim_row
reclaim_row-KeepsKey = record {
  same_id = λ r. refl;
  same_key = λ r. refl;
  same_component = λ r. refl;
}

revive_row-KeepsKey : KeepsKey revive_row
unfolding revive_row
revive_row-KeepsKey = record {
  same_id = λ r. refl;
  same_key = λ r. refl;
  same_component = λ r. refl;
}

reconcile_row-KeepsKey : (now : ℕ) (e : Evidence) → KeepsKey (reconcile_row now e)
unfolding reconcile_row
reconcile_row-KeepsKey now e = record {
  same_id = λ r. refl;
  same_key = λ r. refl;
  same_component = λ r. refl;
}

few :
    (w : Worker) (c : Conn) (now : ℕ) (r : Row)
    → revivable w c now r ≡ true
    → r.revivals < max_revivals
unfolding revivable
few w c now r e = ground arith

reconcile_all-IsSoundTable :
    (now : ℕ) (es : List Evidence) (rows : List Row)
    → IsSoundTable rows
    → IsSoundTable (reconcile_all now es rows).0
unfolding reconcile_all
reconcile_all-IsSoundTable now [] rows h = h
reconcile_all-IsSoundTable now (e ∷ es) rows h =
    reconcile_all-IsSoundTable now es (update (to_reconcile e) (reconcile_row now e) rows) (
      update-IsSoundTable (to_reconcile e) (reconcile_row now e) rows (reconcile_row-KeepsKey now e)
        (λ r _ s _. reconcile_row-IsSound now e r s) h)

reconcile_named-IsSoundTable :
    (now : ℕ) (es : List Evidence) (c : Conn)
    → IsSoundTable c.rows
    → IsSoundTable (reconcile_named now es c).0.rows
unfolding reconcile_named
reconcile_named-IsSoundTable now [] c h = h
reconcile_named-IsSoundTable now (e ∷ es) c h = reconcile_all-IsSoundTable now (e ∷ es) c.rows h

fail-IsSoundTable :
    (key component error : String) (now : ℕ) (c : Conn)
    → IsSoundTable c.rows
    → IsSoundTable (Finish.fail key component error now c).0.rows
unfolding Finish.fail
fail-IsSoundTable key component error now c h =
    let n = attempts_at key component c.rows in
    update-IsSoundTable (at key component) (fail_row (fail_state n) (fail_next_try n now) error)
      c.rows (fail_row-KeepsKey (fail_state n) (fail_next_try n now) error)
      (λ r m s e.
        rw (attempts_at_row key component c.rows m e (h.keyed key component))
          (fail_row-IsSound (fail_next_try r.attempts now) error r s))
      h

-- Every call keeps the invariant of the table.
pub perform-IsSoundTable :
    (x : Call) (c : Conn) → IsSoundTable c.rows → IsSoundTable (perform x c).rows
unfolding perform Claim.claim Claim.claim_for Finish.renew Finish.release Finish.finish Finish.defer
    Finish.skip Reconcile.reconcile Operate.plan Operate.requeue Operate.reset_component
    Operate.drop_component Operate.reclaim_stale Operate.revive_failed
perform-IsSoundTable (claim w k n now t) c h =
    update-IsSoundTable _ (lease w now t) c.rows (lease-KeepsKey w now t)
      (λ r _ s _. lease-IsSound w now t r s) h
perform-IsSoundTable (claim_for w k [] now t) c h = h
perform-IsSoundTable (claim_for w k (x ∷ xs) now t) c h =
    update-IsSoundTable _ (lease w now t) c.rows (lease-KeepsKey w now t)
      (λ r _ s _. lease-IsSound w now t r s) h
perform-IsSoundTable (renew w k m cp now) c h =
    update-IsSoundTable _ (renew_row now cp) c.rows (renew_row-KeepsKey now cp)
      (λ r _ s _. renew_row-IsSound now cp r s) h
perform-IsSoundTable (release k m) c h =
    update-IsSoundTable _ release_row c.rows release_row-KeepsKey
      (λ r _ s _. release_row-IsSound r s) h
perform-IsSoundTable (finish k m s n v o now) c h =
    update-IsSoundTable _ (done_row now s n v o) c.rows (done_row-KeepsKey now s n v o)
      (λ r _ q _. done_row-IsSound now s n v o r q) h
perform-IsSoundTable (reconcile now es) c h =
    reconcile_named-IsSoundTable now (select is_named es) c h
perform-IsSoundTable (fail k m e now) c h = fail-IsSoundTable k m e now c h
perform-IsSoundTable (defer k m y n now) c h =
    update-IsSoundTable _ (defer_row now y n) c.rows (defer_row-KeepsKey now y n)
      (λ r _ s _. defer_row-IsSound now n y r s) h
perform-IsSoundTable (skip k m y now) c h =
    update-IsSoundTable _ (skip_row now y) c.rows (skip_row-KeepsKey now y)
      (λ r _ s _. skip_row-IsSound now y r s) h
perform-IsSoundTable (plan [] keys) c h = h
perform-IsSoundTable (plan (x ∷ xs) none) c h =
    insert_all-IsSoundTable (pairs (map (λ v. v.video_key) c.videos) (x ∷ xs)) c.rows h
perform-IsSoundTable (plan (x ∷ xs) (some ks)) c h =
    insert_all-IsSoundTable (pairs ks (x ∷ xs)) c.rows h
perform-IsSoundTable (requeue m s) c h =
    update-IsSoundTable _ requeue_row c.rows requeue_row-KeepsKey
      (λ r _ q _. requeue_row-IsSound r q) h
perform-IsSoundTable (reset_component m) c h =
    update-IsSoundTable _ reset_row c.rows reset_row-KeepsKey (λ r _ q _. reset_row-IsSound r q) h
perform-IsSoundTable (drop_component m) c h = select-IsSoundTable _ c.rows h
perform-IsSoundTable (reclaim_stale now) c h =
    update-IsSoundTable _ reclaim_row c.rows reclaim_row-KeepsKey
      (λ r _ q _. reclaim_row-IsSound r q) h
perform-IsSoundTable (revive_failed w now) c h =
    update-IsSoundTable (revivable w c now) revive_row c.rows revive_row-KeepsKey
      (λ r _ q e. revive_row-IsSound r (few w c now r e) q) h

-- From a sound table, whatever calls follow one another, the table stays sound.
pub run-IsSoundTable :
    (calls : List Call) (c : Conn) → IsSoundTable c.rows → IsSoundTable (run calls c).rows
unfolding run
run-IsSoundTable [] c h = h
run-IsSoundTable (x ∷ xs) c h = run-IsSoundTable xs (perform x c) (perform-IsSoundTable x c h)
