-- ===== src/Process/OneVideo/Ended.antt =====
-- The rows that a video of vios/process/engine.py has settled: they are not running any more.

use mathlib.Core.List.{flatten}
use vios_manus.Common.{◌≡◌, ◌≢◌, Bool, true, String, List, [], ◌∷◌, All, All-imp, arith, eq_iff}
use vios_manus.Sql.{update, update-All, update-All_to}
use vios_manus.Coverage.{running, Row, Conn, Worker, at}
use vios_manus.Coverage.Finish
use vios_manus.Coverage.Finish.{
  renew_row, release_row, done_row, fail_row, defer_row, skip_row, attempts_at, fail_state,
  fail_next_try,
}
use vios_manus.Coverage.History.{Call, perform, run}
use vios_manus.Registry.Lookup.{has}
use vios_manus.Process.OneVideo.Claimed.{
  Settles, releasing, finishing, failing, deferring, skipping, IsPass, last_call, beating,
}
use vios_manus.Process.OneVideo.Calls.{SettlesAll, run-append}

-- A row of the video that is among these components is not running.
abbrev pub Ended : String → List String → Row → Type 0
Ended key cids r = r.video_key ≡ key → has r.component cids ≡ true → r.state ≢ running

module _ (key : String) where
  ended :
      (cid : String) (before : List String) (p : Row → Bool) (f : Row → Row) (rows : List Row)
      → ((r : Row) → (f r).state ≢ running)
      → ((r : Row) → at key cid r ≡ true → r.state ≡ running → p r ≡ true)
      → All (Ended key before) rows
      → All (Ended key (cid ∷ before)) (update p f rows)
  unfolding has at
  ended cid before p f rows sets hits h =
      update-All_to (Ended key before) (Ended key (cid ∷ before)) p f rows
        (λ r _ _ _ _ t e. sets r e)
        (λ r held out k t s. ground (
          arith,
          k,
          t,
          s,
          out,
          held k,
          hits r,
          eq_iff r.video_key key,
          eq_iff r.component cid,
          eq_iff cid r.component,
        ))
        h

  settles-Ended :
      (cid : String) (before : List String) (x : Call) (c : Conn)
      → Settles key cid x
      → All (Ended key before) c.rows
      → All (Ended key (cid ∷ before)) (perform x c).rows
  unfolding perform Finish.release Finish.finish Finish.fail Finish.defer Finish.skip
  settles-Ended cid before x c releasing h =
      ended cid before _ release_row c.rows (unfold release_row in λ r e. cc)
        (λ r a e. ground (arith, a, e)) h
  settles-Ended cid before x c (finishing s n v o now) h =
      ended cid before (at key cid) (done_row now s n v o) c.rows (unfold done_row in λ r e. cc)
        (λ r a _. a) h
  settles-Ended cid before x c (failing why now) h =
      ended cid before (at key cid) _ c.rows
        (unfold fail_row fail_state in λ r e. ground (arith, e)) (λ r a _. a) h
  settles-Ended cid before x c (deferring why after now) h =
      ended cid before (at key cid) (defer_row now why after) c.rows (unfold defer_row in λ r e. cc)
        (λ r a _. a) h
  settles-Ended cid before x c (skipping why now) h =
      ended cid before (at key cid) (skip_row now why) c.rows (unfold skip_row in λ r e. cc)
        (λ r a _. a) h

  pass-Ended :
      (w : Worker) (cid : String) (before : List String) (xs : List Call) (c : Conn)
      → IsPass w key cid xs
      → All (Ended key before) c.rows
      → All (Ended key (cid ∷ before)) (run xs c).rows
  unfolding run perform Finish.renew renew_row
  pass-Ended w cid before _ c (last_call x s) h = settles-Ended cid before x c s h
  pass-Ended w cid before _ c (beating progress now xs p) h =
      pass-Ended w cid before xs _ p
        (update-All (Ended key before) _ (renew_row now progress) (λ r k _. k) c.rows h)

  -- After the calls of these passes none of them is running.
  pub SettlesAll-Ended :
      (w : Worker) (out before : List String) (passes : List (List Call)) (c : Conn)
      → SettlesAll w key true out passes
      → All (Ended key before) c.rows
      → All
          (λ r.
            r.video_key ≡ key
            → (has r.component out ≡ true → r.state ≢ running)
              × (has r.component before ≡ true → r.state ≢ running))
          (run (flatten passes) c).rows
  unfolding run flatten has
  SettlesAll-Ended w [] before [] c s h = All-imp _ _ (λ r held k. ((λ t. cc), held k)) c.rows h
  SettlesAll-Ended w [] before (x ∷ xs) c s h = elim s [ ]
  SettlesAll-Ended w (cid ∷ rest) before [] c s h = elim s [ ]
  SettlesAll-Ended w (cid ∷ rest) before (x ∷ xs) c (s, ss) h = rw (run-append x (flatten xs) c) (
      All-imp _ _
        (λ r held k.
          let (a, b) = held k in
          ((λ t e. ground (arith, a, b, t, e)), (λ t e. ground (arith, b, t, e))))
        (run (flatten xs) (run x c)).rows
        (SettlesAll-Ended w rest (cid ∷ before) xs (run x c) ss (pass-Ended w cid before x c s h)))
