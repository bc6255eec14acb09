-- ===== src/Process/OneVideo/Claimed.antt =====
-- The calls on the coverage table that a pass and a video of vios/process/engine.py come down to.

use vios_manus.Common.{
  ℕ, ◌≡◌, refl, ap, ◌∙◌, String, List, [], ◌∷◌, Bool-cases, not, ◌&&◌, inl, inr,
}
use vios_manus.Coverage.{Conn, Worker}
use vios_manus.Coverage.Finish
use vios_manus.Coverage.History
use vios_manus.Coverage.History.{Call, perform, run}
use vios_manus.Registry.{Component}
use vios_manus.Process.{Engine, Mark}
use vios_manus.Process.Faults.{is_transient}
use vios_manus.Process.Pass.{
  Texts, Run, Outcome, run_pass, beat_all, call_runner, gate, hold, settle, accept, skip_for,
  defer_for, fail_pass, emitted, rejected, skip_pass, defer_pass, interrupted, raised,
}

-- A call that ends the work on one pass.
pub data Settles (key cid : String) : Call → Type 0 where
  releasing : Settles key cid (History.release key cid)
  finishing :
      (s n v : ℕ) (o : String) (now : ℕ) → Settles key cid (History.finish key cid s n v o now)
  failing : (why : String) (now : ℕ) → Settles key cid (History.fail key cid why now)
  deferring : (why : String) (after now : ℕ) → Settles key cid (History.defer key cid why after now)
  skipping : (why : String) (now : ℕ) → Settles key cid (History.skip key cid why now)

-- The calls of one pass: the heartbeats of its runner, and the call that ends it.
pub data IsPass (w : Worker) (key cid : String) : List Call → Type 0 where
  last_call : (x : Call) → Settles key cid x → IsPass w key cid (x ∷ [])
  beating :
      (progress : String) (now : ℕ) (xs : List Call)
      → IsPass w key cid xs
      → IsPass w key cid (History.renew w key cid progress now ∷ xs)

-- A table that one pass has led to.
abbrev pub SettledBy : Worker → String → String → Conn → Conn → Type 0
SettledBy w key cid c c' = (xs : List Call) × IsPass w key cid xs × (c' ≡ run xs c)

module _ (w : Worker) (key cid : String) where
  pub settled_once : (x : Call) (c : Conn) → Settles key cid x → SettledBy w key cid c (perform x c)
  unfolding run
  settled_once x c s = (x ∷ [], last_call x s, refl)

  released : (c : Conn) → SettledBy w key cid c (Finish.release key cid c)
  unfolding perform
  released c = settled_once _ c releasing

  failed_call :
      (why : String) (now : ℕ) (c : Conn) → SettledBy w key cid c (Finish.fail key cid why now c).0
  unfolding perform
  failed_call why now c = settled_once _ c (failing why now)

  deferred_call :
      (why : String) (after now : ℕ) (c : Conn)
      → SettledBy w key cid c (Finish.defer key cid why after now c)
  unfolding perform
  deferred_call why after now c = settled_once _ c (deferring why after now)

  skipped_call :
      (why : String) (now : ℕ) (c : Conn) → SettledBy w key cid c (Finish.skip key cid why now c)
  unfolding perform
  skipped_call why now c = settled_once _ c (skipping why now)

  -- A pass that reaches its runner settles its row, whatever comes of it.
  settle-SettledBy :
      (now : ℕ) (o : Outcome) (e : Engine)
      → SettledBy w key cid e.cov (settle key cid now o e).0.cov
  unfolding settle accept skip_for defer_for fail_pass perform
  settle-SettledBy now (emitted n v obs s) e = settled_once _ e.cov (finishing s n v obs now)
  settle-SettledBy now (rejected why) e = failed_call why now e.cov
  settle-SettledBy now (skip_pass why) e = skipped_call why now e.cov
  settle-SettledBy now (defer_pass why after) e = deferred_call why _ now e.cov
  settle-SettledBy now interrupted e = released e.cov
  settle-SettledBy now (raised name text why) e = elim (Bool-cases (is_transient name text)) [
    | inl yes_t ↦ rw yes_t (deferred_call why _ now e.cov)
    | inr no_t ↦ rw no_t (failed_call why now e.cov)
  ]

  -- With the heartbeats before it.
  beaten :
      (now : ℕ) (o : Outcome) (beats : List (String × ℕ)) (e : Engine)
      → e.worker ≡ w
      → SettledBy w key cid e.cov (settle key cid now o (beat_all key cid beats e)).0.cov
  unfolding beat_all run perform
  beaten now o [] e same = settle-SettledBy now o e
  beaten now o ((progress, t) ∷ beats) e same =
      let c = Finish.renew e.worker key cid progress t e.cov in
      let (xs, passes, ends) = beaten now o beats (record e { cov = c }) same in
      (
        History.renew w key cid progress t ∷ xs,
        beating progress t xs passes,
        ends ∙ ap (λ v. run xs (Finish.renew v key cid progress t e.cov)) same,
      )

module _ (key cid : String) where
  gate-SettledBy :
      (texts : Texts) (r : Run) (broken waiting away : List String) (e : Engine)
      → SettledBy e.worker key cid e.cov (gate texts key cid r broken waiting away e).0.cov
  unfolding gate call_runner skip_for defer_for
  gate-SettledBy texts r (b ∷ bs) waiting away e = skipped_call e.worker key cid _ r.at e.cov
  gate-SettledBy texts r [] (x ∷ xs) (a ∷ as') e = deferred_call e.worker key cid _ _ r.at e.cov
  gate-SettledBy texts r [] (x ∷ xs) [] e = deferred_call e.worker key cid _ _ r.at e.cov
  gate-SettledBy texts r [] [] away e = beaten e.worker key cid r.at r.outcome r.beats e refl

-- On every branch a pass settles its own row by one call, after the heartbeats of its runner.
pub run_pass-SettledBy :
    (texts : Texts) (key : String) (comp : Component) (states : List (String × Mark)) (r : Run)
    (e : Engine)
    → SettledBy e.worker key comp.id e.cov (run_pass texts key comp states r e).0.cov
unfolding run_pass hold
run_pass-SettledBy texts key comp states r e =
    elim (Bool-cases (not comp.kaggle_ok && e.on_kaggle)) [
      | inl here ↦ rw here (deferred_call e.worker key comp.id _ _ r.at e.cov)
      | inr there ↦ rw there (gate-SettledBy key comp.id texts r _ _ _ e)
    ]
