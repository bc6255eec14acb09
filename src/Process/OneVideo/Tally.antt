-- ===== src/Process/OneVideo/Tally.antt =====
-- The counters of the session in vios/process/engine.py over one pass.

use vios_manus.Common.{
  ℕ, ◌+◌, ◌≡◌, refl, ◌∙◌, not, ◌&&◌, String, List, [], ◌∷◌, Bool-cases, inl, inr, arith,
}
use vios_manus.Coverage.Finish
use vios_manus.Registry.{Component}
use vios_manus.Process.{Engine, Mark}
use vios_manus.Process.Faults.{is_transient}
use vios_manus.Process.Pass.{
  Texts, Run, Outcome, Result, returned, raises, run_pass, beat_all, call_runner, gate, hold,
  settle, accept, skip_for, defer_for, fail_pass, emitted, rejected, skip_pass, defer_pass,
  interrupted, raised,
}

-- The passes that the session has counted, under whichever name.
abbrev pub tally : Engine → ℕ
tally e = let s = e.session in s.passes + s.skipped + s.failed + s.deferred + s.elsewhere

-- The session counts `n` passes and `v` videos more, and nothing else about the engine differs
-- but the table and the list of components for another machine.
pub record IsCounted (n v : ℕ) (e e' : Engine) : Type 0 where
  pub more : tally e' ≡ tally e + n
  pub videos : e'.session.videos ≡ e.session.videos + v
  pub same_limit : e'.video_limit ≡ e.video_limit
  pub same_worker : e'.worker ≡ e.worker

pub counted :
    {n v : ℕ} {e e' : Engine}
    → tally e' ≡ tally e + n
    → e'.session.videos ≡ e.session.videos + v
    → e'.video_limit ≡ e.video_limit
    → e'.worker ≡ e.worker
    → IsCounted n v e e'
counted a b c d = record { more = a; videos = b; same_limit = c; same_worker = d }

pub IsCounted-trans :
    {n v n' v' : ℕ} {e e' e'' : Engine}
    → IsCounted n v e e'
    → IsCounted n' v' e' e''
    → IsCounted (n + n') (v + v') e e''
IsCounted-trans h q =
    counted (omega (arith, h.more, q.more)) (omega (arith, h.videos, q.videos))
      (q.same_limit ∙ h.same_limit) (q.same_worker ∙ h.same_worker)

pub IsCounted-refl : (e : Engine) → IsCounted 0 0 e e
IsCounted-refl e = counted (omega arith) (omega arith) refl refl

-- How many passes a call of `_run_pass` counts.
abbrev pub passes_of : Result → ℕ
passes_of (returned m) = 1
passes_of raises = 0

module _ (key cid : String) where
  settle-IsCounted :
      (now : ℕ) (o : Outcome) (e : Engine)
      → let (e', r) = settle key cid now o e in IsCounted (passes_of r) 0 e e'
  unfolding settle accept skip_for defer_for fail_pass
  settle-IsCounted now (emitted n v obs s) e = counted (omega arith) (omega arith) refl refl
  settle-IsCounted now (rejected why) e = counted (omega arith) (omega arith) refl refl
  settle-IsCounted now (skip_pass why) e = counted (omega arith) (omega arith) refl refl
  settle-IsCounted now (defer_pass why after) e = counted (omega arith) (omega arith) refl refl
  settle-IsCounted now interrupted e = counted (omega arith) (omega arith) refl refl
  settle-IsCounted now (raised name text why) e = elim (Bool-cases (is_transient name text)) [
    | inl yes_t ↦ rw yes_t ((counted (omega arith) (omega arith) refl refl))
    | inr no_t ↦ rw no_t ((counted (omega arith) (omega arith) refl refl))
  ]

  beaten-IsCounted :
      (beats : List (String × ℕ)) (e : Engine) → IsCounted 0 0 e (beat_all key cid beats e)
  unfolding beat_all
  beaten-IsCounted [] e = IsCounted-refl e
  beaten-IsCounted ((progress, t) ∷ beats) e =
      let c = Finish.renew e.worker key cid progress t e.cov in
      let h = beaten-IsCounted beats (record e { cov = c }) in
      counted (omega (arith, h.more)) (omega (arith, h.videos)) h.same_limit h.same_worker

  gate-IsCounted :
      (texts : Texts) (r : Run) (broken waiting away : List String) (e : Engine)
      → let (e', res) = gate texts key cid r broken waiting away e in
        IsCounted (passes_of res) 0 e e'
  unfolding gate call_runner skip_for defer_for
  gate-IsCounted texts r (b ∷ bs) waiting away e = counted (omega arith) (omega arith) refl refl
  gate-IsCounted texts r [] (x ∷ xs) (a ∷ as') e = counted (omega arith) (omega arith) refl refl
  gate-IsCounted texts r [] (x ∷ xs) [] e = counted (omega arith) (omega arith) refl refl
  gate-IsCounted texts r [] [] away e =
      let h = beaten-IsCounted r.beats e in
      let q = settle-IsCounted r.at r.outcome (beat_all key cid r.beats e) in
      counted (omega (arith, h.more, q.more)) (omega (arith, h.videos, q.videos))
        (q.same_limit ∙ h.same_limit) (q.same_worker ∙ h.same_worker)

pub run_pass-IsCounted :
    (texts : Texts) (key : String) (comp : Component) (states : List (String × Mark)) (r : Run)
    (e : Engine)
    → let (e', res) = run_pass texts key comp states r e in IsCounted (passes_of res) 0 e e'
unfolding run_pass hold
run_pass-IsCounted texts key comp states r e =
    elim (Bool-cases (not comp.kaggle_ok && e.on_kaggle)) [
      | inl here ↦ rw here (counted (omega arith) (omega arith) refl refl)
      | inr there ↦ rw there (gate-IsCounted key comp.id texts r _ _ _ e)
    ]
