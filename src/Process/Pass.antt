-- ===== src/Process/Pass.antt =====
-- One pass over one video in vios/process/engine.py: `_run_pass`. What the runner and the store
-- answer, the readings of the clock and the texts that are put together are arguments. The log, the
-- counters of the display, the resident models and the parameters of the job are left out.
use vios_manus.Common.{
  ℕ, ◌+◌, ◌*◌, Bool, ◌&&◌, not, min, max, String, List, [], ◌∷◌, select, if◌then◌else◌,
}
use vios_manus.Coverage.{done, skipped, second}
use vios_manus.Coverage.Finish
use vios_manus.Registry.{Component}
use vios_manus.Registry.Lookup.{has}
use vios_manus.Process.{
  Engine, Mark, of_row, deferred, nothing, get, is_broken_mark, is_deferred_mark, elsewhere_seconds,
}
use vios_manus.Process.Faults.{is_oom, is_transient}

-- What comes of `_ensure_inputs`, the runner and the store: the claims, the vectors and the
-- observer of an emission that the store takes, with the duration; or one of the exceptions. A
-- `raised` exception has the name of its type, its text and the reason that is recorded.
pub data Outcome : Type 0 where
  emitted : ℕ → ℕ → String → ℕ → Outcome
  rejected : String → Outcome
  skip_pass : String → Outcome
  defer_pass : String → ℕ → Outcome
  interrupted : Outcome
  raised : String → String → String → Outcome

-- The texts that `_run_pass` writes into rows.
pub record Texts : Type 0 where
  pub not_here : String
  pub depends_on : List String → String
  pub waiting_on : List String → String
  pub needs_machine : List String → String

-- One pass as it meets the world: whether a stop is asked for before it, the checkpoints and the
-- moments at which its runner renews the lease, the moment of its write, and its outcome.
pub record Run : Type 0 where
  pub stop : Bool
  pub beats : List (String × ℕ)
  pub at : ℕ
  pub outcome : Outcome

abbrev pub count_deferred : Engine → Engine
count_deferred e = record e { session = record e.session { deferred = e.session.deferred + 1 } }

abbrev pub count_failed : ℕ → Engine → Engine
count_failed n e = record e { session = record e.session { failed = e.session.failed + n } }

abbrev pub count_skipped : Engine → Engine
count_skipped e = record e { session = record e.session { skipped = e.session.skipped + 1 } }

-- `cov.fail` with its counter; the mark is the state that it returns.
unfoldable pub fail_pass : String → String → String → ℕ → Engine → Engine × Mark
fail_pass key cid why now e =
    let (c, state) = Finish.fail key cid why now e.cov in
    (count_failed 1 (record e { cov = c }), of_row state)

unfoldable pub defer_for : String → String → String → ℕ → ℕ → Engine → Engine
defer_for key cid why wait now e =
    count_deferred (record e { cov = Finish.defer key cid why wait now e.cov })

unfoldable pub skip_for : String → String → String → ℕ → Engine → Engine
skip_for key cid why now e = count_skipped (record e { cov = Finish.skip key cid why now e.cov })

-- What `_run_pass` gives back, or that it raises.
pub data Result : Type 0 where
  returned : Mark → Result
  raises : Result

-- The emission: the coverage row is finished and the counters are added to.
unfoldable pub accept : String → String → ℕ → ℕ → String → ℕ → ℕ → Engine → Engine
accept key cid claims vectors observer seconds now e = record e {
  cov = Finish.finish key cid seconds claims vectors observer now e.cov;
  session = record e.session {
    passes = e.session.passes + 1;
    claims = e.session.claims + claims;
    vectors = e.session.vectors + vectors;
  };
}

-- From the runner on. A deferral of the pass waits for half a minute to an hour. `cov.defer`
-- returns None, which is what a transient failure gives back.
unfoldable pub settle : String → String → ℕ → Outcome → Engine → Engine × Result
unfolding accept skip_for defer_for fail_pass is_oom is_transient
settle key cid now (emitted claims vectors observer seconds) e =
    (accept key cid claims vectors observer seconds now e, returned (of_row done))
settle key cid now (rejected why) e =
    ((fail_pass key cid why now e).0, returned (fail_pass key cid why now e).1)
settle key cid now (skip_pass why) e = (skip_for key cid why now e, returned (of_row skipped))
settle key cid now (defer_pass why after) e =
    (defer_for key cid why (max (30 * second) (min after (3600 * second))) now e, returned deferred)
settle key cid now interrupted e = (record e { cov = Finish.release key cid e.cov }, raises)
settle key cid now (raised name text why) e =
    if is_transient name text
    then (
      defer_for key cid why (if is_oom name text then 45 * second else 30 * second) now e,
      returned nothing,
    )
    else ((fail_pass key cid why now e).0, returned (fail_pass key cid why now e).1)

-- `cov.renew(k, c, progress)`, for every heartbeat of the runner.
unfoldable pub beat_all : String → String → List (String × ℕ) → Engine → Engine
beat_all key cid [] e = e
beat_all key cid ((progress, now) ∷ beats) e =
    beat_all key cid beats (record e { cov = Finish.renew e.worker key cid progress now e.cov })

-- The heartbeats of the runner, and what comes of it.
unfoldable pub call_runner : String → String → Run → Engine → Engine × Result
unfolding settle beat_all
call_runner key cid run e = settle key cid run.at run.outcome (beat_all key cid run.beats e)

-- The dependencies that produced nothing, those that wait, those of them that wait for another
-- machine, and the pass.
unfoldable pub gate :
    Texts
    → String
    → String
    → Run
    → List String
    → List String
    → List String
    → Engine
    → Engine × Result
unfolding call_runner defer_for skip_for
gate texts key cid run (b ∷ bs) waiting away e =
    (skip_for key cid (texts.depends_on (b ∷ bs)) run.at e, returned (of_row skipped))
gate texts key cid run [] (x ∷ xs) (a ∷ as') e = (
  defer_for key cid (texts.needs_machine (a ∷ as')) elsewhere_seconds run.at e,
  returned deferred,
)
gate texts key cid run [] (x ∷ xs) [] e =
    (defer_for key cid (texts.waiting_on (x ∷ xs)) (300 * second) run.at e, returned deferred)
gate texts key cid run [] [] away e = call_runner key cid run e

-- A pass that this machine cannot run.
unfoldable pub hold : Texts → String → String → Run → Engine → Engine
hold texts key cid run e = record e {
  cov = Finish.defer key cid texts.not_here elsewhere_seconds run.at e.cov;
  session = record e.session { elsewhere = e.session.elsewhere + 1 };
  elsewhere = cid ∷ e.elsewhere;
}

-- `_run_pass`
unfoldable pub run_pass :
    Texts → String → Component → List (String × Mark) → Run → Engine → Engine × Result
unfolding gate hold has
run_pass texts key comp states run e =
    let broken = select (λ n. is_broken_mark (get n states)) comp.needs in
    let waiting = select (λ n. is_deferred_mark (get n states)) comp.needs in
    let away = select (λ n. has n e.elsewhere) waiting in
    if not comp.kaggle_ok && e.on_kaggle
    then (hold texts key comp.id run e, returned deferred)
    else gate texts key comp.id run broken waiting away e
