-- ===== src/Process/Tests.antt =====
-- The theorems about vios/process/engine.py at a table of two videos and a catalogue of two passes.
use vios_manus.Common.{
  suc, ◌+◌, ◌≤◌, ◌<◌, ◌≡◌, ◌≢◌, refl, true, false, none, some, String, List, [], ◌∷◌, All, count,
  length, is_text, arith, ◌⊎◌, select, sort,
}
use vios_manus.Sql.{update, chosen}
use vios_manus.Coverage.{Row, Conn, failed, queued}
use vios_manus.Coverage.Claim
use vios_manus.Coverage.Finish.{attempts_at}
use vios_manus.Coverage.History
use vios_manus.Coverage.History.{Call, perform, run, run-IsSoundTable}
use vios_manus.Coverage.Operate
use vios_manus.Coverage.Table.{IsSoundTable}
use vios_manus.Registry.{Component, component, gpu}
use vios_manus.Registry.Lookup.{has}
use vios_manus.Registry.Topo.{topo_sort}
use vios_manus.Registry.Topo.Texts.{times}
use vios_manus.Process.{Session, Engine, Mark, of_row, deferred, nothing}
use vios_manus.Process.Faults.{is_transient, is_oom, contains, starts}
use vios_manus.Process.Pass.{
  Texts, Run, emitted, raised, defer_pass, rejected, interrupted, returned, run_pass, call_runner,
  settle,
}
use vios_manus.Process.OneVideo.{Meeting, got, has_video, process_video}
use vios_manus.Process.OneVideo.Settled.{
  IsOneClaim, AllSettled, process_video-run, process_video_settles,
}
use vios_manus.Process.OneVideo.Counted.{VideoCounts, process_video-VideoCounts}
use vios_manus.Process.CohortRun.{Surroundings, Progress, exhausted, run_cohort}
use vios_manus.Process.CohortRun.Once.{run_cohort_once}
use vios_manus.Process.CohortRun.Within.{IsWithin, run_cohort-IsWithin}
use vios_manus.Process.CohortRun.Ends.{run_cohort_ends}
use vios_manus.Process.Control.{
  Control, built, start, pause, stop, crash, close, operate, starting, pausing, halting, idle,
  Reaches, at_first, sweep_over, operated, swept, closed,
}
use vios_manus.Process.Control.Threads.{IsSoundControl, Reaches-IsSoundControl, crash_race}
use vios_manus.Process.Gate.{run_pass_gated, unproduced_need}

abbrev probe : Component
probe = component "probe" "Probe" 0 "structure"

abbrev clip : Component
clip = record (component "clip" "Clip" 2 "vision") { device = gpu; needs = "probe" ∷ [] }

abbrev small : List Component
small = probe ∷ clip ∷ []

abbrev both : List String
both = "clip" ∷ "probe" ∷ []

abbrev reels : Conn
reels = record {
  videos =
      record { video_key = "a"; partition = 3 } ∷ record { video_key = "b"; partition = 4 } ∷ [];
  rows = [];
}

reels-IsSoundTable : IsSoundTable reels.rows
unfolding count
reels-IsSoundTable = record { each = tt; ids = λ i. omega arith; keyed = λ k c. omega arith }

abbrev planned : Conn
planned = run (History.plan both none ∷ []) reels

planned-IsSoundTable : IsSoundTable planned.rows
planned-IsSoundTable = run-IsSoundTable (History.plan both none ∷ []) reels reels-IsSoundTable

planned_new : All (λ r. is_text r.token "t" ≡ false) planned.rows
unfolding run perform Operate.plan
planned_new = (refl, (refl, (refl, (refl, tt))))

abbrev quiet : Session
quiet = record {
  videos = 0;
  passes = 0;
  claims = 0;
  vectors = 0;
  skipped = 0;
  failed = 0;
  deferred = 0;
  elsewhere = 0;
}

abbrev engine : Engine
engine = record {
  cov = planned;
  worker = record { partitions = 1; index = 0; name = "w" };
  session = quiet;
  elsewhere = [];
  on_kaggle = false;
  video_limit = 1;
}

abbrev words : Texts
words = record {
  not_here = "not here";
  depends_on = λ ns. "depends";
  waiting_on = λ ns. "waiting";
  needs_machine = λ ns. "machine";
}

-- Every runner emits.
abbrev one_run : String → Run
one_run cid = record {
  stop = false;
  beats = ("half", 15) ∷ [];
  at = 20;
  outcome = emitted 3 1 "obs" 5;
}

abbrev meeting : Meeting
meeting = record { claimed_at = 10; token = "t"; fetch = got; runs = one_run; tidied = true }

both_run : (process_video small words "a" both meeting engine).1 ≡ some true
unfolding process_video run perform Operate.plan Claim.claim_for topo_sort select sort update chosen
both_run = refl

process_video_settles_example :
    AllSettled small words "a" both meeting engine
      (process_video small words "a" both meeting engine).0.cov.rows
process_video_settles_example =
    process_video_settles small words "a" both meeting engine true both_run planned-IsSoundTable
      planned_new

process_video-run_example :
    (calls : List Call) × ((process_video small words "a" both meeting engine).0.cov
      ≡ run calls planned)
    × (((has_video "a" planned ≡ false) × (calls ≡ []))
        ⊎ ((has_video "a" planned ≡ true)
            × IsOneClaim small "a" both meeting engine
                (process_video small words "a" both meeting engine).1
                calls))
process_video-run_example = process_video-run small words "a" both meeting engine

process_video-VideoCounts_example :
    let (e', res) = process_video small words "a" both meeting engine in
    let (c, given) = Claim.claim_for engine.worker "a" both 10 "t" planned in
    ((has_video "a" planned ≡ false) × (e' ≡ engine) × (res ≡ some false))
    ⊎ ((has_video "a" planned ≡ true) × VideoCounts res got one_run given engine e')
process_video-VideoCounts_example = process_video-VideoCounts "a" small words meeting both engine

-- Nobody stops it, and nobody else writes.
abbrev alone : Surroundings
alone = record {
  stop_before = λ n. false;
  asked_at = λ n. 10;
  others = λ n c. c;
  stop_at = λ k. false;
  meeting = λ k. meeting;
}

abbrev begun : Progress
begun = record { engine = engine; seen = []; worked = 0; visits = [] }

abbrev videos : List String
videos = "a" ∷ "b" ∷ []

all_known : All (λ (r : Row). has r.video_key videos ≡ true) planned.rows
unfolding run perform Operate.plan has
all_known = (refl, (refl, (refl, (refl, tt))))

run_cohort_ends_example :
    (run_cohort small words both alone (suc (length videos)) 0 begun).1 ≢ exhausted
run_cohort_ends_example =
    run_cohort_ends small words both alone videos (λ n c h. h) 0 begun all_known

run_cohort_once_example : times "a" (run_cohort small words both alone 3 0 begun).0.visits ≤ 1
run_cohort_once_example = run_cohort_once small words both alone 3 0 begun refl refl "a"

engine-IsWithin : IsWithin engine
engine-IsWithin = (omega arith, omega arith)

run_cohort-IsWithin_example : IsWithin (run_cohort small words both alone 3 0 begun).0.engine
run_cohort-IsWithin_example = run_cohort-IsWithin small words both alone 3 0 begun engine-IsWithin

-- Started, paused, stopped, and its thread gone.
abbrev halted : Control
halted = close (sweep_over (operate halting (operate pausing (operate (starting true) built))))

halted_reached : Reaches 0 halted
unfolding operate start pause stop sweep_over
halted_reached =
    closed (omega arith) (
      swept (omega arith) (operated halting (operated pausing (operated (starting true) at_first))))

Reaches-IsSoundControl_example : IsSoundControl 0 halted
Reaches-IsSoundControl_example = Reaches-IsSoundControl 0 halted halted_reached

abbrev at_work : Control
at_work = (start true built).0

crash_race_example :
    let (second, again) = start true (crash at_work) in
    let closing_on = close second in
    let (third, once_more) = start true closing_on in
    (again ≡ true)
    × (closing_on.state ≡ idle)
    × (once_more ≡ true)
    × (third.working ≡ at_work.working + 1)
crash_race_example = crash_race at_work (unfold start in omega arith)

-- The need of clip has failed.
abbrev after_failure : List (String × Mark)
after_failure = ("probe", of_row failed) ∷ []

clip_needs : has "probe" clip.needs ≡ true
unfolding has
clip_needs = refl

abbrev plain : Run
plain = one_run "clip"

run_pass_gated_example :
    run_pass words "a" clip after_failure
      (record plain { outcome = interrupted; beats = [] })
      engine
    ≡ run_pass words "a" clip after_failure
        (record plain { outcome = emitted 1 1 "obs" 1; beats = plain.beats })
        engine
run_pass_gated_example =
    run_pass_gated words "a" clip after_failure plain interrupted (emitted 1 1 "obs" 1) []
      plain.beats engine "probe" clip_needs refl

rate_limited : is_transient "HTTPError" "429 Too Many Requests" ≡ true
unfolding is_transient is_oom contains starts
rate_limited = refl

attempts_few : attempts_at "a" "probe" planned.rows < 3
unfolding attempts_at run perform Operate.plan
attempts_few = omega arith

unproduced_need_example :
    let asked = settle "a" "probe" 30 (defer_pass "429" 60) engine in
    let fault = settle "a" "probe" 30 (raised "HTTPError" "429 Too Many Requests" "429") engine in
    let refused = settle "a" "probe" 30 (rejected "429") engine in
    (asked.1 ≡ returned deferred)
    × ((run_pass words "a" clip (("probe", deferred) ∷ []) plain asked.0).1 ≡ returned deferred)
    × (fault.1 ≡ returned nothing)
    × (run_pass words "a" clip (("probe", nothing) ∷ []) plain fault.0
        ≡ call_runner "a" "clip" plain fault.0)
    × (refused.1 ≡ returned (of_row queued))
    × (run_pass words "a" clip (("probe", of_row queued) ∷ []) plain refused.0
        ≡ call_runner "a" "clip" plain refused.0)
unproduced_need_example =
    unproduced_need words "a" clip "probe" refl refl [] 30 "429" "HTTPError" "429 Too Many Requests"
      60 plain engine rate_limited attempts_few
