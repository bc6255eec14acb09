-- ===== src/Process.antt =====
-- vios/process/engine.py: the loop that runs passes over videos, above the coverage table and the
-- registry. One pass (`_run_pass`) stands in the child `Pass`, one video (`_process_video`) in
-- `OneVideo`, one cohort (`_run_cohort`) in `CohortRun`, the calls of the operator in `Control`.
pub mod Faults
pub mod Pass
pub mod OneVideo
pub mod CohortRun
pub mod Control
pub mod Gate
mod Tests
use vios_manus.Common.{ℕ, ◌*◌, Bool, true, false, String, str_eq, List, [], ◌∷◌, if◌then◌else◌}
use vios_manus.Coverage.{second, State, failed, skipped, Row, Conn, Worker}

-- ELSEWHERE_SECONDS
abbrev pub elsewhere_seconds : ℕ
elsewhere_seconds = 21600 * second

-- The counters of `session` that the passes write. A time is in milliseconds.
pub record Session : Type 0 where
  pub videos : ℕ
  pub passes : ℕ
  pub claims : ℕ
  pub vectors : ℕ
  pub skipped : ℕ
  pub failed : ℕ
  pub deferred : ℕ
  pub elsewhere : ℕ

-- What the passes read and write of a `ProcessEngine`: the table, the slice, the counters, the
-- components that only another machine can run, and whether this one is Kaggle.
pub record Engine : Type 0 where
  pub cov : Conn
  pub worker : Worker
  pub session : Session
  pub elsewhere : List String
  pub on_kaggle : Bool
  pub video_limit : ℕ

-- A value of the dict `states`: the state of a row, the word "deferred", or None.
pub data Mark : Type 0 where
  of_row : State → Mark
  deferred nothing : Mark

-- `states.get(n)`; an assignment stands in front of the older ones.
abbrev pub get : String → List (String × Mark) → Mark
get n [] = nothing
get n ((j, m) ∷ rest) = if str_eq j n then m else get n rest

-- `states.get(n) in ("failed", "skipped")`
abbrev pub is_broken_mark : Mark → Bool
is_broken_mark (of_row failed) = true
is_broken_mark (of_row skipped) = true
is_broken_mark _ = false

-- `states.get(n) == "deferred"`
abbrev pub is_deferred_mark : Mark → Bool
is_deferred_mark deferred = true
is_deferred_mark _ = false
