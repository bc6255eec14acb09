-- ===== src/Coverage.antt =====
-- vios/process/coverage.py: the table of (video, component) work, its columns, the constants of
-- the retry policy, and the object through which one worker sees the table. The operations stand
-- in the child modules. A moment is a whole number of milliseconds; `time.time()`, `uuid4().hex`
-- and the worker's default name are arguments of the operations that read them.
pub mod Claim
pub mod Finish
pub mod Operate
pub mod Read
pub mod Reconcile
pub mod Sound
pub mod Table
pub mod History
pub mod Exclusive
pub mod Leases
pub mod Slices
pub mod Retry
pub mod Planning
pub mod Evidence
pub mod Reports
pub mod Errors
mod Tests
use vios_manus.Common.{
  ℕ, suc, ◌+◌, ◌*◌, ◌%◌, Bool, true, false, ◌&&◌, ◌||◌, not, Option, none, some, String, str_eq,
  List, [], ◌∷◌, any, leb, ltb, ◌==◌, if◌then◌else◌,
}

-- QUEUED, RUNNING, DONE, FAILED, SKIPPED
pub data State : Type 0 where
  queued running done failed skipped : State

-- `state = ?`
abbrev pub is : State → State → Bool
is queued queued = true
is running running = true
is done done = true
is failed failed = true
is skipped skipped = true
is _ _ = false

-- one second, in the model's unit of time
abbrev pub second : ℕ
second = 1000

abbrev pub lease_seconds : ℕ
lease_seconds = 40 * 60 * second

abbrev pub max_attempts : ℕ
max_attempts = 3

-- RETRY_BACKOFF
abbrev pub retry_backoff : List ℕ
retry_backoff = (10 * 60 * second) ∷ (45 * 60 * second) ∷ []

abbrev pub revive_after : ℕ
revive_after = 4 * 3600 * second

abbrev pub max_revivals : ℕ
max_revivals = 6

-- A row of the table `coverage`. A column that can be NULL is an option.
pub record Row : Type 0 where
  pub rowid : ℕ
  pub video_key : String
  pub component : String
  pub state : State
  pub attempts : ℕ
  pub worker : Option String
  pub token : Option String
  pub lease_until : ℕ
  pub next_try_at : ℕ
  pub revivals : ℕ
  pub started_at : Option ℕ
  pub done_at : Option ℕ
  pub seconds : Option ℕ
  pub claims : Option ℕ
  pub vectors : Option ℕ
  pub observer_id : Option String
  pub last_error : Option String
  pub checkpoint : Option String

-- What the coverage queries read of a row of the store's table `video`.
pub record Video : Type 0 where
  pub video_key : String
  pub partition : ℕ

-- The connection: the one file that holds both tables.
pub record Conn : Type 0 where
  pub videos : List Video
  pub rows : List Row

-- The fields of a `Coverage` object besides its connection.
pub record Worker : Type 0 where
  pub partitions : ℕ
  pub index : ℕ
  pub name : String

-- `Coverage.__init__`: the slice is checked, and the worker is named. `none` is the ValueError.
unfoldable pub open_coverage : ℕ → ℕ → String → String → Option Worker
open_coverage partitions index worker default_id =
    if ltb partitions 1 || not (ltb index partitions)
    then none
    else some (record {
      partitions = partitions;
      index = index;
      name = if str_eq worker "" then default_id else worker;
    })

-- `video_key IN (SELECT video_key FROM video WHERE partition % n = i)`
unfoldable pub in_slice : Worker → List Video → String → Bool
in_slice w videos key =
    any (λ v. str_eq v.video_key key && v.partition % w.partitions == w.index) videos

-- `_mine`: no restriction with one partition
unfoldable pub mine : Worker → List Video → Row → Bool
mine w videos r = if leb w.partitions 1 then true else in_slice w videos r.video_key

-- The three ways for a row to be claimable, which `claim`, `claim_for`, `candidates` and
-- `pending` share.
unfoldable pub claimable : ℕ → Row → Bool
claimable now r =
    is queued r.state && leb r.next_try_at now
    || (is running r.state && ltb r.lease_until now
        || (is failed r.state && ltb r.attempts max_attempts && leb r.next_try_at now))

-- the row of one (video, component) pair
unfoldable pub at : String → String → Row → Bool
at key component r = str_eq r.video_key key && str_eq r.component component
