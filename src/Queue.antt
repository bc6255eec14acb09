-- ===== src/Queue.antt =====
-- queue_manager.py: the job queues in Redis. Redis and the JSON of an envelope are not the program's
-- own: they stand as records of operations (`Redis`, `Codec`), with what the program relies on of
-- them as laws (`IsRedis`, `IsCodec`).
pub mod Jobs
pub mod Recover
pub mod Keys
pub mod Held
pub mod Moves
pub mod Kept
pub mod Orphans
pub mod Emptied
pub mod Fifo
pub mod Memory
mod Tests
use Prim.Native.String.{◌++◌}
use vios_manus.Common.{
  ℕ, ◌≡◌, Bool, true, false, Option, none, some, String, str_eq, List, [], ◌∷◌, if◌then◌else◌,
}
use vios_manus.Registry.Lookup.{has}

-- A connection. `list` reads a list from its head, where LPUSH puts and LRANGE 0 begins; a key
-- without a list reads as the empty one. `lrem` is LREM with the count 1.
pub record Redis : Type 1 where
  pub State : Type 0
  pub list : State → String → List String
  pub lpush : String → String → State → State
  pub rpop : String → State → State × Option String
  pub rpoplpush : String → String → State → State × Option String
  pub lrem : String → String → State → State
  pub hset : String → List (String × String) → State → State
  pub hincrby : String → String → ℕ → State → State
  pub expire : String → ℕ → State → State
  pub delete : String → State → State

-- A list without its last entry, that entry, and a list without the first entry of a text.
abbrev pub last : List String → Option String
last [] = none
last (x ∷ []) = some x
last (x ∷ y ∷ ys) = last (y ∷ ys)

abbrev pub but_last : List String → List String
but_last [] = []
but_last (x ∷ []) = []
but_last (x ∷ y ∷ ys) = x ∷ but_last (y ∷ ys)

abbrev pub remove_one : String → List String → List String
remove_one t [] = []
remove_one t (x ∷ xs) = let rest = remove_one t xs in if str_eq x t then xs else x ∷ rest

-- What Redis documents of these commands on lists.
pub record IsRedis (R : Redis) : Type 0 where
  pub list-lpush :
      (s : R.State) (k x j : String)
      → R.list (R.lpush k x s) j ≡ (if str_eq j k then x ∷ R.list s k else R.list s j)
  pub rpop_last : (s : R.State) (k : String) → (R.rpop k s).1 ≡ last (R.list s k)
  pub list-rpop :
      (s : R.State) (k j : String)
      → R.list (R.rpop k s).0 j ≡ (if str_eq j k then but_last (R.list s k) else R.list s j)
  pub rpoplpush_last : (s : R.State) (k d : String) → (R.rpoplpush k d s).1 ≡ last (R.list s k)
  pub list-rpoplpush :
      (s : R.State) (k d j : String)
      → R.list (R.rpoplpush k d s).0 j ≡ elim (last (R.list s k)) [
        | none ↦ R.list s j
        | some x ↦ R.list (R.lpush d x (R.rpop k s).0) j
      ]
  pub list-lrem :
      (s : R.State) (k t j : String)
      → R.list (R.lrem k t s) j ≡ (if str_eq j k then remove_one t (R.list s k) else R.list s j)
  pub list-hset :
      (s : R.State) (k : String) (fs : List (String × String)) (j : String)
      → R.list (R.hset k fs s) j ≡ R.list s j
  pub list-hincrby :
      (s : R.State) (k f : String) (n : ℕ) (j : String) → R.list (R.hincrby k f n s) j ≡ R.list s j
  pub list-expire :
      (s : R.State) (k : String) (n : ℕ) (j : String) → R.list (R.expire k n s) j ≡ R.list s j
  pub list-delete :
      (s : R.State) (k j : String) → str_eq j k ≡ false → R.list (R.delete k s) j ≡ R.list s j

-- The envelope of a job. A key that the dict may lack is an option; a time is in milliseconds.
pub record Job : Type 0 where
  pub id : Option String
  pub payload : String
  pub created_at : ℕ
  pub retries : Option ℕ
  pub recoveries : Option ℕ
  pub status : String
  pub queue : String
  pub last_error : Option String
  pub claimed_at : Option ℕ
  pub lease_owner : Option String
  pub lease_expires_at : Option ℕ
  pub last_failed_at : Option ℕ
  pub died_at : Option ℕ
  pub replayed_at : Option ℕ

-- `json.dumps` and `json.loads` on envelopes, and the decimal form of a number. `none` is the
-- exception.
pub record Codec : Type 0 where
  pub dumps : Job → String
  pub loads : String → Option Job
  pub shown : ℕ → String

-- The id of a text, where it is an envelope.
abbrev pub id_read : Option Job → Option (Option String)
id_read none = none
id_read (some j) = some j.id

-- What the theorems rely on: an envelope that is written can be read, with its id.
abbrev pub IsCodec : Codec → Type 0
IsCodec J = (j : Job) → id_read (J.loads (J.dumps j)) ≡ some j.id

-- MAX_RETRIES, PRIORITY_QUEUES, ALL_QUEUES
abbrev pub max_retries : ℕ
max_retries = 3

abbrev pub priority_queues : List String
priority_queues = "QUEUE_VISION" ∷ "QUEUE_OMNI_VISION" ∷ "QUEUE_OMNI_ORACLE" ∷ []

abbrev pub all_queues : List String
all_queues =
    "QUEUE_VISION" ∷ "QUEUE_ANALYZE" ∷ "QUEUE_MODELS" ∷ "QUEUE_OMNI_VISION" ∷ "QUEUE_OMNI_ORACLE"
    ∷ []

unfoldable pub priority_key : String → String
priority_key q = q ++ "_PRIORITY"

unfoldable pub default_key : String → String
default_key q = q ++ "_DEFAULT"

unfoldable pub processing_key : String → String
processing_key q = q ++ "_PROCESSING"

unfoldable pub dlq_key : String → String
dlq_key q = q ++ "_DLQ"

abbrev pub metrics_key : String
metrics_key = "VIOS_METRICS"

unfoldable pub job_state_key : String → String
job_state_key id = "VIOS_JOB_STATE:" ++ id

-- `_lanes`: the priority lane of a queue that has one, and its default lane.
unfoldable pub priority_lane : String → Option String
unfolding priority_key has
priority_lane q = if has q priority_queues then some (priority_key q) else none

unfoldable pub default_lane : String → String
unfolding default_key has
default_lane q = if has q priority_queues then default_key q else q

-- The lists of a queue.
unfoldable pub keys_of : String → List String
unfolding processing_key dlq_key default_lane priority_lane
keys_of q =
    processing_key q
    ∷ dlq_key q
    ∷ default_lane q
    ∷ elim (priority_lane q) [ some k ↦ k ∷ [] | none ↦ [] ]
