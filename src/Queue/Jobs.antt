-- ===== src/Queue/Jobs.antt =====
-- The operations of queue_manager.py on a job: `push_job`, `claim_job`, `ack_job` and `fail_job`. The
-- commands of a
-- pipeline run one after the other. The moments, the ids and the owner are arguments; of a moment
-- that a metric or a state carries, the text is left to `shown`. The prints are left out.
use Prim.Native.String.{◌++◌}
use vios_manus.Common.{
  ℕ, ◌+◌, ◌*◌, ◌/◌, Bool, Option, none, some, max, String, str_eq, List, [], ◌∷◌, ltb, clip,
  if◌then◌else◌,
}
use vios_manus.Queue.{
  Redis, Codec, Job, max_retries, processing_key, dlq_key, metrics_key, job_state_key,
  priority_lane, default_lane,
}

-- `job.get(key, 0)`, and a text that Python takes for true.
abbrev pub or_zero : Option ℕ → ℕ
or_zero none = 0
or_zero (some n) = n

abbrev pub truthy : Option String → Option String
truthy none = none
truthy (some t) = if str_eq t "" then none else some t

-- LEASE_SECONDS, at its default
abbrev pub lease_seconds : ℕ
lease_seconds = 2400000

-- `max(int(LEASE_SECONDS * 4), 3600)`, in seconds
abbrev pub state_expiry : ℕ → ℕ
state_expiry lease = max (lease * 4 / 1000) 3600

-- The envelope that `push_job` makes.
abbrev pub new_job : String → String → String → ℕ → Job
new_job q payload job_id now = record {
  id = some job_id;
  payload = payload;
  created_at = now;
  retries = some 0;
  recoveries = none;
  status = "QUEUED";
  queue = q;
  last_error = none;
  claimed_at = none;
  lease_owner = none;
  lease_expires_at = none;
  last_failed_at = none;
  died_at = none;
  replayed_at = none;
}

-- The lane that `push_job` chooses.
unfoldable pub lane_for : String → Bool → String
unfolding priority_lane default_lane
lane_for q is_priority = elim (priority_lane q) [
  | some prio ↦ if is_priority then prio else default_lane q
  | none ↦ default_lane q
]

-- What `claim_job` gives back: a job with its text, nothing, or the exception of `json.loads`.
pub data Claimed : Type 0 where
  job_of : Job → String → Claimed
  no_job raised : Claimed

-- RETRIED or DEAD
pub data Fate : Type 0 where
  retried dead : Fate

-- The text of `fail_job` that goes back to the default lane, and the one that goes to the DLQ.
unfoldable pub retry_of : Job → String → ℕ → Job
retry_of job error now = record job {
  retries = some (or_zero job.retries + 1);
  status = "RETRY";
  last_error = some (clip 200 error);
  last_failed_at = some now;
}

unfoldable pub dead_of : Job → String → ℕ → Job
dead_of job error now = record job {
  status = "DEAD";
  last_error = some (clip 200 error);
  died_at = some now;
}

-- What `fail_job` writes of the state of its job.
abbrev pub fail_fields : Codec → String → ℕ → String → String → List (String × String)
fail_fields J error now state retries =
    ("state", state)
    ∷ ("updated_at", J.shown now)
    ∷ ("last_error", clip 200 error)
    ∷ ("retries", retries)
    ∷ []

-- The state of a job that waits again.
abbrev pub free_fields : Codec → ℕ → List (String × String)
free_fields J now =
    ("state", "queued")
    ∷ ("updated_at", J.shown now)
    ∷ ("lease_owner", "")
    ∷ ("lease_expires_at", "0")
    ∷ []

module _ (R : Redis) (J : Codec) where
  -- `if job.get("id"):` and a command on the state of that job
  unfoldable pub for_state : Option String → (String → R.State → R.State) → R.State → R.State
  unfolding job_state_key
  for_state none f s = s
  for_state (some i) f s = f (job_state_key i) s

  -- `push_job`
  unfoldable pub push_job : String → String → Bool → String → ℕ → R.State → R.State
  unfolding lane_for job_state_key
  push_job q payload is_priority job_id now s =
      let s1 = R.lpush (lane_for q is_priority) (J.dumps (new_job q payload job_id now)) s in
      let s2 =
        R.hset (job_state_key job_id)
          (("job_id", job_id)
            ∷ ("queue", q)
            ∷ ("state", "queued")
            ∷ ("created_at", J.shown now)
            ∷ ("updated_at", J.shown now)
            ∷ ("retries", "0")
            ∷ [])
          s1 in
      R.hincrby metrics_key (q ++ ":pushed") 1
        (R.expire (job_state_key job_id) (state_expiry lease_seconds) s2)

  -- The lease of a claimed text, which stands in PROCESSING by now.
  unfoldable pub lease_job : String → String → String → ℕ → R.State → R.State × Claimed
  unfolding job_state_key
  lease_job q raw owner now s = elim (J.loads raw) [
    | none ↦ (s, raised)
    | some job ↦
        let key = job_state_key (elim job.id [ some i ↦ i | none ↦ "unknown" ]) in
        let s1 =
          R.hset key
            (("job_id", elim job.id [ some i ↦ i | none ↦ "" ])
              ∷ ("queue", q)
              ∷ ("state", "leased")
              ∷ ("owner", owner)
              ∷ ("claimed_at", J.shown now)
              ∷ ("lease_expires_at", J.shown (now + lease_seconds))
              ∷ ("updated_at", J.shown now)
              ∷ ("retries", J.shown (or_zero job.retries))
              ∷ [])
            s in
        (
          R.hincrby metrics_key (q ++ ":claimed") 1 (R.expire key (state_expiry lease_seconds) s1),
          job_of
              (record job {
                claimed_at = some now;
                lease_owner = some owner;
                lease_expires_at = some (now + lease_seconds);
                status = "LEASED";
              })
              raw,
        )
  ]

  -- The default lane, where the priority lane has given nothing.
  unfoldable pub claim_default : String → String → ℕ → R.State → R.State × Claimed
  unfolding default_lane processing_key lease_job
  claim_default q owner now s =
      let (s1, got) = R.rpoplpush (default_lane q) (processing_key q) s in
      elim (truthy got) [ some raw ↦ lease_job q raw owner now s1 | none ↦ (s1, no_job) ]

  -- `claim_job`; the wait of BRPOPLPUSH is left out: the state is the one at its answer.
  unfoldable pub claim_job : String → String → ℕ → R.State → R.State × Claimed
  unfolding priority_lane processing_key lease_job claim_default
  claim_job q owner now s = elim (priority_lane q) [
    | none ↦ claim_default q owner now s
    | some prio ↦
        let (s1, got) = R.rpoplpush prio (processing_key q) s in
        elim (truthy got) [
          | some raw ↦ lease_job q raw owner now s1
          | none ↦ claim_default q owner now s1
        ]
  ]

  -- `ack_job`: of the metrics of its duration only the texts are arguments.
  unfoldable pub ack_job : String → Job → String → String → ℕ → R.State → R.State
  unfolding processing_key for_state
  ack_job q job raw elapsed now s =
      let s1 = R.lrem (processing_key q) raw s in
      let s2 = for_state (truthy job.id) R.delete s1 in
      let s3 = R.hincrby metrics_key (q ++ ":completed") 1 s2 in
      elim job.claimed_at [
        | some t ↦
            R.hset metrics_key ((q ++ ":last_completed_at", J.shown now) ∷ [])
              (R.hset metrics_key ((q ++ ":last_duration_sec", elapsed) ∷ []) s3)
        | none ↦ s3
      ]

  -- `fail_job`
  unfoldable pub fail_job : String → Job → String → String → ℕ → R.State → R.State × Fate
  unfolding processing_key default_lane dlq_key for_state retry_of dead_of
  fail_job q job raw error now s =
      let s1 = R.lrem (processing_key q) raw s in
      if ltb (or_zero job.retries) max_retries
      then (let again = retry_of job error now in
          let s2 =
            for_state (truthy job.id)
              (λ k. R.hset k (fail_fields J error now "queued" (J.shown (or_zero again.retries))))
              s1 in
          (
            R.hincrby metrics_key (q ++ ":retries") 1 (R.lpush (default_lane q) (J.dumps again) s2),
            retried,
          ))
      else (let gone = dead_of job error now in
          let s2 =
            for_state (truthy job.id)
              (λ k t. R.expire k (7 * 24 * 3600) (
                R.hset k (fail_fields J error now "dead_letter" (J.shown (or_zero gone.retries)))
                  t))
              s1 in
          (R.hincrby metrics_key (q ++ ":dead") 1 (R.lpush (dlq_key q) (J.dumps gone) s2), dead))
