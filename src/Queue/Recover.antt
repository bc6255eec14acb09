-- ===== src/Queue/Recover.antt =====
-- The operations of queue_manager.py on a whole queue: `recover_processing_jobs`, `replay_dlq` and
-- `get_queue_depth`.
use Prim.Native.String.{◌++◌}
use vios_manus.Common.{
  ℕ, zero, suc, ◌+◌, ◌-◌, Bool, true, false, Option, none, some, String, str_eq, List, [], ◌∷◌,
  length, ltb, ◌==◌, if◌then◌else◌,
}
use mathlib.Core.List.{◌++◌ as append}
use vios_manus.Queue.{
  Redis, Codec, Job, processing_key, dlq_key, metrics_key, priority_lane, default_lane,
}
use vios_manus.Queue.Jobs.{or_zero, truthy, for_state, free_fields}

-- The texts of a recovery and of a quarantine.
unfoldable pub recovered_of : Job → Job
recovered_of job = record job { recoveries = some (or_zero job.recoveries + 1); status = "QUEUED" }

unfoldable pub quarantined_of : Job → String → ℕ → Job
quarantined_of job why now = record job {
  recoveries = some (or_zero job.recoveries + 1);
  status = "DEAD";
  last_error = some why;
  died_at = some now;
}

-- `count is None or replayed < count`, by what is left of the count.
abbrev pub is_spent : Option ℕ → Bool
is_spent none = false
is_spent (some n) = n == 0

abbrev pub one_less : Option ℕ → Option ℕ
one_less none = none
one_less (some n) = some (n - 1)

abbrev pub one_more : Option ℕ → Option ℕ
one_more none = none
one_more (some n) = some (n + 1)

unfoldable pub replayed_of : Job → ℕ → Job
replayed_of job now = record job { retries = some 0; status = "PENDING"; replayed_at = some now }

module _ (R : Redis) (J : Codec) where
  -- One orphan of `recover_processing_jobs`, which stands at the head of the default lane by now; true
  -- when it counts as recovered.
  unfoldable pub recover_one :
      String → Option ℕ → (ℕ → String) → ℕ → String → R.State → R.State × Bool
  unfolding default_lane dlq_key for_state recovered_of quarantined_of
  recover_one q none why now orphan s = elim (J.loads orphan) [
    | none ↦ (s, true)
    | some job ↦ (for_state R J (truthy job.id) (λ k. R.hset k (free_fields J now)) s, true)
  ]
  recover_one q (some most) why now orphan s = elim (J.loads orphan) [
    | none ↦ (s, true)
    | some job ↦
        let n = or_zero job.recoveries + 1 in
        let s1 = R.lrem (default_lane q) orphan s in
        if ltb most n
        then (
          R.hincrby metrics_key (q ++ ":dead") 1
              (R.lpush (dlq_key q) (J.dumps (quarantined_of job (why n) now)) s1),
          false,
        )
        else (
          R.lpush (default_lane q) (J.dumps (recovered_of job)) (
              for_state R J (truthy job.id)
                (λ k. R.hset k (append (free_fields J now) (("recoveries", J.shown n) ∷ []))) s1),
          true,
        )
  ]

  -- The loop of `recover_processing_jobs`, with fuel for its rounds.
  unfoldable pub recover_loop : ℕ → String → Option ℕ → (ℕ → String) → ℕ → R.State → R.State × ℕ
  unfolding processing_key default_lane recover_one
  recover_loop zero q most why now s = (s, 0)
  recover_loop (suc fuel) q most why now s =
      let (s1, got) = R.rpoplpush (processing_key q) (default_lane q) s in
      elim (truthy got) [
        | none ↦ (s1, 0)
        | some orphan ↦
            let (s2, counts) = recover_one q most why now orphan s1 in
            let (s3, n) = recover_loop fuel q most why now s2 in (s3, if counts then n + 1 else n)
      ]

  -- The states of the leased jobs that stand in the default lane.
  unfoldable pub clear_leases : ℕ → List String → R.State → R.State
  unfolding for_state
  clear_leases now [] s = s
  clear_leases now (raw ∷ rest) s = clear_leases now rest (elim (J.loads raw) [
    | none ↦ s
    | some job ↦
        if str_eq job.status "LEASED"
        then for_state R J (truthy job.id) (λ k. R.hset k (free_fields J now)) s
        else s
  ])

  unfoldable pub count_recovered : String → ℕ → R.State → R.State
  count_recovered q n s = if ltb 0 n then R.hincrby metrics_key (q ++ ":recovered") n s else s

  -- `recover_processing_jobs`
  unfoldable pub recover_processing_jobs :
      ℕ → String → Option ℕ → (ℕ → String) → ℕ → R.State → R.State × ℕ
  unfolding recover_loop clear_leases default_lane count_recovered
  recover_processing_jobs fuel q most why now s =
      let (s1, n) = recover_loop fuel q most why now s in
      let s2 = count_recovered q n s1 in (clear_leases now (R.list s2 (default_lane q)) s2, n)

  -- The loop of `replay_dlq`, with fuel for its rounds; a text that is no envelope raises.
  unfoldable pub replay_dlq : ℕ → String → Option ℕ → ℕ → R.State → R.State × Option ℕ
  unfolding dlq_key default_lane
  replay_dlq zero q count now s = (s, some 0)
  replay_dlq (suc fuel) q count now s =
      let (s1, got) = R.rpop (dlq_key q) s in
      if is_spent count then (s, some 0) else elim (truthy got) [
        | none ↦ (s1, some 0)
        | some raw ↦ elim (J.loads raw) [
          | none ↦ (s1, none)
          | some job ↦
              let (s2, n) =
                replay_dlq fuel q (one_less count) now
                  (R.lpush (default_lane q) (J.dumps (replayed_of job now)) s1) in
              (s2, one_more n)
        ]
      ]

  -- `get_queue_depth`
  unfoldable pub get_queue_depth : String → R.State → ℕ
  unfolding priority_lane default_lane
  get_queue_depth q s = elim (priority_lane q) [
    | some prio ↦ length (R.list s prio) + length (R.list s (default_lane q))
    | none ↦ length (R.list s (default_lane q))
  ]
