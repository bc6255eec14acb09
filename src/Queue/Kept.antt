-- ===== src/Queue/Kept.antt =====
-- `claim_job` and `fail_job` of queue_manager.py keep every job of a queue.
use mathlib.Core.Path.{sym}
use vios_manus.Common.{
  ℕ, ◌≡◌, refl, ap, ◌∙◌, Bool, true, String, arith, ltb, Bool-cases, Option-cases, inl, inr,
  is_text, if◌then◌else◌,
}
use vios_manus.Registry.Lookup.{has}
use vios_manus.Queue.{
  Redis, IsRedis, Codec, IsCodec, Job, all_queues, keys_of, processing_key, dlq_key, default_lane,
  priority_lane, max_retries,
}
use vios_manus.Queue.Jobs.{
  fail_job, retry_of, dead_of, claim_job, claim_default, lease_job, truthy, or_zero,
}
use vios_manus.Queue.Moves.{
  carries, held, processing_known, dlq_known, default_known, priority_known, carries-dumps,
  held_same, for_state-list, held_pushed, held_removed, held_moved,
}

module _ (R : Redis) (J : Codec) (laws : IsRedis R) (codec : IsCodec J) (q : String)
    (is_queue : has q all_queues ≡ true) (i : String) where
  abbrev kept : R.State → ℕ
  kept s = held R J laws codec q is_queue i s

  lease_job-held :
      (raw owner : String) (now : ℕ) (s : R.State)
      → kept (lease_job R J q raw owner now s).0 ≡ kept s
  unfolding lease_job
  lease_job-held raw owner now s = elim (Option-cases (J.loads raw)) [
    | inl e ↦ rw (lease_job, e) refl
    | inr (job, e) ↦
        rw (lease_job, e)
          (held_same R J laws codec q is_queue i s _
            λ j. laws.list-hincrby _ _ _ _ j ∙ laws.list-expire _ _ _ j ∙ laws.list-hset _ _ _ j)
  ]

  claim_default-held :
      (owner : String) (now : ℕ) (s : R.State) → kept (claim_default R J q owner now s).0 ≡ kept s
  unfolding claim_default
  claim_default-held owner now s =
      let moved =
        held_moved R J laws codec q is_queue i (default_lane q) (processing_key q) s
          (default_known R J laws codec q is_queue i)
          (processing_known R J laws codec q is_queue i) in
      elim (Option-cases (truthy (R.rpoplpush (default_lane q) (processing_key q) s).1)) [
        | inl e ↦ rw (claim_default, e) moved
        | inr (raw, e) ↦ rw (claim_default, e) (lease_job-held raw owner now _ ∙ moved)
      ]

  -- On any of the five queues, `claim_job` loses no job and doubles none, whatever the lanes hold, and
  -- whether or not what it takes can be read.
  pub claim_job-held :
      (owner : String) (now : ℕ) (s : R.State) → kept (claim_job R J q owner now s).0 ≡ kept s
  unfolding claim_job
  claim_job-held owner now s = elim (Option-cases (priority_lane q)) [
    | inl e ↦ rw (claim_job, e) (claim_default-held owner now s)
    | inr (prio, e) ↦
        let moved =
          held_moved R J laws codec q is_queue i prio (processing_key q) s
            (priority_known R J laws codec q is_queue i e)
            (processing_known R J laws codec q is_queue i) in
        elim (Option-cases (truthy (R.rpoplpush prio (processing_key q) s).1)) [
          | inl none_yet ↦ rw (claim_job, e, none_yet) (claim_default-held owner now _ ∙ moved)
          | inr (raw, got) ↦ rw (claim_job, e, got) (lease_job-held raw owner now _ ∙ moved)
        ]
  ]

  -- A text that is taken from a list and written again, with the same id, to a list.
  pub rewritten :
      (k d raw : String) (job : Job) (s s2 s3 : R.State)
      → has k (keys_of q) ≡ true
      → has d (keys_of q) ≡ true
      → has raw (R.list s k) ≡ true
      → carries R J laws codec q is_queue i raw ≡ is_text job.id i
      → ((j : String) → R.list s2 j ≡ R.list (R.lrem k raw s) j)
      → ((j : String) → R.list s3 j ≡ R.list (R.lpush d (J.dumps job) s2) j)
      → kept s3 ≡ kept s
  rewritten k d raw job s s2 s3 from known there same quiet pushed = omega (
    arith,
    held_removed R J laws codec q is_queue i k raw s from there,
    held_same R J laws codec q is_queue i (R.lrem k raw s) s2 quiet,
    held_pushed R J laws codec q is_queue i d (J.dumps job) s2 s3 known pushed,
    ap {B = ℕ} (λ (b : Bool). if b then 1 else 0)
        (carries-dumps R J laws codec q is_queue i job ∙ sym same),
  )

  -- On any of the five queues, `fail_job` of a job whose text stands in PROCESSING and has the id
  -- of the job loses no job and doubles none, of any id: the text goes to the default lane or to
  -- the dead letters.
  pub fail_job-held :
      (job : Job) (raw error : String) (now : ℕ) (s : R.State)
      → has raw (R.list s (processing_key q)) ≡ true
      → carries R J laws codec q is_queue i raw ≡ is_text job.id i
      → kept (fail_job R J q job raw error now s).0 ≡ kept s
  unfolding fail_job retry_of dead_of
  fail_job-held job raw error now s there same =
      elim (Bool-cases (ltb (or_zero job.retries) max_retries)) [
        | inl few ↦
            rw (fail_job, few)
              (rewritten (processing_key q) (default_lane q) raw (retry_of job error now) s _ _
                (processing_known R J laws codec q is_queue i)
                (default_known R J laws codec q is_queue i) there same
                (for_state-list R J laws codec q is_queue i (truthy job.id) _ _
                  (λ k t j. laws.list-hset _ _ _ j))
                (λ j. laws.list-hincrby _ _ _ _ j))
        | inr spent ↦
            rw (fail_job, spent)
              (rewritten (processing_key q) (dlq_key q) raw (dead_of job error now) s _ _
                (processing_known R J laws codec q is_queue i)
                (dlq_known R J laws codec q is_queue i) there same
                (for_state-list R J laws codec q is_queue i (truthy job.id) _ _
                  (λ k t j. laws.list-expire _ _ _ j ∙ laws.list-hset _ _ _ j))
                (λ j. laws.list-hincrby _ _ _ _ j))
      ]
