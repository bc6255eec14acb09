-- ===== src/Queue/Orphans.antt =====
-- `recover_processing_jobs` of queue_manager.py keeps every job, and leaves nothing in PROCESSING.
use mathlib.Core.Path.{sym}
use text.Mathlib.TextPositions.{eq_refl}
use vios_manus.Common.{
  ℕ, zero, suc, ◌+◌, ◌≡◌, refl, ap, ◌∙◌, true, Option, none, some, String, str_eq, arith, ltb,
  Bool-cases, Option-cases, inl, inr, is_text,
}
use vios_manus.Registry.Lookup.{has}
use vios_manus.Queue.{
  id_read, Redis, IsRedis, Codec, IsCodec, Job, all_queues, processing_key, dlq_key, default_lane,
}
use vios_manus.Queue.Jobs.{truthy, or_zero}
use vios_manus.Queue.Recover.{recover_one, recover_loop, recovered_of, quarantined_of}
use vios_manus.Queue.Moves.{
  carries, carries_id, held, processing_known, dlq_known, default_known, held_same, for_state-list,
  held_moved, moved_some,
}
use vios_manus.Queue.Kept.{rewritten}

pub truthy-some : (o : Option String) {t : String} → truthy o ≡ some t → o ≡ some t
truthy-some none e = cc
truthy-some (some x) e = elim (Bool-cases (str_eq x "")) [
  | inl empty ↦ let h = rw empty at e in cc
  | inr full ↦ rw full at e
]

module _ (R : Redis) (J : Codec) (laws : IsRedis R) (codec : IsCodec J) (q : String)
    (is_queue : has q all_queues ≡ true) (i : String) where
  abbrev pub kept : R.State → ℕ
  kept s = held R J laws codec q is_queue i s

  id_of :
      (raw : String) {j : Job}
      → J.loads raw ≡ some j
      → carries R J laws codec q is_queue i raw ≡ is_text j.id i
  id_of raw e = ap (λ o. carries_id i (id_read o)) e

  recover_one-held :
      (most : Option ℕ) (why : ℕ → String) (now : ℕ) (orphan : String) (s : R.State)
      → has orphan (R.list s (default_lane q)) ≡ true
      → kept (recover_one R J q most why now orphan s).0 ≡ kept s
  unfolding recover_one recovered_of quarantined_of
  recover_one-held none why now orphan s there = elim (Option-cases (J.loads orphan)) [
    | inl e ↦ rw (recover_one, e) refl
    | inr (job, e) ↦
        rw (recover_one, e)
          (held_same R J laws codec q is_queue i s _ (
            for_state-list R J laws codec q is_queue i (truthy job.id) _ s
              (λ k t j. laws.list-hset _ _ _ j)))
  ]
  recover_one-held (some most) why now orphan s there = elim (Option-cases (J.loads orphan)) [
    | inl e ↦ rw (recover_one, e) refl
    | inr (job, e) ↦ elim (Bool-cases (ltb most (or_zero job.recoveries + 1))) [
      | inl many ↦
          rw (recover_one, e, many)
            (rewritten R J laws codec q is_queue i (default_lane q) (dlq_key q) orphan
              (quarantined_of job (why (or_zero job.recoveries + 1)) now) s _ _
              (default_known R J laws codec q is_queue i) (dlq_known R J laws codec q is_queue i)
              there (id_of orphan e) (λ j. refl) (λ j. laws.list-hincrby _ _ _ _ j))
      | inr few ↦
          rw (recover_one, e, few)
            (rewritten R J laws codec q is_queue i (default_lane q) (default_lane q) orphan
              (recovered_of job) s _ _ (default_known R J laws codec q is_queue i)
              (default_known R J laws codec q is_queue i) there (id_of orphan e)
              (for_state-list R J laws codec q is_queue i (truthy job.id) _ _
                (λ k t j. laws.list-hset _ _ _ j))
              (λ j. refl))
    ]
  ]

  -- The orphan that has just been moved stands in the default lane.
  moved_there :
      (s : R.State) {t : String}
      → (R.rpoplpush (processing_key q) (default_lane q) s).1 ≡ some t
      → has t (R.list (R.rpoplpush (processing_key q) (default_lane q) s).0 (default_lane q)) ≡ true
  unfolding has
  moved_there s {t} e =
      let found = sym (laws.rpoplpush_last s (processing_key q) (default_lane q)) ∙ e in
      rw
        (moved_some R J laws codec q is_queue i (processing_key q) (default_lane q) s
          (default_lane q) found)
        (rw (laws.list-lpush (R.rpop (processing_key q) s).0 (default_lane q) t (default_lane q))
          (ground (arith, eq_refl t, eq_refl (default_lane q))))

  pub recover_loop-held :
      (fuel : ℕ) (most : Option ℕ) (why : ℕ → String) (now : ℕ) (s : R.State)
      → kept (recover_loop R J fuel q most why now s).0 ≡ kept s
  unfolding recover_loop
  recover_loop-held zero most why now s = refl
  recover_loop-held (suc fuel) most why now s =
      let moved =
        held_moved R J laws codec q is_queue i (processing_key q) (default_lane q) s
          (processing_known R J laws codec q is_queue i)
          (default_known R J laws codec q is_queue i) in
      elim (Option-cases (truthy (R.rpoplpush (processing_key q) (default_lane q) s).1)) [
        | inl e ↦ rw (recover_loop, e) moved
        | inr (orphan, e) ↦
            rw (recover_loop, e)
              (recover_loop-held fuel most why now _
                ∙ recover_one-held most why now orphan _ (moved_there s (truthy-some _ e))
                ∙ moved)
      ]
