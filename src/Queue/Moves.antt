-- ===== src/Queue/Moves.antt =====
-- The jobs of a queue of queue_manager.py, by their ids, through `claim_job` and `fail_job`.

use text.Mathlib.TextPositions.{eq_refl}
use vios_manus.Common.{
  ℕ, ◌+◌, ◌≤◌, ◌≡◌, refl, ap, ◌∙◌, Bool, true, false, Option, none, some, String, ◌∷◌, count, arith,
  Option-cases, inl, inr, is_text,
}
use vios_manus.Registry.Lookup.{has}
use vios_manus.Registry.Topo.Texts.{times}
use vios_manus.Queue.{
  id_read, Redis, IsRedis, Codec, IsCodec, Job, all_queues, keys_of, processing_key, dlq_key,
  default_lane, priority_lane, last, but_last, remove_one,
}
use vios_manus.Queue.Jobs.{for_state}
use vios_manus.Queue.Keys.{distinct_once, keys_of-distinct}
use vios_manus.Queue.Held.{
  total, total_same, total_changed, count-remove_one, count-but_last, weight,
}

-- `job.get("id") == i`, of an id that has been read
abbrev pub carries_id : String → Option (Option String) → Bool
carries_id i none = false
carries_id i (some o) = is_text o i

module _ (R : Redis) (J : Codec) (laws : IsRedis R) (codec : IsCodec J) (q : String)
    (is_queue : has q all_queues ≡ true) (i : String) where
  -- A text is an envelope with the id.
  abbrev pub carries : String → Bool
  carries raw = carries_id i (id_read (J.loads raw))

  -- How many texts with the id stand in the lists of the queue.
  abbrev pub held : R.State → ℕ
  held s = total carries (keys_of q) (R.list s)

  once : (k : String) → times k (keys_of q) ≤ 1
  once k = distinct_once k (keys_of q) (keys_of-distinct q is_queue)

  pub processing_known : has (processing_key q) (keys_of q) ≡ true
  unfolding keys_of has
  processing_known = ground (arith, eq_refl (processing_key q))

  pub dlq_known : has (dlq_key q) (keys_of q) ≡ true
  unfolding keys_of has
  dlq_known = ground (arith, eq_refl (dlq_key q))

  pub default_known : has (default_lane q) (keys_of q) ≡ true
  unfolding keys_of has
  default_known = ground (arith, eq_refl (default_lane q))

  pub priority_known : {k : String} → priority_lane q ≡ some k → has k (keys_of q) ≡ true
  unfolding keys_of has
  priority_known {k} e = rw e (ground (arith, eq_refl k))

  pub carries-dumps : (j : Job) → carries (J.dumps j) ≡ is_text j.id i
  carries-dumps j = ap (carries_id i) (codec j)

  pub held_same : (s s' : R.State) → ((j : String) → R.list s' j ≡ R.list s j) → held s' ≡ held s
  held_same s s' same = total_same carries (keys_of q) (R.list s) (R.list s') (λ j _. same j)

  pub for_state-list :
      (o : Option String) (f : String → R.State → R.State) (s : R.State)
      → ((k : String) (t : R.State) (j : String) → R.list (f k t) j ≡ R.list t j)
      → (j : String) → R.list (for_state R J o f s) j ≡ R.list s j
  unfolding for_state
  for_state-list none f s quiet j = refl
  for_state-list (some k) f s quiet j = quiet _ s j

  -- A push adds its text, a removal takes its text away, and a move does neither.
  pub held_pushed :
      (k x : String) (s s' : R.State)
      → has k (keys_of q) ≡ true
      → ((j : String) → R.list s' j ≡ R.list (R.lpush k x s) j)
      → held s' ≡ held s + weight carries x
  unfolding count
  held_pushed k x s s' known same = omega (
    arith,
    total_changed carries (keys_of q) k (x ∷ R.list s k) (R.list s) (R.list s') once known
        (λ j. same j ∙ laws.list-lpush s k x j),
  )

  pub held_removed :
      (k t : String) (s : R.State)
      → has k (keys_of q) ≡ true
      → has t (R.list s k) ≡ true
      → held (R.lrem k t s) + weight carries t ≡ held s
  held_removed k t s known there = omega (
    arith,
    count-remove_one carries t (R.list s k) there,
    total_changed carries (keys_of q) k (remove_one t (R.list s k)) (R.list s)
        (R.list (R.lrem k t s)) once known (laws.list-lrem s k t),
  )

  pub held_popped :
      (k x : String) (s : R.State)
      → has k (keys_of q) ≡ true
      → last (R.list s k) ≡ some x
      → held (R.rpop k s).0 + weight carries x ≡ held s
  held_popped k x s known there = omega (
    arith,
    count-but_last carries (R.list s k) x there,
    total_changed carries (keys_of q) k (but_last (R.list s k)) (R.list s) (R.list (R.rpop k s).0)
        once known (laws.list-rpop s k),
  )

  pub moved_none :
      (k d : String) (s : R.State) (j : String)
      → last (R.list s k) ≡ none
      → R.list (R.rpoplpush k d s).0 j ≡ R.list s j
  moved_none k d s j e = laws.list-rpoplpush s k d j ∙ rw e refl

  pub moved_some :
      (k d : String) (s : R.State) {x : String} (j : String)
      → last (R.list s k) ≡ some x
      → R.list (R.rpoplpush k d s).0 j ≡ R.list (R.lpush d x (R.rpop k s).0) j
  moved_some k d s j e = laws.list-rpoplpush s k d j ∙ rw e refl

  pub held_moved :
      (k d : String) (s : R.State)
      → has k (keys_of q) ≡ true
      → has d (keys_of q) ≡ true
      → held (R.rpoplpush k d s).0 ≡ held s
  held_moved k d s known known' = elim (Option-cases (last (R.list s k))) [
    | inl e ↦ held_same s (R.rpoplpush k d s).0 (λ j. moved_none k d s j e)
    | inr (x, e) ↦ omega (
      arith,
      held_popped k x s known e,
      held_pushed d x (R.rpop k s).0 (R.rpoplpush k d s).0 known' (λ j. moved_some k d s j e),
    )
  ]
