-- ===== src/Queue/Fifo.antt =====
-- The default lane of a queue of queue_manager.py is a queue: first in, first out.
use mathlib.Core.Path.{sym}
use text.Mathlib.TextPositions.{eq_refl}
use vios_manus.Common.{
  ℕ, ◌≡◌, refl, ap, ◌∙◌, true, false, some, String, str_eq, List, [], ◌∷◌, Option-cases, inl, inr,
}
use vios_manus.Registry.Lookup.{has}
use vios_manus.Registry.Topo.Texts.{str_eq_comm}
use vios_manus.Queue.{
  Redis, IsRedis, Codec, IsCodec, Job, all_queues, processing_key, default_lane, priority_lane,
  last, but_last,
}
use vios_manus.Queue.Jobs.{push_job, lane_for, claim_job, claim_default, lease_job, job_of, new_job}
use vios_manus.Queue.Held.{chosen, others}
use vios_manus.Queue.Moves.{moved_none, moved_some}
use vios_manus.Queue.Emptied.{processing_not_default}

-- A list with one more at its end, and a list turned round.
abbrev pub snoc : List String → String → List String
snoc [] x = x ∷ []
snoc (y ∷ ys) x = y ∷ snoc ys x

abbrev pub turned : List String → List String
turned [] = []
turned (x ∷ xs) = snoc (turned xs) x

last-snoc : (xs : List String) (x : String) → last (snoc xs x) ≡ some x
last-snoc [] x = refl
last-snoc (y ∷ []) x = refl
last-snoc (y ∷ z ∷ zs) x = last-snoc (z ∷ zs) x

but_last-snoc : (xs : List String) (x : String) → but_last (snoc xs x) ≡ xs
but_last-snoc [] x = refl
but_last-snoc (y ∷ []) x = refl
but_last-snoc (y ∷ z ∷ zs) x = ap (λ r. y ∷ r) (but_last-snoc (z ∷ zs) x)

turned-snoc : (xs : List String) (x : String) → turned (snoc xs x) ≡ x ∷ turned xs
turned-snoc [] x = refl
turned-snoc (y ∷ ys) x = ap (λ r. snoc r y) (turned-snoc ys x)

module _ (R : Redis) (J : Codec) (laws : IsRedis R) (codec : IsCodec J) (q : String)
    (is_queue : has q all_queues ≡ true) where
  push_here : (k x : String) (s : R.State) → R.list (R.lpush k x s) k ≡ x ∷ R.list s k
  push_here k x s = laws.list-lpush s k x k ∙ chosen (eq_refl k) (x ∷ R.list s k) (R.list s k)

  push_other :
      (k x j : String) (s : R.State) → str_eq j k ≡ false → R.list (R.lpush k x s) j ≡ R.list s j
  push_other k x j s e =
      laws.list-lpush s k x j ∙ others (str_eq j k) (x ∷ R.list s k) (R.list s j) e

  pop_here : (k : String) (s : R.State) → R.list (R.rpop k s).0 k ≡ but_last (R.list s k)
  pop_here k s = laws.list-rpop s k k ∙ chosen (eq_refl k) (but_last (R.list s k)) (R.list s k)

  lane_default : lane_for q false ≡ default_lane q
  unfolding lane_for
  lane_default = elim (Option-cases (priority_lane q)) [
    | inl e ↦ rw (lane_for, e) refl
    | inr (k, e) ↦ rw (lane_for, e) refl
  ]

  -- The default lane holds these texts, in the order of their arrival.
  abbrev pub IsLane : R.State → List String → Type 0
  IsLane s xs = R.list s (default_lane q) ≡ turned xs

  -- On any of the five queues, a job that is pushed without priority comes last in the default
  -- lane, behind the texts that wait there.
  pub push_job-IsLane :
      (payload id : String) (now : ℕ) (s : R.State) (xs : List String)
      → IsLane s xs
      → IsLane
          (push_job R J q payload false id now s)
          (snoc xs (J.dumps (new_job q payload id now)))
  unfolding push_job
  push_job-IsLane payload id now s xs h =
      let x = J.dumps (new_job q payload id now) in
      laws.list-hincrby _ _ _ _ (default_lane q)
      ∙ laws.list-expire _ _ _ (default_lane q)
      ∙ laws.list-hset _ _ _ (default_lane q)
      ∙ ap (λ l. R.list (R.lpush l x s) (default_lane q)) lane_default
      ∙ push_here (default_lane q) x s
      ∙ ap (λ r. x ∷ r) h
      ∙ sym (turned-snoc xs x)

  -- What a lease leaves of the lanes, and what it gives back.
  lease_job-IsLane :
      (x : String) (xs : List String) (job : Job) (owner : String) (now : ℕ) (s : R.State)
      → IsLane s xs
      → J.loads x ≡ some job
      → let (s', r) = lease_job R J q x owner now s in
        IsLane s' xs × ((leased : Job) × (r ≡ job_of leased x))
  unfolding lease_job
  lease_job-IsLane x xs job owner now s h readable =
      rw (lease_job, readable)
        (
          laws.list-hincrby _ _ _ _ (default_lane q)
              ∙ laws.list-expire _ _ _ (default_lane q)
              ∙ laws.list-hset _ _ _ (default_lane q)
              ∙ h,
          (_, refl),
        )

  -- The text that arrived first is moved.
  popped-IsLane :
      (x : String) (xs : List String) (s : R.State)
      → IsLane s (x ∷ xs)
      → IsLane (R.rpoplpush (default_lane q) (processing_key q) s).0 xs
  popped-IsLane x xs s h =
      let source = default_lane q in
      moved_some R J laws codec q is_queue "" source (processing_key q) s source
        (ap last h ∙ last-snoc (turned xs) x)
      ∙ push_other (processing_key q) x source (R.rpop source s).0
          (str_eq_comm source (processing_key q) ∙ processing_not_default R J laws codec q is_queue)
      ∙ pop_here source s
      ∙ ap but_last h
      ∙ but_last-snoc (turned xs) x

  claim_default-IsLane :
      (x : String) (xs : List String) (job : Job) (owner : String) (now : ℕ) (s : R.State)
      → IsLane s (x ∷ xs)
      → str_eq x "" ≡ false
      → J.loads x ≡ some job
      → let (s', r) = claim_default R J q owner now s in
        IsLane s' xs × ((leased : Job) × (r ≡ job_of leased x))
  unfolding claim_default
  claim_default-IsLane x xs job owner now s h full readable =
      let got =
        laws.rpoplpush_last s (default_lane q) (processing_key q)
        ∙ ap last h
        ∙ last-snoc (turned xs) x in
      rw (claim_default, got, full)
        (lease_job-IsLane x xs job owner now _ (popped-IsLane x xs s h) readable)

  -- On any of the five queues, where the priority lane has nothing and the text of the default
  -- lane that arrived first is not empty and can be read, `claim_job` gives that text, and leaves
  -- the others in their order.
  pub claim_job-IsLane :
      (x : String) (xs : List String) (job : Job) (owner : String) (now : ℕ) (s : R.State)
      → IsLane s (x ∷ xs)
      → ((k : String) → priority_lane q ≡ some k → R.list s k ≡ [])
      → str_eq x "" ≡ false
      → J.loads x ≡ some job
      → let (s', r) = claim_job R J q owner now s in
        IsLane s' xs × ((leased : Job) × (r ≡ job_of leased x))
  unfolding claim_job
  claim_job-IsLane x xs job owner now s h idle full readable =
      elim (Option-cases (priority_lane q)) [
        | inl e ↦ rw (claim_job, e) (claim_default-IsLane x xs job owner now s h full readable)
        | inr (k, e) ↦
            let nothing = ap last (idle k e) in
            rw (claim_job, e, laws.rpoplpush_last s k (processing_key q) ∙ nothing)
              (claim_default-IsLane x xs job owner now (R.rpoplpush k (processing_key q) s).0
                (moved_none R J laws codec q is_queue "" k (processing_key q) s (default_lane q)
                    nothing
                  ∙ h)
                full readable)
      ]
