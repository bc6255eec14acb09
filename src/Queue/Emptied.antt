-- ===== src/Queue/Emptied.antt =====
-- The loop of `recover_processing_jobs` of queue_manager.py ends, with PROCESSING empty.
use mathlib.Core.Path.{sym}
use text.Mathlib.TextPositions.{eq_refl}
use mathlib.Core.Bool.{false≢true}
use vios_manus.Common.{
  ℕ, zero, suc, ◌+◌, ◌<◌, ◌≡◌, refl, ap, ◌∙◌, true, false, Option, none, some, String, str_eq, List,
  [], ◌∷◌, length, arith, ltb, Bool-cases, Option-cases, inl, inr,
}
use vios_manus.Registry.Lookup.{has}
use vios_manus.Registry.Topo.Texts.{str_eq_comm}
use vios_manus.Queue.{
  Redis, IsRedis, Codec, IsCodec, all_queues, keys_of, processing_key, dlq_key, default_lane, last,
  but_last,
}
use vios_manus.Queue.Keys.{distinct, keys_of-distinct}
use vios_manus.Queue.Jobs.{truthy, or_zero}
use vios_manus.Queue.Recover.{
  recover_one, recover_loop, clear_leases, count_recovered, recover_processing_jobs,
}
use vios_manus.Queue.Moves.{held, held_same, for_state-list, moved_none, moved_some}
use vios_manus.Queue.Orphans.{recover_loop-held, truthy-some}

last_none : (xs : List String) → last xs ≡ none → xs ≡ []
last_none [] e = refl
last_none (x ∷ []) e = cc
last_none (x ∷ y ∷ ys) e = let h = last_none (y ∷ ys) e in cc

length-but_last :
    (xs : List String) {t : String} → last xs ≡ some t → suc (length (but_last xs)) ≡ length xs
length-but_last [] e = cc
length-but_last (x ∷ []) e = refl
length-but_last (x ∷ y ∷ ys) e = ap suc (length-but_last (y ∷ ys) e)

has-but_last : (t : String) (xs : List String) → has t xs ≡ false → has t (but_last xs) ≡ false
unfolding has
has-but_last t [] e = refl
has-but_last t (x ∷ []) e = refl
has-but_last t (x ∷ y ∷ ys) e = ground (arith, has-but_last t (y ∷ ys), e)

-- A list without the empty text whose last entry reads as nothing is empty.
truthy_last : (xs : List String) → has "" xs ≡ false → truthy (last xs) ≡ none → xs ≡ []
unfolding has
truthy_last [] h e = refl
truthy_last (x ∷ []) h e = elim (Bool-cases (str_eq x "")) [
  | inl empty ↦ absurd (false≢true (sym h ∙ rw empty refl))
  | inr full ↦ let h' = rw full at e in cc
]
truthy_last (x ∷ y ∷ ys) h e = let rest = truthy_last (y ∷ ys) (ground (arith, h)) e in cc

first_differs :
    (x y z : String) (rest : List String)
    → distinct (x ∷ y ∷ z ∷ rest) ≡ true
    → (str_eq y x ≡ false) × (str_eq z x ≡ false)
unfolding has
first_differs x y z rest h = (ground (arith, h), ground (arith, h))

module _ (R : Redis) (J : Codec) (laws : IsRedis R) (codec : IsCodec J) (q : String)
    (is_queue : has q all_queues ≡ true) where
  pub processing_not_default : str_eq (processing_key q) (default_lane q) ≡ false
  unfolding keys_of
  processing_not_default = str_eq_comm _ _ ∙ (first_differs _ _ _ _ (keys_of-distinct q is_queue)).1

  processing_not_dlq : str_eq (processing_key q) (dlq_key q) ≡ false
  unfolding keys_of
  processing_not_dlq = str_eq_comm _ _ ∙ (first_differs _ _ _ _ (keys_of-distinct q is_queue)).0

  -- What is pushed to another list, or taken from one, leaves PROCESSING alone.
  pub push_elsewhere :
      (d x : String) (s : R.State)
      → str_eq (processing_key q) d ≡ false
      → R.list (R.lpush d x s) (processing_key q) ≡ R.list s (processing_key q)
  push_elsewhere d x s e = laws.list-lpush s d x (processing_key q) ∙ rw e refl

  removed_elsewhere :
      (x : String) (s : R.State)
      → R.list (R.lrem (default_lane q) x s) (processing_key q) ≡ R.list s (processing_key q)
  removed_elsewhere x s =
      laws.list-lrem s (default_lane q) x (processing_key q) ∙ rw processing_not_default refl

  recover_one-processing :
      (most : Option ℕ) (why : ℕ → String) (now : ℕ) (orphan : String) (s : R.State)
      → R.list (recover_one R J q most why now orphan s).0 (processing_key q)
        ≡ R.list s (processing_key q)
  unfolding recover_one
  recover_one-processing none why now orphan s = elim (Option-cases (J.loads orphan)) [
    | inl e ↦ rw (recover_one, e) refl
    | inr (job, e) ↦
        rw (recover_one, e)
          (for_state-list R J laws codec q is_queue "" (truthy job.id) _ s
            (λ k t j. laws.list-hset _ _ _ j) (processing_key q))
  ]
  recover_one-processing (some most) why now orphan s = elim (Option-cases (J.loads orphan)) [
    | inl e ↦ rw (recover_one, e) refl
    | inr (job, e) ↦ elim (Bool-cases (ltb most (or_zero job.recoveries + 1))) [
      | inl many ↦
          rw (recover_one, e, many)
            (laws.list-hincrby _ _ _ _ (processing_key q)
              ∙ push_elsewhere (dlq_key q) _ _ processing_not_dlq
              ∙ removed_elsewhere orphan s)
      | inr few ↦
          rw (recover_one, e, few)
            (push_elsewhere (default_lane q) _ _ processing_not_default
              ∙ for_state-list R J laws codec q is_queue "" (truthy job.id) _ _
                  (λ k t j. laws.list-hset _ _ _ j) (processing_key q)
              ∙ removed_elsewhere orphan s)
    ]
  ]

  pub moved_processing :
      (s : R.State) {t : String}
      → last (R.list s (processing_key q)) ≡ some t
      → R.list (R.rpoplpush (processing_key q) (default_lane q) s).0 (processing_key q)
        ≡ but_last (R.list s (processing_key q))
  moved_processing s {t} e =
      moved_some R J laws codec q is_queue "" (processing_key q) (default_lane q) s
        (processing_key q) e
      ∙ laws.list-lpush (R.rpop (processing_key q) s).0 (default_lane q) t (processing_key q)
      ∙ rw processing_not_default (
          laws.list-rpop s (processing_key q) (processing_key q)
          ∙ rw (eq_refl (processing_key q)) refl)

  recover_loop-empties :
      (fuel : ℕ) (most : Option ℕ) (why : ℕ → String) (now : ℕ) (s : R.State)
      → length (R.list s (processing_key q)) < fuel
      → has "" (R.list s (processing_key q)) ≡ false
      → R.list (recover_loop R J fuel q most why now s).0 (processing_key q) ≡ []
  unfolding recover_loop
  recover_loop-empties zero most why now s enough full = absurd (omega (arith, enough))
  recover_loop-empties (suc fuel) most why now s enough full =
      let source = processing_key q in
      let target = default_lane q in
      let same_last = laws.rpoplpush_last s source target in
      elim (Option-cases (truthy (R.rpoplpush source target s).1)) [
        | inl e ↦
            rw (recover_loop, e)
              (let empty = truthy_last (R.list s source) full (sym (ap truthy same_last) ∙ e) in
                moved_none R J laws codec q is_queue "" source target s source (ap last empty)
                ∙ empty)
        | inr (orphan, e) ↦
            rw (recover_loop, e)
              (let found = sym same_last ∙ truthy-some _ e in
                let after =
                  recover_one-processing most why now orphan (R.rpoplpush source target s).0
                  ∙ moved_processing s found in
                recover_loop-empties fuel most why now _
                  (rw after (omega (arith, enough, length-but_last (R.list s source) found)))
                  (rw after (has-but_last "" (R.list s source) full)))
      ]

  clear_leases-list :
      (now : ℕ) (raws : List String) (s : R.State) (j : String)
      → R.list (clear_leases R J now raws s) j ≡ R.list s j
  unfolding clear_leases
  clear_leases-list now [] s j = refl
  clear_leases-list now (raw ∷ rest) s j = elim (Option-cases (J.loads raw)) [
    | inl e ↦ rw (clear_leases, e) (clear_leases-list now rest s j)
    | inr (job, e) ↦ elim (Bool-cases (str_eq job.status "LEASED")) [
      | inl leased ↦
          rw (clear_leases, e, leased)
            (clear_leases-list now rest _ j
              ∙ for_state-list R J laws codec q is_queue "" (truthy job.id) _ s
                  (λ k t j. laws.list-hset _ _ _ j) j)
      | inr free ↦ rw (clear_leases, e, free) (clear_leases-list now rest s j)
    ]
  ]

  count_recovered-list :
      (n : ℕ) (s : R.State) (j : String) → R.list (count_recovered R J q n s) j ≡ R.list s j
  unfolding count_recovered
  count_recovered-list n s j = elim (Bool-cases (ltb 0 n)) [
    | inl some_back ↦ rw some_back (laws.list-hincrby s _ _ n j)
    | inr none_back ↦ rw none_back refl
  ]

  recovered-list :
      (fuel : ℕ) (most : Option ℕ) (why : ℕ → String) (now : ℕ) (s : R.State) (j : String)
      → R.list (recover_processing_jobs R J fuel q most why now s).0 j
        ≡ R.list (recover_loop R J fuel q most why now s).0 j
  unfolding recover_processing_jobs
  recovered-list fuel most why now s j =
      let (s1, n) = recover_loop R J fuel q most why now s in
      let s2 = count_recovered R J q n s1 in
      clear_leases-list now (R.list s2 (default_lane q)) s2 j ∙ count_recovered-list n s1 j

  -- On any of the five queues, where no text in PROCESSING is empty, `recover_processing_jobs`
  -- with one round more than there are texts in PROCESSING leaves PROCESSING empty, and loses no
  -- job and doubles none, of any id, with a limit of recoveries or without.
  pub recover_processing_jobs_lem :
      (most : Option ℕ) (why : ℕ → String) (now : ℕ) (s : R.State)
      → has "" (R.list s (processing_key q)) ≡ false
      → let s' =
          (recover_processing_jobs R J
            (suc (length (R.list s (processing_key q))))
            q
            most
            why
            now
            s).0 in
        (R.list s' (processing_key q) ≡ [])
        × ((i : String) → held R J laws codec q is_queue i s' ≡ held R J laws codec q is_queue i s)
  recover_processing_jobs_lem most why now s full =
      let fuel = suc (length (R.list s (processing_key q))) in
      (
        recovered-list fuel most why now s (processing_key q)
            ∙ recover_loop-empties fuel most why now s (omega arith) full,
        λ i.
            held_same R J laws codec q is_queue i (recover_loop R J fuel q most why now s).0 _
              (recovered-list fuel most why now s)
            ∙ recover_loop-held R J laws codec q is_queue i fuel most why now s,
      )
