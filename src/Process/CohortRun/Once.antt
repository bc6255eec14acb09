-- ===== src/Process/CohortRun/Once.antt =====
-- What `_run_cohort` of vios/process/engine.py keeps: each video at most once, and the limit of the
-- session.
use vios_manus.Common.{
  ℕ, zero, suc, ◌+◌, ◌≤◌, ◌≡◌, ◌≢◌, refl, Bool, Option, none, some, String, List, [], ◌∷◌, count,
  Bool-cases, inl, inr, arith,
}
use vios_manus.Coverage.Claim.{candidates}
use vios_manus.Registry.{Component}
use vios_manus.Registry.Topo.Texts.{times}
use vios_manus.Process.{Engine}
use vios_manus.Process.Pass.{Texts}
use vios_manus.Process.CohortRun.{
  Surroundings, End, next_sweep, over, raised, exhausted, Progress, at_limit, go_on, visited, visit,
  sweep, keys_of, meet_others, sweep_on, run_cohort,
}
use vios_manus.Process.CohortRun.Keys.{candidates_once, fresh_once}

-- To show a fact of what `go_on` gives.
pub go_on_elim :
    (P : Progress × End → Type 0) (r : Progress × End) (after : Progress → Progress × End)
    → (r.1 ≡ next_sweep → P (after r.0))
    → ((end : End) → r.1 ≡ end → end ≢ next_sweep → P (r.0, end))
    → P (go_on r after)
unfolding go_on
go_on_elim P (p, next_sweep) after go stay = go refl
go_on_elim P (p, over) after go stay = stay over refl (λ e. cc)
go_on_elim P (p, raised) after go stay = stay raised refl (λ e. cc)
go_on_elim P (p, exhausted) after go stay = stay exhausted refl (λ e. cc)

visited-seen :
    (key : String) (p : Progress) (r : Engine × Option Bool)
    → (visited key p r).0.seen ≡ key ∷ p.seen
unfolding visited
visited-seen key p (e, some b) = refl
visited-seen key p (e, none) = refl

module _ (cs : List Component) (texts : Texts) (ids : List String) (s : Surroundings) where
  pub visit-seen :
      (key : String) (p : Progress) → (visit cs texts ids s key p).0.seen ≡ key ∷ p.seen
  unfolding visit
  visit-seen key p = elim (Bool-cases (at_limit p.engine)) [
    | inl full ↦ rw full refl
    | inr room ↦ rw room (visited-seen key p _)
  ]

  -- No key is in the list and in `seen` twice, and every visit is in `seen`.
  IsOnce : List String → Progress → Type 0
  IsOnce keys p =
      (k : String) → (times k keys + times k p.seen ≤ 1) × (times k p.visits ≤ times k p.seen)

  visited-IsOnce :
      (key : String) (keys : List String) (p : Progress) (r : Engine × Option Bool)
      → IsOnce (key ∷ keys) p
      → IsOnce keys (visited key p r).0
  unfolding visited IsOnce count
  visited-IsOnce key keys p (e, some b) h k = ground (arith, h k)
  visited-IsOnce key keys p (e, none) h k = ground (arith, h k)

  fewer : (keys : List String) (p : Progress) → IsOnce keys p → IsOnce [] p
  unfolding IsOnce count
  fewer keys p h k = (omega (arith, (h k).0), (h k).1)

  visit-IsOnce :
      (key : String) (keys : List String) (p : Progress)
      → IsOnce (key ∷ keys) p
      → IsOnce keys (visit cs texts ids s key p).0
  unfolding visit IsOnce count
  visit-IsOnce key keys p h k = elim (Bool-cases (at_limit p.engine)) [
    | inl full ↦ rw full (ground (arith, h k))
    | inr room ↦ rw room (visited-IsOnce key keys p _ h k)
  ]

  sweep-IsOnce :
      (keys : List String) (p : Progress)
      → IsOnce keys p
      → IsOnce [] (sweep cs texts ids s keys p).0
  unfolding sweep count IsOnce
  sweep-IsOnce [] p h = h
  sweep-IsOnce (key ∷ keys) p h = elim (Bool-cases (s.stop_at key)) [
    | inl stopped ↦ rw (sweep, stopped) (λ k. fewer (key ∷ keys) p h k)
    | inr on ↦
        rw (sweep, on)
          (go_on_elim (λ r. IsOnce [] r.0) (visit cs texts ids s key p) (sweep cs texts ids s keys)
            (λ go. sweep-IsOnce keys _ (visit-IsOnce key keys p h))
            (λ end e stay. fewer keys (visit cs texts ids s key p).0 (visit-IsOnce key keys p h)))
  ]

  sweep_on-IsOnce :
      (keys : List String) (q : Progress) (after : Progress → Progress × End)
      → IsOnce keys q
      → ((p : Progress) → IsOnce [] p → IsOnce [] (after p).0)
      → IsOnce [] (sweep_on cs texts ids s keys q after).0
  unfolding sweep_on
  sweep_on-IsOnce [] q after h f = h
  sweep_on-IsOnce (x ∷ xs) q after h f =
      go_on_elim (λ r. IsOnce [] r.0) (sweep cs texts ids s (x ∷ xs) q) after
        (λ go. f _ (sweep-IsOnce (x ∷ xs) q h)) (λ end e stay. sweep-IsOnce (x ∷ xs) q h)

  keys_of-IsOnce : (n : ℕ) (p : Progress) → IsOnce [] p → IsOnce (keys_of cs texts ids s n p) p
  unfolding keys_of IsOnce count
  keys_of-IsOnce n p h k = (
    fresh_once p.seen (candidates p.engine.worker ids 64 (s.asked_at n) p.engine.cov) k
        (candidates_once p.engine.worker (s.asked_at n) p.engine.cov ids k)
        (omega (arith, (h k).0)),
    (h k).1,
  )

  run_cohort-IsOnce :
      (fuel n : ℕ) (p : Progress) → IsOnce [] p → IsOnce [] (run_cohort cs texts ids s fuel n p).0
  unfolding run_cohort IsOnce
  run_cohort-IsOnce zero n p h = h
  run_cohort-IsOnce (suc fuel) n p h = elim (Bool-cases (s.stop_before n)) [
    | inl stopped ↦ rw (run_cohort, stopped) h
    | inr on ↦
        rw (run_cohort, on)
          (let q = meet_others s n p in
            sweep_on-IsOnce (keys_of cs texts ids s n q) q _ (keys_of-IsOnce n q h)
              (λ p' k. run_cohort-IsOnce fuel (suc n) p' k))
  ]

  -- However a cohort ends, and whatever other workers do between its sweeps: from its start on it
  -- calls `_process_video` at most once for each video.
  pub run_cohort_once :
      (fuel n : ℕ) (p : Progress)
      → p.seen ≡ []
      → p.visits ≡ []
      → (k : String) → times k (run_cohort cs texts ids s fuel n p).0.visits ≤ 1
  unfolding IsOnce count
  run_cohort_once fuel n p fresh unvisited k =
      let h =
        run_cohort-IsOnce fuel n p (λ j. rw (fresh, unvisited) ((omega arith, omega arith))) k in
      omega (arith, h.0, h.1)
