-- ===== src/Process/CohortRun/Ends.antt =====
-- The loop of `_run_cohort` of vios/process/engine.py ends.
use vios_manus.Common.{
  ℕ, zero, suc, ◌≤◌, ◌<◌, ◌≡◌, ◌≢◌, ◌∙◌, Bool, true, false, ◌&&◌, not, Option, none, some, String,
  str_eq, List, [], ◌∷◌, count, length, count-not, Bool-cases, inl, inr, arith, eq_iff,
}
use text.Mathlib.TextPositions.{eq_refl}
use vios_manus.Coverage.{Conn}
use vios_manus.Coverage.Claim.{candidates}
use vios_manus.Registry.{Component}
use vios_manus.Registry.Lookup.{has}
use vios_manus.Registry.Topo.Texts.{has-select}
use vios_manus.Process.{Engine}
use vios_manus.Process.Pass.{Texts}
use vios_manus.Process.OneVideo.Among.{IsAmong, process_video-IsAmong}
use vios_manus.Process.CohortRun.{
  Surroundings, End, next_sweep, exhausted, Progress, at_limit, visited, visit, sweep, keys_of,
  meet_others, sweep_on, run_cohort,
}
use vios_manus.Process.CohortRun.Keys.{candidates_among}
use vios_manus.Process.CohortRun.Once.{go_on_elim, visit-seen}
use vios_manus.Process.CohortRun.Within.{sweep-keeps, visited-engine}

-- The videos that the loop has not taken up.
left : List String → List String → ℕ
left universe seen = count (λ k. not (has k seen)) universe

left_le :
    (universe seen seen' : List String)
    → ((j : String) → has j seen ≡ true → has j seen' ≡ true)
    → left universe seen' ≤ left universe seen
unfolding left count
left_le [] seen seen' grows = omega arith
left_le (u ∷ us) seen seen' grows = ground (arith, grows u, left_le us seen seen' grows)

-- A sweep that takes up a new video leaves fewer.
left_lt :
    (universe seen seen' : List String) (k : String)
    → ((j : String) → has j seen ≡ true → has j seen' ≡ true)
    → has k universe ≡ true
    → has k seen ≡ false
    → has k seen' ≡ true
    → left universe seen' < left universe seen
unfolding left count has
left_lt [] seen seen' k grows known new taken = cc
left_lt (u ∷ us) seen seen' k grows known new taken = elim (Bool-cases (str_eq u k)) [
  | inl same ↦ rw ((eq_iff u k).0 same) (ground (arith, new, taken, left_le us seen seen' grows))
  | inr differs ↦ ground (arith, grows u, left_lt us seen seen' k grows, differs)
]

and_not : (x a b : Bool) → x ≡ (a && not b) → x ≡ true → (a ≡ true) × (b ≡ false)
and_not x a b e h = ground (arith, e, h)

visited_ends :
    (key : String) (p : Progress) (r : Engine × Option Bool) → (visited key p r).1 ≢ exhausted
unfolding visited
visited_ends key p (e, some b) same = cc
visited_ends key p (e, none) same = cc

module _ (cs : List Component) (texts : Texts) (ids : List String) (s : Surroundings)
    (universe : List String) where
  visit-IsAmong :
      (key : String) (p : Progress)
      → IsAmong universe p.engine.cov
      → IsAmong universe (visit cs texts ids s key p).0.engine.cov
  unfolding visit
  visit-IsAmong key p h = elim (Bool-cases (at_limit p.engine)) [
    | inl full ↦ rw full h
    | inr room ↦ rw room (
        rw (visited-engine key p _)
          (process_video-IsAmong universe cs texts key ids (s.meeting key) p.engine h))
  ]

  visit_grows :
      (j key : String) (p : Progress)
      → has j p.seen ≡ true
      → has j (visit cs texts ids s key p).0.seen ≡ true
  unfolding has
  visit_grows j key p h = rw (visit-seen cs texts ids s key p) (ground (arith, h))

  sweep_grows :
      (j : String) (keys : List String) (p : Progress)
      → has j p.seen ≡ true
      → has j (sweep cs texts ids s keys p).0.seen ≡ true
  sweep_grows j keys p h =
      sweep-keeps cs texts ids s (λ q. has j q.seen ≡ true) (λ n q k. k) (visit_grows j) keys p h

  -- A sweep that goes through has taken up its first video.
  sweep_takes :
      (key : String) (keys : List String) (p : Progress)
      → (sweep cs texts ids s (key ∷ keys) p).1 ≡ next_sweep
      → has key (sweep cs texts ids s (key ∷ keys) p).0.seen ≡ true
  unfolding sweep has
  sweep_takes key keys p = elim (Bool-cases (s.stop_at key)) [
    | inl stopped ↦ rw (sweep, stopped) (λ e. cc)
    | inr on ↦
        rw (sweep, on)
          (go_on_elim (λ r. r.1 ≡ next_sweep → has key r.0.seen ≡ true) (visit cs texts ids s key p)
            (sweep cs texts ids s keys)
            (λ go _.
              sweep_grows key keys _
                (rw (visit-seen cs texts ids s key p) (ground (arith, eq_refl key))))
            (λ end e stay same. absurd (stay same)))
  ]

  visit_ends : (key : String) (p : Progress) → (visit cs texts ids s key p).1 ≢ exhausted
  unfolding visit
  visit_ends key p = elim (Bool-cases (at_limit p.engine)) [
    | inl full ↦ rw full (λ e. cc)
    | inr room ↦ rw room (visited_ends key p _)
  ]

  sweep_ends : (keys : List String) (p : Progress) → (sweep cs texts ids s keys p).1 ≢ exhausted
  unfolding sweep
  sweep_ends [] p = λ e. cc
  sweep_ends (key ∷ keys) p = elim (Bool-cases (s.stop_at key)) [
    | inl stopped ↦ rw (sweep, stopped) (λ e. cc)
    | inr on ↦
        rw (sweep, on)
          (go_on_elim (λ r. r.1 ≢ exhausted) (visit cs texts ids s key p)
            (sweep cs texts ids s keys) (λ go. sweep_ends keys _)
            (λ end e stay same. visit_ends key p (e ∙ same)))
  ]

  module _
      (others_among : (n : ℕ) (c : Conn)
        → IsAmong universe c
        → IsAmong universe (s.others n c)) where
    -- The keys of a sweep are videos of the table that the loop has not taken up.
    keys_of_new :
        (n : ℕ) (p : Progress) (k : String)
        → IsAmong universe p.engine.cov
        → has k (keys_of cs texts ids s n p) ≡ true
        → (has k universe ≡ true) × (has k p.seen ≡ false)
    unfolding keys_of
    keys_of_new n p k h e =
        let given = candidates p.engine.worker ids 64 (s.asked_at n) p.engine.cov in
        let both = and_not _ _ _ (has-select k (λ j. not (has j p.seen)) given) e in
        (
          candidates_among p.engine.worker (s.asked_at n) p.engine.cov ids universe k h both.0,
          both.1,
        )

    Ends : ℕ → (Progress → Progress × End) → Type 0
    Ends fuel f =
        (p : Progress)
        → IsAmong universe p.engine.cov
        → left universe p.seen < fuel
        → (f p).1 ≢ exhausted

    sweep_on-Ends :
        (fuel : ℕ) (keys : List String) (q : Progress) (after : Progress → Progress × End)
        → Ends fuel after
        → IsAmong universe q.engine.cov
        → ((k : String) → has k keys ≡ true → (has k universe ≡ true) × (has k q.seen ≡ false))
        → left universe q.seen < suc fuel
        → (sweep_on cs texts ids s keys q after).1 ≢ exhausted
    unfolding sweep_on Ends has
    sweep_on-Ends fuel [] q after h among new enough = λ e. cc
    sweep_on-Ends fuel (x ∷ xs) q after h among new enough =
        let (known, unseen) = new x (ground (arith, eq_refl x)) in
        let q' = (sweep cs texts ids s (x ∷ xs) q).0 in
        go_on_elim (λ r. r.1 ≢ exhausted) (sweep cs texts ids s (x ∷ xs) q) after
          (λ go.
            h q'
              (sweep-keeps cs texts ids s (λ p. IsAmong universe p.engine.cov)
                (λ n p k. others_among n p.engine.cov k) visit-IsAmong (x ∷ xs) q among)
              (omega (
                arith,
                enough,
                left_lt universe q.seen q'.seen x (λ j e. sweep_grows j (x ∷ xs) q e) known unseen
                    (sweep_takes x xs q go),
              )))
          (λ end e stay same. sweep_ends (x ∷ xs) q (e ∙ same))

    run_cohort-Ends : (fuel n : ℕ) → Ends fuel (run_cohort cs texts ids s fuel n)
    unfolding run_cohort Ends
    run_cohort-Ends zero n p among enough = absurd (omega (arith, enough))
    run_cohort-Ends (suc fuel) n p among enough = elim (Bool-cases (s.stop_before n)) [
      | inl stopped ↦ rw (run_cohort, stopped) (λ e. cc)
      | inr on ↦
          rw (run_cohort, on)
            (let q = meet_others s n p in
              sweep_on-Ends fuel (keys_of cs texts ids s n q) q _ (run_cohort-Ends fuel (suc n))
                (others_among n p.engine.cov among)
                (λ k e. keys_of_new n q k (others_among n p.engine.cov among) e) enough)
    ]

    left_all : (seen : List String) → left universe seen ≤ length universe
    unfolding left
    left_all seen = ground (arith, count-not (λ k. not (has k seen)) universe)

    -- Where every row is of one of the given videos, and other workers keep it so, a cohort ends
    -- after at most one sweep more than there are such videos: it is over, or it raises.
    pub run_cohort_ends :
        (n : ℕ) (p : Progress)
        → IsAmong universe p.engine.cov
        → (run_cohort cs texts ids s (suc (length universe)) n p).1 ≢ exhausted
    unfolding Ends
    run_cohort_ends n p among =
        run_cohort-Ends (suc (length universe)) n p among (omega (arith, left_all p.seen))
