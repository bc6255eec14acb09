-- ===== src/Process/CohortRun/Within.antt =====
-- Facts that the loop of `_run_cohort` of vios/process/engine.py keeps: the limit of the session, and
-- the videos of the table.
use vios_manus.Common.{
  ℕ, zero, suc, ◌≤◌, ◌<◌, ◌≡◌, refl, Bool, false, Option, none, some, String, List, [], ◌∷◌,
  Bool-cases, inl, inr, arith,
}
use vios_manus.Registry.{Component}
use vios_manus.Process.{Engine}
use vios_manus.Process.Pass.{Texts}
use vios_manus.Process.OneVideo.{Fetch}
use vios_manus.Process.Pass.{Run}
use vios_manus.Process.OneVideo.Counted.{VideoCounts, process_video-VideoCounts}
use vios_manus.Process.CohortRun.{
  Surroundings, End, Progress, at_limit, visited, visit, sweep, keys_of, meet_others, sweep_on,
  run_cohort,
}
use vios_manus.Process.CohortRun.Once.{go_on_elim}

-- The session has worked on no more videos than its limit.
abbrev pub IsWithin : Engine → Type 0
IsWithin e = (0 < e.video_limit) × (e.session.videos ≤ e.video_limit)

counted-IsWithin :
    (e e' : Engine) (res : Option Bool) (f : Fetch) (runs : String → Run) (given : List String)
    → IsWithin e
    → at_limit e ≡ false
    → VideoCounts res f runs given e e'
    → IsWithin e'
unfolding at_limit
counted-IsWithin e e' none f runs given (a, b) room (inl (k, h)) =
    ground (arith, h.videos, h.same_limit)
counted-IsWithin e e' none f runs given (a, b) room (inr (out, covers, h)) =
    ground (arith, h.videos, h.same_limit)
counted-IsWithin e e' (some v) f runs given (a, b) room (out, covers, h) =
    ground (arith, h.videos, h.same_limit)

pub visited-engine :
    (key : String) (p : Progress) (r : Engine × Option Bool) → (visited key p r).0.engine ≡ r.0
unfolding visited
visited-engine key p (e, some b) = refl
visited-engine key p (e, none) = refl

module _ (cs : List Component) (texts : Texts) (ids : List String) (s : Surroundings) where
  -- A fact that others and every video keep is kept by the loop.
  module _ (P : Progress → Type 0)
      (others_keep : (n : ℕ) (p : Progress) → P p → P (meet_others s n p))
      (visits_keep : (key : String) (p : Progress) → P p → P (visit cs texts ids s key p).0) where
    pub sweep-keeps : (keys : List String) (p : Progress) → P p → P (sweep cs texts ids s keys p).0
    unfolding sweep
    sweep-keeps [] p h = h
    sweep-keeps (key ∷ keys) p h = elim (Bool-cases (s.stop_at key)) [
      | inl stopped ↦ rw (sweep, stopped) h
      | inr on ↦
          rw (sweep, on)
            (go_on_elim (λ r. P r.0) (visit cs texts ids s key p) (sweep cs texts ids s keys)
              (λ go. sweep-keeps keys _ (visits_keep key p h)) (λ end e stay. visits_keep key p h))
    ]

    sweep_on-keeps :
        (keys : List String) (q : Progress) (after : Progress → Progress × End)
        → P q
        → ((p : Progress) → P p → P (after p).0)
        → P (sweep_on cs texts ids s keys q after).0
    unfolding sweep_on
    sweep_on-keeps [] q after h k = h
    sweep_on-keeps (x ∷ xs) q after h k =
        go_on_elim (λ r. P r.0) (sweep cs texts ids s (x ∷ xs) q) after
          (λ go. k _ (sweep-keeps (x ∷ xs) q h)) (λ end e stay. sweep-keeps (x ∷ xs) q h)

    pub run_cohort-keeps :
        (fuel n : ℕ) (p : Progress) → P p → P (run_cohort cs texts ids s fuel n p).0
    unfolding run_cohort
    run_cohort-keeps zero n p h = h
    run_cohort-keeps (suc fuel) n p h = elim (Bool-cases (s.stop_before n)) [
      | inl stopped ↦ rw (run_cohort, stopped) h
      | inr on ↦
          rw (run_cohort, on)
            (sweep_on-keeps (keys_of cs texts ids s n (meet_others s n p)) _ _ (others_keep n p h)
              (λ q k. run_cohort-keeps fuel (suc n) q k))
    ]

  visit-IsWithin :
      (key : String) (p : Progress)
      → IsWithin p.engine
      → IsWithin (visit cs texts ids s key p).0.engine
  unfolding visit
  visit-IsWithin key p h = elim (Bool-cases (at_limit p.engine)) [
    | inl full ↦ rw full h
    | inr room ↦ rw room (
        rw (visited-engine key p _)
          (elim (process_video-VideoCounts key cs texts (s.meeting key) ids p.engine) [
            | inl (gone, same, back) ↦ rw same h
            | inr (here, counts) ↦ counted-IsWithin p.engine _ _ _ _ _ h room counts
          ]))
  ]

  -- With a limit of videos for the session that it has not gone past, a cohort does not go past
  -- it either, however it ends.
  pub run_cohort-IsWithin :
      (fuel n : ℕ) (p : Progress)
      → IsWithin p.engine
      → IsWithin (run_cohort cs texts ids s fuel n p).0.engine
  run_cohort-IsWithin fuel n p h =
      run_cohort-keeps (λ q. IsWithin q.engine) (λ _ _ q. q) visit-IsWithin fuel n p h
