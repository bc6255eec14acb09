-- ===== src/Process/CohortRun.antt =====
-- One cohort in vios/process/engine.py: `_run_cohort`, the loop over the videos that still have work
-- for the resident models. What it meets is an argument: the stops, the moments of its queries, what
-- other workers do to the table between two sweeps, and what meets each video. A stop that was asked
-- for is not withdrawn while the thread runs, so that the loop ends at the first one it sees. The
-- prefetch of the next source, the pauses and the log are left out.
pub mod Keys
pub mod Once
pub mod Within
pub mod Ends
use vios_manus.Common.{
  ℕ, zero, suc, ◌+◌, Bool, true, false, ◌&&◌, not, Option, none, some, String, List, [], ◌∷◌,
  select, leb, ltb, if◌then◌else◌,
}
use vios_manus.Coverage.{Conn}
use vios_manus.Coverage.Claim.{candidates}
use vios_manus.Registry.{Component}
use vios_manus.Registry.Lookup.{has}
use vios_manus.Process.{Engine}
use vios_manus.Process.Pass.{Texts}
use vios_manus.Process.OneVideo.{Meeting, process_video}

pub record Surroundings : Type 0 where
  pub stop_before : ℕ → Bool
  pub asked_at : ℕ → ℕ
  pub others : ℕ → Conn → Conn
  pub stop_at : String → Bool
  pub meeting : String → Meeting

-- How the loop over the keys ends: it goes on with the next sweep, or the cohort is over; or it
-- raises. `exhausted` is the model's own: the fuel is used up.
pub data End : Type 0 where
  next_sweep over raised exhausted : End

-- The engine, `seen` and `worked`. `visits` is the model's own: the videos for which
-- `_process_video` was called, the last one first.
pub record Progress : Type 0 where
  pub engine : Engine
  pub seen : List String
  pub worked : ℕ
  pub visits : List String

-- `self.video_limit and self.session["videos"] >= self.video_limit`
unfoldable pub at_limit : Engine → Bool
at_limit e = ltb 0 e.video_limit && leb e.video_limit e.session.videos

abbrev pub count_worked : Bool → ℕ → ℕ
count_worked b n = if b then n + 1 else n

-- What comes after a loop or a body that went through.
unfoldable pub go_on : Progress × End → (Progress → Progress × End) → Progress × End
go_on (p, next_sweep) after = after p
go_on (p, over) after = (p, over)
go_on (p, raised) after = (p, raised)
go_on (p, exhausted) after = (p, exhausted)

-- `seen.add(key)`, and the call of `_process_video`.
abbrev take_up : String → Engine → ℕ → Progress → Progress
take_up key e n p = record { engine = e; seen = key ∷ p.seen; worked = n; visits = key ∷ p.visits }

-- What follows a call of `_process_video`.
unfoldable pub visited : String → Progress → Engine × Option Bool → Progress × End
visited key p (e, some b) = (take_up key e (count_worked b p.worked) p, next_sweep)
visited key p (e, none) = (take_up key e p.worked p, raised)

-- What the others do between two sweeps.
abbrev pub meet_others : Surroundings → ℕ → Progress → Progress
meet_others s n p = record p { engine = record p.engine { cov = s.others n p.engine.cov } }

module _ (cs : List Component) (texts : Texts) (ids : List String) (s : Surroundings) where
  -- One video of a sweep.
  unfoldable pub visit : String → Progress → Progress × End
  unfolding at_limit process_video visited
  visit key p =
      if at_limit p.engine
      then (record p { seen = key ∷ p.seen }, over)
      else visited key p (process_video cs texts key ids (s.meeting key) p.engine)

  -- `for pos, key in enumerate(keys):`
  unfoldable pub sweep : List String → Progress → Progress × End
  unfolding visit go_on
  sweep [] p = (p, next_sweep)
  sweep (key ∷ keys) p = if s.stop_at key then (p, over) else go_on (visit key p) (sweep keys)

  -- The keys of a sweep, from the table as the other workers have left it.
  unfoldable pub keys_of : ℕ → Progress → List String
  unfolding candidates has
  keys_of n p =
      select (λ k. not (has k p.seen))
        (candidates p.engine.worker ids 64 (s.asked_at n) p.engine.cov)

  -- A sweep over the keys that it finds, and what follows it.
  unfoldable pub sweep_on : List String → Progress → (Progress → Progress × End) → Progress × End
  unfolding sweep go_on
  sweep_on [] q after = (q, over)
  sweep_on (k ∷ ks) q after = go_on (sweep (k ∷ ks) q) after

  -- `while not self._stopping():`
  unfoldable pub run_cohort : ℕ → ℕ → Progress → Progress × End
  unfolding sweep_on keys_of
  run_cohort zero n p = (p, exhausted)
  run_cohort (suc fuel) n p =
      let q = meet_others s n p in
      if s.stop_before n then (p, over) else sweep_on (keys_of n q) q (run_cohort fuel (suc n))
