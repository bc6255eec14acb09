-- ===== src/Process/OneVideo.antt =====
-- One video in vios/process/engine.py: `_process_video`, which claims the passes of the cohort,
-- fetches the source and runs the passes one after the other. The store's table of videos stands in
-- the same file as the coverage table. What comes from outside is an argument: the moment and the
-- token of the claim, how the fetch ends, what meets each pass, and whether publishing and the
-- eviction of the cache come through. The metrics are left out.
pub mod Claimed
pub mod Calls
pub mod Settled
pub mod Freed
pub mod Ended
pub mod Tally
pub mod Counted
pub mod Among
use vios_manus.Common.{
  ℕ, ◌+◌, Bool, true, false, Option, none, some, String, str_eq, List, [], ◌∷◌, map, any, length,
  if◌then◌else◌,
}
use vios_manus.Coverage.{Row, Conn}
use vios_manus.Coverage.Claim.{claim_for}
use vios_manus.Coverage.Finish
use vios_manus.Coverage.Errors.{for_video}
use vios_manus.Registry.{Component}
use vios_manus.Registry.Lookup.{by_id}
use vios_manus.Registry.Topo.{Sorting, order, unknown, cycle, topo_sort}
use vios_manus.Process.{Engine, Mark, of_row}
use vios_manus.Process.Pass.{Texts, Run, Result, returned, raises, run_pass, count_failed}

-- How `_ensure_lane_source` ends: with the source, or with the text of one of its exceptions.
pub data Fetch : Type 0 where
  got : Fetch
  source_error other_error : String → Fetch

-- What one call meets; the last is whether `_publish` and `intake.evict` come through.
pub record Meeting : Type 0 where
  pub claimed_at : ℕ
  pub token : String
  pub fetch : Fetch
  pub runs : String → Run
  pub tidied : Bool

abbrev pub count_video : Engine → Engine
count_video e = record e { session = record e.session { videos = e.session.videos + 1 } }

-- `store.video(key) is not None`
unfoldable pub has_video : String → Conn → Bool
has_video key c = any (λ v. str_eq v.video_key key) c.videos

-- `for cid in order: cov.fail(key, cid, …)`
unfoldable pub fail_all : String → String → (String → Run) → List String → Engine → Engine
fail_all key why runs [] e = e
fail_all key why runs (cid ∷ rest) e =
    fail_all key why runs rest (record e { cov = (Finish.fail key cid why (runs cid).at e.cov).0 })

-- `states` at the start
unfoldable pub states_of : String → Conn → List (String × Mark)
unfolding for_video
states_of key c = map (λ (r : Row). (r.component, of_row r.state)) (for_video key c)

module _ (cs : List Component) (texts : Texts) where
  -- `for cid in order:`; false when an exception leaves it.
  unfoldable pub run_all :
      String → (String → Run) → List String → List (String × Mark) → Engine → Engine × Bool
  unfolding run_pass by_id
  run_all key runs [] states e = (e, true)
  run_all key runs (cid ∷ rest) states e = elim (runs cid).stop [
    | true ↦ run_all key runs rest states (record e { cov = Finish.release key cid e.cov })
    | false ↦ elim (by_id cs cid) [
      | none ↦ (e, false)
      | some comp ↦
          let (e', result) = run_pass texts key comp states (runs cid) e in
          elim result [
            | returned m ↦ run_all key runs rest ((cid, m) ∷ states) e'
            | raises ↦ (e', false)
          ]
    ]
  ]

  -- The passes of a video that was fetched. The video is counted before publishing and the eviction.
  unfoldable pub run_order : String → Meeting → List String → Engine → Engine × Option Bool
  unfolding run_all states_of
  run_order key m out e =
      let (e', through) = run_all key m.runs out (states_of key e.cov) e in
      elim through [
        | true ↦ (count_video e', if m.tidied then some true else none)
        | false ↦ (e', none)
      ]

  -- What follows the claim and the sort of its components.
  unfoldable pub run_sorted : String → Meeting → Sorting → Engine → Engine × Option Bool
  unfolding fail_all run_order
  run_sorted key m (unknown ids) e = (e, none)
  run_sorted key m (cycle ids) e = (e, none)
  run_sorted key m (order out) e = elim m.fetch [
    | source_error why ↦ (count_failed (length out) (fail_all key why m.runs out e), some false)
    | other_error why ↦ (count_failed (length out) (fail_all key why m.runs out e), some false)
    | got ↦ run_order key m out e
  ]

  -- What follows the claim, with the table that it leaves and the components that it took.
  unfoldable pub run_claimed : String → Meeting → Engine → Conn × List String → Engine × Option Bool
  unfolding topo_sort run_sorted
  run_claimed key m e (c, []) = (record e { cov = c }, some false)
  run_claimed key m e (c, x ∷ xs) = run_sorted key m (topo_sort cs (x ∷ xs)) (record e { cov = c })

  -- `_process_video`: whether the video was worked on; `none` when it raises.
  unfoldable pub process_video : String → List String → Meeting → Engine → Engine × Option Bool
  unfolding has_video claim_for run_claimed
  process_video key ids m e = elim (has_video key e.cov) [
    | false ↦ (e, some false)
    | true ↦ run_claimed key m e (claim_for e.worker key ids m.claimed_at m.token e.cov)
  ]
