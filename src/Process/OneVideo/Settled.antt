-- ===== src/Process/OneVideo/Settled.antt =====
-- What `_process_video` of vios/process/engine.py does to the coverage table as a whole.

use mathlib.Core.Bool.{false≢true}
use mathlib.Core.List.{flatten}
use mathlib.Core.Path.{subst}
use vios_manus.Common.{
  ◌≡◌, refl, ◌∙◌, Bool, true, false, Option, some, String, List, [], ◌∷◌, All, All-imp,
  All-intro_elem, count, is_text, arith, Bool-cases, inl, inr, ◌⊎◌, if◌then◌else◌, select, sort,
  count_congr, count_none,
}
use vios_manus.Coverage.{Row, Conn}
use vios_manus.Coverage.Claim.{claim_for}
use vios_manus.Coverage.History
use vios_manus.Coverage.History.{Call, perform, run, run-IsSoundTable}
use vios_manus.Coverage.Table.{IsSoundTable}
use vios_manus.Registry.{Component}
use vios_manus.Registry.Lookup.{has}
use vios_manus.Registry.Topo.{order, topo_sort}
use vios_manus.Registry.Topo.Texts.{times-has}
use vios_manus.Registry.Topo.Result.{topo_sort-IsOrdered}
use vios_manus.Process.{Engine}
use vios_manus.Process.Pass.{Texts}
use vios_manus.Process.OneVideo.{Meeting, has_video, run_claimed, process_video}
use vios_manus.Process.OneVideo.Freed.{HeldBy-none, SettlesAll-HeldBy, claim_for-HeldBy}
use vios_manus.Process.OneVideo.Ended.{Ended, SettlesAll-Ended}
use vios_manus.Process.OneVideo.Calls.{SettlesAll, came_back, order_of, Through, run_sorted-Through}

-- The call of `claim_for` that the video makes, and the components that it returns.
abbrev pub claiming : String → List String → Meeting → Engine → Call
claiming key ids m e = History.claim_for e.worker key ids m.claimed_at m.token

abbrev pub took : String → List String → Meeting → Engine → List String
took key ids m e = (claim_for e.worker key ids m.claimed_at m.token e.cov).1

-- What the whole call takes: nothing of a video that the store does not have.
abbrev pub taken : String → List String → Meeting → Engine → List String
taken key ids m e = if has_video key e.cov then took key ids m e else []

-- One claim, and then the calls of the passes that it took, in the order of `topo_sort`. A call of
-- `_process_video` that comes back has an order and has gone through all of it.
abbrev pub IsOneClaim :
    List Component → String → List String → Meeting → Engine → Option Bool → List Call → Type 0
IsOneClaim cs key ids m e res calls =
    let sorting = topo_sort cs (took key ids m e) in
    (passes : List (List Call)) × (calls ≡ claiming key ids m e ∷ flatten passes)
    × SettlesAll e.worker key (came_back res) (order_of sorting) passes
    × (came_back res ≡ true → sorting ≡ order (order_of sorting))

-- What the claim took is what the sort gives.
covered :
    (cs : List Component) (given : List String) (i : String)
    → topo_sort cs given ≡ order (order_of (topo_sort cs given))
    → has i given ≡ true
    → has i (order_of (topo_sort cs given)) ≡ true
covered cs given i sorted t =
    times-has i (order_of (topo_sort cs given))
      (ground (arith, (topo_sort-IsOrdered cs given sorted).0 i, t))

none_has : (i : String) {P : Type 0} → has i [] ≡ true → P
unfolding has
none_has i t = absurd (false≢true t)

module _ (cs : List Component) (texts : Texts) (key : String) (ids : List String) (m : Meeting)
    (e : Engine) where
  -- What the call gives back, and the table that it leaves.
  abbrev pub answer : Engine × Option Bool
  answer = process_video cs texts key ids m e

  run_claimed-Through :
      (c : Conn) (took : List String)
      → let (e', res) = run_claimed cs texts key m e (c, took) in
        let sorting = topo_sort cs took in
        (came_back res ≡ true → sorting ≡ order (order_of sorting))
        × Through e.worker key (came_back res) (order_of sorting) c e'.cov
  unfolding run_claimed run flatten topo_sort select sort
  run_claimed-Through c [] = ((λ _. refl), ([], tt, refl))
  run_claimed-Through c (x ∷ xs) =
      run_sorted-Through e.worker key cs texts m (topo_sort cs (x ∷ xs)) (record e { cov = c }) refl

  -- Whatever the fetch and the passes meet, a call of `_process_video` is a sequence of calls on the
  -- coverage table. For a video that the store does not have it is no call at all. For any other it
  -- is one `claim_for`, and then, for the components that it took one after the other in the order
  -- of `topo_sort`, the renewals of the lease by the heartbeats of the runner and one call that
  -- settles the row: for all of them where the call comes back, and for the first few, or all, where
  -- it raises, which are none where there is no order.
  pub process_video-run :
      (calls : List Call) × (answer.0.cov ≡ run calls e.cov)
      × (((has_video key e.cov ≡ false) × (calls ≡ []))
          ⊎ ((has_video key e.cov ≡ true) × IsOneClaim cs key ids m e answer.1 calls))
  unfolding process_video run perform
  process_video-run = elim (Bool-cases (has_video key e.cov)) [
    | inl here ↦
        rw (process_video, here)
          (let (c, t) = claim_for e.worker key ids m.claimed_at m.token e.cov in
            let (sorted, through) = run_claimed-Through c t in
            let (passes, settles, ends) = through in
            (
              claiming key ids m e ∷ flatten passes,
              ends,
              inr (refl, (passes, refl, settles, sorted)),
            ))
    | inr gone ↦ rw (process_video, gone) ([], refl, inl (refl, refl))
  ]

  -- A call of `_process_video` keeps the invariant of the coverage table, however it ends.
  pub process_video-IsSoundTable : IsSoundTable e.cov.rows → IsSoundTable answer.0.cov.rows
  process_video-IsSoundTable h =
      let (calls, same, shape) = process_video-run in rw same (run-IsSoundTable calls e.cov h)

  -- No row has the token, and no row of the video among what was taken is running.
  abbrev pub AllSettled : List Row → Type 0
  AllSettled rows =
      (count (λ r. is_text r.token m.token) rows ≡ 0) × All (Ended key (taken key ids m e)) rows

  one_claim_settles :
      (calls : List Call) (b : Bool)
      → has_video key e.cov ≡ true
      → IsSoundTable e.cov.rows
      → All (λ r. is_text r.token m.token ≡ false) e.cov.rows
      → IsOneClaim cs key ids m e (some b) calls
      → AllSettled (run calls e.cov).rows
  unfolding run perform
  one_claim_settles calls b here h new (passes, made, settles, sorted) =
      let given = took key ids m e in
      let out = order_of (topo_sort cs given) in
      let covers : (i : String) → has i given ≡ true → has i out ≡ true =
        λ i t. covered cs given i (sorted refl) t in
      rw (made, here)
        (
          HeldBy-none key m.token _ (
              SettlesAll-HeldBy key m.token e.worker out passes _ settles
                (claim_for-HeldBy key m.token e.worker ids m.claimed_at e.cov out h new covers)),
          All-imp _ (Ended key given) (λ r ends k t. (ends k).0 (covers r.component t)) _
              (SettlesAll-Ended key e.worker out [] passes _ settles
                (All-intro_elem (Ended key []) _ (λ r m k t. none_has r.component t))),
        )

  -- In a sound table where no row carries the token of the claim yet, a call of `_process_video` that
  -- comes back leaves no row under the lease of that claim, and no row of what it took is running,
  -- whatever the fetch and the passes met: each is done, failed, skipped or queued again.
  pub process_video_settles :
      (b : Bool)
      → answer.1 ≡ some b
      → IsSoundTable e.cov.rows
      → All (λ r. is_text r.token m.token ≡ false) e.cov.rows
      → AllSettled answer.0.cov.rows
  unfolding run
  process_video_settles b back h new =
      let (calls, same, shape) = process_video-run in
      rw same (elim shape [
        | inl (gone, none_made) ↦ rw none_made (
          count_congr _ (λ _. false) e.cov.rows new ∙ count_none e.cov.rows,
          rw gone (All-intro_elem (Ended key []) e.cov.rows (λ r m k t. none_has r.component t)),
        )
        | inr (here, one) ↦
            one_claim_settles calls b here h new
              (subst (λ res. IsOneClaim cs key ids m e res calls) back one)
      ])
