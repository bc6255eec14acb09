-- ===== src/Process/OneVideo/Counted.antt =====
-- The counters of the session in vios/process/engine.py over one video.

use vios_manus.Common.{
  ℕ, ◌+◌, ◌≡◌, refl, Bool, true, false, not, Option, none, some, String, List, [], ◌∷◌, count,
  length, length-eq-count, Bool-cases, Option-cases, inl, inr, ◌⊎◌, arith, if◌then◌else◌,
}
use vios_manus.Coverage.{Conn}
use vios_manus.Coverage.Finish
use vios_manus.Coverage.Claim.{claim_for}
use vios_manus.Registry.{Component}
use vios_manus.Registry.Lookup.{by_id, has}
use vios_manus.Registry.Topo.Texts.{times}
use vios_manus.Registry.Topo.Result.{topo_sort-IsOrdered}
use vios_manus.Registry.Topo.{Sorting, order, unknown, cycle, topo_sort}
use vios_manus.Process.{Engine, Mark}
use vios_manus.Process.Pass.{Texts, Run, Result, returned, raises, count_failed, run_pass}
use vios_manus.Process.OneVideo.{
  count_video, Fetch, got, source_error, other_error, Meeting, has_video, fail_all, run_all,
  run_order, run_sorted, run_claimed, process_video, states_of,
}
use vios_manus.Process.OneVideo.Tally.{
  IsCounted, counted, IsCounted-trans, IsCounted-refl, passes_of, run_pass-IsCounted,
}

-- What a call counts: nothing is promised of the passes where it raises.
abbrev pub Counts : Bool → ℕ → ℕ → Engine → Engine → Type 0
Counts true n v e e' = IsCounted n v e e'
Counts false n v e e' = (k : ℕ) × IsCounted k 0 e e'

Counts-after :
    (b : Bool) {n : ℕ} (n' : ℕ) {e e' : Engine} (e'' : Engine)
    → IsCounted n 0 e e'
    → Counts b n' 0 e' e''
    → Counts b (n + n') 0 e e''
Counts-after true n' e'' h q = IsCounted-trans h q
Counts-after false {n} n' e'' h (k, q) = (n + k, IsCounted-trans h q)

module _ (key : String) (cs : List Component) (texts : Texts) (runs : String → Run) where
  next_pass :
      (cid : String) (rest : List String) (states : List (String × Mark)) (e : Engine) (n : ℕ)
      (res : Engine × Result)
      → IsCounted (passes_of res.1) 0 e res.0
      → ((s : List (String × Mark)) (e' : Engine)
          → let (e'', b) = run_all cs texts key runs rest s e' in Counts b n 0 e' e'')
      → let (e'', b) = elim res.1 as (λ _. Engine × Bool) [
        | returned m ↦ run_all cs texts key runs rest ((cid, m) ∷ states) res.0
        | raises ↦ (res.0, false)
      ] in
        Counts b (1 + n) 0 e e''
  next_pass cid rest states e n (e', returned m) h ih =
      Counts-after _ n _ h (ih ((cid, m) ∷ states) e')
  next_pass cid rest states e n (e', raises) h ih = (0, h)

  -- Every pass that is not given back to a stop is counted.
  run_all-Counts :
      (out : List String) (states : List (String × Mark)) (e : Engine)
      → let (e', b) = run_all cs texts key runs out states e in
        Counts b (count (λ cid. not (runs cid).stop) out) 0 e e'
  unfolding run_all count
  run_all-Counts [] states e = IsCounted-refl e
  run_all-Counts (cid ∷ rest) states e = elim (Bool-cases (runs cid).stop) [
    | inl stopped ↦
        rw (run_all, stopped)
          (Counts-after _ _ _ (counted (omega arith) (omega arith) refl refl)
            (run_all-Counts rest states (record e { cov = Finish.release key cid e.cov })))
    | inr on ↦ elim (Option-cases (by_id cs cid)) [
      | inl gone ↦ rw (run_all, on, gone) (0, IsCounted-refl e)
      | inr (comp, found) ↦
          rw (run_all, on, found)
            (next_pass cid rest states e _ (run_pass texts key comp states (runs cid) e)
              (run_pass-IsCounted texts key comp states (runs cid) e)
              (λ s e'. run_all-Counts rest s e'))
    ]
  ]

fail_all-IsCounted :
    (key why : String) (runs : String → Run) (out : List String) (e : Engine)
    → IsCounted 0 0 e (fail_all key why runs out e)
unfolding fail_all
fail_all-IsCounted key why runs [] e = IsCounted-refl e
fail_all-IsCounted key why runs (cid ∷ rest) e =
    let h =
      fail_all-IsCounted key why runs rest
        (record e { cov = (Finish.fail key cid why (runs cid).at e.cov).0 }) in
    counted (omega (arith, h.more)) (omega (arith, h.videos)) h.same_limit h.same_worker

-- The passes that are not given back to a stop: all of them, where the fetch fails.
abbrev pub tried : Fetch → (String → Run) → String → Bool
tried got runs cid = not (runs cid).stop
tried _ runs cid = true

-- Each of the components that the claim took is counted once, but for those given back to a stop,
-- and so many videos.
abbrev pub CountsAll : Fetch → (String → Run) → List String → ℕ → Engine → Engine → Type 0
CountsAll f runs given v e e' =
    (out : List String) × ((i : String) → times i out ≡ (if has i given then 1 else 0))
    × IsCounted (count (tried f runs) out) v e e'

-- What a video counts of the components that its claim took. A call that raises has been left by a
-- pass and counts no video, or by publishing or the eviction after everything was counted.
abbrev pub VideoCounts :
    Option Bool → Fetch → (String → Run) → List String → Engine → Engine → Type 0
VideoCounts none f runs given e e' = ((k : ℕ) × IsCounted k 0 e e') ⊎ CountsAll f runs given 1 e e'
VideoCounts (some b) f runs given e e' = CountsAll f runs given (if b then 1 else 0) e e'

module _ (runs : String → Run) (given out : List String)
    (covers : (i : String) → times i out ≡ (if has i given then 1 else 0)) (e : Engine) where
  one_more :
      (e' : Engine)
      → IsCounted (count (tried got runs) out) 0 e e'
      → CountsAll got runs given 1 e (count_video e')
  one_more e' h = (
    out,
    covers,
    counted (omega (arith, h.more)) (omega (arith, h.videos)) h.same_limit h.same_worker,
  )

  count_through :
      (tidied : Bool) (r : Engine × Bool)
      → Counts r.1 (count (tried got runs) out) 0 e r.0
      → let (e', res) = elim r.1 as (λ _. Engine × Option Bool) [
        | true ↦ (count_video r.0, if tidied then some true else none)
        | false ↦ (r.0, none)
      ] in
        VideoCounts res got runs given e e'
  count_through true (e', true) h = one_more e' h
  count_through false (e', true) h = inr (one_more e' h)
  count_through tidied (e', false) h = inl h

  count_failing :
      (e' : Engine)
      → IsCounted 0 0 e e'
      → IsCounted (count {A = String} (λ _. true) out) 0 e (count_failed (length out) e')
  count_failing e' h =
      counted (omega (arith, h.more, length-eq-count out)) (omega (arith, h.videos)) h.same_limit
        h.same_worker

module _ (key : String) (cs : List Component) (texts : Texts) (m : Meeting) where
  run_sorted-VideoCounts :
      (given : List String) (s : Sorting) (e : Engine)
      → topo_sort cs given ≡ s
      → let (e', res) = run_sorted cs texts key m s e in VideoCounts res m.fetch m.runs given e e'
  unfolding run_sorted run_order
  run_sorted-VideoCounts given (unknown ids) e h = inl (0, IsCounted-refl e)
  run_sorted-VideoCounts given (cycle ids) e h = inl (0, IsCounted-refl e)
  run_sorted-VideoCounts given (order out) e h = ended m.fetch
    where
      covers : (i : String) → times i out ≡ (if has i given then 1 else 0)
      covers = (topo_sort-IsOrdered cs given h).0

      ended :
          (f : Fetch)
          → let (e', res) = run_sorted cs texts key (record m { fetch = f }) (order out) e in
            VideoCounts res f m.runs given e e'
      ended got =
          count_through m.runs given out covers e m.tidied _
            (run_all-Counts key cs texts m.runs out (states_of key e.cov) e)
      ended (source_error why) = (
        out,
        covers,
        count_failing m.runs given out covers e _ (fail_all-IsCounted key why m.runs out e),
      )
      ended (other_error why) = (
        out,
        covers,
        count_failing m.runs given out covers e _ (fail_all-IsCounted key why m.runs out e),
      )

  -- The table that the claim leaves is not counted.
  from_claim :
      (c : Conn) (given : List String) (e e' : Engine) (res : Option Bool)
      → VideoCounts res m.fetch m.runs given (record e { cov = c }) e'
      → VideoCounts res m.fetch m.runs given e e'
  from_claim c given e e' none (inl (k, h)) =
      inl (k, counted h.more h.videos h.same_limit h.same_worker)
  from_claim c given e e' none (inr (out, covers, h)) =
      inr (out, covers, counted h.more h.videos h.same_limit h.same_worker)
  from_claim c given e e' (some b) (out, covers, h) =
      (out, covers, counted h.more h.videos h.same_limit h.same_worker)

  run_claimed-VideoCounts :
      (e : Engine) (r : Conn × List String)
      → let (e', res) = run_claimed cs texts key m e r in VideoCounts res m.fetch m.runs r.1 e e'
  unfolding run_claimed has count
  run_claimed-VideoCounts e (c, []) =
      ([], (λ i. refl), counted (omega arith) (omega arith) refl refl)
  run_claimed-VideoCounts e (c, x ∷ xs) =
      from_claim c (x ∷ xs) e _ _
        (run_sorted-VideoCounts (x ∷ xs) (topo_sort cs (x ∷ xs)) (record e { cov = c }) refl)

  -- A call of `_process_video` for a video that the store does not have changes nothing. In any
  -- other call that comes back, each component that the claim took is counted once in the
  -- session, as passed, skipped, failed, deferred or for another machine, unless it was given
  -- back to a stop, and a video is counted where the call returns true. A call that raises counts
  -- no video, or it counts all of this and a video: it has raised in publishing or the eviction.
  pub process_video-VideoCounts :
      (ids : List String) (e : Engine)
      → let (e', res) = process_video cs texts key ids m e in
        let (c, given) = claim_for e.worker key ids m.claimed_at m.token e.cov in
        ((has_video key e.cov ≡ false) × (e' ≡ e) × (res ≡ some false))
        ⊎ ((has_video key e.cov ≡ true) × VideoCounts res m.fetch m.runs given e e')
  unfolding process_video
  process_video-VideoCounts ids e = elim (Bool-cases (has_video key e.cov)) [
    | inl here ↦
        rw (process_video, here)
          (inr (
            refl,
            run_claimed-VideoCounts e (claim_for e.worker key ids m.claimed_at m.token e.cov),
          ))
    | inr gone ↦ rw (process_video, gone) (inl (refl, refl, refl))
  ]
