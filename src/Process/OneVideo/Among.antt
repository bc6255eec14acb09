-- ===== src/Process/OneVideo/Among.antt =====
-- A video of vios/process/engine.py leaves the videos of the coverage table as they are.

use vios_manus.Common.{ℕ, ◌≡◌, Bool, true, false, Option, String, List, [], ◌∷◌, All, inl, inr}
use mathlib.Core.List.{flatten}
use vios_manus.Sql.{update-All}
use vios_manus.Coverage.{Conn, Worker}
use vios_manus.Coverage.Claim
use vios_manus.Coverage.Claim.{lease}
use vios_manus.Coverage.Finish
use vios_manus.Coverage.Finish.{renew_row, release_row, done_row, fail_row, defer_row, skip_row}
use vios_manus.Coverage.History.{Call, perform, run}
use vios_manus.Registry.{Component}
use vios_manus.Registry.Lookup.{has}
use vios_manus.Process.{Engine}
use vios_manus.Process.Pass.{Texts}
use vios_manus.Process.OneVideo.{Meeting, process_video}
use vios_manus.Process.OneVideo.Claimed.{
  Settles, releasing, finishing, failing, deferring, skipping, IsPass, last_call, beating,
}
use vios_manus.Process.OneVideo.Calls.{SettlesAll, run-append}
use vios_manus.Process.OneVideo.Settled.{IsOneClaim, process_video-run}

-- Every row of the table is of one of these videos.
abbrev pub IsAmong : List String → Conn → Type 0
IsAmong universe c = All (λ r. has r.video_key universe ≡ true) c.rows

module _ (universe : List String) where
  claim_for-IsAmong :
      (w : Worker) (key : String) (ids : List String) (now : ℕ) (token : String) (c : Conn)
      → IsAmong universe c
      → IsAmong universe (Claim.claim_for w key ids now token c).0
  unfolding Claim.claim_for lease
  claim_for-IsAmong w key [] now token c h = h
  claim_for-IsAmong w key (x ∷ xs) now token c h =
      update-All _ _ (lease w now token) (λ r k _. k) c.rows h

  settles-IsAmong :
      (key cid : String) (x : Call) (c : Conn)
      → Settles key cid x
      → IsAmong universe c
      → IsAmong universe (perform x c)
  unfolding perform Finish.release Finish.finish Finish.fail Finish.defer Finish.skip release_row
      done_row fail_row defer_row skip_row
  settles-IsAmong key cid x c releasing h = update-All _ _ release_row (λ r k _. k) c.rows h
  settles-IsAmong key cid x c (finishing s n v o now) h =
      update-All _ _ (done_row now s n v o) (λ r k _. k) c.rows h
  settles-IsAmong key cid x c (failing why now) h = update-All _ _ _ (λ r k _. k) c.rows h
  settles-IsAmong key cid x c (deferring why after now) h =
      update-All _ _ (defer_row now why after) (λ r k _. k) c.rows h
  settles-IsAmong key cid x c (skipping why now) h =
      update-All _ _ (skip_row now why) (λ r k _. k) c.rows h

  pass-IsAmong :
      (w : Worker) (key cid : String) (xs : List Call) (c : Conn)
      → IsPass w key cid xs
      → IsAmong universe c
      → IsAmong universe (run xs c)
  unfolding run perform Finish.renew renew_row
  pass-IsAmong w key cid _ c (last_call x s) h = settles-IsAmong key cid x c s h
  pass-IsAmong w key cid _ c (beating progress now xs p) h =
      pass-IsAmong w key cid xs _ p (update-All _ _ (renew_row now progress) (λ r k _. k) c.rows h)

  SettlesAll-IsAmong :
      (w : Worker) (key : String) (b : Bool) (out : List String) (passes : List (List Call))
      (c : Conn)
      → SettlesAll w key b out passes
      → IsAmong universe c
      → IsAmong universe (run (flatten passes) c)
  unfolding run flatten
  SettlesAll-IsAmong w key b out [] c s h = h
  SettlesAll-IsAmong w key b [] (x ∷ xs) c s h = elim s [ ]
  SettlesAll-IsAmong w key true (cid ∷ rest) (x ∷ xs) c (s, ss) h =
      rw (run-append x (flatten xs) c)
        (SettlesAll-IsAmong w key true rest xs (run x c) ss (pass-IsAmong w key cid x c s h))
  SettlesAll-IsAmong w key false (cid ∷ rest) (x ∷ xs) c (s, ss) h =
      rw (run-append x (flatten xs) c)
        (SettlesAll-IsAmong w key false rest xs (run x c) ss (pass-IsAmong w key cid x c s h))

  one_claim-IsAmong :
      (cs : List Component) (key : String) (ids : List String) (m : Meeting) (e : Engine)
      (res : Option Bool) (calls : List Call)
      → IsOneClaim cs key ids m e res calls
      → IsAmong universe e.cov
      → IsAmong universe (run calls e.cov)
  unfolding run perform
  one_claim-IsAmong cs key ids m e res calls (rest, made, settles, sorted) h = rw made (
      SettlesAll-IsAmong e.worker key _ _ rest _ settles
        (claim_for-IsAmong e.worker key ids m.claimed_at m.token e.cov h))

  pub process_video-IsAmong :
      (cs : List Component) (texts : Texts) (key : String) (ids : List String) (m : Meeting)
      (e : Engine)
      → IsAmong universe e.cov
      → IsAmong universe (process_video cs texts key ids m e).0.cov
  unfolding run
  process_video-IsAmong cs texts key ids m e h =
      let (calls, same, shape) = process_video-run cs texts key ids m e in
      rw same (elim shape [
        | inl (gone, none_made) ↦ rw none_made h
        | inr (here, one) ↦ one_claim-IsAmong cs key ids m e _ calls one h
      ])
