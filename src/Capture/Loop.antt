-- ===== src/Capture/Loop.antt =====
-- vios/capture/engine.py: one item of the queue (`_one`), the wait after it (`_wait`), the snapshot
-- and one turn of the loop of `_run`. What the fetcher and the uploader answer is an argument, and
-- so are the readings of the clock, the flags of the operator and the texts that are put together.
-- The attributes that only the reports read (`message`, `error`, `current`, `waiting_until`) are
-- left out. A turn gives back how long the loop sleeps after it; `Pacer.sleep` itself changes only
-- `slept_total`. An exception outside of an item ends the loop and is left out.
mod OneItem
unfoldable pub use OneItem.*
use vios_manus.Common.{
  ℕ, ◌+◌, ◌-◌, ◌*◌, min, max, Bool, true, false, ◌&&◌, ◌||◌, none, some, String, str_eq, List, [],
  ◌∷◌, ltb, leb, clip, if◌then◌else◌,
}
use vios_manus.Ledger.{second, Facts, Ledger, log, set_meta}
use vios_manus.Ledger.Work.{claim_next, mark_uploaded, mark_failed, mark_unavailable, repair_stale}
use vios_manus.Ledger.Assets.{mark_assets}
use vios_manus.Ledger.Report.{next_due_at}
use vios_manus.Capture.Pacer.{
  Pacer, due_for_break, take_break, next_interval, note_success, note_failure, note_hostile,
}

-- What becomes of the upload of a snapshot: the text of its time, or of an exception.
pub data Sent : Type 0 where
  pinned refused : String → Sent

unfoldable pub snapshot : Bool → ℕ → Sent → Engine → Engine
unfolding log
snapshot force now s e =
    if force || leb e.snapshot_every e.since_snapshot
    then record e {
      since_snapshot = 0;
      ledger = elim s [
        | pinned at ↦ record e.ledger { meta = set_meta "last_snapshot" at e.ledger.meta }
        | refused text ↦ log now "snapshot-failed" (clip 300 text) none e.ledger
      ];
    }
    else e

-- The draws of the pacer: a gap or a break in milliseconds, the next burst, and the hour.
pub record Draws : Type 0 where
  pub gap : ℕ
  pub pause : ℕ
  pub burst : ℕ
  pub hour : ℕ

-- `_wait`, with the length of the sleep in thousandths of a millisecond.
unfoldable pub wait : Bool → Draws → Engine → Engine × ℕ
unfolding due_for_break take_break next_interval
wait local d e =
    if local
    then (e, e.local_target * 1000)
    else if due_for_break e.pacer
    then (
      record e { pacer = (take_break d.pause d.burst e.pacer).0 },
      (take_break d.pause d.burst e.pacer).1 * 10,
    )
    else (
      record e { pacer = (next_interval d.gap d.hour e.pacer).0 },
      (next_interval d.gap d.hour e.pacer).1,
    )

-- What one turn of the loop meets: the flags at its start and after the item, the moment of the
-- claim, and the answers from outside.
pub record Turn : Type 0 where
  pub stop : Bool
  pub pause : Bool
  pub stopped : Bool
  pub now : ℕ
  pub times : Times
  pub outcome : Outcome
  pub snapped : Sent
  pub last : Sent
  pub halt : String
  pub draws : Draws

-- The loop sleeps and turns again, or it is over.
pub data Next : Type 0 where
  again : ℕ → Next
  over : Next

-- `max(5.0, min(due - time.time(), 900.0))`, in thousandths of a millisecond
abbrev due_wait : ℕ → ℕ → ℕ
due_wait due now = max (5 * second) (min (due - now) (900 * second)) * 1000

-- The end of a turn, after its item.
unfoldable pub after_item : Turn → String → Engine → Engine × Next
unfolding snapshot wait log
after_item t kind e =
    let s = snapshot false t.times.noted t.snapped e in
    let (w, span) = wait (str_eq kind "local-media") t.draws s in
    if t.stopped
    then (record e { state = idle }, over)
    else if leb hostile_streak_stop s.hostile_streak
    then (
      snapshot true t.times.noted t.last
          (record s { state = error; ledger = log t.times.noted "halt" t.halt none s.ledger }),
      over,
    )
    else (w, again span)

-- A turn of the loop that is neither stopped nor paused.
unfoldable pub work : Turn → Engine → Engine × Next
unfolding claim_next next_due_at snapshot one after_item
work t e = elim (claim_next e.skip_collections t.now e.ledger).1 [
  | some item ↦
      after_item t item.kind
        (one t.times item.key t.outcome
          (record e { ledger = (claim_next e.skip_collections t.now e.ledger).0 })).0
  | none ↦ elim (next_due_at e.skip_collections e.ledger) [
    | some due ↦ (e, again (due_wait due t.now))
    | none ↦ (record (snapshot true t.times.noted t.last e) { state = idle }, over)
  ]
]

unfoldable pub turn : Turn → Engine → Engine × Next
unfolding work
turn t e =
    if t.stop
    then (record e { state = idle }, over)
    else if t.pause
    then (record e { state = paused }, again (second * 1000))
    else work t (record e { state = running })

-- `while not self._should_stop()`
unfoldable pub turns : List Turn → Engine → Engine × Next
unfolding turn
turns [] e = (e, again 0)
turns (t ∷ ts) e = elim (turn t e).1 [ again span ↦ turns ts (turn t e).0 | over ↦ turn t e ]

-- `_run` without the scan of the channel, from the repair on.
unfoldable pub run_loop : (ℕ → String) → ℕ → List Turn → Engine → Engine × Next
unfolding repair_stale turns
run_loop show now ts e =
    turns ts (record e { ledger = (repair_stale show now (1800 * second) e.ledger).0 })
