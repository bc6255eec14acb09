-- ===== src/Capture/Loop/OneItem.antt =====
-- vios/capture/engine.py: the state of the engine and one item of the queue, `_one`.
use vios_manus.Common.{
  ℕ, ◌+◌, ◌*◌, Bool, true, false, ◌&&◌, ◌||◌, some, String, str_eq, List, [], ◌∷◌, ltb, clip,
  if◌then◌else◌,
}
use vios_manus.Ledger.{second, Facts, Ledger, log}
use vios_manus.Ledger.Work.{mark_uploaded, mark_failed, mark_unavailable}
use vios_manus.Ledger.Assets.{mark_assets}
use vios_manus.Capture.Pacer.{Pacer, note_success, note_failure, note_hostile}

-- IDLE, RUNNING, PAUSED, STOPPING, ERROR
pub data Phase : Type 0 where
  idle running paused stopping error : Phase

-- HOSTILE_STREAK_STOP
abbrev pub hostile_streak_stop : ℕ
hostile_streak_stop = 5

pub record Engine : Type 0 where
  pub ledger : Ledger
  pub pacer : Pacer
  pub state : Phase
  pub session_done : ℕ
  pub session_failed : ℕ
  pub hostile_streak : ℕ
  pub since_snapshot : ℕ
  pub snapshot_every : ℕ
  pub max_attempts : ℕ
  pub local_target : ℕ
  pub skip_collections : List String
  pub upload_assets : Bool

-- What `publish_assets` gives: its result with the joined notes and the text of the event, or an
-- exception.
pub data Published : Type 0 where
  built : ℕ → ℕ → ℕ → List String → String → String → Published
  broken : String → Published

-- What comes of fetching and publishing: the columns with the text of the event, the slides that
-- are missing, whether there is a video, and its assets; or one of the exceptions.
pub data Outcome : Type 0 where
  sent : Facts → String → List String → Bool → Published → Outcome
  fetch_error : String → String → Outcome
  upload_error : String → Outcome
  crash : String → Outcome

-- The readings of the clock: at the mark, at its event and at those that follow.
pub record Times : Type 0 where
  pub marked : ℕ
  pub logged : ℕ
  pub noted : ℕ

unfoldable pub log_all : ℕ → String → String → List String → Ledger → Ledger
unfolding log
log_all now kind key [] l = l
log_all now kind key (text ∷ texts) l = log_all now kind key texts (log now kind text (some key) l)

-- The asset set.
unfoldable pub note_assets : ℕ → String → Published → Ledger → Ledger
unfolding log log_all mark_assets
note_assets now key (built manifest clips uploads notes joined text) l =
    let marked = mark_assets now key manifest clips (clip 400 joined) l in
    log_all now "asset-note" key notes
      (if ltb 0 clips || ltb 0 uploads then log now "assets" text (some key) marked else marked)
note_assets now key (broken text) l = log now "asset-note" text (some key) l

-- A failure that is not the host's refusal.
unfoldable pub miss : ℕ → String → String → ℕ → Engine → Engine
unfolding mark_failed
miss now key text retry_in e = record e {
  ledger = mark_failed now key text retry_in e.max_attempts e.ledger;
  pacer = note_failure false e.pacer;
  session_failed = e.session_failed + 1;
}

-- `except FetchError`
unfoldable pub fetch_failed : Times → String → String → String → Engine → Engine × Bool
unfolding miss
fetch_failed t key kind text e =
    if str_eq kind "unavailable"
    then (
      record e {
        ledger = mark_unavailable t.marked key text e.ledger;
        pacer = note_success e.pacer;
        session_failed = e.session_failed + 1;
      },
      true,
    )
    else if str_eq kind "hostile"
    then (
      record e {
        ledger =
            log t.logged "hostile" (clip 400 text) (some key)
              (mark_failed t.marked key text (7200 * second) e.max_attempts e.ledger);
        pacer = note_hostile e.pacer;
        hostile_streak = e.hostile_streak + 1;
        session_failed = e.session_failed + 1;
      },
      false,
    )
    else (miss t.marked key text (900 * second) e, false)

unfoldable pub one : Times → String → Outcome → Engine → Engine × Bool
unfolding fetch_failed miss note_assets log_all
one t key (sent given text missing video assets) e =
    let marked = mark_uploaded t.marked key given e.ledger in
    let told =
      log_all t.logged "slide-missing" key missing
        (log t.logged "captured" text (some key) marked) in
    (
      record e {
        ledger = if e.upload_assets && video then note_assets t.noted key assets told else told;
        pacer = note_success e.pacer;
        session_done = e.session_done + 1;
        since_snapshot = e.since_snapshot + 1;
        hostile_streak = 0;
      },
      true,
    )
one t key (fetch_error kind text) e = fetch_failed t key kind text e
one t key (upload_error text) e =
    let e' = miss t.marked key text (300 * second) e in
    (
      record e' { ledger = log t.logged "upload-failed" (clip 400 text) (some key) e'.ledger },
      false,
    )
one t key (crash text) e = (miss t.marked key text (900 * second) e, false)
