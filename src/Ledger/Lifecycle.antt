-- ===== src/Ledger/Lifecycle.antt =====
-- The life of one video in vios/capture/ledger.py: the steps of the work loop of
-- vios/capture/engine.py and of the imports, and the state machine of a video.
pub mod Moves
pub mod Final
use mathlib.Core.Path.{subst}
use vios_manus.Common.{
  ℕ, ◌+◌, ◌≡◌, refl, sym, ap, ◌∙◌, Bool, true, false, ◌&&◌, ◌||◌, not, Option, none, some, String,
  eq_iff, List, [], arith, ◌==◌, leb, ltb, Bool-cases, Option-cases, inl, inr,
}
use vios_manus.Sql.{update}
use vios_manus.Ledger.{
  State, queued, fetching, uploaded, failed, unavailable, skipped, is, is_terminal, in_collections,
  Facts, Item, Ledger, keyed, find, set_meta, log,
}
use vios_manus.Ledger.Work.{
  is_due, next_row, claim_next, claim_row, is_stale, repair_stale, mark_uploaded, uploaded_row,
  mark_failed, failed_row, attempts_of, revivals_of, mark_unavailable, unavailable_row,
}
use vios_manus.Ledger.Enqueue.{add_many, Imported, fold_all}
use vios_manus.Ledger.Find.{find-update, find-key, find_elem, updated, status_of}
use vios_manus.Ledger.Growth.{add_entries-Grows}
use vios_manus.Ledger.Choice.{next_row_lem}
use vios_manus.Ledger.Sound.{IsSoundTable}
use vios_manus.Ledger.Keeps.{repaired}
use vios_manus.Ledger.History.{Call, perform, perform-IsSoundTable}
use vios_manus.Ledger.Assets.{mark_assets, assets_row, note_row}

-- What the ledger says of one video; `none` if it has never heard of it.
abbrev pub status : String → Ledger → Option State
status k l = status_of (find k l.items)

-- A step of a worker or of an import of links by `add_many`. A worker marks the row that it has
-- claimed. The import of local files (`add_external`), which may rewrite the texts of a row that is
-- there, and the overrides of the operator (`requeue`) are no steps.
pub data Step : Ledger → Ledger → Type 0 where
  claim : (l : Ledger) (skip : List String) (now : ℕ) → Step l (claim_next skip now l).0
  upload :
      (l : Ledger) (now : ℕ) (key : String) (given : Facts)
      → status key l ≡ some fetching
      → Step l (mark_uploaded now key given l)
  fail :
      (l : Ledger) (now : ℕ) (key error : String) (retry_in max_attempts : ℕ)
      → status key l ≡ some fetching
      → Step l (mark_failed now key error retry_in max_attempts l)
  give_up :
      (l : Ledger) (now : ℕ) (key reason : String)
      → status key l ≡ some fetching
      → Step l (mark_unavailable now key reason l)
  repair :
      (l : Ledger) (show : ℕ → String) (now older_than : ℕ)
      → Step l (repair_stale show now older_than l).0
  import :
      (l : Ledger) (say : Imported → String) (now : ℕ) (pairs : List (String × String))
      (source : String)
      → Step l (add_many say now pairs source l).0
  assets :
      (l : Ledger) (now : ℕ) (key : String) (manifest clips : ℕ) (note : String)
      → Step l (mark_assets now key manifest clips note l)
  journal :
      (l : Ledger) (now : ℕ) (kind text : String) (key : Option String)
      → Step l (log now kind text key l)
  remember : (l : Ledger) (k v : String) → Step l (record l { meta = set_meta k v l.meta })

-- The steps of the state machine that the module's constants describe.
pub data Edge : Option State → Option State → Type 0 where
  stay : {s : Option State} → Edge s s
  enter : Edge none (some queued)
  take : Edge (some queued) (some fetching)
  retake : Edge (some failed) (some fetching)
  put_back : Edge (some fetching) (some queued)
  land : Edge (some fetching) (some uploaded)
  miss : Edge (some fetching) (some failed)
  lose : Edge (some fetching) (some unavailable)

-- The ledgers that the steps lead to.
pub data Reach : Ledger → Ledger → Type 0 where
  here : {l : Ledger} → Reach l l
  next : {l l' l'' : Ledger} → Step l l' → Reach l' l'' → Reach l l''

pub Reach-trans : {l l' l'' : Ledger} → Reach l l' → Reach l' l'' → Reach l l''
Reach-trans here b = b
Reach-trans (next s a) b = next s (Reach-trans a b)

-- The row without the columns of its asset set.
abbrev pub captured : Item → Item
captured r = record r {
  facts = record r.facts { assets_msg_id = none };
  assets_clips = none;
  assets_at = none;
  assets_note = none;
}
