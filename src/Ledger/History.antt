-- ===== src/Ledger/History.antt =====
-- Sequences of calls on a ledger of vios/capture/ledger.py, by the work loop, the imports, the
-- backfill and the operator.

use mathlib.Core.Path.{subst}
use vios_manus.Common.{ℕ, refl, sym, Bool, Option, String, List, [], ◌∷◌}
use vios_manus.Ledger.{State, queued, Facts, Ledger, keyed, log}
use vios_manus.Ledger.Work
use vios_manus.Ledger.Work.{
  next_row, claim_row, is_stale, uploaded_row, attempts_of, revivals_of, failed_row,
  unavailable_row, to_requeue, requeue_row,
}
use vios_manus.Ledger.Enqueue
use vios_manus.Ledger.Enqueue.{
  strip, insert_new, tag_maybe, position_or, Entry, Imported, Tally, add_entry, tag_entry,
  add_entries, fold_all, insert_adopted, adopted, adopted_source, next_position,
}
use vios_manus.Ledger.Channel
use vios_manus.Ledger.Channel.{Rebound, points, rebind_row, lost}
use vios_manus.Ledger.Assets
use vios_manus.Ledger.Assets.{assets_row, note_row}
use vios_manus.Ledger.Sound.{
  IsSoundTable, update-IsSoundTable, uploaded_row-IsSound, unavailable_row-IsSound,
  requeue_row-IsSound,
}
use vios_manus.Ledger.Keeps.{
  add-IsSoundTable, add_entries-IsSoundTable, adopt-IsSoundTable, claimed-IsSoundTable,
  failed-IsSoundTable, repaired, noted-IsSoundTable, bound-items, rebound-IsSoundTable,
}

-- A call with its arguments. The first number of a call is the moment at which it is made.
pub data Call : Type 0 where
  claim_next : List String → ℕ → Call
  repair_stale : (ℕ → String) → ℕ → ℕ → Call
  mark_uploaded : ℕ → String → Facts → Call
  mark_failed : ℕ → String → String → ℕ → ℕ → Call
  mark_unavailable : ℕ → String → String → Call
  requeue : List State → Bool → Call
  add : ℕ → String → String → String → Option ℕ → Call
  add_many : (Imported → String) → ℕ → List (String × String) → String → Call
  adopt : ℕ → String → String → ℕ → Facts → Call
  mark_assets : ℕ → String → ℕ → ℕ → String → Call
  bind_channel : String → Call
  rebind_channel : (Rebound → Bool → String) → ℕ → String → Bool → Call

unfoldable pub perform : Call → Ledger → Ledger
perform (claim_next skip now) l = (Work.claim_next skip now l).0
perform (repair_stale show now older_than) l = (Work.repair_stale show now older_than l).0
perform (mark_uploaded now key given) l = Work.mark_uploaded now key given l
perform (mark_failed now key error retry_in m) l = Work.mark_failed now key error retry_in m l
perform (mark_unavailable now key reason) l = Work.mark_unavailable now key reason l
perform (requeue states reset) l = (Work.requeue states reset l).0
perform (add now url collection source position) l =
    (Enqueue.add now url collection source position l).0
perform (add_many say now pairs source) l = (Enqueue.add_many say now pairs source l).0
perform (adopt now key url msg_id given) l = Enqueue.adopt now key url msg_id given l
perform (mark_assets now key manifest clips note) l =
    Assets.mark_assets now key manifest clips note l
perform (bind_channel channel) l = (Channel.bind_channel channel l).0
perform (rebind_channel say now channel again) l =
    (Channel.rebind_channel say now channel again l).0

unfoldable pub run : List Call → Ledger → Ledger
run [] l = l
run (x ∷ xs) l = run xs (perform x l)

-- Whatever the call, the table stays sound.
pub perform-IsSoundTable :
    (x : Call) (l : Ledger) → IsSoundTable l.items → IsSoundTable (perform x l).items
unfolding perform uploaded_row Work.mark_uploaded unavailable_row Work.mark_unavailable requeue_row
    Work.requeue Enqueue.add_many log
perform-IsSoundTable (claim_next skip now) l h = claimed-IsSoundTable skip now l h
perform-IsSoundTable (repair_stale show now older_than) l h =
    subst IsSoundTable (sym (repaired show now older_than l)) (
      update-IsSoundTable (is_stale now older_than) (λ r. record r { state = queued }) l.items
        (λ r. refl)
        (λ r _ q _. record {
          tried = λ e. cc;
          dated = λ e. cc;
          landed = λ e. cc;
          revived_within = q.revived_within;
        })
        h)
perform-IsSoundTable (mark_uploaded now key given) l h =
    update-IsSoundTable (keyed key) (uploaded_row now given) l.items (λ r. refl)
      (λ r _ q _. uploaded_row-IsSound now given r q) h
perform-IsSoundTable (mark_failed now key error retry_in m) l h =
    failed-IsSoundTable now key error retry_in m l h
perform-IsSoundTable (mark_unavailable now key reason) l h =
    update-IsSoundTable (keyed key) (unavailable_row now reason) l.items (λ r. refl)
      (λ r _ q _. unavailable_row-IsSound now reason r q) h
perform-IsSoundTable (requeue states reset) l h =
    update-IsSoundTable (to_requeue states) (requeue_row reset) l.items (λ r. refl)
      (λ r _ q _. requeue_row-IsSound reset r q) h
perform-IsSoundTable (add now url collection source position) l h =
    add-IsSoundTable now url collection source position l h
perform-IsSoundTable (add_many say now pairs source) l h =
    add_entries-IsSoundTable now source (fold_all pairs [] 0).0 _ h
perform-IsSoundTable (adopt now key url msg_id given) l h =
    adopt-IsSoundTable now key url msg_id given l h
perform-IsSoundTable (mark_assets now key manifest clips note) l h =
    noted-IsSoundTable now key manifest clips note l h
perform-IsSoundTable (bind_channel channel) l h = subst IsSoundTable (sym (bound-items channel l)) h
perform-IsSoundTable (rebind_channel say now channel again) l h =
    rebound-IsSoundTable say now channel again l h

-- From a sound table, whatever calls follow one another, the table stays sound.
pub run_ledger-IsSoundTable :
    (calls : List Call) (l : Ledger) → IsSoundTable l.items → IsSoundTable (run calls l).items
unfolding run
run_ledger-IsSoundTable [] l h = h
run_ledger-IsSoundTable (x ∷ xs) l h =
    run_ledger-IsSoundTable xs (perform x l) (perform-IsSoundTable x l h)
