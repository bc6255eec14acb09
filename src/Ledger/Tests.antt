-- ===== src/Ledger/Tests.antt =====
-- Runs of the operations of vios/capture/ledger.py on small ledgers.
use mathlib.Core.Path.{subst}
use vios_manus.Common.{
  ℕ, Option, ◌≡◌, ◌≤◌, inl, inr, refl, true, none, some, String, List, [], ◌∷◌, arith, count,
  select, sort, str_eq, eq_iff, Bool-cases,
}
use vios_manus.Sql.{update}
use vios_manus.Ledger.{State, queued, fetching, uploaded, failed, Item, Ledger, fresh, find, keyed}
use vios_manus.Ledger.Links.{canonical}
use vios_manus.Ledger.Links.Roundtrip.{canonical-canonical}
use vios_manus.Ledger.Work.{claim_next}
use vios_manus.Ledger.Report.{next_due_at}
use vios_manus.Ledger.Choice.{claim_next_when_due}
use vios_manus.Ledger.Sound.{IsSoundTable}
use vios_manus.Ledger.History.{run, run_ledger-IsSoundTable}
use vios_manus.Ledger.History
use vios_manus.Ledger.Lifecycle.{Step, Edge, Reach}
use vios_manus.Ledger.Lifecycle.Final.{Keeps, status-Edge, Reach-terminal_kept}
use vios_manus.Ledger.Enqueue.{Imported, add_many}
use vios_manus.Ledger.Again.{add_many-add_many}

abbrev reel_link : String
reel_link = "see https://www.instagram.com/reels/Cx_9-k/?igsh=1"

abbrev waiting_row : Item
waiting_row = fresh "abc" "https://www.instagram.com/reel/abc/" "reel" queued 5 "paste" 1

abbrev landed_row : Item
landed_row =
    record (fresh "xyz" "https://www.instagram.com/reel/xyz/" "reel" uploaded 5 "paste" 2) {
      done_at = some 9;
    }

abbrev small_ledger : Ledger
small_ledger = record {
  items = waiting_row ∷ landed_row ∷ [];
  memberships = [];
  events = [];
  meta = [];
}

small_ledger-IsSoundTable : IsSoundTable small_ledger.items
unfolding count keyed
small_ledger-IsSoundTable = record {
  each = (
    record { tried = λ e. cc; dated = λ e. cc; landed = λ e. cc; revived_within = omega arith },
    (
      record { tried = λ e. cc; dated = λ e. cc; landed = λ e. tt; revived_within = omega arith },
      tt,
    ),
  );
  once = λ k. elim (Bool-cases (str_eq "abc" k)) [
    | inl e ↦
        subst (λ j. count (keyed j) small_ledger.items ≤ 1) ((eq_iff "abc" k).0 e) (omega arith)
    | inr e ↦ ground (arith, e)
  ];
}

canonical-canonical_example :
    canonical "https://www.instagram.com/reel/Cx_9-k/"
    ≡ some
        (record { key = "Cx_9-k"; url = "https://www.instagram.com/reel/Cx_9-k/"; kind = "reel" })
unfolding canonical
canonical-canonical_example = canonical-canonical reel_link refl

claim_next_when_due_example : (r : Item) × ((claim_next [] 7 small_ledger).1 ≡ some r)
unfolding next_due_at select
claim_next_when_due_example = claim_next_when_due [] 7 0 small_ledger refl (omega arith)

-- The same row after a first try that failed.
abbrev after_try : Ledger
after_try = record small_ledger {
  items = record waiting_row { state = failed; next_try_at = 90 } ∷ landed_row ∷ [];
}

abbrev call_list : List History.Call
call_list =
    History.claim_next [] 7
    ∷ History.mark_failed 8 "abc" "timed out" 600 6
    ∷ History.add 9 reel_link "art" "paste" none
    ∷ History.rebind_channel (λ r again. r.was) 10 "-1004" true
    ∷ []

run_ledger-IsSoundTable_example : IsSoundTable (run call_list small_ledger).items
run_ledger-IsSoundTable_example =
    run_ledger-IsSoundTable call_list small_ledger small_ledger-IsSoundTable

status-Edge_example : Edge (some queued) (some fetching)
unfolding claim_next find select sort update
status-Edge_example = status-Edge "abc" (Step.claim small_ledger [] 7) small_ledger-IsSoundTable

Reach-terminal_kept_example : Keeps landed_row (find "xyz" (claim_next [] 7 small_ledger).0.items)
unfolding find
Reach-terminal_kept_example =
    Reach-terminal_kept "xyz" landed_row (Reach.next (Step.claim small_ledger [] 7) Reach.here)
      small_ledger-IsSoundTable (landed_row, refl, refl) refl

abbrev imported : Imported → String
imported r = "import"

abbrev import_pairs : List (String × String)
import_pairs = (reel_link, "art") ∷ ("no link", "") ∷ []

add_many-add_many_example :
    let l' = (add_many imported 20 import_pairs "export" small_ledger).0 in
    let (l'', result) = add_many imported 30 import_pairs "export" l' in
    (l''.items ≡ l'.items) × (result.added ≡ 0) × (result.duplicate ≡ result.unique)
add_many-add_many_example = add_many-add_many imported 20 30 import_pairs "export" small_ledger

abbrev ap_state : Option Item → Option (State × ℕ)
ap_state none = none
ap_state (some r) = some (r.state, r.attempts)

-- The retry of a failed row becomes due, and `claim_next` takes the earliest in the queue.
claim_failed : ap_state (claim_next [] 90 after_try).1 ≡ some (fetching, 1)
unfolding claim_next select sort
claim_failed = refl
