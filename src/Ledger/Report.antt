-- ===== src/Ledger/Report.antt =====
-- The reports of vios/capture/ledger.py: `counts`, `next_due_at`, `failures`, `throughput`
-- and `export_urls`.
use vios_manus.Common.{
  ℕ, ◌+◌, Bool, true, false, ◌&&◌, ◌||◌, not, Option, none, some, String, List, [], ◌∷◌, map, min,
  select, sort, take, count, ltb, leb,
}
use vios_manus.Ledger.{
  State, queued, fetching, uploaded, failed, unavailable, skipped, is, Item, Ledger, in_collections,
}
use vios_manus.Ledger.Work.{by_position}

-- What `counts` returns; a state that no row has is left out of the dict, and is 0 here.
pub record Counts : Type 0 where
  pub by_state : State → ℕ
  pub total : ℕ
  pub remaining : ℕ

abbrev pub count_state : List Item → State → ℕ
count_state items s = count (λ r. is s r.state) items

unfoldable pub counts : Ledger → Counts
counts l =
    let n = count_state l.items in
    record {
      by_state = n;
      total = n queued + (n fetching + (n uploaded + (n failed + (n unavailable + n skipped))));
      remaining = n queued + (n failed + n fetching);
    }

-- The WHERE clause of `next_due_at`.
unfoldable pub is_waiting : List String → Ledger → Item → Bool
unfolding in_collections
is_waiting skip l r =
    (is queued r.state || is failed r.state) && not (in_collections skip l.memberships r)

-- `MIN(next_try_at)`
unfoldable pub earliest : List Item → Option ℕ
earliest [] = none
earliest (r ∷ rs) = elim (earliest rs) [
  | none ↦ some r.next_try_at
  | some t ↦ some (min r.next_try_at t)
]

unfoldable pub next_due_at : List String → Ledger → Option ℕ
unfolding is_waiting earliest
next_due_at skip l = earliest (select (is_waiting skip l) l.items)

-- ORDER BY last_try_at DESC, where NULL comes last
abbrev later_try : Option ℕ → Option ℕ → Bool
later_try x none = true
later_try none (some t) = false
later_try (some s) (some t) = leb t s

abbrev latest_try : Item → Item → Bool
latest_try a b = later_try a.last_try_at b.last_try_at

-- The rows; the source takes seven of their columns.
unfoldable failures : ℕ → Ledger → List Item
failures limit l =
    take limit (sort latest_try (select (λ r. is failed r.state || is unavailable r.state) l.items))

-- `done_at > ?` for the cutoff `now - window`; NULL is not above it
unfoldable done_since : ℕ → ℕ → Item → Bool
done_since now window r = elim r.done_at as (λ _. Bool) [
  | none ↦ false
  | some t ↦ ltb now (t + window)
]

unfoldable throughput : ℕ → ℕ → Ledger → ℕ
unfolding done_since
throughput now window l = count (done_since now window) l.items

unfoldable export_urls : State → Ledger → List String
export_urls state l = map (λ r. r.url) (sort by_position (select (λ r. is state r.state) l.items))
