-- ===== src/Ledger/Work.antt =====
-- The work loop's view of vios/capture/ledger.py: `claim_next`, `repair_stale`, `mark_uploaded`,
-- `mark_failed`, `mark_unavailable` and `requeue`.
use vios_manus.Common.{
  ℕ, ◌+◌, Bool, true, ◌&&◌, ◌||◌, not, Option, none, some, String, List, [], ◌∷◌, any, select,
  count, sort, ltb, leb, clip, coalesce, if◌then◌else◌,
}
use vios_manus.Sql.{update}
use vios_manus.Ledger.{
  State, queued, fetching, uploaded, failed, unavailable, is, Facts, Item, Ledger, keyed, find, log,
  in_collections, revive_after, max_revivals, parked,
}

-- The WHERE clause of `claim_next`.
unfoldable pub is_due : List String → ℕ → Ledger → Item → Bool
unfolding in_collections
is_due skip now l r =
    (is queued r.state || is failed r.state)
    && (leb r.next_try_at now && not (in_collections skip l.memberships r))

-- ORDER BY position
abbrev pub by_position : Item → Item → Bool
by_position a b = leb a.position b.position

-- `fetchone`
abbrev pub first_of {ℓ} : {A : Type ℓ} → List A → Option A
first_of [] = none
first_of (x ∷ xs) = some x

-- the row that is fetched next
unfoldable pub next_row : List String → ℕ → Ledger → Option Item
unfolding is_due
next_row skip now l = first_of (sort by_position (select (is_due skip now l) l.items))

-- SET state='fetching', last_try_at=?, attempts=attempts+1
unfoldable pub claim_row : ℕ → Item → Item
claim_row now r = record r { state = fetching; last_try_at = some now; attempts = r.attempts + 1 }

-- The row as it was read, with the state and the attempts that were written.
unfoldable pub claimed_copy : Item → Item
claimed_copy r = record r { state = fetching; attempts = r.attempts + 1 }

unfoldable pub claim_next : List String → ℕ → Ledger → Ledger × Option Item
unfolding next_row claim_row claimed_copy keyed
claim_next skip now l = elim (next_row skip now l) [
  | none ↦ (l, none)
  | some r ↦
      (record l { items = update (keyed r.key) (claim_row now) l.items }, some (claimed_copy r))
]

-- The WHERE clause of `repair_stale`, with `last_try_at IS NULL OR last_try_at < ?`. The cutoff `now - older_than` is compared as `last_try_at + older_than < now`, since a
-- subtraction of natural numbers stops at 0.
unfoldable pub is_stale : ℕ → ℕ → Item → Bool
is_stale now older_than r =
    is fetching r.state
    && elim r.last_try_at as (λ _. Bool) [ none ↦ true | some t ↦ ltb (t + older_than) now ]

-- the text of the event, of which the count is written by `show`
unfoldable pub repair_stale : (ℕ → String) → ℕ → ℕ → Ledger → Ledger × ℕ
unfolding is_stale log
repair_stale show now older_than l =
    let n = count (is_stale now older_than) l.items in
    let l' = record l {
      items = update (is_stale now older_than) (λ r. record r { state = queued }) l.items;
    } in
    (if ltb 0 n then log now "repair" (show n) none l' else l', n)

-- The keywords that are given and not None are written, the others keep their columns.
unfoldable merge : Facts → Facts → Facts
merge given old = record {
  msg_id = coalesce given.msg_id old.msg_id;
  record_msg_id = coalesce given.record_msg_id old.record_msg_id;
  file_id = coalesce given.file_id old.file_id;
  file_size = coalesce given.file_size old.file_size;
  sha256 = coalesce given.sha256 old.sha256;
  ext = coalesce given.ext old.ext;
  duration = coalesce given.duration old.duration;
  width = coalesce given.width old.width;
  height = coalesce given.height old.height;
  uploader = coalesce given.uploader old.uploader;
  title = coalesce given.title old.title;
  views = coalesce given.views old.views;
  likes = coalesce given.likes old.likes;
  comment_count = coalesce given.comment_count old.comment_count;
  comments_got = coalesce given.comments_got old.comments_got;
  taken_at = coalesce given.taken_at old.taken_at;
  lang = coalesce given.lang old.lang;
  assets_msg_id = coalesce given.assets_msg_id old.assets_msg_id;
}

unfoldable pub uploaded_row : ℕ → Facts → Item → Item
unfolding merge
uploaded_row now given r = record r {
  state = uploaded;
  done_at = some now;
  last_error = none;
  facts = merge given r.facts;
}

unfoldable pub mark_uploaded : ℕ → String → Facts → Ledger → Ledger
unfolding keyed uploaded_row
mark_uploaded now key given l = record l {
  items = update (keyed key) (uploaded_row now given) l.items;
}

-- The attempts and the revivals that `mark_failed` reads; without a row they are 1 and 0.
abbrev pub attempts_of : Option Item → ℕ
attempts_of none = 1
attempts_of (some r) = r.attempts

abbrev pub revivals_of : Option Item → ℕ
revivals_of none = 0
revivals_of (some r) = r.revivals

-- A revival is spent: a clean attempt count, and four hours of waiting.
unfoldable pub revival_row : ℕ → String → Item → Item
revival_row now error r = record r {
  state = failed;
  last_error = some (clip 900 error);
  next_try_at = now + revive_after;
  attempts = 0;
  revivals = r.revivals + 1;
}

unfoldable pub retry_row : ℕ → ℕ → String → Item → Item
retry_row now retry_in error r = record r {
  state = failed;
  last_error = some (clip 900 error);
  next_try_at = now + retry_in;
}

-- The UPDATE that `mark_failed` chooses.
unfoldable pub failed_row : ℕ → ℕ → ℕ → ℕ → ℕ → String → Item → Item
unfolding revival_row retry_row
failed_row attempts revivals max_attempts retry_in now error r =
    if leb max_attempts attempts
    then if ltb revivals max_revivals then revival_row now error r else retry_row now parked error r
    else retry_row now retry_in error r

unfoldable pub mark_failed : ℕ → String → String → ℕ → ℕ → Ledger → Ledger
unfolding keyed find failed_row
mark_failed now key error retry_in max_attempts l =
    let row = find key l.items in
    record l {
      items =
          update (keyed key)
            (failed_row (attempts_of row) (revivals_of row) max_attempts retry_in now error)
            l.items;
    }

unfoldable pub unavailable_row : ℕ → String → Item → Item
unavailable_row now reason r = record r {
  state = unavailable;
  last_error = some (clip 900 reason);
  done_at = some now;
}

unfoldable pub mark_unavailable : ℕ → String → String → Ledger → Ledger
unfolding keyed unavailable_row log
mark_unavailable now key reason l =
    log now "unavailable" (clip 200 reason) (some key)
      (record l { items = update (keyed key) (unavailable_row now reason) l.items })

unfoldable pub requeue_row : Bool → Item → Item
requeue_row reset r = record r {
  state = queued;
  next_try_at = 0;
  revivals = 0;
  attempts = if reset then 0 else r.attempts;
}

unfoldable pub to_requeue : List State → Item → Bool
to_requeue states r = any (λ s. is s r.state) states

unfoldable pub requeue : List State → Bool → Ledger → Ledger × ℕ
unfolding to_requeue requeue_row
requeue states reset l = (
  record l { items = update (to_requeue states) (requeue_row reset) l.items },
  count (to_requeue states) l.items,
)
