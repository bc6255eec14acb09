-- ===== src/Coverage/Reports.antt =====
-- What the reading operations of vios/process/coverage.py tell: `candidates`, `deferred` and
-- `counts`.
use mathlib.Core.Path.{subst}
use vios_manus.Common.{
  ℕ, ◌+◌, ◌≤◌, ◌<◌, ◌≡◌, refl, sym, ap, true, false, Bool, some, none, ◌&&◌, String, str_eq, List,
  [], ◌∷◌, arith, any, All, All-intro, count, count_congr, count-map, count-take-le, count-sort,
  count-select, length, select, sort, take, Option-cases, All_of_select, All_passes, All-imp, inl,
  inr, eq_iff, is_text, if◌then◌else◌,
}
use vios_manus.Coverage.{
  queued, running, done, failed, skipped, is, Row, Conn, Worker, claimable, mine,
}
use vios_manus.Coverage.Claim.{
  Group, join_group, group_by_key, group_order, candidates, claim_for, offered_for,
}
use vios_manus.Coverage.Read.{or_zero, waiting, earliest, deferred, counts}
use vios_manus.Coverage.Table.{IsSoundTable}
use vios_manus.Coverage.Exclusive.{length-claim_for}

abbrev pub of_group : String → Group → Bool
of_group k g = str_eq g.video_key k

abbrev pub of_row : String → Row → Bool
of_row k r = str_eq r.video_key k

-- A row adds its key to the groups at most once, and only where it is not there.
count-join_group :
    (k : String) (r : Row) (gs : List Group)
    → count (of_group k) (join_group r gs) ≤ (if of_row k r then 1 else 0) + count (of_group k) gs
unfolding join_group count
count-join_group k r [] = omega arith
count-join_group k r (g ∷ gs) = ground (arith, count-join_group k r gs)

pub count-group_by_key :
    (k : String) (rows : List Row) → count (of_group k) (group_by_key rows) ≤ count (of_row k) rows
unfolding group_by_key count
count-group_by_key k [] = omega arith
count-group_by_key k (r ∷ rs) =
    omega (arith, count-join_group k r (group_by_key rs), count-group_by_key k rs)

join_group_once :
    (k : String) (r : Row) (gs : List Group)
    → count (of_group k) gs ≤ 1
    → count (of_group k) (join_group r gs) ≤ 1
unfolding join_group count
join_group_once k r [] h = ground arith
join_group_once k r (g ∷ gs) h = ground (
  arith,
  count-join_group k r gs,
  join_group_once k r gs,
  eq_iff g.video_key k,
  eq_iff r.video_key k,
  eq_iff g.video_key r.video_key,
)

pub group_by_key_once : (k : String) (rows : List Row) → count (of_group k) (group_by_key rows) ≤ 1
unfolding group_by_key count
group_by_key_once k [] = omega arith
group_by_key_once k (r ∷ rs) = join_group_once k r (group_by_key rs) (group_by_key_once k rs)

-- The test of `candidates` on a row.
abbrev pub open_for : Worker → Conn → List String → ℕ → Row → Bool
open_for w c components now r =
    any (str_eq r.component) components && (claimable now r && mine w c.videos r)

pub count-candidates :
    (w : Worker) (x : String) (xs : List String) (limit now : ℕ) (c : Conn) (k : String)
    → count (λ j. str_eq j k) (candidates w (x ∷ xs) limit now c)
      ≤ count (of_group k) (group_by_key (select (open_for w c (x ∷ xs) now) c.rows))
unfolding candidates
count-candidates w x xs limit now c k =
    let groups = group_by_key (select (open_for w c (x ∷ xs) now) c.rows) in
    omega (
      arith,
      count-map (λ j. str_eq j k) (λ (g : Group). g.video_key)
          (take limit (sort group_order groups)),
      count-take-le (of_group k) limit (sort group_order groups),
      count-sort (of_group k) group_order groups,
    )

-- `candidates` names a video at most once.
candidates_once :
    (w : Worker) (components : List String) (limit now : ℕ) (c : Conn) (k : String)
    → count (λ j. str_eq j k) (candidates w components limit now c) ≤ 1
unfolding candidates count
candidates_once w [] limit now c k = omega arith
candidates_once w (x ∷ xs) limit now c k = omega (
  arith,
  count-candidates w x xs limit now c k,
  group_by_key_once k (select (open_for w c (x ∷ xs) now) c.rows),
)

and_comm : (a b : Bool) → (a && b) ≡ (b && a)
and_comm a b = ground arith

offered_open :
    (w : Worker) (c : Conn) (components : List String) (now : ℕ) (k : String) (r : Row)
    → (open_for w c components now r && of_row k r) ≡ offered_for w c k components now r
unfolding offered_for
offered_open w c components now k r = and_comm (open_for w c components now r) (of_row k r)

-- In a sound table where no row carries the token of the claim yet, a video that `candidates` names
-- has work for `claim_for` at the same moment: it takes at least
-- one of the components.
pub candidates-claim_for :
    (w : Worker) (x : String) (xs : List String) (limit now : ℕ) (token : String) (c : Conn)
    (k : String)
    → IsSoundTable c.rows
    → All (λ r. is_text r.token token ≡ false) c.rows
    → 1 ≤ count (λ j. str_eq j k) (candidates w (x ∷ xs) limit now c)
    → 1 ≤ length (claim_for w k (x ∷ xs) now token c).1
candidates-claim_for w x xs limit now token c k h new named =
    let open_rows = open_for w c (x ∷ xs) now in
    omega (
      arith,
      count-candidates w x xs limit now c k,
      count-group_by_key k (select open_rows c.rows),
      count-select open_rows (of_row k) c.rows,
      count_congr (λ r. open_rows r && of_row k r) (offered_for w c k (x ∷ xs) now) c.rows
          (All-intro _ (offered_open w c (x ∷ xs) now k) c.rows),
      length-claim_for w now token c k x xs h new,
    )

earliest_le :
    (rows : List Row) (t u : ℕ) → earliest rows ≡ some t → u ≤ t → All (λ r. u ≤ r.next_try_at) rows
unfolding earliest
earliest_le [] t u h le = tt
earliest_le (r ∷ []) t u h le = (ground arith, tt)
earliest_le (r ∷ s ∷ rs) t u h le = elim (Option-cases (earliest (s ∷ rs))) [
  | inl e ↦ absurd (ground arith)
  | inr (t', e) ↦ (ground (arith, e), earliest_le (s ∷ rs) t' u e (ground (arith, e)))
]

earliest_bound :
    (rows : List Row) (now t : ℕ)
    → All (λ r. now < r.next_try_at) rows
    → earliest rows ≡ some t
    → now < t
unfolding earliest
earliest_bound [] now t h e = cc
earliest_bound (r ∷ rs) now t h e = elim (Option-cases (earliest rs)) [
  | inl e' ↦ ground (arith, e', h.0)
  | inr (t', e') ↦ ground (arith, e', h.0, earliest_bound rs now t' h.1 e')
]

earliest-none : (rows : List Row) → earliest rows ≡ none → rows ≡ []
unfolding earliest
earliest-none [] h = refl
earliest-none (r ∷ rs) h = ground arith

later : (w : Worker) (now : ℕ) (c : Conn) (r : Row) → waiting w c now r ≡ true → now < r.next_try_at
unfolding waiting
later w now c r h = ground arith

future :
    (w : Worker) (now : ℕ) (c : Conn) (t : ℕ)
    → earliest (select (waiting w c now) c.rows) ≡ some t
    → now < t
future w now c t e =
    let rows = select (waiting w c now) c.rows in
    earliest_bound rows now t
      (All-imp (λ r. waiting w c now r ≡ true) (λ r. now < r.next_try_at) (later w now c) rows
        (All_passes (waiting w c now) c.rows))
      e

-- When a row waits, what `deferred` reports as due is in the future and not later than its turn.
pub deferred_due :
    (w : Worker) (now : ℕ) (c : Conn)
    → let due = (deferred w now c).due_at in
      All (λ r. waiting w c now r ≡ true → (now < due) × (due ≤ r.next_try_at)) c.rows
unfolding deferred
deferred_due w now c =
    let rows = select (waiting w c now) c.rows in
    let Due : ℕ → Type 0 =
      λ t. All (λ r. waiting w c now r ≡ true → (now < t) × (t ≤ r.next_try_at)) c.rows in
    elim (Option-cases (earliest rows)) [
      | inl e ↦ subst Due (sym (ap or_zero e)) (
          All_of_select (λ r. (now < 0) × (0 ≤ r.next_try_at)) (waiting w c now) c.rows
            (rw (earliest-none rows e) tt))
      | inr (t, e) ↦ subst Due (sym (ap or_zero e)) (
          All_of_select (λ r. (now < t) × (t ≤ r.next_try_at)) (waiting w c now) c.rows
            (All-imp (λ r. t ≤ r.next_try_at) (λ r. (now < t) × (t ≤ r.next_try_at))
              (λ r le. (future w now c t e, le)) rows (earliest_le rows t t e (omega arith))))
    ]

count_states :
    (p : Row → Bool) (rows : List Row)
    → count (λ r. p r && is queued r.state) rows
        + count (λ r. p r && is running r.state) rows
        + count (λ r. p r && is done r.state) rows
        + count (λ r. p r && is failed r.state) rows
        + count (λ r. p r && is skipped r.state) rows
      ≡ count p rows
unfolding count
count_states p [] = refl
count_states p (r ∷ rs) = ground (arith, count_states p rs)

-- `counts` of one component: its states add up to the rows of that component.
counts-total :
    (component : String) (c : Conn)
    → (counts component c).total
      ≡ count (λ r. if str_eq component "" then true else str_eq r.component component) c.rows
unfolding counts
counts-total component c =
    count_states (λ r. if str_eq component "" then true else str_eq r.component component) c.rows
