-- ===== src/Ledger/Choice.antt =====
-- Which row `claim_next` of vios/capture/ledger.py takes, and when there is none.
use mathlib.Core.List.{Memᴰ}
use mathlib.Core.Path.{subst}
use vios_manus.Common.{
  ℕ, ◌≤◌, ◌<◌, ◌≡◌, ◌⊎◌, refl, ap, true, Option, none, some, String, List, [], ◌∷◌, arith, leb,
  select, sort, count, length, All, length-sort, length-select, Bool-cases, Option-cases, inl, inr,
}
use vios_manus.Ledger.{Item, Ledger}
use vios_manus.Ledger.Work.{is_due, by_position, first_of, next_row, claim_next, claimed_copy}
use vios_manus.Ledger.Report.{is_waiting, earliest, next_due_at}
use vios_manus.Ledger.Find.{All-sort, select_elem}

abbrev Holds {ℓ κ} : {A : Type ℓ} → (A → Type κ) → Option A → Type κ
Holds P none = Unit
Holds P (some a) = P a

first_of_holds {ℓ κ} :
    {A : Type ℓ} (P : A → Type κ) (xs : List A) {x : A} → All P xs → first_of xs ≡ some x → P x
first_of_holds P [] h e = cc
first_of_holds P (y ∷ ys) h e = subst (Holds P) e h.0

-- The row that is fetched next stands in the table and is due.
pub next_row_lem :
    (skip : List String) (now : ℕ) (l : Ledger) {r : Item}
    → next_row skip now l ≡ some r
    → Memᴰ r l.items × (is_due skip now l r ≡ true)
unfolding next_row
next_row_lem skip now l e =
    first_of_holds (λ x. Memᴰ x l.items × (is_due skip now l x ≡ true)) _
      (All-sort (λ x. Memᴰ x l.items × (is_due skip now l x ≡ true)) by_position _
        (select_elem (is_due skip now l) l.items))
      e

-- There is one when some row is due.
next_row_found :
    (skip : List String) (now : ℕ) (l : Ledger)
    → 1 ≤ count (is_due skip now l) l.items
    → (r : Item) × (next_row skip now l ≡ some r)
unfolding next_row
next_row_found skip now l h = found (sort by_position (select (is_due skip now l) l.items)) (
    omega (
      arith,
      length-sort by_position (select (is_due skip now l) l.items),
      length-select (is_due skip now l) l.items,
    ))
  where
    found : (xs : List Item) → 1 ≤ length xs → (r : Item) × (first_of xs ≡ some r)
    found [] h = absurd (omega arith)
    found (x ∷ xs) h = (x, refl)

next_row-none :
    (skip : List String) (now : ℕ) (l : Ledger)
    → next_row skip now l ≡ none
    → count (is_due skip now l) l.items ≡ 0
next_row-none skip now l e = elim (Bool-cases (leb 1 (count (is_due skip now l) l.items))) [
  | inl h ↦ let (r, f) = next_row_found skip now l (ground arith) in cc
  | inr h ↦ ground arith
]

-- The least `next_try_at` is reached by some row.
earliest_reached :
    (rows : List Item) (t u : ℕ)
    → earliest rows ≡ some t
    → t ≤ u
    → 1 ≤ count (λ r. leb r.next_try_at u) rows
unfolding earliest count
earliest_reached [] t u e le = cc
earliest_reached (r ∷ rs) t u e le = elim (Option-cases (earliest rs)) [
  | inl f ↦ ground (arith, rw (earliest, f) at e)
  | inr (s, f) ↦ ground (arith, rw (earliest, f) at e, earliest_reached rs s u f)
]

earliest-none : (rows : List Item) → earliest rows ≡ none → rows ≡ []
unfolding earliest
earliest-none [] e = refl
earliest-none (r ∷ rs) e = elim (Option-cases (earliest rs)) [
  | inl f ↦ cc (rw (earliest, f) at e)
  | inr (s, f) ↦ cc (rw (earliest, f) at e)
]

due_waiting :
    (skip : List String) (now : ℕ) (l : Ledger) (rows : List Item)
    → count (is_due skip now l) rows
      ≡ count (λ r. leb r.next_try_at now) (select (is_waiting skip l) rows)
unfolding is_due is_waiting count select
due_waiting skip now l [] = refl
due_waiting skip now l (r ∷ rs) = ground (arith, due_waiting skip now l rs)

-- Once the moment that `next_due_at` gives has come, `claim_next` returns a row.
pub claim_next_when_due :
    (skip : List String) (now due : ℕ) (l : Ledger)
    → next_due_at skip l ≡ some due
    → due ≤ now
    → (r : Item) × ((claim_next skip now l).1 ≡ some r)
unfolding next_due_at claim_next
claim_next_when_due skip now due l e le =
    let (r, f) = next_row_found skip now l (
      omega (
        arith,
        due_waiting skip now l l.items,
        earliest_reached (select (is_waiting skip l) l.items) due now e le,
      )) in
    (claimed_copy r, rw (claim_next, f))

-- When `claim_next` returns nothing, `next_due_at` says why: either it gives a moment that is still
-- to come, or nothing, and then no row outside the skipped collections is queued or failed.
pub claim_next_or_wait :
    (skip : List String) (now : ℕ) (l : Ledger)
    → (claim_next skip now l).1 ≡ none
    → ((due : ℕ) × (next_due_at skip l ≡ some due) × (now < due))
      ⊎ ((next_due_at skip l ≡ none) × (count (is_waiting skip l) l.items ≡ 0))
unfolding next_due_at
claim_next_or_wait skip now l e =
    elim (Option-cases (earliest (select (is_waiting skip l) l.items))) [
      | inl f ↦ inr (
        f,
        omega (
          arith,
          ap length (earliest-none (select (is_waiting skip l) l.items) f),
          length-select (is_waiting skip l) l.items,
        ),
      )
      | inr (t, f) ↦ inl (
        t,
        f,
        elim (Bool-cases (leb t now)) [
          | inl h ↦
              let (r, g) = claim_next_when_due skip now t l f (ground arith) in absurd (cc (e, g))
          | inr h ↦ ground arith
        ],
      )
    ]
