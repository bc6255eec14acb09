-- ===== src/Ledger/Find.antt =====
-- Reading a row of the table `item` of vios/capture/ledger.py by its key, after an UPDATE, an
-- INSERT and a choice by ORDER BY.
use mathlib.Core.List.{Memᴰ}
use vios_manus.Common.{
  ◌≤◌, ◌≡◌, refl, sym, ap, ◌∙◌, Bool, true, Option, none, some, String, str_eq, eq_iff, List, [],
  ◌∷◌, ◌++◌, arith, select, sort, insert, count, count_elem, All, All-imp, if◌then◌else◌,
  Bool-cases, inl, inr,
}
use vios_manus.Sql.{update}
use vios_manus.Ledger.{State, Item, keyed, find}

-- The state of a row that was looked up.
abbrev pub status_of : Option Item → Option State
status_of none = none
status_of (some r) = some r.state

-- What an UPDATE does to one row.
abbrev pub updated : (Item → Bool) → (Item → Item) → Option Item → Option Item
updated p f none = none
updated p f (some r) = some (if p r then f r else r)

pub find-update :
    (k : String) (p : Item → Bool) (f : Item → Item) (rows : List Item)
    → ((r : Item) → (f r).key ≡ r.key)
    → find k (update p f rows) ≡ updated p f (find k rows)
unfolding find update keyed
find-update k p f [] same = refl
find-update k p f (r ∷ rs) same =
    let moved : str_eq (f r).key k ≡ str_eq r.key k = ap (λ t. str_eq t k) (same r) in
    elim (Bool-cases (p r)) [
      | inl e ↦ elim (Bool-cases (str_eq r.key k)) [
        | inl h ↦ rw (e, moved ∙ h, h, e)
        | inr h ↦ rw (e, moved ∙ h, h) (find-update k p f rs same)
      ]
      | inr e ↦ elim (Bool-cases (str_eq r.key k)) [
        | inl h ↦ rw (e, h, e)
        | inr h ↦ rw (e, h) (find-update k p f rs same)
      ]
    ]

-- The row found, or else another answer.
abbrev or_else : Option Item → Option Item → Option Item
or_else none y = y
or_else (some r) y = some r

pub find-append :
    (k : String) (xs ys : List Item) → find k (xs ++ ys) ≡ or_else (find k xs) (find k ys)
unfolding find
find-append k [] ys = refl
find-append k (r ∷ rs) ys = elim (Bool-cases (keyed k r)) [
  | inl e ↦ rw e
  | inr e ↦ rw e (find-append k rs ys)
]

-- A row that is found has the key.
pub find-key : (k : String) (rows : List Item) {r : Item} → find k rows ≡ some r → r.key ≡ k
unfolding find keyed
find-key k [] h = cc
find-key k (x ∷ xs) h = elim (Bool-cases (str_eq x.key k)) [
  | inl e ↦ cc (rw e at h, (eq_iff x.key k).0 e)
  | inr e ↦ find-key k xs (rw e at h)
]

-- Where the key stands once, its row is the one that is found.
pub find_elem :
    (k : String) (rows : List Item) {r : Item}
    → count (keyed k) rows ≤ 1
    → Memᴰ r rows
    → r.key ≡ k
    → find k rows ≡ some r
unfolding find keyed count
find_elem k [] one m e = elim m [ ]
find_elem k (x ∷ xs) {r} one (Memᴰ.head h) e =
    let hit : str_eq x.key k ≡ true = (eq_iff x.key k).1 (ap (λ y. y.key) (sym h) ∙ e) in
    rw hit (ap some (sym h))
find_elem k (x ∷ xs) {r} one (Memᴰ.tail m) e = elim (Bool-cases (str_eq x.key k)) [
  | inl hit ↦
      absurd (omega (arith, rw hit at one, count_elem (keyed k) xs m ((eq_iff r.key k).1 e)))
  | inr miss ↦ rw miss (find_elem k xs (omega (arith, rw miss at one)) m e)
]

module _ {ℓ κ} {A : Type ℓ} (P : A → Type κ) where
  All-insert :
      (before : A → A → Bool) (x : A) (xs : List A) → P x → All P xs → All P (insert before x xs)
  unfolding insert
  All-insert before x [] h hs = (h, tt)
  All-insert before x (y ∷ ys) h hs = elim (Bool-cases (before x y)) [
    | inl e ↦ rw e (h, hs)
    | inr e ↦ rw e (hs.0, All-insert before x ys h hs.1)
  ]

  pub All-sort : (before : A → A → Bool) (xs : List A) → All P xs → All P (sort before xs)
  unfolding sort
  All-sort before [] h = tt
  All-sort before (x ∷ xs) h = All-insert before x (sort before xs) h.0 (All-sort before xs h.1)

module _ {ℓ} {A : Type ℓ} where
  -- What a WHERE clause selects stands in the table and passes the test.
  pub select_elem : (p : A → Bool) (xs : List A) → All (λ x. Memᴰ x xs × (p x ≡ true)) (select p xs)
  unfolding select
  select_elem p [] = tt
  select_elem p (x ∷ xs) =
      let rest =
        All-imp (λ y. Memᴰ y xs × (p y ≡ true)) (λ y. Memᴰ y (x ∷ xs) × (p y ≡ true))
          (λ y h. (Memᴰ.tail h.0, h.1)) (select p xs) (select_elem p xs) in
      elim (Bool-cases (p x)) [ inl e ↦ rw e ((Memᴰ.head refl, e), rest) | inr e ↦ rw e rest ]
