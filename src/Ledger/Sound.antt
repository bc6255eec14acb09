-- ===== src/Ledger/Sound.antt =====
-- The invariant of the table `item` of vios/capture/ledger.py, under each of its operations.
use mathlib.Core.List.{Memᴰ}
use mathlib.Core.Path.{subst}
use text.Mathlib.TextPositions.{eq_refl}
use vios_manus.Common.{
  ℕ, ◌≤◌, ◌≡◌, refl, ap, Bool, true, false, Option, none, some, String, str_eq, eq_iff, List, [],
  ◌∷◌, ◌++◌, arith, count, All, All-append, count-append, Bool-cases, inl, inr,
}
use vios_manus.Sql.{update, update-All_elem, update-All_to, count-update}
use vios_manus.Ledger.{fetching, uploaded, Facts, Item, keyed, find, max_revivals}
use vios_manus.Ledger.Work.{claim_row, uploaded_row, failed_row, unavailable_row, requeue_row}

abbrev pub IsGiven {ℓ} : {A : Type ℓ} → Option A → Type 0
IsGiven none = ⊥
IsGiven (some a) = Unit {0}

-- What holds of a row between two statements.
pub record IsSound (r : Item) : Type 0 where
  pub tried : r.state ≡ fetching → 1 ≤ r.attempts
  pub dated : r.state ≡ fetching → IsGiven r.last_try_at
  pub landed : r.state ≡ uploaded → IsGiven r.done_at
  pub revived_within : r.revivals ≤ max_revivals

-- Every row is sound, and every key stands once.
pub record IsSoundTable (rows : List Item) : Type 0 where
  pub each : All IsSound rows
  pub once : (k : String) → count (keyed k) rows ≤ 1

pub update-IsSoundTable :
    (p : Item → Bool) (f : Item → Item) (rows : List Item)
    → ((r : Item) → (f r).key ≡ r.key)
    → ((r : Item) → Memᴰ r rows → IsSound r → p r ≡ true → IsSound (f r))
    → IsSoundTable rows
    → IsSoundTable (update p f rows)
unfolding keyed
update-IsSoundTable p f rows same keep h = record {
  each = update-All_elem IsSound p f rows keep h.each;
  once = λ k. rw (count-update (keyed k) p f (λ r. ap (λ t. str_eq t k) (same r)) rows) (h.once k);
}

pub claim_row-IsSound : (now : ℕ) (r : Item) → IsSound r → IsSound (claim_row now r)
unfolding claim_row
claim_row-IsSound now r h = ground arith

pub uploaded_row-IsSound :
    (now : ℕ) (given : Facts) (r : Item) → IsSound r → IsSound (uploaded_row now given r)
unfolding uploaded_row
uploaded_row-IsSound now given r h = ground arith

pub failed_row-IsSound :
    (max_attempts retry_in now : ℕ) (error : String) (r : Item)
    → IsSound r
    → IsSound (failed_row r.attempts r.revivals max_attempts retry_in now error r)
unfolding failed_row
failed_row-IsSound m retry_in now error r h = ground arith

pub unavailable_row-IsSound :
    (now : ℕ) (reason : String) (r : Item) → IsSound r → IsSound (unavailable_row now reason r)
unfolding unavailable_row
unavailable_row-IsSound now reason r h = ground arith

pub requeue_row-IsSound : (reset : Bool) (r : Item) → IsSound r → IsSound (requeue_row reset r)
unfolding requeue_row
requeue_row-IsSound reset r h = ground arith

-- Where the key is new, no row has it.
find-none : (k : String) (rows : List Item) → find k rows ≡ none → count (keyed k) rows ≡ 0
unfolding find count
find-none k [] e = refl
find-none k (r ∷ rs) e = elim (Bool-cases (keyed k r)) [
  | inl h ↦ cc (rw h at e)
  | inr h ↦ rw h (omega (arith, find-none k rs (rw h at e)))
]

-- A row with a new key may be appended.
pub append_once :
    (rows : List Item) (r : Item)
    → find r.key rows ≡ none
    → ((k : String) → count (keyed k) rows ≤ 1)
    → (k : String) → count (keyed k) (rows ++ r ∷ []) ≤ 1
unfolding count keyed
append_once rows r new once k = elim (Bool-cases (str_eq r.key k)) [
  | inl e ↦
      subst (λ j. count (keyed j) (rows ++ r ∷ []) ≤ 1) ((eq_iff r.key k).0 e)
        (ground (
          arith,
          count-append (keyed r.key) rows (r ∷ []),
          find-none r.key rows new,
          eq_refl r.key,
        ))
  | inr e ↦ ground (arith, count-append (keyed k) rows (r ∷ []), once k, e)
]

pub append-IsSoundTable :
    (rows : List Item) (r : Item)
    → find r.key rows ≡ none
    → IsSound r
    → IsSoundTable rows
    → IsSoundTable (rows ++ r ∷ [])
append-IsSoundTable rows r new sound h = record {
  each = All-append IsSound rows (r ∷ []) h.each (sound, tt);
  once = append_once rows r new h.once;
}

-- A row that `mark_uploaded` is about to write may lack its date.
abbrev pub IsSoundBut : String → Item → Type 0
IsSoundBut key r = (keyed key r ≡ false → IsSound r) × (r.revivals ≤ max_revivals)

pub uploaded-IsSoundTable :
    (key : String) (now : ℕ) (given : Facts) (rows : List Item)
    → All (IsSoundBut key) rows
    → ((k : String) → count (keyed k) rows ≤ 1)
    → IsSoundTable (update (keyed key) (uploaded_row now given) rows)
unfolding uploaded_row keyed
uploaded-IsSoundTable key now given rows each once = record {
  each =
      update-All_to (IsSoundBut key) IsSound (keyed key) (uploaded_row now given) rows
        (λ r _ q _. record {
          tried = λ e. cc;
          dated = λ e. cc;
          landed = λ e. tt;
          revived_within = q.1;
        })
        (λ r q e. q.0 e) each;
  once = λ k.
      rw (count-update (keyed k) (keyed key) (uploaded_row now given) (λ r. refl) rows) (once k);
}
