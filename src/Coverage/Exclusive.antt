-- ===== src/Coverage/Exclusive.antt =====
-- What `claim` and `claim_for` of vios/process/coverage.py promise to the other workers.
use text.Mathlib.TextPositions.{eq_refl}
use vios_manus.Common.{
  ℕ, ◌≤◌, ◌<◌, ◌≡◌, ◌≢◌, refl, ◌∙◌, Bool, true, false, String, str_eq, List, [], ◌∷◌, arith, All,
  AllPairs, count, length, min, inl, inr, ◌⊎◌, is_text, str_le, length-map, length-sort,
  length-select, if◌then◌else◌, any, AllPairs-refl, eq_iff,
}
use vios_manus.Sql.{
  update-AllPairs, count-update_mark, limited_passes, chosen_passes, count-limited, count-chosen,
}
use vios_manus.Coverage.{queued, running, done, failed, skipped, Row, Conn, Worker, claimable, mine}
use vios_manus.Coverage.Claim.{
  lease, offered, offered_for, fewest_attempts, claim, claim_for, with_token,
}
use vios_manus.Coverage.Read.{pending}
use vios_manus.Coverage.Table.{rowid_of, IsSoundTable}

-- Nobody works on the row and no clock holds it back.
pub record IsFree (now : ℕ) (r : Row) : Type 0 where
  pub not_done : r.state ≢ done
  pub not_skipped : r.state ≢ skipped
  pub no_live_lease : r.state ≡ running → r.lease_until < now
  pub queued_due : r.state ≡ queued → r.next_try_at ≤ now
  pub failed_due : r.state ≡ failed → r.next_try_at ≤ now

claimable-IsFree : (now : ℕ) (r : Row) → claimable now r ≡ true → IsFree now r
unfolding claimable
claimable-IsFree now r h = ground arith

-- What a claim does to a row: nothing, or it takes a free row that was asked for and leases it.
abbrev pub Taken : Worker → ℕ → String → (Row → Type 0) → Row → Row → Type 0
Taken w now token Asked r r' = (r' ≡ r) ⊎ (IsFree now r × Asked r × (r' ≡ lease w now token r))

-- The rows that `claim` and `claim_for` ask for.
abbrev pub AskedOf : Worker → Conn → String → Row → Type 0
AskedOf w c component r = (r.component ≡ component) × (mine w c.videos r ≡ true)

abbrev pub AskedFor : Worker → Conn → String → List String → Row → Type 0
AskedFor w c key components r =
    (r.video_key ≡ key) × (any (str_eq r.component) components ≡ true) × (mine w c.videos r ≡ true)

module _ (w : Worker) (now : ℕ) (token : String) (c : Conn) where
  taken :
      (Asked : Row → Type 0) (r : Row) (b : Bool)
      → (b ≡ true → IsFree now r × Asked r)
      → Taken w now token Asked r (if b then lease w now token r else r)
  taken Asked r true h = let (free, asked) = h refl in inr (free, asked, refl)
  taken Asked r false h = inl refl

  offered-IsFree :
      (component : String) (r : Row)
      → offered w c component now r ≡ true
      → IsFree now r × AskedOf w c component r
  unfolding offered
  offered-IsFree component r h = (
    claimable-IsFree now r (ground arith),
    ((eq_iff r.component component).0 (ground arith), ground arith),
  )

  offered_for-IsFree :
      (key : String) (components : List String) (r : Row)
      → offered_for w c key components now r ≡ true
      → IsFree now r × AskedFor w c key components r
  unfolding offered_for
  offered_for-IsFree key components r h = (
    claimable-IsFree now r (ground arith),
    ((eq_iff r.video_key key).0 (ground arith), ground arith, ground arith),
  )

  -- In a sound table, a row that `claim` changes is free, of the component asked for and in the
  -- worker's slice; it is then leased to the worker. Every other row stays as it was.
  pub claim_takes_free :
      (component : String) (n : ℕ)
      → IsSoundTable c.rows
      → AllPairs
          (Taken w now token (AskedOf w c component))
          c.rows
          (claim w component n now token c).0.rows
  unfolding claim
  claim_takes_free component n h =
      update-AllPairs (Taken w now token (AskedOf w c component)) _ (lease w now token) c.rows
        λ r m. taken (AskedOf w c component) r _ λ found. offered-IsFree component r (
          limited_passes rowid_of (offered w c component now) fewest_attempts n c.rows h.ids m
            found)

  -- In a sound table, a row that `claim_for` changes is free, of the video and one of the components
  -- asked for, and in the worker's slice; it is then leased to the worker. Every other row stays as
  -- it was.
  pub claim_for_takes_free :
      (key : String) (components : List String)
      → IsSoundTable c.rows
      → AllPairs
          (Taken w now token (AskedFor w c key components))
          c.rows
          (claim_for w key components now token c).0.rows
  unfolding claim_for
  claim_for_takes_free key [] h = AllPairs-refl _ (λ r. inl refl) c.rows
  claim_for_takes_free key (x ∷ xs) h =
      let components = x ∷ xs in
      update-AllPairs (Taken w now token (AskedFor w c key components)) _ (lease w now token) c.rows
        λ r m. taken (AskedFor w c key components) r _ λ found.
          offered_for-IsFree key components r
            (chosen_passes rowid_of (offered_for w c key components now) c.rows h.ids m found)

  -- No row carries the token yet: it is made by `uuid4` for this one call.
  abbrev pub IsNewToken : Type 0
  IsNewToken = All (λ r. is_text r.token token ≡ false) c.rows

  -- In a sound table where no row carries the token of the claim yet, `claim` returns as many videos
  -- as `pending` counts at that moment, up to the limit.
  pub length-claim :
      (component : String) (n : ℕ)
      → IsSoundTable c.rows
      → IsNewToken
      → length (claim w component n now token c).1 ≡ min n (pending w component now c)
  unfolding claim pending lease
  length-claim component n h new =
      length-sort str_le _
      ∙ length-map (λ r. r.video_key) (with_token token _)
      ∙ length-select (λ r. is_text r.token token) _
      ∙ count-update_mark (λ r. is_text r.token token) _ (lease w now token) c.rows
          (λ r. eq_refl token) new
      ∙ count-limited rowid_of (offered w c component now) fewest_attempts n c.rows h.ids

  -- `claim_for` returns every component of the video that it could take.
  pub length-claim_for :
      (key x : String) (xs : List String)
      → IsSoundTable c.rows
      → IsNewToken
      → length (claim_for w key (x ∷ xs) now token c).1
        ≡ count (offered_for w c key (x ∷ xs) now) c.rows
  unfolding claim_for lease
  length-claim_for key x xs h new =
      length-map (λ r. r.component) (with_token token _)
      ∙ length-select (λ r. is_text r.token token) _
      ∙ count-update_mark (λ r. is_text r.token token) _ (lease w now token) c.rows
          (λ r. eq_refl token) new
      ∙ count-chosen rowid_of (offered_for w c key (x ∷ xs) now) c.rows h.ids
