-- ===== src/Coverage/Leases.antt =====
-- Sequences of claims by any workers of vios/process/coverage.py, against the lease of `claim` and
-- the delay of `fail`.
use vios_manus.Common.{
  ℕ, ◌+◌, ◌*◌, ◌≤◌, ◌<◌, ◌≡◌, refl, ◌∙◌, true, false, String, List, [], ◌∷◌, arith, All, AllPairs,
  AllPairs-refl, AllPairs-with, inl, inr, is_text,
}
use vios_manus.Sql.{update-All_to}
use vios_manus.Coverage.{Row, Conn, Worker, at, lease_seconds, second}
use vios_manus.Coverage.Claim
use vios_manus.Coverage.Claim.{lease}
use vios_manus.Coverage.Finish.{fail, fail_row, fail_state, fail_next_try, attempts_at}
use vios_manus.Coverage.Table.{IsSoundTable, attempts_at_row}
use vios_manus.Coverage.Exclusive.{
  IsFree, Taken, AskedOf, AskedFor, claim_takes_free, claim_for_takes_free,
}
use vios_manus.Coverage.History
use vios_manus.Coverage.History.{Call, claim, claim_for, perform, run, perform-IsSoundTable}

-- No claim up to a moment finds the row free.
abbrev pub IsHeldUntil : ℕ → Row → Type 0
IsHeldUntil until r = (now : ℕ) → now ≤ until → ¬ IsFree now r

-- The calls that take rows, made at the latest at a given moment.
abbrev pub IsClaimBy : ℕ → Call → Type 0
IsClaimBy until (claim w component n now token) = now ≤ until
IsClaimBy until (claim_for w key components now token) = now ≤ until
IsClaimBy until _ = ⊥

abbrev pub Spares : ℕ → Row → Row → Type 0
Spares until r r' = IsHeldUntil until r → r' ≡ r

module _ (until : ℕ) where
  Spares-trans :
      (xs ys zs : List Row)
      → AllPairs (Spares until) xs ys
      → AllPairs (Spares until) ys zs
      → AllPairs (Spares until) xs zs
  Spares-trans [] [] [] p q = tt
  Spares-trans [] [] (z ∷ zs) p q = elim q [ ]
  Spares-trans [] (y ∷ ys) zs p q = elim p [ ]
  Spares-trans (x ∷ xs) [] zs p q = elim p [ ]
  Spares-trans (x ∷ xs) (y ∷ ys) [] p q = elim q [ ]
  Spares-trans (x ∷ xs) (y ∷ ys) (z ∷ zs) p q =
      (λ h. q.0 (rw (p.0 h) h) ∙ p.0 h, Spares-trans xs ys zs p.1 q.1)

  spared :
      (w : Worker) (now : ℕ) (token : String) (Asked : Row → Type 0) (xs ys : List Row)
      → now ≤ until
      → AllPairs (Taken w now token Asked) xs ys
      → AllPairs (Spares until) xs ys
  spared w now token Asked [] [] le t = tt
  spared w now token Asked [] (y ∷ ys) le t = elim t [ ]
  spared w now token Asked (x ∷ xs) [] le t = elim t [ ]
  spared w now token Asked (x ∷ xs) (y ∷ ys) le t = (
    λ held. elim t.0 [ inl same ↦ same | inr (free, _, _) ↦ absurd (held now le free) ],
    spared w now token Asked xs ys le t.1,
  )

  perform-Spares :
      (x : Call) (c : Conn)
      → IsSoundTable c.rows
      → IsClaimBy until x
      → AllPairs (Spares until) c.rows (perform x c).rows
  unfolding perform
  perform-Spares (claim w component n now token) c h le =
      spared w now token (AskedOf w c component) c.rows _ le
        (claim_takes_free w now token c component n h)
  perform-Spares (claim_for w key components now token) c h le =
      spared w now token (AskedFor w c key components) c.rows _ le
        (claim_for_takes_free w now token c key components h)
  perform-Spares _ c h le = elim le [ ]

  -- A row that is held until a moment is not changed by any sequence of claims, by any workers
  -- and for any components, that are made up to that moment.
  pub claims_spare_held :
      (calls : List Call) (c : Conn)
      → IsSoundTable c.rows
      → All (IsClaimBy until) calls
      → AllPairs (Spares until) c.rows (run calls c).rows
  unfolding run
  claims_spare_held [] c h le = AllPairs-refl (Spares until) (λ r held. refl) c.rows
  claims_spare_held (x ∷ xs) c h le =
      Spares-trans c.rows (perform x c).rows (run xs (perform x c)).rows (perform-Spares x c h le.0)
        (claims_spare_held xs (perform x c) (perform-IsSoundTable x c h) le.1)

-- A lease that has just been given holds the row until it lapses.
lease-IsHeldUntil :
    (w : Worker) (now : ℕ) (token : String) (r : Row)
    → IsHeldUntil (now + lease_seconds) (lease w now token r)
unfolding lease
lease-IsHeldUntil w now token r t le free = omega (arith, free.no_live_lease refl)

abbrev Carries : String → Row → Type 0
Carries token r = is_text r.token token ≡ true

-- In a sound table where no row carries the token of the claim yet, what `claim` leases is left
-- alone by every sequence of claims, of any workers, made until the lease lapses.
pub claim_then_claims :
    (w : Worker) (component : String) (n now : ℕ) (token : String) (c : Conn) (calls : List Call)
    → IsSoundTable c.rows
    → All (λ r. is_text r.token token ≡ false) c.rows
    → All (IsClaimBy (now + lease_seconds)) calls
    → let c' = (Claim.claim w component n now token c).0 in
      AllPairs (λ r r'. is_text r.token token ≡ true → r' ≡ r) c'.rows (run calls c').rows
claim_then_claims w component n now token c calls h new by =
    let c' = (Claim.claim w component n now token c).0 in
    AllPairs-with (λ r. Carries token r → IsHeldUntil (now + lease_seconds) r)
      (Spares (now + lease_seconds)) (λ r r'. Carries token r → r' ≡ r)
      (λ r r' held spare carries. spare (held carries)) c'.rows (run calls c').rows
      (unfold Claim.claim in
        update-All_to (λ r. is_text r.token token ≡ false)
          (λ r. Carries token r → IsHeldUntil (now + lease_seconds) r) _ (lease w now token) c.rows
          (λ r _ _ _ _. lease-IsHeldUntil w now token r) (λ r absent _ carries. cc) new)
      (claims_spare_held (now + lease_seconds) calls c'
        (unfold perform in perform-IsSoundTable (claim w component n now token) c h) by)

-- The shortest wait after a failed attempt.
abbrev shortest_backoff : ℕ
shortest_backoff = 10 * 60 * second

fail_row-IsHeldUntil :
    (now until : ℕ) (error : String) (r : Row)
    → 1 ≤ r.attempts
    → until < now + shortest_backoff
    → IsHeldUntil until (fail_row (fail_state r.attempts) (fail_next_try r.attempts now) error r)
unfolding fail_row fail_state fail_next_try
fail_row-IsHeldUntil now until error r tried short t le free =
    ground (arith, free.queued_due, free.failed_due)

-- In a sound table, a row that was tried at least once and that `fail` has put back is left alone
-- by every sequence of claims made less than ten minutes after the failure.
pub fail_then_claims :
    (key component error : String) (now until : ℕ) (c : Conn) (calls : List Call)
    → IsSoundTable c.rows
    → All (λ r. at key component r ≡ true → 1 ≤ r.attempts) c.rows
    → until < now + shortest_backoff
    → All (IsClaimBy until) calls
    → let c' = (fail key component error now c).0 in
      AllPairs (λ r r'. at key component r ≡ true → r' ≡ r) c'.rows (run calls c').rows
fail_then_claims key component error now until c calls h tried short by =
    let c' = (fail key component error now c).0 in
    let n = attempts_at key component c.rows in
    AllPairs-with (λ r. at key component r ≡ true → IsHeldUntil until r) (Spares until)
      (λ r r'. at key component r ≡ true → r' ≡ r) (λ r r' held spare e. spare (held e)) c'.rows
      (run calls c').rows
      (unfold fail in
        update-All_to (λ r. at key component r ≡ true → 1 ≤ r.attempts)
          (λ r. at key component r ≡ true → IsHeldUntil until r) (at key component)
          (fail_row (fail_state n) (fail_next_try n now) error) c.rows
          (λ r m tried_r e _.
            rw (attempts_at_row key component c.rows m e (h.keyed key component))
              (fail_row-IsHeldUntil now until error r (tried_r e) short))
          (λ r _ absent e. cc) tried)
      (claims_spare_held until calls c'
        (unfold perform in perform-IsSoundTable (History.fail key component error now) c h) by)
