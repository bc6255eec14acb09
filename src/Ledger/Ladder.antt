-- ===== src/Ledger/Ladder.antt =====
-- The retries of one video in vios/capture/ledger.py: what `claim_next` and `mark_failed` do to its
-- row, one try after another.
use mathlib.Core.Path.{subst}
use native.Mathlib.Nat.{mul-le-mul_left}
use vios_manus.Common.{
  ℕ, suc, ◌+◌, ◌*◌, ◌≤◌, ◌<◌, ◌≡◌, ◌⊎◌, inl, inr, String, List, [], ◌∷◌, length, arith, leb, ltb,
  Bool-cases,
}
use vios_manus.Ledger.{Item, revive_after, max_revivals, parked}
use vios_manus.Ledger.Work.{claim_row, failed_row, revival_row, retry_row}

-- One try that fails: when the row is claimed, when it is marked, and the `retry_in` of the mark.
pub record Try : Type 0 where
  pub claimed_at : ℕ
  pub failed_at : ℕ
  pub retry_in : ℕ
  pub error : String

unfoldable pub retry : ℕ → Try → Item → Item
unfolding claim_row failed_row
retry m t r =
    let c = claim_row t.claimed_at r in
    failed_row c.attempts c.revivals m t.retry_in t.failed_at t.error c

unfoldable pub retry_all : ℕ → List Try → Item → Item
unfolding retry
retry_all m [] r = r
retry_all m (t ∷ ts) r = retry_all m ts (retry m t r)

-- A row after n tries. Each revival stands for m of them.
record IsRung (m n : ℕ) (r : Item) : Type 0 where
  pub counted : m * r.revivals + r.attempts ≡ n
  pub within : r.revivals ≤ max_revivals
  pub fewer : r.revivals < max_revivals → r.attempts < m

retry-IsRung :
    (m n : ℕ) (t : Try) (r : Item) → 1 ≤ m → IsRung m n r → IsRung m (suc n) (retry m t r)
unfolding retry failed_row revival_row retry_row claim_row
retry-IsRung m n t r one h = elim (Bool-cases (leb m (r.attempts + 1))) [
  | inl a ↦
      let full : m ≤ r.attempts + 1 = ground arith in
      elim (Bool-cases (ltb r.revivals max_revivals)) [
        | inl b ↦
            rw (retry, failed_row, a, b)
              (record {
                counted = omega (arith, h.counted, h.fewer (ground arith), full);
                within = ground arith;
                fewer = λ _. one;
              })
        | inr b ↦
            rw (retry, failed_row, a, b)
              (record {
                counted = omega (arith, h.counted);
                within = h.within;
                fewer = λ lt. absurd (ground arith);
              })
      ]
  | inr a ↦
      rw (retry, failed_row, a)
        (record {
          counted = omega (arith, h.counted);
          within = h.within;
          fewer = λ _. ground arith;
        })
]

all-IsRung :
    (m n : ℕ) (ts : List Try) (r : Item)
    → 1 ≤ m
    → IsRung m n r
    → IsRung m (length ts + n) (retry_all m ts r)
unfolding retry_all
all-IsRung m n [] r one h = subst (λ k. IsRung m k r) (omega arith) h
all-IsRung m n (t ∷ ts) r one h =
    subst (λ k. IsRung m k (retry_all m (t ∷ ts) r)) (omega arith)
      (all-IsRung m (suc n) ts (retry m t r) one (retry-IsRung m n t r one h))

-- What the last of the tries did: it set the `retry_in` of the caller, or spent a revival, or found
-- none left.
waits :
    (m : ℕ) (t : Try) (r : Item)
    → let r' = retry m t r in
      ((r.attempts + 1 < m)
        × (r'.attempts ≡ r.attempts + 1)
        × (r'.next_try_at ≡ t.failed_at + t.retry_in))
      ⊎ (((r.revivals < max_revivals)
            × (r'.attempts ≡ 0)
            × (r'.next_try_at ≡ t.failed_at + revive_after))
          ⊎ ((m ≤ r.attempts + 1)
              × (max_revivals ≤ r.revivals)
              × (r'.next_try_at ≡ t.failed_at + parked)))
unfolding retry failed_row revival_row retry_row claim_row
waits m t r = ground arith

-- The tries of a row without attempts and revivals, of which the last is `t`. Below seven rounds of
-- `max_attempts` tries, every one is counted in the attempts or, by the round, in the revivals; the
-- row waits for four hours where `t` ends a round and for `retry_in` otherwise. From the end of the
-- seventh round on it is parked after each try.
pub retry_all_lem :
    (m : ℕ) (ts : List Try) (t : Try) (new : Item)
    → 1 ≤ m
    → new.attempts ≡ 0
    → new.revivals ≡ 0
    → let n = length ts + 1 in
      let r = retry m t (retry_all m ts new) in
      ((n < 7 * m)
        × (m * r.revivals + r.attempts ≡ n)
        × (r.attempts < m)
        × (((r.attempts ≡ 0) × (r.next_try_at ≡ t.failed_at + revive_after))
            ⊎ ((1 ≤ r.attempts) × (r.next_try_at ≡ t.failed_at + t.retry_in))))
      ⊎ ((7 * m ≤ n) × (r.next_try_at ≡ t.failed_at + parked))
retry_all_lem m ts t new one a v =
    let before = retry_all m ts new in
    let start : IsRung m 0 new = record {
      counted = rw (a, v) (omega arith);
      within = omega (arith, v);
      fewer = λ _. omega (arith, a, one);
    } in
    let h = all-IsRung m 0 ts new one start in
    let h' = retry-IsRung m (length ts + 0) t before one h in
    let bound = mul-le-mul_left m h.within in
    elim (waits m t before) [
      | inl (lt, up, at) ↦ inl (
        omega (arith, h.counted, bound, lt),
        omega (arith, h'.counted),
        omega (arith, up, lt),
        inr (omega (arith, up), at),
      )
      | inr (inl (lt, zeroed, at)) ↦ inl (
        omega (arith, h.counted, mul-le-mul_left m lt, h.fewer lt),
        omega (arith, h'.counted),
        omega (arith, zeroed, one),
        inl (zeroed, at),
      )
      | inr (inr (le, out, at)) ↦ inr (omega (arith, h.counted, mul-le-mul_left m out, le), at)
    ]
