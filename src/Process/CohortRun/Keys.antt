-- ===== src/Process/CohortRun/Keys.antt =====
-- The keys that `candidates` of vios/process/coverage.py gives to the loop of a cohort.
use vios_manus.Common.{
  ℕ, ◌+◌, ◌≤◌, ◌≡◌, true, not, String, str_eq, List, [], ◌∷◌, All, count, select, arith, eq_iff,
  count-select, count-and-le, Bool-cases, inl, inr,
}
use vios_manus.Coverage.{Row, Conn, Worker}
use vios_manus.Coverage.Claim.{candidates}
use vios_manus.Coverage.Reports.{
  of_row, open_for, count-group_by_key, group_by_key_once, count-candidates,
}
use vios_manus.Registry.Lookup.{has}
use vios_manus.Process.OneVideo.Among.{IsAmong}
use vios_manus.Registry.Topo.Texts.{times, has-times, times-not-has, has-select}

among_has :
    (universe : List String) (k : String) (rows : List Row)
    → All (λ r. has r.video_key universe ≡ true) rows
    → 1 ≤ count (of_row k) rows
    → has k universe ≡ true
unfolding count
among_has universe k [] h one = absurd (omega arith)
among_has universe k (r ∷ rs) h one = elim (Bool-cases (str_eq r.video_key k)) [
  | inl same ↦ rw (← (eq_iff r.video_key k).0 same) h.0
  | inr differs ↦ among_has universe k rs h.1 (ground (arith, one, differs))
]

module _ (w : Worker) (now : ℕ) (c : Conn) where
  -- Each key is given once, and is the key of a row.
  pub candidates_once : (ids : List String) (k : String) → times k (candidates w ids 64 now c) ≤ 1
  unfolding candidates count
  candidates_once [] k = omega arith
  candidates_once (x ∷ xs) k = omega (
    arith,
    count-candidates w x xs 64 now c k,
    group_by_key_once k (select (open_for w c (x ∷ xs) now) c.rows),
  )

  pub candidates_among :
      (ids universe : List String) (k : String)
      → IsAmong universe c
      → has k (candidates w ids 64 now c) ≡ true
      → has k universe ≡ true
  unfolding has candidates
  candidates_among [] universe k h e = cc
  candidates_among (x ∷ xs) universe k h e = among_has universe k c.rows h (
      omega (
        arith,
        has-times k _ e,
        count-candidates w x xs 64 now c k,
        count-group_by_key k (select (open_for w c (x ∷ xs) now) c.rows),
        count-select (open_for w c (x ∷ xs) now) (of_row k) c.rows,
        count-and-le (open_for w c (x ∷ xs) now) (of_row k) c.rows,
      ))

-- The keys of a sweep, beside those that were seen.
pub fresh_once :
    (seen ks : List String) (k : String)
    → times k ks ≤ 1
    → times k seen ≤ 1
    → times k (select (λ j. not (has j seen)) ks) + times k seen ≤ 1
fresh_once seen ks k once before = elim (Bool-cases (has k seen)) [
  | inl known_yet ↦ omega (
    arith,
    before,
    times-not-has k (select (λ j. not (has j seen)) ks)
        (ground (arith, has-select k (λ j. not (has j seen)) ks, known_yet)),
  )
  | inr unseen ↦ omega (
    arith,
    once,
    times-not-has k seen unseen,
    count-select (λ j. not (has j seen)) (λ j. str_eq j k) ks,
    count-and-le (λ j. not (has j seen)) (λ j. str_eq j k) ks,
  )
]
