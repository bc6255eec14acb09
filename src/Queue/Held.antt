-- ===== src/Queue/Held.antt =====
-- No operation of queue_manager.py on a queue loses or doubles a job.

use vios_manus.Common.{
  ℕ, ◌+◌, ◌≤◌, ◌≡◌, refl, ap, ◌∙◌, Bool, true, false, Option, none, some, String, str_eq, List, [],
  ◌∷◌, count, arith, eq_iff, Bool-cases, inl, inr, if◌then◌else◌,
}
use text.Mathlib.TextPositions.{eq_refl}
use vios_manus.Registry.Lookup.{has}
use vios_manus.Registry.Topo.Texts.{times, has-times}
use vios_manus.Queue.{last, but_last, remove_one}

pub chosen : {b : Bool} → b ≡ true → (ys zs : List String) → (if b then ys else zs) ≡ ys
chosen e ys zs = rw e refl

pub others : (b : Bool) (ys zs : List String) → b ≡ false → (if b then ys else zs) ≡ zs
others b ys zs e = rw e refl

absent :
    (x k j : String) (ks : List String)
    → str_eq x k ≡ true
    → times k (x ∷ ks) ≤ 1
    → has j ks ≡ true
    → str_eq j k ≡ false
unfolding count
absent x k j ks same once e = elim (Bool-cases (str_eq j k)) [
  | inl again ↦ ground (arith, once, same, has-times k ks (rw (← (eq_iff j k).0 again) e))
  | inr differs ↦ differs
]

fewer : (j x : String) (ks : List String) → times j (x ∷ ks) ≤ 1 → times j ks ≤ 1
unfolding count
fewer j x ks h = omega (arith, h)

known_rest :
    (x k : String) (ks : List String) → str_eq x k ≡ false → has k (x ∷ ks) ≡ true → has k ks ≡ true
unfolding has
known_rest x k ks differs h = ground (arith, h, differs)

abbrev or_text : String → Option String → String
or_text x none = x
or_text x (some t) = t

abbrev pub weight : (String → Bool) → String → ℕ
weight w t = if w t then 1 else 0

module _ (w : String → Bool) where
  -- The entries of some lists that pass a test.
  pub total : List String → (String → List String) → ℕ
  total [] f = 0
  total (k ∷ ks) f = count w (f k) + total ks f

  pub total_same :
      (ks : List String) (f h : String → List String)
      → ((j : String) → has j ks ≡ true → h j ≡ f j)
      → total ks h ≡ total ks f
  unfolding total has
  total_same [] f h same = refl
  total_same (k ∷ ks) f h same =
      rw (same k (ground (arith, eq_refl k)))
        (ap (λ n. count w (f k) + n) (total_same ks f h (λ j e. same j (ground (arith, e)))))

  -- Where one of distinct lists changes, the total changes by as much as that list.
  pub total_changed :
      (ks : List String) (k : String) (ys : List String) (f h : String → List String)
      → ((j : String) → times j ks ≤ 1)
      → has k ks ≡ true
      → ((j : String) → h j ≡ (if str_eq j k then ys else f j))
      → total ks h + count w (f k) ≡ total ks f + count w ys
  unfolding total has
  total_changed [] k ys f h once known change = cc
  total_changed (x ∷ ks) k ys f h once known change = elim (Bool-cases (str_eq x k)) [
    | inl same ↦ omega (
      arith,
      ap (count w) (change x ∙ chosen same ys (f x)),
      ap (λ j. count w (f j)) ((eq_iff x k).0 same),
      total_same ks f h
          (λ j e. change j ∙ others (str_eq j k) ys (f j) (absent x k j ks same (once k) e)),
    )
    | inr differs ↦ omega (
      arith,
      ap (count w) (change x ∙ others (str_eq x k) ys (f x) differs),
      total_changed ks k ys f h (λ j. fewer j x ks (once j)) (known_rest x k ks differs known)
          change,
    )
  ]

  pub count-remove_one :
      (t : String) (xs : List String)
      → has t xs ≡ true
      → count w (remove_one t xs) + (if w t then 1 else 0) ≡ count w xs
  unfolding count has
  count-remove_one t [] h = cc
  count-remove_one t (x ∷ xs) h = elim (Bool-cases (str_eq x t)) [
    | inl same ↦ rw ((eq_iff x t).0 same) (ground (arith, eq_refl t))
    | inr differs ↦ ground (arith, differs, count-remove_one t xs (ground (arith, h, differs)))
  ]

  pub count-but_last :
      (xs : List String) (t : String)
      → last xs ≡ some t
      → count w (but_last xs) + (if w t then 1 else 0) ≡ count w xs
  unfolding count
  count-but_last [] t h = cc
  count-but_last (x ∷ []) t h = omega (arith, ap (λ o. weight w (or_text x o)) h)
  count-but_last (x ∷ y ∷ ys) t h = omega (arith, count-but_last (y ∷ ys) t h)
