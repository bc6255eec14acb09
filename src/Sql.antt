-- ===== src/Sql.antt =====
-- The SQL statements of the Python sources over a table held as a list of rows: UPDATE with its
-- row count, and a selection of rows by their rowid.
use vios_manus.Common.{
  false, ℕ, suc, ◌+◌, ◌≤◌, min, ◌≡◌, inl, inr, refl, ap, ◌∙◌, Bool, true, ◌&&◌, List, [], ◌∷◌, map,
  arith, length, take, select, count, sort, mem, All, AllPairs, ◌==◌, if◌then◌else◌, count-select,
  count-sort, count-take-le, count-map, count-and-le, length-take, length-sort, length-select,
  length-map, mem-count, Bool-cases, count_elem, ==_iff, count_keys,
}
use mathlib.Core.List.{Memᴰ}

module _ {ℓ} {A : Type ℓ} where
  -- `UPDATE t SET … WHERE …`; its row count is `count` of the same test.
  unfoldable pub update : (A → Bool) → (A → A) → List A → List A
  update p f [] = []
  update p f (x ∷ xs) = (if p x then f x else x) ∷ update p f xs

  pub length-update : (p : A → Bool) (f : A → A) (xs : List A) → length (update p f xs) ≡ length xs
  unfolding update
  length-update p f [] = refl
  length-update p f (x ∷ xs) = ap suc (length-update p f xs)

  -- A property that the assignment keeps, where the test passes, is kept by the statement.
  pub update-All {κ} :
      (P : A → Type κ) (p : A → Bool) (f : A → A)
      → ((x : A) → P x → p x ≡ true → P (f x))
      → (xs : List A) → All P xs
      → All P (update p f xs)
  unfolding update
  update-All P p f keep [] h = tt
  update-All P p f keep (x ∷ xs) h = (
    elim (Bool-cases (p x)) [ inl e ↦ rw e (keep x h.0 e) | inr e ↦ rw e h.0 ],
    update-All P p f keep xs h.1,
  )

  -- The same, where the proof may use that the row stands in the table.
  pub update-All_elem {κ} :
      (P : A → Type κ) (p : A → Bool) (f : A → A) (xs : List A)
      → ((x : A) → Memᴰ x xs → P x → p x ≡ true → P (f x))
      → All P xs
      → All P (update p f xs)
  unfolding update
  update-All_elem P p f [] keep h = tt
  update-All_elem P p f (x ∷ xs) keep h = (
    elim (Bool-cases (p x)) [ inl e ↦ rw e (keep x (Memᴰ.head refl) h.0 e) | inr e ↦ rw e h.0 ],
    update-All_elem P p f xs (λ y m. keep y (Memᴰ.tail m)) h.1,
  )

  -- A fact about the rows before the statement gives another about the rows after it.
  pub update-All_to {κ μ} :
      (P : A → Type κ) (Q : A → Type μ) (p : A → Bool) (f : A → A) (xs : List A)
      → ((x : A) → Memᴰ x xs → P x → p x ≡ true → Q (f x))
      → ((x : A) → P x → p x ≡ false → Q x)
      → All P xs
      → All Q (update p f xs)
  unfolding update
  update-All_to P Q p f [] changed kept h = tt
  update-All_to P Q p f (x ∷ xs) changed kept h = (
    elim (Bool-cases (p x)) [
      | inl e ↦ rw e (changed x (Memᴰ.head refl) h.0 e)
      | inr e ↦ rw e (kept x h.0 e)
    ],
    update-All_to P Q p f xs (λ y m. changed y (Memᴰ.tail m)) kept h.1,
  )

  -- What happens to every row that a statement sees, row by row.
  pub update-AllPairs :
      (R : A → A → Type 0) (p : A → Bool) (f : A → A) (xs : List A)
      → ((x : A) → Memᴰ x xs → R x (if p x then f x else x))
      → AllPairs R xs (update p f xs)
  unfolding update
  update-AllPairs R p f [] h = tt
  update-AllPairs R p f (x ∷ xs) h =
      (h x (Memᴰ.head refl), update-AllPairs R p f xs (λ y m. h y (Memᴰ.tail m)))

  -- A count of rows by what the assignment leaves alone.
  pub count-update :
      (q p : A → Bool) (f : A → A)
      → ((x : A) → q (f x) ≡ q x)
      → (xs : List A) → count q (update p f xs) ≡ count q xs
  unfolding update count
  count-update q p f same [] = refl
  count-update q p f same (x ∷ xs) = elim (Bool-cases (p x)) [
    | inl e ↦ rw (e, same) (ap (λ n. (if q x then 1 else 0) + n) (count-update q p f same xs))
    | inr e ↦ rw e (ap (λ n. (if q x then 1 else 0) + n) (count-update q p f same xs))
  ]

  -- Where the assignment makes a test pass that no row passed before, the rows that pass it are
  -- the rows that were changed.
  pub count-update_mark :
      (q p : A → Bool) (f : A → A) (xs : List A)
      → ((x : A) → q (f x) ≡ true)
      → All (λ x. q x ≡ false) xs
      → count q (update p f xs) ≡ count p xs
  unfolding update count
  count-update_mark q p f [] marks none_yet = refl
  count-update_mark q p f (x ∷ xs) marks none_yet =
      ground (arith, marks x, count-update_mark q p f xs marks none_yet.1)

  -- Each key occurs at most once.
  abbrev pub Distinct : (A → ℕ) → List A → Type 0
  Distinct key xs = (i : ℕ) → count (λ x. key x == i) xs ≤ 1

  -- `SELECT rowid FROM t WHERE p ORDER BY before LIMIT n`
  unfoldable pub limited : (A → ℕ) → (A → Bool) → (A → A → Bool) → ℕ → List A → List ℕ
  limited key p before n xs = map key (take n (sort before (select p xs)))

  -- `SELECT rowid FROM t WHERE p`
  unfoldable pub chosen : (A → ℕ) → (A → Bool) → List A → List ℕ
  chosen key p xs = map key (select p xs)

  module _ (key : A → ℕ) (p : A → Bool) where
    found_passes :
        {x : A} (xs : List A)
        → Memᴰ x xs
        → count (λ y. key y == key x) xs ≤ 1
        → 1 ≤ count (λ y. p y && key y == key x) xs
        → p x ≡ true
    unfolding count
    found_passes [] m one h = elim m [ ]
    found_passes {x} (y ∷ ys) (Memᴰ.head e) one h = elim (Bool-cases (p x)) [
      | inl yes_p ↦ yes_p
      | inr no_p ↦ ground (arith, e, count-and-le p (λ z. key z == key x) ys)
    ]
    found_passes {x} (y ∷ ys) (Memᴰ.tail m) one h = ground (
      arith,
      found_passes ys m,
      count_elem (λ z. key z == key x) ys m ((==_iff _ _).1 refl),
      count-and-le p (λ z. key z == key x) ys,
    )

    -- A row whose rowid the subquery returns passes the subquery's test.
    pub limited_passes :
        (before : A → A → Bool) (n : ℕ) {x : A} (xs : List A)
        → Distinct key xs
        → Memᴰ x xs
        → mem (key x) (limited key p before n xs) ≡ true
        → p x ≡ true
    unfolding limited
    limited_passes before n {x} xs one m h =
        let same = λ (y : A). key y == key x in
        found_passes xs m (one (key x)) (
          omega (
            arith,
            mem-count (key x) _ h,
            count-map (λ i. i == key x) key (take n (sort before (select p xs))),
            count-take-le same n (sort before (select p xs)),
            count-sort same before (select p xs),
            count-select p same xs,
          ))

    pub length-limited :
        (before : A → A → Bool) (n : ℕ) (xs : List A)
        → length (limited key p before n xs) ≡ min n (count p xs)
    unfolding limited
    length-limited before n xs = rw (length-map, length-take, length-sort, length-select)

    -- With distinct keys a statement on the rows that the subquery returns changes as many rows
    -- as pass the test, up to the limit.
    pub count-limited :
        (before : A → A → Bool) (n : ℕ) (xs : List A)
        → Distinct key xs
        → count (λ x. mem (key x) (limited key p before n xs)) xs ≡ min n (count p xs)
    count-limited before n xs one =
        count_keys key (limited key p before n xs) xs one (
          unfold limited in
          λ i.
            let same = λ (y : A). key y == i in
            omega (
              arith,
              count-map (λ j. j == i) key (take n (sort before (select p xs))),
              count-take-le same n (sort before (select p xs)),
              count-sort same before (select p xs),
              count-select p same xs,
              count-and-le p same xs,
            ))
        ∙ length-limited before n xs

    chosen_total :
        (i : ℕ) (xs : List A)
        → count (λ j. j == i) (chosen key p xs) ≡ count (λ y. p y && key y == i) xs
    unfolding chosen
    chosen_total i xs =
        count-map (λ j. j == i) key (select p xs) ∙ count-select p (λ y. key y == i) xs

    -- The same two facts for a subquery with neither an order nor a limit.
    pub chosen_passes :
        {x : A} (xs : List A)
        → Distinct key xs
        → Memᴰ x xs
        → mem (key x) (chosen key p xs) ≡ true
        → p x ≡ true
    chosen_passes {x} xs one m h =
        found_passes xs m (one (key x))
          (omega (arith, mem-count (key x) _ h, chosen_total (key x) xs))

    pub count-chosen :
        (xs : List A) → Distinct key xs → count (λ x. mem (key x) (chosen key p xs)) xs ≡ count p xs
    count-chosen xs one =
        count_keys key (chosen key p xs) xs one
          (λ i. omega (arith, chosen_total i xs, count-and-le p (λ y. key y == i) xs))
        ∙ (unfold chosen in length-map key (select p xs) ∙ length-select p xs)
