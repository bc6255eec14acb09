-- ===== src/Common/Lists.antt =====
-- Lists measured by native numbers, predicates over lists, and an insertion sort.
use Prim.Native.Nat.{ℕ, zero, suc, ◌+◌, ◌≤◌, min}
use mathlib.Core.Path.{◌≡◌, refl, ap, sym, subst, ◌∙◌}
use mathlib.Core.Logic.{inl, inr}
use mathlib.Core.Bool.{false≢true, Bool, true, false, not, ◌&&◌, ◌||◌}
use mathlib.Core.List.{List, [], ◌∷◌, ◌++◌, map, Memᴰ}
use native.Mathlib.Omega.{arith}
use vios_manus.Common.Tests.{◌==◌, ==_iff, Bool-cases, if◌then◌else◌}

module _ {ℓ} {A : Type ℓ} where
  abbrev pub length : List A → ℕ
  length [] = 0
  length (x ∷ xs) = suc (length xs)

  abbrev pub take : ℕ → List A → List A
  take zero xs = []
  take (suc n) [] = []
  take (suc n) (x ∷ xs) = x ∷ take n xs

  abbrev pub get_or : List A → ℕ → A → A
  get_or [] i d = d
  get_or (x ∷ xs) zero d = x
  get_or (x ∷ xs) (suc i) d = get_or xs i d

  abbrev pub any : (A → Bool) → List A → Bool
  any p [] = false
  any p (x ∷ xs) = p x || any p xs

  -- The elements that pass a test, and their number.
  unfoldable pub select : (A → Bool) → List A → List A
  select p [] = []
  select p (x ∷ xs) = let rest = select p xs in if p x then x ∷ rest else rest

  unfoldable pub count : (A → Bool) → List A → ℕ
  count p [] = 0
  count p (x ∷ xs) = (if p x then 1 else 0) + count p xs

  unfoldable pub insert : (A → A → Bool) → A → List A → List A
  insert before x [] = x ∷ []
  insert before x (y ∷ ys) =
      let rest = insert before x ys in if before x y then x ∷ y ∷ ys else y ∷ rest

  unfoldable pub sort : (A → A → Bool) → List A → List A
  unfolding insert
  sort before [] = []
  sort before (x ∷ xs) = insert before x (sort before xs)

  -- A predicate of every element, and a relation between two lists, element by element.
  abbrev pub All {κ} : (A → Type κ) → List A → Type κ
  All P [] = Unit
  All P (x ∷ xs) = P x × All P xs

  abbrev pub AllPairs : (A → A → Type 0) → List A → List A → Type 0
  AllPairs R [] [] = Unit {0}
  AllPairs R [] (y ∷ ys) = ⊥
  AllPairs R (x ∷ xs) [] = ⊥
  AllPairs R (x ∷ xs) (y ∷ ys) = R x y × AllPairs R xs ys

abbrev pub mem : ℕ → List ℕ → Bool
mem a [] = false
mem a (x ∷ xs) = a == x || mem a xs

abbrev pub sum : List ℕ → ℕ
sum [] = 0
sum (x ∷ xs) = x + sum xs

module _ {ℓ} {A : Type ℓ} where
  pub All-elem {κ} : (P : A → Type κ) {x : A} (xs : List A) → All P xs → Memᴰ x xs → P x
  All-elem P [] h m = elim m [ ]
  All-elem P (y ∷ ys) h (Memᴰ.head e) = subst P (sym e) h.0
  All-elem P (y ∷ ys) h (Memᴰ.tail m) = All-elem P ys h.1 m

  pub count-append : (p : A → Bool) (xs ys : List A) → count p (xs ++ ys) ≡ count p xs + count p ys
  unfolding count
  count-append p [] ys = omega arith
  count-append p (x ∷ xs) ys = omega (arith, count-append p xs ys)

  pub length-select : (p : A → Bool) (xs : List A) → length (select p xs) ≡ count p xs
  unfolding select count
  length-select p [] = refl
  length-select p (x ∷ xs) = ground (arith, length-select p xs)

  pub count-insert :
      (p : A → Bool) (before : A → A → Bool) (x : A) (xs : List A)
      → count p (insert before x xs) ≡ (if p x then 1 else 0) + count p xs
  unfolding count insert
  count-insert p before x [] = refl
  count-insert p before x (y ∷ ys) = ground (arith, count-insert p before x ys)

  pub count-sort :
      (p : A → Bool) (before : A → A → Bool) (xs : List A) → count p (sort before xs) ≡ count p xs
  unfolding sort count
  count-sort p before [] = refl
  count-sort p before (x ∷ xs) =
      count-insert p before x (sort before xs)
      ∙ ap (λ n. (if p x then 1 else 0) + n) (count-sort p before xs)

  pub count-take-le : (p : A → Bool) (n : ℕ) (xs : List A) → count p (take n xs) ≤ count p xs
  unfolding count
  count-take-le p zero xs = omega arith
  count-take-le p (suc n) [] = omega arith
  count-take-le p (suc n) (x ∷ xs) = omega (arith, count-take-le p n xs)

  pub length-take : (n : ℕ) (xs : List A) → length (take n xs) ≡ min n (length xs)
  length-take zero xs = omega arith
  length-take (suc n) [] = omega arith
  length-take (suc n) (x ∷ xs) = omega (arith, length-take n xs)

  pub length-eq-count : (xs : List A) → length xs ≡ count (λ _. true) xs
  unfolding count
  length-eq-count [] = refl
  length-eq-count (x ∷ xs) = omega (arith, length-eq-count xs)

  pub length-sort : (before : A → A → Bool) (xs : List A) → length (sort before xs) ≡ length xs
  length-sort before xs = rw (length-eq-count, count-sort, ← length-eq-count)

  pub count-select :
      (p q : A → Bool) (xs : List A) → count q (select p xs) ≡ count (λ x. p x && q x) xs
  unfolding select count
  count-select p q [] = refl
  count-select p q (x ∷ xs) = ground (arith, count-select p q xs)

  pub count-and-le : (p q : A → Bool) (xs : List A) → count (λ x. p x && q x) xs ≤ count q xs
  unfolding count
  count-and-le p q [] = omega arith
  count-and-le p q (x ∷ xs) = ground (arith, count-and-le p q xs)

  pub count-not : (p : A → Bool) (xs : List A) → count p xs + count (λ x. not (p x)) xs ≡ length xs
  unfolding count
  count-not p [] = refl
  count-not p (x ∷ xs) = ground (arith, count-not p xs)

  pub count-map {κ} :
      {B : Type κ} (p : B → Bool) (f : A → B) (xs : List A)
      → count p (map f xs) ≡ count (λ x. p (f x)) xs
  unfolding count
  count-map p f [] = refl
  count-map p f (x ∷ xs) = ap (λ n. (if p (f x) then 1 else 0) + n) (count-map p f xs)

  -- Tests that agree on every element count alike.
  pub count_congr :
      (p q : A → Bool) (xs : List A) → All (λ x. p x ≡ q x) xs → count p xs ≡ count q xs
  unfolding count
  count_congr p q [] h = refl
  count_congr p q (x ∷ xs) h =
      rw h.0 (ap (λ n. (if q x then 1 else 0) + n) (count_congr p q xs h.1))

  pub AllPairs-refl : (R : A → A → Type 0) → ((x : A) → R x x) → (xs : List A) → AllPairs R xs xs
  AllPairs-refl R h [] = tt
  AllPairs-refl R h (x ∷ xs) = (h x, AllPairs-refl R h xs)

  pub AllPairs-with {κ} :
      (P : A → Type κ) (R S : A → A → Type 0)
      → ((x y : A) → P x → R x y → S x y)
      → (xs ys : List A) → All P xs
      → AllPairs R xs ys
      → AllPairs S xs ys
  AllPairs-with P R S f [] [] h q = tt
  AllPairs-with P R S f [] (y ∷ ys) h q = elim q [ ]
  AllPairs-with P R S f (x ∷ xs) [] h q = elim q [ ]
  AllPairs-with P R S f (x ∷ xs) (y ∷ ys) h q = (f x y h.0 q.0, AllPairs-with P R S f xs ys h.1 q.1)

  pub All-append {κ} : (P : A → Type κ) (xs ys : List A) → All P xs → All P ys → All P (xs ++ ys)
  All-append P [] ys hx hy = hy
  All-append P (x ∷ xs) ys hx hy = (hx.0, All-append P xs ys hx.1 hy)

  pub All-select {κ} :
      (P : A → Type κ) (p : A → Bool) (xs : List A) → All P xs → All P (select p xs)
  unfolding select
  All-select P p [] h = tt
  All-select P p (x ∷ xs) h = elim (Bool-cases (p x)) [
    | inl e ↦ rw e (h.0, All-select P p xs h.1)
    | inr e ↦ rw e (All-select P p xs h.1)
  ]

  pub All_of_select {κ} :
      (P : A → Type κ) (p : A → Bool) (xs : List A)
      → All P (select p xs)
      → All (λ x. p x ≡ true → P x) xs
  unfolding select
  All_of_select P p [] h = tt
  All_of_select P p (x ∷ xs) h = elim (Bool-cases (p x)) [
    | inl e ↦ let h' = rw e at h in ((λ _. h'.0), All_of_select P p xs h'.1)
    | inr e ↦ ((λ e'. absurd (false≢true (sym e ∙ e'))), All_of_select P p xs (rw e at h))
  ]

  pub All_passes : (p : A → Bool) (xs : List A) → All (λ x. p x ≡ true) (select p xs)
  unfolding select
  All_passes p [] = tt
  All_passes p (x ∷ xs) = elim (Bool-cases (p x)) [
    | inl e ↦ rw e (e, All_passes p xs)
    | inr e ↦ rw e (All_passes p xs)
  ]

  pub All-imp {κ μ} :
      (P : A → Type κ) (Q : A → Type μ)
      → ((x : A) → P x → Q x)
      → (xs : List A) → All P xs
      → All Q xs
  All-imp P Q f [] h = tt
  All-imp P Q f (x ∷ xs) h = (f x h.0, All-imp P Q f xs h.1)

  pub All-intro {κ} : (P : A → Type κ) → ((x : A) → P x) → (xs : List A) → All P xs
  All-intro P h [] = tt
  All-intro P h (x ∷ xs) = (h x, All-intro P h xs)

  pub All-intro_elem {κ} : (P : A → Type κ) (xs : List A) → ((x : A) → Memᴰ x xs → P x) → All P xs
  All-intro_elem P [] h = tt
  All-intro_elem P (x ∷ xs) h =
      (h x (Memᴰ.head refl), All-intro_elem P xs (λ y m. h y (Memᴰ.tail m)))

-- Membership by a positive count.
pub mem-count : (i : ℕ) (xs : List ℕ) → mem i xs ≡ true → 1 ≤ count (λ x. x == i) xs
unfolding count
mem-count i [] h = cc
mem-count i (x ∷ xs) h = ground (arith, mem-count i xs)

count-mem : (i : ℕ) (xs : List ℕ) → mem i xs ≡ false → count (λ x. x == i) xs ≡ 0
unfolding count
count-mem i [] h = refl
count-mem i (x ∷ xs) h = ground (arith, count-mem i xs)

count_cons_le : (j i : ℕ) (ids : List ℕ) → count (λ k. k == j) ids ≤ count (λ k. k == j) (i ∷ ids)
unfolding count
count_cons_le j i ids = omega arith

head_once :
    (i : ℕ) (ids : List ℕ)
    → count (λ k. k == i) (i ∷ ids) ≤ 1
    → (1 ≤ count (λ k. k == i) (i ∷ ids)) × (mem i ids ≡ false)
unfolding count
head_once i ids h = elim (Bool-cases (mem i ids)) [
  | inl e ↦ ground (arith, mem-count i ids e)
  | inr e ↦ ground arith
]

module _ {ℓ} {A : Type ℓ} where
  -- Two tests that no element passes both.
  pub count_or :
      (p q : A → Bool) (xs : List A)
      → ((x : A) → p x ≡ true → q x ≡ false)
      → count (λ x. p x || q x) xs ≡ count p xs + count q xs
  unfolding count
  count_or p q [] h = omega arith
  count_or p q (x ∷ xs) h = ground (arith, h x, count_or p q xs h)

  pub length-map {κ} : {B : Type κ} (f : A → B) (xs : List A) → length (map f xs) ≡ length xs
  length-map f [] = refl
  length-map f (x ∷ xs) = ap suc (length-map f xs)

  pub count_none : (xs : List A) → count (λ _. false) xs ≡ 0
  unfolding count
  count_none [] = refl
  count_none (x ∷ xs) = omega (arith, count_none xs)

  pub count_elem : (p : A → Bool) {x : A} (xs : List A) → Memᴰ x xs → p x ≡ true → 1 ≤ count p xs
  unfolding count
  count_elem p [] m h = elim m [ ]
  count_elem p (y ∷ ys) (Memᴰ.head e) h = ground (arith, ap p e)
  count_elem p (y ∷ ys) (Memᴰ.tail m) h = ground (arith, count_elem p ys m h)

  -- As many elements have a key among `ids` as there are `ids`, if keys are distinct in the list
  -- and each id is the key of an element.
  pub count_keys :
      (key : A → ℕ) (ids : List ℕ) (xs : List A)
      → ((i : ℕ) → count (λ x. key x == i) xs ≤ 1)
      → ((i : ℕ) → count (λ j. j == i) ids ≤ count (λ x. key x == i) xs)
      → count (λ x. mem (key x) ids) xs ≡ length ids
  count_keys key [] xs one sub = count_none xs
  count_keys key (i ∷ ids) xs one sub =
      let rest = count_keys key ids xs one (λ j. omega (arith, sub j, count_cons_le j i ids)) in
      let (once, absent) = head_once i ids (omega (arith, sub i, one i)) in
      omega (
        arith,
        rest,
        one i,
        sub i,
        once,
        count_or (λ x. key x == i) (λ x. mem (key x) ids) xs
            (λ x e. rw ((==_iff (key x) i).0 e) absent),
      )
