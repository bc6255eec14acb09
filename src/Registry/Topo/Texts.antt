-- ===== src/Registry/Topo/Texts.antt =====
-- Lists of ids by their members: what the proofs about `topo_sort` use of `in`, `sorted` and
-- comprehensions.
use vios_manus.Common.{
  ℕ, ◌+◌, if◌then◌else◌, ◌≤◌, ◌≡◌, refl, ◌∙◌, sym, ap, Bool, true, false, ◌&&◌, ◌||◌, List, [], ◌∷◌,
  ◌++◌, arith, String, str_eq, eq_iff, select, sort, insert, count, count-sort, count-append,
}
use vios_manus.Registry.Lookup.{has}

-- how often an id stands in a list
abbrev pub times : String → List String → ℕ
times i xs = count (λ y. str_eq y i) xs

pub has-times : (i : String) (xs : List String) → has i xs ≡ true → 1 ≤ times i xs
unfolding has count
has-times i [] h = cc
has-times i (x ∷ xs) h = ground (arith, has-times i xs)

pub times-has : (i : String) (xs : List String) → 1 ≤ times i xs → has i xs ≡ true
unfolding has count
times-has i [] h = absurd (omega arith)
times-has i (x ∷ xs) h = ground (arith, times-has i xs)

pub times-not-has : (i : String) (xs : List String) → has i xs ≡ false → times i xs ≡ 0
unfolding has count
times-not-has i [] h = refl
times-not-has i (x ∷ xs) h = ground (arith, times-not-has i xs)

has-cons : (i x : String) (xs : List String) → has i (x ∷ xs) ≡ (str_eq x i || has i xs)
unfolding has
has-cons i x xs = refl

pub has-append : (i : String) (xs ys : List String) → has i (xs ++ ys) ≡ (has i xs || has i ys)
unfolding has
has-append i [] ys = refl
has-append i (x ∷ xs) ys = ground (arith, has-append i xs ys)

has-single : (i x : String) → has i (x ∷ []) ≡ str_eq x i
unfolding has
has-single i x = ground arith

pub has-select :
    (i : String) (p : String → Bool) (xs : List String) → has i (select p xs) ≡ (has i xs && p i)
unfolding has select
has-select i p [] = refl
has-select i p (x ∷ xs) = ground (arith, has-select i p xs, eq_iff x i, p x, p i)

has-insert :
    (i : String) (b : String → String → Bool) (x : String) (xs : List String)
    → has i (insert b x xs) ≡ (str_eq x i || has i xs)
unfolding has insert
has-insert i b x [] = refl
has-insert i b x (y ∷ ys) = ground (arith, has-insert i b x ys)

pub has-sort :
    (i : String) (b : String → String → Bool) (xs : List String) → has i (sort b xs) ≡ has i xs
unfolding sort
has-sort i b [] = refl
has-sort i b (x ∷ xs) =
    has-insert i b x (sort b xs)
    ∙ ap (λ t. str_eq x i || t) (has-sort i b xs)
    ∙ sym (has-cons i x xs)

pub times-sort :
    (i : String) (b : String → String → Bool) (xs : List String) → times i (sort b xs) ≡ times i xs
times-sort i b xs = count-sort (λ y. str_eq y i) b xs

-- Two texts compare alike in either order.
pub str_eq_comm : (a b : String) → str_eq a b ≡ str_eq b a
str_eq_comm a b = ground (arith, eq_iff a b, eq_iff b a)

pub has-snoc :
    (n cur : String) (out : List String) → has n (out ++ cur ∷ []) ≡ (has n out || str_eq cur n)
has-snoc n cur out = has-append n out (cur ∷ []) ∙ ap (λ t. has n out || t) (has-single n cur)

pub times-snoc :
    (n cur : String) (out : List String)
    → times n (out ++ cur ∷ []) ≡ times n out + (if str_eq cur n then 1 else 0)
unfolding count
times-snoc n cur out = omega (arith, count-append (λ y. str_eq y n) out (cur ∷ []))
