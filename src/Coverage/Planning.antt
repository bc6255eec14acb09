-- ===== src/Coverage/Planning.antt =====
-- The rows that `plan` of vios/process/coverage.py inserts, and its repetition.
use mathlib.Core.List.{Memᴰ}
use text.Mathlib.TextPositions.{eq_refl}
use vios_manus.Common.{
  ℕ, ◌≤◌, ◌≡◌, refl, ap, true, Bool, some, none, Option, String, List, [], ◌∷◌, ◌++◌, map, arith,
  any, All, All-elem, count, Bool-cases, inl, inr,
}
use vios_manus.Coverage.{Row, Conn, at}
use vios_manus.Coverage.Operate.{insert_or_ignore, insert_all, pairs, plan}
use vios_manus.Coverage.Table.{IsSoundTable, insert_all-IsSoundTable}

any-append : (p : Row → Bool) (xs ys : List Row) → any p xs ≡ true → any p (xs ++ ys) ≡ true
any-append p [] ys h = cc
any-append p (x ∷ xs) ys h = ground (arith, any-append p xs ys)

any-append_right : (p : Row → Bool) (xs ys : List Row) → any p ys ≡ true → any p (xs ++ ys) ≡ true
any-append_right p [] ys h = h
any-append_right p (x ∷ xs) ys h = ground (arith, any-append_right p xs ys h)

abbrev Has : List Row → String × String → Type 0
Has rows p = any (at p.0 p.1) rows ≡ true

-- The statement leaves the rows that are there in place.
insert-Has :
    (p q : String × String) (rows : List Row) → Has rows q → Has (insert_or_ignore p rows).0 q
unfolding insert_or_ignore
insert-Has (k, c) q rows h = elim (Bool-cases (any (at k c) rows)) [
  | inl e ↦ rw e h
  | inr e ↦ rw e (any-append (at q.0 q.1) rows _ h)
]

insert-Has_self : (p : String × String) (rows : List Row) → Has (insert_or_ignore p rows).0 p
unfolding insert_or_ignore
insert-Has_self (k, c) rows = elim (Bool-cases (any (at k c) rows)) [
  | inl e ↦ rw e e
  | inr e ↦ rw e (any-append_right (at k c) rows _ (simp eq_refl))
]

insert_all-Has :
    (ps : List (String × String)) (q : String × String) (rows : List Row)
    → Has rows q
    → Has (insert_all ps rows).0 q
unfolding insert_all
insert_all-Has [] q rows h = h
insert_all-Has (p ∷ ps) q rows h =
    insert_all-Has ps q (insert_or_ignore p rows).0 (insert-Has p q rows h)

insert_all-Has_self :
    (ps : List (String × String)) (rows : List Row) → All (Has (insert_all ps rows).0) ps
unfolding insert_all
insert_all-Has_self [] rows = tt
insert_all-Has_self (p ∷ ps) rows = (
  insert_all-Has ps p _ (insert-Has_self p rows),
  insert_all-Has_self ps (insert_or_ignore p rows).0,
)

insert_all_settled :
    (ps : List (String × String)) (rows : List Row)
    → All (Has rows) ps
    → insert_all ps rows ≡ (rows, 0)
unfolding insert_all insert_or_ignore
insert_all_settled [] rows h = refl
insert_all_settled ((k, c) ∷ ps) rows h = rw h.0 (rw (insert_all_settled ps rows h.1) refl)

plan_settled :
    (ps : List (String × String)) (rows : List Row)
    → insert_all ps (insert_all ps rows).0 ≡ ((insert_all ps rows).0, 0)
plan_settled ps rows = insert_all_settled ps (insert_all ps rows).0 (insert_all-Has_self ps rows)

-- A second `plan` with the same arguments inserts nothing and changes nothing.
pub plan-plan :
    (components : List String) (keys : Option (List String)) (c : Conn)
    → plan components keys (plan components keys c).0 ≡ ((plan components keys c).0, 0)
unfolding plan
plan-plan [] keys c = refl
plan-plan (x ∷ xs) none c =
    ap (λ (t : List Row × ℕ). (record c { rows = t.0 }, t.1))
      (plan_settled (pairs (map (λ v. v.video_key) c.videos) (x ∷ xs)) c.rows)
plan-plan (x ∷ xs) (some ks) c =
    ap (λ (t : List Row × ℕ). (record c { rows = t.0 }, t.1))
      (plan_settled (pairs ks (x ∷ xs)) c.rows)

elem-map {ℓ κ} :
    {A : Type ℓ} {B : Type κ} (f : A → B) {a : A} (xs : List A) → Memᴰ a xs → Memᴰ (f a) (map f xs)
elem-map f [] m = elim m [ ]
elem-map f (x ∷ xs) (Memᴰ.head e) = Memᴰ.head (ap f e)
elem-map f (x ∷ xs) (Memᴰ.tail m) = Memᴰ.tail (elem-map f xs m)

elem-append_left {ℓ} : {A : Type ℓ} {a : A} (xs ys : List A) → Memᴰ a xs → Memᴰ a (xs ++ ys)
elem-append_left [] ys m = elim m [ ]
elem-append_left (x ∷ xs) ys (Memᴰ.head e) = Memᴰ.head e
elem-append_left (x ∷ xs) ys (Memᴰ.tail m) = Memᴰ.tail (elem-append_left xs ys m)

elem-append_right {ℓ} : {A : Type ℓ} {a : A} (xs ys : List A) → Memᴰ a ys → Memᴰ a (xs ++ ys)
elem-append_right [] ys m = m
elem-append_right (x ∷ xs) ys m = Memᴰ.tail (elem-append_right xs ys m)

elem-pairs :
    {k x : String} (ks xs : List String) → Memᴰ k ks → Memᴰ x xs → Memᴰ (k, x) (pairs ks xs)
unfolding pairs
elem-pairs [] xs m n = elim m [ ]
elem-pairs {k} {x} (j ∷ ks) xs (Memᴰ.head e) n =
    elem-append_left _ (pairs ks xs) (rw e (elem-map (λ c. (j, c)) xs n))
elem-pairs (j ∷ ks) xs (Memᴰ.tail m) n = elem-append_right (map _ xs) _ (elem-pairs ks xs m n)

any-count : (p : Row → Bool) (rows : List Row) → any p rows ≡ true → 1 ≤ count p rows
unfolding count
any-count p [] h = cc
any-count p (r ∷ rs) h = ground (arith, any-count p rs)

-- After `plan` on a sound table, the table has exactly one row for every video key and component asked for.
pub plan_complete :
    (components keys : List String) (c : Conn) {k x : String}
    → IsSoundTable c.rows
    → Memᴰ k keys
    → Memᴰ x components
    → count (at k x) (plan components (some keys) c).0.rows ≡ 1
unfolding plan
plan_complete [] keys c h m n = elim n [ ]
plan_complete (y ∷ ys) keys c {k} {x} h m n =
    let ps = pairs keys (y ∷ ys) in
    omega (
      arith,
      any-count (at k x) (insert_all ps c.rows).0 (
          All-elem (Has (insert_all ps c.rows).0) ps (insert_all-Has_self ps c.rows)
            (elem-pairs keys (y ∷ ys) m n)),
      (insert_all-IsSoundTable ps c.rows h).keyed k x,
    )
