-- ===== src/Registry/Topo/Entries.antt =====
-- The dict `remaining` of `topo_sort` in vios/process/registry.py, and what one round does to it.
use mathlib.Core.List.{Memᴰ}
use text.Mathlib.TextPositions.{eq_refl}
use vios_manus.Common.{
  ℕ, suc, ◌+◌, ◌≤◌, ◌≡◌, refl, ap, Bool, true, false, ◌&&◌, not, List, [], ◌∷◌, arith, String,
  str_eq, eq_iff, select, count, any, length, All, if◌then◌else◌, count-map, count-select,
  count-and-le, length-select, count-not, Bool-cases, inl, inr,
}
use vios_manus.Registry.Lookup.{has}
use vios_manus.Registry.Topo.{Open, is_nil, discard, discard_all, newly, pop}
use vios_manus.Registry.Topo.Texts.{times}

-- how many entries an id has
abbrev pub entries : String → List Open → ℕ
entries i os = count (λ o. str_eq o.id i) os

-- an entry of the id with no open need
abbrev pub free : String → List Open → Bool
free i os = any (λ o. str_eq o.id i && is_nil o.deps) os

pub free-entries : (i : String) (os : List Open) → free i os ≡ true → 1 ≤ entries i os
unfolding count
free-entries i [] h = cc
free-entries i (o ∷ os) h = ground (arith, free-entries i os)

pub elem-entries : {o : Open} (os : List Open) → Memᴰ o os → 1 ≤ entries o.id os
unfolding count
elem-entries [] m = elim m [ ]
elem-entries {o} (p ∷ os) (Memᴰ.head e) = ground (arith, e, eq_refl o.id)
elem-entries {o} (p ∷ os) (Memᴰ.tail m) = ground (arith, elem-entries os m)

module _ (cur : String) where
  entries-discard_all :
      (i : String) (os : List Open) → entries i (discard_all cur os) ≡ entries i os
  unfolding discard_all count
  entries-discard_all i [] = refl
  entries-discard_all i (o ∷ os) = ground (arith, entries-discard_all i os)

  length-discard_all : (os : List Open) → length (discard_all cur os) ≡ length os
  unfolding discard_all
  length-discard_all [] = refl
  length-discard_all (o ∷ os) = ap suc (length-discard_all os)

  -- `remaining` after a round
  abbrev pub after : List Open → List Open
  after os = pop cur (discard_all cur os)

  pub entries-after :
      (i : String) (os : List Open)
      → entries i (after os) ≡ (if str_eq cur i then 0 else entries i os)
  unfolding pop discard_all select count
  entries-after i [] = ground arith
  entries-after i (o ∷ os) =
      ground (arith, entries-after i os, eq_iff o.id cur, eq_iff o.id i, eq_iff cur i)

  pub length-after : (os : List Open) → length (after os) + entries cur os ≡ length os
  unfolding pop
  length-after os = omega (
    arith,
    length-select (λ (o : Open). not (str_eq o.id cur)) (discard_all cur os),
    count-not (λ (o : Open). str_eq o.id cur) (discard_all cur os),
    entries-discard_all cur os,
    length-discard_all os,
  )

  nil-discard : (deps : List String) → is_nil deps ≡ true → is_nil (discard cur deps) ≡ true
  unfolding discard select
  nil-discard [] h = refl
  nil-discard (d ∷ ds) h = cc

  -- A free entry of another id stays free.
  pub free-after :
      (i : String) (os : List Open)
      → str_eq cur i ≡ false
      → free i os ≡ true
      → free i (after os) ≡ true
  unfolding pop discard_all select
  free-after i [] ne h = cc
  free-after i (o ∷ os) ne h =
      ground (
        arith,
        free-after i os ne,
        nil-discard o.deps,
        eq_iff o.id cur,
        eq_iff o.id i,
        eq_iff cur i,
      )

  -- An id that becomes ready has a free entry from then on.
  pub newly-free :
      (i : String) (out ready : List String) (os : List Open)
      → has cur out ≡ true
      → has i (newly cur out ready os) ≡ true
      → (free i (after os) ≡ true) × (has i ready ≡ false) × (str_eq cur i ≡ false)
  unfolding newly pop discard_all select has
  newly-free i out ready [] placed h = cc
  newly-free i out ready (o ∷ os) placed h =
      ground (arith, newly-free i out ready os placed, eq_iff o.id cur, eq_iff o.id i, eq_iff cur i)

  pub times-newly :
      (i : String) (out ready : List String) (os : List Open)
      → times i (newly cur out ready os) ≤ entries i os
  unfolding newly
  times-newly i out ready os =
      let chosen = λ (o : Open).
        has cur o.deps
        && (is_nil (discard cur o.deps) && (not (has o.id out) && not (has o.id ready))) in
      omega (
        arith,
        count-map (λ j. str_eq j i) (λ (o : Open). o.id) (select chosen os),
        count-select chosen (λ o. str_eq o.id i) os,
        count-and-le chosen (λ o. str_eq o.id i) os,
      )

  pub elem-newly :
      {o : Open} (out ready : List String) (os : List Open)
      → Memᴰ o os
      → has cur o.deps ≡ true
      → is_nil (discard cur o.deps) ≡ true
      → has o.id out ≡ false
      → has o.id ready ≡ false
      → has o.id (newly cur out ready os) ≡ true
  unfolding newly select has
  elem-newly out ready [] m a b c d = elim m [ ]
  elem-newly {o} out ready (p ∷ os) (Memᴰ.head e) a b c d = ground (arith, e, eq_refl o.id)
  elem-newly {o} out ready (p ∷ os) (Memᴰ.tail m) a b c d =
      ground (arith, elem-newly out ready os m a b c d)

  -- What holds of every entry, its needs shortened, holds after the round.
  pub All-after {κ} :
      (P : Open → Type κ) (os : List Open)
      → ((o : Open)
          → Memᴰ o os
          → str_eq o.id cur ≡ false
          → P (record o { deps = discard cur o.deps }))
      → All P (after os)
  unfolding pop discard_all select
  All-after P [] h = tt
  All-after P (o ∷ os) h = elim (Bool-cases (str_eq o.id cur)) [
    | inl e ↦ rw e (All-after P os (λ p m. h p (Memᴰ.tail m)))
    | inr e ↦ rw e (h o (Memᴰ.head refl) e, All-after P os (λ p m. h p (Memᴰ.tail m)))
  ]
