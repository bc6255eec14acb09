-- ===== src/Registry/Topo/Sorted.antt =====
-- What `topo_sort` of vios/process/registry.py returns and raises.
use mathlib.Core.List.{Memᴰ}
use mathlib.Core.Path.{subst}
use text.Mathlib.TextPositions.{eq_refl}
use vios_manus.Common.{
  ℕ, zero, suc, ◌≤◌, ◌≡◌, refl, ◌∙◌, sym, ap, Bool, true, false, List, [], ◌∷◌, ◌++◌, map, arith,
  String, str_eq, str_le, eq_iff, select, sort, count, length, All, All-elem, All-imp, count-map,
  count-select, count-and-le, Bool-cases, inl, inr,
}
use vios_manus.Registry.{Component}
use vios_manus.Registry.Lookup.{has, needs_of}
use vios_manus.Registry.Topo.{
  Open, Sorting, order, unknown, cycle, is_nil, earlier, open_all, loop, sorted_from,
}
use vios_manus.Registry.Topo.Texts.{
  times, has-times, times-has, times-not-has, has-select, has-sort, times-sort,
}
use vios_manus.Registry.Topo.Entries.{entries, free, free-entries, after, length-after}
use vios_manus.Registry.Topo.Invariant.{IsOrdered, IsLoop, HasOpenDeps}
use vios_manus.Registry.Topo.Round.{next-IsLoop}

module _ (cs : List Component) (want : List String) (once : (i : String) → times i want ≤ 1) where
  -- With fuel for every entry the loop ends with no id ready, and its invariant holds.
  loop-IsLoop :
      (fuel : ℕ) (ready out : List String) (remaining : List Open)
      → length remaining ≤ fuel
      → IsLoop cs want ready out remaining
      → let (out', rest) = loop cs fuel ready out remaining in IsLoop cs want [] out' rest
  unfolding loop has
  loop-IsLoop fuel [] out remaining enough h = h
  loop-IsLoop zero (cur ∷ ready) out remaining enough h = absurd (
      omega (
        arith,
        length-after cur remaining,
        free-entries cur remaining (h.ready_in cur (ground (arith, eq_refl cur))),
      ))
  loop-IsLoop (suc fuel) (cur ∷ ready) out remaining enough h =
      loop-IsLoop fuel _ (out ++ cur ∷ []) (after cur remaining)
        (omega (
          arith,
          length-after cur remaining,
          free-entries cur remaining (h.ready_in cur (ground (arith, eq_refl cur))),
        ))
        (next-IsLoop cs want cur ready out remaining once h)

  entries-open_all : (i : String) (is : List String) → entries i (open_all cs want is) ≡ times i is
  unfolding open_all count
  entries-open_all i [] = refl
  entries-open_all i (j ∷ js) = ground (arith, entries-open_all i js)

  length-open_all : (is : List String) → length (open_all cs want is) ≡ length is
  unfolding open_all
  length-open_all [] = refl
  length-open_all (j ∷ js) = ap suc (length-open_all js)

  open_all-HasOpenDeps : (is : List String) → All (HasOpenDeps cs want []) (open_all cs want is)
  unfolding open_all has
  open_all-HasOpenDeps [] = tt
  open_all-HasOpenDeps (j ∷ js) = (λ n. ground arith, open_all-HasOpenDeps js)

  abbrev nil_ids : List Open → List String
  nil_ids os = map (λ o. o.id) (select (λ o. is_nil o.deps) os)

  has-nil_ids : (i : String) (os : List Open) → has i (nil_ids os) ≡ free i os
  unfolding has select
  has-nil_ids i [] = refl
  has-nil_ids i (o ∷ os) = ground (arith, has-nil_ids i os)

  nil_free :
      (all os : List Open)
      → ((i : String) → free i os ≡ true → free i all ≡ true)
      → All (λ o. is_nil o.deps ≡ true → free o.id all ≡ true) os
  nil_free all [] h = tt
  nil_free all (o ∷ os) h = (
    λ e. h o.id (ground (arith, eq_refl o.id, e)),
    nil_free all os (λ i e. h i (ground (arith, e))),
  )

  times-nil_ids : (i : String) (os : List Open) → times i (nil_ids os) ≤ entries i os
  times-nil_ids i os = omega (
    arith,
    count-map (λ j. str_eq j i) (λ (o : Open). o.id) (select (λ o. is_nil o.deps) os),
    count-select (λ (o : Open). is_nil o.deps) (λ o. str_eq o.id i) os,
    count-and-le (λ (o : Open). is_nil o.deps) (λ o. str_eq o.id i) os,
  )

  first-IsLoop :
      let remaining = open_all cs want want in
      IsLoop cs want (sort (earlier cs) (nil_ids remaining)) [] remaining
  unfolding count
  first-IsLoop =
      let remaining = open_all cs want want in
      record {
        split = λ i. omega (arith, entries-open_all i want);
        open_deps = open_all-HasOpenDeps want;
        ready_in = λ i e.
            sym (has-nil_ids i remaining) ∙ sym (has-sort i (earlier cs) (nil_ids remaining)) ∙ e;
        free_ready =
            All-imp (λ o. is_nil o.deps ≡ true → free o.id remaining ≡ true)
              (λ o. is_nil o.deps ≡ true → has o.id (sort (earlier cs) (nil_ids remaining)) ≡ true)
              (λ o f e.
                has-sort o.id (earlier cs) (nil_ids remaining) ∙ has-nil_ids o.id remaining ∙ f e)
              remaining (nil_free remaining remaining (λ i e. e));
        ready_once = λ i. omega (
          arith,
          times-sort i (earlier cs) (nil_ids remaining),
          times-nil_ids i remaining,
          entries-open_all i want,
          once i,
        );
        in_order = tt;
      }

  -- The table and the ids out when the loop has ended.
  pub ended :
      let remaining = open_all cs want want in
      let (out, rest) =
        loop cs (length want) (sort (earlier cs) (nil_ids remaining)) [] remaining in
      IsLoop cs want [] out rest
  ended =
      loop-IsLoop (length want) _ [] (open_all cs want want) (omega (arith, length-open_all want))
        first-IsLoop

  -- What the sort of the wanted ids promises of its result.
  abbrev pub IsSorting : Sorting → Type 0
  IsSorting (order out) = ((i : String) → times i out ≡ times i want) × IsOrdered cs want [] out
  IsSorting (unknown ids) = ◌≡◌ {A = Bool} true false
  IsSorting (cycle ids) =
      ((i : String) × (has i ids ≡ true))
      × ((i : String)
          → has i ids ≡ true
          → (n : String) × (has n (needs_of cs i) ≡ true) × (has n ids ≡ true))

  entry_of :
      (i : String) (os : List Open)
      → has i (map (λ o. o.id) os) ≡ true
      → (o : Open) × Memᴰ o os × (o.id ≡ i)
  unfolding has
  entry_of i [] h = cc
  entry_of i (o ∷ os) h = elim (Bool-cases (str_eq o.id i)) [
    | inl e ↦ (o, Memᴰ.head refl, (eq_iff o.id i).0 e)
    | inr e ↦ let (p, m, same) = entry_of i os (ground (arith, e)) in (p, Memᴰ.tail m, same)
  ]

  some_dep : (deps : List String) → is_nil deps ≡ false → (n : String) × (has n deps ≡ true)
  unfolding has
  some_dep [] h = cc
  some_dep (d ∷ ds) h = (d, ground (arith, eq_refl d))

  -- An open need of an entry that is left has an entry itself.
  still_open :
      (out : List String) (rest : List Open) {o : Open} (n : String)
      → IsLoop cs want [] out rest
      → Memᴰ o rest
      → has n o.deps ≡ true
      → (has n (needs_of cs o.id) ≡ true) × (has n (map (λ o. o.id) rest) ≡ true)
  still_open out rest {o} n h m d =
      let dep = All-elem (HasOpenDeps cs want out) rest h.open_deps m n in
      let wanted = has-select n (λ k. has k want) (needs_of cs o.id) in
      (
        ground (arith, dep, wanted),
        times-has n (map (λ o. o.id) rest) (
            omega (
              arith,
              count-map (λ j. str_eq j n) (λ (p : Open). p.id) rest,
              h.split n,
              has-times n want (ground (arith, dep, wanted)),
              times-not-has n out (ground (arith, dep, wanted)),
            )),
      )

  blocked :
      (out : List String) (rest : List Open)
      → IsLoop cs want [] out rest
      → (i : String) → has i (map (λ o. o.id) rest) ≡ true
      → (n : String) × (has n (needs_of cs i) ≡ true) × (has n (map (λ o. o.id) rest) ≡ true)
  unfolding has
  blocked out rest h i e =
      let (o, m, same) = entry_of i rest e in
      let (n, d) = some_dep o.deps (elim (Bool-cases (is_nil o.deps)) [
        | inl nil ↦
            cc (All-elem (λ p. is_nil p.deps ≡ true → has p.id [] ≡ true) rest h.free_ready m nil)
        | inr open_need ↦ open_need
      ]) in
      let (needed, left) = still_open out rest n h m d in
      (n, subst (λ j. has n (needs_of cs j) ≡ true) same needed, left)

  ended-IsSorting :
      (out : List String) (rest : List Open)
      → IsLoop cs want [] out rest
      → IsSorting
          (elim rest [ [] ↦ order out | o ∷ os ↦ cycle (sort str_le (map (λ p. p.id) (o ∷ os))) ])
  unfolding count has
  ended-IsSorting out [] h = (λ i. omega (arith, h.split i), h.in_order)
  ended-IsSorting out (o ∷ os) h =
      let ids = map (λ (p : Open). p.id) (o ∷ os) in
      (
        (o.id, has-sort o.id str_le ids ∙ ground (arith, eq_refl o.id)),
        λ i e.
            let (n, needed, left) = blocked out (o ∷ os) h i (sym (has-sort i str_le ids) ∙ e) in
            (n, needed, has-sort n str_le ids ∙ left),
      )

  pub sorted_from-IsSorting : IsSorting (sorted_from cs want)
  unfolding sorted_from
  sorted_from-IsSorting = ended-IsSorting _ _ ended
