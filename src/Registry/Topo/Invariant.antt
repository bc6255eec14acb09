-- ===== src/Registry/Topo/Invariant.antt =====
-- The invariant of the loop of `topo_sort` in vios/process/registry.py.
use mathlib.Core.Path.{subst}
use vios_manus.Common.{
  ◌+◌, ◌≤◌, ◌≡◌, refl, sym, true, false, ◌&&◌, ◌||◌, not, List, [], ◌∷◌, ◌++◌, arith, String,
  str_eq, eq_iff, select, All, Bool-cases, inl, inr,
}
use vios_manus.Registry.{Component}
use vios_manus.Registry.Lookup.{has, needs_of}
use vios_manus.Registry.Topo.{Open, is_nil}
use vios_manus.Registry.Topo.Texts.{times}
use vios_manus.Registry.Topo.Entries.{entries, free}

module _ (cs : List Component) (want : List String) where
  -- the needs of an id that are wanted themselves
  abbrev pub wanted_needs : String → List String
  wanted_needs i = select (λ n. has n want) (needs_of cs i)

  -- Every id stands after its wanted needs; `seen` stands before the list.
  abbrev pub IsOrdered : List String → List String → Type 0
  IsOrdered seen [] = Unit {0}
  IsOrdered seen (x ∷ xs) =
      ((n : String) → has n (wanted_needs x) ≡ true → has n seen ≡ true) × IsOrdered (x ∷ seen) xs

  pub IsOrdered-append :
      (seen xs : List String) (x : String)
      → IsOrdered seen xs
      → ((n : String) → has n (wanted_needs x) ≡ true → (has n seen || has n xs) ≡ true)
      → IsOrdered seen (xs ++ x ∷ [])
  unfolding has
  IsOrdered-append seen [] x h placed = (λ n e. ground (arith, placed n e), tt)
  IsOrdered-append seen (y ∷ ys) x h placed =
      (h.0, IsOrdered-append (y ∷ seen) ys x h.1 (λ n e. ground (arith, placed n e)))

  -- The open needs of an entry are its wanted needs that are not out yet.
  abbrev pub HasOpenDeps : List String → Open → Type 0
  HasOpenDeps out o = (n : String) → has n o.deps ≡ (has n (wanted_needs o.id) && not (has n out))

  pub record IsLoop (ready out : List String) (remaining : List Open) : Type 0 where
    pub split : (i : String) → entries i remaining + times i out ≡ times i want
    pub open_deps : All (HasOpenDeps out) remaining
    pub ready_in : (i : String) → has i ready ≡ true → free i remaining ≡ true
    pub free_ready : All (λ o. is_nil o.deps ≡ true → has o.id ready ≡ true) remaining
    pub ready_once : (i : String) → times i ready ≤ 1
    pub in_order : IsOrdered [] out

  nil-has : (n : String) (deps : List String) → is_nil deps ≡ true → has n deps ≡ false
  unfolding has
  nil-has n [] h = refl
  nil-has n (d ∷ ds) h = cc

  pub free-needs :
      (i : String) (out : List String) (os : List Open)
      → All (HasOpenDeps out) os
      → free i os ≡ true
      → (n : String) → has n (wanted_needs i) ≡ true
      → has n out ≡ true
  free-needs i out [] h f n e = cc
  free-needs i out (o ∷ os) h f n e = elim (Bool-cases (str_eq o.id i && is_nil o.deps)) [
    | inl here ↦
        let same = (eq_iff o.id i).0 (ground (arith, here)) in
        ground (
          arith,
          h.0 n,
          nil-has n o.deps (ground (arith, here)),
          subst (λ j. has n (wanted_needs j) ≡ true) (sym same) e,
        )
    | inr gone ↦ free-needs i out os h.1 (ground (arith, gone)) n e
  ]
