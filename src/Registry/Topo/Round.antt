-- ===== src/Registry/Topo/Round.antt =====
-- One round of the loop of `topo_sort` in vios/process/registry.py.
use mathlib.Core.List.{Memᴰ}
use mathlib.Core.Path.{subst}
use text.Mathlib.TextPositions.{eq_refl}
use vios_manus.Common.{
  ◌+◌, ◌≤◌, ◌≡◌, refl, ◌∙◌, true, false, ◌&&◌, ◌||◌, not, List, [], ◌∷◌, ◌++◌, arith, String,
  str_eq, eq_iff, select, sort, count, All, All-elem, count-append, Bool-cases, inl, inr,
}
use vios_manus.Registry.{Component}
use vios_manus.Registry.Lookup.{has}
use vios_manus.Registry.Topo.{Open, is_nil, discard, newly, earlier}
use vios_manus.Registry.Topo.Texts.{
  times, has-times, times-not-has, has-append, has-select, has-sort, times-sort, str_eq_comm,
  has-snoc, times-snoc,
}
use vios_manus.Registry.Topo.Invariant.{
  IsOrdered, IsLoop, HasOpenDeps, IsOrdered-append, free-needs,
}
use vios_manus.Registry.Topo.Entries.{
  entries, free, free-entries, elem-entries, after, entries-after, free-after, newly-free,
  times-newly, elem-newly, All-after,
}

module _ (cs : List Component) (want : List String) where
  module _ (cur : String) (ready out : List String) (remaining : List Open) where
    abbrev next_ready : List String
    next_ready = sort (earlier cs) (ready ++ newly cur (out ++ cur ∷ []) ready remaining)

    has-next_ready :
        (i : String)
        → has i next_ready ≡ (has i ready || has i (newly cur (out ++ cur ∷ []) ready remaining))
    has-next_ready i = has-sort i (earlier cs) _ ∙ has-append i ready _

    times-next_ready :
        (i : String)
        → times i next_ready ≡ times i ready + times i (newly cur (out ++ cur ∷ []) ready remaining)
    times-next_ready i =
        times-sort i (earlier cs) (ready ++ newly cur (out ++ cur ∷ []) ready remaining)
        ∙ count-append (λ y. str_eq y i) ready _

    module _ (once : (i : String) → times i want ≤ 1)
        (h : IsLoop cs want (cur ∷ ready) out remaining) where
      cur_free : free cur remaining ≡ true
      unfolding has
      cur_free = h.ready_in cur (ground (arith, eq_refl cur))

      -- The id of the round stands in the table once and is not out.
      cur_open : (entries cur remaining ≡ 1) × (times cur out ≡ 0)
      cur_open = (
        omega (arith, free-entries cur remaining cur_free, h.split cur, once cur),
        omega (arith, free-entries cur remaining cur_free, h.split cur, once cur),
      )

      next_split :
          (i : String) → entries i (after cur remaining) + times i (out ++ cur ∷ []) ≡ times i want
      next_split i = elim (Bool-cases (str_eq cur i)) [
        | inl e ↦
            subst (λ j. entries j (after cur remaining) + times j (out ++ cur ∷ []) ≡ times j want)
              ((eq_iff cur i).0 e)
              (ground (
                arith,
                entries-after cur cur remaining,
                times-snoc cur cur out,
                h.split cur,
                cur_open,
                eq_refl cur,
              ))
        | inr e ↦ ground (arith, entries-after cur i remaining, times-snoc i cur out, h.split i, e)
      ]

      discarded :
          (n : String) (deps : List String)
          → has n (discard cur deps) ≡ (has n deps && not (str_eq n cur))
      unfolding discard
      discarded n deps = has-select n (λ m. not (str_eq m cur)) deps

      next_deps : All (HasOpenDeps cs want (out ++ cur ∷ [])) (after cur remaining)
      next_deps = All-after cur (HasOpenDeps cs want (out ++ cur ∷ [])) remaining λ o m ne n.
          ground (
            arith,
            discarded n o.deps,
            All-elem (HasOpenDeps cs want out) remaining h.open_deps m n,
            has-snoc n cur out,
            str_eq_comm cur n,
          )

      ready_other : (i : String) → has i ready ≡ true → str_eq cur i ≡ false
      unfolding count
      ready_other i r = elim (Bool-cases (str_eq cur i)) [
        | inl e ↦ absurd (ground (arith, h.ready_once i, has-times i ready r, e))
        | inr e ↦ e
      ]

      next_ready_in : (i : String) → has i next_ready ≡ true → free i (after cur remaining) ≡ true
      unfolding has
      next_ready_in i r = elim (Bool-cases (has i ready)) [
        | inl e ↦ free-after cur i remaining (ready_other i e) (h.ready_in i (ground (arith, e)))
        | inr e ↦
            (newly-free cur i (out ++ cur ∷ []) ready remaining
              (ground (arith, has-snoc cur cur out, eq_refl cur))
              (ground (arith, has-next_ready i, e))).0
      ]

      -- An entry of the table is not out.
      not_out : {o : Open} → Memᴰ o remaining → has o.id out ≡ false
      not_out {o} m = elim (Bool-cases (has o.id out)) [
        | inl e ↦
            absurd (
              omega
                (arith, has-times o.id out e, elem-entries remaining m, h.split o.id, once o.id))
        | inr e ↦ e
      ]

      nil_discard :
          (deps : List String)
          → has cur deps ≡ false
          → is_nil (discard cur deps) ≡ true
          → is_nil deps ≡ true
      unfolding has discard select
      nil_discard [] a b = refl
      nil_discard (d ∷ ds) a b = ground arith

      next_free_ready :
          All (λ o. is_nil o.deps ≡ true → has o.id next_ready ≡ true) (after cur remaining)
      unfolding has
      next_free_ready =
          All-after cur (λ o. is_nil o.deps ≡ true → has o.id next_ready ≡ true) remaining
            λ o m ne nil. elim (Bool-cases (has o.id ready)) [
              | inl e ↦ ground (arith, has-next_ready o.id, e)
              | inr e ↦ elim (Bool-cases (has cur o.deps)) [
                | inl d ↦
                    let fresh =
                      elem-newly cur (out ++ cur ∷ []) ready remaining m d nil
                        (ground (arith, has-snoc o.id cur out, str_eq_comm cur o.id, not_out m))
                        e in
                    ground (arith, has-next_ready o.id, fresh)
                | inr d ↦ absurd (
                    ground (
                      arith,
                      All-elem (λ p. is_nil p.deps ≡ true → has p.id (cur ∷ ready) ≡ true) remaining
                          h.free_ready m (nil_discard o.deps d nil),
                      str_eq_comm cur o.id,
                      e,
                    ))
              ]
            ]

      next_ready_once : (i : String) → times i next_ready ≤ 1
      unfolding count
      next_ready_once i = elim (Bool-cases (has i (newly cur (out ++ cur ∷ []) ready remaining))) [
        | inl e ↦
            let (_, absent, _) =
              newly-free cur i (out ++ cur ∷ []) ready remaining
                (ground (arith, has-snoc cur cur out, eq_refl cur)) e in
            omega (
              arith,
              times-next_ready i,
              times-not-has i ready absent,
              times-newly cur i (out ++ cur ∷ []) ready remaining,
              h.split i,
              once i,
            )
        | inr e ↦ omega (
          arith,
          times-next_ready i,
          times-not-has i (newly cur (out ++ cur ∷ []) ready remaining) e,
          h.ready_once i,
        )
      ]

      next_in_order : IsOrdered cs want [] (out ++ cur ∷ [])
      unfolding has
      next_in_order =
          IsOrdered-append cs want [] out cur h.in_order
            (free-needs cs want cur out remaining h.open_deps cur_free)

      pub next-IsLoop : IsLoop cs want next_ready (out ++ cur ∷ []) (after cur remaining)
      next-IsLoop = record {
        split = next_split;
        open_deps = next_deps;
        ready_in = next_ready_in;
        free_ready = next_free_ready;
        ready_once = next_ready_once;
        in_order = next_in_order;
      }
