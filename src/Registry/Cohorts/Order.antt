-- ===== src/Registry/Cohorts/Order.antt =====
-- The components of the cohorts of `plan_cohorts` in vios/process/registry.py.
use mathlib.Core.List.{append-nil, append_assoc}
use vios_manus.Common.{
  ℕ, ◌+◌, ◌≡◌, refl, ◌∙◌, sym, ap, Bool, ◌&&◌, not, List, [], ◌∷◌, ◌++◌, map, String, select,
  Bool-cases, inl, inr, ltb, if◌then◌else◌,
}
use vios_manus.Registry.{Component, is_gpu}
use vios_manus.Registry.Cohorts.{
  Cohort, Packing, start, is_empty, close, set_alone, pack_alone, append_component, load_cost,
  pack_shared, pack, pack_all, cohorts_of,
}

-- All components of the cohorts, one cohort after the other.
abbrev pub flat : List Cohort → List String
flat [] = []
flat (k ∷ ks) = k.components ++ flat ks

flat-append : (ks ls : List Cohort) → flat (ks ++ ls) ≡ flat ks ++ flat ls
flat-append [] ls = refl
flat-append (k ∷ ks) ls =
    rw (flat-append ks ls) (sym (append_assoc k.components (flat ks) (flat ls)))

flat_closed :
    (ks : List Cohort) (k : Cohort) (xs : List String)
    → k.components ≡ xs
    → flat (if is_empty k.components then ks else ks ++ k ∷ []) ≡ flat ks ++ k.components
flat_closed ks k [] e = rw e (sym (append-nil (flat ks)))
flat_closed ks k (x ∷ xs) e = rw e (flat-append ks _ ∙ ap (λ t. flat ks ++ t) (append-nil (x ∷ xs)))

placed : Packing → List String
placed s = flat s.cohorts ++ s.cur.components

flat-close : (s : Packing) → flat (close s).cohorts ≡ placed s
unfolding placed close
flat-close s = flat_closed s.cohorts (record s.cur { loads = s.cur_loads }) s.cur.components refl

placed_closed : (s : Packing) → placed (close s) ≡ flat (close s).cohorts
unfolding placed close
placed_closed s = append-nil (flat (close s).cohorts)

placed-close : (s : Packing) → placed (close s) ≡ placed s
placed-close s = placed_closed s ∙ flat-close s

placed-append :
    (c : Component) (n : ℕ) (s : Packing) → placed (append_component c n s) ≡ placed s ++ c.id ∷ []
unfolding placed append_component
placed-append c n s = elim (Bool-cases (is_gpu c.device)) [
  | inl e ↦ rw e (sym (append_assoc (flat s.cohorts) s.cur.components (c.id ∷ [])))
  | inr e ↦ rw e (sym (append_assoc (flat s.cohorts) s.cur.components (c.id ∷ [])))
]

placed-pack_shared :
    (b : ℕ) (c : Component) (s : Packing) → placed (pack_shared b c s) ≡ placed s ++ c.id ∷ []
unfolding pack_shared
placed-pack_shared b c s =
    elim (Bool-cases (is_gpu c.device && ltb b (s.cur.vram_mb + load_cost c s))) [
      | inl e ↦
          rw e (placed-append c c.vram_mb (close s) ∙ ap (λ t. t ++ c.id ∷ []) (placed-close s))
      | inr e ↦ rw e (placed-append c (load_cost c s) s)
    ]

placed-set_alone : (c : Component) (s : Packing) → placed (set_alone c s) ≡ placed s ++ c.id ∷ []
unfolding placed set_alone
placed-set_alone c s = sym (append_assoc (flat s.cohorts) s.cur.components (c.id ∷ []))

placed-pack_alone : (c : Component) (s : Packing) → placed (pack_alone c s) ≡ placed s ++ c.id ∷ []
unfolding pack_alone
placed-pack_alone c s =
    placed-close (set_alone c (close s))
    ∙ placed-set_alone c (close s)
    ∙ ap (λ t. t ++ c.id ∷ []) (placed-close s)

-- The components that the machine's cards can host at all.
abbrev pub has_cards : ℕ → Component → Bool
has_cards gpus c = not (ltb gpus c.cards && is_gpu c.device)

placed-pack :
    (b g : ℕ) (c : Component) (s : Packing)
    → placed (pack b g c s) ≡ placed s ++ (if has_cards g c then c.id ∷ [] else [])
unfolding pack
placed-pack b g c s = elim (Bool-cases (ltb g c.cards && is_gpu c.device)) [
  | inl e ↦ rw e (sym (append-nil (placed s)))
  | inr e ↦ rw e (elim (Bool-cases (ltb 1 c.cards)) [
    | inl many ↦ rw many (placed-pack_alone c s)
    | inr one ↦ rw one (placed-pack_shared b c s)
  ])
]

placed-pack_all :
    (b g : ℕ) (cs : List Component) (s : Packing)
    → placed (pack_all b g cs s) ≡ placed s ++ map (λ c. c.id) (select (has_cards g) cs)
unfolding pack_all select
placed-pack_all b g [] s = sym (append-nil _)
placed-pack_all b g (c ∷ cs) s =
    placed-pack_all b g cs (pack b g c s)
    ∙ ap (λ t. t ++ map (λ d. d.id) (select (has_cards g) cs)) (placed-pack b g c s)
    ∙ append_assoc (placed s) _ _
    ∙ ap (λ t. placed s ++ t) (elim (Bool-cases (has_cards g c)) [ inl e ↦ rw e | inr e ↦ rw e ])

flat_kept :
    (k : Cohort) (rest : List Cohort) (xs : List String)
    → k.components ≡ xs
    → flat (if not (is_empty k.components) then k ∷ rest else rest) ≡ k.components ++ flat rest
flat_kept k rest [] e = rw e
flat_kept k rest (x ∷ xs) e = rw e

flat-select : (ks : List Cohort) → flat (select (λ k. not (is_empty k.components)) ks) ≡ flat ks
unfolding select
flat-select [] = refl
flat-select (k ∷ ks) =
    flat_kept k (select (λ j. not (is_empty j.components)) ks) k.components refl
    ∙ ap (λ t. k.components ++ t) (flat-select ks)

placed-start : (xs : List String) → placed start ++ xs ≡ xs
unfolding placed
placed-start xs = refl

-- The cohorts, read one after the other, hold exactly the components that the cards can host, in
-- the dependency order that they came in.
pub flat-cohorts_of :
    (budget gpus : ℕ) (cs : List Component)
    → flat (cohorts_of budget gpus cs) ≡ map (λ c. c.id) (select (has_cards gpus) cs)
unfolding cohorts_of
flat-cohorts_of budget gpus cs =
    flat-select (close (pack_all budget gpus cs start)).cohorts
    ∙ flat-close (pack_all budget gpus cs start)
    ∙ placed-pack_all budget gpus cs start
    ∙ placed-start (map (λ c. c.id) (select (has_cards gpus) cs))
