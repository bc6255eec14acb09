-- ===== src/Registry/Cohorts/Budget.antt =====
-- The cohorts of `plan_cohorts` in vios/process/registry.py against the VRAM budget.
use text.Mathlib.TextPositions.{eq_refl}
use mathlib.Core.Path.{subst}
use vios_manus.Common.{
  ℕ, ◌+◌, ◌≤◌, ◌<◌, ◌≡◌, refl, ap, true, ◌&&◌, not, List, [], ◌∷◌, ◌++◌, arith, All, select,
  Bool-cases, inl, inr, ltb,
}
use vios_manus.Registry.{Component, gpu, is_gpu, load_key}
use vios_manus.Registry.Lookup.{has}
use vios_manus.Registry.Cohorts.{
  Cohort, Packing, start, is_empty, close, set_alone, pack_alone, append_component, load_cost,
  pack_shared, pack, pack_all, cohorts_of, resolve,
}
use vios_manus.Registry.Cohorts.Loads.{
  loads_cost, load_keys, loads_cost-append, has-add_load, resolve-append,
}
use vios_manus.Registry.Cohorts.Good.{
  IsGoodCohort, IsNumbered, IsCurrent, IsPacking, IsHostable, IsListed, close-IsPacking,
  close_packing, append-IsCurrent,
}

module _ (cs : List Component) (budget : ℕ) where
  -- What a component adds, by the loads that are there or by the components before it.
  load_cost_lem :
      (c : Component) (s : Packing)
      → IsCurrent cs s
      → is_gpu c.device ≡ true
      → IsListed cs c
      → loads_cost [] (resolve cs (s.cur.components ++ c.id ∷ []))
        ≡ loads_cost [] (resolve cs s.cur.components) + load_cost c s
  unfolding load_cost has
  load_cost_lem c s h g listed =
      rw
        (
          resolve-append cs s.cur.components c listed,
          loads_cost-append [] (resolve cs s.cur.components) c,
          g,
          h.keys (load_key c),
        )
        (ground arith)

  append_packing :
      (c : Component) (s : Packing)
      → IsListed cs c
      → c.cards ≤ 1
      → (is_gpu c.device ≡ true → s.cur.vram_mb + load_cost c s ≤ budget)
      → IsPacking cs budget s
      → IsPacking cs budget (append_component c (load_cost c s) s)
  unfolding append_component
  append_packing c s listed few room h = elim (Bool-cases (is_gpu c.device)) [
    | inl e ↦ rw e (record {
      current =
          append-IsCurrent cs budget c s _ listed (omega (arith, h.one_card, few)) (omega arith)
            refl (rw e refl) h.current;
      one_card = h.one_card;
      cost = omega (arith, h.cost, load_cost_lem c s h.current e listed);
      within = room e;
      finished = h.finished;
      numbered = h.numbered;
      next_number = h.next_number;
    })
    | inr e ↦ rw e (record {
      current =
          append-IsCurrent cs budget c s _ listed (omega (arith, h.one_card, few)) (omega arith)
            refl (rw e refl) h.current;
      one_card = h.one_card;
      cost =
          rw
            (
              resolve-append cs s.cur.components c listed,
              loads_cost-append [] (resolve cs s.cur.components) c,
              e,
            )
            (omega (arith, h.cost));
      within = h.within;
      finished = h.finished;
      numbered = h.numbered;
      next_number = h.next_number;
    })
  ]

  on_gpu : (c : Component) → is_gpu c.device ≡ true → c.device ≡ gpu
  on_gpu c e = ground arith

  after_close : (s : Packing) (n : ℕ) → n ≤ budget → (close s).cur.vram_mb + n ≤ budget
  unfolding close
  after_close s n h = omega arith

  -- Nothing is loaded after a cohort is closed.
  cost_after_close : (c : Component) (s : Packing) → load_cost c (close s) ≡ c.vram_mb
  unfolding close load_cost has
  cost_after_close c s = refl

  pack_shared_packing :
      (c : Component) (s : Packing)
      → c.cards ≤ 1
      → IsListed cs c
      → IsHostable budget c
      → IsPacking cs budget s
      → IsPacking cs budget (pack_shared budget c s)
  unfolding pack_shared
  pack_shared_packing c s one listed host h =
      elim (Bool-cases (is_gpu c.device && ltb budget (s.cur.vram_mb + load_cost c s))) [
        | inl e ↦ rw e (
            subst (λ n. IsPacking cs budget (append_component c n (close s))) (cost_after_close c s)
              (append_packing c (close s) listed one
                (λ g. rw (cost_after_close c s) (after_close s c.vram_mb (host (on_gpu c g) one)))
                (close_packing cs budget s h)))
        | inr e ↦ rw e (append_packing c s listed one (λ g. ground arith) h)
      ]

  alone_loaded :
      (c : Component) (s : Packing) → has (load_key c) (set_alone c (close s)).cur_loads ≡ true
  unfolding set_alone
  alone_loaded c s =
      rw (has-add_load (load_key c) (load_key c) (close s).cur_loads)
        (ground (arith, eq_refl (load_key c)))

  pack_alone_packing :
      (c : Component) (s : Packing)
      → 1 < c.cards
      → IsListed cs c
      → IsPacking cs budget s
      → IsPacking cs budget (pack_alone c s)
  unfolding pack_alone resolve
  pack_alone_packing c s many listed h =
      let h' = close_packing cs budget s h in
      close-IsPacking cs budget (set_alone c (close s)) h'.finished h'.numbered h'.next_number (λ e.
        record {
          full = e;
          found = rw (resolve, listed) refl;
          loaded = rw (resolve, listed) (λ g. alone_loaded c s, tt);
          carded = rw (resolve, listed) (omega arith, tt);
          fits = λ few. absurd (omega arith);
          recorded = λ few. absurd (omega arith);
          alone = λ _. refl;
        })

  pack_packing :
      (gpus : ℕ) (c : Component) (s : Packing)
      → IsListed cs c
      → IsHostable budget c
      → IsPacking cs budget s
      → IsPacking cs budget (pack budget gpus c s)
  unfolding pack
  pack_packing gpus c s listed host h = elim (Bool-cases (ltb gpus c.cards && is_gpu c.device)) [
    | inl e ↦ rw e h
    | inr e ↦ rw e (elim (Bool-cases (ltb 1 c.cards)) [
      | inl many ↦ rw many (pack_alone_packing c s (ground arith) listed h)
      | inr one ↦ rw one (pack_shared_packing c s (ground arith) listed host h)
    ])
  ]

  pack_all_packing :
      (gpus : ℕ) (ds : List Component) (s : Packing)
      → All (λ c. IsListed cs c × IsHostable budget c) ds
      → IsPacking cs budget s
      → IsPacking cs budget (pack_all budget gpus ds s)
  unfolding pack_all
  pack_all_packing gpus [] s hosts h = h
  pack_all_packing gpus (c ∷ ds) s hosts h =
      pack_all_packing gpus ds (pack budget gpus c s) hosts.1
        (pack_packing gpus c s hosts.0.0 hosts.0.1 h)

  start-IsPacking : IsPacking cs budget start
  unfolding resolve loads_cost load_keys
  start-IsPacking = record {
    current = record { names = refl; keys = λ i. refl; cards_fit = tt };
    one_card = refl;
    cost = refl;
    within = omega arith;
    finished = tt;
    numbered = tt;
    next_number = refl;
  }

  all_kept :
      (ks : List Cohort)
      → All (IsGoodCohort cs budget) ks
      → select (λ k. not (is_empty k.components)) ks ≡ ks
  unfolding select
  all_kept [] h = refl
  all_kept (k ∷ ks) h = rw h.0.full (ap (λ t. k ∷ t) (all_kept ks h.1))

  -- If every single-card GPU component fits the budget, then every cohort that is planned is a good
  -- one, and the cohorts are numbered 0, 1, 2 and so on.
  pub cohorts_of-IsGoodCohort :
      (gpus : ℕ) (ds : List Component)
      → All (λ c. IsListed cs c × IsHostable budget c) ds
      → All (IsGoodCohort cs budget) (cohorts_of budget gpus ds)
        × IsNumbered 0 (cohorts_of budget gpus ds)
  unfolding cohorts_of
  cohorts_of-IsGoodCohort gpus ds hosts =
      let h =
        close_packing cs budget (pack_all budget gpus ds start)
          (pack_all_packing gpus ds start hosts start-IsPacking) in
      rw (all_kept (close (pack_all budget gpus ds start)).cohorts h.finished)
        (h.finished, h.numbered)
