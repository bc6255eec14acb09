-- ===== src/Process/OneVideo/Calls.antt =====
-- `_process_video` of vios/process/engine.py as a sequence of calls on the coverage table: nothing, or
-- one claim and then the calls of the claimed passes in their order.
use mathlib.Core.List.{flatten}
use mathlib.Core.Path.{subst}
use vios_manus.Common.{
  ◌≡◌, refl, ◌∙◌, Bool, true, false, Option, none, some, String, List, [], ◌∷◌, ◌++◌, Bool-cases,
  Option-cases, if◌then◌else◌, inl, inr,
}
use vios_manus.Coverage.{Conn, Worker}
use vios_manus.Coverage.History.{Call, perform, run}
use vios_manus.Registry.{Component}
use vios_manus.Registry.Lookup.{by_id}
use vios_manus.Registry.Cohorts.Planned.{by_id-id}
use vios_manus.Registry.Topo.{Sorting, order, unknown, cycle}
use vios_manus.Process.{Engine, Mark}
use vios_manus.Process.Pass.{Texts, Run, Result, returned, raises, run_pass}
use vios_manus.Process.OneVideo.{
  count_video, Fetch, got, source_error, other_error, Meeting, fail_all, run_all, run_order,
  run_sorted, states_of,
}
use vios_manus.Process.OneVideo.Claimed.{
  releasing, failing, IsPass, SettledBy, settled_once, run_pass-SettledBy,
}
use vios_manus.Process.OneVideo.Tally.{run_pass-IsCounted}

-- The calls of these passes one after the other: of all of them, or, where it need not be through,
-- only of the first few.
abbrev pub SettlesAll : Worker → String → Bool → List String → List (List Call) → Type 0
SettlesAll w key through [] [] = Unit {0}
SettlesAll w key through [] (x ∷ xs) = ⊥
SettlesAll w key false (cid ∷ rest) [] = Unit {0}
SettlesAll w key true (cid ∷ rest) [] = ⊥
SettlesAll w key through (cid ∷ rest) (x ∷ xs) =
    IsPass w key cid x × SettlesAll w key through rest xs

SettlesAll-weaken :
    (w : Worker) (key : String) (out : List String) (passes : List (List Call))
    → SettlesAll w key true out passes
    → SettlesAll w key false out passes
SettlesAll-weaken w key [] [] s = tt
SettlesAll-weaken w key [] (x ∷ xs) s = s
SettlesAll-weaken w key (cid ∷ rest) [] s = tt
SettlesAll-weaken w key (cid ∷ rest) (x ∷ xs) (s, ss) = (s, SettlesAll-weaken w key rest xs ss)

pub run-append : (xs ys : List Call) (c : Conn) → run (xs ++ ys) c ≡ run ys (run xs c)
unfolding run
run-append [] ys c = refl
run-append (x ∷ xs) ys c = run-append xs ys (perform x c)

-- Whether the call came back.
abbrev pub came_back : Option Bool → Bool
came_back none = false
came_back (some b) = true

-- A table that such calls have led to.
abbrev pub Through : Worker → String → Bool → List String → Conn → Conn → Type 0
Through w key through out c c' =
    (passes : List (List Call)) × SettlesAll w key through out passes
    × (c' ≡ run (flatten passes) c)

-- The components of a sort that came to an order.
abbrev pub order_of : Sorting → List String
order_of (order out) = out
order_of (unknown ids) = []
order_of (cycle ids) = []

module _ (w : Worker) (key : String) where
  Through-none : (out : List String) (c : Conn) → Through w key false out c c
  unfolding run flatten
  Through-none [] c = ([], tt, refl)
  Through-none (cid ∷ rest) c = ([], tt, refl)

  Through-weaken :
      (out : List String) (c c' : Conn) → Through w key true out c c' → Through w key false out c c'
  Through-weaken out c c' (passes, s, e) = (passes, SettlesAll-weaken w key out passes s, e)

  Through-next :
      (b : Bool) (cid : String) (rest : List String) (c c' c'' : Conn)
      → SettledBy w key cid c c'
      → Through w key b rest c' c''
      → Through w key b (cid ∷ rest) c c''
  unfolding run flatten
  Through-next true cid rest c c' c'' (x, s, e) (xs, ss, f) =
      (x ∷ xs, (s, ss), rw (run-append x (flatten xs) c, ← e) f)
  Through-next false cid rest c c' c'' (x, s, e) (xs, ss, f) =
      (x ∷ xs, (s, ss), rw (run-append x (flatten xs) c, ← e) f)

  Through-first :
      (cid : String) (rest : List String) (c c' : Conn)
      → SettledBy w key cid c c'
      → Through w key false (cid ∷ rest) c c'
  Through-first cid rest c c' s = Through-next false cid rest c c' c' s (Through-none rest c')

  fail_all-Through :
      (why : String) (runs : String → Run) (out : List String) (e : Engine)
      → Through w key true out e.cov (fail_all key why runs out e).cov
  unfolding fail_all run perform flatten
  fail_all-Through why runs [] e = ([], tt, refl)
  fail_all-Through why runs (cid ∷ rest) e =
      Through-next true cid rest _ _ _ (settled_once w key cid _ e.cov (failing why (runs cid).at))
        (fail_all-Through why runs rest _)

  module _ (cs : List Component) (texts : Texts) (runs : String → Run) where
    next_pass :
        (cid : String) (rest : List String) (states : List (String × Mark)) (comp : Component)
        (e : Engine) (res : Engine × Result)
        → SettledBy w key cid e.cov res.0.cov
        → res.0.worker ≡ w
        → ((s : List (String × Mark)) (e' : Engine)
            → e'.worker ≡ w
            → let (e'', b) = run_all cs texts key runs rest s e' in
              Through w key b rest e'.cov e''.cov)
        → let (e'', b) = elim res.1 as (λ _. Engine × Bool) [
          | returned m ↦ run_all cs texts key runs rest ((cid, m) ∷ states) res.0
          | raises ↦ (res.0, false)
        ] in
          Through w key b (cid ∷ rest) e.cov e''.cov
    next_pass cid rest states comp e (e', returned m) s same ih =
        Through-next _ cid rest _ _ _ s (ih ((cid, m) ∷ states) e' same)
    next_pass cid rest states comp e (e', raises) s same ih = Through-first cid rest _ _ s

    run_all-Through :
        (out : List String) (states : List (String × Mark)) (e : Engine)
        → e.worker ≡ w
        → let (e', b) = run_all cs texts key runs out states e in Through w key b out e.cov e'.cov
    unfolding run_all run perform flatten
    run_all-Through [] states e same = ([], tt, refl)
    run_all-Through (cid ∷ rest) states e same = elim (Bool-cases (runs cid).stop) [
      | inl stopped ↦
          rw (run_all, stopped)
            (Through-next _ cid rest _ _ _ (settled_once w key cid _ e.cov releasing)
              (run_all-Through rest states _ same))
      | inr on ↦ elim (Option-cases (by_id cs cid)) [
        | inl gone ↦ rw (run_all, on, gone) (Through-none (cid ∷ rest) e.cov)
        | inr (comp, found) ↦
            rw (run_all, on, found)
              (next_pass cid rest states comp e (run_pass texts key comp states (runs cid) e)
                (subst
                  (λ i. SettledBy w key i e.cov (run_pass texts key comp states (runs cid) e).0.cov)
                  (by_id-id cs cid found)
                  (subst
                    (λ v.
                      SettledBy v key comp.id e.cov
                        (run_pass texts key comp states (runs cid) e).0.cov)
                    same (run_pass-SettledBy texts key comp states (runs cid) e)))
                ((run_pass-IsCounted texts key comp states (runs cid) e).same_worker ∙ same)
                (λ s e' same'. run_all-Through rest s e' same'))
      ]
    ]

  module _ (cs : List Component) (texts : Texts) (m : Meeting) where
    run_order-Through :
        (out : List String) (e : Engine)
        → e.worker ≡ w
        → let (e', res) = run_order cs texts key m out e in
          Through w key (came_back res) out e.cov e'.cov
    unfolding run_order
    run_order-Through out e same =
        finished _ m.tidied (run_all-Through cs texts m.runs out (states_of key e.cov) e same)
      where
        finished :
            (r : Engine × Bool) (tidied : Bool)
            → Through w key r.1 out e.cov r.0.cov
            → let (e', res) = elim r.1 as (λ _. Engine × Option Bool) [
              | true ↦ (count_video r.0, if tidied then some true else none)
              | false ↦ (r.0, none)
            ] in
              Through w key (came_back res) out e.cov e'.cov
        finished (e', true) true h = h
        finished (e', true) false h = Through-weaken out _ _ h
        finished (e', false) tidied h = h

    pub run_sorted-Through :
        (s : Sorting) (e : Engine)
        → e.worker ≡ w
        → let (e', res) = run_sorted cs texts key m s e in
          (came_back res ≡ true → s ≡ order (order_of s))
          × Through w key (came_back res) (order_of s) e.cov e'.cov
    unfolding run_sorted
    run_sorted-Through (unknown ids) e same = ((λ no. cc), Through-none [] e.cov)
    run_sorted-Through (cycle ids) e same = ((λ no. cc), Through-none [] e.cov)
    run_sorted-Through (order out) e same = ((λ _. refl), ended m.fetch)
      where
        ended :
            (f : Fetch)
            → let (e', res) = run_sorted cs texts key (record m { fetch = f }) (order out) e in
              Through w key (came_back res) out e.cov e'.cov
        ended got = run_order-Through out e same
        ended (source_error why) = fail_all-Through why m.runs out e
        ended (other_error why) = fail_all-Through why m.runs out e
