-- ===== src/Process/Gate.antt =====
-- Which passes of vios/process/engine.py reach their runner: the gate of `_run_pass` on the marks of
-- the passes before.
use text.Mathlib.TextPositions.{eq_refl}
use vios_manus.Common.{
  ℕ, ◌<◌, ◌≡◌, refl, Bool, true, false, ◌&&◌, ◌||◌, not, String, str_eq, List, [], ◌∷◌, select, any,
  arith, Bool-cases, inl, inr, eq_iff,
}
use vios_manus.Coverage.{queued, max_attempts}
use vios_manus.Coverage.Finish
use vios_manus.Coverage.Finish.{attempts_at, fail_state}
use vios_manus.Registry.{Component}
use vios_manus.Registry.Lookup.{has}
use vios_manus.Process.{
  Engine, Mark, of_row, deferred, nothing, get, is_broken_mark, is_deferred_mark,
}
use vios_manus.Process.Faults.{is_transient}
use vios_manus.Process.Pass.{
  Texts, Run, Outcome, returned, run_pass, call_runner, gate, hold, settle, raised, defer_pass,
  rejected, fail_pass,
}

some_selected :
    (p q : String → Bool) (n : String) (xs : List String)
    → has n xs ≡ true
    → (p n || q n) ≡ true
    → (any (λ _. true) (select p xs) || any (λ _. true) (select q xs)) ≡ true
unfolding has select
some_selected p q n [] h held = cc
some_selected p q n (y ∷ ys) h held = elim (Bool-cases (str_eq y n)) [
  | inl same ↦ rw ((eq_iff y n).0 same) (ground (arith, held))
  | inr differs ↦ ground (arith, some_selected p q n ys (ground (arith, h, differs)) held)
]

module _ (texts : Texts) (key : String) where
  gate_closed :
      (cid : String) (broken waiting away : List String) (r : Run) (o o' : Outcome)
      (hs hs' : List (String × ℕ)) (e : Engine)
      → (any (λ _. true) broken || any (λ _. true) waiting) ≡ true
      → gate texts key cid (record r { outcome = o; beats = hs }) broken waiting away e
        ≡ gate texts key cid (record r { outcome = o'; beats = hs' }) broken waiting away e
  unfolding gate
  gate_closed cid (b ∷ bs) waiting away r o o' hs hs' e h = refl
  gate_closed cid [] (x ∷ xs) (a ∷ as') r o o' hs hs' e h = refl
  gate_closed cid [] (x ∷ xs) [] r o o' hs hs' e h = refl
  gate_closed cid [] [] away r o o' hs hs' e h = cc

  -- A pass with a need that failed, was skipped or is deferred does not reach its runner: what the
  -- runner would have met makes no difference.
  pub run_pass_gated :
      (comp : Component) (states : List (String × Mark)) (r : Run) (o o' : Outcome)
      (hs hs' : List (String × ℕ)) (e : Engine) (n : String)
      → has n comp.needs ≡ true
      → (is_broken_mark (get n states) || is_deferred_mark (get n states)) ≡ true
      → run_pass texts key comp states (record r { outcome = o; beats = hs }) e
        ≡ run_pass texts key comp states (record r { outcome = o'; beats = hs' }) e
  unfolding run_pass hold
  run_pass_gated comp states r o o' hs hs' e n needed held =
      elim (Bool-cases (not comp.kaggle_ok && e.on_kaggle)) [
        | inl away ↦ rw away refl
        | inr here ↦
            rw here (
              gate_closed comp.id _ _ _ r o o' hs hs' e
                (some_selected _ _ n comp.needs needed held))
      ]

  fault_nothing :
      (d : String) (now : ℕ) (name text why : String) (e : Engine)
      → is_transient name text ≡ true
      → (settle key d now (raised name text why) e).1 ≡ returned nothing
  unfolding settle
  fault_nothing d now name text why e transient = rw transient refl

  refused_queued :
      (d : String) (now : ℕ) (why : String) (e : Engine)
      → attempts_at key d e.cov.rows < max_attempts
      → (settle key d now (rejected why) e).1 ≡ returned (of_row queued)
  unfolding settle fail_pass Finish.fail fail_state
  refused_queued d now why e few = ground (arith, few)

  gate_waits :
      (cid : String) (r : Run) (x : String) (xs away : List String) (e : Engine)
      → (gate texts key cid r [] (x ∷ xs) away e).1 ≡ returned deferred
  unfolding gate
  gate_waits cid r x xs [] e = refl
  gate_waits cid r x xs (a ∷ as') e = refl

  -- The pass of a component that has one need, after the pass of that need in the same video.
  module _ (comp : Component) (d : String) (one_need : comp.needs ≡ d ∷ [])
      (everywhere : comp.kaggle_ok ≡ true) (states : List (String × Mark)) where
    open_gate :
        (m : Mark) (r : Run) (e : Engine)
        → is_broken_mark m ≡ false
        → is_deferred_mark m ≡ false
        → run_pass texts key comp ((d, m) ∷ states) r e ≡ call_runner key comp.id r e
    unfolding run_pass gate select
    open_gate m r e b w = rw (run_pass, everywhere, one_need, eq_refl d, b, w) refl

    waits :
        (r : Run) (e : Engine)
        → (run_pass texts key comp ((d, deferred) ∷ states) r e).1 ≡ returned deferred
    unfolding run_pass gate select
    waits r e = rw (run_pass, everywhere, one_need, eq_refl d) (gate_waits comp.id r d [] _ e)

    -- Three ways for the one need of a component that every machine can run to produce nothing
    -- this time. Where the runner of the need asks to be deferred, the pass of the component
    -- waits; but where it meets a transient fault, and where its emission is rejected with
    -- attempts left, that pass goes to its runner all the same, without its input.
    pub unproduced_need :
        (now : ℕ) (why name text : String) (after : ℕ) (r : Run) (e : Engine)
        → is_transient name text ≡ true
        → attempts_at key d e.cov.rows < max_attempts
        → let asked = settle key d now (defer_pass why after) e in
          let fault = settle key d now (raised name text why) e in
          let refused = settle key d now (rejected why) e in
          (asked.1 ≡ returned deferred)
          × ((run_pass texts key comp ((d, deferred) ∷ states) r asked.0).1 ≡ returned deferred)
          × (fault.1 ≡ returned nothing)
          × (run_pass texts key comp ((d, nothing) ∷ states) r fault.0
              ≡ call_runner key comp.id r fault.0)
          × (refused.1 ≡ returned (of_row queued))
          × (run_pass texts key comp ((d, of_row queued) ∷ states) r refused.0
              ≡ call_runner key comp.id r refused.0)
    unproduced_need now why name text after r e transient few = (
      (unfold settle in refl),
      waits r _,
      fault_nothing d now name text why e transient,
      open_gate nothing r _ refl refl,
      refused_queued d now why e few,
      open_gate (of_row queued) r _ refl refl,
    )
