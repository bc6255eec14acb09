-- ===== src/Capture/Halt.antt =====
-- The halt after refusals in the loop of vios/capture/engine.py.

use vios_manus.Common.{
  ℕ, ◌+◌, ◌≡◌, ◌≤◌, ◌<◌, refl, sym, ◌∙◌, Bool, true, false, none, String, str_eq, List, [], ◌∷◌,
  leb, arith, Bool-cases, Option-cases, inl, inr,
}
use vios_manus.Ledger.{log}
use vios_manus.Ledger.Work.{claim_next}
use vios_manus.Ledger.Report.{next_due_at}
use vios_manus.Capture.Loop.{
  Engine, Outcome, sent, fetch_error, upload_error, crash, Times, Draws, snapshot, wait, one,
  fetch_failed, miss, Turn, Next, again, over, after_item, work, turn, turns, hostile_streak_stop,
  running, error,
}
use vios_manus.Capture.Spaced.{snapshot-pacer}

-- How an item changes the number of refusals in a row.
one-streak :
    (t : Times) (key : String) (o : Outcome) (e : Engine)
    → (one t key o e).0.hostile_streak ≤ e.hostile_streak + 1
unfolding one fetch_failed miss
one-streak t key (sent given text missing video got) e = omega arith
one-streak t key (upload_error text) e = omega arith
one-streak t key (crash text) e = omega arith
one-streak t key (fetch_error kind text) e = ground arith

wait-streak :
    (local : Bool) (d : Draws) (e : Engine) → (wait local d e).0.hostile_streak ≡ e.hostile_streak
unfolding wait
wait-streak local d e = ground arith

after_item-streak :
    (t : Turn) (kind : String) (e : Engine)
    → ((after_item t kind e).0.hostile_streak ≡ e.hostile_streak)
      × (hostile_streak_stop ≤ e.hostile_streak → (after_item t kind e).1 ≡ over)
unfolding after_item
after_item-streak t kind e =
    let s = snapshot false t.times.noted t.snapped e in
    let same = (snapshot-pacer false t.times.noted t.snapped e).1 in
    elim (Bool-cases t.stopped) [
      | inl a ↦ rw (after_item, a) (refl, λ _. refl)
      | inr a ↦ elim (Bool-cases (leb hostile_streak_stop s.hostile_streak)) [
        | inl b ↦
            let halted : Engine = record s {
              state = error;
              ledger = log t.times.noted "halt" t.halt none s.ledger;
            } in
            rw (after_item, a, b)
              ((snapshot-pacer true t.times.noted t.last halted).1 ∙ same, λ _. refl)
        | inr b ↦
            rw (after_item, a, b)
              (
                wait-streak (str_eq kind "local-media") t.draws s ∙ same,
                λ full. absurd (ground (arith, same)),
              )
      ]
    ]

-- At most five refusals are counted, and at five the loop is over.
unfoldable pub HaltsAtFive : Engine × Next → Type 0
HaltsAtFive (e, n) =
    (e.hostile_streak ≤ hostile_streak_stop) × (hostile_streak_stop ≤ e.hostile_streak → n ≡ over)

work-HaltsAtFive :
    (t : Turn) (e : Engine) → e.hostile_streak < hostile_streak_stop → HaltsAtFive (work t e)
unfolding work HaltsAtFive
work-HaltsAtFive t e few = elim (Option-cases (claim_next e.skip_collections t.now e.ledger).1) [
  | inr (item, c) ↦
      let e' = record e { ledger = (claim_next e.skip_collections t.now e.ledger).0 } in
      let e'' = (one t.times item.key t.outcome e').0 in
      let more = one-streak t.times item.key t.outcome e' in
      let (same, halts) = after_item-streak t item.kind e'' in
      rw (work, c) (omega (arith, same, more, few), λ full. halts (omega (arith, same, full)))
  | inl c ↦ elim (Option-cases (next_due_at e.skip_collections e.ledger)) [
    | inr (due, d) ↦ rw (work, c, d) (omega (arith, few), λ full. absurd (omega (arith, few, full)))
    | inl d ↦
        rw (work, c, d)
          (omega (arith, few, (snapshot-pacer true t.times.noted t.last e).1), λ _. refl)
  ]
]

turn-HaltsAtFive :
    (t : Turn) (e : Engine) → e.hostile_streak < hostile_streak_stop → HaltsAtFive (turn t e)
unfolding turn HaltsAtFive
turn-HaltsAtFive t e few = elim (Bool-cases t.stop) [
  | inl a ↦ rw (turn, a) (omega (arith, few), λ _. refl)
  | inr a ↦ elim (Bool-cases t.pause) [
    | inl b ↦ rw (turn, a, b) (omega (arith, few), λ full. absurd (omega (arith, few, full)))
    | inr b ↦ rw (turn, a, b) (work-HaltsAtFive t (record e { state = running }) few)
  ]
]

below :
    {n : ℕ} {span : ℕ}
    → n ≤ hostile_streak_stop
    → (hostile_streak_stop ≤ n → again span ≡ over)
    → n < hostile_streak_stop
below {n} le not_full = elim (Bool-cases (leb hostile_streak_stop n)) [
  | inl h ↦ absurd (cc (not_full (ground arith)))
  | inr h ↦ ground arith
]

-- A loop that starts below five refusals, as `start` makes it, counts five at most, however many
-- turns follow, and when it has counted five it is over.
pub turns-HaltsAtFive :
    (ts : List Turn) (e : Engine)
    → e.hostile_streak < hostile_streak_stop
    → HaltsAtFive (turns ts e)
unfolding turns HaltsAtFive
turns-HaltsAtFive [] e few = (omega (arith, few), λ full. absurd (omega (arith, few, full)))
turns-HaltsAtFive (t ∷ ts) e few =
    let (most, halts) = turn-HaltsAtFive t e few in
    onward (turn t e).1 refl most halts (turns-HaltsAtFive ts (turn t e).0)
  where
    onward :
        (n : Next)
        → (turn t e).1 ≡ n
        → (turn t e).0.hostile_streak ≤ hostile_streak_stop
        → (hostile_streak_stop ≤ (turn t e).0.hostile_streak → (turn t e).1 ≡ over)
        → ((turn t e).0.hostile_streak < hostile_streak_stop → HaltsAtFive (turns ts (turn t e).0))
        → HaltsAtFive (elim n as (λ _. Engine × Next) [
          | again span ↦ turns ts (turn t e).0
          | over ↦ turn t e
        ])
    onward over q most halts more = (most, halts)
    onward (again span) q most halts more = more (below most (λ full. sym q ∙ halts full))
