-- ===== src/Capture/Strands.antt =====
-- A row that a stopped run of vios/capture/engine.py has left `fetching`, in the next run.

use vios_manus.Common.{
  ℕ, ◌+◌, ◌*◌, ◌≡◌, ◌≤◌, refl, sym, ap, ◌∙◌, Bool, true, false, ◌&&◌, ◌||◌, not, none, some, String,
  str_eq, eq_iff, List, [], ◌∷◌, leb, arith, clip, Bool-cases, Option-cases, inl, inr,
}
use vios_manus.Ledger.{
  is, queued, failed, in_collections, second, fetching, Item, Ledger, log, set_meta, find,
}
use vios_manus.Ledger.Work.{
  claim_next, claim_row, claimed_copy, next_row, is_due, is_stale, repair_stale,
}
use vios_manus.Ledger.Report.{next_due_at}
use vios_manus.Ledger.Find.{find-update, find_elem, status_of}
use vios_manus.Ledger.Choice.{next_row_lem}
use vios_manus.Ledger.Sound.{IsSoundTable}
use vios_manus.Ledger.Keeps.{repaired}
use vios_manus.Ledger.Lifecycle.{repair}
use vios_manus.Ledger.Lifecycle.Final.{step-IsSoundTable}
use vios_manus.Capture.Refines.{key_of, wait-ledger, turn-Reach, Reach-IsSoundTable}
use vios_manus.Capture.Loop.{
  Engine, Sent, pinned, refused, one, snapshot, Turn, Next, again, over, after_item, work, turn,
  turns, run_loop, hostile_streak_stop, running, error,
}
use vios_manus.Capture.Others.{Same, update-other, one-Same}

not_due :
    (skip : List String) (now : ℕ) (l : Ledger) (r : Item)
    → r.state ≡ fetching
    → is_due skip now l r ≡ false
unfolding is_due
not_due skip now l r h =
    ap
      (λ s.
        (is queued s || is failed s)
        && (leb r.next_try_at now && not (in_collections skip l.memberships r)))
      h

-- A row that is fetching is not the one that is claimed.
claimed_other :
    (k : String) (skip : List String) (now : ℕ) (l : Ledger) {r x : Item}
    → IsSoundTable l.items
    → find k l.items ≡ some r
    → r.state ≡ fetching
    → next_row skip now l ≡ some x
    → str_eq k x.key ≡ false
claimed_other k skip now l {r} {x} h e st n = elim (Bool-cases (str_eq k x.key)) [
  | inr off ↦ off
  | inl hit ↦
      let (m, due) = next_row_lem skip now l n in
      let here : find k l.items ≡ some x =
        find_elem k l.items (h.once k) m (sym ((eq_iff k x.key).0 hit)) in
      let same : some x ≡ some r = sym here ∙ e in
      let state : x.state ≡ fetching = cc (ap status_of same, st) in
      absurd (cc (due, not_due skip now l x state))
]

claim-Same :
    (k : String) (skip : List String) (now : ℕ) (l : Ledger) {r : Item}
    → IsSoundTable l.items
    → find k l.items ≡ some r
    → r.state ≡ fetching
    → Same k l (claim_next skip now l).0
unfolding claim_next claim_row Same
claim-Same k skip now l h e st = elim (Option-cases (next_row skip now l)) [
  | inl n ↦ rw (claim_next, n) refl
  | inr (x, n) ↦
      rw (claim_next, n)
        (update-other k x.key (claim_row now) l.items (λ _. refl)
          (claimed_other k skip now l h e st n))
]

claim-other :
    (k : String) (skip : List String) (now : ℕ) (l : Ledger) {r item : Item}
    → IsSoundTable l.items
    → find k l.items ≡ some r
    → r.state ≡ fetching
    → (claim_next skip now l).1 ≡ some item
    → str_eq k item.key ≡ false
unfolding claim_next claimed_copy key_of
claim-other k skip now l {item = item} h e st c = elim (Option-cases (next_row skip now l)) [
  | inl n ↦ cc (rw (claim_next, n) at c)
  | inr (x, n) ↦
      let key : x.key ≡ item.key = ap key_of (rw (claim_next, n) at c) in
      sym (ap (str_eq k) key) ∙ claimed_other k skip now l h e st n
]

snapshot-Same :
    (k : String) (force : Bool) (now : ℕ) (s : Sent) (e : Engine)
    → Same k e.ledger (snapshot force now s e).ledger
unfolding snapshot log Same
snapshot-Same k force now s e = elim (Bool-cases (force || leb e.snapshot_every e.since_snapshot)) [
  | inl h ↦ rw (snapshot, h) (of_sent s)
  | inr h ↦ rw (snapshot, h) refl
]
  where
    of_sent :
        (s : Sent)
        → find k
            (elim s as (λ _. Ledger) [
              | pinned at ↦ record e.ledger { meta = set_meta "last_snapshot" at e.ledger.meta }
              | refused text ↦ log now "snapshot-failed" (clip 300 text) none e.ledger
            ]).items
          ≡ find k e.ledger.items
    of_sent (pinned at) = refl
    of_sent (refused text) = refl

after_item-Same :
    (k : String) (t : Turn) (kind : String) (e : Engine)
    → Same k e.ledger (after_item t kind e).0.ledger
unfolding after_item log Same
after_item-Same k t kind e = elim (Bool-cases t.stopped) [
  | inl a ↦ rw (after_item, a) refl
  | inr a ↦
      let s = snapshot false t.times.noted t.snapped e in
      let snapped = snapshot-Same k false t.times.noted t.snapped e in
      elim (Bool-cases (leb hostile_streak_stop s.hostile_streak)) [
        | inl b ↦
            let halted : Engine = record s {
              state = error;
              ledger = log t.times.noted "halt" t.halt none s.ledger;
            } in
            rw (after_item, a, b) (snapshot-Same k true t.times.noted t.last halted ∙ snapped)
        | inr b ↦
            rw (after_item, a, b)
              (ap (λ (l : Ledger). find k l.items)
                  (wait-ledger (str_eq kind "local-media") t.draws s)
                ∙ snapped)
      ]
]

work-Same :
    (k : String) (t : Turn) (e : Engine) {r : Item}
    → IsSoundTable e.ledger.items
    → find k e.ledger.items ≡ some r
    → r.state ≡ fetching
    → Same k e.ledger (work t e).0.ledger
unfolding work Same
work-Same k t e h f st =
    let skip = e.skip_collections in
    elim (Option-cases (claim_next skip t.now e.ledger).1) [
      | inr (item, c) ↦
          let e' = record e { ledger = (claim_next skip t.now e.ledger).0 } in
          let off = claim-other k skip t.now e.ledger h f st c in
          let e'' = (one t.times item.key t.outcome e').0 in
          rw (work, c)
            (after_item-Same k t item.kind e''
              ∙ (one-Same k t.times item.key t.outcome e' off
                  ∙ claim-Same k skip t.now e.ledger h f st))
      | inl c ↦ elim (Option-cases (next_due_at skip e.ledger)) [
        | inr (due, d) ↦ rw (work, c, d) refl
        | inl d ↦ rw (work, c, d) (snapshot-Same k true t.times.noted t.last e)
      ]
    ]

turn-Same :
    (k : String) (t : Turn) (e : Engine) {r : Item}
    → IsSoundTable e.ledger.items
    → find k e.ledger.items ≡ some r
    → r.state ≡ fetching
    → Same k e.ledger (turn t e).0.ledger
unfolding turn Same
turn-Same k t e h f st = elim (Bool-cases t.stop) [
  | inl a ↦ rw (turn, a) refl
  | inr a ↦ elim (Bool-cases t.pause) [
    | inl b ↦ rw (turn, a, b) refl
    | inr b ↦ rw (turn, a, b) (work-Same k t (record e { state = running }) h f st)
  ]
]

turns_strand :
    (k : String) (ts : List Turn) (e : Engine) {r : Item}
    → IsSoundTable e.ledger.items
    → find k e.ledger.items ≡ some r
    → r.state ≡ fetching
    → find k (turns ts e).0.ledger.items ≡ some r
unfolding turns Same
turns_strand k [] e h f st = f
turns_strand k (t ∷ ts) e {r} h f st =
    let first = turn-Same k t e h f st ∙ f in
    let sound = Reach-IsSoundTable (turn-Reach t e h) h in
    onward (turn t e).1 first (turns_strand k ts (turn t e).0 sound first st)
  where
    onward :
        (n : Next)
        → find k (turn t e).0.ledger.items ≡ some r
        → find k (turns ts (turn t e).0).0.ledger.items ≡ some r
        → find k
            (elim n as (λ _. Engine × Next) [
              | again span ↦ turns ts (turn t e).0
              | over ↦ turn t e
            ]).0.ledger.items
          ≡ some r
    onward over q more = q
    onward (again span) q more = more

-- A row that a run has left fetching, and that the next run finds less than half an hour after it was
-- claimed, keeps its state, column by column, through all turns of that run.
pub run_loop_strands :
    (k : String) (show : ℕ → String) (now claimed_at : ℕ) (ts : List Turn) (e : Engine) (r : Item)
    → IsSoundTable e.ledger.items
    → find k e.ledger.items ≡ some r
    → r.state ≡ fetching
    → r.last_try_at ≡ some claimed_at
    → now ≤ claimed_at + 1800 * second
    → find k (run_loop show now ts e).0.ledger.items ≡ some r
unfolding run_loop is_stale
run_loop_strands k show now claimed_at ts e r h f st at soon =
    let l' = (repair_stale show now (1800 * second) e.ledger).0 in
    let fresh : is_stale now (1800 * second) r ≡ false =
      rw (is_stale, st, at) (ground (arith, soon)) in
    let kept : find k l'.items ≡ some r =
      ap (find k) (repaired show now (1800 * second) e.ledger)
      ∙ find-update k (is_stale now (1800 * second)) (λ x. record x { state = queued })
          e.ledger.items (λ x. refl)
      ∙ rw (f, fresh) refl in
    turns_strand k ts (record e { ledger = l' })
      (step-IsSoundTable (repair e.ledger show now (1800 * second)) h) kept st
