-- ===== src/Capture/Refines.antt =====
-- The loop of vios/capture/engine.py takes the ledger only along the steps of Ledger/Lifecycle.
use mathlib.Core.Path.{subst}
use vios_manus.Common.{
  ℕ, ◌*◌, ◌≡◌, refl, sym, ap, ◌∙◌, Bool, true, false, ◌&&◌, ◌||◌, Option, none, some, String,
  str_eq, List, [], ◌∷◌, ltb, leb, arith, clip, if◌then◌else◌, Bool-cases, Option-cases, inl, inr,
}
use vios_manus.Ledger.{second, fetching, Item, Ledger, log, set_meta, keyed, find}
use vios_manus.Ledger.Work.{claim_next, claim_row, claimed_copy, next_row}
use vios_manus.Ledger.Report.{next_due_at}
use vios_manus.Ledger.Find.{find-update, find_elem, updated, status_of}
use vios_manus.Sql.{update}
use text.Mathlib.TextPositions.{eq_refl}
use vios_manus.Ledger.Choice.{next_row_lem}
use vios_manus.Ledger.Sound.{IsSoundTable}
use vios_manus.Ledger.Lifecycle.{
  Step, claim, upload, fail, give_up, repair, assets, journal, remember, Reach, here, next,
  Reach-trans, status,
}
use vios_manus.Ledger.Lifecycle.Final.{step-IsSoundTable}
use vios_manus.Capture.Loop.{
  Engine, Outcome, sent, fetch_error, upload_error, crash, Published, built, broken, Times, Sent,
  pinned, refused, log_all, note_assets, miss, fetch_failed, one, snapshot, Draws, wait, Turn, Next,
  again, over, after_item, work, turn, turns, run_loop, hostile_streak_stop, running, error,
}

alone : {l l' : Ledger} → Step l l' → Reach l l'
alone s = next s here

chosen-Reach : {l x y : Ledger} (b : Bool) → Reach l x → Reach l y → Reach l (if b then x else y)
chosen-Reach true p q = p
chosen-Reach false p q = q

log_all-Reach :
    (now : ℕ) (kind key : String) (texts : List String) (l : Ledger)
    → Reach l (log_all now kind key texts l)
unfolding log_all
log_all-Reach now kind key [] l = here
log_all-Reach now kind key (text ∷ texts) l =
    next (journal l now kind text (some key)) (log_all-Reach now kind key texts _)

note_assets-Reach :
    (now : ℕ) (key : String) (p : Published) (l : Ledger) → Reach l (note_assets now key p l)
unfolding note_assets
note_assets-Reach now key (broken text) l = alone (journal l now "asset-note" text (some key))
note_assets-Reach now key (built manifest clips uploads notes joined text) l =
    next (assets l now key manifest clips (clip 400 joined)) (
      Reach-trans
        (chosen-Reach (ltb 0 clips || ltb 0 uploads)
          (alone (journal _ now "assets" text (some key))) here)
        (log_all-Reach now "asset-note" key notes _))

unfoldable pub key_of : Option Item → String
key_of none = ""
key_of (some r) = r.key

-- The row that `claim_next` returns is fetching.
claim-status :
    (skip : List String) (now : ℕ) (l : Ledger) {r : Item}
    → IsSoundTable l.items
    → (claim_next skip now l).1 ≡ some r
    → status r.key (claim_next skip now l).0 ≡ some fetching
unfolding claim_next claimed_copy claim_row key_of keyed
claim-status skip now l {r} h e = elim (Option-cases (next_row skip now l)) [
  | inl n ↦ cc (rw (claim_next, n) at e)
  | inr (x, n) ↦
      let key : x.key ≡ r.key = ap key_of (rw (claim_next, n) at e) in
      let (m, _) = next_row_lem skip now l n in
      let row : find x.key (update (keyed x.key) (claim_row now) l.items) ≡ some (claim_row now x) =
        find-update x.key (keyed x.key) (claim_row now) l.items (λ _. refl)
        ∙ ap (updated (keyed x.key) (claim_row now)) (find_elem x.key l.items (h.once x.key) m refl)
        ∙ rw (eq_refl x.key) refl in
      rw (claim_next, n)
        (subst
          (λ k. status_of (find k (update (keyed x.key) (claim_row now) l.items)) ≡ some fetching)
          key (ap status_of row))
]

one-Reach :
    (t : Times) (key : String) (o : Outcome) (e : Engine)
    → status key e.ledger ≡ some fetching
    → Reach e.ledger (one t key o e).0.ledger
unfolding one fetch_failed miss
one-Reach t key (crash text) e f =
    alone (fail e.ledger t.marked key text (900 * second) e.max_attempts f)
one-Reach t key (upload_error text) e f =
    next (fail e.ledger t.marked key text (300 * second) e.max_attempts f)
      (alone (journal _ t.logged "upload-failed" (clip 400 text) (some key)))
one-Reach t key (fetch_error kind text) e f = elim (Bool-cases (str_eq kind "unavailable")) [
  | inl u ↦ rw (fetch_failed, u) (alone (give_up e.ledger t.marked key text f))
  | inr u ↦ elim (Bool-cases (str_eq kind "hostile")) [
    | inl v ↦
        rw (fetch_failed, u, v)
          (next (fail e.ledger t.marked key text (7200 * second) e.max_attempts f)
            (alone (journal _ t.logged "hostile" (clip 400 text) (some key))))
    | inr v ↦
        rw (fetch_failed, u, v)
          (alone (fail e.ledger t.marked key text (900 * second) e.max_attempts f))
  ]
]
one-Reach t key (sent given text missing video got) e f =
    next (upload e.ledger t.marked key given f) (
      next (journal _ t.logged "captured" text (some key)) (
        Reach-trans (log_all-Reach t.logged "slide-missing" key missing _)
          (chosen-Reach (e.upload_assets && video) (note_assets-Reach t.noted key got _) here)))

snapshot-Reach :
    (force : Bool) (now : ℕ) (s : Sent) (e : Engine)
    → Reach e.ledger (snapshot force now s e).ledger
unfolding snapshot
snapshot-Reach force now s e = elim (Bool-cases (force || leb e.snapshot_every e.since_snapshot)) [
  | inl h ↦ rw (snapshot, h) (of_sent s)
  | inr h ↦ rw (snapshot, h) here
]
  where
    of_sent :
        (s : Sent)
        → Reach e.ledger (elim s [
          | pinned at ↦ record e.ledger { meta = set_meta "last_snapshot" at e.ledger.meta }
          | refused text ↦ log now "snapshot-failed" (clip 300 text) none e.ledger
        ])
    of_sent (pinned at) = alone (remember e.ledger "last_snapshot" at)
    of_sent (refused text) = alone (journal e.ledger now "snapshot-failed" (clip 300 text) none)

pub wait-ledger : (local : Bool) (d : Draws) (e : Engine) → (wait local d e).0.ledger ≡ e.ledger
unfolding wait
wait-ledger local d e = ground arith

after_item-Reach :
    (t : Turn) (kind : String) (e : Engine) → Reach e.ledger (after_item t kind e).0.ledger
unfolding after_item
after_item-Reach t kind e = elim (Bool-cases t.stopped) [
  | inl a ↦ rw (after_item, a) here
  | inr a ↦
      let s = snapshot false t.times.noted t.snapped e in
      let snapped = snapshot-Reach false t.times.noted t.snapped e in
      elim (Bool-cases (leb hostile_streak_stop s.hostile_streak)) [
        | inl b ↦
            let halted : Engine = record s {
              state = error;
              ledger = log t.times.noted "halt" t.halt none s.ledger;
            } in
            rw (after_item, a, b)
              (Reach-trans snapped (
                next (journal s.ledger t.times.noted "halt" t.halt none)
                  (snapshot-Reach true t.times.noted t.last halted)))
        | inr b ↦
            rw (after_item, a, b)
              (subst (Reach e.ledger) (sym (wait-ledger (str_eq kind "local-media") t.draws s))
                snapped)
      ]
]

work-Reach :
    (t : Turn) (e : Engine) → IsSoundTable e.ledger.items → Reach e.ledger (work t e).0.ledger
unfolding work
work-Reach t e h =
    let skip = e.skip_collections in
    elim (Option-cases (claim_next skip t.now e.ledger).1) [
      | inr (item, c) ↦
          let e' = record e { ledger = (claim_next skip t.now e.ledger).0 } in
          rw (work, c)
            (next (claim e.ledger skip t.now) (
              Reach-trans
                (one-Reach t.times item.key t.outcome e' (claim-status skip t.now e.ledger h c))
                (after_item-Reach t item.kind _)))
      | inl c ↦ elim (Option-cases (next_due_at skip e.ledger)) [
        | inr (due, d) ↦ rw (work, c, d) here
        | inl d ↦ rw (work, c, d) (snapshot-Reach true t.times.noted t.last e)
      ]
    ]

pub turn-Reach :
    (t : Turn) (e : Engine) → IsSoundTable e.ledger.items → Reach e.ledger (turn t e).0.ledger
unfolding turn
turn-Reach t e h = elim (Bool-cases t.stop) [
  | inl a ↦ rw (turn, a) here
  | inr a ↦ elim (Bool-cases t.pause) [
    | inl b ↦ rw (turn, a, b) here
    | inr b ↦ rw (turn, a, b) (work-Reach t (record e { state = running }) h)
  ]
]

pub Reach-IsSoundTable : {l l' : Ledger} → Reach l l' → IsSoundTable l.items → IsSoundTable l'.items
Reach-IsSoundTable here h = h
Reach-IsSoundTable (next s more) h = Reach-IsSoundTable more (step-IsSoundTable s h)

turns-Reach :
    (ts : List Turn) (e : Engine)
    → IsSoundTable e.ledger.items
    → Reach e.ledger (turns ts e).0.ledger
unfolding turns
turns-Reach [] e h = here
turns-Reach (t ∷ ts) e h =
    let first = turn-Reach t e h in
    let rest = turns-Reach ts (turn t e).0 (Reach-IsSoundTable first h) in
    onward (turn t e).1 first (Reach-trans first rest)
  where
    onward :
        (n : Next)
        → Reach e.ledger (turn t e).0.ledger
        → Reach e.ledger (turns ts (turn t e).0).0.ledger
        → Reach e.ledger
            (elim n as (λ _. Engine × Next) [
              | again span ↦ turns ts (turn t e).0
              | over ↦ turn t e
            ]).0.ledger
    onward over r more = r
    onward (again span) r more = more

-- From a sound table, a run of the loop, whatever is fetched, refused or stopped in its turns, takes
-- the ledger along the steps of the work loop, and leaves a sound table.
pub run_loop-Reach :
    (show : ℕ → String) (now : ℕ) (ts : List Turn) (e : Engine)
    → IsSoundTable e.ledger.items
    → Reach e.ledger (run_loop show now ts e).0.ledger
      × IsSoundTable (run_loop show now ts e).0.ledger.items
unfolding run_loop
run_loop-Reach show now ts e h =
    let s = repair e.ledger show now (1800 * second) in
    let r = next s (turns-Reach ts _ (step-IsSoundTable s h)) in (r, Reach-IsSoundTable r h)
