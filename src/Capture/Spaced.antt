-- ===== src/Capture/Spaced.antt =====
-- The sleeps between two fetches in the loop of vios/capture/engine.py.
use mathlib.Core.Path.{subst}
use native.Mathlib.Nat.{mul-le-mul_left}
use vios_manus.Common.{
  ℕ, ◌*◌, ◌≡◌, ◌≤◌, refl, sym, ap, Bool, false, ◌||◌, min, some, String, str_eq, leb, arith,
  Bool-cases, inl, inr,
}
use vios_manus.Ledger.{Item}
use vios_manus.Ledger.Work.{claim_next}
use vios_manus.Capture.Pacer.{floor, due_for_break, take_break, next_interval}
use vios_manus.Capture.Pace.{
  IsPaced, success, failure, hostile, hear, hear-IsPaced, interval_bounds, floor_le,
  IsBackoff-bounds,
}
use vios_manus.Capture.Loop.{
  Engine, Outcome, sent, fetch_error, upload_error, crash, Times, Sent, Draws, snapshot, wait, one,
  fetch_failed, miss, Turn, Next, again, over, after_item, work, hostile_streak_stop,
}

one-IsPaced :
    (t : Times) (key : String) (o : Outcome) (e : Engine)
    → IsPaced e.pacer
    → IsPaced (one t key o e).0.pacer
unfolding one fetch_failed miss hear
one-IsPaced t key (sent given text missing video got) e h = hear-IsPaced success e.pacer h
one-IsPaced t key (upload_error text) e h = hear-IsPaced failure e.pacer h
one-IsPaced t key (crash text) e h = hear-IsPaced failure e.pacer h
one-IsPaced t key (fetch_error kind text) e h = elim (Bool-cases (str_eq kind "unavailable")) [
  | inl u ↦ rw (fetch_failed, u) (hear-IsPaced success e.pacer h)
  | inr u ↦ elim (Bool-cases (str_eq kind "hostile")) [
    | inl v ↦ rw (fetch_failed, u, v) (hear-IsPaced hostile e.pacer h)
    | inr v ↦ rw (fetch_failed, u, v) (hear-IsPaced failure e.pacer h)
  ]
]

pub snapshot-pacer :
    (force : Bool) (now : ℕ) (s : Sent) (e : Engine)
    → ((snapshot force now s e).pacer ≡ e.pacer)
      × ((snapshot force now s e).hostile_streak ≡ e.hostile_streak)
unfolding snapshot
snapshot-pacer force now s e = elim (Bool-cases (force || leb e.snapshot_every e.since_snapshot)) [
  | inl h ↦ rw (snapshot, h) (refl, refl)
  | inr h ↦ rw (snapshot, h) (refl, refl)
]

wait-floor :
    (d : Draws) (e : Engine)
    → IsPaced e.pacer
    → 720000 ≤ d.pause
    → (floor (wait false d e).0.pacer.profile * 1000 ≤ (wait false d e).1)
unfolding wait take_break next_interval
wait-floor d e h long =
    let (lo, hi) = IsBackoff-bounds e.pacer.backoff e.pacer.consecutive_ok h.backed in
    let q = floor_le e.pacer.profile in
    elim (Bool-cases (due_for_break e.pacer)) [
      | inl b ↦
          let scaled : 100 ≤ min e.pacer.backoff 300 = omega (arith, lo) in
          rw (wait, b) (omega (arith, q, long, mul-le-mul_left d.pause scaled))
      | inr b ↦ rw (wait, b) (interval_bounds e.pacer d.gap d.hour h).2
    ]

span_of : Next → ℕ
span_of (again span) = span
span_of over = 0

after_item-floor :
    (t : Turn) (kind : String) (e : Engine) {span : ℕ}
    → IsPaced e.pacer
    → 720000 ≤ t.draws.pause
    → str_eq kind "local-media" ≡ false
    → (after_item t kind e).1 ≡ again span
    → floor (after_item t kind e).0.pacer.profile * 1000 ≤ span
unfolding after_item span_of
after_item-floor t kind e {span} h long remote f = elim (Bool-cases t.stopped) [
  | inl a ↦ cc (rw (after_item, a) at f)
  | inr a ↦
      let s = snapshot false t.times.noted t.snapped e in
      elim (Bool-cases (leb hostile_streak_stop s.hostile_streak)) [
        | inl b ↦ cc (rw (after_item, a, b) at f)
        | inr b ↦
            let same = (snapshot-pacer false t.times.noted t.snapped e).0 in
            let paced : IsPaced s.pacer = subst IsPaced (sym same) h in
            let slept : (wait false t.draws s).1 ≡ span =
              ap span_of (rw (after_item, a, b, remote) at f) in
            rw (after_item, a, b, remote)
              (subst (λ n. floor (wait false t.draws s).0.pacer.profile * 1000 ≤ n) slept
                (wait-floor t.draws s paced long))
      ]
]

-- After an item that is fetched from Instagram, a loop whose pacer is as its constructor and its
-- history made it sleeps at least the floor of the profile before it claims again; the breaks drawn
-- are at least twelve minutes.
pub work_spaced :
    (t : Turn) (e : Engine) (item : Item) (span : ℕ)
    → IsPaced e.pacer
    → 720000 ≤ t.draws.pause
    → (claim_next e.skip_collections t.now e.ledger).1 ≡ some item
    → str_eq item.kind "local-media" ≡ false
    → (work t e).1 ≡ again span
    → floor (work t e).0.pacer.profile * 1000 ≤ span
unfolding work
work_spaced t e item span h long c remote f =
    let e' = record e { ledger = (claim_next e.skip_collections t.now e.ledger).0 } in
    rw (work, c)
      (after_item-floor t item.kind (one t.times item.key t.outcome e').0
        (one-IsPaced t.times item.key t.outcome e' h) long remote (rw (work, c) at f))
