-- ===== src/Capture/Sleeps.antt =====
-- The sleep of a pacer of vios/capture/pacing.py.
use mathlib.Core.Path.{subst}
use vios_manus.Common.{
  ℕ, zero, suc, ◌+◌, ◌-◌, ◌*◌, ◌/◌, ◌≤◌, ◌<◌, ◌≡◌, refl, min, Bool, true, false, Option, some, leb,
  arith, Bool-cases, inl, inr,
}
use vios_manus.Capture.Pacer.{Pacer, Wake, slice, sleep, sleep_until}

-- A sleep of at most so long that came to its end, or was stopped at a slice.
unfoldable pub HasSlept : (ℕ → Wake) → ℕ → Pacer → Pacer × Option Bool → Type 0
HasSlept wakes long p (p', o) =
    ((b : Bool) × (o ≡ some b))
    × (p'.slept_total ≤ p.slept_total + long)
    × ((i : ℕ) → (wakes i).stop ≡ true → p'.slept_total ≤ p.slept_total + i * slice)

stopped-HasSlept :
    (wakes : ℕ → Wake) (long : ℕ) (p : Pacer) (b : Bool) → HasSlept wakes long p (p, some b)
unfolding HasSlept
stopped-HasSlept wakes long p b = ((b, refl), omega arith, λ i _. omega arith)

-- One more slice.
slice-HasSlept :
    (wakes : ℕ → Wake) (long long' step : ℕ) (p : Pacer) (q : Pacer × Option Bool)
    → step ≤ slice
    → long' + step ≤ long
    → (wakes 0).stop ≡ false
    → HasSlept (λ i. wakes (i + 1)) long' (record p { slept_total = p.slept_total + step }) q
    → HasSlept wakes long p q
unfolding HasSlept
slice-HasSlept wakes long long' step p q short fits going (end, most, stopped) =
    (end, omega (arith, most, fits), at)
  where
    at : (i : ℕ) → (wakes i).stop ≡ true → q.0.slept_total ≤ p.slept_total + i * slice
    at zero h = cc
    at (suc i) h =
        omega (arith, short, stopped i (subst (λ j. (wakes j).stop ≡ true) (omega arith) h))

sleep_until-HasSlept :
    (wakes : ℕ → Wake) (k now deadline : ℕ) (p : Pacer)
    → deadline ≤ now + k * slice
    → HasSlept wakes (deadline - now) p (sleep_until wakes (suc k) now deadline p)
unfolding sleep_until
sleep_until-HasSlept wakes zero now deadline p enough =
    let a : leb deadline now ≡ true = ground arith in
    rw (sleep_until, a) (stopped-HasSlept wakes (deadline - now) p true)
sleep_until-HasSlept wakes (suc k) now deadline p enough = elim (Bool-cases (leb deadline now)) [
  | inl a ↦ rw (sleep_until, a) (stopped-HasSlept wakes (deadline - now) p true)
  | inr a ↦ elim (Bool-cases (wakes 0).stop) [
    | inl b ↦ rw (sleep_until, a, b) (stopped-HasSlept wakes (deadline - now) p false)
    | inr b ↦
        let left : now < deadline = ground arith in
        let step = min slice (deadline - now) in
        let now' = now + step + (wakes 0).late in
        let rest =
          sleep_until-HasSlept (λ i. wakes (i + 1)) k now' deadline
            (record p { slept_total = p.slept_total + step }) (omega (arith, left, enough)) in
        rw (sleep_until, a, b)
          (slice-HasSlept wakes (deadline - now) (deadline - now') step p _ (omega arith)
            (omega (arith, left)) b rest)
  ]
]

-- A sleep comes back, however late the clock reads after its slices: it sleeps no longer than it was
-- told to, and when a stop is asked for before a slice, it has slept the slices before that at most.
pub sleep-HasSlept :
    (wakes : ℕ → Wake) (now span : ℕ) (p : Pacer) → HasSlept wakes span p (sleep wakes now span p)
unfolding sleep
sleep-HasSlept wakes now span p =
    subst (λ n. HasSlept wakes n p (sleep wakes now span p)) (omega arith)
      (sleep_until-HasSlept wakes (span / slice + 1) now (now + span) p (omega arith))
