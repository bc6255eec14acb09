-- ===== src/Capture/Pacer.antt =====
-- vios/capture/pacing.py: `Pacer`. A time is a whole number of milliseconds and the backoff a whole
-- number of hundredths. Its values are 1, 1.28, 2.5, 3.2, 6.25 and 8, so that both of its changes
-- are exact. A gap stands in units of a thousandth of a millisecond, in which the product of the
-- draw, the stretch in tenths and the backoff in hundredths is a whole number. What the source takes
-- from `random`, `math` and the local clock are arguments: the lognormal draw, the length of the
-- next burst, the break and the hour.
use vios_manus.Common.{
  ℕ, ◌+◌, ◌-◌, ◌*◌, ◌/◌, min, max, Bool, true, false, ◌&&◌, String, str_eq, ltb, leb, zero, suc,
  Option, none, some, if◌then◌else◌,
}

-- DEFAULT_TARGET, MIN_GAP, MAX_GAP, FAST_FLOOR, FAST_TARGET
abbrev default_target : ℕ
default_target = 120000

abbrev pub min_gap : ℕ
min_gap = 25000

abbrev pub max_gap : ℕ
max_gap = 900000

abbrev fast_floor : ℕ
fast_floor = 2000

abbrev fast_target : ℕ
fast_target = 6000

-- RECOVER_AFTER
abbrev pub recover_after : ℕ
recover_after = 6

-- The values of the attribute `profile`.
pub data Profile : Type 0 where
  safe fast : Profile

-- `"fast" if profile == "fast" else "safe"`
abbrev pub profile_of : String → Profile
profile_of s = if str_eq s "fast" then fast else safe

-- The attributes of a pacer, but for `next_break_at`, which nothing sets.
pub record Pacer : Type 0 where
  pub profile : Profile
  pub target : ℕ
  pub quiet_hours : Bool
  pub breaks : Bool
  pub backoff : ℕ
  pub since_break : ℕ
  pub burst_len : ℕ
  pub consecutive_ok : ℕ
  pub last_gap : ℕ
  pub slept_total : ℕ

-- `floor`, of a profile
abbrev pub floor : Profile → ℕ
floor safe = min_gap
floor fast = fast_floor

unfoldable pub new_pacer : ℕ → Bool → Bool → String → ℕ → Pacer
new_pacer target quiet breaks profile burst =
    let p = profile_of profile in
    record {
      profile = p;
      target = max (floor p) target;
      quiet_hours = quiet;
      breaks = breaks;
      backoff = 100;
      since_break = 0;
      burst_len = burst;
      consecutive_ok = 0;
      last_gap = 0;
      slept_total = 0;
    }

-- The switch to another profile.
abbrev pub switch : Profile → Pacer → Pacer
switch fast p = record p {
  profile = fast;
  target = max fast_floor fast_target;
  breaks = false;
  quiet_hours = false;
}
switch safe p = record p {
  profile = safe;
  target = max min_gap default_target;
  breaks = true;
  quiet_hours = true;
}

abbrev pub same_profile : Profile → Profile → Bool
same_profile safe safe = true
same_profile fast fast = true
same_profile _ _ = false

unfoldable pub set_profile : String → Pacer → Pacer
set_profile s p = if same_profile (profile_of s) p.profile then p else switch (profile_of s) p

-- The keyword `target` of the engine's `configure`.
unfoldable pub set_target : ℕ → Pacer → Pacer
set_target target p = record p { target = max (floor p.profile) target }

-- `_quiet_multiplier`, in tenths
unfoldable quiet_multiplier : ℕ → Pacer → ℕ
quiet_multiplier hour p =
    if p.quiet_hours then (if leb 2 hour && ltb hour 6 then 16 else 10) else 10

-- A gap, in thousandths of a millisecond, from the draw of `_lognormal` in milliseconds.
unfoldable pub next_gap : ℕ → ℕ → Pacer → ℕ
unfolding quiet_multiplier
next_gap draw hour p =
    max (floor p.profile * 1000)
      (min (max_gap * 10 * p.backoff) (draw * quiet_multiplier hour p * p.backoff))

unfoldable pub next_interval : ℕ → ℕ → Pacer → Pacer × ℕ
unfolding next_gap
next_interval draw hour p = (record p { last_gap = next_gap draw hour p }, next_gap draw hour p)

unfoldable pub due_for_break : Pacer → Bool
due_for_break p = p.breaks && leb p.burst_len p.since_break

-- A break, in hundredths of a millisecond, from the draw of `uniform` in milliseconds.
unfoldable pub take_break : ℕ → ℕ → Pacer → Pacer × ℕ
take_break draw burst p =
    (record p { since_break = 0; burst_len = burst }, draw * min p.backoff 300)

unfoldable pub note_success : Pacer → Pacer
note_success p =
    let q = record p { since_break = p.since_break + 1; consecutive_ok = p.consecutive_ok + 1 } in
    if leb recover_after q.consecutive_ok && ltb 100 q.backoff
    then record q { backoff = max 100 (q.backoff * 2 / 5); consecutive_ok = 0 }
    else q

unfoldable pub note_failure : Bool → Pacer → Pacer
note_failure hostile p =
    let q = record p { consecutive_ok = 0 } in
    if hostile then record q { backoff = min 800 (q.backoff * 5 / 2) } else q

unfoldable pub note_hostile : Pacer → Pacer
unfolding note_failure
note_hostile p = let q = note_failure true p in record q { since_break = q.burst_len }

-- SLICE
abbrev pub slice : ℕ
slice = 1000

-- What happens around one slice of a sleep: whether a stop is asked for before it, and how much
-- later than asked for the clock reads after it.
pub record Wake : Type 0 where
  pub stop : Bool
  pub late : ℕ

-- The loop of `sleep` at a reading of the clock, with fuel; `none` when that is spent. The callback
-- `on_tick` is left out.
unfoldable pub sleep_until : (ℕ → Wake) → ℕ → ℕ → ℕ → Pacer → Pacer × Option Bool
sleep_until wakes zero now deadline p = (p, none)
sleep_until wakes (suc fuel) now deadline p =
    let step = min slice (deadline - now) in
    let rest =
      sleep_until (λ i. wakes (i + 1)) fuel (now + step + (wakes 0).late) deadline
        (record p { slept_total = p.slept_total + step }) in
    if leb deadline now then (p, some true) else if (wakes 0).stop then (p, some false) else rest

-- `sleep`. Each slice of a sleep that is not the last takes a second, so that one round for every
-- second and two more are enough.
unfoldable pub sleep : (ℕ → Wake) → ℕ → ℕ → Pacer → Pacer × Option Bool
unfolding sleep_until
sleep wakes now span p = sleep_until wakes (suc (span / slice + 1)) now (now + span) p
