-- ===== src/Capture/Pace.antt =====
-- How slow a pacer of vios/capture/pacing.py is, whatever it is told.
use vios_manus.Common.{
  ℕ, zero, suc, ◌+◌, ◌*◌, ◌/◌, ◌≤◌, ◌<◌, ◌≡◌, ◌⊎◌, inl, inr, refl, min, Bool, false, String, List,
  [], ◌∷◌, arith, Bool-cases,
}
use vios_manus.Capture.Pacer.{
  Profile, safe, fast, Pacer, floor, min_gap, max_gap, new_pacer, profile_of, same_profile, switch,
  set_profile, set_target, next_gap, take_break, note_success, note_failure, note_hostile,
  recover_after,
}

-- What the fetcher, the loop and the operator tell a pacer.
pub data Word : Type 0 where
  success failure hostile : Word
  rest : ℕ → ℕ → Word
  profile : String → Word
  target : ℕ → Word
  quiet pauses : Bool → Word

unfoldable pub hear : Word → Pacer → Pacer
unfolding note_success note_failure note_hostile take_break set_profile set_target
hear success p = note_success p
hear failure p = note_failure false p
hear hostile p = note_hostile p
hear (rest draw burst) p = (take_break draw burst p).0
hear (profile s) p = set_profile s p
hear (target t) p = set_target t p
hear (quiet b) p = record p { quiet_hours = b }
hear (pauses b) p = record p { breaks = b }

unfoldable pub hear_all : List Word → Pacer → Pacer
unfolding hear
hear_all [] p = p
hear_all (w ∷ ws) p = hear_all ws (hear w p)

-- The six values of the backoff; while it is raised, the run of successes is short.
unfoldable pub IsBackoff : ℕ → ℕ → Type 0
IsBackoff b c =
    (b ≡ 100)
    ⊎ ((c < recover_after) × ((b ≡ 128) ⊎ ((b ≡ 250) ⊎ ((b ≡ 320) ⊎ ((b ≡ 625) ⊎ (b ≡ 800))))))

pub record IsPaced (p : Pacer) : Type 0 where
  pub aimed : floor p.profile ≤ p.target
  pub backed : IsBackoff p.backoff p.consecutive_ok

success-IsBackoff :
    (p : Pacer)
    → IsBackoff p.backoff p.consecutive_ok
    → IsBackoff (note_success p).backoff (note_success p).consecutive_ok
unfolding note_success IsBackoff
success-IsBackoff p h = ground arith

hostile-IsBackoff : (b c : ℕ) → IsBackoff b c → IsBackoff (min 800 (b * 5 / 2)) 0
unfolding IsBackoff
hostile-IsBackoff b c h = ground arith

failure-IsBackoff : (b c : ℕ) → IsBackoff b c → IsBackoff b 0
unfolding IsBackoff
failure-IsBackoff b c h = ground arith

success_aimed :
    (p : Pacer)
    → floor p.profile ≤ p.target
    → floor (note_success p).profile ≤ (note_success p).target
unfolding note_success
success_aimed p h = ground arith

profile-IsPaced : (s : String) (p : Pacer) → IsPaced p → IsPaced (set_profile s p)
unfolding set_profile
profile-IsPaced s p h = elim (Bool-cases (same_profile (profile_of s) p.profile)) [
  | inl e ↦ rw (set_profile, e) h
  | inr e ↦ rw (set_profile, e) (switched (profile_of s))
]
  where
    switched : (q : Profile) → IsPaced (switch q p)
    switched safe = record { aimed = omega arith; backed = h.backed }
    switched fast = record { aimed = omega arith; backed = h.backed }

pub hear-IsPaced : (w : Word) (p : Pacer) → IsPaced p → IsPaced (hear w p)
unfolding hear
hear-IsPaced success p h = record {
  aimed = success_aimed p h.aimed;
  backed = success-IsBackoff p h.backed;
}
hear-IsPaced failure p h = record {
  aimed = h.aimed;
  backed = failure-IsBackoff p.backoff _ h.backed;
}
hear-IsPaced hostile p h = record { aimed = h.aimed; backed = hostile-IsBackoff _ _ h.backed }
hear-IsPaced (rest draw burst) p h = record { aimed = h.aimed; backed = h.backed }
hear-IsPaced (profile s) p h = profile-IsPaced s p h
hear-IsPaced (target t) p h = record { aimed = omega arith; backed = h.backed }
hear-IsPaced (quiet b) p h = record { aimed = h.aimed; backed = h.backed }
hear-IsPaced (pauses b) p h = record { aimed = h.aimed; backed = h.backed }

all-IsPaced : (ws : List Word) (p : Pacer) → IsPaced p → IsPaced (hear_all ws p)
unfolding hear_all
all-IsPaced [] p h = h
all-IsPaced (w ∷ ws) p h = all-IsPaced ws (hear w p) (hear-IsPaced w p h)

new-IsPaced : (t : ℕ) (q b : Bool) (s : String) (burst : ℕ) → IsPaced (new_pacer t q b s burst)
unfolding new_pacer IsBackoff
new-IsPaced t q b s burst = record { aimed = omega arith; backed = inl refl }

pub IsBackoff-bounds : (b c : ℕ) → IsBackoff b c → (100 ≤ b) × (b ≤ 800)
unfolding IsBackoff
IsBackoff-bounds b c h = ground arith

pub floor_le : (q : Profile) → floor q ≤ min_gap
floor_le safe = omega arith
floor_le fast = omega arith

pub interval_bounds :
    (p : Pacer) (draw hour : ℕ)
    → IsPaced p
    → (100 ≤ p.backoff)
      × (p.backoff ≤ 800)
      × (floor p.profile * 1000 ≤ next_gap draw hour p)
      × (next_gap draw hour p ≤ max_gap * 10 * p.backoff)
unfolding next_gap
interval_bounds p draw hour h =
    let (lo, hi) = IsBackoff-bounds p.backoff p.consecutive_ok h.backed in
    (lo, hi, omega arith, omega (arith, lo, floor_le p.profile))

-- A pacer made by the constructor, whatever it has heard since and whatever is drawn, keeps its
-- backoff between 1 and 8, and its next gap between the floor of its profile and fifteen minutes
-- (MAX_GAP) times the backoff.
pub next_interval_bounds :
    (ws : List Word) (t : ℕ) (q b : Bool) (s : String) (burst draw hour : ℕ)
    → let p = hear_all ws (new_pacer t q b s burst) in
      (100 ≤ p.backoff)
      × (p.backoff ≤ 800)
      × (floor p.profile * 1000 ≤ next_gap draw hour p)
      × (next_gap draw hour p ≤ max_gap * 10 * p.backoff)
next_interval_bounds ws t q b s burst draw hour =
    let p = hear_all ws (new_pacer t q b s burst) in
    interval_bounds p draw hour (all-IsPaced ws _ (new-IsPaced t q b s burst))

-- Enough successes to come: the backoff is at most so many steps above 1.
Recovers : ℕ → Pacer → Type 0
Recovers k p =
    (p.backoff ≡ 100)
    ⊎ ((p.consecutive_ok < 6)
        × ((((p.backoff ≡ 128) ⊎ (p.backoff ≡ 250)) × (6 ≤ k + p.consecutive_ok))
            ⊎ ((((p.backoff ≡ 320) ⊎ (p.backoff ≡ 625)) × (12 ≤ k + p.consecutive_ok))
                ⊎ ((p.backoff ≡ 800) × (18 ≤ k + p.consecutive_ok)))))

success-Recovers : (k : ℕ) (p : Pacer) → Recovers (suc k) p → Recovers k (note_success p)
unfolding Recovers note_success
success-Recovers k p h = ground arith

unfoldable pub times_success : ℕ → Pacer → Pacer
times_success zero p = p
times_success (suc k) p = times_success k (note_success p)

recovered : (k : ℕ) (p : Pacer) → Recovers k p → (times_success k p).backoff ≡ 100
unfolding times_success Recovers
recovered zero p h = ground arith
recovered (suc k) p h = recovered k (note_success p) (success-Recovers k p h)

-- After whatever a pacer has heard, eighteen successes in a row bring the backoff down to 1.
pub note_success_recovers :
    (ws : List Word) (t : ℕ) (q b : Bool) (s : String) (burst : ℕ)
    → (times_success 18 (hear_all ws (new_pacer t q b s burst))).backoff ≡ 100
unfolding Recovers IsBackoff
note_success_recovers ws t q b s burst =
    let p = hear_all ws (new_pacer t q b s burst) in
    recovered 18 p (from p (all-IsPaced ws _ (new-IsPaced t q b s burst)).backed)
  where
    from : (p : Pacer) → IsBackoff p.backoff p.consecutive_ok → Recovers 18 p
    from p h = ground arith
