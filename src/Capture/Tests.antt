-- ===== src/Capture/Tests.antt =====
-- Runs of the pacer and of the loop of the capture plane on small inputs.
use vios_manus.Common.{
  ℕ, some, inl, ◌*◌, ◌≡◌, ◌≤◌, refl, true, false, List, [], ◌∷◌, arith, count, leb, select, sort,
}
use vios_manus.Ledger.{find, fetching, second, queued, Item, fresh, keyed}
use vios_manus.Ledger.Work.{claim_next, claimed_copy}
use vios_manus.Ledger.Sound.{IsSoundTable}
use vios_manus.Ledger.Lifecycle.{Reach}
use vios_manus.Capture.Pacer.{Profile, Pacer, floor, max_gap, new_pacer, note_hostile, next_gap}
use vios_manus.Capture.Pace.{
  Word, success, hostile, profile, IsPaced, IsBackoff, hear_all, times_success,
  next_interval_bounds, note_success_recovers,
}
use vios_manus.Capture.Loop.{Engine, idle, fetch_error, pinned, Turn, work, turns, run_loop}
use vios_manus.Capture.Refines.{run_loop-Reach}
use vios_manus.Capture.Spaced.{work_spaced}
use vios_manus.Capture.Pacer.{Wake, sleep}
use vios_manus.Capture.Sleeps.{HasSlept, sleep-HasSlept}
use vios_manus.Capture.Strands.{run_loop_strands}
use vios_manus.Capture.Halt.{HaltsAtFive, turns-HaltsAtFive}

abbrev heard : List Word
heard = hostile ∷ hostile ∷ success ∷ profile "fast" ∷ []

next_interval_bounds_example :
    let p = hear_all heard (new_pacer 120000 true true "safe" 20) in
    (100 ≤ p.backoff)
    × (p.backoff ≤ 800)
    × (floor p.profile * 1000 ≤ next_gap 90000 3 p)
    × (next_gap 90000 3 p ≤ max_gap * 10 * p.backoff)
next_interval_bounds_example = next_interval_bounds heard 120000 true true "safe" 20 90000 3

note_success_recovers_example :
    (times_success 18 (hear_all heard (new_pacer 120000 true true "safe" 20))).backoff ≡ 100
note_success_recovers_example = note_success_recovers heard 120000 true true "safe" 20

abbrev pacer : Pacer
pacer = record {
  profile = Profile.safe;
  target = 120000;
  quiet_hours = true;
  breaks = true;
  backoff = 100;
  since_break = 0;
  burst_len = 20;
  consecutive_ok = 0;
  last_gap = 0;
  slept_total = 0;
}

-- Every slice is a tenth of a second late, and a stop is asked for before the fourth.
abbrev wakes : ℕ → Wake
wakes i = record { stop = leb 3 i; late = 100 }

sleep-HasSlept_example : HasSlept wakes 120000 pacer (sleep wakes 50 120000 pacer)
sleep-HasSlept_example = sleep-HasSlept wakes 50 120000 pacer

pacer-IsPaced : IsPaced pacer
unfolding IsBackoff
pacer-IsPaced = record { aimed = omega arith; backed = inl refl }

abbrev reel : Item
reel = fresh "abcde" "https://www.instagram.com/reel/abcde/" "reel" queued 5 "paste" 1

abbrev engine : Engine
engine = record {
  ledger = record { items = reel ∷ []; memberships = []; events = []; meta = [] };
  pacer = pacer;
  state = idle;
  session_done = 0;
  session_failed = 0;
  hostile_streak = 0;
  since_snapshot = 0;
  snapshot_every = 25;
  max_attempts = 5;
  local_target = 8 * second;
  skip_collections = [];
  upload_assets = true;
}

engine-IsSoundTable : IsSoundTable engine.ledger.items
unfolding count keyed
engine-IsSoundTable = record {
  each = (
    record { tried = λ e. cc; dated = λ e. cc; landed = λ e. cc; revived_within = omega arith },
    tt,
  );
  once = λ k. ground arith;
}

-- A turn in which the fetch is refused.
abbrev refused : Turn
refused = record {
  stop = false;
  pause = false;
  stopped = false;
  now = 1000;
  times = record { marked = 2000; logged = 2001; noted = 2002 };
  outcome = fetch_error "hostile" "HTTP 429";
  snapped = pinned "2";
  last = pinned "2";
  halt = "refused";
  draws = record { gap = 100000; pause = 800000; burst = 30; hour = 12 };
}

run_loop-Reach_example :
    Reach engine.ledger (run_loop (λ n. "repaired") 900 (refused ∷ refused ∷ []) engine).0.ledger
    × IsSoundTable (run_loop (λ n. "repaired") 900 (refused ∷ refused ∷ []) engine).0.ledger.items
run_loop-Reach_example =
    run_loop-Reach (λ n. "repaired") 900 (refused ∷ refused ∷ []) engine engine-IsSoundTable

turns-HaltsAtFive_example : HaltsAtFive (turns (refused ∷ refused ∷ []) engine)
turns-HaltsAtFive_example = turns-HaltsAtFive (refused ∷ refused ∷ []) engine (omega arith)

work_spaced_example : floor (work refused engine).0.pacer.profile * 1000 ≤ 2000000000
unfolding work claim_next claimed_copy select sort note_hostile
work_spaced_example =
    work_spaced refused engine (claimed_copy reel) 2000000000 pacer-IsPaced (omega arith) refl refl
      refl

-- The row of a run that was stopped at minute 16, and the run that is started a minute later.
abbrev stranded : Item
stranded = record reel { state = fetching; attempts = 1; last_try_at = some 960000 }

abbrev left : Engine
left = record engine { ledger = record engine.ledger { items = stranded ∷ [] } }

left-IsSoundTable : IsSoundTable left.ledger.items
unfolding count keyed
left-IsSoundTable = record {
  each = (
    record {
      tried = λ e. omega arith;
      dated = λ e. tt;
      landed = λ e. cc;
      revived_within = omega arith;
    },
    tt,
  );
  once = λ k. ground arith;
}

run_loop_strands_example :
    find "abcde" (run_loop (λ n. "repaired") 1020000 (refused ∷ refused ∷ []) left).0.ledger.items
    ≡ some stranded
unfolding find
run_loop_strands_example =
    run_loop_strands "abcde" (λ n. "repaired") 1020000 960000 (refused ∷ refused ∷ []) left stranded
      left-IsSoundTable refl refl refl (omega arith)
