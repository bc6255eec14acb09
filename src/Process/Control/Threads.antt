-- ===== src/Process/Control/Threads.antt =====
-- How many threads an engine of vios/process/engine.py has, and what its state says of its events.
use vios_manus.Common.{ℕ, suc, ◌+◌, ◌≤◌, ◌<◌, ◌≡◌, refl, true, ◌||◌, arith, if◌then◌else◌}
use vios_manus.Process.Control.{
  idle, paused, stopping, is_alive, Control, start, pause, resume, stop, shutdown, sweep_over,
  crash, close, Operation, operate, Reaches, at_first, operated, swept, crashed, closed,
}

-- 1 where the state is RUNNING, PAUSED or STOPPING
abbrev pub alive : Control → ℕ
alive c = if is_alive c.state then 1 else 0

-- A state that says that a thread runs is true to it; there is one thread more at most for each
-- crash; an engine that is stopping has its stop event set, and one that is paused has an event set.
pub record IsSoundControl (n : ℕ) (c : Control) : Type 0 where
  pub has_thread : alive c ≤ c.working + c.closing
  pub few_threads : c.working + c.closing ≤ n + alive c
  pub stop_set : c.state ≡ stopping → c.stop ≡ true
  pub pause_set : c.state ≡ paused → (c.pause || c.stop) ≡ true

operate-IsSoundControl :
    (n : ℕ) (o : Operation) (c : Control) → IsSoundControl n c → IsSoundControl n (operate o c)
unfolding operate start pause resume stop shutdown
operate-IsSoundControl n o c h = record {
  has_thread = ground (arith, h.has_thread, h.few_threads);
  few_threads = ground (arith, h.has_thread, h.few_threads);
  stop_set = ground (arith, h.stop_set);
  pause_set = ground (arith, h.pause_set);
}

swept-IsSoundControl :
    (n : ℕ) (c : Control) → 0 < c.working → IsSoundControl n c → IsSoundControl n (sweep_over c)
unfolding sweep_over
swept-IsSoundControl n c w h = record {
  has_thread = ground (arith, w, h.has_thread);
  few_threads = ground (arith, w, h.has_thread, h.few_threads);
  stop_set = ground (arith, h.stop_set);
  pause_set = ground (arith, h.pause_set);
}

crashed-IsSoundControl :
    (n : ℕ) (c : Control) → 0 < c.working → IsSoundControl n c → IsSoundControl (suc n) (crash c)
unfolding crash
crashed-IsSoundControl n c w h = record {
  has_thread = ground (arith, w, h.has_thread);
  few_threads = ground (arith, w, h.has_thread, h.few_threads);
  stop_set = ground (arith, h.stop_set);
  pause_set = ground (arith, h.pause_set);
}

closed-IsSoundControl :
    (n : ℕ) (c : Control) → 0 < c.closing → IsSoundControl n c → IsSoundControl n (close c)
unfolding close
closed-IsSoundControl n c w h = record {
  has_thread = ground (arith, w, h.has_thread);
  few_threads = ground (arith, w, h.has_thread, h.few_threads);
  stop_set = ground (arith, h.stop_set);
  pause_set = ground (arith, h.pause_set);
}

-- Whatever the operator calls and however its threads end, in every state that an engine reaches a
-- state that says RUNNING, PAUSED or STOPPING has a thread, and there are no more threads than that
-- one and one for each crash so far; an engine that is stopping has its stop event set, and one that
-- is paused has an event set.
pub Reaches-IsSoundControl : (n : ℕ) (c : Control) → Reaches n c → IsSoundControl n c
Reaches-IsSoundControl n c at_first = record {
  has_thread = omega arith;
  few_threads = omega arith;
  stop_set = λ e. cc;
  pause_set = λ e. cc;
}
Reaches-IsSoundControl n c (operated o h) =
    operate-IsSoundControl n o _ (Reaches-IsSoundControl n _ h)
Reaches-IsSoundControl n c (swept w q) = swept-IsSoundControl n _ w (Reaches-IsSoundControl n _ q)
Reaches-IsSoundControl n c (crashed w q) =
    crashed-IsSoundControl _ _ w (Reaches-IsSoundControl _ _ q)
Reaches-IsSoundControl n c (closed w q) = closed-IsSoundControl n _ w (Reaches-IsSoundControl n _ q)

-- After a crash of a thread at work, the engine can be started before that thread has ended; the
-- end of that thread then makes the engine idle under the new one, and it can be started once
-- more, so that one thread works more than before the crash.
pub crash_race :
    (c : Control)
    → 0 < c.working
    → let (second, again) = start true (crash c) in
      let closing_on = close second in
      let (third, once_more) = start true closing_on in
      (again ≡ true)
      × (closing_on.state ≡ idle)
      × (once_more ≡ true)
      × (third.working ≡ c.working + 1)
unfolding start crash close
crash_race c h = (refl, refl, refl, omega arith)
