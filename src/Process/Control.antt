-- ===== src/Process/Control.antt =====
-- The life of the engine in vios/process/engine.py: the calls of the operator (`start`, `pause`,
-- `resume`, `stop`, and the first lines of `shutdown`) and the ends of its threads (`_run`). A thread
-- that has left its sweep is closing until the last lines of `_run`, which come after the models are
-- dropped. The messages, the session and the preflight's texts are left out.
pub mod Threads
use vios_manus.Common.{ℕ, suc, ◌+◌, ◌-◌, ◌<◌, Bool, true, false, if◌then◌else◌}

-- IDLE, RUNNING, PAUSED, STOPPING, ERROR
pub data Word : Type 0 where
  idle running paused stopping error : Word

-- `self.state in (RUNNING, PAUSED, STOPPING)`
abbrev pub is_alive : Word → Bool
is_alive running = true
is_alive paused = true
is_alive stopping = true
is_alive _ = false

-- The state, the two events, and the threads in `_sweep` and behind it.
pub record Control : Type 0 where
  pub state : Word
  pub stop : Bool
  pub pause : Bool
  pub working : ℕ
  pub closing : ℕ

-- An engine after its constructor.
abbrev pub built : Control
built = record { state = idle; stop = false; pause = false; working = 0; closing = 0 }

-- `start`, where the preflight allows it or not.
unfoldable pub start : Bool → Control → Control × Bool
start ready c =
    if is_alive c.state
    then (c, false)
    else if ready
    then (record c { state = running; stop = false; pause = false; working = c.working + 1 }, true)
    else (record c { state = error }, false)

unfoldable pub pause : Control → Control × Bool
pause c = elim c.state [
  | running ↦ (record c { pause = true; state = paused }, true)
  | _ ↦ (c, false)
]

unfoldable pub resume : Control → Control × Bool
resume c = elim c.state [
  | paused ↦ (record c { pause = false; state = running }, true)
  | _ ↦ (c, false)
]

unfoldable pub stop : Control → Control × Bool
stop c = elim c.state [
  | running ↦ (record c { stop = true; pause = false; state = stopping }, true)
  | paused ↦ (record c { stop = true; pause = false; state = stopping }, true)
  | _ ↦ (c, false)
]

-- `shutdown`, up to its wait for the thread.
unfoldable pub shutdown : Control → Control
shutdown c = record c { stop = true; pause = false }

-- `_sweep` returns.
unfoldable pub sweep_over : Control → Control
sweep_over c = record c { working = c.working - 1; closing = c.closing + 1 }

-- `_sweep` raises.
unfoldable pub crash : Control → Control
crash c = record c { state = error; working = c.working - 1; closing = c.closing + 1 }

-- The end of `_run`.
unfoldable pub close : Control → Control
close c = record c { state = elim c.state [ error ↦ error | _ ↦ idle ]; closing = c.closing - 1 }

-- The calls of the operator.
pub data Operation : Type 0 where
  starting : Bool → Operation
  pausing resuming halting shutting : Operation

unfoldable pub operate : Operation → Control → Control
unfolding start pause resume stop shutdown
operate (starting ready) c = (start ready c).0
operate pausing c = (pause c).0
operate resuming c = (resume c).0
operate halting c = (stop c).0
operate shutting c = shutdown c

-- The states that an engine reaches, by any interleaving of its operator and its threads, and after
-- how many crashes.
pub data Reaches : ℕ → Control → Type 0 where
  at_first : Reaches 0 built
  operated : {n : ℕ} {c : Control} (o : Operation) → Reaches n c → Reaches n (operate o c)
  swept : {n : ℕ} {c : Control} → 0 < c.working → Reaches n c → Reaches n (sweep_over c)
  crashed : {n : ℕ} {c : Control} → 0 < c.working → Reaches n c → Reaches (suc n) (crash c)
  closed : {n : ℕ} {c : Control} → 0 < c.closing → Reaches n c → Reaches n (close c)
