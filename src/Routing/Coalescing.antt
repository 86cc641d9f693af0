-- ===== src/Routing/Coalescing.antt =====
-- src/pitwall/routing/coalescing.py: `AsyncRequestCoalescer`. The lock is held over code that does
-- not wait, so each section under it is one event, and a schedule is a list of events. An object
-- `_InflightExecution` is known by its task, which it alone holds. `execute` and the hash that
-- makes a key are the caller's; what a task ends with is a number that stands for it.
pub mod Invariant
pub mod Leaving
pub mod Sharing
use pitwall_gpu_broker.Prelude.Dict.{Dict, lookup, insert, erase}
use pitwall_gpu_broker.Prelude.{
  ℕ, zero, suc, ◌+◌, ◌-◌, String, Bool, true, false, Option, none, some, List, [], ◌∷◌, ◌==◌,
  str_eq, if◌then◌else◌, length,
}

-- What a task ends with: a result or an exception of `execute`, a `CancelledError` that no caller
-- asked for included.
pub data Outcome : Type 0 where
  returned raised : ℕ → Outcome

-- A task remembers the key that it was started for. `cancel` is only a request: the task is
-- `cancelling` until it ends as `cancelled`, or settles after all where it suppresses the
-- cancellation or fails while it cleans up.
pub data TaskState : Type 0 where
  unstarted cancelled : TaskState
  running cancelling : String → TaskState
  settled : String → Outcome → TaskState

pub record InflightExecution : Type 0 where
  pub task : ℕ
  pub waiters : ℕ

-- A call of `run` that awaits its task.
pub record Caller : Type 0 where
  pub key : String
  pub task : ℕ

-- What a call of `run` gives: its task's outcome, that its task was cancelled, or that it was
-- cancelled itself.
pub data Answer : Type 0 where
  outcome : Outcome → Answer
  task_cancelled caller_cancelled : Answer

-- The coalescer, the tasks it has started, the calls that wait and those that have ended.
pub record Coalescer : Type 0 where
  pub inflight : Dict InflightExecution
  pub next_task : ℕ
  pub status : ℕ → TaskState
  pub callers : List Caller
  pub answers : List (Caller × Answer)

abbrev pub new_coalescer : Coalescer
new_coalescer = record {
  inflight = [];
  next_task = 0;
  status = λ t. unstarted;
  callers = [];
  answers = [];
}

abbrev pub inflight_count : Coalescer → ℕ
inflight_count s = length s.inflight

abbrev pub set_status : ℕ → TaskState → (ℕ → TaskState) → ℕ → TaskState
set_status t v status u = if t == u then v else status u

-- The first section of `run` under the lock: join the execution of the key, or start one.
abbrev pub join : String → Option InflightExecution → Coalescer → Coalescer
join key (some e) s = record s {
  inflight = insert key (record e { waiters = e.waiters + 1 }) s.inflight;
  callers = record { key = key; task = e.task } ∷ s.callers;
}
join key none s = record s {
  inflight = insert key (record { task = s.next_task; waiters = 1 }) s.inflight;
  next_task = s.next_task + 1;
  status = set_status s.next_task (running key) s.status;
  callers = record { key = key; task = s.next_task } ∷ s.callers;
}

abbrev pub done : TaskState → Bool
done unstarted = false
done cancelled = true
done (running k) = false
done (cancelling k) = false
done (settled k r) = true

-- `task.cancel()`
abbrev pub cancel : TaskState → TaskState
cancel (running k) = cancelling k
cancel unstarted = unstarted
cancel cancelled = cancelled
cancel (cancelling k) = cancelling k
cancel (settled k r) = settled k r

-- `_release_waiter`
abbrev pub release : String → ℕ → Option InflightExecution → Coalescer → Coalescer
release key task none s = s
release key task (some e) s =
    if e.task == task
    then if done (s.status task)
      then record s { inflight = erase key s.inflight }
      else if (e.waiters - 1) == 0
      then record s {
        inflight = erase key s.inflight;
        status = set_status task (cancel (s.status task)) s.status;
      }
      else record s { inflight = insert key (record e { waiters = e.waiters - 1 }) s.inflight }
    else s

abbrev pub release_waiter : String → ℕ → Coalescer → Coalescer
release_waiter key task s = release key task (lookup key s.inflight) s

-- A waiting call and the others.
abbrev pub pick : ℕ → List Caller → Option (Caller × List Caller)
pick i [] = none
pick zero (c ∷ cs) = some (c, cs)
pick (suc i) (c ∷ cs) = elim (pick i cs) [ none ↦ none | some (d, ds) ↦ some (d, c ∷ ds) ]

-- A call ends: it gives its answer after `finally` has released it.
abbrev pub leave : Caller → List Caller → Answer → Coalescer → Coalescer
leave c others answer s =
    release_waiter c.key c.task (record s { callers = others; answers = (c, answer) ∷ s.answers })

-- What the event loop may do next: a call of `run` with a key, the end of a task by its own doing or
-- by the cancellation that was asked for, a waiting call that sees its task's end, or the
-- cancellation of a waiting call.
pub data Event : Type 0 where
  call : String → Event
  settle : ℕ → Outcome → Event
  die : ℕ → Event
  wake abandon : ℕ → Event

abbrev pub settle_task : ℕ → Outcome → TaskState → Coalescer → Coalescer
settle_task t r (running k) s = record s { status = set_status t (settled k r) s.status }
settle_task t r (cancelling k) s = record s { status = set_status t (settled k r) s.status }
settle_task t r unstarted s = s
settle_task t r cancelled s = s
settle_task t r (settled k q) s = s

abbrev pub end_cancelled : ℕ → TaskState → Coalescer → Coalescer
end_cancelled t (cancelling k) s = record s { status = set_status t cancelled s.status }
end_cancelled t (running k) s = s
end_cancelled t unstarted s = s
end_cancelled t cancelled s = s
end_cancelled t (settled k q) s = s

abbrev pub wake_with : Caller → List Caller → TaskState → Coalescer → Coalescer
wake_with c others (settled k r) s = leave c others (outcome r) s
wake_with c others (running k) s = s
wake_with c others (cancelling k) s = s
wake_with c others unstarted s = s
wake_with c others cancelled s = leave c others task_cancelled s

abbrev pub wake_picked : Option (Caller × List Caller) → Coalescer → Coalescer
wake_picked none s = s
wake_picked (some (c, others)) s = wake_with c others (s.status c.task) s

abbrev pub abandon_picked : Option (Caller × List Caller) → Coalescer → Coalescer
abandon_picked none s = s
abandon_picked (some (c, others)) s = leave c others caller_cancelled s

-- An event that cannot occur changes nothing; so does a call with an empty key, which raises.
unfoldable pub step : Event → Coalescer → Coalescer
step (call key) s = if str_eq key "" then s else join key (lookup key s.inflight) s
step (settle t r) s = settle_task t r (s.status t) s
step (die t) s = end_cancelled t (s.status t) s
step (wake i) s = wake_picked (pick i s.callers) s
step (abandon i) s = abandon_picked (pick i s.callers) s

unfoldable pub run_events : List Event → Coalescer → Coalescer
unfolding step
run_events [] s = s
run_events (e ∷ es) s = run_events es (step e s)
