-- ===== src/Routing/Coalescing/Sharing.antt =====
-- What callers get from the coalescer of src/pitwall/routing/coalescing.py, in every schedule.
use pitwall_gpu_broker.Prelude.{All-imp}
use pitwall_gpu_broker.Prelude.Dict.{Dict, lookup}
use pitwall_gpu_broker.Routing.Coalescing.{
  Outcome, TaskState, unstarted, cancelled, cancelling, running, settled, cancel, end_cancelled,
  die, InflightExecution, Caller, Answer, outcome, task_cancelled, caller_cancelled, Coalescer,
  new_coalescer, set_status, join, done, release, pick, leave, Event, call, settle, wake, abandon,
  settle_task, wake_with, step, run_events,
}
use pitwall_gpu_broker.Routing.Coalescing.Invariant.{
  key_at, count, IsSound, new-IsSound, joined-IsSound, started-IsSound, settled-IsSound,
  detached-IsSound,
}
use pitwall_gpu_broker.Routing.Coalescing.Leaving.{All-pick, leave-IsSound}
use pitwall_gpu_broker.Prelude.{
  ℕ, ◌-◌, String, ◌≡◌, refl, ap, ◌≢◌, inl, inr, false, Option, none, some, List, [], ◌∷◌, arith,
  eq_iff, ◌==◌, str_eq, Bool-cases, Option-cases, All,
}

call-IsSound :
    (key : String) (s : Coalescer) → IsSound s → IsSound (join key (lookup key s.inflight) s)
call-IsSound key s v = elim (Option-cases (lookup key s.inflight)) [
  | inl absent ↦ rw absent (started-IsSound v key absent)
  | inr (e, found) ↦ rw found (joined-IsSound v key e found)
]

settle-IsSound :
    (t : ℕ) (r : Outcome) (s : Coalescer) (st : TaskState)
    → s.status t ≡ st
    → IsSound s
    → IsSound (settle_task t r st s)
settle-IsSound t r s (running k) e v = settled-IsSound v t k r e
settle-IsSound t r s (cancelling k) e v =
    detached-IsSound v t (settled k r) (λ h. cc (e, h)) (ap key_at e) (λ j h. cc h)
settle-IsSound t r s unstarted e v = v
settle-IsSound t r s cancelled e v = v
settle-IsSound t r s (settled k q) e v = v

die-IsSound :
    (t : ℕ) (s : Coalescer) (st : TaskState)
    → s.status t ≡ st
    → IsSound s
    → IsSound (end_cancelled t st s)
die-IsSound t s (cancelling k) e v =
    detached-IsSound v t cancelled (λ h. cc (e, h)) (ap key_at e) (λ j h. cc h)
die-IsSound t s (running k) e v = v
die-IsSound t s unstarted e v = v
die-IsSound t s cancelled e v = v
die-IsSound t s (settled k q) e v = v

wake-IsSound :
    (s : Coalescer) (i : ℕ) (c : Caller) (others : List Caller) (st : TaskState)
    → IsSound s
    → pick i s.callers ≡ some (c, others)
    → IsSound (wake_with c others st s)
wake-IsSound s i c others (settled k r) v picked = leave-IsSound s i c others (outcome r) v picked
wake-IsSound s i c others cancelled v picked = leave-IsSound s i c others task_cancelled v picked
wake-IsSound s i c others (running k) v picked = v
wake-IsSound s i c others (cancelling k) v picked = v
wake-IsSound s i c others unstarted v picked = v

step-IsSound : (e : Event) (s : Coalescer) → IsSound s → IsSound (step e s)
unfolding step
step-IsSound (call key) s v = elim (Bool-cases (str_eq key "")) [
  | inl empty ↦ rw empty v
  | inr named ↦ rw named (call-IsSound key s v)
]
step-IsSound (settle t r) s v = settle-IsSound t r s (s.status t) refl v
step-IsSound (die t) s v = die-IsSound t s (s.status t) refl v
step-IsSound (wake i) s v = elim (Option-cases (pick i s.callers)) [
  | inl gone ↦ rw gone v
  | inr ((c, others), picked) ↦ rw picked (wake-IsSound s i c others (s.status c.task) v picked)
]
step-IsSound (abandon i) s v = elim (Option-cases (pick i s.callers)) [
  | inl gone ↦ rw gone v
  | inr ((c, others), picked) ↦ rw picked (leave-IsSound s i c others caller_cancelled v picked)
]

-- The answer of a call agrees with the state of its task.
abbrev pub IsHonest : (ℕ → TaskState) → Caller × Answer → Type 0
IsHonest status (c, outcome r) = status c.task ≡ settled c.key r
IsHonest status (c, task_cancelled) = ⊥
IsHonest status (c, caller_cancelled) = Unit

abbrev AllHonest : Coalescer → Type 0
AllHonest s = All (IsHonest s.status) s.answers

-- A change of a task that has not settled changes no answer.
IsHonest-still :
    (status : ℕ → TaskState) (t : ℕ) (st : TaskState) (given : List (Caller × Answer))
    → done (status t) ≡ false
    → All (IsHonest status) given
    → All (IsHonest (set_status t st status)) given
IsHonest-still status t st given h = All-imp keep given
  where
    keep : (a : Caller × Answer) → IsHonest status a → IsHonest (set_status t st status) a
    keep (c, outcome r) e = elim (Bool-cases (t == c.task)) [
      | inl eq ↦ let same : t ≡ c.task = ground arith in cc (h, e, same)
      | inr ne ↦ ground arith
    ]
    keep (c, task_cancelled) e = e
    keep (c, caller_cancelled) e = e

release-honest :
    (key : String) (t : ℕ) (o : Option InflightExecution) (s : Coalescer)
    → AllHonest s
    → AllHonest (release key t o s)
release-honest key t none s h = h
release-honest key t (some e) s h = elim (Bool-cases (e.task == t)) [
  | inr ne ↦ rw ne h
  | inl eq ↦ elim (Bool-cases (done (s.status t))) [
    | inl ended ↦ rw (eq, ended) h
    | inr more ↦ elim (Bool-cases ((e.waiters - 1) == 0)) [
      | inl last ↦
          rw (eq, more, last) (IsHonest-still s.status t (cancel (s.status t)) s.answers more h)
      | inr others ↦ rw (eq, more, others) h
    ]
  ]
]

leave-honest :
    (c : Caller) (others : List Caller) (a : Answer) (s : Coalescer)
    → IsHonest s.status (c, a)
    → AllHonest s
    → AllHonest (leave c others a s)
leave-honest c others a s here h =
    let after : Coalescer = record s { callers = others; answers = (c, a) ∷ s.answers } in
    release-honest c.key c.task (lookup c.key s.inflight) after (here, h)

wake-honest :
    (c : Caller) (others : List Caller) (st : TaskState) (s : Coalescer)
    → s.status c.task ≡ st
    → key_at (s.status c.task) ≡ some c.key
    → AllHonest s
    → AllHonest (wake_with c others st s)
wake-honest c others (settled k r) s e held h =
    leave-honest c others (outcome r) s (cc (e, held, ap key_at e)) h
wake-honest c others cancelled s e held h = cc (held, ap key_at e)
wake-honest c others (running k) s e held h = h
wake-honest c others (cancelling k) s e held h = h
wake-honest c others unstarted s e held h = h

step-honest : (e : Event) (s : Coalescer) → IsSound s → AllHonest s → AllHonest (step e s)
unfolding step
step-honest (call key) s v h = elim (Bool-cases (str_eq key "")) [
  | inl empty ↦ rw empty h
  | inr named ↦ elim (Option-cases (lookup key s.inflight)) [
    | inl absent ↦
        rw (named, absent)
          (IsHonest-still s.status s.next_task (running key) s.answers
            (ap done (v.fresh s.next_task (omega arith))) h)
    | inr (e, found) ↦ rw (named, found) h
  ]
]
step-honest (settle t r) s v h = go (s.status t) refl
  where
    go : (st : TaskState) → s.status t ≡ st → AllHonest (settle_task t r st s)
    go (running k) e = IsHonest-still s.status t (settled k r) s.answers (ap done e) h
    go (cancelling k) e = IsHonest-still s.status t (settled k r) s.answers (ap done e) h
    go unstarted e = h
    go cancelled e = h
    go (settled k q) e = h
step-honest (die t) s v h = go (s.status t) refl
  where
    go : (st : TaskState) → s.status t ≡ st → AllHonest (end_cancelled t st s)
    go (cancelling k) e = IsHonest-still s.status t cancelled s.answers (ap done e) h
    go (running k) e = h
    go unstarted e = h
    go cancelled e = h
    go (settled k q) e = h
step-honest (wake i) s v h = elim (Option-cases (pick i s.callers)) [
  | inl gone ↦ rw gone h
  | inr ((c, others), picked) ↦
      let held =
        (All-pick (λ d. key_at (s.status d.task) ≡ some d.key) i s.callers others c picked
          v.attached).0 in
      rw picked (wake-honest c others (s.status c.task) s refl held h)
]
step-honest (abandon i) s v h = elim (Option-cases (pick i s.callers)) [
  | inl gone ↦ rw gone h
  | inr ((c, others), picked) ↦ rw picked (leave-honest c others caller_cancelled s tt h)
]

run-IsSound :
    (es : List Event) (s : Coalescer)
    → IsSound s
    → AllHonest s
    → IsSound (run_events es s) × AllHonest (run_events es s)
unfolding run_events
run-IsSound [] s v h = (v, h)
run-IsSound (e ∷ es) s v h = run-IsSound es (step e s) (step-IsSound e s v) (step-honest e s v h)

-- The coalescer after a schedule.
abbrev pub after : List Event → Coalescer
after es = run_events es new_coalescer

reached-IsSound : (es : List Event) → IsSound (after es) × AllHonest (after es)
reached-IsSound es = run-IsSound es new_coalescer new-IsSound tt

-- After every schedule, at most one task runs for a key without having been asked to cancel, and it is
-- the one that new calls join.
pub no_duplicate_work :
    (es : List Event) (t u : ℕ) (key : String)
    → (after es).status t ≡ running key
    → (after es).status u ≡ running key
    → (t ≡ u) × ((e : InflightExecution) × (lookup key (after es).inflight ≡ some e) × (e.task ≡ t))
no_duplicate_work es t u key at_t at_u =
    let v = (reached-IsSound es).0 in
    let (d, found, d_is) = v.tracked t key at_t in
    let (e, found', e_is) = v.tracked u key at_u in
    (cc (found, found', d_is, e_is), (d, found, d_is))

-- After every schedule, each call that has ended and was not cancelled itself has the outcome that
-- its task settled with for its key; and a call that still waits has a task for its key that was not
-- asked to cancel.
pub callers_share :
    (es : List Event)
    → All (IsHonest (after es).status) (after es).answers
      × All (λ c. key_at ((after es).status c.task) ≡ some c.key) (after es).callers
callers_share es = let (v, honest) = reached-IsSound es in (honest, v.attached)

emptied :
    (d : Dict InflightExecution)
    → ((k : String) (e : InflightExecution) → lookup k d ≡ some e → ⊥)
    → d ≡ []
emptied [] h = refl
emptied ((k, e) ∷ d) h = absurd (h k e (ground (arith, eq_iff k k)))

-- After every schedule in which all calls have ended, nothing is tracked, and no task runs that was
-- not asked to cancel.
pub nothing_leaks :
    (es : List Event)
    → (after es).callers ≡ []
    → ((after es).inflight ≡ []) × ((t : ℕ) (key : String) → (after es).status t ≢ running key)
nothing_leaks es none_waits =
    let v = (reached-IsSound es).0 in
    let gone =
      λ (k : String) (e : InflightExecution) (found : lookup k (after es).inflight ≡ some e).
        let n = v.counted k e found in
        let zero_waits : count e.task (after es).callers ≡ 0 = ap (count e.task) none_waits in
        let absurdity : ⊥ = omega arith in absurdity in
    (
      emptied (after es).inflight gone,
      λ t key runs. let (e, found, same) = v.tracked t key runs in gone key e found,
    )
