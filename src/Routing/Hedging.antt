-- ===== src/Routing/Hedging.antt =====
-- src/pitwall/routing/hedging.py: `race_providers`. What `asyncio.wait` returns is an event: a
-- timeout; the attempts that are done in their order of completion, with what they ended with, and
-- those that are done too but that `remember_completion` has not noted yet; or the cancellation of
-- the race with the attempts that are done by then. A schedule is a list of events. A provider is
-- its id, the tasks of attempts are known by their ids, which differ, and
-- `selected_providers[next_index:]` is the list of those that wait to be started. Times are left
-- out: a timeout may come until the hedge is open or nothing waits. A cancellation while
-- `_cancel_active` waits for the attempts that it has cancelled is left out.
pub mod Attempts
pub mod Turns
pub mod Bounds
pub mod Ending
use pitwall_gpu_broker.Prelude.Dict.{Dict, insert, lookup}
use pitwall_gpu_broker.Prelude.{
  ℕ, min, String, Bool, true, false, ◌||◌, Option, none, some, List, [], ◌∷◌, ◌++◌, ltb, ◌==◌,
  str_eq, if◌then◌else◌, length, is_some, take, Result, ok, err, ◌>>=◌, ◌>>◌,
}

-- What an attempt ended with: a value, an exception, or its own cancellation.
pub data AttemptOutcome : Type 0 where
  value failure : ℕ → AttemptOutcome
  attempt_cancelled : AttemptOutcome

pub data AttemptError : Type 0 where
  raised : ℕ → AttemptError
  was_cancelled : AttemptError

pub data RequestError : Type 0 where
  no_providers bad_max_attempts bad_max_concurrency empty_id duplicate_id : RequestError

pub record HedgedProviderRequest : Type 0 where
  pub providers : List String
  pub max_attempts : ℕ
  pub max_concurrency : ℕ

-- The variables of the loop.
pub record Race : Type 0 where
  pub active : List String
  pub waiting : List String
  pub attempted : List String
  pub hedge_open : Bool
  pub attempted_errors : Dict AttemptError
  pub last_error : Option AttemptError

-- The loop goes on; or a result is returned, the race error is raised, or the race was cancelled. The
-- two lists of a result and of a cancellation are the attempts that had already ended without being
-- looked at, and those that `_cancel_active` then cancelled while they ran.
pub data Status : Type 0 where
  racing : Race → Status
  won : String → ℕ → Race → Dict AttemptOutcome → List String → Status
  lost : Race → Status
  stopped : Race → Dict AttemptOutcome → List String → Status

-- `_validate_provider_ids`
abbrev pub is_member : String → List String → Bool
is_member s [] = false
is_member s (t ∷ ts) = str_eq s t || is_member s ts

abbrev pub validate_provider_ids : List String → List String → Result RequestError (Unit {0})
validate_provider_ids seen [] = ok tt
validate_provider_ids seen (p ∷ ps) =
    let rest = validate_provider_ids (p ∷ seen) ps in
    if str_eq p "" then err empty_id else if is_member p seen then err duplicate_id else rest

-- The providers that may be attempted, and how many at a time.
pub record Selected : Type 0 where
  pub ids : List String
  pub max_concurrency : ℕ

-- `_validate_request`
unfoldable pub validate_request : HedgedProviderRequest → Result RequestError Selected
validate_request r =
    if length r.providers == 0
    then err no_providers
    else if ltb r.max_attempts 1
    then err bad_max_attempts
    else if ltb r.max_concurrency 1
    then err bad_max_concurrency
    else (let max_attempts = min r.max_attempts (length r.providers) in
        let selected = take max_attempts r.providers in
        do
          validate_provider_ids [] selected
          ok (record { ids = selected; max_concurrency = min r.max_concurrency max_attempts }))

abbrev pub start : String → List String → Race → Race
start p ps s = record s {
  active = s.active ++ (p ∷ []);
  waiting = ps;
  attempted = s.attempted ++ (p ∷ []);
}

-- `start_next`
abbrev pub start_next : List String → Race → Race
start_next [] s = s
start_next (p ∷ ps) s = start p ps s

-- `fill_open_slots`
abbrev pub fill_open_slots : ℕ → List String → Race → Race
fill_open_slots max_concurrency [] s = s
fill_open_slots max_concurrency (p ∷ ps) s =
    let filled = fill_open_slots max_concurrency ps (start p ps s) in
    if ltb (length s.active) max_concurrency then filled else s

-- `active.pop(task)`
abbrev pub pop : String → List String → Option (List String)
pop p [] = none
pop p (q ∷ qs) =
    if str_eq q p then some qs else elim (pop p qs) [ none ↦ none | some rest ↦ some (q ∷ rest) ]

abbrev pub failed : String → AttemptError → List String → Race → Race
failed p e active s = record s {
  active = active;
  attempted_errors = insert p e s.attempted_errors;
  last_error = some e;
}

-- The attempts that `_cancel_active` stops: `cancel` does nothing to a task that is done.
abbrev pub still_running : Dict AttemptOutcome → List String → List String
still_running ended [] = []
still_running ended (p ∷ ps) =
    if is_some (lookup p ended) then still_running ended ps else p ∷ still_running ended ps

-- One attempt that is done, those that are done after it, and what follows. A value ends the race,
-- and the later ones are not looked at; an id that is not active does not occur.
abbrev pub take_one :
    AttemptOutcome
    → Option (List String)
    → String
    → Dict AttemptOutcome
    → (Race → Status)
    → Race
    → Status
take_one o none p later next s = next s
take_one (value v) (some active) p later next s =
    won p v (record s { active = active }) later (still_running later active)
take_one (failure e) (some active) p later next s = next (failed p (raised e) active s)
take_one attempt_cancelled (some active) p later next s = next (failed p was_cancelled active s)

-- The attempts that are done, in the order of completion, and those that are not noted yet: they
-- stay active, and a later turn takes them.
abbrev pub take_done : Dict AttemptOutcome → Dict AttemptOutcome → Race → Status
take_done [] unnoted s = racing s
take_done ((p, o) ∷ ps) unnoted s =
    take_one o (pop p s.active) p (ps ++ unnoted) (take_done ps unnoted) s

-- `while active`
abbrev pub loop_test : Race → List String → Status
loop_test s [] = lost s
loop_test s (p ∷ ps) = racing s

abbrev pub go_on : ℕ → Race → List String → Race
go_on max_concurrency s [] = start_next s.waiting s
go_on max_concurrency s (p ∷ ps) =
    if s.hedge_open then fill_open_slots max_concurrency s.waiting s else s

-- The end of a turn of the loop.
abbrev pub end_turn : ℕ → Status → Status
end_turn max_concurrency (racing s) =
    let s' = go_on max_concurrency s s.active in loop_test s' s'.active
end_turn max_concurrency (won p v s ended cancelled) = won p v s ended cancelled
end_turn max_concurrency (lost s) = lost s
end_turn max_concurrency (stopped s ended cancelled) = stopped s ended cancelled

pub data Event : Type 0 where
  timeout : Event
  completed : Dict AttemptOutcome → Dict AttemptOutcome → Event
  race_cancelled : Dict AttemptOutcome → Event

abbrev pub turn : ℕ → Event → Race → Status
turn max_concurrency timeout s =
    racing (fill_open_slots max_concurrency s.waiting (record s { hedge_open = true }))
turn max_concurrency (race_cancelled ended) s = stopped s ended (still_running ended s.active)
turn max_concurrency (completed ended unnoted) s =
    end_turn max_concurrency (take_done ended unnoted s)

abbrev pub run_turns : ℕ → List Event → Status → Status
run_turns max_concurrency [] status = status
run_turns max_concurrency (e ∷ es) (racing s) =
    run_turns max_concurrency es (turn max_concurrency e s)
run_turns max_concurrency (e ∷ es) (won p v s ended cancelled) = won p v s ended cancelled
run_turns max_concurrency (e ∷ es) (lost s) = lost s
run_turns max_concurrency (e ∷ es) (stopped s ended cancelled) = stopped s ended cancelled

abbrev pub first_turn : List String → Race
first_turn ids = start_next ids (record {
  active = [];
  waiting = ids;
  attempted = [];
  hedge_open = false;
  attempted_errors = [];
  last_error = none;
})

unfoldable pub race_providers : HedgedProviderRequest → List Event → Result RequestError Status
unfolding validate_request
race_providers r events = do
  selected ← validate_request r
  ok (
      run_turns selected.max_concurrency events
        (loop_test (first_turn selected.ids) (first_turn selected.ids).active))
