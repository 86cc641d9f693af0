-- ===== src/Tests/Hedgings.antt =====
-- Tests of hedged requests (src/pitwall/routing/hedging.py).
use pitwall_gpu_broker.Routing.Hedging.{
  HedgedProviderRequest, Status, won, value, failure, raised, Selected, validate_request, Event,
  timeout, completed, race_providers, race_cancelled,
}
use pitwall_gpu_broker.Routing.Hedging.Bounds.{IsSelected, race-IsRight}
use pitwall_gpu_broker.Routing.Hedging.Turns.{IsRight}
use pitwall_gpu_broker.Prelude.{◌≡◌, refl, true, some, List, [], ◌∷◌, ok}

abbrev request : HedgedProviderRequest
request = record { providers = "p1" ∷ "p2" ∷ "p3" ∷ []; max_attempts = 3; max_concurrency = 2 }

-- The hedge opens, the first attempt fails, and then the second gives a value.
abbrev second_wins : List Event
second_wins =
    timeout ∷ completed (("p1", failure 1) ∷ []) [] ∷ completed (("p2", value 9) ∷ []) [] ∷ []

abbrev winner : Status
winner =
    won "p2" 9
      (record {
        active = "p3" ∷ [];
        waiting = [];
        attempted = "p1" ∷ "p2" ∷ "p3" ∷ [];
        hedge_open = true;
        attempted_errors = ("p1", raised 1) ∷ [];
        last_error = some (raised 1);
      })
      [] ("p3" ∷ [])

second-wins : race_providers request second_wins ≡ ok winner
unfolding race_providers validate_request
second-wins = refl

-- Two values in one turn: the first wins, and the second had ended, so that nothing is cancelled.
abbrev both_end : List Event
both_end =
    timeout
    ∷ completed (("p1", failure 1) ∷ []) []
    ∷ completed (("p2", value 9) ∷ []) (("p3", value 8) ∷ [])
    ∷ []

one_of_two :
    race_providers request both_end
    ≡ ok (
        won "p2" 9
          (record {
            active = "p3" ∷ [];
            waiting = [];
            attempted = "p1" ∷ "p2" ∷ "p3" ∷ [];
            hedge_open = true;
            attempted_errors = ("p1", raised 1) ∷ [];
            last_error = some (raised 1);
          })
          (("p3", value 8) ∷ [])
          [])
unfolding race_providers validate_request
one_of_two = refl

race-IsRight_example :
    (sel : Selected) × (validate_request request ≡ ok sel)
    × IsSelected request sel
    × IsRight sel.ids sel.max_concurrency winner
race-IsRight_example = race-IsRight request second_wins winner second-wins

abbrev all_fail : List Event
all_fail =
    completed (("p1", failure 1) ∷ []) []
    ∷ timeout
    ∷ completed (("p2", failure 2) ∷ []) []
    ∷ completed (("p3", failure 3) ∷ []) []
    ∷ race_cancelled []
    ∷ []

abbrev selected : Selected
selected = record { ids = "p1" ∷ "p2" ∷ "p3" ∷ []; max_concurrency = 2 }
