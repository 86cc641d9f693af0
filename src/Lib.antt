-- ===== src/Lib.antt =====
-- The core of Pitwall, a broker that leases GPU capacity from providers and spends money under a
-- budget. The files below model the parts that decide: what a lease may do, where a request is
-- routed, and whether money may be spent.
--
-- Parts and files:
--   * Lease.antt (src/pitwall/leases/state.py): the states of a lease, their transition table, the
--     guard `transition_lease_state` and its Boolean form. Lease/Lifecycle.antt holds the step
--     relation, Lease/History.antt sequences of guarded changes.
--   * Lease/Tables.antt and Lease/Mutations.antt (src/pitwall/db/repository.py): the tables, and
--     `LeaseRepository.renew` and `patch_settings`, with `_reserve_lease_mutation` and
--     `_insert_lease_mutation_audit`. The tables are a record `Db`; a method is a function from the
--     tables to a result and the tables after it, and `transaction` gives the tables back as they
--     were where it raises. Lease/Mutations/Cases.antt lists the cases of a renewal as a relation,
--     and Calls.antt what sequences of calls are told.
--   * Routing/Cooldown.antt (src/pitwall/routing/cooldown.py): the health state of a provider and
--     what successes and failures of its probes do to it.
--   * Routing/Planner.antt and Routing/Planner/Chain.antt (src/pitwall/routing/planner.py with the
--     records of src/pitwall/routing/types.py): `plan_route`, which filters, ranks and chains the
--     providers. It reads the cooldown of a provider through `is_in_cooldown`.
--   * RateLimits/Store.antt (src/pitwall/rate_limits/store.py): `RateBucketStore` on the table of
--     buckets.
--   * RateLimits/Limiter.antt (src/pitwall/rate_limits/algorithm.py): `TokenBucketRateLimiter` over
--     the store; its loop runs along a schedule of turns, in which other callers use the store too.
--   * Routing/Coalescing.antt (src/pitwall/routing/coalescing.py): `AsyncRequestCoalescer`, which
--     runs concurrent calls with one key as one task; a schedule of the event loop is a list of
--     events.
--   * Routing/Hedging.antt (src/pitwall/routing/hedging.py): `race_providers`, which races the
--     providers of a chain; what `asyncio.wait` returns is a list of events.
--   * Gitops/Schema.antt, Snapshots, Differ and Desired (src/pitwall/gitops/schema.py and differ.py):
--     the plan that takes the registry to what is declared. Gitops/Repository.antt and Reconcile
--     (src/pitwall/gitops/reconcile.py with the repositories of src/pitwall/db/repository.py): its
--     application.
--   * Routing/Constraints.antt (src/pitwall/routing/constraints.py): the hard constraints between a
--     request and a provider, which Routing/Constraints/Met.antt puts into the plan as its stage 1.
--   * Lease/Service.antt (src/pitwall/leases/mutations.py): `renew_lease` and
--     `patch_lease_settings` over the repository, with their limits and errors.
--   * Routing/Cascade.antt (src/pitwall/routing/cascade.py): `route_with_cascade`, tiers tried from
--     cheap to expensive until a quality gate passes.
--   * Routing/Fallback.antt (src/pitwall/routing/fallback.py): `execute_openai_with_fallback`,
--     which sends one request to a chain of providers before a deadline.
--   * RateLimits/Algorithm.antt (src/pitwall/rate_limits/algorithm.py): `TokenBucket` and the
--     capacity after a 429.
--   * Autopilot/Schema.antt, Autopilot/Gates.antt and Autopilot/Controller.antt
--     (src/pitwall/autopilot): the controller, which proposes actions from signals and gates them; it
--     reads a decision of the breaker.
--   * Cost/SloGovernor.antt (src/pitwall/cost/slo_governor.py): `CostGovernor.evaluate`, which paces
--     admission by the burn rate, the recent costs and the decision of the breaker.
--   * Cost/SubBudgets.antt (src/pitwall/cost/sub_budgets.py): the sub-budgets of tags, which are
--     checked before the budget gate, and chargeback reports.
--   * Cost/SyncGate.antt (src/pitwall/cost/sync_gate.py and src/pitwall/core/idempotency.py): how
--     `gate_sync_inference` reserves a key and admits a workload through the budget gate.
--   * Cost/CircuitBreaker.antt (src/pitwall/cost/circuit_breaker.py): `BudgetCircuitBreaker`.
--   * Cost/KillEscalation.antt (src/pitwall/cost/budget_kill_escalation.py): whether a decision of
--     the breaker fires the kill switch.
--   * Cost/BudgetGate.antt (src/pitwall/cost/budget_gate.py): `BudgetGate.try_launch_admission` on
--     the table of workloads.
--   * Prelude.antt and its children: lists, Boolean tests, results, dictionaries, a stable sort.
--   * Tests.antt and its children: the definitions on concrete inputs.
--
-- Modelling:
--   * Amounts of money are natural numbers of a fixed unit, since the code holds nonnegative
--     Decimals and adds, compares and caps them. Where it divides, the quotient depends on the
--     decimal context, and the two quotients of the breaker are parameters.
--   * Instants and durations are natural numbers of seconds or microseconds, as a file's comment
--     says; the clock is an argument.
--   * A score of the planner is a finite float that is only compared; it stands as its position in
--     the order. Backoffs are natural numbers of a fixed unit.
--   * A row lock or an advisory lock makes a method one step, so concurrent calls are a list in
--     the order in which they get the lock.
--   * Loops over lists are structural recursion; no definition takes fuel.
--   * Stage 1 of the planner and the availability cache are parameters of `plan_route`, functions
--     from a provider to its reasons and from a key to what is known. The hard constraints read the
--     numbers of a version and the match of two GPU names through functions as well.
--   * Under asyncio, `cancel` on a task is a request: the task ends by an event of its own, or before
--     the request where it is done already.
--   * What a provider, a quality gate, the policies, the simulator or the executor answer is a
--     function that the caller gives; where it may raise, it gives a result or an option.
--   * The tokens of a bucket are counted in fractions of which the refill window makes one token,
--     so that a refill is exact; the code keeps the rounded float.
--   * Cooperative tasks interleave only where the code waits, so the code between two waits is one
--     event, and a run is a list of events, whatever they are.
--   * The registry's tables are lists of rows; a statement writes one row by its id. Constraints of
--     the database that refuse a row, such as a name that must be unique, are left out. A JSON value
--     and a list of hints stand as their text, and the slug of a name is a function that is given.
--
-- Not modelled: SQL beyond the statements of the methods above, HTTP routes and clients, the
-- command line, configuration, statistics and scores in floating point, telemetry, and log lines.
-- The parts that read a provider from a row or a mapping are the fields of the model's records.
pub mod Prelude
pub mod Lease
pub mod Routing
pub mod Cost
pub mod Autopilot
pub mod Gitops
pub mod RateLimits
pub mod Tests
