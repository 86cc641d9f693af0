-- ===== src/Routing/Coalescing/Invariant.antt =====
-- What holds of the coalescer of src/pitwall/routing/coalescing.py after every event.
use pitwall_gpu_broker.Prelude.{All-imp}
use pitwall_gpu_broker.Prelude.Dict.{lookup, insert, lookup-insert, found_at}
use pitwall_gpu_broker.Routing.Coalescing.{
  Outcome, TaskState, unstarted, cancelled, cancelling, running, settled, InflightExecution, Caller,
  Coalescer, new_coalescer, set_status, join,
}
use pitwall_gpu_broker.Prelude.{
  ℕ, ◌+◌, ◌≤◌, ◌<◌, String, ◌≡◌, refl, sym, ap, subst, ◌≢◌, inl, inr, Option, none, some, List, [],
  ◌∷◌, arith, eq_iff, ltb, ◌==◌, str_eq, if◌then◌else◌, Bool-cases, All,
}

abbrev pub key_at : TaskState → Option String
key_at unstarted = none
key_at cancelled = none
key_at (cancelling k) = none
key_at (running k) = some k
key_at (settled k r) = some k

-- How many of the calls wait for a task.
abbrev pub count : ℕ → List Caller → ℕ
count t [] = 0
count t (c ∷ cs) = (if c.task == t then 1 else 0) + count t cs

pub record IsSound (s : Coalescer) : Type 0 where
  -- A task number is used once.
  pub fresh : (t : ℕ) → s.next_task ≤ t → s.status t ≡ unstarted
  -- A running task is the one in flight for its key.
  pub tracked :
      (t : ℕ) (k : String)
      → s.status t ≡ running k
      → (e : InflightExecution) × (lookup k s.inflight ≡ some e) × (e.task ≡ t)
  -- An entry is for a task of its key that was not asked to cancel.
  pub of_key :
      (k : String) (e : InflightExecution)
      → lookup k s.inflight ≡ some e
      → key_at (s.status e.task) ≡ some k
  -- It counts the calls that wait for the task, and there is one.
  pub counted :
      (k : String) (e : InflightExecution)
      → lookup k s.inflight ≡ some e
      → (e.waiters ≡ count e.task s.callers) × (1 ≤ e.waiters)
  -- No call waits for a task that was asked to cancel.
  pub attached : All (λ c. key_at (s.status c.task) ≡ some c.key) s.callers

pub new-IsSound : IsSound new_coalescer
new-IsSound = record {
  fresh = λ t h. refl;
  tracked = λ t k h. cc h;
  of_key = λ k e h. cc h;
  counted = λ k e h. cc h;
  attached = tt;
}

module _ {s : Coalescer} (v : IsSound s) where
  -- Entries of different keys are for different tasks.
  pub apart :
      (k j : String) (d e : InflightExecution)
      → lookup k s.inflight ≡ some d
      → lookup j s.inflight ≡ some e
      → k ≢ j
      → d.task ≢ e.task
  apart k j d e at_k at_j differ same =
      let here = v.of_key k d at_k in let there = v.of_key j e at_j in differ (cc (here, there))

  pub below : (t : ℕ) (k : String) → key_at (s.status t) ≡ some k → t < s.next_task
  below t k h = elim (Bool-cases (ltb t s.next_task)) [
    | inl lt ↦ ground arith
    | inr ge ↦ let e = v.fresh t (ground arith) in absurd (ground arith)
  ]

  -- A running task stays in flight where an entry is written again for the same task.
  pub retracked :
      (key : String) (e e' : InflightExecution)
      → lookup key s.inflight ≡ some e
      → e'.task ≡ e.task
      → (t : ℕ) (k : String) → s.status t ≡ running k
      → (d : InflightExecution) × (lookup k (insert key e' s.inflight) ≡ some d) × (d.task ≡ t)
  retracked key e e' found kept t k h =
      let (d, at_k, same) = v.tracked t k h in
      elim (Bool-cases (str_eq key k)) [
        | inl eq ↦
            let here = (eq_iff key k).0 eq in
            (e', rw (lookup-insert, eq) refl, cc (found, at_k, here, same, kept))
        | inr ne ↦ (d, rw (lookup-insert, ne) at_k, same)
      ]

  module _ (key : String) (e : InflightExecution) (found : lookup key s.inflight ≡ some e) where
    pub joined-IsSound : IsSound (join key (some e) s)
    joined-IsSound = record {
      fresh = v.fresh;
      tracked = retracked key e (record e { waiters = e.waiters + 1 }) found refl;
      of_key = λ k d h.
          elim (found_at key k (record e { waiters = e.waiters + 1 }) d s.inflight h) [
            | inl (same, new) ↦ let old = v.of_key key e found in cc
            | inr (differ, old) ↦ v.of_key k d old
          ];
      counted = λ k d h.
          elim (found_at key k (record e { waiters = e.waiters + 1 }) d s.inflight h) [
            | inl (same, new) ↦ let old = v.counted key e found in ground arith
            | inr (differ, at_k) ↦
                let old = v.counted k d at_k in
                let ne = apart key k e d found at_k differ in ground arith
          ];
      attached = (v.of_key key e found, v.attached);
    }

  count_fresh :
      (cs : List Caller)
      → All (λ c. key_at (s.status c.task) ≡ some c.key) cs
      → count s.next_task cs ≡ 0
  count_fresh [] h = refl
  count_fresh (c ∷ cs) h =
      let lt = below c.task c.key h.0 in let rest = count_fresh cs h.1 in ground arith

  module _ (key : String) (absent : lookup key s.inflight ≡ none) where
    pub started-IsSound : IsSound (join key none s)
    started-IsSound = record {
      fresh = λ t h. let old = v.fresh t (omega arith) in ground arith;
      tracked = λ t k h. elim (Bool-cases (s.next_task == t)) [
        | inl eq ↦
            let same : key ≡ k = ground arith in
            (
              record { task = s.next_task; waiters = 1 },
              ground (
                arith,
                lookup-insert key k (record { task = s.next_task; waiters = 1 }) s.inflight,
                eq_iff key k,
              ),
              ground arith,
            )
        | inr ne ↦
            let (d, at_k, same) = v.tracked t k (ground arith) in
            (
              d,
              ground (
                arith,
                lookup-insert key k (record { task = s.next_task; waiters = 1 }) s.inflight,
                eq_iff key k,
              ),
              same,
            )
      ];
      of_key = λ k d h.
          elim (found_at key k (record { task = s.next_task; waiters = 1 }) d s.inflight h) [
            | inl (same, new) ↦ ground arith
            | inr (differ, at_k) ↦
                let old = v.of_key k d at_k in let lt = below d.task k old in ground arith
          ];
      counted = λ k d h.
          elim (found_at key k (record { task = s.next_task; waiters = 1 }) d s.inflight h) [
            | inl (same, new) ↦ let none_yet = count_fresh s.callers v.attached in ground arith
            | inr (differ, at_k) ↦
                let old = v.counted k d at_k in
                let lt = below d.task k (v.of_key k d at_k) in ground arith
          ];
      attached = (
        ground arith,
        All-imp (λ c h. let lt = below c.task c.key h in ground arith) s.callers v.attached,
      );
    }

  pub settled-IsSound :
      (t : ℕ) (k : String) (r : Outcome)
      → s.status t ≡ running k
      → IsSound (record s { status = set_status t (settled k r) s.status })
  settled-IsSound t k r h = record {
    fresh = λ u le. let old = v.fresh u le in let lt = below t k (ap key_at h) in ground arith;
    tracked = λ u j e. v.tracked u j (ground arith);
    of_key = λ j d e.
        let old = v.of_key j d e in
        elim (Bool-cases (t == d.task)) [
          | inl eq ↦
              let same : t ≡ d.task = ground arith in
              let here : key_at (s.status t) ≡ some j =
                (subst (λ u. key_at (s.status u) ≡ some j) (sym same) old) in
              ground arith
          | inr ne ↦ ground arith
        ];
    counted = v.counted;
    attached =
        All-imp
          (λ c old. elim (Bool-cases (t == c.task)) [
            | inl eq ↦
                let same : t ≡ c.task = ground arith in
                let here : key_at (s.status t) ≡ some c.key =
                  (subst (λ u. key_at (s.status u) ≡ some c.key) (sym same) old) in
                ground arith
            | inr ne ↦ ground arith
          ])
          s.callers v.attached;
  }

  -- A task that no entry and no call is for may change, where it does not run afterwards.
  pub detached-IsSound :
      (t : ℕ) (st : TaskState)
      → s.status t ≢ unstarted
      → key_at (s.status t) ≡ none
      → ((k : String) → st ≢ running k)
      → IsSound (record s { status = set_status t st s.status })
  detached-IsSound t st begun detached ends = record {
    fresh = λ u le. elim (Bool-cases (t == u)) [
      | inl eq ↦ let same : t ≡ u = ground arith in absurd (begun (rw same (v.fresh u le)))
      | inr ne ↦ rw ne (v.fresh u le)
    ];
    tracked = λ u j e. elim (Bool-cases (t == u)) [
      | inl eq ↦ absurd (ends j (rw eq at e))
      | inr ne ↦ v.tracked u j (rw ne at e)
    ];
    of_key = λ j d e. kept d.task j (v.of_key j d e);
    counted = v.counted;
    attached = All-imp (λ c old. kept c.task c.key old) s.callers v.attached;
  }
    where
      kept :
          (u : ℕ) (j : String)
          → key_at (s.status u) ≡ some j
          → key_at (set_status t st s.status u) ≡ some j
      kept u j old = elim (Bool-cases (t == u)) [
        | inl eq ↦ let same : t ≡ u = ground arith in cc (old, detached, same)
        | inr ne ↦ rw ne old
      ]
