-- ===== src/Routing/Coalescing/Leaving.antt =====
-- A call that ends, in src/pitwall/routing/coalescing.py, leaves the coalescer sound.
use pitwall_gpu_broker.Prelude.Dict.{
  lookup, insert, erase, found_at, found_after_erase, kept_by_erase,
}
use pitwall_gpu_broker.Routing.Coalescing.{
  cancel, InflightExecution, Caller, Answer, Coalescer, set_status, done, release, release_waiter,
  pick, leave,
}
use pitwall_gpu_broker.Routing.Coalescing.Invariant.{
  key_at, count, IsSound, apart, below, retracked,
}
use pitwall_gpu_broker.Prelude.{
  ℕ, zero, suc, ◌+◌, ◌-◌, ◌≤◌, String, ◌≡◌, refl, sym, ap, subst, ◌≢◌, inl, inr, true, false, none,
  some, List, [], ◌∷◌, arith, ◌==◌, if◌then◌else◌, Bool-cases, Option-cases, All,
}

-- A call is taken out of the list once.
pub count-pick :
    (t i : ℕ) (cs others : List Caller) (c : Caller)
    → pick i cs ≡ some (c, others)
    → count t cs ≡ (if c.task == t then 1 else 0) + count t others
count-pick t i [] others c h = cc h
count-pick t zero (d ∷ cs) others c h =
    let same : d ≡ c = cc h in let rest : cs ≡ others = cc h in rw (same, rest) refl
count-pick t (suc i) (d ∷ cs) others c h = elim (Option-cases (pick i cs)) [
  | inl e ↦ ground arith
  | inr ((b, bs), e) ↦
      let rest = count-pick t i cs bs b e in
      let same : b ≡ c = ground arith in
      let tail : others ≡ d ∷ bs = ground arith in
      rw tail (ground (arith, ap (λ (x : Caller). x.task) same))
]

pub All-pick :
    (P : Caller → Type 0) (i : ℕ) (cs others : List Caller) (c : Caller)
    → pick i cs ≡ some (c, others)
    → All P cs
    → P c × All P others
All-pick P i [] others c h all = cc h
All-pick P zero (d ∷ cs) others c h all =
    let same : d ≡ c = cc h in
    let rest : cs ≡ others = cc h in (subst P same all.0, subst (All P) rest all.1)
All-pick P (suc i) (d ∷ cs) others c h all = elim (Option-cases (pick i cs)) [
  | inl e ↦ absurd (ground arith)
  | inr ((b, bs), e) ↦
      let rest = All-pick P i cs bs b e all.1 in
      let same : b ≡ c = ground arith in
      let tail : d ∷ bs ≡ others = ground arith in
      (subst P same rest.0, subst (All P) tail (all.0, rest.1))
]

-- A task that no call waits for.
unawaited : (t : ℕ) (cs : List Caller) → count t cs ≡ 0 → All (λ c. (c.task == t) ≡ false) cs
unawaited t [] h = tt
unawaited t (c ∷ cs) h = (ground arith, unawaited t cs (ground arith))

All-both :
    {P Q R : Caller → Type 0} (cs : List Caller)
    → ((c : Caller) → P c → Q c → R c)
    → All P cs
    → All Q cs
    → All R cs
All-both [] f p q = tt
All-both (c ∷ cs) f p q = (f c p.0 q.0, All-both cs f p.1 q.1)

module _ {s : Coalescer} (v : IsSound s) (c : Caller) (others : List Caller)
    (once : (t : ℕ) → count t s.callers ≡ (if c.task == t then 1 else 0) + count t others)
    (held : key_at (s.status c.task) ≡ some c.key)
    (rest : All (λ d. key_at (s.status d.task) ≡ some d.key) others)
    (gone : List (Caller × Answer)) where
  -- An entry for the task of the call is the entry of its key.
  entry_of :
      (k : String) (d : InflightExecution)
      → lookup k s.inflight ≡ some d
      → (c.task == d.task) ≡ true
      → k ≡ c.key
  entry_of k d at_k same =
      let here = v.of_key k d at_k in
      let same' : c.task ≡ d.task = ground arith in cc (here, held, same')

  -- The coalescer without the call, before `_release_waiter`.
  abbrev without : Coalescer
  without = record s { callers = others; answers = gone }

  counted_still :
      (k : String) (d : InflightExecution)
      → lookup k s.inflight ≡ some d
      → (c.task == d.task) ≡ false
      → (d.waiters ≡ count d.task others) × (1 ≤ d.waiters)
  counted_still k d at_k ne = let old = v.counted k d at_k in let n = once d.task in ground arith

  absent-IsSound : lookup c.key s.inflight ≡ none → IsSound without
  absent-IsSound absent = record {
    fresh = v.fresh;
    tracked = v.tracked;
    of_key = v.of_key;
    counted = λ k d at_k. elim (Bool-cases (c.task == d.task)) [
      | inl eq ↦ let same = entry_of k d at_k eq in cc (absent, at_k, same)
      | inr ne ↦ counted_still k d at_k ne
    ];
    attached = rest;
  }

  module _ (e : InflightExecution) (found : lookup c.key s.inflight ≡ some e) where
    of_same :
        (k : String) (d : InflightExecution)
        → lookup k s.inflight ≡ some d
        → (c.task == d.task) ≡ true
        → d ≡ e
    of_same k d at_k eq = let same = entry_of k d at_k eq in cc (found, at_k, same)

    other-IsSound : (e.task == c.task) ≡ false → IsSound without
    other-IsSound ne = record {
      fresh = v.fresh;
      tracked = v.tracked;
      of_key = v.of_key;
      counted = λ k d at_k. elim (Bool-cases (c.task == d.task)) [
        | inl eq ↦
            let same = of_same k d at_k eq in
            absurd (ground (arith, ap (λ (x : InflightExecution). x.task) same))
        | inr ne' ↦ counted_still k d at_k ne'
      ];
      attached = rest;
    }

    module _ (mine : e.task ≡ c.task) where
      away :
          (k : String) (d : InflightExecution)
          → c.key ≢ k
          → lookup k s.inflight ≡ some d
          → (c.task == d.task) ≡ false
      away k d differ at_k =
          let ne = apart v k c.key d e at_k found (λ eq. differ (sym eq)) in ground arith

      done-IsSound :
          done (s.status c.task) ≡ true
          → IsSound (record without { inflight = erase c.key s.inflight })
      done-IsSound ended = record {
        fresh = v.fresh;
        tracked = λ t k h.
            let (d, at_k, same) = v.tracked t k h in
            let differ : c.key ≢ k = λ eq.
              let d_is : d ≡ e = cc (found, at_k, eq) in
              let t_is : c.task ≡ t = cc (d_is, same, mine) in cc (ended, h, t_is) in
            (d, kept_by_erase c.key k d s.inflight differ at_k, same);
        of_key = λ k d h. v.of_key k d (found_after_erase c.key k d s.inflight h).1;
        counted = λ k d h.
            let (differ, at_k) = found_after_erase c.key k d s.inflight h in
            counted_still k d at_k (away k d differ at_k);
        attached = rest;
      }

      last-IsSound :
          (e.waiters - 1) ≡ 0
          → IsSound (record without {
            inflight = erase c.key s.inflight;
            status = set_status c.task (cancel (s.status c.task)) s.status;
          })
      last-IsSound last = record {
        fresh = λ t h. let old = v.fresh t h in let lt = below v c.task c.key held in ground arith;
        tracked = λ t k h.
            let (d, at_k, same) = v.tracked t k (ground arith) in
            let differ : c.key ≢ k = λ eq.
              let d_is : d ≡ e = cc (found, at_k, eq) in
              let t_is : c.task ≡ t = cc (d_is, same, mine) in ground arith in
            (d, kept_by_erase c.key k d s.inflight differ at_k, same);
        of_key = λ k d h.
            let (differ, at_k) = found_after_erase c.key k d s.inflight h in
            let old = v.of_key k d at_k in let ne = away k d differ at_k in ground arith;
        counted = λ k d h.
            let (differ, at_k) = found_after_erase c.key k d s.inflight h in
            counted_still k d at_k (away k d differ at_k);
        attached =
            let n = once c.task in
            let held_by = v.counted c.key e found in
            let all : e.waiters ≡ count c.task s.callers = rw mine at held_by.0 in
            All-both others (λ d old ne. ground arith) rest
              (unawaited c.task others (ground arith));
      }

      fewer-IsSound :
          ((e.waiters - 1) == 0) ≡ false
          → IsSound (record without {
            inflight = insert c.key (record e { waiters = e.waiters - 1 }) s.inflight;
          })
      fewer-IsSound more = record {
        fresh = v.fresh;
        tracked = retracked v c.key e (record e { waiters = e.waiters - 1 }) found refl;
        of_key = λ k d h.
            elim (found_at c.key k (record e { waiters = e.waiters - 1 }) d s.inflight h) [
              | inl (same, new) ↦ let old = v.of_key c.key e found in cc
              | inr (differ, at_k) ↦ v.of_key k d at_k
            ];
        counted = λ k d h.
            elim (found_at c.key k (record e { waiters = e.waiters - 1 }) d s.inflight h) [
              | inl (same, new) ↦
                  let old = v.counted c.key e found in let n = once e.task in ground arith
              | inr (differ, at_k) ↦ counted_still k d at_k (away k d differ at_k)
            ];
        attached = rest;
      }

    found-IsSound : IsSound (release c.key c.task (some e) without)
    found-IsSound = elim (Bool-cases (e.task == c.task)) [
      | inr ne ↦ rw ne (other-IsSound ne)
      | inl eq ↦
          let mine : e.task ≡ c.task = ground arith in
          elim (Bool-cases (done (s.status c.task))) [
            | inl ended ↦ rw (eq, ended) (done-IsSound mine ended)
            | inr open_still ↦ elim (Bool-cases ((e.waiters - 1) == 0)) [
              | inl last ↦ rw (eq, open_still, last) (last-IsSound mine (ground arith))
              | inr more ↦ rw (eq, open_still, more) (fewer-IsSound mine more)
            ]
          ]
    ]

  released-IsSound : IsSound (release_waiter c.key c.task without)
  released-IsSound = elim (Option-cases (lookup c.key s.inflight)) [
    | inl absent ↦ rw absent (absent-IsSound absent)
    | inr (e, found) ↦ rw found (found-IsSound e found)
  ]

pub leave-IsSound :
    (s : Coalescer) (i : ℕ) (c : Caller) (others : List Caller) (a : Answer)
    → IsSound s
    → pick i s.callers ≡ some (c, others)
    → IsSound (leave c others a s)
leave-IsSound s i c others a v picked =
    let (held, rest) =
      All-pick (λ d. key_at (s.status d.task) ≡ some d.key) i s.callers others c picked
        v.attached in
    released-IsSound v c others (λ t. count-pick t i s.callers others c picked) held rest
      ((c, a) ∷ s.answers)
