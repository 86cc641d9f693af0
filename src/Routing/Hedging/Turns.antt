-- ===== src/Routing/Hedging/Turns.antt =====
-- What holds in a race of src/pitwall/routing/hedging.py after every event.
use pitwall_gpu_broker.Routing.Hedging.Attempts.{
  tracked, member_append, length_snoc, member_pop, length-pop, member-still_running,
  still_running_lem,
}
use pitwall_gpu_broker.Routing.Hedging.{
  still_running, AttemptOutcome, value, failure, attempt_cancelled, AttemptError, raised,
  was_cancelled, Race, Status, racing, won, lost, stopped, start, start_next, fill_open_slots, pop,
  failed, take_one, take_done, loop_test, go_on, end_turn, Event, timeout, race_cancelled,
  completed, turn, run_turns,
}
use pitwall_gpu_broker.Prelude.Dict.{Dict, lookup, insert, lookup-insert}
use pitwall_gpu_broker.Prelude.{All-imp, append_assoc, append_nil}
use pitwall_gpu_broker.Prelude.{
  ℕ, ◌≤◌, ◌<◌, String, ◌≡◌, refl, sym, ap, ◌∙◌, subst, inl, inr, Bool, true, false, ◌||◌, some,
  List, [], ◌∷◌, ◌++◌, arith, eq_iff, ltb, str_eq, if◌then◌else◌, Bool-cases, Option-cases, is_some,
  length, All, All-append,
}

-- An attempt had ended without being looked at, was cancelled, or its error is recorded.
abbrev pub accounted_for : Dict AttemptOutcome → List String → Dict AttemptError → String → Bool
accounted_for ended cancelled errors q = is_some (lookup q ended) || tracked cancelled errors q

module _ (ids : List String) (cap : ℕ) where
  pub record IsRacing (s : Race) : Type 0 where
    pub in_order : s.attempted ++ s.waiting ≡ ids
    pub bounded : length s.active ≤ cap
    pub accounted : All (λ p. tracked s.active s.attempted_errors p ≡ true) s.attempted

  -- What a result says: the attempted providers are the first of the selected ones. At a value, each
  -- other attempt failed, had ended without being looked at, or was cancelled while it ran; at the
  -- race error, all selected providers were attempted and failed; at a cancellation, each attempt
  -- failed, had ended or was cancelled while it ran. No attempt that is cancelled had ended.
  abbrev pub IsRight : Status → Type 0
  IsRight (racing s) = IsRacing s
  IsRight (won p v s ended cancelled) =
      (s.attempted ++ s.waiting ≡ ids)
      × All (λ q. (str_eq q p || accounted_for ended cancelled s.attempted_errors q) ≡ true)
          s.attempted
      × All (λ q. is_some (lookup q ended) ≡ false) cancelled
  IsRight (lost s) =
      (s.attempted ≡ ids) × All (λ q. is_some (lookup q s.attempted_errors) ≡ true) ids
  IsRight (stopped s ended cancelled) =
      (s.attempted ++ s.waiting ≡ ids)
      × All (λ q. accounted_for ended cancelled s.attempted_errors q ≡ true) s.attempted
      × All (λ q. is_some (lookup q ended) ≡ false) cancelled

  start-IsRacing :
      (p : String) (ps : List String) (s : Race)
      → s.waiting ≡ p ∷ ps
      → length s.active < cap
      → IsRacing s
      → IsRacing (start p ps s)
  start-IsRacing p ps s next free v = record {
    in_order = append_assoc s.attempted (p ∷ []) ps ∙ (let h = v.in_order in rw next at h);
    bounded = omega (arith, length_snoc s.active p);
    accounted =
        All-append (λ q. tracked (s.active ++ (p ∷ [])) s.attempted_errors q ≡ true) s.attempted
          (p ∷ [])
          (All-imp {Q = λ (q : String). tracked (s.active ++ (p ∷ [])) s.attempted_errors q ≡ true}
            (λ q h. ground (arith, member_append q p s.active)) s.attempted v.accounted)
          (ground (arith, member_append p p s.active, eq_iff p p), tt);
  }

  fill-IsRacing :
      (ps : List String) (s : Race)
      → s.waiting ≡ ps
      → IsRacing s
      → IsRacing (fill_open_slots cap ps s)
  fill-IsRacing [] s e v = v
  fill-IsRacing (p ∷ ps) s e v = elim (Bool-cases (ltb (length s.active) cap)) [
    | inl free ↦
        rw free (fill-IsRacing ps (start p ps s) refl (start-IsRacing p ps s e (ground arith) v))
    | inr full ↦ rw full v
  ]

  failed-IsRacing :
      (p : String) (e : AttemptError) (active : List String) (s : Race)
      → pop p s.active ≡ some active
      → IsRacing s
      → IsRacing (failed p e active s)
  failed-IsRacing p e active s popped v = record {
    in_order = v.in_order;
    bounded = let n = length-pop p s.active active popped in omega (arith, v.bounded);
    accounted =
        All-imp {Q = λ (q : String). tracked active (insert p e s.attempted_errors) q ≡ true}
          (λ q h. ground (
            arith,
            member_pop p q s.active active popped,
            lookup-insert p q e s.attempted_errors,
            eq_iff q p,
            eq_iff p q,
          ))
          s.attempted v.accounted;
  }

  won-IsRight :
      (p : String) (x : ℕ) (active : List String) (later : Dict AttemptOutcome) (s : Race)
      → pop p s.active ≡ some active
      → IsRacing s
      → IsRight (won p x (record s { active = active }) later (still_running later active))
  won-IsRight p x active later s popped v = (
    v.in_order,
    All-imp
        {Q = λ (q : String).
          (str_eq q p || accounted_for later (still_running later active) s.attempted_errors q)
          ≡ true}
        (λ q h.
          ground
            (arith, member_pop p q s.active active popped, member-still_running q later active))
        s.attempted v.accounted,
    still_running_lem later active,
  )

  one-IsRight :
      (o : AttemptOutcome) (p : String) (later : Dict AttemptOutcome) (next : Race → Status)
      (s : Race)
      → ((r : Race) → IsRacing r → IsRight (next r))
      → IsRacing s
      → IsRight (take_one o (pop p s.active) p later next s)
  one-IsRight o p later next s keep v = elim (Option-cases (pop p s.active)) [
    | inl gone ↦ rw gone (keep s v)
    | inr (active, popped) ↦ rw popped (ended o active popped)
  ]
    where
      ended :
          (o' : AttemptOutcome) (active : List String)
          → pop p s.active ≡ some active
          → IsRight (take_one o' (some active) p later next s)
      ended (value x) active popped = won-IsRight p x active later s popped v
      ended (failure e) active popped =
          keep (failed p (raised e) active s) (failed-IsRacing p (raised e) active s popped v)
      ended attempt_cancelled active popped =
          keep (failed p was_cancelled active s) (failed-IsRacing p was_cancelled active s popped v)

  take-IsRight :
      (ps unnoted : Dict AttemptOutcome) (s : Race) → IsRacing s → IsRight (take_done ps unnoted s)
  take-IsRight [] unnoted s v = v
  take-IsRight ((p, o) ∷ ps) unnoted s v =
      one-IsRight o p (ps ++ unnoted) (take_done ps unnoted) s (take-IsRight ps unnoted) v

  -- A race ends where no attempt is left: then none waits.
  pub loop-IsRight :
      (s : Race) (active : List String)
      → s.active ≡ active
      → (active ≡ [] → s.waiting ≡ [])
      → IsRacing s
      → IsRight (loop_test s active)
  loop-IsRight s (p ∷ ps) e last v = v
  loop-IsRight s [] e last v =
      let none_waits = last refl in
      let order = v.in_order in
      let all_attempted : s.attempted ≡ ids =
        sym (append_nil s.attempted) ∙ (rw none_waits at order) in
      (
        all_attempted,
        subst (All (λ q. is_some (lookup q s.attempted_errors) ≡ true)) all_attempted (
            All-imp {Q = λ (q : String). is_some (lookup q s.attempted_errors) ≡ true}
              (λ q h. let h' : tracked [] s.attempted_errors q ≡ true = rw e at h in h') s.attempted
              v.accounted),
      )

  either : (b : Bool) (x y : Race) (P : Race → Type 0) → P x → P y → P (if b then x else y)
  either true x y P hx hy = hx
  either false x y P hx hy = hy

  fill_grows :
      (ps : List String) (s : Race) → length s.active ≤ length (fill_open_slots cap ps s).active
  fill_grows [] s = omega arith
  fill_grows (p ∷ ps) s = elim (Bool-cases (ltb (length s.active) cap)) [
    | inl free ↦ rw free (omega (arith, fill_grows ps (start p ps s), length_snoc s.active p))
    | inr full ↦ rw full (omega arith)
  ]

  module _ (pos : 1 ≤ cap) where
    go_on-IsRacing :
        (s : Race) (active : List String)
        → s.active ≡ active
        → IsRacing s
        → IsRacing (go_on cap s active)
    go_on-IsRacing s (p ∷ ps) e v =
        either s.hedge_open (fill_open_slots cap s.waiting s) s IsRacing
          (fill-IsRacing s.waiting s refl v) v
    go_on-IsRacing s [] e v = next s.waiting refl
      where
        next : (ws : List String) → s.waiting ≡ ws → IsRacing (start_next ws s)
        next [] w = v
        next (p ∷ ps) w = let n = ap length e in start-IsRacing p ps s w (omega arith) v

    -- Where no attempt is active after a turn, none waits.
    done_then :
        (s : Race) (active : List String)
        → s.active ≡ active
        → (go_on cap s active).active ≡ []
        → (go_on cap s active).waiting ≡ []
    done_then s (p ∷ ps) e =
        either s.hedge_open (fill_open_slots cap s.waiting s) s
          (λ r. r.active ≡ [] → r.waiting ≡ [])
          (λ h.
            let grown = fill_grows s.waiting s in
            let none_left = ap length h in let some_left = ap length e in absurd (omega arith))
          (λ h. cc (e, h))
    done_then s [] e = next s.waiting refl
      where
        next :
            (ws : List String)
            → s.waiting ≡ ws
            → (start_next ws s).active ≡ []
            → (start_next ws s).waiting ≡ []
        next [] w h = w
        next (p ∷ ps) w h =
            let n = length_snoc s.active p in let none_left = ap length h in absurd (omega arith)

    end-IsRight : (st : Status) → IsRight st → IsRight (end_turn cap st)
    end-IsRight (racing s) v =
        loop-IsRight (go_on cap s s.active) (go_on cap s s.active).active refl
          (done_then s s.active refl) (go_on-IsRacing s s.active refl v)
    end-IsRight (won p x s ended c) h = h
    end-IsRight (lost s) h = h
    end-IsRight (stopped s ended c) h = h

    turn-IsRight : (e : Event) (s : Race) → IsRacing s → IsRight (turn cap e s)
    turn-IsRight timeout s v =
        fill-IsRacing s.waiting (record s { hedge_open = true }) refl
          (record { in_order = v.in_order; bounded = v.bounded; accounted = v.accounted })
    turn-IsRight (race_cancelled ended) s v = (
      v.in_order,
      All-imp
          {Q = λ (q : String).
            accounted_for ended (still_running ended s.active) s.attempted_errors q ≡ true}
          (λ q h. ground (arith, member-still_running q ended s.active)) s.attempted v.accounted,
      still_running_lem ended s.active,
    )
    turn-IsRight (completed ps unnoted) s v =
        end-IsRight (take_done ps unnoted s) (take-IsRight ps unnoted s v)

    pub run-IsRight : (es : List Event) (st : Status) → IsRight st → IsRight (run_turns cap es st)
    run-IsRight [] st h = h
    run-IsRight (e ∷ es) (racing s) h = run-IsRight es (turn cap e s) (turn-IsRight e s h)
    run-IsRight (e ∷ es) (won p x s ended c) h = h
    run-IsRight (e ∷ es) (lost s) h = h
    run-IsRight (e ∷ es) (stopped s ended c) h = h
