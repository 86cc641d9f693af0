-- ===== src/Routing/Fallback/Answers.antt =====
-- Which provider's answer src/pitwall/routing/fallback.py relays, and when it gives up.
use pitwall_gpu_broker.Prelude.Dict.{Dict, insert}
use pitwall_gpu_broker.Routing.Fallback.{
  http, transport, Provider, Sent, response, failed, Reading, OpenAiProxyResult, AttemptError,
  execution_error, run_attempts, is_retryable_response, is_last,
}
use pitwall_gpu_broker.Prelude.{append_assoc}
use pitwall_gpu_broker.Prelude.{
  ℕ, ◌+◌, ◌≤◌, ◌<◌, String, ◌≡◌, refl, sym, ap, ◌∙◌, subst, ◌⊎◌, inl, inr, true, false, not, ◌&&◌,
  ◌||◌, Option, some, List, [], ◌∷◌, ◌++◌, map, arith, ltb, leb, if◌then◌else◌, Bool-cases, length,
  ok, err,
}

-- An attempt that may be followed by another: no headers, or a status of the 500s.
abbrev pub IsRetryable : Sent → Type 0
IsRetryable (failed text) = Unit
IsRetryable (response status) = (500 ≤ status) × (status < 600)

pub Sent-cases :
    (s : Sent) → ((text : String) × (s ≡ failed text)) ⊎ ((status : ℕ) × (s ≡ response status))
Sent-cases (failed text) = inl (text, refl)
Sent-cases (response status) = inr (status, refl)

module _ (reading : ℕ → Reading) (deadline : ℕ) where
  -- From an attempt's number on, the attempts at these providers begin and end before the
  -- deadline and may be followed by another.
  abbrev pub AllRetried : ℕ → List Provider → Type 0
  AllRetried index [] = Unit
  AllRetried index (p ∷ ps) =
      ((reading index).before < deadline)
      × ((reading index).after < deadline)
      × IsRetryable (reading index).sent
      × AllRetried (index + 1) ps

  abbrev pub ids : List Provider → List String
  ids ps = map (λ p. p.id) ps

  -- How the loop ends with an answer.
  pub record IsAnswered (index : ℕ) (ps : List Provider) (attempted : List String)
      (res : OpenAiProxyResult) : Type 0 where
    pub tried : List Provider
    pub left : List Provider
    pub split : ps ≡ tried ++ res.provider ∷ left
    pub number : ℕ
    pub numbered : number ≡ index + length tried
    pub retried : AllRetried index tried
    pub in_time : (reading number).before < deadline
    pub answer : (reading number).sent ≡ response res.status_code
    pub relayed :
        IsRetryable (response res.status_code) → (left ≡ []) ⊎ (deadline ≤ (reading number).after)
    pub reported : res.attempted_provider_ids ≡ attempted ++ ids (tried ++ res.provider ∷ [])

  -- An attempt that is followed by another.
  retried_step :
      (index : ℕ) (p : Provider) (ps : List Provider) (attempted : List String)
      {res : OpenAiProxyResult}
      → (reading index).before < deadline
      → (reading index).after < deadline
      → IsRetryable (reading index).sent
      → IsAnswered (index + 1) ps (attempted ++ p.id ∷ []) res
      → IsAnswered index (p ∷ ps) attempted res
  retried_step index p ps attempted {res} b a r rest = record {
    tried = p ∷ rest.tried;
    left = rest.left;
    split = ap (λ xs. p ∷ xs) rest.split;
    number = rest.number;
    numbered = omega (arith, rest.numbered);
    retried = (b, a, r, rest.retried);
    in_time = rest.in_time;
    answer = rest.answer;
    relayed = rest.relayed;
    reported =
        rest.reported ∙ append_assoc attempted (p.id ∷ []) (ids (rest.tried ++ res.provider ∷ []));
  }

  -- An attempt whose answer is relayed.
  IsAnswered-here :
      (index : ℕ) (p : Provider) (ps : List Provider) (attempted : List String) (status : ℕ)
      → (reading index).before < deadline
      → (reading index).sent ≡ response status
      → (IsRetryable (response status) → (ps ≡ []) ⊎ (deadline ≤ (reading index).after))
      → IsAnswered index (p ∷ ps) attempted (record {
        status_code = status;
        provider = p;
        attempted_provider_ids = attempted ++ p.id ∷ [];
      })
  IsAnswered-here index p ps attempted status b e last = record {
    tried = [];
    left = ps;
    split = refl;
    number = index;
    numbered = omega arith;
    retried = tt;
    in_time = b;
    answer = e;
    relayed = last;
    reported = refl;
  }

  -- One step of the loop, by what the attempt gives.
  module _ (index : ℕ) (p : Provider) (ps : List Provider) (attempted : List String)
      (errors : Dict AttemptError) (last : Option String)
      (b : (reading index).before < deadline) where
    pub step-failed :
        (text : String)
        → (reading index).sent ≡ failed text
        → run_attempts reading deadline index (p ∷ ps) attempted errors last ≡ (
            if not (is_last ps) && ltb (reading index).after deadline
            then run_attempts reading deadline
                (index + 1)
                ps
                (attempted ++ p.id ∷ [])
                (insert p.id (transport text) errors)
                (some text)
            else err (
                execution_error
                  (attempted ++ p.id ∷ [])
                  (some text)
                  (insert p.id (transport text) errors)))
    unfolding run_attempts
    step-failed text e = ground arith

    pub step-response :
        (status : ℕ)
        → (reading index).sent ≡ response status
        → run_attempts reading deadline index (p ∷ ps) attempted errors last ≡ (
            if is_retryable_response status
              && not (is_last ps || leb deadline (reading index).after)
            then run_attempts reading deadline
                (index + 1)
                ps
                (attempted ++ p.id ∷ [])
                (insert p.id (http status) errors)
                last
            else ok (record {
              status_code = status;
              provider = p;
              attempted_provider_ids = attempted ++ p.id ∷ [];
            }))
    unfolding run_attempts
    step-response status e = ground arith

  pub retryable : (status : ℕ) → is_retryable_response status ≡ true → IsRetryable (response status)
  unfolding is_retryable_response
  retryable status h = ground arith

  last_or_late :
      (index : ℕ) (ps : List Provider) (status : ℕ)
      → (is_retryable_response status && not (is_last ps || leb deadline (reading index).after))
        ≡ false
      → IsRetryable (response status)
      → (ps ≡ []) ⊎ (deadline ≤ (reading index).after)
  unfolding is_retryable_response
  last_or_late index [] status h r = inl refl
  last_or_late index (p ∷ ps) status h r = inr (ground arith)

  pub run-IsAnswered :
      (index : ℕ) (ps : List Provider) (attempted : List String) (errors : Dict AttemptError)
      (last : Option String) {res : OpenAiProxyResult}
      → run_attempts reading deadline index ps attempted errors last ≡ ok res
      → IsAnswered index ps attempted res
  unfolding run_attempts
  run-IsAnswered index [] attempted errors last h = absurd (cc h)
  run-IsAnswered index (p ∷ ps) attempted errors last {res} h =
      elim (Bool-cases (leb deadline (reading index).before)) [
        | inl late ↦ absurd (ground arith)
        | inr early ↦
            let b : (reading index).before < deadline = ground arith in
            elim (Sent-cases (reading index).sent) [
              | inl (text, e) ↦
                  let h' = sym (step-failed index p ps attempted errors last b text e) ∙ h in
                  elim (Bool-cases (not (is_last ps) && ltb (reading index).after deadline)) [
                    | inl on ↦
                        let next : run_attempts reading deadline (index + 1) ps
                              (attempted ++ p.id ∷ []) (insert p.id (transport text) errors)
                              (some text)
                            ≡ ok res =
                          rw on at h' in
                        retried_step index p ps attempted b (ground arith)
                          (subst IsRetryable (sym e) tt)
                          (run-IsAnswered (index + 1) ps (attempted ++ p.id ∷ [])
                            (insert p.id (transport text) errors) (some text) next)
                    | inr off ↦
                        let bad : err (
                              execution_error (attempted ++ p.id ∷ []) (some text)
                                (insert p.id (transport text) errors))
                            ≡ ok res =
                          rw off at h' in
                        cc bad
                  ]
              | inr (status, e) ↦
                  let h' = sym (step-response index p ps attempted errors last b status e) ∙ h in
                  elim (Bool-cases (
                    is_retryable_response status
                    && not (is_last ps || leb deadline (reading index).after))) [
                      | inl on ↦
                          let next : run_attempts reading deadline (index + 1) ps
                                (attempted ++ p.id ∷ []) (insert p.id (http status) errors) last
                              ≡ ok res =
                            rw on at h' in
                          retried_step index p ps attempted b (ground arith)
                            (subst IsRetryable (sym e) (retryable status (ground arith)))
                            (run-IsAnswered (index + 1) ps (attempted ++ p.id ∷ [])
                              (insert p.id (http status) errors) last next)
                      | inr off ↦
                          let result : OpenAiProxyResult = record {
                            status_code = status;
                            provider = p;
                            attempted_provider_ids = attempted ++ p.id ∷ [];
                          } in
                          let done : ok result ≡ ok res = rw off at h' in
                          let same : result ≡ res = cc done in
                          subst (IsAnswered index (p ∷ ps) attempted) same (
                            IsAnswered-here index p ps attempted status b e
                              (last_or_late index ps status off))
                    ]
            ]
      ]
