-- ===== src/Routing/Fallback/Relay.antt =====
-- That src/pitwall/routing/fallback.py relays an answer whenever one is reached in time.
use pitwall_gpu_broker.Prelude.Dict.{Dict, insert}
use pitwall_gpu_broker.Routing.Fallback.{
  Provider, response, Reading, OpenAiProxyResult, AttemptError, transport, http, FallbackError,
  run_attempts, execute_openai_with_fallback, providers_with_openai_urls, is_retryable_response,
  is_last,
}
use pitwall_gpu_broker.Routing.Fallback.Answers.{
  IsRetryable, AllRetried, ids, IsAnswered, Sent-cases, step-failed, step-response, retryable,
  run-IsAnswered,
}
use pitwall_gpu_broker.Prelude.{append_assoc}
use pitwall_gpu_broker.Prelude.{
  ℕ, zero, suc, ◌+◌, ◌≤◌, ◌<◌, min, String, ◌≡◌, refl, sym, ap, ◌∙◌, subst, ◌↔◌, ◌⊎◌, inl, inr,
  true, false, Option, none, some, List, [], ◌∷◌, ◌++◌, arith, ltb, leb, if◌then◌else◌, Bool-cases,
  length, take, Result, ok,
}

module _ (reading : ℕ → Reading) (deadline : ℕ) where
  not_last : (p : Provider) (tried left : List Provider) → is_last (tried ++ p ∷ left) ≡ false
  not_last p [] left = refl
  not_last p (q ∷ tried) left = refl

  here-answered :
      (index : ℕ) (p : Provider) (left : List Provider) (attempted : List String)
      (errors : Dict AttemptError) (last : Option String) (status : ℕ)
      → (reading index).before < deadline
      → (reading index).sent ≡ response status
      → (IsRetryable (response status) → (left ≡ []) ⊎ (deadline ≤ (reading index).after))
      → run_attempts reading deadline index (p ∷ left) attempted errors last
        ≡ ok (record {
          status_code = status;
          provider = p;
          attempted_provider_ids = attempted ++ p.id ∷ [];
        })
  unfolding is_retryable_response
  here-answered index p left attempted errors last status b e rel =
      step-response reading deadline index p left attempted errors last b status e
      ∙ (elim (Bool-cases (is_retryable_response status)) [
        | inr no_more ↦ rw no_more refl
        | inl more ↦ elim (rel (retryable reading deadline status more)) [
          | inl alone ↦ rw (more, alone) refl
          | inr late ↦ ground arith
        ]
      ])

  run-of_retried :
      (index number : ℕ) (tried : List Provider) (p : Provider) (left : List Provider)
      (attempted : List String) (errors : Dict AttemptError) (last : Option String) (status : ℕ)
      → number ≡ index + length tried
      → AllRetried reading deadline index tried
      → (reading number).before < deadline
      → (reading number).sent ≡ response status
      → (IsRetryable (response status) → (left ≡ []) ⊎ (deadline ≤ (reading number).after))
      → run_attempts reading deadline index (tried ++ p ∷ left) attempted errors last
        ≡ ok (record {
          status_code = status;
          provider = p;
          attempted_provider_ids = attempted ++ ids reading deadline (tried ++ p ∷ []);
        })
  run-of_retried index number [] p left attempted errors last status num all b e rel =
      let same : number ≡ index = omega arith in
      here-answered index p left attempted errors last status
        (subst (λ n. (reading n).before < deadline) same b)
        (subst (λ n. (reading n).sent ≡ response status) same e)
        (subst (λ n. IsRetryable (response status) → (left ≡ []) ⊎ (deadline ≤ (reading n).after))
          same rel)
  run-of_retried index number (q ∷ tried) p left attempted errors last status num (qb, qa, qr, all)
        b e rel =
      let more = not_last p tried left in
      let within : ltb (reading index).after deadline ≡ true = ground arith in
      let not_late : leb deadline (reading index).after ≡ false = ground arith in
      let answer : List String → Result FallbackError OpenAiProxyResult =
        λ xs. ok (record { status_code = status; provider = p; attempted_provider_ids = xs }) in
      let whole = append_assoc attempted (q.id ∷ []) (ids reading deadline (tried ++ p ∷ [])) in
      let rest = λ (errors' : Dict AttemptError) (last' : Option String).
        run-of_retried (index + 1) number tried p left (attempted ++ q.id ∷ []) errors' last' status
          (omega arith) all b e rel in
      elim (Sent-cases (reading index).sent) [
        | inl (text, qe) ↦
            step-failed reading deadline index q (tried ++ p ∷ left) attempted errors last qb text
              qe
            ∙ (rw (more, within)
                (rest (insert q.id (transport text) errors) (some text) ∙ ap answer whole))
        | inr (qs, qe) ↦
            let again : IsRetryable (response qs) = subst IsRetryable qe qr in
            step-response reading deadline index q (tried ++ p ∷ left) attempted errors last qb qs
              qe
            ∙ (let retry : is_retryable_response qs ≡ true =
                  unfold is_retryable_response in ground arith in
                rw (retry, more, not_late)
                  (rest (insert q.id (http qs) errors) last ∙ ap answer whole))
      ]

  run-of_IsAnswered :
      (ps : List Provider) (res : OpenAiProxyResult)
      → IsAnswered reading deadline 0 ps [] res
      → run_attempts reading deadline 0 ps [] [] none ≡ ok res
  run-of_IsAnswered ps res a =
      let ran =
        run-of_retried 0 a.number a.tried res.provider a.left [] [] none res.status_code a.numbered
          a.retried a.in_time a.answer a.relayed in
      ap (λ xs. run_attempts reading deadline 0 xs [] [] none) a.split
      ∙ ran
      ∙ ap
          (λ xs. ok (record {
            status_code = res.status_code;
            provider = res.provider;
            attempted_provider_ids = xs;
          }))
          (sym a.reported)

-- The providers that have an OpenAI base URL, in their order.
abbrev pub with_urls : List Provider → List Provider
with_urls [] = []
with_urls (p ∷ ps) = if p.has_openai_url then p ∷ with_urls ps else with_urls ps

urls-take : (n : ℕ) (ps : List Provider) → providers_with_openai_urls n ps ≡ take n (with_urls ps)
unfolding providers_with_openai_urls
urls-take zero [] = refl
urls-take zero (p ∷ ps) = refl
urls-take (suc n) [] = refl
urls-take (suc n) (p ∷ ps) = ground (arith, urls-take n ps, urls-take (suc n) ps)

-- For a positive budget and number of attempts, among the first providers with a base URL, as many
-- as asked for and at most three, the request is answered exactly where some attempts end before
-- the deadline without headers or with a status of the 500s, and the next begins in time and gets
-- headers, with any other status, or with one of the 500s where no provider or no time is left;
-- that answer is relayed, with the ids of all the providers tried.
pub relay_iff_IsAnswered :
    (reading : ℕ → Reading) (started_at budget max_attempts : ℕ) (providers : List Provider)
    (res : OpenAiProxyResult)
    → 1 ≤ max_attempts
    → 1 ≤ budget
    → (execute_openai_with_fallback reading started_at budget max_attempts providers ≡ ok res)
      ↔ IsAnswered reading
          (started_at + budget)
          0
          (take (min max_attempts 3) (with_urls providers))
          []
          res
unfolding execute_openai_with_fallback
relay_iff_IsAnswered reading started_at budget max_attempts providers res hm hb =
    let t1 : ltb max_attempts 1 ≡ false = ground arith in
    let t2 : leb budget 0 ≡ false = ground arith in
    rw (t1, t2, urls-take (min max_attempts 3) providers)
      (
        run-IsAnswered reading (started_at + budget) 0
            (take (min max_attempts 3) (with_urls providers)) [] [] none,
        run-of_IsAnswered reading (started_at + budget)
            (take (min max_attempts 3) (with_urls providers)) res,
      )
