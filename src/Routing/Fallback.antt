-- ===== src/Routing/Fallback.antt =====
-- src/pitwall/routing/fallback.py: a request is sent to one provider after the other until one
-- answers. Instants and the budget are counted in one unit of time. What is outside is given by
-- the number of the attempt: what the clock reads before and after the sending, and what the
-- sending gives. The callback `on_attempt`, which is told the ids, and the closing of responses
-- are left out.
pub mod Answers
pub mod Relay
use pitwall_gpu_broker.Prelude.Dict.{Dict, insert}
use pitwall_gpu_broker.Prelude.{
  ℕ, zero, suc, ◌+◌, min, String, Bool, true, false, not, ◌&&◌, ◌||◌, Option, none, some, List, [],
  ◌∷◌, ◌++◌, ltb, leb, if◌then◌else◌, Result, ok, err, raise_if, ◌>>◌,
}

pub record Provider : Type 0 where
  pub id : String
  pub has_openai_url : Bool

-- `_send_until_headers`: response headers with a status, or a timeout or transport error.
pub data Sent : Type 0 where
  response : ℕ → Sent
  failed : String → Sent

-- The clock before the attempt, what the attempt gives, and the clock after it.
pub record Reading : Type 0 where
  pub before : ℕ
  pub sent : Sent
  pub after : ℕ

pub record OpenAiProxyResult : Type 0 where
  pub status_code : ℕ
  pub provider : Provider
  pub attempted_provider_ids : List String

-- The texts in `attempted_errors`.
pub data AttemptError : Type 0 where
  transport : String → AttemptError
  http : ℕ → AttemptError

pub data FallbackError : Type 0 where
  bad_max_attempts bad_budget : FallbackError
  execution_error : List String → Option String → Dict AttemptError → FallbackError

-- `MAX_OPENAI_ATTEMPTS`
abbrev pub max_openai_attempts : ℕ
max_openai_attempts = 3

-- `_providers_with_openai_urls`, with the number that is still wanted.
pub providers_with_openai_urls : ℕ → List Provider → List Provider
providers_with_openai_urls n [] = []
providers_with_openai_urls zero (p ∷ ps) = []
providers_with_openai_urls (suc n) (p ∷ ps) =
    if p.has_openai_url
    then p ∷ providers_with_openai_urls n ps
    else providers_with_openai_urls (suc n) ps

-- `_is_retryable_response`
pub is_retryable_response : ℕ → Bool
is_retryable_response status_code = leb 500 status_code && ltb status_code 600

abbrev pub is_last {ℓ} : {A : Type ℓ} → List A → Bool
is_last [] = true
is_last (_ ∷ _) = false

module _ (reading : ℕ → Reading) (deadline : ℕ) where
  -- The loop, with the ids attempted so far, their errors and the last transport error.
  pub run_attempts :
      ℕ
      → List Provider
      → List String
      → Dict AttemptError
      → Option String
      → Result FallbackError OpenAiProxyResult
  unfolding is_retryable_response
  run_attempts index [] attempted errors last_error =
      err (execution_error attempted last_error errors)
  run_attempts index (p ∷ ps) attempted errors last_error =
      let r = reading index in
      let attempted' = attempted ++ p.id ∷ [] in
      if leb deadline r.before
      then err (execution_error attempted last_error errors)
      else elim r.sent [
        | failed text ↦
            let errors' = insert p.id (transport text) errors in
            if not (is_last ps) && ltb r.after deadline
            then run_attempts (index + 1) ps attempted' errors' (some text)
            else err (execution_error attempted' (some text) errors')
        | response status ↦
            let result : OpenAiProxyResult = record {
              status_code = status;
              provider = p;
              attempted_provider_ids = attempted';
            } in
            if not (is_retryable_response status)
            then ok result
            else if is_last ps || leb deadline r.after
            then ok result
            else run_attempts (index + 1) ps attempted' (insert p.id (http status) errors)
                last_error
      ]

pub execute_openai_with_fallback :
    (ℕ → Reading) → ℕ → ℕ → ℕ → List Provider → Result FallbackError OpenAiProxyResult
unfolding providers_with_openai_urls run_attempts
execute_openai_with_fallback reading started_at budget max_attempts providers = do
  raise_if (ltb max_attempts 1) bad_max_attempts
  raise_if (leb budget 0) bad_budget
  run_attempts reading (started_at + budget) 0
      (providers_with_openai_urls (min max_attempts max_openai_attempts) providers) [] [] none
