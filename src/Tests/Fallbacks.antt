-- ===== src/Tests/Fallbacks.antt =====
-- Tests of the OpenAI fallback (src/pitwall/routing/fallback.py).
use pitwall_gpu_broker.Routing.Fallback.{
  Provider, Reading, response, OpenAiProxyResult, execute_openai_with_fallback,
}
use pitwall_gpu_broker.Routing.Fallback.Answers.{IsAnswered}
use pitwall_gpu_broker.Routing.Fallback.Relay.{with_urls, relay_iff_IsAnswered}
use pitwall_gpu_broker.Prelude.{
  ℕ, ◌≡◌, ◌↔◌, true, false, List, [], ◌∷◌, arith, ◌==◌, if◌then◌else◌, take, ok,
}

abbrev upstreams : List Provider
upstreams =
    record { id = "p1"; has_openai_url = true }
    ∷ record { id = "p2"; has_openai_url = false }
    ∷ record { id = "p3"; has_openai_url = true }
    ∷ []

abbrev reading : ℕ → Reading
reading n =
    if n == 0
    then record { before = 1; sent = response 503; after = 2 }
    else record { before = 3; sent = response 404; after = 4 }

abbrev relayed : OpenAiProxyResult
relayed = record {
  status_code = 404;
  provider = record { id = "p3"; has_openai_url = true };
  attempted_provider_ids = "p1" ∷ "p3" ∷ [];
}

relay_iff_IsAnswered_example :
    (execute_openai_with_fallback reading 0 5 3 upstreams ≡ ok relayed)
    ↔ IsAnswered reading 5 0 (take 3 (with_urls upstreams)) [] relayed
relay_iff_IsAnswered_example =
    relay_iff_IsAnswered reading 0 5 3 upstreams relayed (omega arith) (omega arith)
