-- ===== src/Routing/Constraints/Met.antt =====
-- What a provider that passes src/pitwall/routing/constraints.py is known to offer.
use pitwall_gpu_broker.Routing.Constraints.Clauses.{
  Some, Serves, found_if, read_Serves, required_any, no_miss, pass_Serves, any_passes, fits_of,
}
use pitwall_gpu_broker.Routing.Planner.{Provider, CapacityKey}
use pitwall_gpu_broker.Routing.Planner.Chain.{plan_route}
use pitwall_gpu_broker.Routing.Planner.Chain.Plan.{plan_sound}
use pitwall_gpu_broker.Routing.Constraints.{
  Capability, RoutingRequest, ProviderFacts, expected_capability_id, has_capability_mismatch,
  has_region_mismatch, or_text, payload_limit, is_payload_too_large, version_at_least, gpu_matches,
  has_cuda_mismatch, has_gpu_class_mismatch, hard_constraint_reasons,
}
use pitwall_gpu_broker.Prelude.{All-imp, Returns, Returns-imp}
use pitwall_gpu_broker.Prelude.{
  ℕ, ◌*◌, ◌≤◌, String, ◌≡◌, refl, ◌↔◌, inl, inr, Bool, false, Option, some, List, [], arith, eq_iff,
  Option-cases, All,
}

module _ (version_tuple : String → Option (List ℕ)) (gpu_names_match : String → String → Bool)
    (request : RoutingRequest) (capability : Option Capability)
    (capability_id : Option String) where
  -- The provider meets the request.
  pub record IsMet (p : ProviderFacts) : Type 0 where
    pub named : (c : Capability) → capability ≡ some c → request.capability_name ≡ c.name
    pub serves : Serves request (expected_capability_id request capability capability_id) p
    pub region : (r : String) → request.required_region ≡ some r → p.region ≡ some r
    pub volume : (v : String) → request.required_volume_id ≡ some v → p.volume_id ≡ some v
    pub cuda :
        (v : String)
        → or_text request.required_cuda_min request.required_cuda_version ≡ some v
        → Some (λ c. version_at_least version_tuple gpu_names_match c v) p.cuda_versions
    pub gpu :
        (g : String)
        → request.required_gpu_class ≡ some g
        → Some (gpu_matches version_tuple gpu_names_match g) p.gpu_classes
    pub payload :
        (b l : ℕ)
        → request.payload_bytes ≡ some b
        → payload_limit p ≡ some l
        → b * 1000000 ≤ l * 1048576

  met_Serves :
      (p : ProviderFacts)
      → has_capability_mismatch request p capability capability_id ≡ false
      → Serves request (expected_capability_id request capability capability_id) p
  unfolding has_capability_mismatch
  met_Serves p h =
      read_Serves request (expected_capability_id request capability capability_id) p (ground arith)

  met-named :
      (p : ProviderFacts) (c : Capability)
      → has_capability_mismatch request p capability capability_id ≡ false
      → capability ≡ some c
      → request.capability_name ≡ c.name
  unfolding has_capability_mismatch
  met-named p c h e = ground (arith, eq_iff request.capability_name c.name)

  met-cuda :
      (p : ProviderFacts) (v : String)
      → has_cuda_mismatch version_tuple gpu_names_match request p ≡ false
      → or_text request.required_cuda_min request.required_cuda_version ≡ some v
      → Some (λ c. version_at_least version_tuple gpu_names_match c v) p.cuda_versions
  unfolding has_cuda_mismatch
  met-cuda p v h e =
      required_any (or_text request.required_cuda_min request.required_cuda_version)
        (λ r c. version_at_least version_tuple gpu_names_match c r) p.cuda_versions v h e

  met-gpu :
      (p : ProviderFacts) (g : String)
      → has_gpu_class_mismatch version_tuple gpu_names_match request p ≡ false
      → request.required_gpu_class ≡ some g
      → Some (gpu_matches version_tuple gpu_names_match g) p.gpu_classes
  unfolding has_gpu_class_mismatch
  met-gpu p g h e =
      required_any request.required_gpu_class (gpu_matches version_tuple gpu_names_match)
        p.gpu_classes g h e

  reasons-IsMet :
      (p : ProviderFacts)
      → hard_constraint_reasons version_tuple gpu_names_match request capability capability_id p
        ≡ []
      → IsMet p
  unfolding hard_constraint_reasons
  reasons-IsMet p h =
      let no_capability : has_capability_mismatch request p capability capability_id ≡ false =
        ground arith in
      let no_region : has_region_mismatch request p ≡ false = ground arith in
      let no_cuda : has_cuda_mismatch version_tuple gpu_names_match request p ≡ false =
        ground arith in
      let no_gpu : has_gpu_class_mismatch version_tuple gpu_names_match request p ≡ false =
        ground arith in
      let no_payload : is_payload_too_large request p ≡ false = ground arith in
      record {
        named = λ c. met-named p c no_capability;
        serves = met_Serves p no_capability;
        region = λ r.
            found_if request.required_region p.region r
              (unfold has_region_mismatch in ground arith);
        volume = λ v.
            found_if request.required_volume_id p.volume_id v
              (unfold has_region_mismatch in ground arith);
        cuda = λ v. met-cuda p v no_cuda;
        gpu = λ g. met-gpu p g no_gpu;
        payload = λ b l eb el. unfold is_payload_too_large in ground arith;
      }

  capability_pass :
      (p : ProviderFacts)
      → IsMet p
      → has_capability_mismatch request p capability capability_id ≡ false
  unfolding has_capability_mismatch
  capability_pass p h =
      let served =
        pass_Serves request (expected_capability_id request capability capability_id) p h.serves in
      elim (Option-cases capability) [
        | inl e ↦ ground arith
        | inr (c, e) ↦
            let same = (eq_iff request.capability_name c.name).1 (h.named c e) in ground arith
      ]

  region_pass : (p : ProviderFacts) → IsMet p → has_region_mismatch request p ≡ false
  unfolding has_region_mismatch
  region_pass p h =
      let here = no_miss request.required_region p.region h.region in
      let mounted = no_miss request.required_volume_id p.volume_id h.volume in
      rw (here, mounted) refl

  cuda_pass :
      (p : ProviderFacts)
      → IsMet p
      → has_cuda_mismatch version_tuple gpu_names_match request p ≡ false
  unfolding has_cuda_mismatch
  cuda_pass p h =
      any_passes (or_text request.required_cuda_min request.required_cuda_version)
        (λ r c. version_at_least version_tuple gpu_names_match c r) p.cuda_versions h.cuda

  gpu_pass :
      (p : ProviderFacts)
      → IsMet p
      → has_gpu_class_mismatch version_tuple gpu_names_match request p ≡ false
  unfolding has_gpu_class_mismatch
  gpu_pass p h =
      any_passes request.required_gpu_class (gpu_matches version_tuple gpu_names_match)
        p.gpu_classes h.gpu

  payload_pass : (p : ProviderFacts) → IsMet p → is_payload_too_large request p ≡ false
  unfolding is_payload_too_large
  payload_pass p h = fits_of request.payload_bytes (payload_limit p) h.payload

  IsMet-reasons :
      (p : ProviderFacts)
      → IsMet p
      → hard_constraint_reasons version_tuple gpu_names_match request capability capability_id p
        ≡ []
  unfolding hard_constraint_reasons
  IsMet-reasons p h =
      let c1 = capability_pass p h in
      let c2 = region_pass p h in
      let c3 = cuda_pass p h in
      let c4 = gpu_pass p h in let c5 = payload_pass p h in rw (c1, c2, c3, c4, c5) refl

  -- Stage 1 has no reason against a provider exactly where the provider meets the request: it is of
  -- the expected capability, in the required region, with the required volume, a CUDA version and a
  -- GPU class that will do, and a limit that takes the payload.
  pub reasons_iff_IsMet :
      (p : ProviderFacts)
      → (hard_constraint_reasons version_tuple gpu_names_match request capability capability_id p
          ≡ [])
        ↔ IsMet p
  reasons_iff_IsMet p = (reasons-IsMet p, IsMet-reasons p)

  -- With the hard constraints as stage 1, and where at least one attempt is asked for, every
  -- attempt of a plan is at a provider that meets the request: it serves the capability, is in the
  -- required region, has the required volume, a CUDA version and a GPU class that will do, and takes
  -- the payload.
  pub plan-IsMet :
      (facts : Provider → ProviderFacts) (cache : CapacityKey → Option Bool)
      (now max_attempts base : ℕ) (providers : List Provider)
      → 1 ≤ max_attempts
      → Returns
          (plan_route
            (λ p.
              hard_constraint_reasons version_tuple gpu_names_match request capability capability_id
                (facts p))
            cache
            now
            max_attempts
            base
            providers)
          (λ plan. All (λ a. IsMet (facts a.provider)) plan.attempts)
  plan-IsMet facts cache now max_attempts base providers h =
      let constraints = λ (p : Provider).
        hard_constraint_reasons version_tuple gpu_names_match request capability capability_id
          (facts p) in
      Returns-imp _ (plan_route constraints cache now max_attempts base providers)
        (plan_sound constraints cache now max_attempts base providers h)
        (λ plan sound.
          All-imp (λ a routable. reasons-IsMet (facts a.provider) routable.1.constrained)
            plan.attempts sound.0)
