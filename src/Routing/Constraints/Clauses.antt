-- ===== src/Routing/Constraints/Clauses.antt =====
-- Each test of src/pitwall/routing/constraints.py against what it says of a provider.
use pitwall_gpu_broker.Routing.Constraints.{
  over, names_other, is_text, RoutingRequest, ProviderFacts, misses, any_of,
}
use pitwall_gpu_broker.Prelude.{
  ℕ, ◌*◌, ◌≤◌, String, ◌≡◌, refl, ap, ◌∙◌, subst, ◌↔◌, ◌⊎◌, inl, inr, Bool, true, false, not,
  Option, none, some, List, [], ◌∷◌, arith, eq_iff, Option-cases,
}

-- Some element of a list passes a test.
abbrev pub Some : (String → Bool) → List String → Type 0
Some test [] = ⊥
Some test (s ∷ ss) = (test s ≡ true) ⊎ Some test ss

pub any-Some : (test : String → Bool) (ss : List String) → (any_of test ss ≡ true) ↔ Some test ss
unfolding any_of
any-Some test [] = (λ h. cc h, λ h. absurd h)
any-Some test (s ∷ ss) = let rest = any-Some test ss in ground (arith, rest)

-- The provider is of the expected capability; where no id is expected, of the request's by name.
abbrev pub Serves : RoutingRequest → Option String → ProviderFacts → Type 0
Serves request (some expected) p = p.capability_id ≡ some expected
Serves request none p = elim p.capability_name [
  | some n ↦ n ≡ request.capability_name
  | none ↦ p.capability_id ≡ some request.capability_name
]

text_is : (o : Option String) (t : String) → is_text o t ≡ true → o ≡ some t
text_is none t h = cc h
text_is (some s) t h = ap some ((eq_iff s t).0 h)

pub found_if :
    (required found : Option String) (t : String)
    → misses required found ≡ false
    → required ≡ some t
    → found ≡ some t
found_if required none t h e = ground arith
found_if none (some s) t h e = cc e
found_if (some r) (some s) t h e =
    let same : r ≡ t = cc e in
    let same' : s ≡ r = (eq_iff s r).0 (ground arith) in ap some (same' ∙ same)

pub read_Serves :
    (request : RoutingRequest) (expected : Option String) (p : ProviderFacts)
    → (elim expected [ some i ↦ not (is_text p.capability_id i) | none ↦ names_other request p ])
      ≡ false
    → Serves request expected p
read_Serves request (some i) p h = text_is p.capability_id i (ground arith)
read_Serves request none p h = elim (Option-cases p.capability_name) [
  | inl e ↦ rw e (text_is p.capability_id request.capability_name (ground arith))
  | inr (n, e) ↦ rw e ((eq_iff n request.capability_name).0 (ground arith))
]

pub required_any :
    (required : Option String) (test : String → String → Bool) (ss : List String) (t : String)
    → (elim required [ none ↦ false | some r ↦ not (any_of (test r) ss) ]) ≡ false
    → required ≡ some t
    → Some (test t) ss
required_any none test ss t h e = cc e
required_any (some r) test ss t h e =
    let same : r ≡ t = cc e in
    subst (λ x. Some (test x) ss) same ((any-Some (test r) ss).0 (ground arith))

-- The other way round, for each kind of test.
is_text_of : (o : Option String) (t : String) → o ≡ some t → is_text o t ≡ true
is_text_of o t e = rw e ((eq_iff t t).1 refl)

pub no_miss :
    (required found : Option String)
    → ((t : String) → required ≡ some t → found ≡ some t)
    → misses required found ≡ false
no_miss none none h = refl
no_miss none (some s) h = refl
no_miss (some r) found h = let e = h r refl in let t = (eq_iff r r).1 refl in rw (e, t) refl

pub pass_Serves :
    (request : RoutingRequest) (expected : Option String) (p : ProviderFacts)
    → Serves request expected p
    → (elim expected [ some i ↦ not (is_text p.capability_id i) | none ↦ names_other request p ])
      ≡ false
pass_Serves request (some i) p h = ap not (is_text_of p.capability_id i h)
pass_Serves request none p h = elim (Option-cases p.capability_name) [
  | inl e ↦
      let h' : p.capability_id ≡ some request.capability_name = rw e at h in
      rw e (ap not (is_text_of p.capability_id request.capability_name h'))
  | inr (n, e) ↦
      let h' : n ≡ request.capability_name = rw e at h in
      rw e (ap not ((eq_iff n request.capability_name).1 h'))
]

pub any_passes :
    (required : Option String) (test : String → String → Bool) (ss : List String)
    → ((t : String) → required ≡ some t → Some (test t) ss)
    → (elim required [ none ↦ false | some r ↦ not (any_of (test r) ss) ]) ≡ false
any_passes none test ss h = refl
any_passes (some r) test ss h = ap not ((any-Some (test r) ss).1 (h r refl))

pub fits_of :
    (payload limit : Option ℕ)
    → ((b l : ℕ) → payload ≡ some b → limit ≡ some l → b * 1000000 ≤ l * 1048576)
    → over payload limit ≡ false
fits_of none limit h = refl
fits_of (some b) none h = refl
fits_of (some b) (some l) h = let le = h b l refl refl in ground arith
