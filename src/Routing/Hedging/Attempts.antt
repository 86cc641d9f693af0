-- ===== src/Routing/Hedging/Attempts.antt =====
-- The lists of attempts of src/pitwall/routing/hedging.py.
use pitwall_gpu_broker.Routing.Hedging.{AttemptError, AttemptOutcome, is_member, pop, still_running}
use pitwall_gpu_broker.Prelude.Dict.{Dict, lookup}
use pitwall_gpu_broker.Prelude.{
  false, ap, Bool-cases, All, ◌+◌, String, ◌≡◌, ◌∙◌, inl, inr, Bool, true, ◌||◌, some, List, [],
  ◌∷◌, ◌++◌, arith, eq_iff, str_eq, Option-cases, is_some, length, length-append,
}

-- An attempt is in a list, or its error is recorded.
abbrev pub tracked : List String → Dict AttemptError → String → Bool
tracked active errors p = is_member p active || is_some (lookup p errors)

pub member_append :
    (q p : String) (xs : List String)
    → is_member q (xs ++ (p ∷ [])) ≡ (is_member q xs || str_eq q p)
member_append q p [] = ground arith
member_append q p (x ∷ xs) = ground (arith, member_append q p xs)

pub length_snoc : (xs : List String) (p : String) → length (xs ++ (p ∷ [])) ≡ length xs + 1
length_snoc xs p = length-append xs (p ∷ []) ∙ omega arith

pub member_pop :
    (p q : String) (active rest : List String)
    → pop p active ≡ some rest
    → is_member q active ≡ true
    → (str_eq q p || is_member q rest) ≡ true
member_pop p q [] rest e h = cc h
member_pop p q (x ∷ xs) rest e h = elim (Option-cases (pop p xs)) [
  | inl gone ↦ ground (arith, eq_iff x p, eq_iff q x, eq_iff q p)
  | inr (r, found) ↦ ground (arith, eq_iff x p, eq_iff q x, eq_iff q p, member_pop p q xs r found)
]

pub length-pop :
    (p : String) (active rest : List String)
    → pop p active ≡ some rest
    → length active ≡ length rest + 1
length-pop p [] rest e = cc e
length-pop p (x ∷ xs) rest e = elim (Option-cases (pop p xs)) [
  | inl gone ↦ ground arith
  | inr (r, found) ↦ let n = length-pop p xs r found in ground arith
]

-- Where an attempt is active, it had ended or is among those that are stopped.
pub member-still_running :
    (q : String) (ended : Dict AttemptOutcome) (active : List String)
    → is_member q active ≡ true
    → (is_some (lookup q ended) || is_member q (still_running ended active)) ≡ true
member-still_running q ended [] h = cc h
member-still_running q ended (x ∷ xs) h = elim (Bool-cases (str_eq q x)) [
  | inl same ↦
      let eq = (eq_iff q x).0 same in
      elim (Bool-cases (is_some (lookup x ended))) [
        | inl done ↦ ground (arith, ap (λ k. is_some (lookup k ended)) eq)
        | inr runs ↦ rw runs (ground arith)
      ]
  | inr differ ↦
      let rest = member-still_running q ended xs (ground arith) in
      elim (Bool-cases (is_some (lookup x ended))) [
        | inl done ↦ rw done rest
        | inr runs ↦ rw runs (ground arith)
      ]
]

-- None of those that are stopped had ended.
pub still_running_lem :
    (ended : Dict AttemptOutcome) (active : List String)
    → All (λ q. is_some (lookup q ended) ≡ false) (still_running ended active)
still_running_lem ended [] = tt
still_running_lem ended (x ∷ xs) = elim (Bool-cases (is_some (lookup x ended))) [
  | inl done ↦ rw done (still_running_lem ended xs)
  | inr runs ↦ rw runs (runs, still_running_lem ended xs)
]
