-- ===== src/Prelude/Sort.antt =====
-- A stable sort by a Boolean comparison, as Python's `sorted`, with what it promises; and the
-- lexicographic comparison of texts by their code points.
use mathlib.Core.List.{Perm}
use mathlib.Core.List.Perm
use Prim.Native.Nat.{ℕ}
use Prim.Native.Char.{code}
use Prim.Native.String.{String}
use mathlib.Core.Path.{◌≡◌, refl, sym}
use mathlib.Core.Logic.{◌≢◌, inl, inr}
use mathlib.Core.Bool.{Bool, true, false}
use mathlib.Core.List.{List, [], ◌∷◌}
use native.Mathlib.Omega.{arith}
use pitwall_gpu_broker.Prelude.Tests.{ltb, ◌==◌, if◌then◌else◌, Bool-cases}
use pitwall_gpu_broker.Prelude.Lists.{All, Distinct}

pub record IsTotalOrder {ℓ} {A : Type ℓ} (le : A → A → Bool) : Type ℓ where
  pub total : (a b : A) → le a b ≡ false → le b a ≡ true
  pub trans : (a b c : A) → le a b ≡ true → le b c ≡ true → le a c ≡ true

module _ {ℓ} {A : Type ℓ} (le : A → A → Bool) where
  unfoldable pub insert : A → List A → List A
  insert x [] = x ∷ []
  insert x (y ∷ ys) = if le x y then x ∷ y ∷ ys else y ∷ insert x ys

  unfoldable pub sort : List A → List A
  sort [] = []
  sort (x ∷ xs) = insert x (sort xs)

  abbrev pub IsSorted : List A → Type 0
  IsSorted [] = Unit
  IsSorted (x ∷ xs) = All (λ y. le x y ≡ true) xs × IsSorted xs

  insert-perm : (x : A) (ys : List A) → Perm (insert x ys) (x ∷ ys)
  unfolding insert
  insert-perm x [] = Perm.refl (x ∷ [])
  insert-perm x (y ∷ ys) = elim (Bool-cases (le x y)) [
    | inl e ↦ rw e (Perm.refl (x ∷ y ∷ ys))
    | inr e ↦ rw e (Perm.trans (Perm.cons y (insert-perm x ys)) (Perm.swap x y ys))
  ]

  -- The result has the elements of the input, each as often.
  pub sort-perm : (xs : List A) → Perm (sort xs) xs
  unfolding sort
  sort-perm [] = Perm.refl []
  sort-perm (x ∷ xs) = Perm.trans (insert-perm x (sort xs)) (Perm.cons x (sort-perm xs))

module _ {ℓ} {A : Type ℓ} {le : A → A → Bool} (o : IsTotalOrder le) where
  All-le :
      (x y : A) (ys : List A)
      → le x y ≡ true
      → All (λ z. le y z ≡ true) ys
      → All (λ z. le x z ≡ true) ys
  All-le x y [] h t = tt
  All-le x y (z ∷ ys) h t = (o.trans x y z h t.0, All-le x y ys h t.1)

  All-insert :
      (x z : A) (ys : List A)
      → le z x ≡ true
      → All (λ w. le z w ≡ true) ys
      → All (λ w. le z w ≡ true) (insert le x ys)
  unfolding insert
  All-insert x z [] h t = (h, tt)
  All-insert x z (y ∷ ys) h t = elim (Bool-cases (le x y)) [
    | inl e ↦ rw e (h, t)
    | inr e ↦ rw e (t.0, All-insert x z ys h t.1)
  ]

  insert-IsSorted : (x : A) (ys : List A) → IsSorted le ys → IsSorted le (insert le x ys)
  unfolding insert
  insert-IsSorted x [] s = (tt, tt)
  insert-IsSorted x (y ∷ ys) s = elim (Bool-cases (le x y)) [
    | inl e ↦ rw e ((e, All-le x y ys e s.0), s)
    | inr e ↦ rw e (All-insert x y ys (o.total x y e) s.0, insert-IsSorted x ys s.1)
  ]

  pub sort-IsSorted : (xs : List A) → IsSorted le (sort le xs)
  unfolding sort
  sort-IsSorted [] = tt
  sort-IsSorted (x ∷ xs) = insert-IsSorted x (sort le xs) (sort-IsSorted xs)

-- A property of all elements survives sorting, in both directions.
module _ {ℓ κ} {A : Type ℓ} (le : A → A → Bool) (P : A → Type κ) where
  All-insert_of : (x : A) (ys : List A) → P x → All P ys → All P (insert le x ys)
  unfolding insert
  All-insert_of x [] h t = (h, tt)
  All-insert_of x (y ∷ ys) h t = elim (Bool-cases (le x y)) [
    | inl e ↦ rw e (h, t)
    | inr e ↦ rw e (t.0, All-insert_of x ys h t.1)
  ]

  All-of_insert : (x : A) (ys : List A) → All P (insert le x ys) → P x × All P ys
  unfolding insert
  All-of_insert x [] h = h
  All-of_insert x (y ∷ ys) h = elim (Bool-cases (le x y)) [
    | inl e ↦ rw e at h
    | inr e ↦
        let h' : P y × All P (insert le x ys) = rw e at h in
        let (hx, hys) = All-of_insert x ys h'.1 in (hx, (h'.0, hys))
  ]

  pub All-sort : (xs : List A) → All P xs → All P (sort le xs)
  unfolding sort
  All-sort [] h = tt
  All-sort (x ∷ xs) h = All-insert_of x (sort le xs) h.0 (All-sort xs h.1)

  pub All-of_sort : (xs : List A) → All P (sort le xs) → All P xs
  unfolding sort
  All-of_sort [] h = tt
  All-of_sort (x ∷ xs) h =
      let (hx, hxs) = All-of_insert x (sort le xs) h in (hx, All-of_sort xs hxs)

module _ {ℓ κ} {A : Type ℓ} {K : Type κ} (le : A → A → Bool) (key : A → K) where
  insert-Distinct :
      (x : A) (ys : List A)
      → All (λ y. key y ≢ key x) ys
      → Distinct key ys
      → Distinct key (insert le x ys)
  unfolding insert
  insert-Distinct x [] new d = (tt, tt)
  insert-Distinct x (y ∷ ys) new d = elim (Bool-cases (le x y)) [
    | inl e ↦ rw e (new, d)
    | inr e ↦ rw e (
      All-insert_of le (λ z. key z ≢ key y) x ys (λ same. new.0 (sym same)) d.0,
      insert-Distinct x ys new.1 d.1,
    )
  ]

  pub sort-Distinct : (xs : List A) → Distinct key xs → Distinct key (sort le xs)
  unfolding sort
  sort-Distinct [] d = tt
  sort-Distinct (x ∷ xs) d =
      insert-Distinct x (sort le xs) (All-sort le (λ y. key y ≢ key x) xs d.0)
        (sort-Distinct xs d.1)

-- The code points of a text.
abbrev pub codes : String → List ℕ
codes String.[] = []
codes (String.◌∷◌ c s) = code c ∷ codes s

unfoldable pub codes_leb : List ℕ → List ℕ → Bool
codes_leb [] ys = true
codes_leb (x ∷ xs) [] = false
codes_leb (x ∷ xs) (y ∷ ys) = if ltb x y then true else if x == y then codes_leb xs ys else false

-- Python's `<=` on `str`.
unfoldable pub text_leb : String → String → Bool
unfolding codes_leb
text_leb s t = codes_leb (codes s) (codes t)

codes_leb_total : (xs ys : List ℕ) → codes_leb xs ys ≡ false → codes_leb ys xs ≡ true
unfolding codes_leb
codes_leb_total [] ys h = cc
codes_leb_total (x ∷ xs) [] h = refl
codes_leb_total (x ∷ xs) (y ∷ ys) h = ground (arith, codes_leb_total xs ys)

codes_leb_trans :
    (xs ys zs : List ℕ) → codes_leb xs ys ≡ true → codes_leb ys zs ≡ true → codes_leb xs zs ≡ true
unfolding codes_leb
codes_leb_trans [] ys zs h k = refl
codes_leb_trans (x ∷ xs) [] zs h k = cc
codes_leb_trans (x ∷ xs) (y ∷ ys) [] h k = cc
codes_leb_trans (x ∷ xs) (y ∷ ys) (z ∷ zs) h k = ground (arith, codes_leb_trans xs ys zs)

pub text_leb-IsTotalOrder : IsTotalOrder text_leb
unfolding text_leb
text_leb-IsTotalOrder = record {
  total = λ s t. codes_leb_total (codes s) (codes t);
  trans = λ s t u. codes_leb_trans (codes s) (codes t) (codes u);
}

-- Two texts that come before one another have the same code points.
pub codes_leb_antisymm :
    (xs ys : List ℕ) → codes_leb xs ys ≡ true → codes_leb ys xs ≡ true → xs ≡ ys
unfolding codes_leb
codes_leb_antisymm [] [] h k = refl
codes_leb_antisymm [] (y ∷ ys) h k = cc
codes_leb_antisymm (x ∷ xs) [] h k = cc
codes_leb_antisymm (x ∷ xs) (y ∷ ys) h k = ground (arith, codes_leb_antisymm xs ys)
