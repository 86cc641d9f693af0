-- ===== src/Prelude/Permute.antt =====
-- A sort does not see the order of its input, where no two of the elements are equal in the order.
use mathlib.Core.List.{Permᴰ}
use mathlib.Core.Path.{◌≡◌, refl, sym, ◌∙◌, subst}
use mathlib.Core.Bool.{Bool, true, false, ◌&&◌}
use mathlib.Core.List.{List, [], ◌∷◌}
use Prim.Native.String.{String}
use native.Mathlib.Omega.{arith}
use text.Mathlib.TextEquality.{Char-path}
use pitwall_gpu_broker.Prelude.Lists.{All}
use pitwall_gpu_broker.Prelude.Sort.{
  IsTotalOrder, insert, sort, codes, codes_leb_antisymm, text_leb,
}

codes-injective : (s t : String) → codes s ≡ codes t → s ≡ t
codes-injective String.[] String.[] h = refl
codes-injective String.[] (String.◌∷◌ d t) h = cc h
codes-injective (String.◌∷◌ c s) String.[] h = cc h
codes-injective (String.◌∷◌ c s) (String.◌∷◌ d t) h =
    let e = Char-path c d (cc h) in let e' = codes-injective s t (cc h) in cc (e, e')

pub text_leb_antisymm : (s t : String) → text_leb s t ≡ true → text_leb t s ≡ true → s ≡ t
unfolding text_leb
text_leb_antisymm s t h k = codes-injective s t (codes_leb_antisymm (codes s) (codes t) h k)

module _ {ℓ} {A : Type ℓ} (le : A → A → Bool) where
  -- Not equal in the order.
  abbrev pub IsApart : A → A → Type 0
  IsApart x y = (le x y && le y x) ≡ false

  abbrev pub AllApart : List A → Type 0
  AllApart [] = Unit
  AllApart (x ∷ xs) = All (IsApart x) xs × AllApart xs

  IsApart-sym : (x y : A) → IsApart x y → IsApart y x
  IsApart-sym x y h = ground arith

  All-perm : (P : A → Type 0) {xs ys : List A} → Permᴰ xs ys → All P xs → All P ys
  All-perm P Permᴰ.nil h = tt
  All-perm P (Permᴰ.cons e p) h = (subst P e h.0, All-perm P p h.1)
  All-perm P (Permᴰ.swap e e') h = (subst P e' h.1.0, (subst P e h.0, h.1.1))
  All-perm P (Permᴰ.trans p q) h = All-perm P q (All-perm P p h)

  AllApart-swap :
      (a b a' b' : A) (l : List A) → a ≡ b' → b ≡ a' → AllApart (a ∷ b ∷ l) → AllApart (a' ∷ b' ∷ l)
  AllApart-swap a b a' b' l e e' h =
      let first =
        subst (λ z. IsApart z b') e' (subst (λ z. IsApart b z) e (IsApart-sym a b h.0.0)) in
      let all =
        λ (x y : A) (same : x ≡ y) (k : All (IsApart x) l). subst (λ z. All (IsApart z) l) same k in
      ((first, all b a' e' h.1.0), (all a b' e h.0.1, h.1.1))

  pub AllApart-perm : {xs ys : List A} → Permᴰ xs ys → AllApart xs → AllApart ys
  AllApart-perm Permᴰ.nil h = tt
  AllApart-perm (Permᴰ.cons {b = b} {l₂ = ys} e p) h =
      (subst (λ z. All (IsApart z) ys) e (All-perm (IsApart _) p h.0), AllApart-perm p h.1)
  AllApart-perm (Permᴰ.swap {a = a} {b = b} {a' = a'} {b' = b'} {l = l} e e') h =
      AllApart-swap a b a' b' l e e' h
  AllApart-perm (Permᴰ.trans p q) h = AllApart-perm q (AllApart-perm p h)

module _ {ℓ} {A : Type ℓ} {le : A → A → Bool} (o : IsTotalOrder le) where
  insert-commute :
      (x y : A) (zs : List A)
      → IsApart le x y
      → insert le x (insert le y zs) ≡ insert le y (insert le x zs)
  unfolding insert
  insert-commute x y [] h = ground (arith, o.total x y)
  insert-commute x y (z ∷ zs) h = ground (
    arith,
    o.total x y,
    o.total y x,
    o.total x z,
    o.total y z,
    o.trans x y z,
    o.trans y x z,
    insert-commute x y zs,
  )

  sort-swap :
      (a b a' b' : A) (l : List A)
      → a ≡ b'
      → b ≡ a'
      → IsApart le a b
      → sort le (a ∷ b ∷ l) ≡ sort le (a' ∷ b' ∷ l)
  unfolding sort
  sort-swap a b a' b' l e e' h = rw (sym e, sym e') (insert-commute a b (sort le l) h)

  pub sort-of_perm : {xs ys : List A} → Permᴰ xs ys → AllApart le xs → sort le xs ≡ sort le ys
  unfolding sort
  sort-of_perm Permᴰ.nil h = refl
  sort-of_perm (Permᴰ.cons e p) h = let same = sort-of_perm p h.1 in rw (e, same) refl
  sort-of_perm (Permᴰ.swap {a = a} {b = b} {a' = a'} {b' = b'} {l = l} e e') h =
      sort-swap a b a' b' l e e' h.0.0
  sort-of_perm (Permᴰ.trans p q) h = sort-of_perm p h ∙ sort-of_perm q (AllApart-perm le p h)
