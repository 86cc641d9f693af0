-- ===== src/Prelude/Lex.antt =====
-- The order of Python's tuples: the first components, then, where they are equal, the rest.
use Prim.Native.Nat.{ℕ}
use Prim.Native.String.{String}
use mathlib.Core.Bool.{Bool, true, false}
use native.Mathlib.Omega.{arith}
use pitwall_gpu_broker.Prelude.Tests.{leb, if◌then◌else◌}
use pitwall_gpu_broker.Prelude.Sort.{IsTotalOrder, text_leb, text_leb-IsTotalOrder}

module _ {ℓ} {A : Type ℓ} where
  abbrev pub lex : (A → A → Bool) → (A → A → Bool) → A → A → Bool
  lex first rest a b = if first a b then (if first b a then rest a b else true) else false

  -- By a number, by a number from the greatest down, and by a text.
  abbrev pub by_number : (A → ℕ) → A → A → Bool
  by_number f a b = leb (f a) (f b)

  abbrev pub by_number_down : (A → ℕ) → A → A → Bool
  by_number_down f a b = leb (f b) (f a)

  abbrev pub by_text : (A → String) → A → A → Bool
  by_text f a b = text_leb (f a) (f b)

  pub lex-IsTotalOrder :
      {first rest : A → A → Bool}
      → IsTotalOrder first
      → IsTotalOrder rest
      → IsTotalOrder (lex first rest)
  lex-IsTotalOrder o p = record {
    total = λ a b h. ground (arith, o.total a b, p.total a b);
    trans = λ a b c h k. ground (arith, o.trans a b c, o.trans c a b, o.trans b c a, p.trans a b c);
  }

  pub by_number-IsTotalOrder : (f : A → ℕ) → IsTotalOrder (by_number f)
  by_number-IsTotalOrder f = record {
    total = λ a b h. ground arith;
    trans = λ a b c h k. ground arith;
  }

  pub by_number_down-IsTotalOrder : (f : A → ℕ) → IsTotalOrder (by_number_down f)
  by_number_down-IsTotalOrder f = record {
    total = λ a b h. ground arith;
    trans = λ a b c h k. ground arith;
  }

  pub by_text-IsTotalOrder : (f : A → String) → IsTotalOrder (by_text f)
  by_text-IsTotalOrder f = record {
    total = λ a b. text_leb-IsTotalOrder.total (f a) (f b);
    trans = λ a b c. text_leb-IsTotalOrder.trans (f a) (f b) (f c);
  }
