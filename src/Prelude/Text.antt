-- ===== src/Prelude/Text.antt =====
-- Texts in front of one another.
use Prim.Native.Nat.{ℕ, zero, suc}
use Prim.Native.String.{String, [], ◌∷◌}

-- `text[:n]`
abbrev pub take_chars : ℕ → String → String
take_chars zero s = []
take_chars (suc n) [] = []
take_chars (suc n) (c ∷ s) = c ∷ take_chars n s

-- `f"{prefix}{text}"`
abbrev pub join_text : String → String → String
join_text [] text = text
join_text (c ∷ prefix) text = c ∷ join_text prefix text
