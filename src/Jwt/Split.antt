-- ===== src/Jwt/Split.antt =====
-- The segments of a token.
use rust_zero.Prelude.{◌≡◌, sym, ap, ◌∙◌, [], ◌∷◌, ◌++◌}
use rust_zero.Prelude.Texts.{Text, split, joined, joined-split}
use rust_zero.Jwt.{dot}

-- A text that splits in three is its segments with a dot between them.
pub split-three : (t a b c : Text) → split dot t ≡ a ∷ b ∷ c ∷ [] → t ≡ a ++ dot ∷ (b ++ dot ∷ c)
split-three t a b c e = sym (joined-split dot t) ∙ ap (joined dot) e
