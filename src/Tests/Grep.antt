-- ===== src/Tests/Grep.antt =====
-- Runs of the matcher, and a witness for the theorem on user/grep.c.
use minios.Base.{◌≡◌, ◌↔◌, refl, true, false, List, [], ◌∷◌, ℕ}
use minios.Grep.{match, matchhere, matchstar, match_one, match_from}
use minios.Grep.Pattern.{Matches, match_iff}

-- ^ab*c$
abbrev expression : List ℕ
expression = 94 ∷ 97 ∷ 98 ∷ 42 ∷ 99 ∷ 36 ∷ []

abbrev abbc : List ℕ
abbc = 97 ∷ 98 ∷ 98 ∷ 99 ∷ []

match-abbc : (match expression abbc ≡ true) × (match expression (99 ∷ abbc) ≡ false)
unfolding match matchhere matchstar match_one match_from
match-abbc = (refl, refl)

match_iff_example : (match expression abbc ≡ true) ↔ Matches expression abbc
match_iff_example = match_iff expression abbc
