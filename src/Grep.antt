-- ===== src/Grep.antt =====
-- user/grep.c: the matcher of regular expressions. A string is the list of its characters before
-- the NUL.
pub mod Pattern
use minios.Base.{ℕ, Bool, true, false, ◌||◌, List, [], ◌∷◌, ◌==◌, if◌then◌else◌}

-- The characters with a meaning: `^`, `$`, `.`, `*`.
abbrev pub caret : ℕ
caret = 94

abbrev pub dollar : ℕ
dollar = 36

abbrev pub dot : ℕ
dot = 46

abbrev pub asterisk : ℕ
asterisk = 42

-- The do-while loop of matchstar, where `here` is matchhere of the rest of the expression.
unfoldable pub matchstar : ℕ → (List ℕ → Bool) → List ℕ → Bool
matchstar c here [] = here []
matchstar c here (x ∷ text) =
    let rest = matchstar c here text in
    if here (x ∷ text) then true else if x == c || c == dot then rest else false

-- if(*text!='\0' && (re[0]=='.' || re[0]==*text)) return matchhere(re+1, text+1); return 0;
unfoldable pub match_one : ℕ → (List ℕ → Bool) → List ℕ → Bool
match_one c here [] = false
match_one c here (x ∷ text) = if c == dot || c == x then here text else false

unfoldable pub matchhere : List ℕ → List ℕ → Bool
unfolding matchstar match_one
matchhere [] text = true
matchhere (c ∷ []) text =
    if c == dollar then elim text [ [] ↦ true | x ∷ t ↦ false ] else match_one c (λ t. true) text
matchhere (c ∷ d ∷ re) text =
    if d == asterisk then matchstar c (matchhere re) text else match_one c (matchhere (d ∷ re)) text

-- The do-while loop of match, which also looks at the empty string.
unfoldable pub match_from : List ℕ → List ℕ → Bool
match_from re [] = matchhere re []
match_from re (x ∷ text) =
    let rest = match_from re text in if matchhere re (x ∷ text) then true else rest

unfoldable pub match : List ℕ → List ℕ → Bool
unfolding match_from
match [] text = match_from [] text
match (c ∷ re) text = if c == caret then matchhere re text else match_from (c ∷ re) text
