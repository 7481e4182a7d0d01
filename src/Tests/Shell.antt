-- ===== src/Tests/Shell.antt =====
-- The tokens of a command line.
use minios.Base.{◌≡◌, refl, true, [], ◌∷◌, List, ℕ}
use minios.Shell.{skip_white, take_word, take_redirect, take_plain, take_token, gettoken, peek}
use minios.Shell.Tokens.{IsToken, gettoken_lem}

-- " ls  >>x"
abbrev line : List ℕ
line = b' ' ∷ b'l' ∷ b's' ∷ b' ' ∷ b' ' ∷ b'>' ∷ b'>' ∷ b'x' ∷ []

gettoken_lem_example : IsToken line (gettoken line)
gettoken_lem_example = gettoken_lem line

first_token : gettoken line ≡ (b'a', b'l' ∷ b's' ∷ [], b'>' ∷ b'>' ∷ b'x' ∷ [])
unfolding gettoken take_token take_plain take_word skip_white
first_token = refl

second_token : gettoken (b'>' ∷ b'>' ∷ b'x' ∷ []) ≡ (b'+', b'>' ∷ b'>' ∷ [], b'x' ∷ [])
unfolding gettoken take_token take_redirect skip_white
second_token = refl

peek_skips :
    peek line (b'l' ∷ b'|' ∷ []) ≡ (true, b'l' ∷ b's' ∷ b' ' ∷ b' ' ∷ b'>' ∷ b'>' ∷ b'x' ∷ [])
unfolding peek skip_white
peek_skips = refl
