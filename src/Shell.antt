-- ===== src/Shell.antt =====
-- user/sh.c: the tokens of a command line. A text is the list of the characters from `*ps` up to
-- `es`, where the NUL stands.
pub mod Tokens
use minios.Base.{ℕ, Bool, true, false, not, ◌&&◌, ◌||◌, List, [], ◌∷◌, ◌==◌, if◌then◌else◌}

-- strchr(whitespace, c) and strchr(symbols, c)
abbrev pub is_white : ℕ → Bool
is_white c = c == b' ' || c == 9 || c == 13 || c == 10 || c == 11

abbrev pub is_symbol : ℕ → Bool
is_symbol c =
    c == b'<' || c == b'|' || c == b'>' || c == b'&' || c == b';' || c == b'(' || c == b')'

-- while(s < es && strchr(whitespace, *s)) s++;
unfoldable pub skip_white : List ℕ → List ℕ
skip_white [] = []
skip_white (c ∷ s) = let rest = skip_white s in if is_white c then rest else c ∷ s

-- The loop of the default case: the word and what follows it.
unfoldable pub take_word : List ℕ → List ℕ × List ℕ
take_word [] = ([], [])
take_word (c ∷ s) =
    let (word, rest) = take_word s in
    if not (is_white c) && not (is_symbol c) then (c ∷ word, rest) else ([], c ∷ s)

-- What gettoken returns, the characters from `*q` to `*eq`, and those from the new `*ps` on.
abbrev pub Token : Type 0
Token = ℕ × List ℕ × List ℕ

-- The case '>'.
unfoldable pub take_redirect : List ℕ → Token
take_redirect [] = (b'>', b'>' ∷ [], [])
take_redirect (c ∷ s) =
    if c == b'>'
    then (b'+', b'>' ∷ b'>' ∷ [], skip_white s)
    else (b'>', b'>' ∷ [], skip_white (c ∷ s))

unfoldable pub take_plain : List ℕ → Token
take_plain s = let (word, rest) = take_word s in (b'a', word, skip_white rest)

-- The switch.
unfoldable pub take_token : List ℕ → Token
take_token [] = (0, [], [])
take_token (c ∷ s) =
    if c == b'>'
    then take_redirect s
    else if is_symbol c
    then (c, c ∷ [], skip_white s)
    else take_plain (c ∷ s)

unfoldable pub gettoken : List ℕ → Token
gettoken s = take_token (skip_white s)

-- Whether the next character is one of `toks`, and the new `*ps`.
abbrev pub is_one_of : ℕ → List ℕ → Bool
is_one_of c [] = false
is_one_of c (d ∷ toks) = c == d || is_one_of c toks

abbrev pub starts_with : List ℕ → List ℕ → Bool
starts_with [] toks = false
starts_with (c ∷ s) toks = is_one_of c toks

unfoldable pub peek : List ℕ → List ℕ → Bool × List ℕ
peek s toks = let rest = skip_white s in (starts_with rest toks, rest)
