-- ===== src/Shell/Tokens.antt =====
-- gettoken of user/sh.c.
use minios.Base.{
  ℕ, ◌<◌, ◌≤◌, ◌≡◌, ◌⊎◌, subst, inl, inr, refl, sym, ap, Bool, true, false, not, ◌&&◌, List, [],
  ◌∷◌, ◌++◌, ◌==◌, Bool-cases, length, length-append, arith,
}
use minios.Shell.{
  is_white, is_symbol, skip_white, take_word, Token, take_redirect, take_plain, take_token,
  gettoken,
}

abbrev pub all_white : List ℕ → Bool
all_white [] = true
all_white (c ∷ s) = is_white c && all_white s

abbrev pub starts_white : List ℕ → Bool
starts_white [] = false
starts_white (c ∷ s) = is_white c

abbrev pub all_plain : List ℕ → Bool
all_plain [] = true
all_plain (c ∷ s) = (not (is_white c) && not (is_symbol c)) && all_plain s

-- `s` is white space and then `rest`, which does not start with white space.
pub record Skipped (s rest : List ℕ) : Type 0 where
  pub blank : List ℕ
  pub is_blank : all_white blank ≡ true
  pub split : s ≡ blank ++ rest
  pub stops : starts_white rest ≡ false

skip_white-Skipped : (s : List ℕ) → Skipped s (skip_white s)
unfolding skip_white
skip_white-Skipped [] = record { blank = []; is_blank = refl; split = refl; stops = refl }
skip_white-Skipped (c ∷ s) = elim (Bool-cases (is_white c)) [
  | inl e ↦
      let rest = skip_white-Skipped s in
      rw e (record {
        blank = c ∷ rest.blank;
        is_blank = rw e rest.is_blank;
        split = ap (λ t. c ∷ t) rest.split;
        stops = rest.stops;
      })
  | inr e ↦ rw e (record { blank = []; is_blank = refl; split = refl; stops = e })
]

-- take_word splits the text where the plain characters end.
take_word_lem :
    (s : List ℕ) → (s ≡ (take_word s).0 ++ (take_word s).1) × (all_plain (take_word s).0 ≡ true)
unfolding take_word
take_word_lem [] = (refl, refl)
take_word_lem (c ∷ s) = elim (Bool-cases (not (is_white c) && not (is_symbol c))) [
  | inl e ↦ let (split, plain) = take_word_lem s in rw e (ap (λ t. c ∷ t) split, rw e plain)
  | inr e ↦ rw e (refl, refl)
]

-- The token that `t` has from the start of `s`: its characters, white space, and the rest. A token
-- `a` is a word.
pub record TokenAt (s : List ℕ) (t : Token) : Type 0 where
  pub after : List ℕ
  pub is_blank : all_white after ≡ true
  pub split : s ≡ t.1 ++ (after ++ t.2)
  pub stops : starts_white t.2 ≡ false
  pub moves : (s ≡ []) ⊎ (length t.2 < length s)
  pub kind : ((t.0 ≡ b'a') × (all_plain t.1 ≡ true)) ⊎ ((t.0 == b'a') ≡ false)

skip_white_le : (s : List ℕ) → length (skip_white s) ≤ length s
unfolding skip_white
skip_white_le [] = omega arith
skip_white_le (c ∷ s) = elim (Bool-cases (is_white c)) [
  | inl e ↦ rw e (omega (arith, skip_white_le s))
  | inr e ↦ rw e (omega arith)
]

token_at :
    (k : ℕ) (word u : List ℕ)
    → 0 < length word
    → ((k ≡ b'a') × (all_plain word ≡ true)) ⊎ ((k == b'a') ≡ false)
    → TokenAt (word ++ u) (k, word, skip_white u)
token_at k word u some_word kind =
    let rest = skip_white-Skipped u in
    record {
      after = rest.blank;
      is_blank = rest.is_blank;
      split = ap (λ t. word ++ t) rest.split;
      stops = rest.stops;
      moves = inr (omega (arith, skip_white_le u, length-append word u));
      kind = kind;
    }

take_redirect-TokenAt : (s : List ℕ) → TokenAt (b'>' ∷ s) (take_redirect s)
unfolding take_redirect skip_white
take_redirect-TokenAt [] = token_at b'>' (b'>' ∷ []) [] (omega arith) (inr refl)
take_redirect-TokenAt (c ∷ s) = elim (Bool-cases (c == b'>')) [
  | inl e ↦
      let at : c ≡ b'>' = ground arith in
      rw (at) (token_at b'+' (b'>' ∷ b'>' ∷ []) s (omega arith) (inr refl))
  | inr e ↦ rw e (token_at b'>' (b'>' ∷ []) (c ∷ s) (omega arith) (inr refl))
]

take_plain-TokenAt : (s : List ℕ) → 0 < length (take_word s).0 → TokenAt s (take_plain s)
unfolding take_plain
take_plain-TokenAt s some_word =
    let (split, plain) = take_word_lem s in
    subst (λ t. TokenAt t (take_plain s)) (sym split)
      (token_at b'a' (take_word s).0 (take_word s).1 some_word (inl (refl, plain)))

symbol_not_a : (c : ℕ) → is_symbol c ≡ true → (c == b'a') ≡ false
symbol_not_a c e = ground arith

take_token-TokenAt : (s : List ℕ) → starts_white s ≡ false → TokenAt s (take_token s)
unfolding take_token skip_white take_word
take_token-TokenAt [] stops = record {
  after = [];
  is_blank = refl;
  split = refl;
  stops = refl;
  moves = inl refl;
  kind = inr refl;
}
take_token-TokenAt (c ∷ s) stops = elim (Bool-cases (is_symbol c)) [
  | inl e ↦ elim (Bool-cases (c == b'>')) [
    | inl e' ↦ let at : c ≡ b'>' = ground arith in rw at (take_redirect-TokenAt s)
    | inr e' ↦ rw (e, e') (token_at c (c ∷ []) s (omega arith) (inr (symbol_not_a c e)))
  ]
  | inr e ↦
      let other : (c == b'>') ≡ false = ground arith in
      rw (e, other) (take_plain-TokenAt (c ∷ s) (rw (stops, e) (omega arith)))
]

-- What gettoken finds in `s`: `before` is the white space that it skips first.
pub record IsToken (s : List ℕ) (t : Token) : Type 0 where
  pub before : List ℕ
  pub white_before : all_white before ≡ true
  pub here : List ℕ
  pub split : s ≡ before ++ here
  pub token : TokenAt here t

-- gettoken takes a line apart and loses nothing: the line is white space, the characters of the
-- token, white space, and the rest, which does not start with white space; a token `a` has neither
-- white space nor a symbol in it; and the rest is shorter than the line behind its first white space,
-- unless there is nothing there.
pub gettoken_lem : (s : List ℕ) → IsToken s (gettoken s)
unfolding gettoken
gettoken_lem s =
    let rest = skip_white-Skipped s in
    record {
      before = rest.blank;
      white_before = rest.is_blank;
      here = skip_white s;
      split = rest.split;
      token = take_token-TokenAt (skip_white s) rest.stops;
    }
