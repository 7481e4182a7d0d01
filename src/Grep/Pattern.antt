-- ===== src/Grep/Pattern.antt =====
-- What an expression of user/grep.c matches, and that the matcher decides it.
use mathlib.Core.Bool.{false≢true}
use minios.Base.{
  ℕ, ◌≡◌, ◌≢◌, ◌↔◌, ◌⊎◌, refl, Bool, true, false, ◌||◌, List, [], ◌∷◌, ◌++◌, ◌==◌, arith, All, ap,
  sym, subst, Bool-cases, inl, inr,
}
use minios.Grep.{caret, dollar, dot, asterisk, matchstar, match_one, matchhere, match_from, match}

-- A character that stands for itself, or a dot.
abbrev pub Fits : ℕ → ℕ → Type 0
Fits c x = (c == dot || c == x) ≡ true

abbrev pub starred : List ℕ → Bool
starred [] = false
starred (d ∷ re) = d == asterisk

abbrev pub is_end : ℕ → List ℕ → Bool
is_end c [] = c == dollar
is_end c (d ∷ re) = false

-- The texts with a front that the expression matches.
pub data Here : List ℕ → List ℕ → Type 0 where
  done : (text : List ℕ) → Here [] text
  end : Here (dollar ∷ []) []
  one :
      (c x : ℕ) (re text : List ℕ)
      → starred re ≡ false
      → is_end c re ≡ false
      → Fits c x
      → Here re text
      → Here (c ∷ re) (x ∷ text)
  star :
      (c : ℕ) (re xs text : List ℕ)
      → All (Fits c) xs
      → Here re text
      → Here (c ∷ asterisk ∷ re) (xs ++ text)

matchstar_found :
    (c : ℕ) (here : List ℕ → Bool) (t : List ℕ)
    → matchstar c here t ≡ true
    → (xs : List ℕ) × (u : List ℕ) × (t ≡ xs ++ u) × All (Fits c) xs × (here u ≡ true)
unfolding matchstar
matchstar_found c here [] h = ([], [], refl, tt, h)
matchstar_found c here (x ∷ t) h = elim (Bool-cases (here (x ∷ t))) [
  | inl e ↦ ([], x ∷ t, refl, tt, e)
  | inr e ↦
      let fits : Fits c x = ground arith in
      let on : matchstar c here t ≡ true = ground arith in
      let (xs, u, split, all, found) = matchstar_found c here t on in
      (x ∷ xs, u, ap (λ l. x ∷ l) split, (fits, all), found)
]

matchstar_finds :
    (c : ℕ) (here : List ℕ → Bool) (xs u : List ℕ)
    → All (Fits c) xs
    → here u ≡ true
    → matchstar c here (xs ++ u) ≡ true
unfolding matchstar
matchstar_finds c here [] [] all h = h
matchstar_finds c here [] (x ∷ u) all h = rw h refl
matchstar_finds c here (x ∷ xs) u (fits, all) h =
    let on = matchstar_finds c here xs u all h in ground arith

match_one_found :
    (c : ℕ) (here : List ℕ → Bool) (x : ℕ) (t : List ℕ)
    → match_one c here (x ∷ t) ≡ true
    → Fits c x × (here t ≡ true)
unfolding match_one
match_one_found c here x t h = elim (Bool-cases (c == dot || c == x)) [
  | inl e ↦ (e, ground arith)
  | inr e ↦ absurd (false≢true (ground arith))
]

match_one_none : (c : ℕ) (here : List ℕ → Bool) → match_one c here [] ≡ false
unfolding match_one
match_one_none c here = refl

Here-star :
    (c d : ℕ) (re text : List ℕ) (xs u : List ℕ)
    → d ≡ asterisk
    → text ≡ xs ++ u
    → All (Fits c) xs
    → Here re u
    → Here (c ∷ d ∷ re) text
Here-star c d re text xs u e split all h =
    subst (λ d. Here (c ∷ d ∷ re) text) (sym e)
      (subst (λ t. Here (c ∷ asterisk ∷ re) t) (sym split) (Here.star c re xs u all h))

pub matchhere-Here : (re text : List ℕ) → matchhere re text ≡ true → Here re text
unfolding matchhere
matchhere-Here [] text h = Here.done text
matchhere-Here (c ∷ []) [] h = elim (Bool-cases (c == dollar)) [
  | inl e ↦ subst (λ c. Here (c ∷ []) []) (ground arith) Here.end
  | inr e ↦ absurd (false≢true (ground (arith, match_one_none c (λ t. true))))
]
matchhere-Here (c ∷ []) (x ∷ t) h = elim (Bool-cases (c == dollar)) [
  | inl e ↦ absurd (false≢true (ground arith))
  | inr e ↦
      let (fits, _) = match_one_found c (λ t. true) x t (ground arith) in
      Here.one c x [] t refl e fits (Here.done t)
]
matchhere-Here (c ∷ d ∷ re) [] h = elim (Bool-cases (d == asterisk)) [
  | inl e ↦
      let (xs, u, split, all, found) = matchstar_found c (matchhere re) [] (ground arith) in
      Here-star c d re [] xs u (ground arith) split all (matchhere-Here re u found)
  | inr e ↦ absurd (false≢true (ground (arith, match_one_none c (matchhere (d ∷ re)))))
]
matchhere-Here (c ∷ d ∷ re) (x ∷ t) h = elim (Bool-cases (d == asterisk)) [
  | inl e ↦
      let (xs, u, split, all, found) = matchstar_found c (matchhere re) (x ∷ t) (ground arith) in
      Here-star c d re (x ∷ t) xs u (ground arith) split all (matchhere-Here re u found)
  | inr e ↦
      let (fits, found) = match_one_found c (matchhere (d ∷ re)) x t (ground arith) in
      Here.one c x (d ∷ re) t e refl fits (matchhere-Here (d ∷ re) t found)
]

one-matchhere :
    (c x : ℕ) (re text : List ℕ)
    → starred re ≡ false
    → is_end c re ≡ false
    → Fits c x
    → matchhere re text ≡ true
    → matchhere (c ∷ re) (x ∷ text) ≡ true
unfolding matchhere match_one
one-matchhere c x [] text plain inner fits h = rw (inner, fits) refl
one-matchhere c x (d ∷ re) text plain inner fits h = rw (plain, fits) h

pub Here-matchhere : (re text : List ℕ) → Here re text → matchhere re text ≡ true
unfolding matchhere
Here-matchhere _ _ (Here.done text) = refl
Here-matchhere _ _ Here.end = refl
Here-matchhere _ _ (Here.one c x re text plain inner fits h) =
    one-matchhere c x re text plain inner fits (Here-matchhere re text h)
Here-matchhere _ _ (Here.star c re xs text all h) =
    matchstar_finds c (matchhere re) xs text all (Here-matchhere re text h)

-- A front that is passed over, and a rest that the expression matches at its beginning.
abbrev pub Within : List ℕ → List ℕ → Type 0
Within re text = (front : List ℕ) × (rest : List ℕ) × (text ≡ front ++ rest) × Here re rest

match_from-Within : (re text : List ℕ) → match_from re text ≡ true → Within re text
unfolding match_from
match_from-Within re [] h = ([], [], refl, matchhere-Here re [] h)
match_from-Within re (x ∷ t) h = elim (Bool-cases (matchhere re (x ∷ t))) [
  | inl e ↦ ([], x ∷ t, refl, matchhere-Here re (x ∷ t) e)
  | inr e ↦
      let (front, rest, split, found) = match_from-Within re t (ground arith) in
      (x ∷ front, rest, ap (λ l. x ∷ l) split, found)
]

match_from_finds : (re front rest : List ℕ) → Here re rest → match_from re (front ++ rest) ≡ true
unfolding match_from
match_from_finds re [] [] h = Here-matchhere re [] h
match_from_finds re [] (x ∷ t) h = rw (Here-matchhere re (x ∷ t) h) refl
match_from_finds re (x ∷ front) rest h = let on = match_from_finds re front rest h in ground arith

Within-match_from : (re text : List ℕ) → Within re text → match_from re text ≡ true
Within-match_from re text (front, rest, split, h) =
    subst (λ t. match_from re t ≡ true) (sym split) (match_from_finds re front rest h)

-- The texts that an expression matches: behind a caret only at the beginning, else anywhere.
abbrev pub Matches : List ℕ → List ℕ → Type 0
Matches [] text = Within [] text
Matches (c ∷ re) text = ((c ≡ caret) × Here re text) ⊎ ((c ≢ caret) × Within (c ∷ re) text)

-- The matcher of grep decides whether a text has a part that the expression matches, by the rules
-- of its characters: a character stands for itself and a dot for any, a star repeats what stands
-- before it as often as it takes, a dollar at the end asks for the end of the text, and a caret at
-- the beginning for its beginning.
pub match_iff : (re text : List ℕ) → (match re text ≡ true) ↔ Matches re text
unfolding match
match_iff [] text = (match_from-Within [] text, Within-match_from [] text)
match_iff (c ∷ re) text = elim (Bool-cases (c == caret)) [
  | inl e ↦ rw e (
    (λ h. inl (ground arith, matchhere-Here re text h)),
    λ m. elim m [
      | inl (_, h) ↦ Here-matchhere re text h
      | inr (ne, _) ↦ absurd (ne (ground arith))
    ],
  )
  | inr e ↦ rw e (
    (λ h. inr ((λ same. ground arith), match_from-Within (c ∷ re) text h)),
    λ m. elim m [ inl (same, _) ↦ ground arith | inr (_, w) ↦ Within-match_from (c ∷ re) text w ],
  )
]
