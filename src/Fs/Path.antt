-- ===== src/Fs/Path.antt =====
-- skipelem of kernel/fs.c. A path is the list of its characters before the NUL.
use minios.Base.{
  ℕ, zero, suc, ◌++◌, take, ◌≡◌, refl, sym, ap, ◌∙◌, Bool, true, false, Option, none, some, List,
  [], ◌∷◌, ltb, leb, ◌==◌, if◌then◌else◌, arith, Bool-cases, inl, inr, length, get_or,
}

abbrev pub dirsiz : ℕ
dirsiz = 14

abbrev pub slash : ℕ
slash = 47

-- while(*path == '/') path++;
unfoldable pub drop_slashes : List ℕ → List ℕ
drop_slashes [] = []
drop_slashes (c ∷ path) = if c == slash then drop_slashes path else c ∷ path

-- while(*path != '/' && *path != 0) path++; what is passed, and what is left.
unfoldable pub span : List ℕ → List ℕ × List ℕ
span [] = ([], [])
span (c ∷ path) =
    let (elem, rest) = span path in if c == slash then ([], c ∷ path) else (c ∷ elem, rest)

-- memmove to `name`, with a NUL behind it where there is room.
unfoldable pub copy_name : List ℕ → (ℕ → ℕ) → ℕ → ℕ
copy_name elem name i =
    if leb dirsiz (length elem)
    then (if ltb i dirsiz then get_or elem i 0 else name i)
    else if ltb i (length elem)
    then get_or elem i 0
    else if i == length elem
    then 0
    else name i

-- What skipelem does behind the leading slashes.
unfoldable pub skip_from : List ℕ → (ℕ → ℕ) → Option (List ℕ × (ℕ → ℕ))
skip_from [] name = none
skip_from (c ∷ path) name =
    let (elem, rest) = span (c ∷ path) in some (drop_slashes rest, copy_name elem name)

unfoldable pub skipelem : List ℕ → (ℕ → ℕ) → Option (List ℕ × (ℕ → ℕ))
skipelem path name = skip_from (drop_slashes path) name

-- The elements of a path, read from its end: `word` is the element that the last character read
-- belongs to.
abbrev pub glue : ℕ → Bool → List (List ℕ) → List (List ℕ)
glue c true ws = (c ∷ []) ∷ ws
glue c false [] = (c ∷ []) ∷ []
glue c false (w ∷ ws) = (c ∷ w) ∷ ws

abbrev pub at_border : List ℕ → Bool
at_border [] = true
at_border (c ∷ path) = c == slash

unfoldable pub elements : List ℕ → List (List ℕ)
elements [] = []
elements (c ∷ path) = if c == slash then elements path else glue c (at_border path) (elements path)

elements-drop_slashes : (path : List ℕ) → elements (drop_slashes path) ≡ elements path
unfolding elements drop_slashes
elements-drop_slashes [] = refl
elements-drop_slashes (c ∷ path) = elim (Bool-cases (c == slash)) [
  | inl e ↦ rw e (elements-drop_slashes path)
  | inr e ↦ ground arith
]

pub drop_slashes-starts :
    (path : List ℕ) (c : ℕ) (rest : List ℕ) → drop_slashes path ≡ c ∷ rest → (c == slash) ≡ false
unfolding drop_slashes
drop_slashes-starts [] c rest h = ground arith
drop_slashes-starts (d ∷ path) c rest h = elim (Bool-cases (d == slash)) [
  | inl e ↦ drop_slashes-starts path c rest (ground arith)
  | inr e ↦ ground arith
]

-- The element that `span` passes is the first one.
span-elements :
    (c : ℕ) (path : List ℕ)
    → (c == slash) ≡ false
    → elements (c ∷ path) ≡ (span (c ∷ path)).0 ∷ elements (span (c ∷ path)).1
unfolding elements span
span-elements c [] e = rw e refl
span-elements c (d ∷ path) e = elim (Bool-cases (d == slash)) [
  | inl f ↦ rw (e, f) (rw f refl)
  | inr f ↦
      let ih : glue d (at_border path) (elements path)
          ≡ (d ∷ (span path).0) ∷ elements (span path).1 =
        rw f at (span-elements d path f) in
      rw (e, f) (ap (glue c false) ih)
]

-- The characters that a name keeps of an element: those that fit, with a NUL behind the last.
abbrev pub kept : List ℕ → List ℕ
kept elem = take 14 (elem ++ 0 ∷ [])

-- What skipelem comes to by the elements of its path: `name'` starts with the kept characters, and
-- is `name` behind them.
abbrev pub Skips : List ℕ → (ℕ → ℕ) → Option (List ℕ × (ℕ → ℕ)) → Type 0
Skips path name none = elements path ≡ []
Skips path name (some (rest, name')) =
    (elem : List ℕ) × (elements path ≡ elem ∷ elements rest)
    × ((i : ℕ) → name' i ≡ get_or (kept elem) i (name i))

get_or-take :
    (n : ℕ) (xs : List ℕ) (i d : ℕ)
    → get_or (take n xs) i d ≡ (if ltb i n then get_or xs i d else d)
get_or-take zero xs i d = ground arith
get_or-take (suc n) [] i d = ground arith
get_or-take (suc n) (x ∷ xs) zero d = ground arith
get_or-take (suc n) (x ∷ xs) (suc i) d = ground (arith, get_or-take n xs i d)

get_or-append_nul :
    (xs : List ℕ) (i d : ℕ)
    → get_or (xs ++ 0 ∷ []) i d
      ≡ (if ltb i (length xs) then get_or xs i 0 else if i == length xs then 0 else d)
get_or-append_nul [] zero d = refl
get_or-append_nul [] (suc i) d = ground arith
get_or-append_nul (x ∷ xs) zero d = ground arith
get_or-append_nul (x ∷ xs) (suc i) d = ground (arith, get_or-append_nul xs i d)

copy_name-kept :
    (elem : List ℕ) (name : ℕ → ℕ) (i : ℕ) → copy_name elem name i ≡ get_or (kept elem) i (name i)
unfolding copy_name
copy_name-kept elem name i =
    let spec = get_or-take 14 (elem ++ 0 ∷ []) i (name i) in
    let inner = get_or-append_nul elem i (name i) in ground (arith, spec, inner)

skip_from_lem :
    (path : List ℕ) (p : List ℕ) (name : ℕ → ℕ)
    → drop_slashes path ≡ p
    → Skips path name (skip_from p name)
unfolding skip_from elements
skip_from_lem path [] name e = sym (elements-drop_slashes path) ∙ ap elements e
skip_from_lem path (c ∷ p) name e =
    let starts = drop_slashes-starts path c p e in
    let (elem, rest) = span (c ∷ p) in
    (
      elem,
      sym (elements-drop_slashes path)
          ∙ ap elements e
          ∙ span-elements c p starts
          ∙ ap (λ l. elem ∷ l) (sym (elements-drop_slashes rest)),
      copy_name-kept elem name,
    )

-- skipelem by the elements of its path: it returns none just where there are none; else it returns a
-- path with the elements behind the first one, and the name holds the first 14 of the first element's
-- characters and the NUL behind them, and is as before from there on.
pub skipelem_lem : (path : List ℕ) (name : ℕ → ℕ) → Skips path name (skipelem path name)
unfolding skipelem
skipelem_lem path name = skip_from_lem path (drop_slashes path) name refl
