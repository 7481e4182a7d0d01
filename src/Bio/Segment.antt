-- ===== src/Bio/Segment.antt =====
-- Rings of buffers, linked both ways.
use minios.Base.{ℕ, ◌≡◌, ◌≢◌, sym, subst, ◌∙◌, List, [], ◌∷◌, ◌++◌, arith, All}
use minios.Store.{update}

-- From `a` through the buffers of the list to `c`, by `next` and back by `prev`.
abbrev pub Segment : (ℕ → ℕ) → (ℕ → ℕ) → ℕ → List ℕ → ℕ → Type 0
Segment next prev a [] c = (next a ≡ c) × (prev c ≡ a)
Segment next prev a (x ∷ xs) c = (next a ≡ x) × (prev x ≡ a) × Segment next prev x xs c

abbrev pub Fresh : ℕ → List ℕ → Type 0
Fresh a = All (λ x. a ≢ x)

abbrev pub Distinct : List ℕ → Type 0
Distinct [] = Unit
Distinct (x ∷ xs) = Fresh x xs × Distinct xs

-- Links away from a segment do not matter to it.
pub Segment-next :
    (next prev : ℕ → ℕ) (k v a : ℕ) (xs : List ℕ) (c : ℕ)
    → k ≢ a
    → Fresh k xs
    → Segment next prev a xs c
    → Segment (update next k v) prev a xs c
Segment-next next prev k v a [] c ne fr (e, e') = (ground arith, e')
Segment-next next prev k v a (x ∷ xs) c ne (nx, fr) (e, e', s) =
    (ground arith, e', Segment-next next prev k v x xs c nx fr s)

pub Segment-prev :
    (next prev : ℕ → ℕ) (k v a : ℕ) (xs : List ℕ) (c : ℕ)
    → k ≢ c
    → Fresh k xs
    → Segment next prev a xs c
    → Segment next (update prev k v) a xs c
Segment-prev next prev k v a [] c ne fr (e, e') = (e, ground arith)
Segment-prev next prev k v a (x ∷ xs) c ne (nx, fr) (e, e', s) =
    (e, ground arith, Segment-prev next prev k v x xs c ne fr s)

-- The buffer before `b` is not one that is before all of them; the buffer behind `b` is not one
-- that is away from the list.
pub prev-Fresh :
    (next prev : ℕ → ℕ) (k a : ℕ) (xs : List ℕ) (b : ℕ) (ys : List ℕ) (c : ℕ)
    → Segment next prev a (xs ++ b ∷ ys) c
    → k ≢ a
    → Fresh k (xs ++ b ∷ ys)
    → k ≢ prev b
prev-Fresh next prev k a [] b ys c (e, e', s) ne fr = λ h. ne (h ∙ e')
prev-Fresh next prev k a (x ∷ xs) b ys c (e, e', s) ne (nx, fr) =
    prev-Fresh next prev k x xs b ys c s nx fr

pub next-Fresh :
    (next prev : ℕ → ℕ) (k a : ℕ) (xs : List ℕ) (b : ℕ) (ys : List ℕ) (c : ℕ)
    → Segment next prev a (xs ++ b ∷ ys) c
    → k ≢ c
    → Fresh k (xs ++ b ∷ ys)
    → k ≢ next b
next-Fresh next prev k a [] b [] c (e, e', e'') ne (nb, fr) = λ h. ne (h ∙ e''.0)
next-Fresh next prev k a [] b (y ∷ ys) c (e, e', (e'', _, _)) ne (nb, (ny, fr)) = λ h. ny (h ∙ e'')
next-Fresh next prev k a (x ∷ xs) b ys c (e, e', s) ne (nx, fr) =
    next-Fresh next prev k x xs b ys c s ne fr

pub unlink-Segment :
    (next prev : ℕ → ℕ) (a : ℕ) (xs : List ℕ) (b : ℕ) (ys : List ℕ) (c : ℕ)
    → Segment next prev a (xs ++ b ∷ ys) c
    → Fresh a (xs ++ b ∷ ys)
    → Fresh c (xs ++ b ∷ ys)
    → Distinct (xs ++ b ∷ ys)
    → Segment (update next (prev b) (next b)) (update prev (next b) (prev b)) a (xs ++ ys) c
unlink-Segment next prev a [] b [] c (e, e', e'') fa fc d = (ground arith, ground arith)
unlink-Segment next prev a [] b (y ∷ ys) c (e, e', (e'', b', s)) (na, (na', fa)) (nc, (nc', fc))
      ((nby, fb), (fy, d)) =
    (
      ground arith,
      ground arith,
      Segment-next next (update prev (next b) (prev b)) (prev b) (next b) y ys c (ground arith)
          (subst (λ k. Fresh k ys) (sym e') fa)
          (Segment-prev next prev (next b) (prev b) y ys c (ground arith)
            (subst (λ k. Fresh k ys) (sym e'') fy) s),
    )
unlink-Segment next prev a (x ∷ xs) b ys c (e, e', s) (na, fa) (nc, fc) (fx, d) =
    let before = prev-Fresh next prev a x xs b ys c s na fa in
    let behind = next-Fresh next prev x x xs b ys c s (λ h. nc (sym h)) fx in
    (ground arith, ground arith, unlink-Segment next prev x xs b ys c s fx fc d)

-- A buffer away from the list goes in behind `a`.
pub link-Segment :
    (next prev : ℕ → ℕ) (a b : ℕ) (xs : List ℕ) (c : ℕ)
    → Segment next prev a xs c
    → b ≢ a
    → b ≢ c
    → Fresh a xs
    → Fresh c xs
    → Distinct xs
    → Fresh b xs
    → Segment
        (update (update next b (next a)) a b)
        (update (update prev b a) (next a) b)
        a
        (b ∷ xs)
        c
link-Segment next prev a b [] c (e, e') na nc fa fc d fb =
    (ground arith, ground arith, (ground arith, ground arith))
link-Segment next prev a b (x ∷ xs) c (e, e', s) na nc (nax, fa) (ncx, fc) (fx, d) (nbx, fb) = (
  ground arith,
  ground arith,
  (
    ground arith,
    ground arith,
    Segment-next (update next b (next a)) (update (update prev b a) (next a) b) a b x xs c nax fa (
        Segment-next next (update (update prev b a) (next a) b) b (next a) x xs c nbx fb (
          Segment-prev next (update prev b a) (next a) b x xs c (ground arith)
            (subst (λ k. Fresh k xs) (sym e) fx) (Segment-prev next prev b a x xs c nc fb s))),
  ),
)

-- The same segment the other way round.
abbrev pub reverse_onto : List ℕ → List ℕ → List ℕ
reverse_onto [] ys = ys
reverse_onto (x ∷ xs) ys = reverse_onto xs (x ∷ ys)

pub Segment-reverse_onto :
    (next prev : ℕ → ℕ) (a b : ℕ) (xs ys : List ℕ) (c : ℕ)
    → Segment next prev a xs c
    → Segment prev next a ys b
    → Segment prev next c (reverse_onto xs (a ∷ ys)) b
Segment-reverse_onto next prev a b [] ys c (e, e') t = (e', e, t)
Segment-reverse_onto next prev a b (x ∷ xs) ys c (e, e', s) t =
    Segment-reverse_onto next prev x b xs (a ∷ ys) c s (e', e, t)

pub Fresh-reverse_onto :
    (k : ℕ) (xs ys : List ℕ) → Fresh k xs → Fresh k ys → Fresh k (reverse_onto xs ys)
Fresh-reverse_onto k [] ys h h' = h'
Fresh-reverse_onto k (x ∷ xs) ys (n, h) h' = Fresh-reverse_onto k xs (x ∷ ys) h (n, h')
