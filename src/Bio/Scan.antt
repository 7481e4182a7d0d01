-- ===== src/Bio/Scan.antt =====
-- The buffers of a list, and what a scan of them finds.
use minios.Base.{
  ℕ, ◌≡◌, ◌⊎◌, refl, sym, subst, List, [], ◌∷◌, Bool, true, false, none, some, Bool-cases, inl, inr,
}
use minios.Bio.Ring.{first_where, backwards}
use minios.Bio.Segment.{reverse_onto}

abbrev pub In : ℕ → List ℕ → Type 0
In x [] = ⊥
In x (y ∷ ys) = (x ≡ y) ⊎ In x ys

-- What a scan finds: a buffer of the list that passes the test, or that none does.
abbrev pub Scan : (ℕ → Bool) → List ℕ → Type 0
Scan p xs =
    ((b : ℕ) × (first_where p xs ≡ some b) × In b xs × (p b ≡ true))
    ⊎ ((first_where p xs ≡ none) × ((x : ℕ) → In x xs → p x ≡ false))

pub scan : (p : ℕ → Bool) (xs : List ℕ) → Scan p xs
scan p [] = inr (refl, λ x i. elim i [ ])
scan p (x ∷ xs) = elim (Bool-cases (p x)) [
  | inl e ↦ inl (x, rw e refl, inl refl, e)
  | inr e ↦ elim (scan p xs) [
    | inl (b, found, i, h) ↦ inl (b, rw e found, inr i, h)
    | inr (found, none_of) ↦ inr (
      rw e found,
      λ y i. elim i [ inl same ↦ subst (λ y. p y ≡ false) (sym same) e | inr i ↦ none_of y i ],
    )
  ]
]

In-reverse_onto : (x : ℕ) (xs ys : List ℕ) → In x (reverse_onto xs ys) → In x xs ⊎ In x ys
In-reverse_onto x [] ys i = inr i
In-reverse_onto x (y ∷ xs) ys i = elim (In-reverse_onto x xs (y ∷ ys) i) [
  | inl j ↦ inl (inr j)
  | inr j ↦ elim j [ inl same ↦ inl (inl same) | inr k ↦ inr k ]
]

pub In-backwards : (x : ℕ) (xs : List ℕ) → In x (backwards xs) → In x xs
In-backwards x xs i = elim (In-reverse_onto x xs [] i) [ inl j ↦ j | inr j ↦ elim j [ ] ]

pub In-onto : (x : ℕ) (xs ys : List ℕ) → In x xs ⊎ In x ys → In x (reverse_onto xs ys)
In-onto x [] ys (inl i) = elim i [ ]
In-onto x [] ys (inr i) = i
In-onto x (y ∷ xs) ys (inl (inl same)) = In-onto x xs (y ∷ ys) (inr (inl same))
In-onto x (y ∷ xs) ys (inl (inr i)) = In-onto x xs (y ∷ ys) (inl i)
In-onto x (y ∷ xs) ys (inr i) = In-onto x xs (y ∷ ys) (inr (inr i))
