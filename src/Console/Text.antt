-- ===== src/Console/Text.antt =====
-- The texts in the input buffer of kernel/console.c.
use minios.Base.{
  ℕ, zero, suc, ◌+◌, ◌-◌, ◌%◌, ◌≤◌, ◌<◌, ◌≡◌, ◌≢◌, refl, false, List, [], ◌∷◌, ◌++◌, ◌==◌,
  if◌then◌else◌, arith, ap, ap₂, All, subst,
}

-- The `k` characters from index `a` on.
abbrev pub text : (ℕ → ℕ) → ℕ → ℕ → List ℕ
text b a zero = []
text b a (suc k) = b (a % 128) ∷ text b (a + 1) k

-- A buffer in which `v` stands at `i`.
abbrev pub over : (ℕ → ℕ) → ℕ → ℕ → ℕ → ℕ
over b i v j = if j == i then v else b j

-- The line without its last character.
abbrev pub drop_last : List ℕ → List ℕ
drop_last [] = []
drop_last (x ∷ []) = []
drop_last (x ∷ y ∷ l) = x ∷ drop_last (y ∷ l)

-- No newline.
abbrev pub OneLine : List ℕ → Type 0
OneLine = All (λ c. c ≢ 10)

abbrev pub length : List ℕ → ℕ
length [] = 0
length (x ∷ l) = suc (length l)

module _ (b : ℕ → ℕ) where
  pub length-text : (a k : ℕ) → length (text b a k) ≡ k
  length-text a zero = refl
  length-text a (suc k) = ap suc (length-text (a + 1) k)

  pub text-cong : (a a' k : ℕ) → a % 128 ≡ a' % 128 → text b a k ≡ text b a' k
  text-cong a a' zero e = refl
  text-cong a a' (suc k) e = ap₂ ◌∷◌ (ap b e) (text-cong (a + 1) (a' + 1) k (omega arith))

  pub text-append :
      (a m a' n : ℕ) → (a + m) % 128 ≡ a' % 128 → text b a (m + n) ≡ text b a m ++ text b a' n
  text-append a zero a' n e =
      let none : 0 + n ≡ n = omega arith in rw none (text-cong a a' n (omega arith))
  text-append a (suc m) a' n e =
      let one : suc m + n ≡ suc (m + n) = omega arith in
      rw one (ap (λ l. b (a % 128) ∷ l) (text-append (a + 1) m a' n (omega arith)))

  pub text-drop_last : (a k : ℕ) → drop_last (text b a (suc k)) ≡ text b a k
  text-drop_last a zero = refl
  text-drop_last a (suc k) = ap (λ l. b (a % 128) ∷ l) (text-drop_last (a + 1) k)

  pub text-over :
      (a k i v j : ℕ) → k ≤ j → j < 128 → i ≡ (a + j) % 128 → text (over b i v) a k ≡ text b a k
  text-over a zero i v j le lt e = refl
  text-over a (suc k) i v j le lt e =
      let other : (a % 128 == i) ≡ false = ground arith in
      rw other (
        ap (λ l. b (a % 128) ∷ l)
          (text-over (a + 1) k i v (j - 1) (omega arith) (omega arith) (omega arith)))

  pub text-snoc :
      (a k i v : ℕ)
      → k < 128
      → i ≡ (a + k) % 128
      → text (over b i v) a (suc k) ≡ text b a k ++ (v ∷ [])
  text-snoc a zero i v lt e = ground arith
  text-snoc a (suc k) i v lt e =
      let other : (a % 128 == i) ≡ false = ground arith in
      ground (arith, other, text-snoc (a + 1) k i v (omega arith) (omega arith))

  pub text-last : (a k : ℕ) → OneLine (text b a (suc k)) → b ((a + k) % 128) ≢ 10
  text-last a zero (h, _) = subst (λ i. b i ≢ 10) (omega arith) h
  text-last a (suc k) (_, h) = subst (λ i. b i ≢ 10) (omega arith) (text-last (a + 1) k h)

  pub OneLine-init : (a k : ℕ) → OneLine (text b a (suc k)) → OneLine (text b a k)
  OneLine-init a zero h = tt
  OneLine-init a (suc k) (h, hs) = (h, OneLine-init (a + 1) k hs)

pub OneLine-snoc : (l : List ℕ) (v : ℕ) → OneLine l → v ≢ 10 → OneLine (l ++ (v ∷ []))
OneLine-snoc [] v h hv = (hv, tt)
OneLine-snoc (x ∷ l) v (h, hs) hv = (h, OneLine-snoc l v hs hv)

pub length-snoc : (l : List ℕ) (v : ℕ) → length (l ++ (v ∷ [])) ≡ suc (length l)
length-snoc [] v = refl
length-snoc (x ∷ l) v = ap suc (length-snoc l v)
