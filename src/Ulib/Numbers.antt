-- ===== src/Ulib/Numbers.antt =====
-- The decimal numbers that user/ulib.c reads and user/printf.c prints.
use minios.Base.{
  ℕ, zero, suc, ◌+◌, ◌-◌, ◌*◌, ◌/◌, ◌%◌, ◌^◌, ◌<◌, ◌≡◌, inl, inr, ap, ◌∙◌, true, false, List, [],
  ◌∷◌, ◌++◌, ◌==◌, arith, Bool-cases, All, pos,
}
use minios.Printf.{digit_loop}
use minios.Printf.Numerals.{value, value-digit_loop}
use minios.Ulib.{digit, is_digit, atoi_loop, atoi, printint}

abbrev AreDigits : List ℕ → Type 0
AreDigits = All (λ c. is_digit c ≡ true)

digit_loop-AreDigits :
    (fuel x : ℕ) (buf : List ℕ) → AreDigits buf → AreDigits (digit_loop digit fuel 10 x buf)
unfolding digit_loop
digit_loop-AreDigits zero x buf d = d
digit_loop-AreDigits (suc fuel) x buf d =
    let one : is_digit (digit (x % 10)) ≡ true = ground arith in
    elim (Bool-cases (x / 10 == 0)) [
      | inl e ↦ rw e (one, d)
      | inr e ↦ rw e (digit_loop-AreDigits fuel (x / 10) (digit (x % 10) ∷ buf) (one, d))
    ]

-- The text goes on with no digit.
abbrev pub Stops : List ℕ → Type 0
Stops [] = Unit
Stops (c ∷ s) = is_digit c ≡ false

abbrev digit_value : ℕ → ℕ
digit_value c = c - b'0'

atoi_loop-value :
    (n m : ℕ) (cs rest : List ℕ)
    → AreDigits cs
    → Stops rest
    → m ≡ n % 2 ^ 32
    → atoi_loop m (cs ++ rest) ≡ value digit_value 10 n cs % 2 ^ 32
unfolding atoi_loop value
atoi_loop-value n m [] [] d s e = e
atoi_loop-value n m [] (c ∷ rest) d s e = rw s e
atoi_loop-value n m (c ∷ cs) rest (own, d) s e = rw own (
    atoi_loop-value (n * 10 + (c - b'0')) ((m * 10 + (c - b'0')) % 2 ^ 32) cs rest d s
      (omega arith))

printed : (n : ℕ) → n < 2 ^ 31 → value digit_value 10 n [] % 2 ^ 32 ≡ n
unfolding value
printed n lt = omega arith

-- What the user library's printf prints for a non-negative `int` in decimal, whatever follows it but
-- a digit, is what its atoi reads as that number.
pub atoi-printint :
    (n : ℕ) (rest : List ℕ) → n < 2 ^ 31 → Stops rest → atoi (printint (pos n) 10 true ++ rest) ≡ n
unfolding atoi printint
atoi-printint n rest lt s =
    let inverse : (d : ℕ) → d < 10 → digit_value (digit d) ≡ d = (λ d lt. ground arith) in
    let own = digit_loop-AreDigits 32 n [] tt in
    let stored =
      value-digit_loop digit digit_value 10 (omega arith) inverse 31 n [] (omega arith) in
    atoi_loop-value 0 0 (digit_loop digit 32 10 n []) rest own s (omega arith)
    ∙ ap (λ v. v % 2 ^ 32) stored
    ∙ printed n lt
