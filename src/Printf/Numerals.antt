-- ===== src/Printf/Numerals.antt =====
-- The numerals of kernel/printf.c, read back.
use native.Mathlib.Nat.{
  div-lt_iff_lt-mul, div-add-mod', mod-lt, mul-le-mul_left, mul-add-div, pow-suc, pow-zero,
  pow-le-pow_left,
}
use minios.Base.{
  ℕ, zero, suc, ◌+◌, ◌-◌, ◌*◌, ◌/◌, ◌%◌, ◌^◌, ◌<◌, ◌≤◌, ◌≡◌, inl, inr, refl, sym, ap, ◌∙◌, List, [],
  ◌∷◌, ◌==◌, if◌then◌else◌, arith, Bool-cases, length, true, leb, ℤ, pos, negsuc,
}
use minios.Printf.{digit, digit_loop, print_digits, printint, ptr_loop, printptr}

-- The number that the digits `cs` make in a base behind the number `n`.
unfoldable pub value : (ℕ → ℕ) → ℕ → ℕ → List ℕ → ℕ
value digit_value base n [] = n
value digit_value base n (c ∷ cs) = value digit_value base (n * base + digit_value c) cs

module _ (digit digit_value : ℕ → ℕ) (base : ℕ) (two : 2 ≤ base)
    (inverse : (d : ℕ) → d < base → digit_value (digit d) ≡ d) where
  push_digit :
      (x : ℕ) (buf : List ℕ)
      → value digit_value base (x / base) (digit (x % base) ∷ buf) ≡ value digit_value base x buf
  unfolding value
  push_digit x buf =
      let small : x % base < base = mod-lt x (omega arith) in
      ap (λ n. value digit_value base n buf)
        (omega (arith, inverse (x % base) small, div-add-mod' x base))

  last_digit :
      (x : ℕ) (buf : List ℕ)
      → x / base ≡ 0
      → value digit_value base 0 (digit (x % base) ∷ buf) ≡ value digit_value base x buf
  last_digit x buf last =
      ap (λ n. value digit_value base n (digit (x % base) ∷ buf)) (sym last) ∙ push_digit x buf

  -- The digits stand for the number, with those that are stored already behind them.
  pub value-digit_loop :
      (fuel x : ℕ) (buf : List ℕ)
      → x < 2 ^ suc fuel
      → value digit_value base 0 (digit_loop digit (suc fuel) base x buf)
        ≡ value digit_value base x buf
  unfolding digit_loop
  value-digit_loop zero x buf lt =
      let small : x / base < 1 =
        (div-lt_iff_lt-mul {k = base} {x = x} {y = 1} (omega arith)).1 (omega arith) in
      let last : x / base ≡ 0 = omega arith in
      let e : (x / base == 0) ≡ true = ground arith in rw e (last_digit x buf last)
  value-digit_loop (suc fuel) x buf lt = elim (Bool-cases (x / base == 0)) [
    | inl e ↦ let last : x / base ≡ 0 = ground arith in rw e (last_digit x buf last)
    | inr e ↦
        let double : 2 ^ suc fuel * 2 ≤ 2 ^ suc fuel * base = mul-le-mul_left (2 ^ suc fuel) two in
        let less : x < 2 ^ suc fuel * base = omega (arith, double, pow-suc 2 (suc fuel)) in
        rw e (
          value-digit_loop fuel (x / base) (digit (x % base) ∷ buf)
            ((div-lt_iff_lt-mul (omega arith)).1 less)
          ∙ push_digit x buf)
  ]

spread : (m x t low p : ℕ) → x * 16 ≡ m * t + low → x * (p * 16) ≡ m * (t * p) + low * p
spread m x t low p e =
    let left : x * (p * 16) ≡ x * 16 * p = grind arith in
    let right : (m * t + low) * p ≡ m * (t * p) + low * p = grind arith in
    left ∙ ap (λ u. u * p) e ∙ right

join : (y d p : ℕ) → (y * 16 + d) * p ≡ y * (p * 16) + d * p
join y d p = grind arith

-- `n` rounds of printptr print the top `n` hexadecimal digits of `x`.
pub value-ptr_loop :
    (digit digit_value : ℕ → ℕ)
    → ((d : ℕ) → d < 16 → digit_value (digit d) ≡ d)
    → (n x y : ℕ) → x < 2 ^ 64
    → value digit_value 16 y (ptr_loop digit n x) ≡ y * 16 ^ n + x * 16 ^ n / 2 ^ 64
unfolding value ptr_loop
value-ptr_loop digit digit_value inverse zero x y lt = omega arith
value-ptr_loop digit digit_value inverse (suc n) x y lt =
    let top = x / 2 ^ 60 in
    let low = x * 16 % 2 ^ 64 in
    let power = pow-suc 16 n in
    let own : digit_value (digit top) ≡ top = inverse top (omega arith) in
    let parts : x * 16 ≡ 2 ^ 64 * top + low = omega arith in
    let moved : x * 16 ^ suc n ≡ 2 ^ 64 * (top * 16 ^ n) + low * 16 ^ n =
      ap (λ p. x * p) power ∙ spread (2 ^ 64) x top low (16 ^ n) parts in
    let carried : x * 16 ^ suc n / 2 ^ 64 ≡ top * 16 ^ n + low * 16 ^ n / 2 ^ 64 =
      ap (λ t. t / 2 ^ 64) moved ∙ mul-add-div (omega arith) (top * 16 ^ n) (low * 16 ^ n) in
    let ih =
      value-ptr_loop digit digit_value inverse n low (y * 16 + digit_value (digit top))
        (omega arith) in
    let front : (y * 16 + digit_value (digit top)) * 16 ^ n ≡ y * 16 ^ suc n + top * 16 ^ n =
      ap (λ d. (y * 16 + d) * 16 ^ n) own
      ∙ join y top (16 ^ n)
      ∙ ap (λ p. y * p + top * 16 ^ n) (sym power) in
    omega (arith, ih, front, carried)

-- A number below base ^ k has at most `k` digits.
pub length-digit_loop :
    (spell : ℕ → ℕ) (base fuel k x : ℕ) (buf : List ℕ)
    → 0 < base
    → x < base ^ suc k
    → length (digit_loop spell fuel base x buf) ≤ suc k + length buf
unfolding digit_loop
length-digit_loop spell base zero k x buf positive lt = omega arith
length-digit_loop spell base (suc fuel) zero x buf positive lt =
    let small : x / base < 1 =
      (div-lt_iff_lt-mul positive).1
        (omega (arith, pow-suc base 0, ap (λ p. p * base) (pow-zero base))) in
    let e : (x / base == 0) ≡ true = ground arith in rw e (omega arith)
length-digit_loop spell base (suc fuel) (suc k) x buf positive lt =
    elim (Bool-cases (x / base == 0)) [
      | inl e ↦ rw e (omega arith)
      | inr e ↦
          let less : x < base ^ suc k * base = omega (arith, pow-suc base (suc k)) in
          let ih =
            length-digit_loop spell base fuel k (x / base) (spell (x % base) ∷ buf) positive
              ((div-lt_iff_lt-mul positive).1 less) in
          rw e (omega (arith, ih))
    ]

-- An `int`: from -2^31 to 2^31 - 1.
abbrev pub IsInt : ℤ → Type 0
IsInt (pos n) = n < 2 ^ 31
IsInt (negsuc n) = n < 2 ^ 31

digits_fit : (base x : ℕ) → 10 ≤ base → x < 2 ^ 32 → length (print_digits digit base x) ≤ 10
digits_fit base x ten lt =
    let power : 10 ^ 10 ≤ base ^ 10 = pow-le-pow_left ten 10 in
    let ih = length-digit_loop digit base 32 9 x [] (omega arith) (omega (arith, power)) in
    omega (arith, ih)

-- printint of any `int` in base 10 or more stores at most 11 characters, the sign included, so that
-- its buffer of 16 is never left.
pub printint_fits : (xx : ℤ) (base : ℕ) → IsInt xx → 10 ≤ base → length (printint xx base) ≤ 11
unfolding printint
printint_fits (pos n) base lt ten = omega (arith, digits_fit base n ten (omega arith))
printint_fits (negsuc n) base lt ten = omega (arith, digits_fit base (suc n) ten (omega arith))

-- What a hexadecimal digit stands for.
abbrev pub hex_value : ℕ → ℕ
hex_value c = if leb c b'9' then c - b'0' else c - b'a' + 10

length-ptr_loop : (n x : ℕ) → length (ptr_loop digit n x) ≡ n
unfolding ptr_loop
length-ptr_loop zero x = refl
length-ptr_loop (suc n) x = ap suc (length-ptr_loop n (x * 16 % 2 ^ 64))

-- printptr of a 64-bit word prints "0x" and 16 characters, which read as a hexadecimal number are
-- that word.
pub printptr_lem :
    (x : ℕ)
    → x < 2 ^ 64
    → (ds : List ℕ) × (printptr x ≡ b'0' ∷ b'x' ∷ ds)
      × (length ds ≡ 16)
      × (value hex_value 16 0 ds ≡ x)
unfolding printptr
printptr_lem x lt =
    let hex : (d : ℕ) → d < 16 → hex_value (digit d) ≡ d = (λ d lt. ground arith) in
    let read = value-ptr_loop digit hex_value hex 16 x 0 lt in
    (ptr_loop digit 16 x, refl, length-ptr_loop 16 x, omega (arith, read))
