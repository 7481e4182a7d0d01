-- ===== src/Printf.antt =====
-- kernel/printf.c as the characters that it gives to consputc(). The variadic arguments are the
-- 64-bit words that va_arg takes in turn, `string a` is the C string at the address `a`.
pub mod Numerals
use minios.Base.{
  ℕ, zero, suc, ◌+◌, ◌-◌, ◌*◌, ◌/◌, ◌%◌, ◌^◌, Option, none, some, List, [], ◌∷◌, ◌++◌, ltb, ◌==◌,
  if◌then◌else◌, ℤ, pos, negsuc,
}

-- The entries of `digits`.
abbrev pub digit : ℕ → ℕ
digit d = if ltb d 10 then b'0' + d else b'a' + (d - 10)

-- A word as an `int`, and an `int` as a `uint`.
abbrev pub as_int : ℕ → ℤ
as_int w = let v = w % 2 ^ 32 in if ltb v (2 ^ 31) then pos v else negsuc (2 ^ 32 - 1 - v)

abbrev pub as_uint : ℤ → ℕ
as_uint (pos n) = n
as_uint (negsuc n) = 2 ^ 32 - 1 - n

-- The do loop of printint on `fuel` rounds. `buf` has what is stored, the last character first.
unfoldable pub digit_loop : (ℕ → ℕ) → ℕ → ℕ → ℕ → List ℕ → List ℕ
digit_loop digit zero base x buf = buf
digit_loop digit (suc fuel) base x buf =
    let buf' = digit (x % base) ∷ buf in
    let rest = digit_loop digit fuel base (x / base) buf' in if x / base == 0 then buf' else rest

-- A 32-bit number has at most 32 digits in any base from 2 on.
abbrev pub print_digits : (ℕ → ℕ) → ℕ → ℕ → List ℕ
print_digits digit base x = digit_loop digit 32 base x []

-- printint(xx, base, 1): its buffer from the last character stored down to buf[0]. The sign is
-- stored behind the digits.
unfoldable pub printint : ℤ → ℕ → List ℕ
printint (pos n) base = print_digits digit base n
printint (negsuc n) base = b'-' ∷ print_digits digit base (suc n)

-- The loop of printptr, `n` characters left: x <<= 4 of a uint64.
unfoldable pub ptr_loop : (ℕ → ℕ) → ℕ → ℕ → List ℕ
ptr_loop digit zero x = []
ptr_loop digit (suc n) x = digit (x / 2 ^ 60) ∷ ptr_loop digit n (x * 16 % 2 ^ 64)

unfoldable pub printptr : ℕ → List ℕ
printptr x = b'0' ∷ b'x' ∷ ptr_loop digit 16 x

abbrev pub null_text : List ℕ
null_text = b'(' ∷ b'n' ∷ b'u' ∷ b'l' ∷ b'l' ∷ b')' ∷ []

abbrev pub text_at : (ℕ → List ℕ) → ℕ → List ℕ
text_at string a = if a == 0 then null_text else string a

-- The cases of the switch, with `w` for the next argument.
unfoldable pub convert : (ℕ → List ℕ) → ℕ → ℕ → List ℕ
convert string c w =
    if c == b'd'
    then printint (as_int w) 10
    else if c == b'x'
    then printint (as_int w) 16
    else if c == b'p'
    then printptr w
    else if c == b's'
    then text_at string w
    else if c == b'%'
    then b'%' ∷ []
    else b'%' ∷ c ∷ []

-- How many arguments a conversion takes.
abbrev pub taken : ℕ → ℕ
taken c =
    if c == b'd'
    then 1
    else if c == b'x'
    then 1
    else if c == b'p'
    then 1
    else if c == b's'
    then 1
    else 0

-- The for loop of printf; `k` arguments are used up.
unfoldable pub printf_loop : (ℕ → List ℕ) → (ℕ → ℕ) → List ℕ → ℕ → List ℕ
printf_loop string args [] k = []
printf_loop string args (c ∷ []) k = if c == b'%' then [] else c ∷ []
printf_loop string args (c ∷ d ∷ fmt) k =
    let converted = convert string d (args k) ++ printf_loop string args fmt (k + taken d) in
    let plain = c ∷ printf_loop string args (d ∷ fmt) k in if c == b'%' then converted else plain

-- The format up to its NUL; `none` for fmt == 0, and `none` of the result for panic().
unfoldable pub printf : (ℕ → List ℕ) → (ℕ → ℕ) → Option (List ℕ) → Option (List ℕ)
printf string args none = none
printf string args (some fmt) = some (printf_loop string args fmt 0)
