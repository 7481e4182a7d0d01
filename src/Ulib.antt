-- ===== src/Ulib.antt =====
-- user/ulib.c and user/printf.c. A string that is only read is the list of its characters before the
-- NUL; what is written goes to a memory of bytes, as in Bytes.
pub mod Numbers
pub mod Texts
use minios.Base.{
  ℕ, zero, suc, ◌+◌, ◌-◌, ◌*◌, ◌/◌, ◌%◌, ◌^◌, Bool, true, false, not, ◌&&◌, ◌||◌, Option, none,
  some, List, [], ◌∷◌, ◌++◌, ltb, leb, ◌==◌, if◌then◌else◌, ℤ, pos, negsuc, sub_ℕ,
}
use minios.Bytes.{Mem, store, move_down, move_up}
use minios.Printf.{digit_loop, as_int, as_uint, ptr_loop, text_at}

-- while((*s++ = *t++) != 0), with the string at `t` given by its characters.
unfoldable pub strcpy : Mem → ℕ → List ℕ → Mem
strcpy m s [] = store m s 0
strcpy m s (c ∷ t) = strcpy (store m s c) (s + 1) t

unfoldable pub strcmp : List ℕ → List ℕ → ℤ
strcmp [] [] = pos 0
strcmp [] (d ∷ q) = sub_ℕ 0 d
strcmp (c ∷ p) [] = sub_ℕ c 0
strcmp (c ∷ p) (d ∷ q) = let rest = strcmp p q in if c == d then rest else sub_ℕ c d

-- The index of the first `c` in the string.
unfoldable pub strchr : List ℕ → ℕ → Option ℕ
strchr [] c = none
strchr (d ∷ s) c =
    let rest = strchr s c in
    if d == c then some 0 else elim rest [ some i ↦ some (i + 1) | none ↦ none ]

abbrev pub newline : ℕ
newline = 10

abbrev pub carriage_return : ℕ
carriage_return = 13

-- The loop of gets with room for `k` more characters, on what read() gives byte by byte until it
-- gives less than 1: the characters stored, and the input that is left.
unfoldable pub gets_loop : ℕ → List ℕ → List ℕ × List ℕ
gets_loop zero input = ([], input)
gets_loop (suc k) [] = ([], [])
gets_loop (suc k) (c ∷ input) =
    let (line, left) = gets_loop k input in
    if c == newline || c == carriage_return then (c ∷ [], input) else (c ∷ line, left)

-- i + 1 < max leaves room for max - 1 characters.
unfoldable pub gets : ℕ → List ℕ → List ℕ × List ℕ
gets max = gets_loop (max - 1)

abbrev pub is_digit : ℕ → Bool
is_digit c = leb b'0' c && leb c b'9'

-- The while loop of atoi; `n` is an `int` as a bit pattern.
unfoldable pub atoi_loop : ℕ → List ℕ → ℕ
atoi_loop n [] = n
atoi_loop n (c ∷ s) =
    let rest = atoi_loop ((n * 10 + (c - b'0')) % 2 ^ 32) s in if is_digit c then rest else n

unfoldable pub atoi : List ℕ → ℕ
atoi s = atoi_loop 0 s

unfoldable pub memmove : Mem → ℕ → ℕ → ℕ → Mem
memmove m dst src n = if ltb dst src then move_up n dst src m else move_down n (dst + n) (src + n) m

unfoldable pub memcpy : Mem → ℕ → ℕ → ℕ → Mem
memcpy m dst src n = memmove m dst src n

-- The entries of `digits` in user/printf.c.
abbrev pub digit : ℕ → ℕ
digit d = if ltb d 10 then b'0' + d else b'A' + (d - 10)

-- printint(fd, xx, base, sgn): the characters in the order of putc.
unfoldable pub printint : ℤ → ℕ → Bool → List ℕ
printint (pos n) base sgn = digit_loop digit 32 base n []
printint (negsuc n) base sgn =
    if sgn
    then b'-' ∷ digit_loop digit 32 base (suc n) []
    else digit_loop digit 32 base (as_uint (negsuc n)) []

unfoldable pub printptr : ℕ → List ℕ
printptr x = b'0' ∷ b'x' ∷ ptr_loop digit 16 x

-- What vprintf does with `c` behind a '%', with `w` for the next argument.
unfoldable pub convert : (ℕ → List ℕ) → ℕ → ℕ → List ℕ
convert string c w =
    if c == b'd'
    then printint (as_int w) 10 true
    else if c == b'l'
    then printint (as_int w) 10 false
    else if c == b'x'
    then printint (as_int w) 16 false
    else if c == b'p'
    then printptr w
    else if c == b's'
    then text_at string w
    else if c == b'c'
    then w % 256 ∷ []
    else if c == b'%'
    then c ∷ []
    else b'%' ∷ c ∷ []

-- How many arguments it takes.
abbrev pub taken : ℕ → ℕ
taken c =
    if c == b'd' || c == b'l' || c == b'x' || c == b'p' || c == b's' || c == b'c' then 1 else 0

-- The for loop of vprintf; `state` is whether the last character was a '%', and `k` arguments are
-- used up.
unfoldable pub vprintf_loop : (ℕ → List ℕ) → (ℕ → ℕ) → List ℕ → Bool → ℕ → List ℕ
vprintf_loop string args [] state k = []
vprintf_loop string args (c ∷ fmt) false k =
    let marked = vprintf_loop string args fmt true k in
    let plain = c ∷ vprintf_loop string args fmt false k in if c == b'%' then marked else plain
vprintf_loop string args (c ∷ fmt) true k =
    convert string c (args k) ++ vprintf_loop string args fmt false (k + taken c)

unfoldable pub vprintf : (ℕ → List ℕ) → (ℕ → ℕ) → List ℕ → List ℕ
vprintf string args fmt = vprintf_loop string args fmt false 0
