-- ===== src/Ulib/Texts.antt =====
-- The formatted output and the copies of the user library, beside those of the kernel.
use minios.Base.{
  ℕ, zero, suc, ◌+◌, ◌/◌, ◌%◌, ◌<◌, ◌≡◌, inl, inr, refl, ap, true, false, List, [], ◌∷◌, ◌==◌,
  if◌then◌else◌, arith, Bool-cases, pos, Bool, some, fun_ext, ℤ, negsuc, not, ◌&&◌,
}
use minios.Bytes
use minios.Bytes.{Mem}
use minios.Bytes.Move.{move_up_lem, move_down_lem, memmove_lem}
use minios.Printf
use minios.Printf.{as_int, digit_loop, printf_loop, printf}
use minios.Ulib.{memmove, digit, printint, convert, taken, vprintf_loop, vprintf}
use native.Mathlib.Nat.{mod-lt}

-- The memmove of the user library is that of the kernel: on every memory, for all arguments, both
-- leave the same memory, also where the two ranges overlap.
pub memmove_agree : (m : Mem) (dst src n : ℕ) → memmove m dst src n ≡ Bytes.memmove m dst src n
unfolding memmove
memmove_agree m dst src n = fun_ext λ a. ground (
  arith,
  memmove_lem m dst src n a,
  move_up_lem n dst src m a,
  move_down_lem n dst src (dst + n) (src + n) m a,
)

-- Two spellings that agree on the digits of a base print the same numerals.
digit_loop_agree :
    (f g : ℕ → ℕ) (base fuel x : ℕ) (buf : List ℕ)
    → 0 < base
    → ((d : ℕ) → d < base → f d ≡ g d)
    → digit_loop f fuel base x buf ≡ digit_loop g fuel base x buf
unfolding digit_loop
digit_loop_agree f g base zero x buf positive same = refl
digit_loop_agree f g base (suc fuel) x buf positive same =
    let own : f (x % base) ≡ g (x % base) = same (x % base) (mod-lt x positive) in
    rw own (
      ap (λ rest. if x / base == 0 then g (x % base) ∷ buf else rest)
        (digit_loop_agree f g base fuel (x / base) (g (x % base) ∷ buf) positive same))

printint_agree : (v : ℤ) → Printf.printint v 10 ≡ printint v 10 true
unfolding printint Printf.printint
printint_agree (pos n) =
    digit_loop_agree Printf.digit digit 10 32 n [] (omega arith) (λ d lt. ground arith)
printint_agree (negsuc n) =
    ap (λ ds. b'-' ∷ ds)
      (digit_loop_agree Printf.digit digit 10 32 (suc n) [] (omega arith) (λ d lt. ground arith))

-- Each '%' stands before no letter on which the two differ: x, p, l and c.
abbrev pub is_common : ℕ → Bool
is_common c = not (c == b'x') && not (c == b'p') && not (c == b'l') && not (c == b'c')

abbrev pub IsCommon : List ℕ → Type 0
IsCommon [] = Unit
IsCommon (c ∷ []) = Unit
IsCommon (c ∷ d ∷ fmt) =
    if c == b'%' then (is_common d ≡ true) × IsCommon fmt else IsCommon (d ∷ fmt)

convert_agree :
    (string : ℕ → List ℕ) (c w : ℕ)
    → is_common c ≡ true
    → (Printf.convert string c w ≡ convert string c w) × (Printf.taken c ≡ taken c)
unfolding convert Printf.convert
convert_agree string c w common = ground (arith, printint_agree (as_int w))

vprintf_loop_agree :
    (string : ℕ → List ℕ) (args : ℕ → ℕ) (fmt : List ℕ) (k : ℕ)
    → IsCommon fmt
    → printf_loop string args fmt k ≡ vprintf_loop string args fmt false k
unfolding printf_loop vprintf_loop
vprintf_loop_agree string args [] k common = refl
vprintf_loop_agree string args (c ∷ []) k common = elim (Bool-cases (c == b'%')) [
  | inl e ↦ rw e refl
  | inr e ↦ rw e refl
]
vprintf_loop_agree string args (c ∷ d ∷ fmt) k common = elim (Bool-cases (c == b'%')) [
  | inl e ↦
      let own = rw e at common in
      let one = convert_agree string d (args k) own.0 in
      let rest = vprintf_loop_agree string args fmt (k + Printf.taken d) own.1 in
      rw (e, one.0, rest, one.1) refl
  | inr e ↦
      let own = rw e at common in
      let rest = vprintf_loop_agree string args (d ∷ fmt) k own in rw e (ap (λ text. c ∷ text) rest)
]

-- On a format in which no '%' stands before x, p, l or c, the kernel's printf and the user library's
-- vprintf print the same characters, conversions that both do not know included.
pub printf_agree :
    (string : ℕ → List ℕ) (args : ℕ → ℕ) (fmt : List ℕ)
    → IsCommon fmt
    → printf string args (some fmt) ≡ some (vprintf string args fmt)
unfolding printf vprintf
printf_agree string args fmt common = ap some (vprintf_loop_agree string args fmt 0 common)
