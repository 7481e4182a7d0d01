-- ===== src/Tests/Printf.antt =====
-- kernel/printf.c and the user library at concrete texts and numbers.
use minios.Base.{ℕ, ◌^◌, ◌≤◌, ◌≡◌, refl, some, List, [], ◌∷◌, arith, negsuc, length}
use minios.Printf.{printint, printptr, printf, digit_loop, ptr_loop, printf_loop, convert}
use minios.Printf.Numerals.{printint_fits}
use minios.Ulib.{atoi, atoi_loop, vprintf, gets, gets_loop}
use minios.Ulib.Texts.{printf_agree}

-- "-2147483648"
print_lowest : length (printint (negsuc 2147483647) 10) ≡ 11
unfolding printint digit_loop
print_lowest = refl

printint_fits_example : length (printint (negsuc 2147483647) 10) ≤ 11
printint_fits_example = printint_fits (negsuc 2147483647) 10 (omega arith) (omega arith)

-- 0x0000000080000000
print_base :
    printptr (2 ^ 31)
    ≡ 48 ∷ 120 ∷ 48 ∷ 48 ∷ 48 ∷ 48 ∷ 48 ∷ 48 ∷ 48 ∷ 48 ∷ 56 ∷ 48 ∷ 48 ∷ 48 ∷ 48 ∷ 48 ∷ 48 ∷ 48 ∷ []
unfolding printptr ptr_loop
print_base = refl

read_twelve : atoi (49 ∷ 50 ∷ 32 ∷ 51 ∷ []) ≡ 12
unfolding atoi atoi_loop
read_twelve = refl

-- "a%d%%%s%q"
abbrev format : List ℕ
format = 97 ∷ 37 ∷ 100 ∷ 37 ∷ 37 ∷ 37 ∷ 115 ∷ 37 ∷ 113 ∷ []

abbrev strings : ℕ → List ℕ
strings a = 98 ∷ []

-- "a7%b%q"
print_format : printf strings (λ k. 7) (some format) ≡ some (97 ∷ 55 ∷ 37 ∷ 98 ∷ 37 ∷ 113 ∷ [])
unfolding printf printf_loop convert printint digit_loop
print_format = refl

printf_agree_example :
    printf strings (λ k. 7) (some format) ≡ some (vprintf strings (λ k. 7) format)
printf_agree_example = printf_agree strings (λ k. 7) format (refl, (refl, (refl, (refl, tt))))

-- Two characters of a line that ends behind the second.
read_line : gets 8 (97 ∷ 10 ∷ 98 ∷ []) ≡ (97 ∷ 10 ∷ [], 98 ∷ [])
unfolding gets gets_loop
read_line = refl
