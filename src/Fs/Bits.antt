-- ===== src/Fs/Bits.antt =====
-- Single bits of a byte.
use minios.Base.{
  ℕ, zero, suc, ◌+◌, ◌-◌, ◌/◌, ◌%◌, ◌^◌, ◌<◌, ◌≡◌, refl, Bool, true, ◌&&◌, ◌||◌, ◌==◌, ltb, leb,
  if◌then◌else◌, arith,
}

-- `x & (1 << k)`, as 0 or 1.
abbrev pub bit : ℕ → ℕ → ℕ
bit x k = x / 2 ^ k % 2

unfoldable every_below : ℕ → (ℕ → Bool) → Bool
every_below zero p = true
every_below (suc n) p = p n && every_below n p

every_below_lem : (n : ℕ) (p : ℕ → Bool) (x : ℕ) → every_below n p ≡ true → x < n → p x ≡ true
unfolding every_below
every_below_lem zero p x h lt = absurd (omega arith)
every_below_lem (suc n) p x h lt = ground (arith, every_below_lem n p x)

-- x |= m where the bit is clear, seen at bit `k`, and x &= ~m where it is set.
abbrev set_test : ℕ → ℕ → ℕ → Bool
set_test x j k =
    bit x j == 1 || bit (x + 2 ^ j) k == (if j == k then 1 else bit x k) && ltb (x + 2 ^ j) 256

abbrev clear_test : ℕ → ℕ → ℕ → Bool
clear_test x j k =
    bit x j == 0 || bit (x - 2 ^ j) k == (if j == k then 0 else bit x k) && leb (2 ^ j) x

set_table : every_below 256 (λ x. every_below 8 (λ j. every_below 8 (set_test x j))) ≡ true
unfolding every_below
set_table = refl

clear_table : every_below 256 (λ x. every_below 8 (λ j. every_below 8 (clear_test x j))) ≡ true
unfolding every_below
clear_table = refl

table_lem :
    (p : ℕ → ℕ → ℕ → Bool)
    → every_below 256 (λ x. every_below 8 (λ j. every_below 8 (p x j))) ≡ true
    → (x j k : ℕ) → x < 256
    → j < 8
    → k < 8
    → p x j k ≡ true
table_lem p t x j k hx hj hk =
    every_below_lem 8 (p x j) k
      (every_below_lem 8 (λ j. every_below 8 (p x j)) j
        (every_below_lem 256 (λ x. every_below 8 (λ j. every_below 8 (p x j))) x t hx) hj)
      hk

pub bit-set :
    (x j k : ℕ)
    → x < 256
    → j < 8
    → k < 8
    → bit x j ≡ 0
    → (bit (x + 2 ^ j) k ≡ (if j == k then 1 else bit x k)) × (x + 2 ^ j < 256)
bit-set x j k hx hj hk e = ground (arith, table_lem set_test set_table x j k hx hj hk)

pub bit-clear :
    (x j k : ℕ)
    → x < 256
    → j < 8
    → k < 8
    → bit x j ≡ 1
    → (bit (x - 2 ^ j) k ≡ (if j == k then 0 else bit x k)) × (x - 2 ^ j < 256)
bit-clear x j k hx hj hk e = ground (arith, table_lem clear_test clear_table x j k hx hj hk)
