-- ===== src/Fs/Words.antt =====
-- Numbers in the bytes of a block, the lowest byte first.
use minios.Base.{
  ℕ, zero, suc, ◌+◌, ◌*◌, ◌/◌, ◌%◌, ◌<◌, ◌≤◌, ◌≡◌, ◌⊎◌, inl, inr, refl, ◌==◌, if◌then◌else◌, arith,
  ap₂,
}
use minios.Fs.{Bytes}

-- The `n` bytes from `off` on.
unfoldable pub load : ℕ → Bytes → ℕ → ℕ
load zero v off = 0
load (suc n) v off = v off + 256 * load n v (off + 1)

unfoldable pub store : ℕ → Bytes → ℕ → ℕ → Bytes
store zero v off x = v
store (suc n) v off x = store n (λ i. if i == off then x % 256 else v i) (off + 1) (x / 256)

pub store_other :
    (n : ℕ) (v : Bytes) (off x i : ℕ) → (i < off) ⊎ (off + n ≤ i) → store n v off x i ≡ v i
unfolding store
store_other zero v off x i h = refl
store_other (suc n) v off x i h =
    let rest =
      store_other n (λ i. if i == off then x % 256 else v i) (off + 1) (x / 256) i
        (elim h [ inl lt ↦ inl (omega arith) | inr ge ↦ inr (omega arith) ]) in
    ground (arith, rest)

pub load-cong :
    (n : ℕ) (v w : Bytes) (off : ℕ) → ((i : ℕ) → v i ≡ w i) → load n v off ≡ load n w off
unfolding load
load-cong zero v w off h = refl
load-cong (suc n) v w off h = ap₂ (λ a b. a + 256 * b) (h off) (load-cong n v w (off + 1) h)

-- 256 to the `n`.
abbrev pub limit : ℕ → ℕ
limit zero = 1
limit (suc n) = 256 * limit n

-- A number that fits comes back.
pub load-store : (n : ℕ) (v : Bytes) (off x : ℕ) → x < limit n → load n (store n v off x) off ≡ x
unfolding load store
load-store zero v off x h = omega arith
load-store (suc n) v off x h =
    let w : Bytes = (λ i. if i == off then x % 256 else v i) in
    let first = store_other n w (off + 1) (x / 256) off (inl (omega arith)) in
    let rest = load-store n w (off + 1) (x / 256) (omega arith) in ground (arith, first, rest)

-- A store away from a number leaves it.
pub load-store_other :
    (n k : ℕ) (v : Bytes) (off at x : ℕ)
    → (off + n ≤ at) ⊎ (at + k ≤ off)
    → load n (store k v at x) off ≡ load n v off
unfolding load
load-store_other zero k v off at x h = refl
load-store_other (suc n) k v off at x h =
    ap₂ (λ a b. a + 256 * b)
      (store_other k v at x off
        (elim h [ inl le ↦ inl (omega arith) | inr le ↦ inr (omega arith) ]))
      (load-store_other n k v (off + 1) at x
        (elim h [ inl le ↦ inl (omega arith) | inr le ↦ inr (omega arith) ]))
