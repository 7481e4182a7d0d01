-- ===== src/Pipe/Ring.antt =====
-- The ring of kernel/pipe.c holds a queue of bytes.
use minios.Base.{
  ℕ, zero, suc, ◌+◌, ◌-◌, ◌%◌, ◌^◌, ◌≤◌, ◌<◌, ◌≡◌, ◌≢◌, refl, true, false, List, [], ◌∷◌, ◌++◌,
  ◌==◌, arith, ap, ap₂,
}
use minios.Bytes.{Mem, store}
use minios.Pipe.{Pipe, put, skip}

-- The `k` bytes from counter `r` on.
abbrev pub window : Mem → ℕ → ℕ → List ℕ
window d r zero = []
window d r (suc k) = d (r % 512) ∷ window d (r + 1) k

-- How many bytes the pipe holds: nwrite - nread, on uints.
abbrev pub count : Pipe → ℕ
count p = (p.nwrite + 2 ^ 32 - p.nread) % 2 ^ 32

-- The bytes in the pipe, oldest first.
abbrev pub contents : Pipe → List ℕ
contents p = window p.bytes p.nread (count p)

pub record IsValid (p : Pipe) : Type 0 where
  pub free : p.locked ≡ false
  pub read_fits : p.nread < 2 ^ 32
  pub write_fits : p.nwrite < 2 ^ 32
  pub room : count p ≤ 512

window-cong : (d : Mem) (r s k : ℕ) → r % 512 ≡ s % 512 → window d r k ≡ window d s k
window-cong d r s zero e = refl
window-cong d r s (suc k) e = ap₂ ◌∷◌ (ap d e) (window-cong d (r + 1) (s + 1) k (omega arith))

-- Writing just behind a window extends it.
window-store :
    (d : Mem) (r k i ch : ℕ)
    → k < 512
    → i ≡ (r + k) % 512
    → window (store d i ch) r (suc k) ≡ window d r k ++ (ch ∷ [])
unfolding store
window-store d r zero i ch lt e = ground arith
window-store d r (suc k) i ch lt e =
    let other : (r % 512 == i) ≡ false = ground arith in
    ground (arith, other, window-store d (r + 1) k i ch (omega arith) (omega arith))

-- `put` appends its byte to a pipe that is not full.
pub put-contents :
    (p : Pipe) (ch : ℕ)
    → p.nread < 2 ^ 32
    → p.nwrite < 2 ^ 32
    → count p < 512
    → (contents (put p ch) ≡ contents p ++ (ch ∷ [])) × (count (put p ch) ≡ count p + 1)
unfolding put
put-contents p ch hr hw room =
    let one : (p.nwrite + 1) % 2 ^ 32 + 2 ^ 32 - p.nread
        ≡ (p.nwrite + 1) % 2 ^ 32 + 2 ^ 32 - p.nread =
      refl in
    let more : count (put p ch) ≡ suc (count p) = omega arith in
    (
      rw more (window-store p.bytes p.nread (count p) (p.nwrite % 512) ch room (omega arith)),
      omega arith,
    )

-- The byte at `nread` is the oldest, and `skip` leaves the others.
pub skip-contents :
    (p : Pipe)
    → p.nread < 2 ^ 32
    → p.nwrite < 2 ^ 32
    → (p.nread == p.nwrite) ≡ false
    → (contents p ≡ p.bytes (p.nread % 512) ∷ contents (skip p)) × (count p ≡ count (skip p) + 1)
unfolding skip
skip-contents p hr hw ne =
    let differ : p.nread ≢ p.nwrite = (λ e. ground arith) in
    let one : count p ≡ suc (count (skip p)) = omega arith in
    (
      rw one (
          ap (λ l. p.bytes (p.nread % 512) ∷ l)
            (window-cong p.bytes (p.nread + 1) ((p.nread + 1) % 2 ^ 32) (count (skip p))
              (omega arith))),
      omega arith,
    )

pub count-zero_iff :
    (p : Pipe) → p.nread < 2 ^ 32 → p.nwrite < 2 ^ 32 → (p.nread == p.nwrite) ≡ true → count p ≡ 0
count-zero_iff p hr hw e = let e' : p.nread ≡ p.nwrite = ground arith in omega arith
