-- ===== src/Bytes/Strings.antt =====
-- The NUL-terminated strings of kernel/string.c: strncmp, strncpy, safestrcpy and strlen.
use minios.Base.{
  ℕ, zero, suc, ◌+◌, ◌-◌, ◌≤◌, ◌<◌, ◌≡◌, ◌≢◌, ◌↔◌, ◌⊎◌, inl, inr, refl, false, leb, ◌==◌,
  if◌then◌else◌, arith, Bool-cases, pos, List, [], ◌∷◌, get_or, length, subst, sym,
}
use minios.Bytes.{
  Mem, store, strncmp, pad, strncpy, safestrcpy_loop, safestrcpy, strlen_loop, strlen,
}
use minios.Bytes.Move.{within}

-- The C string at `s` in a field of `n` bytes: what stands before the first NUL, or all `n`.
abbrev pub name_at : Mem → ℕ → ℕ → List ℕ
name_at m s zero = []
name_at m s (suc n) = if m s == 0 then [] else m s ∷ name_at m (s + 1) n

length-name_at : (m : Mem) (s n : ℕ) → length (name_at m s n) ≤ n
length-name_at m s zero = omega arith
length-name_at m s (suc n) = ground (arith, length-name_at m (s + 1) n)

get_or_behind : (x : ℕ) (xs : List ℕ) (i j : ℕ) → i ≡ j + 1 → get_or (x ∷ xs) i 0 ≡ get_or xs j 0
get_or_behind x xs i j e = let e' : i ≡ suc j = omega arith in rw e'

-- `strncmp` is zero exactly when the two strings, cut at `n` bytes, are equal.
pub strncmp-eq-zero_iff :
    (m : Mem) (p q n : ℕ) → (strncmp m p q n ≡ pos 0) ↔ (name_at m p n ≡ name_at m q n)
unfolding strncmp
strncmp-eq-zero_iff m p q zero = (λ h. refl, λ h. refl)
strncmp-eq-zero_iff m p q (suc n) =
    let ih = strncmp-eq-zero_iff m (p + 1) (q + 1) n in
    (λ h. ground (arith, ih.0), λ h. ground (arith, ih.1))

pad_lem : (n s : ℕ) (m : Mem) (a : ℕ) → pad n s m a ≡ (if within s n a then 0 else m a)
unfolding pad store
pad_lem zero s m a = ground arith
pad_lem (suc n) s m a = ground (arith, pad_lem n (s + 1) (store m s 0) a)

-- `strncpy` writes only into its `n` bytes.
strncpy-outside : (m : Mem) (s t n a : ℕ) → within s n a ≡ false → strncpy m s t n a ≡ m a
unfolding strncpy
strncpy-outside m s t zero a h = refl
strncpy-outside m s t (suc n) a h = ground (
  arith,
  strncpy-outside (store m s (m t)) (s + 1) (t + 1) n a,
  pad_lem n (s + 1) (store m s (m t)) a,
)

name_at-store :
    (m : Mem) (s v t n : ℕ) → within t n s ≡ false → name_at (store m s v) t n ≡ name_at m t n
unfolding store
name_at-store m s v t zero h = refl
name_at-store m s v t (suc n) h = ground (arith, name_at-store m s v (t + 1) n)

-- Where the source does not start below the field that it reaches into, `strncpy` fills the field of
-- `n` bytes with the string at `t`, cut at `n` bytes, and NULs behind it, and writes nowhere else.
pub strncpy_lem :
    (m : Mem) (s t n a : ℕ)
    → (s ≤ t) ⊎ (t + n ≤ s)
    → strncpy m s t n a ≡ (if within s n a then get_or (name_at m t n) (a - s) 0 else m a)
unfolding strncpy store
strncpy_lem m s t zero a h = ground arith
strncpy_lem m s t (suc n) a h =
    let m' = store m s (m t) in
    let frame = name_at-store m s (m t) (t + 1) n (ground arith) in
    let ih = strncpy_lem m' (s + 1) (t + 1) n a (omega arith) in
    ground (
      arith,
      ih,
      frame,
      pad_lem n (s + 1) m' a,
      get_or_behind (m t) (name_at m (t + 1) n) (a - s) (a - (s + 1)),
    )

safestrcpy_loop-outside :
    (k s t : ℕ) (m : Mem) (a : ℕ) → within s (suc k) a ≡ false → safestrcpy_loop k s t m a ≡ m a
unfolding safestrcpy_loop store
safestrcpy_loop-outside zero s t m a h = ground arith
safestrcpy_loop-outside (suc k) s t m a h =
    ground (arith, safestrcpy_loop-outside k (s + 1) (t + 1) (store m s (m t)) a)

safestrcpy_loop-copy :
    (k s t : ℕ) (m : Mem)
    → (m t == 0) ≡ false
    → safestrcpy_loop (suc k) s t m ≡ safestrcpy_loop k (s + 1) (t + 1) (store m s (m t))
unfolding safestrcpy_loop
safestrcpy_loop-copy k s t m h = rw h

safestrcpy-suc : (m : Mem) (s t k : ℕ) → safestrcpy m s t (suc k) ≡ safestrcpy_loop k s t m
unfolding safestrcpy
safestrcpy-suc m s t k =
    let e : suc k - 1 ≡ k = omega arith in
    let ne : leb (suc k) 0 ≡ false = ground arith in rw (e, ne)

-- The copy of `k` bytes and a NUL, for `n = k + 1`.
safestrcpy_loop_lem :
    (k s t : ℕ) (m : Mem)
    → (s ≤ t) ⊎ (t + suc k ≤ s)
    → name_at (safestrcpy_loop k s t m) s (suc k) ≡ name_at m t k
unfolding safestrcpy_loop store
safestrcpy_loop_lem zero s t m h = ground arith
safestrcpy_loop_lem (suc k) s t m h =
    let m' = store m s (m t) in
    let ih = safestrcpy_loop_lem k (s + 1) (t + 1) m' (omega arith) in
    let first = safestrcpy_loop-outside k (s + 1) (t + 1) m' s (ground arith) in
    let frame = name_at-store m s (m t) (t + 1) k (ground arith) in
    elim (Bool-cases (m t == 0)) [
      | inl end ↦ rw end (ground arith)
      | inr more ↦
          subst (λ M. name_at M s (suc (suc k)) ≡ name_at m t (suc k))
            (sym (safestrcpy_loop-copy k s t m more)) (ground (arith, ih, first, frame))
    ]

-- With `n` positive and a source that does not start below the field that it reaches into,
-- `safestrcpy` leaves at `s` the string at `t` cut at `n - 1` bytes, so that a NUL ends it inside the
-- field of `n` bytes; and it writes nowhere else.
pub safestrcpy_lem :
    (m : Mem) (s t n : ℕ)
    → 0 < n
    → (s ≤ t) ⊎ (t + n ≤ s)
    → (name_at (safestrcpy m s t n) s n ≡ name_at m t (n - 1))
      × (length (name_at (safestrcpy m s t n) s n) < n)
      × ((a : ℕ) → within s n a ≡ false → safestrcpy m s t n a ≡ m a)
safestrcpy_lem m s t zero p h = absurd (omega arith)
safestrcpy_lem m s t (suc k) p h =
    let e : suc k - 1 ≡ k = omega arith in
    let copied = safestrcpy_loop_lem k s t m h in
    subst
      (λ M.
        (name_at M s (suc k) ≡ name_at m t (suc k - 1))
        × (length (name_at M s (suc k)) < suc k)
        × ((a : ℕ) → within s (suc k) a ≡ false → M a ≡ m a))
      (sym (safestrcpy-suc m s t k))
      (
        rw e copied,
        subst (λ (l : List ℕ). length l < suc k) (sym copied) (omega (arith, length-name_at m t k)),
        λ a out. safestrcpy_loop-outside k s t m a out,
      )

strlen_loop_lem :
    (f n s k : ℕ) (m : Mem)
    → n ≤ k
    → m (s + k) ≡ 0
    → k < n + f
    → (m (s + strlen_loop f n s m) ≡ 0)
      × (n ≤ strlen_loop f n s m)
      × ((j : ℕ) → n ≤ j → j < strlen_loop f n s m → m (s + j) ≢ 0)
unfolding strlen_loop
strlen_loop_lem zero n s k m h z lt = absurd (omega arith)
strlen_loop_lem (suc f) n s k m h z lt = elim (Bool-cases (m (s + n) == 0)) [
  | inl end ↦ rw end (ground arith, omega arith, λ j lo hi. absurd (omega arith))
  | inr more ↦
      let ne : n ≢ k = (λ e. ground arith) in
      let ih = strlen_loop_lem f (n + 1) s k m (omega arith) z (omega arith) in
      rw more (ih.0, omega arith, λ j lo hi. ground (arith, ih.2 j))
]

-- With a NUL at `s + k` and more than `k` rounds of fuel, `strlen` returns the offset of the first
-- NUL: there is a NUL there, and none before it.
pub strlen_lem :
    (fuel : ℕ) (m : Mem) (s k : ℕ)
    → m (s + k) ≡ 0
    → k < fuel
    → (m (s + strlen fuel m s) ≡ 0) × ((j : ℕ) → j < strlen fuel m s → m (s + j) ≢ 0)
unfolding strlen
strlen_lem fuel m s k z lt =
    let r = strlen_loop_lem fuel 0 s k m (omega arith) z (omega arith) in
    (r.0, λ j h. r.2 j (omega arith) h)
