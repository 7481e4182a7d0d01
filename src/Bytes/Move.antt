-- ===== src/Bytes/Move.antt =====
-- memset, memmove and memcmp of kernel/string.c.
use minios.Base.{
  ℕ, zero, suc, ◌+◌, ◌-◌, ◌%◌, ◌≤◌, ◌≡◌, ◌↔◌, ◌⊎◌, inl, inr, refl, Bool, ◌&&◌, ltb, leb,
  if◌then◌else◌, arith, Bool-cases, pos, List, [], ◌∷◌,
}
use minios.Bytes.{Mem, store, memset_loop, memset, move_down, move_up, memmove, memcmp}

-- The address `a` is one of the `n` from `lo` on.
abbrev pub within : ℕ → ℕ → ℕ → Bool
within lo n a = leb lo a && ltb a (lo + n)

memset_loop_lem :
    (n i dst c : ℕ) (m : Mem) (a : ℕ)
    → memset_loop n i dst c m a ≡ (if within (dst + i) n a then c % 256 else m a)
unfolding memset_loop store
memset_loop_lem zero i dst c m a = ground arith
memset_loop_lem (suc n) i dst c m a =
    ground (arith, memset_loop_lem n (i + 1) dst c (store m (dst + i) (c % 256)) a)

-- `memset` puts the low byte of `c` into each of the `n` bytes from `dst` on, and leaves every
-- other byte of the memory as it is.
pub memset_lem :
    (m : Mem) (dst c n a : ℕ) → memset m dst c n a ≡ (if within dst n a then c % 256 else m a)
unfolding memset
memset_lem m dst c n a = ground (arith, memset_loop_lem n 0 dst c m a)

-- The upward copy is right where the destination does not start inside the source's rest.
pub move_up_lem :
    (n d s : ℕ) (m : Mem) (a : ℕ)
    → (d ≤ s) ⊎ (s + n ≤ d)
    → move_up n d s m a ≡ (if within d n a then m (s + (a - d)) else m a)
unfolding move_up store
move_up_lem zero d s m a h = ground arith
move_up_lem (suc n) d s m a h =
    let start : d ≡ a → s ≡ s + (a - d) = (λ e. omega arith) in
    let same : s + 1 + (a - (d + 1)) ≡ s + 1 + (a - d - 1) = omega arith in
    ground (arith, move_up_lem n (d + 1) (s + 1) (store m d (m s)) a (omega arith), start, same)

-- The downward copy is right where the destination lies above the source.
pub move_down_lem :
    (n d s d' s' : ℕ) (m : Mem) (a : ℕ)
    → s ≤ d
    → d' ≡ d + n
    → s' ≡ s + n
    → move_down n d' s' m a ≡ (if within d n a then m (s + (a - d)) else m a)
unfolding move_down store
move_down_lem zero d s d' s' m a h e f = ground arith
move_down_lem (suc n) d s d' s' m a h e f = ground (
  arith,
  move_down_lem n d s (d' - 1) (s' - 1) (store m (d' - 1) (m (s' - 1))) a h (omega arith)
      (omega arith),
)

-- `memmove` copies as if through a second buffer: afterwards each of the `n` bytes from `dst` on is
-- what the source held there before the call, also where the two ranges overlap, and no other byte
-- of the memory has changed.
pub memmove_lem :
    (m : Mem) (dst src n a : ℕ)
    → memmove m dst src n a ≡ (if within dst n a then m (src + (a - dst)) else m a)
unfolding memmove
memmove_lem m dst src n a = elim (Bool-cases (ltb src dst && ltb dst (src + n))) [
  | inl over ↦
      ground (arith, move_down_lem n dst src (dst + n) (src + n) m a (ground arith) refl refl)
  | inr apart ↦ ground (arith, move_up_lem n dst src m a (ground arith))
]

-- The `n` bytes from `s` on.
abbrev pub slice : Mem → ℕ → ℕ → List ℕ
slice m s zero = []
slice m s (suc n) = m s ∷ slice m (s + 1) n

-- `memcmp` is zero exactly when the two ranges hold the same bytes.
pub memcmp-eq-zero_iff :
    (m : Mem) (s1 s2 n : ℕ) → (memcmp m s1 s2 n ≡ pos 0) ↔ (slice m s1 n ≡ slice m s2 n)
unfolding memcmp
memcmp-eq-zero_iff m s1 s2 zero = (λ h. refl, λ h. refl)
memcmp-eq-zero_iff m s1 s2 (suc n) =
    let ih = memcmp-eq-zero_iff m (s1 + 1) (s2 + 1) n in
    (λ h. ground (arith, ih.0), λ h. ground (arith, ih.1))
