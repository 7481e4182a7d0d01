-- ===== src/Bytes.antt =====
-- kernel/string.c over a memory of bytes. A pointer is its address; an access goes to the byte at
-- that address, and the callers' objects do not wrap round the address space.
pub mod Move
pub mod Strings
use minios.Base.{
  ℕ, zero, suc, ◌+◌, ◌-◌, ◌%◌, Bool, true, false, not, ◌&&◌, ltb, leb, ◌==◌, if◌then◌else◌, ℤ, pos,
  sub_ℕ,
}

abbrev pub Mem : Type 0
Mem = ℕ → ℕ

-- *a = c
unfoldable pub store : Mem → ℕ → ℕ → Mem
store m a c b = if b == a then c else m b

-- The rounds of `memset` from index `i` on, `n` of them left.
memset_loop : ℕ → ℕ → ℕ → ℕ → Mem → Mem
memset_loop zero i dst c m = m
memset_loop (suc n) i dst c m = memset_loop n (i + 1) dst c (store m (dst + i) (c % 256))

unfoldable pub memset : Mem → ℕ → ℕ → ℕ → Mem
unfolding memset_loop store
memset m dst c n = memset_loop n 0 dst c m

-- while(n-- > 0) *--d = *--s;
unfoldable pub move_down : ℕ → ℕ → ℕ → Mem → Mem
move_down zero d s m = m
move_down (suc n) d s m = move_down n (d - 1) (s - 1) (store m (d - 1) (m (s - 1)))

-- while(n-- > 0) *d++ = *s++;
unfoldable pub move_up : ℕ → ℕ → ℕ → Mem → Mem
move_up zero d s m = m
move_up (suc n) d s m = move_up n (d + 1) (s + 1) (store m d (m s))

unfoldable pub memmove : Mem → ℕ → ℕ → ℕ → Mem
unfolding move_down move_up store
memmove m dst src n =
    if n == 0
    then m
    else if ltb src dst && ltb dst (src + n)
    then move_down n (dst + n) (src + n) m
    else move_up n dst src m

unfoldable pub memcpy : Mem → ℕ → ℕ → ℕ → Mem
unfolding memmove
memcpy m dst src n = memmove m dst src n

unfoldable pub memcmp : Mem → ℕ → ℕ → ℕ → ℤ
memcmp m s1 s2 zero = pos 0
memcmp m s1 s2 (suc n) =
    let rest = memcmp m (s1 + 1) (s2 + 1) n in
    if not (m s1 == m s2) then sub_ℕ (m s1) (m s2) else rest

-- A byte is 0 exactly at the end of a C string.
unfoldable pub strncmp : Mem → ℕ → ℕ → ℕ → ℤ
strncmp m p q zero = pos 0
strncmp m p q (suc n) =
    let rest = strncmp m (p + 1) (q + 1) n in
    if not (m p == 0) && m p == m q then rest else sub_ℕ (m p) (m q)

-- The second loop of `strncpy`: while(n-- > 0) *s++ = 0;
pad : ℕ → ℕ → Mem → Mem
pad zero s m = m
pad (suc n) s m = pad n (s + 1) (store m s 0)

-- The first loop; it ends with `n` used up or behind a copied NUL.
unfoldable pub strncpy : Mem → ℕ → ℕ → ℕ → Mem
unfolding pad store
strncpy m s t zero = m
strncpy m s t (suc n) =
    let m' = store m s (m t) in
    let rest = strncpy m' (s + 1) (t + 1) n in if not (m t == 0) then rest else pad n (s + 1) m'

-- while(--n > 0 && (*s++ = *t++) != 0) ; *s = 0;
-- `k` is `n - 1`, the rounds that `--n > 0` still admits.
safestrcpy_loop : ℕ → ℕ → ℕ → Mem → Mem
safestrcpy_loop zero s t m = store m s 0
safestrcpy_loop (suc k) s t m =
    let m' = store m s (m t) in
    let rest = safestrcpy_loop k (s + 1) (t + 1) m' in
    if not (m t == 0) then rest else store m' (s + 1) 0

unfoldable pub safestrcpy : Mem → ℕ → ℕ → ℕ → Mem
unfolding safestrcpy_loop store
safestrcpy m s t n = if leb n 0 then m else safestrcpy_loop (n - 1) s t m

-- `for(n = 0; s[n]; n++)` on fuel; it reads past any end of the memory, as the source does.
strlen_loop : ℕ → ℕ → ℕ → Mem → ℕ
strlen_loop zero n s m = n
strlen_loop (suc f) n s m =
    let rest = strlen_loop f (n + 1) s m in if m (s + n) == 0 then n else rest

unfoldable pub strlen : ℕ → Mem → ℕ → ℕ
unfolding strlen_loop
strlen fuel m s = strlen_loop fuel 0 s m
