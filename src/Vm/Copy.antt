-- ===== src/Vm/Copy.antt =====
-- copyin of kernel/vm.c, and the rounds of copyin and copyout.
use native.Mathlib.Nat.{div-add-mod', mod-lt, one-le-pow}
use minios.Base.{
  ℕ, zero, suc, ◌+◌, ◌-◌, ◌*◌, ◌/◌, ◌%◌, ◌<◌, ◌≤◌, ◌≡◌, ◌≢◌, ◌⊎◌, inl, inr, refl, ap, ◌∙◌, fun_ext,
  sym, ◌^◌, true, false, not, ◌&&◌, leb, ltb, subst, ◌==◌, if◌then◌else◌, arith, Bool-cases, ℤ, pos,
  negsuc,
}
use minios.Kern.{Outcome, ok, and_then}
use minios.Kalloc.{Words, Kmem, page}
use minios.Vm.{
  maxva, byte, get_bytes, put_bytes, part, walk, walkaddr, writable, pte2pa, user_pa, copyout_loop,
  copyin_loop, copyin,
}
use minios.Vm.Tables.{walk_finds}

-- `v` is the byte at the address `a`: it stands at its place among the eight of a little-endian word.
pub record IsByteAt (m : Words) (a v : ℕ) : Type 0 where
  pub word : ℕ
  pub place : ℕ
  pub above : ℕ
  pub below : ℕ
  pub address : a ≡ 8 * word + place
  pub inside : place < 8
  pub value : m (8 * word) ≡ (above * 256 + v) * 2 ^ (8 * place) + below
  pub small : below < 2 ^ (8 * place)
  pub is_byte : v < 256

byte-IsByteAt : (m : Words) (a : ℕ) → IsByteAt m a (byte m a)
byte-IsByteAt m a =
    let w = m (a - a % 8) in
    let p = 2 ^ (8 * (a % 8)) in
    let pos : 0 < p = omega (arith, one-le-pow (8 * (a % 8)) 2 (omega arith)) in
    let start : 8 * (a / 8) ≡ a - a % 8 = omega arith in
    let split : w / p / 256 * 256 + w / p % 256 ≡ w / p = omega arith in
    record {
      word = a / 8;
      place = a % 8;
      above = w / p / 256;
      below = w % p;
      address = omega arith;
      inside = omega arith;
      value = ap m start ∙ sym (div-add-mod' w p) ∙ ap (λ (q : ℕ). q * p + w % p) (sym split);
      small = mod-lt w pos;
      is_byte = omega arith;
    }

-- The byte of the process's memory at `va`, by the page that walkaddr gives for it.
abbrev pub IsUserByte : Kmem → ℕ → ℕ → ℕ → Type 0
IsUserByte k pt va v =
    (pa : ℕ) × (walkaddr pt (va / page * page) k ≡ ok pa k)
    × (0 < pa)
    × IsByteAt k.words (pa + va % page) v

-- The `len` places of the buffer from `at` on hold the bytes from `va` on.
abbrev pub Brings : Kmem → ℕ → ℕ → ℕ → ℕ → (ℕ → ℕ) → Type 0
Brings k pt va at len dst = (i : ℕ) → i < len → IsUserByte k pt (va + i) (dst (at + i))

-- Two buffers agree but for the `len` places from `at` on.
abbrev pub Keeps : ℕ → ℕ → (ℕ → ℕ) → (ℕ → ℕ) → Type 0
Keeps at len dst dst' = (i : ℕ) → (i < at) ⊎ (at + len ≤ i) → dst' i ≡ dst i

walkaddr-ok : (pt va : ℕ) (k : Kmem) → (pa : ℕ) × (walkaddr pt va k ≡ ok pa k)
unfolding walkaddr
walkaddr-ok pt va k = elim (Bool-cases (leb maxva va)) [
  | inl e ↦ (0, rw e refl)
  | inr e ↦ elim (walk_finds pt va k (ground arith)) [
    | inl (a, w, r) ↦ (user_pa a k, rw e (ap (λ r. and_then r (λ pte k. ok (user_pa pte k) k)) w))
    | inr (w, no_way) ↦ (user_pa 0 k, rw e (ap (λ r. and_then r (λ pte k. ok (user_pa pte k) k)) w))
  ]
]

-- The result of copyin: 0 with all the bytes in the buffer, or -1 for an address with no user page.
abbrev pub CopyEnds : Kmem → ℕ → ℕ → ℕ → ℕ → (ℕ → ℕ) → Outcome Kmem (ℤ × (ℕ → ℕ)) → Type 0
CopyEnds k pt va at len dst r =
    ((dst' : ℕ → ℕ) × (r ≡ ok (pos 0, dst') k) × Brings k pt va at len dst' × Keeps at len dst dst')
    ⊎ ((dst' : ℕ → ℕ) × (u : ℕ) × (r ≡ ok (negsuc 0, dst') k)
        × Keeps at len dst dst'
        × (va ≤ u)
        × (u < va + len)
        × (walkaddr pt (u / page * page) k ≡ ok 0 k))

-- The addresses of one round.
round_address :
    (va len i : ℕ)
    → i < part va len
    → ((va + i) / page * page ≡ va / page * page) × ((va + i) % page ≡ va % page + i)
round_address va len i lt = (omega arith, omega arith)

-- The address of index `i` where a round starts behind the first `n`.
rest_address :
    (va len i : ℕ)
    → part va len ≤ i
    → i < len
    → va / page * page + page + (i - part va len) ≡ va + i
rest_address va len i ge lt = omega arith

module _ (k : Kmem) (pt : ℕ) where
  -- A round that copies from the page at `pa`, and the rounds behind it.
  round_Brings :
      (va at len pa : ℕ) (dst dst' : ℕ → ℕ)
      → walkaddr pt (va / page * page) k ≡ ok pa k
      → 0 < pa
      → Keeps
          (at + part va len)
          (len - part va len)
          (get_bytes k.words (pa + (va - va / page * page)) at (part va len) dst)
          dst'
      → Brings k pt (va / page * page + page) (at + part va len) (len - part va len) dst'
      → Brings k pt va at len dst'
  round_Brings va at len pa dst dst' w some_page kept rest i lt =
      let n = part va len in
      elim (Bool-cases (ltb i n)) [
        | inl e ↦
            let (same, offset) = round_address va len i (ground arith) in
            let here : (leb at (at + i) && ltb (at + i) (at + n)) ≡ true = ground arith in
            let from : pa + (va - va / page * page) + (at + i - at) ≡ pa + (va + i) % page =
              omega (arith, offset) in
            (
              pa,
              rw same w,
              some_page,
              subst (IsByteAt k.words (pa + (va + i) % page))
                  (sym (kept (at + i) (inl (ground arith)) ∙ rw here (ap (byte k.words) from)))
                  (byte-IsByteAt k.words (pa + (va + i) % page)),
            )
        | inr e ↦
            let ge : n ≤ i = ground arith in
            let place : at + n + (i - n) ≡ at + i = omega arith in
            subst (λ j. IsUserByte k pt (va + i) (dst' j)) place
              (subst (λ u. IsUserByte k pt u (dst' (at + n + (i - n))))
                (rest_address va len i ge lt) (rest (i - n) (omega arith)))
      ]

  round_Keeps :
      (va at len pa : ℕ) (dst dst' : ℕ → ℕ)
      → Keeps
          (at + part va len)
          (len - part va len)
          (get_bytes k.words pa at (part va len) dst)
          dst'
      → Keeps at len dst dst'
  round_Keeps va at len pa dst dst' kept i outside =
      let n = part va len in
      let out : (leb at i && ltb i (at + n)) ≡ false = ground arith in
      kept i (elim outside [ inl lo ↦ inl (omega arith) | inr hi ↦ inr (omega arith) ])
      ∙ rw out refl

copyin_loop_lem :
    (fuel pt va at len : ℕ) (dst : ℕ → ℕ) (k : Kmem)
    → len ≤ fuel
    → CopyEnds k pt va at len dst (copyin_loop fuel pt va at len dst k)
unfolding copyin_loop
copyin_loop_lem zero pt va at len dst k le =
    inl (dst, refl, λ i lt. absurd (omega arith), λ i out. refl)
copyin_loop_lem (suc fuel) pt va at len dst k le = elim (Bool-cases (len == 0)) [
  | inl e ↦ rw e (inl (dst, refl, λ i lt. absurd (ground arith), λ i out. refl))
  | inr e ↦
      let some_left : len ≢ 0 = (λ h. ground arith) in
      let va0 = va / page * page in
      let n = part va len in
      let (pa, w) = walkaddr-ok pt va0 k in
      let moved = get_bytes k.words (pa + (va - va0)) at n dst in
      elim (Bool-cases (pa == 0)) [
        | inl z ↦
            rw (e, w, z)
              (inr (
                dst,
                va,
                refl,
                λ i out. refl,
                omega arith,
                omega arith,
                w ∙ ap (λ a. ok a k) (ground arith),
              ))
        | inr z ↦
            rw (e, w, z)
              (elim (copyin_loop_lem fuel pt (va0 + page) (at + n) (len - n) moved k
                (omega arith)) [
                  | inl (dst', r, brings, kept) ↦ inl (
                    dst',
                    r,
                    round_Brings k pt va at len pa dst dst' w (ground arith) kept brings,
                    round_Keeps k pt va at len (pa + (va - va0)) dst dst' kept,
                  )
                  | inr (dst', u, r, kept, from, below, missing) ↦ inr (
                    dst',
                    u,
                    r,
                    round_Keeps k pt va at len (pa + (va - va0)) dst dst' kept,
                    omega arith,
                    omega arith,
                    missing,
                  )
                ])
      ]
]

-- copyin of `len` bytes from `va` on into a buffer of the kernel: it leaves the page tables and the
-- process's memory alone and the buffer outside the `len` bytes as it was; and it returns 0, with each
-- of these being the byte of the process's memory at its address, in the page that walkaddr gives for
-- it, or it returns -1, and walkaddr gives 0 for the page of one of the addresses asked for.
pub copyin_lem :
    (pt va len : ℕ) (dst : ℕ → ℕ) (k : Kmem) → CopyEnds k pt va 0 len dst (copyin pt dst va len k)
unfolding copyin
copyin_lem pt va len dst k = copyin_loop_lem len pt va 0 len dst k (omega arith)

-- copyout stops because it is done, not because the model's rounds are used up: one more round than
-- there are bytes to copy makes no difference.
pub copyout_loop_fuel :
    (fuel pt va : ℕ) (src : ℕ → ℕ) (at len : ℕ) (k : Kmem)
    → len ≤ fuel
    → copyout_loop (suc fuel) pt va src at len k ≡ copyout_loop fuel pt va src at len k
unfolding copyout_loop
copyout_loop_fuel zero pt va src at len k le =
    let none_left : (len == 0) ≡ true = ground arith in rw none_left refl
copyout_loop_fuel (suc fuel) pt va src at len k le = elim (Bool-cases (len == 0)) [
  | inl e ↦ rw e refl
  | inr e ↦
      let some_left : len ≢ 0 = (λ h. ground arith) in
      let va0 = va / page * page in
      let n = part va len in
      rw e (
        ap (λ r. if leb maxva va0 then ok (negsuc 0) k else r)
          (ap (and_then (walk pt va0 false k)) (
            fun_ext λ pte. fun_ext λ k.
              let moved =
                put_bytes k.words (pte2pa (k.words pte) + (va - va0)) n (λ i. src (at + i)) in
              ap (λ r. if not (writable pte k) then ok (negsuc 0) k else r)
                (copyout_loop_fuel fuel pt (va0 + page) src (at + n) (len - n)
                  (record k { words = moved }) (omega arith)))))
]
