-- ===== src/Fs/Bitmap/Balloc.antt =====
-- What balloc and bfree of kernel/fs.c do to the free map.
use minios.Base.{
  ℕ, zero, suc, ◌+◌, ◌-◌, ◌*◌, ◌/◌, ◌%◌, ◌<◌, ◌≤◌, ◌≡◌, ◌≢◌, ◌⊎◌, inl, inr, refl, sym, subst, ◌∙◌,
  false, some, ◌∷◌, ltb, ◌==◌, if◌then◌else◌, arith, Bool-cases,
}
use minios.Kern.{ok, panic}
use minios.Fs.{Fs, bpb, bblock, write_block}
use minios.Fs.Bits.{bit, bit-set, bit-clear}
use minios.Fs.Bitmap.{bzero, set_bit, clear_bit, take_free, balloc_loop, balloc, bfree}
use minios.Fs.Bitmap.Alloc.{in_use, IsMapped, find_free_lem, marked, marked-in_use}

-- `addr` was the first free block of `s`, and `t` is `s` with it taken and zeroed.
pub record Takes (s : Fs) (addr : ℕ) (t : Fs) : Type 0 where
  pub free : in_use s addr ≡ 0
  pub fits : addr < s.size
  pub first : (c : ℕ) → c < addr → in_use s c ≡ 1
  pub map : (c : ℕ) → c < s.size → in_use t c ≡ (if c == addr then 1 else in_use s c)
  pub zeroed : (i : ℕ) → t.block addr i ≡ 0
  pub others : (c : ℕ) → c ≢ addr → c ≢ bblock addr s → t.block c ≡ s.block c
  pub logs : t.logged ≡ addr ∷ bblock addr s ∷ s.logged
  pub inodes : t.inode ≡ s.inode
  pub sizes : t.size ≡ s.size
  pub mapped : IsMapped t

took : Fs → ℕ → Fs
unfolding marked bzero
took s b = bzero b (marked s b)

-- A block of the free map is not a free block.
map_kept : (s : Fs) (b c : ℕ) → IsMapped s → in_use s b ≡ 0 → c < s.size → bblock c s ≢ b
map_kept s b c m free lt e =
    let own : in_use s (bblock c s) ≡ 1 = m.own c lt in
    let zero_one : ◌≡◌ {A = ℕ} 0 1 = sym free ∙ subst (λ x. in_use s x ≡ 1) e own in omega arith

took-in_use :
    (s : Fs) (b c : ℕ)
    → IsMapped s
    → in_use s b ≡ 0
    → c < s.size
    → in_use (took s b) c ≡ (if c == b then 1 else in_use s c)
unfolding took bzero marked write_block
took-in_use s b c m free lt =
    let away : (bblock c s == b) ≡ false = ground (arith, map_kept s b c m free lt) in
    rw away (marked-in_use s b c m free)

set_bit-byte :
    (s : Fs) (b c i : ℕ) → IsMapped s → in_use s b ≡ 0 → (marked s b).block (bblock c s) i < 256
unfolding marked write_block set_bit
set_bit-byte s b c i m free =
    let (_, small) =
      bit-set (s.block (bblock b s) (b % bpb / 8)) (b % bpb % 8) 0 (m.bytes b (b % bpb / 8))
        (omega arith) (omega arith) free in
    ground (arith, m.bytes c i, m.bytes b i)

took-byte :
    (s : Fs) (b c i : ℕ) → IsMapped s → in_use s b ≡ 0 → (took s b).block (bblock c s) i < 256
unfolding took bzero write_block
took-byte s b c i m free = ground (arith, set_bit-byte s b c i m free)

took-IsMapped : (s : Fs) (b : ℕ) → IsMapped s → in_use s b ≡ 0 → 0 < s.size → IsMapped (took s b)
unfolding took bzero marked write_block
took-IsMapped s b m free pos = record {
  bytes = λ c i. took-byte s b c i m free;
  boot = ground (arith, took-in_use s b 0 m free pos, m.boot);
  own = λ c lt. ground (arith, took-in_use s b (bblock c s) m free (m.inside c lt), m.own c lt);
  inside = m.inside;
}

-- The block that the inner loop finds in the free map's block for `b`.
found-Takes :
    (s : Fs) (b r : ℕ)
    → IsMapped s
    → b % bpb ≡ 0
    → r < bpb
    → b + r < s.size
    → bit (s.block (bblock b s) (r / 8)) (r % 8) ≡ 0
    → ((c : ℕ) → c < b + r → in_use s c ≡ 1)
    → Takes s (b + r) (took s (b + r))
unfolding took bzero marked write_block
found-Takes s b r m al small fits clear before =
    let same : bblock (b + r) s ≡ bblock b s = omega arith in
    let at : (b + r) % bpb ≡ r = omega arith in
    let free : in_use s (b + r) ≡ 0 = rw (same, at) clear in
    record {
      free = free;
      fits = fits;
      first = before;
      map = λ c lt. took-in_use s (b + r) c m free lt;
      zeroed = λ i. ground arith;
      others = λ c ne ne'. ground arith;
      logs = refl;
      inodes = refl;
      sizes = refl;
      mapped = took-IsMapped s (b + r) m free (omega arith);
    }

abbrev pub BallocEnds : Fs → ℕ × Fs → Type 0
BallocEnds s (addr, t) =
    ((0 < addr) × Takes s addr t) ⊎ ((addr ≡ 0) × (t ≡ s) × ((c : ℕ) → c < s.size → in_use s c ≡ 1))

-- What the inner loop has passed is in use.
passed_bit :
    (s : Fs) (b c r : ℕ)
    → b % bpb ≡ 0
    → ((c : ℕ) → c < b → in_use s c ≡ 1)
    → ((c : ℕ) → 0 ≤ c → c < r → bit (s.block (bblock b s) (c / 8)) (c % 8) ≢ 0)
    → r ≤ bpb
    → c < b + r
    → in_use s c ≡ 1
passed_bit s b c r al before passed small lt = elim (Bool-cases (ltb c b)) [
  | inl e ↦ before c (ground arith)
  | inr e ↦
      let above : b ≤ c = ground arith in
      let same : bblock c s ≡ bblock b s = omega arith in
      let at : c % bpb ≡ c - b = omega arith in
      let set = passed (c - b) (omega arith) (omega arith) in rw (same, at) (omega arith)
]

found-free :
    (s : Fs) (b r : ℕ)
    → b % bpb ≡ 0
    → r < bpb
    → bit (s.block (bblock b s) (r / 8)) (r % 8) ≡ 0
    → in_use s (b + r) ≡ 0
found-free s b r al small clear =
    let same : bblock (b + r) s ≡ bblock b s = omega arith in
    let at : (b + r) % bpb ≡ r = omega arith in rw (same, at) clear

found-pos : (s : Fs) (b : ℕ) → IsMapped s → in_use s b ≡ 0 → 0 < b
found-pos s zero m free = omega (arith, m.boot)
found-pos s (suc b) m free = omega arith

take_free-took :
    (b r : ℕ) (s : Fs) (rest : ℕ × Fs)
    → b % bpb ≡ 0
    → r < bpb
    → take_free b (some r) s rest ≡ (b + r, took s (b + r))
unfolding take_free took marked
take_free-took b r s rest al small =
    let same : bblock (b + r) s ≡ bblock b s = omega arith in
    let at : (b + r) % bpb ≡ r = omega arith in rw (same, at) refl

-- A block that has no free bit in its part of the free map.
full_bit :
    (s : Fs) (b c : ℕ)
    → b % bpb ≡ 0
    → ((c : ℕ) → c < b → c < s.size → in_use s c ≡ 1)
    → ((c : ℕ)
        → 0 ≤ c
        → c < 0 + bpb
        → b + c < s.size
        → bit (s.block (bblock b s) (c / 8)) (c % 8) ≢ 0)
    → c < b + bpb
    → c < s.size
    → in_use s c ≡ 1
full_bit s b c al before full lt fits = elim (Bool-cases (ltb c b)) [
  | inl e ↦ before c (ground arith) fits
  | inr e ↦
      let above : b ≤ c = ground arith in
      let same : bblock c s ≡ bblock b s = omega arith in
      let at : c % bpb ≡ c - b = omega arith in
      let set = full (c - b) (omega arith) (omega arith) (omega arith) in
      rw (same, at) (omega arith)
]

balloc_loop_lem :
    (n b : ℕ) (s : Fs)
    → IsMapped s
    → b % bpb ≡ 0
    → s.size ≤ b + n * bpb
    → ((c : ℕ) → c < b → c < s.size → in_use s c ≡ 1)
    → BallocEnds s (balloc_loop n b s)
unfolding balloc_loop take_free
balloc_loop_lem zero b s m al enough before = inr (refl, refl, λ c lt. before c (omega arith) lt)
balloc_loop_lem (suc n) b s m al enough before = elim (Bool-cases (ltb b s.size)) [
  | inr e ↦ rw e (inr (refl, refl, λ c lt. before c (ground arith) lt))
  | inl e ↦ elim (find_free_lem bpb 0 b s.size (s.block (bblock b s))) [
    | inl (r, found, lo, hi, fits, clear, passed) ↦
        let below : (c : ℕ) → c < b → in_use s c ≡ 1 = (λ c lt. before c lt (omega arith)) in
        let earlier : (c : ℕ) → c < b + r → in_use s c ≡ 1 =
          (λ c lt. passed_bit s b c r al below passed (omega arith) lt) in
        let free = found-free s b r al hi clear in
        rw e (
          subst (λ o. BallocEnds s (take_free b o s (balloc_loop n (b + bpb) s))) (sym found)
            (subst (BallocEnds s) (sym (take_free-took b r s (balloc_loop n (b + bpb) s) al hi))
              (inl (found-pos s (b + r) m free, found-Takes s b r m al hi fits clear earlier))))
    | inr (found, full) ↦ rw e (
        subst (λ o. BallocEnds s (take_free b o s (balloc_loop n (b + bpb) s))) (sym found)
          (balloc_loop_lem n (b + bpb) s m (omega arith) (omega arith)
            (λ c lt fits. full_bit s b c al before full lt fits)))
  ]
]

-- balloc on a disk whose free map is in order, with its own blocks in use: it returns the first
-- free block, which it marks in use and fills with zeros, and no other block's mark or contents
-- change; both blocks that it writes are given to log_write, and the free map stays in order. On a
-- disk with no free block it returns 0 and changes nothing.
pub balloc_lem : (s : Fs) → IsMapped s → BallocEnds s (balloc s)
unfolding balloc
balloc_lem s m =
    balloc_loop_lem (s.size / bpb + 1) 0 s m refl (omega arith) (λ c lt fits. absurd (omega arith))

cleared : Fs → ℕ → Fs
cleared s b = write_block (bblock b s) (clear_bit (s.block (bblock b s)) (b % bpb)) s

cleared-in_use :
    (s : Fs) (b c : ℕ)
    → IsMapped s
    → in_use s b ≡ 1
    → in_use (cleared s b) c ≡ (if c == b then 0 else in_use s c)
unfolding cleared write_block clear_bit
cleared-in_use s b c m used =
    let x = s.block (bblock b s) (b % bpb / 8) in
    let (flipped, _) =
      bit-clear x (b % bpb % 8) (c % bpb % 8) (m.bytes b (b % bpb / 8)) (omega arith) (omega arith)
        used in
    elim (Bool-cases (bblock c s == bblock b s)) [
      | inr e ↦ ground (arith, flipped)
      | inl e ↦ elim (Bool-cases (c % bpb / 8 == b % bpb / 8)) [
        | inr e' ↦ ground (arith, flipped)
        | inl e' ↦ ground (arith, flipped)
      ]
    ]

-- bfree of a block that is in use, on a disk whose free map is in order: the block's mark is cleared
-- and no other; a block other than that of its mark is unchanged, and that one is given to
-- log_write.
pub bfree_lem :
    (s : Fs) (b c d : ℕ)
    → IsMapped s
    → in_use s b ≡ 1
    → d ≢ bblock b s
    → (t : Fs) × (bfree b s ≡ ok tt t)
      × (in_use t c ≡ (if c == b then 0 else in_use s c))
      × (t.block d ≡ s.block d)
      × (t.logged ≡ bblock b s ∷ s.logged)
unfolding bfree write_block cleared
bfree_lem s b c d m used ne =
    (cleared s b, rw used refl, cleared-in_use s b c m used, ground arith, refl)

-- bfree panics for a block that is free.
pub bfree_free : (s : Fs) (b : ℕ) → in_use s b ≡ 0 → bfree b s ≡ panic
unfolding bfree
bfree_free s b free = rw free refl
