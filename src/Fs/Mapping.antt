-- ===== src/Fs/Mapping.antt =====
-- bmap of kernel/fs.c gives a block of a file one address, and keeps it.
use minios.Base.{
  ℕ, ◌-◌, ◌*◌, ◌^◌, ◌<◌, ◌≤◌, ◌≡◌, ◌⊎◌, inl, inr, refl, sym, ap, ◌∙◌, subst, true, false, ltb, ◌==◌,
  ==_refl, arith, Bool-cases,
}
use minios.Kern.{Outcome, ok, asleep, panic}
use minios.Fs.{Fs, ndirect, nindirect, maxfile, write_block}
use minios.Fs.Words.{load, load-store}
use minios.Fs.Bitmap.{balloc}
use minios.Fs.Bitmap.Alloc.{IsMapped, in_use}
use minios.Fs.Bitmap.Balloc.{balloc_lem}
use minios.Fs.Content.{set_addr, need_addr, need_entry, bmap}

-- What balloc leaves of a mapped disk: the inodes and the size, and the map in order; its address
-- is below the size.
balloc-kept :
    (s : Fs)
    → IsMapped s
    → ((balloc s).1.inode ≡ s.inode)
      × IsMapped (balloc s).1
      × ((balloc s).1.size ≡ s.size)
      × (((balloc s).0 ≡ 0) ⊎ ((balloc s).0 < s.size))
balloc-kept s m = elim (balloc_lem s m) [
  | inl (pos, t) ↦ (t.inodes, t.mapped, t.sizes, inr t.fits)
  | inr (zero_addr, same, full) ↦
      (ap (λ t. t.inode) same, subst IsMapped (sym same) m, ap (λ t. t.size) same, inl zero_addr)
]

set_addr-IsMapped : (ip k addr : ℕ) (s : Fs) → IsMapped s → IsMapped (set_addr ip k addr s)
unfolding set_addr
set_addr-IsMapped ip k addr s m = record {
  bytes = m.bytes;
  boot = m.boot;
  own = m.own;
  inside = m.inside;
}

need_addr-old :
    (ip k : ℕ) (s : Fs) → 0 < (s.inode ip).addrs k → need_addr ip k s ≡ ((s.inode ip).addrs k, s)
unfolding need_addr
need_addr-old ip k s pos =
    let used : ((s.inode ip).addrs k == 0) ≡ false = ground arith in rw used refl

-- Every block of the disk is marked in use.
abbrev pub IsFull : Fs → Type 0
IsFull s = (c : ℕ) → c < s.size → in_use s c ≡ 1

-- A balloc that fails finds the disk full.
balloc-IsFull : (s : Fs) → IsMapped s → (balloc s).0 ≡ 0 → IsFull (balloc s).1
balloc-IsFull s m e = elim (balloc_lem s m) [
  | inl (pos, t) ↦ absurd (omega arith)
  | inr (zero_addr, same, full) ↦ subst IsFull (sym same) full
]

-- The address that need_addr returns is in the inode then, or it is 0 and the disk is full.
need_addr-set :
    (ip k : ℕ) (s : Fs)
    → IsMapped s
    → (((need_addr ip k s).0 ≡ 0) × IsFull (need_addr ip k s).1)
      ⊎ ((0 < (need_addr ip k s).0)
          × (((need_addr ip k s).1.inode ip).addrs k ≡ (need_addr ip k s).0))
unfolding need_addr set_addr
need_addr-set ip k s m = elim (Bool-cases ((s.inode ip).addrs k == 0)) [
  | inr e ↦ rw e (inr (ground arith, refl))
  | inl e ↦ elim (Bool-cases ((balloc s).0 == 0)) [
    | inl f ↦ rw (e, f) (inl (refl, balloc-IsFull s m (ground arith)))
    | inr f ↦ rw (e, f, ==_refl ip, ==_refl k) (inr (ground arith, refl))
  ]
]

need_addr-IsMapped : (ip k : ℕ) (s : Fs) → IsMapped s → IsMapped (need_addr ip k s).1
unfolding need_addr
need_addr-IsMapped ip k s m =
    let (_, kept, _, _) = balloc-kept s m in
    elim (Bool-cases ((s.inode ip).addrs k == 0)) [
      | inr e ↦ rw e m
      | inl e ↦ elim (Bool-cases ((balloc s).0 == 0)) [
        | inl f ↦ rw (e, f) kept
        | inr f ↦ rw (e, f) (set_addr-IsMapped ip k (balloc s).0 (balloc s).1 kept)
      ]
    ]

need_addr_again :
    (ip k : ℕ) (s : Fs)
    → IsMapped s
    → 0 < (need_addr ip k s).0
    → need_addr ip k (need_addr ip k s).1 ≡ need_addr ip k s
need_addr_again ip k s m pos = elim (need_addr-set ip k s m) [
  | inl (e, full) ↦ absurd (omega arith)
  | inr (h, e) ↦
      need_addr-old ip k (need_addr ip k s).1 (subst (λ a. 0 < a) (sym e) pos)
      ∙ ap (λ a. (a, (need_addr ip k s).1)) e
]

need_addr-size : (ip k : ℕ) (s : Fs) → IsMapped s → (need_addr ip k s).1.size ≡ s.size
unfolding need_addr set_addr
need_addr-size ip k s m =
    let (_, _, same, _) = balloc-kept s m in
    elim (Bool-cases ((s.inode ip).addrs k == 0)) [
      | inr e ↦ rw e refl
      | inl e ↦ elim (Bool-cases ((balloc s).0 == 0)) [
        | inl f ↦ rw (e, f) same
        | inr f ↦ rw (e, f) same
      ]
    ]

need_entry-old :
    (ind bn : ℕ) (s : Fs)
    → 0 < load 4 (s.block ind) (4 * bn)
    → need_entry ind bn s ≡ (load 4 (s.block ind) (4 * bn), s)
unfolding need_entry
need_entry-old ind bn s pos =
    let used : (load 4 (s.block ind) (4 * bn) == 0) ≡ false = ground arith in rw used refl

need_entry-set :
    (ind bn : ℕ) (s : Fs)
    → IsMapped s
    → s.size ≤ 2 ^ 32
    → ((need_entry ind bn s).1.inode ≡ s.inode)
      × ((((need_entry ind bn s).0 ≡ 0) × IsFull (need_entry ind bn s).1)
          ⊎ ((0 < (need_entry ind bn s).0)
              × (load 4 ((need_entry ind bn s).1.block ind) (4 * bn) ≡ (need_entry ind bn s).0)))
unfolding need_entry write_block
need_entry-set ind bn s m small =
    let (same, _, _, fits) = balloc-kept s m in
    elim (Bool-cases (load 4 (s.block ind) (4 * bn) == 0)) [
      | inr e ↦ rw e (refl, inr (ground arith, refl))
      | inl e ↦ elim (Bool-cases ((balloc s).0 == 0)) [
        | inl f ↦ rw (e, f) (same, inl (refl, balloc-IsFull s m (ground arith)))
        | inr f ↦
            rw (e, f, ==_refl ind)
              (
                same,
                inr (
                  ground arith,
                  load-store 4 ((balloc s).1.block ind) (4 * bn) (balloc s).0
                      (ground (arith, fits)),
                ),
              )
      ]
    ]

need_entry_again :
    (ind bn : ℕ) (s : Fs)
    → IsMapped s
    → s.size ≤ 2 ^ 32
    → 0 < (need_entry ind bn s).0
    → need_entry ind bn (need_entry ind bn s).1 ≡ need_entry ind bn s
need_entry_again ind bn s m small pos =
    let (_, set) = need_entry-set ind bn s m small in
    elim set [
      | inl (e, full) ↦ absurd (omega arith)
      | inr (h, e) ↦
          need_entry-old ind bn (need_entry ind bn s).1 (subst (λ a. 0 < a) (sym e) pos)
          ∙ ap (λ a. (a, (need_entry ind bn s).1)) e
    ]

-- An address that is found or allocated, and then found again with no change; or none, on a disk that
-- is full then.
abbrev pub Stays : ℕ → ℕ → Outcome Fs ℕ → Type 0
Stays ip bn (ok addr t) = ((addr ≡ 0) × IsFull t) ⊎ ((0 < addr) × (bmap ip bn t ≡ ok addr t))
Stays ip bn (asleep t) = ⊥
Stays ip bn panic = ⊥

bmap-direct :
    (ip bn : ℕ) (s : Fs)
    → bn < ndirect
    → bmap ip bn s ≡ ok (need_addr ip bn s).0 (need_addr ip bn s).1
unfolding bmap
bmap-direct ip bn s lt = let small : ltb bn ndirect ≡ true = ground arith in rw small refl

bmap-indirect :
    (ip bn : ℕ) (s : Fs)
    → ndirect ≤ bn
    → bn < maxfile
    → 0 < (need_addr ip ndirect s).0
    → let (ind, t) = need_addr ip ndirect s in
      let (addr, u) = need_entry ind (bn - ndirect) t in bmap ip bn s ≡ ok addr u
unfolding bmap
bmap-indirect ip bn s ge lt pos =
    let large : ltb bn ndirect ≡ false = ground arith in
    let fits : ltb (bn - ndirect) nindirect ≡ true = ground arith in
    let some_block : ((need_addr ip ndirect s).0 == 0) ≡ false = ground arith in
    rw (large, fits, some_block) refl

bmap-no_indirect :
    (ip bn : ℕ) (s : Fs)
    → ndirect ≤ bn
    → bn < maxfile
    → (need_addr ip ndirect s).0 ≡ 0
    → bmap ip bn s ≡ ok 0 (need_addr ip ndirect s).1
unfolding bmap
bmap-no_indirect ip bn s ge lt none_left =
    let large : ltb bn ndirect ≡ false = ground arith in
    let fits : ltb (bn - ndirect) nindirect ≡ true = ground arith in
    let no_block : ((need_addr ip ndirect s).0 == 0) ≡ true = ground arith in
    rw (large, fits, no_block) refl

-- The second call finds the indirect block and its entry.
found_again :
    (ip bn ind addr : ℕ) (u : Fs)
    → ndirect ≤ bn
    → bn < maxfile
    → 0 < ind
    → (u.inode ip).addrs ndirect ≡ ind
    → need_entry ind (bn - ndirect) u ≡ (addr, u)
    → bmap ip bn u ≡ ok addr u
found_again ip bn ind addr u ge lt pos at e =
    let same : need_addr ip ndirect u ≡ (ind, u) =
      need_addr-old ip ndirect u (subst (λ a. 0 < a) (sym at) pos) ∙ ap (λ a. (a, u)) at in
    let used : 0 < (need_addr ip ndirect u).0 = subst (λ p. 0 < p.0) (sym same) pos in
    bmap-indirect ip bn u ge lt used
    ∙ ap
        (λ (p : ℕ × Fs).
          ok (need_entry p.0 (bn - ndirect) p.1).0 (need_entry p.0 (bn - ndirect) p.1).1)
        same
    ∙ ap (λ (p : ℕ × Fs). ok p.0 p.1) e

indirect-Stays :
    (ip bn : ℕ) (s : Fs)
    → IsMapped s
    → s.size ≤ 2 ^ 32
    → ndirect ≤ bn
    → bn < maxfile
    → 0 < (need_addr ip ndirect s).0
    → ((need_addr ip ndirect s).1.inode ip).addrs ndirect ≡ (need_addr ip ndirect s).0
    → Stays ip bn (bmap ip bn s)
indirect-Stays ip bn s m small ge lt pos at =
    let ind = (need_addr ip ndirect s).0 in
    let t = (need_addr ip ndirect s).1 in
    let mt = need_addr-IsMapped ip ndirect s m in
    let size_t : t.size ≤ 2 ^ 32 = omega (arith, need_addr-size ip ndirect s m) in
    let (inodes, set) = need_entry-set ind (bn - ndirect) t mt size_t in
    subst (Stays ip bn) (sym (bmap-indirect ip bn s ge lt pos)) (elim set [
      | inl e ↦ inl e
      | inr (h, e) ↦ inr (
        h,
        found_again ip bn ind (need_entry ind (bn - ndirect) t).0
            (need_entry ind (bn - ndirect) t).1 ge lt pos
            (ap (λ f. (f ip).addrs ndirect) inodes ∙ at)
            (need_entry_again ind (bn - ndirect) t mt size_t h),
      )
    ])

-- bmap of a block number below MAXFILE, on a mapped disk of at most 2 ^ 32 blocks, returns an address
-- that is not 0, and a second call of bmap returns it again and changes nothing; or it returns 0, and
-- then it leaves a disk on which every block is marked in use.
pub bmap_lem :
    (ip bn : ℕ) (s : Fs) → IsMapped s → s.size ≤ 2 ^ 32 → bn < maxfile → Stays ip bn (bmap ip bn s)
bmap_lem ip bn s m small lt = elim (Bool-cases (ltb bn ndirect)) [
  | inl d ↦
      let low : bn < ndirect = ground arith in
      subst (Stays ip bn) (sym (bmap-direct ip bn s low)) (elim (need_addr-set ip bn s m) [
        | inl e ↦ inl e
        | inr (h, e) ↦ inr (
          h,
          bmap-direct ip bn (need_addr ip bn s).1 low
              ∙ ap (λ (p : ℕ × Fs). ok p.0 p.1) (need_addr_again ip bn s m h),
        )
      ])
  | inr d ↦
      let ge : ndirect ≤ bn = ground arith in
      elim (need_addr-set ip ndirect s m) [
        | inl (e, full) ↦
            subst (Stays ip bn) (sym (bmap-no_indirect ip bn s ge lt e)) (inl (refl, full))
        | inr (h, e) ↦ indirect-Stays ip bn s m small ge lt h e
      ]
]

-- bmap panics for a block number from MAXFILE on.
pub bmap_range : (ip bn : ℕ) (s : Fs) → maxfile ≤ bn → bmap ip bn s ≡ panic
unfolding bmap
bmap_range ip bn s h = ground arith
