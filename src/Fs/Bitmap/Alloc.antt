-- ===== src/Fs/Bitmap/Alloc.antt =====
-- The free map of kernel/fs.c: which blocks are in use.
use minios.Base.{
  ℕ, zero, suc, ◌+◌, ◌/◌, ◌%◌, ◌<◌, ◌≤◌, ◌≡◌, ◌≢◌, ◌⊎◌, inl, inr, refl, none, some, ltb, ◌==◌,
  if◌then◌else◌, arith, Bool-cases,
}
use minios.Fs.{Fs, Bytes, bpb, bblock, write_block}
use minios.Fs.Bits.{bit, bit-set}
use minios.Fs.Bitmap.{set_bit, find_free}

-- The bit of block `b` in the free map.
abbrev pub in_use : Fs → ℕ → ℕ
in_use s b = bit (s.block (bblock b s) (b % bpb / 8)) (b % bpb % 8)

-- The free map has bytes, and its own blocks are in use, as is block 0.
pub record IsMapped (s : Fs) : Type 0 where
  pub bytes : (b i : ℕ) → s.block (b / bpb + s.bmapstart) i < 256
  pub boot : in_use s 0 ≡ 1
  pub own : (b : ℕ) → b < s.size → in_use s (b / bpb + s.bmapstart) ≡ 1
  pub inside : (b : ℕ) → b < s.size → b / bpb + s.bmapstart < s.size

-- The first free block from `b` on among the next `n`.
pub find_free_lem :
    (n bi b size : ℕ) (v : Bytes)
    → ((r : ℕ) × (find_free n bi b size v ≡ some r)
        × (bi ≤ r)
        × (r < bi + n)
        × (b + r < size)
        × (bit (v (r / 8)) (r % 8) ≡ 0)
        × ((c : ℕ) → bi ≤ c → c < r → bit (v (c / 8)) (c % 8) ≢ 0))
      ⊎ ((find_free n bi b size v ≡ none)
          × ((c : ℕ) → bi ≤ c → c < bi + n → b + c < size → bit (v (c / 8)) (c % 8) ≢ 0))
unfolding find_free
find_free_lem zero bi b size v = inr (refl, λ c h h' h''. absurd (omega arith))
find_free_lem (suc n) bi b size v = elim (Bool-cases (ltb (b + bi) size)) [
  | inr e ↦ inr (rw e refl, λ c h h' h''. absurd (ground arith))
  | inl e ↦ elim (Bool-cases (bit (v (bi / 8)) (bi % 8) == 0)) [
    | inl z ↦ inl (
      bi,
      rw (e, z) refl,
      omega arith,
      omega arith,
      ground arith,
      ground arith,
      λ c h h'. absurd (omega arith),
    )
    | inr z ↦ elim (find_free_lem n (bi + 1) b size v) [
      | inl (r, found, lo, hi, fits, free, before) ↦ inl (
        r,
        rw (e, z) found,
        omega arith,
        omega arith,
        fits,
        free,
        λ c h h'. elim (Bool-cases (c == bi)) [
          | inl same ↦ ground arith
          | inr other ↦ before c (ground arith) h'
        ],
      )
      | inr (found, full) ↦ inr (
        rw (e, z) found,
        λ c h h' h''. elim (Bool-cases (c == bi)) [
          | inl same ↦ ground arith
          | inr other ↦ full c (ground arith) (omega arith) h''
        ],
      )
    ]
  ]
]

-- One bit is set, seen at every block.
unfoldable pub marked : Fs → ℕ → Fs
marked s b = write_block (bblock b s) (set_bit (s.block (bblock b s)) (b % bpb)) s

pub marked-in_use :
    (s : Fs) (b c : ℕ)
    → IsMapped s
    → in_use s b ≡ 0
    → in_use (marked s b) c ≡ (if c == b then 1 else in_use s c)
unfolding marked write_block set_bit
marked-in_use s b c m free =
    let x = s.block (bblock b s) (b % bpb / 8) in
    let (flipped, _) =
      bit-set x (b % bpb % 8) (c % bpb % 8) (m.bytes b (b % bpb / 8)) (omega arith) (omega arith)
        free in
    elim (Bool-cases (bblock c s == bblock b s)) [
      | inr e ↦ ground (arith, flipped)
      | inl e ↦ elim (Bool-cases (c % bpb / 8 == b % bpb / 8)) [
        | inr e' ↦ ground (arith, flipped)
        | inl e' ↦ ground (arith, flipped)
      ]
    ]
