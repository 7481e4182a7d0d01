-- ===== src/Fs/Bitmap.antt =====
-- balloc and bfree of kernel/fs.c.
pub mod Alloc
pub mod Balloc
use minios.Base.{
  ℕ, zero, suc, ◌+◌, ◌-◌, ◌*◌, ◌/◌, ◌%◌, ◌^◌, Bool, not, ◌&&◌, Option, none, some, ltb, leb, ◌==◌,
  if◌then◌else◌,
}
use minios.Kern.{Outcome, ok, panic}
use minios.Fs.{Fs, Bytes, bpb, bblock, write_block}
use minios.Fs.Bits.{bit}

unfoldable pub bzero : ℕ → Fs → Fs
bzero b s = write_block b (λ i. 0) s

-- bp->data[bi/8] |= m where that bit is clear, and bp->data[bi/8] &= ~m where it is set.
unfoldable pub set_bit : Bytes → ℕ → Bytes
set_bit v bi i = if i == bi / 8 then v i + 2 ^ (bi % 8) else v i

unfoldable pub clear_bit : Bytes → ℕ → Bytes
clear_bit v bi i = if i == bi / 8 then v i - 2 ^ (bi % 8) else v i

-- The inner loop of balloc, from bit `bi` of the block for `b` on.
unfoldable pub find_free : ℕ → ℕ → ℕ → ℕ → Bytes → Option ℕ
find_free zero bi b size v = none
find_free (suc n) bi b size v =
    let rest = find_free n (bi + 1) b size v in
    if not (ltb (b + bi) size)
    then none
    else if bit (v (bi / 8)) (bi % 8) == 0
    then some bi
    else rest

-- Mark the block in use, zero it, and return it; or go on with `rest`.
unfoldable pub take_free : ℕ → Option ℕ → Fs → ℕ × Fs → ℕ × Fs
take_free b (some bi) s rest =
    let bm = bblock b s in (b + bi, bzero (b + bi) (write_block bm (set_bit (s.block bm) bi) s))
take_free b none s rest = rest

-- The outer loop, from block `b` on. Address 0 is for a full disk.
unfoldable pub balloc_loop : ℕ → ℕ → Fs → ℕ × Fs
balloc_loop zero b s = (0, s)
balloc_loop (suc n) b s =
    let rest = balloc_loop n (b + bpb) s in
    if ltb b s.size
    then take_free b (find_free bpb 0 b s.size (s.block (bblock b s))) s rest
    else (0, s)

unfoldable pub balloc : Fs → ℕ × Fs
balloc s = balloc_loop (s.size / bpb + 1) 0 s

unfoldable pub bfree : ℕ → Fs → Outcome Fs (Unit {0})
bfree b s =
    let bm = bblock b s in
    let bi = b % bpb in
    if bit (s.block bm (bi / 8)) (bi % 8) == 0
    then panic
    else ok tt (write_block bm (clear_bit (s.block bm) bi) s)
