-- ===== src/Fs/Content.antt =====
-- The contents of an inode in kernel/fs.c: bmap, itrunc, readi and writei.
use minios.Base.{
  ℕ, zero, suc, ◌+◌, ◌-◌, ◌*◌, ◌/◌, ◌%◌, ◌^◌, Bool, not, ◌&&◌, ◌||◌, ltb, leb, ◌==◌, if◌then◌else◌,
  List, [], ◌∷◌, ◌++◌, ℤ, pos, negsuc, min,
}
use minios.Kern.{Outcome, ok, panic, Cmd, and_then, ◌>>◌, change}
use minios.Fs.{Fs, Bytes, bsize, ndirect, nindirect, maxfile, write_block}
use minios.Fs.Words.{load, store}
use minios.Fs.Bitmap.{balloc, bfree}
use minios.Fs.Itable.{set_inode, iupdate}

-- ip->addrs[k] = addr
unfoldable pub set_addr : ℕ → ℕ → ℕ → Fs → Fs
set_addr ip k addr s =
    set_inode ip
      (let v = s.inode ip in record v { addrs = λ j. if j == k then addr else v.addrs j }) s

-- if((addr = ip->addrs[k]) == 0){ addr = balloc(ip->dev); if(addr == 0) ...; ip->addrs[k] = addr; }
unfoldable pub need_addr : ℕ → ℕ → Fs → ℕ × Fs
need_addr ip k s =
    let old = (s.inode ip).addrs k in
    let (addr, t) = balloc s in
    if old == 0 then (if addr == 0 then (0, t) else (addr, set_addr ip k addr t)) else (old, s)

-- Entry `bn` of the indirect block.
unfoldable pub need_entry : ℕ → ℕ → Fs → ℕ × Fs
need_entry ind bn s =
    let old = load 4 (s.block ind) (4 * bn) in
    let (addr, t) = balloc s in
    if old == 0
    then (if addr == 0
        then (0, t)
        else (addr, write_block ind (store 4 (t.block ind) (4 * bn) addr) t))
    else (old, s)

unfoldable pub bmap : ℕ → ℕ → Fs → Outcome Fs ℕ
bmap ip bn s =
    if ltb bn ndirect
    then (let (addr, t) = need_addr ip bn s in ok addr t)
    else if ltb (bn - ndirect) nindirect
    then (let (ind, t) = need_addr ip ndirect s in
        let (addr, u) = need_entry ind (bn - ndirect) t in if ind == 0 then ok 0 t else ok addr u)
    else panic

-- The direct blocks from `i` on, `n` of them left.
unfoldable pub free_direct : ℕ → ℕ → ℕ → Cmd Fs (Unit {0})
free_direct zero i ip s = ok tt s
free_direct (suc n) i ip s =
    let addr = (s.inode ip).addrs i in
    and_then
      (if addr == 0 then ok tt s else and_then (bfree addr s) (λ _ t. ok tt (set_addr ip i 0 t)))
      (λ _. free_direct n (i + 1) ip)

-- The entries of the indirect block from `j` on; `a` is its bytes in the buffer.
unfoldable pub free_entries : ℕ → ℕ → ℕ → Cmd Fs (Unit {0})
free_entries zero j ind s = ok tt s
free_entries (suc n) j ind s =
    let addr = load 4 (s.block ind) (4 * j) in
    and_then (if addr == 0 then ok tt s else bfree addr s) (λ _. free_entries n (j + 1) ind)

unfoldable pub free_indirect : ℕ → Cmd Fs (Unit {0})
free_indirect ip s =
    let ind = (s.inode ip).addrs ndirect in
    if ind == 0
    then ok tt s
    else and_then (free_entries nindirect 0 ind s)
        (λ _ t. and_then (bfree ind t) (λ _ u. ok tt (set_addr ip ndirect 0 u)))

unfoldable pub itrunc : ℕ → Cmd Fs (Unit {0})
itrunc ip =
    free_direct ndirect 0 ip
    >> free_indirect ip
    >> change (λ s. iupdate ip (set_inode ip (let v = s.inode ip in record v { size = 0 }) s))

-- `n` bytes of a block from `off` on.
unfoldable pub slice : Bytes → ℕ → ℕ → List ℕ
slice v off zero = []
slice v off (suc n) = v off ∷ slice v (off + 1) n

-- One round's bytes: min(n - tot, BSIZE - off%BSIZE).
abbrev pub chunk : ℕ → ℕ → ℕ
chunk left off = min left (bsize - off % bsize)

-- The loop of readi with `fuel` rounds left, `left` for `n - tot`. `copies` tells by address and
-- count where either_copyout() succeeds; `out` is what it has copied.
unfoldable pub read_loop :
    ℕ → (ℕ → ℕ → Bool) → ℕ → ℕ → ℕ → ℕ → ℕ → List ℕ → Fs → Outcome Fs (ℤ × List ℕ)
read_loop zero copies ip dst off tot left out s = ok (pos tot, out) s
read_loop (suc fuel) copies ip dst off tot left out s =
    let m = chunk left off in
    let more = and_then (bmap ip (off / bsize) s) (λ addr t.
      if addr == 0
      then ok (pos tot, out) t
      else if not (copies dst m)
      then ok (negsuc 0, out) t
      else read_loop fuel copies ip (dst + m) (off + m) (tot + m) (left - m)
          (out ++ slice (t.block addr) (off % bsize) m) t) in
    if left == 0 then ok (pos tot, out) s else more

-- `off` and `n` are uints; `off + n` wraps.
unfoldable pub readi : (ℕ → ℕ → Bool) → ℕ → ℕ → ℕ → ℕ → Fs → Outcome Fs (ℤ × List ℕ)
readi copies ip dst off n s =
    let size = (s.inode ip).size in
    let sum = (off + n) % 2 ^ 32 in
    let n' = if ltb size sum then size - off else n in
    if ltb size off || ltb sum off
    then ok (pos 0, []) s
    else read_loop n' copies ip dst off 0 n' [] s

-- The bytes of `src` from index `i` on, `m` of them, go to `off`.
unfoldable pub patch : (ℕ → ℕ) → ℕ → ℕ → Bytes → Bytes
patch src off m v j = if leb off j && ltb j (off + m) then src (j - off) else v j

-- The loop of writei; `src` gives the bytes by their distance from the source's address, `fetches`
-- tells by that distance and the count where either_copyin() succeeds. The second number is `off`.
unfoldable pub write_loop : ℕ → (ℕ → ℕ) → (ℕ → ℕ → Bool) → ℕ → ℕ → ℕ → ℕ → Fs → Outcome Fs (ℕ × ℕ)
write_loop zero src fetches ip off tot left s = ok (tot, off) s
write_loop (suc fuel) src fetches ip off tot left s =
    let m = chunk left off in
    let more = and_then (bmap ip (off / bsize) s) (λ addr t.
      if addr == 0
      then ok (tot, off) t
      else if not (fetches tot m)
      then ok (tot, off) t
      else write_loop fuel src fetches ip (off + m) (tot + m) (left - m)
          (write_block addr (patch (λ i. src (tot + i)) (off % bsize) m (t.block addr)) t)) in
    if left == 0 then ok (tot, off) s else more

-- if(off > ip->size) ip->size = off; iupdate(ip); return tot;
unfoldable pub end_write : ℕ → ℕ × ℕ → Cmd Fs ℤ
end_write ip (tot, off) s =
    let v = s.inode ip in
    ok (pos tot)
      (iupdate ip (if ltb v.size off then set_inode ip (record v { size = off }) s else s))

unfoldable pub writei : (ℕ → ℕ) → (ℕ → ℕ → Bool) → ℕ → ℕ → ℕ → Fs → Outcome Fs ℤ
writei src fetches ip off n s =
    let sum = (off + n) % 2 ^ 32 in
    if ltb (s.inode ip).size off || ltb sum off
    then ok (negsuc 0) s
    else if ltb (maxfile * bsize) sum
    then ok (negsuc 0) s
    else and_then (write_loop n src fetches ip off 0 n s) (end_write ip)
