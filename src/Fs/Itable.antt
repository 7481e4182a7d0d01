-- ===== src/Fs/Itable.antt =====
-- The inodes of kernel/fs.c: the table in memory and the copies on disk. An inode of the table is
-- its index, so the tests for a null pointer have no counterpart.
use minios.Base.{
  ℕ, zero, suc, ◌+◌, ◌-◌, ◌*◌, ◌%◌, Bool, true, false, not, ◌&&◌, ◌||◌, Option, none, some, ltb,
  leb, ◌==◌, if◌then◌else◌,
}
use minios.Kern.{ok, asleep, panic, Cmd, pure, and_then}
use minios.Store.{update}
use minios.Sleeplock.{initsleeplock, releasesleep, holdingsleep}
use minios.Fs.{Fs, Inode, Bytes, ninode, ipb, iblock, write_block}
use minios.Fs.Words.{load, store}

abbrev pub set_inode : ℕ → Inode → Fs → Fs
set_inode ip v s = record s { inode = update s.inode ip v }

-- The for loop of iinit.
unfoldable pub iinit_loop : ℕ → Fs → Fs
iinit_loop zero s = s
iinit_loop (suc i) s =
    let s' = iinit_loop i s in
    set_inode i (let v = s'.inode i in record v { lock = initsleeplock v.lock }) s'

unfoldable pub iinit : Fs → Fs
iinit s = iinit_loop ninode s

-- Where the `struct dinode` of inode `inum` lies in its block; it has 64 bytes.
abbrev pub dinode_off : ℕ → ℕ
dinode_off inum = inum % ipb * 64

-- memmove of the 13 addresses to the block.
unfoldable pub store_addrs : ℕ → (ℕ → ℕ) → ℕ → Bytes → Bytes
store_addrs zero addrs off v = v
store_addrs (suc n) addrs off v = store 4 (store_addrs n addrs off v) (off + 12 + 4 * n) (addrs n)

unfoldable pub to_disk : Inode → ℕ → Bytes → Bytes
to_disk ip off v =
    let v = store 2 v off ip.type in
    let v = store 2 v (off + 2) ip.major in
    let v = store 2 v (off + 4) ip.minor in
    let v = store 2 v (off + 6) ip.nlink in
    let v = store 4 v (off + 8) ip.size in store_addrs 13 ip.addrs off v

unfoldable pub from_disk : Bytes → ℕ → Inode → Inode
from_disk v off ip = record ip {
  type = load 2 v off;
  major = load 2 v (off + 2);
  minor = load 2 v (off + 4);
  nlink = load 2 v (off + 6);
  size = load 4 v (off + 8);
  addrs = λ i. load 4 v (off + 12 + 4 * i);
}

unfoldable pub iupdate : ℕ → Fs → Fs
iupdate ip s =
    let v = s.inode ip in
    let b = iblock v.inum s in write_block b (to_disk v (dinode_off v.inum) (s.block b)) s

-- if(empty == 0 && ip->ref == 0) empty = ip;
abbrev pub remember : ℕ → Bool → Option ℕ → Option ℕ
remember i true none = some i
remember i false none = none
remember i b (some e) = some e

-- The loop of iget from index `i` on, `n` inodes left: the inode that is found, or the first empty
-- slot.
unfoldable pub iget_loop : ℕ → ℕ → ℕ → ℕ → Option ℕ → (ℕ → Inode) → Option ℕ × Option ℕ
iget_loop zero i dev inum empty t = (none, empty)
iget_loop (suc n) i dev inum empty t =
    let v = t i in
    let empty' = remember i (v.refs == 0) empty in
    let rest = iget_loop n (i + 1) dev inum empty' t in
    if ltb 0 v.refs && v.dev == dev && v.inum == inum then (some i, empty) else rest

-- ip->ref++
unfoldable pub idup : ℕ → Fs → Fs
idup ip s = set_inode ip (let v = s.inode ip in record v { refs = v.refs + 1 }) s

unfoldable pub take_slot : ℕ → ℕ → Option ℕ × Option ℕ → Cmd Fs ℕ
take_slot dev inum (some ip, e) s = ok ip (idup ip s)
take_slot dev inum (none, some ip) s = ok ip (
    set_inode ip
      (let v = s.inode ip in record v { dev = dev; inum = inum; refs = 1; valid = false }) s)
take_slot dev inum (none, none) s = panic

unfoldable pub iget : ℕ → ℕ → Cmd Fs ℕ
iget dev inum s = take_slot dev inum (iget_loop ninode 0 dev inum none s.inode) s

-- The loop of ialloc from inode `inum` on: 0 when there is none.
unfoldable pub ialloc_loop : ℕ → ℕ → Fs → ℕ
ialloc_loop zero inum s = 0
ialloc_loop (suc n) inum s =
    let rest = ialloc_loop n (inum + 1) s in
    if load 2 (s.block (iblock inum s)) (dinode_off inum) == 0 then inum else rest

-- memset(dip, 0, sizeof(*dip)); dip->type = type; log_write(bp);
unfoldable pub claim : ℕ → ℕ → Fs → Fs
claim inum type s =
    let b = iblock inum s in
    let off = dinode_off inum in
    write_block b (store 2 (λ i. if leb off i && ltb i (off + 64) then 0 else s.block b i) off type)
      s

unfoldable pub ialloc : ℕ → ℕ → Cmd Fs (Option ℕ)
ialloc dev type s =
    let inum = ialloc_loop (s.ninodes - 1) 1 s in
    if inum == 0
    then ok none s
    else and_then (iget dev inum (claim inum type s)) (λ ip. pure (some ip))

-- The inode with the fields that its block on disk has.
unfoldable pub loaded : ℕ → Fs → Inode
loaded ip s = let v = s.inode ip in from_disk (s.block (iblock v.inum s)) (dinode_off v.inum) v

-- What ilock does behind acquiresleep.
unfoldable pub read_inode : ℕ → Cmd Fs (Unit {0})
read_inode ip s =
    let w = loaded ip s in
    if (s.inode ip).valid
    then ok tt s
    else if w.type == 0
    then panic
    else ok tt (set_inode ip (record w { valid = true }) s)

-- acquiresleep(&ip->lock)
unfoldable pub lock_inode : ℕ → ℕ → Cmd Fs (Unit {0})
lock_inode me ip s =
    let v = s.inode ip in
    if v.lock.locked
    then asleep s
    else let lk = v.lock in
      ok tt (set_inode ip (record v { lock = record lk { locked = true; pid = me } }) s)

unfoldable pub unlock_inode : ℕ → Fs → Fs
unlock_inode ip s = set_inode ip (let v = s.inode ip in record v { lock = releasesleep v.lock }) s

unfoldable pub ilock : ℕ → ℕ → Cmd Fs (Unit {0})
ilock me ip s =
    if ltb (s.inode ip).refs 1 then panic else and_then (lock_inode me ip s) (λ _. read_inode ip)

unfoldable pub iunlock : ℕ → ℕ → Cmd Fs (Unit {0})
iunlock me ip s =
    let v = s.inode ip in
    if not (holdingsleep me v.lock) || ltb v.refs 1 then panic else ok tt (unlock_inode ip s)
