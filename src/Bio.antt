-- ===== src/Bio.antt =====
-- kernel/bio.c: the cache of disk blocks, a ring of buffers in the order of their last use.
pub mod Segment
pub mod Ring
pub mod Scan
pub mod Cache
pub mod Release
pub mod Read
use minios.Base.{
  ℕ, zero, suc, ◌+◌, ◌-◌, ◌^◌, Bool, true, false, not, ◌&&◌, Option, none, some, ◌==◌,
  if◌then◌else◌,
}
use minios.Kern.{Outcome, ok, asleep, panic, Cmd, pure, ◌>>=◌, ◌>>◌, panic_if, change}
use minios.Store.{Block, Disk, update, dec}
use minios.Sleeplock.{Sleeplock, initsleeplock, acquiresleep, releasesleep, holdingsleep}

abbrev pub nbuf : ℕ
nbuf = 30

-- `struct buf` less its links, which are in `Bcache`, and `disk`, which the driver uses.
pub record Buf : Type 0 where
  pub valid : Bool
  pub dev : ℕ
  pub blockno : ℕ
  pub lock : Sleeplock
  pub refcnt : ℕ
  pub block : Block

-- A buffer is its index, and `head` is NBUF. `disk` is what the device holds.
pub record Bcache : Type 0 where
  pub buf : ℕ → Buf
  pub prev : ℕ → ℕ
  pub next : ℕ → ℕ
  pub disk : Disk

abbrev pub head : ℕ
head = nbuf

-- b->next = head.next; b->prev = &head; head.next->prev = b; head.next = b;
unfoldable pub link : ℕ → Bcache → Bcache
link b s =
    let first = s.next head in
    record s {
      next = update (update s.next b first) head b;
      prev = update (update s.prev b head) first b;
    }

-- b->next->prev = b->prev; b->prev->next = b->next;
unfoldable pub unlink : ℕ → Bcache → Bcache
unlink b s = record s {
  next = update s.next (s.prev b) (s.next b);
  prev = update s.prev (s.next b) (s.prev b);
}

abbrev pub set_buf : ℕ → Buf → Bcache → Bcache
set_buf b v s = record s { buf = update s.buf b v }

-- The for loop of binit, from buffer `b` on.
unfoldable pub binit_loop : ℕ → ℕ → Bcache → Bcache
unfolding link initsleeplock
binit_loop b zero s = s
binit_loop b (suc n) s =
    let v = s.buf b in
    binit_loop (b + 1) n (link b (set_buf b (record v { lock = initsleeplock v.lock }) s))

unfoldable pub binit : Bcache → Bcache
unfolding binit_loop
binit s =
    binit_loop 0 nbuf (record s { prev = update s.prev head head; next = update s.next head head })

-- The first loop of bget, from buffer `b` on.
unfoldable pub find_cached : ℕ → ℕ → ℕ → ℕ → Bcache → Option ℕ
find_cached zero dev blockno b s = none
find_cached (suc n) dev blockno b s =
    let rest = find_cached n dev blockno (s.next b) s in
    if b == head
    then none
    else if (s.buf b).dev == dev && (s.buf b).blockno == blockno
    then some b
    else rest

-- The second loop of bget, from buffer `b` on.
unfoldable pub find_unused : ℕ → ℕ → Bcache → Option ℕ
find_unused zero b s = none
find_unused (suc n) b s =
    let rest = find_unused n (s.prev b) s in
    if b == head then none else if (s.buf b).refcnt == 0 then some b else rest

abbrev pub with_lock : ℕ → Bcache → Outcome Sleeplock (Unit {0}) → Outcome Bcache ℕ
with_lock b s (ok _ lk) = ok b (set_buf b (let v = s.buf b in record v { lock = lk }) s)
with_lock b s (asleep lk) = asleep s
with_lock b s panic = panic

-- acquiresleep(&b->lock); return b;
unfoldable pub lock_buf : ℕ → ℕ → Cmd Bcache ℕ
lock_buf me b s = with_lock b s (acquiresleep me (s.buf b).lock)

unfoldable pub recycle : ℕ → ℕ → ℕ → Bcache → Bcache
recycle dev blockno b s =
    let v = s.buf b in
    set_buf b (record v { dev = dev; blockno = blockno; valid = false; refcnt = 1 }) s

-- b->refcnt++
unfoldable pub bpin : ℕ → Bcache → Bcache
bpin b s = set_buf b (let v = s.buf b in record v { refcnt = v.refcnt + 1 }) s

-- b->refcnt--, of a uint.
unfoldable pub bunpin : ℕ → Bcache → Bcache
bunpin b s = set_buf b (let v = s.buf b in record v { refcnt = dec v.refcnt }) s

-- What bget does by the outcome of its second loop, and by that of its first.
unfoldable pub take_unused : ℕ → ℕ → ℕ → Bcache → Option ℕ → Outcome Bcache ℕ
take_unused me dev blockno s (some b) = lock_buf me b (recycle dev blockno b s)
take_unused me dev blockno s none = panic

unfoldable pub take_cached : ℕ → ℕ → ℕ → Bcache → Option ℕ → Outcome Bcache ℕ
unfolding take_unused
take_cached me dev blockno s (some b) = lock_buf me b (bpin b s)
take_cached me dev blockno s none =
    take_unused me dev blockno s (find_unused (nbuf + 1) (s.prev head) s)

unfoldable pub bget : ℕ → ℕ → ℕ → Cmd Bcache ℕ
bget me dev blockno s =
    take_cached me dev blockno s (find_cached (nbuf + 1) dev blockno (s.next head) s)

-- virtio_disk_rw(b, 0); b->valid = 1;
unfoldable pub fill : ℕ → Bcache → Bcache
fill b s = set_buf b (let v = s.buf b in record v { block = s.disk v.blockno; valid = true }) s

unfoldable pub bread : ℕ → ℕ → ℕ → Cmd Bcache ℕ
unfolding bget fill
bread me dev blockno = bget me dev blockno >>= λ b s. ok b (if (s.buf b).valid then s else fill b s)

unfoldable pub bwrite : ℕ → ℕ → Cmd Bcache (Unit {0})
bwrite me b s =
    if holdingsleep me (s.buf b).lock
    then ok tt (record s { disk = update s.disk (s.buf b).blockno (s.buf b).block })
    else panic

-- The section of brelse that moves a buffer with no users to the front.
unfoldable pub to_front : ℕ → Bcache → Bcache
unfolding link unlink
to_front b s = if (s.buf b).refcnt == 0 then link b (unlink b s) else s

unfoldable pub brelse : ℕ → ℕ → Cmd Bcache (Unit {0})
unfolding to_front bunpin
brelse me b s =
    let v = s.buf b in
    let s' = set_buf b (record v { lock = releasesleep v.lock }) s in
    if holdingsleep me v.lock then ok tt (to_front b (bunpin b s')) else panic
