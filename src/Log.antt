-- ===== src/Log.antt =====
-- kernel/log.c: the transaction log, its commit and its recovery, over the buffer cache's interface.
pub mod Copy
pub mod Head
pub mod Recover
pub mod Absorb
pub mod Crash
pub mod Space
use minios.Base.{
  ℕ, zero, suc, ◌+◌, ◌-◌, ◌*◌, Bool, true, false, ◌||◌, not, List, [], ◌∷◌, none, ltb, leb, ◌==◌,
  if◌then◌else◌,
}
use minios.Kern.{Outcome, ok, asleep, panic, Cmd, pure, ◌>>=◌, ◌>>◌, panic_if, change}
use minios.Store.{Block, Store, update, dec, contents, bread, put, bwrite, bpin, bunpin, brelse}

abbrev pub max_op_blocks : ℕ
max_op_blocks = 10

abbrev pub log_size : ℕ
log_size = 30

-- `struct log` with its header `lh` and the store that it works on. The `int`s are counts that never
-- fall below zero where begin_op and end_op are paired; `woken` lists the calls of wakeup(&log).
pub record Log : Type 0 where
  pub locked : Bool
  pub start : ℕ
  pub size : ℕ
  pub outstanding : ℕ
  pub committing : Bool
  pub n : ℕ
  pub block : ℕ → ℕ
  pub store : Store
  pub woken : ℕ

-- One round of `install_trans`: log block `tail` goes home.
unfoldable pub install_one : Bool → ℕ → (ℕ → ℕ) → ℕ → Store → Store
unfolding contents bread put bwrite bunpin brelse
install_one recovering start block tail s =
    let lbuf = start + tail + 1 in
    let dbuf = block tail in
    let s = bread (bread s lbuf) dbuf in
    let s = bwrite (put s dbuf (contents s lbuf)) dbuf in
    let s = if recovering then s else bunpin s dbuf in brelse (brelse s lbuf) dbuf

unfoldable pub install_loop : ℕ → ℕ → Bool → ℕ → (ℕ → ℕ) → Store → Store
unfolding install_one
install_loop zero tail recovering start block s = s
install_loop (suc k) tail recovering start block s =
    install_loop k (tail + 1) recovering start block (install_one recovering start block tail s)

unfoldable pub install_trans : Bool → Log → Log
install_trans recovering g = record g {
  store = install_loop g.n 0 recovering g.start g.block g.store;
}

-- for (i = 0; i < log.lh.n; i++) log.lh.block[i] = lh->block[i];
-- Word 0 of the header block is `n`, and word i + 1 is block[i].
unfoldable pub read_loop : ℕ → ℕ → Block → (ℕ → ℕ) → ℕ → ℕ
read_loop zero i lh block = block
read_loop (suc k) i lh block = read_loop k (i + 1) lh (update block i (lh (i + 1)))

unfoldable pub read_head : Log → Log
unfolding read_loop contents bread brelse
read_head g =
    let s = bread g.store g.start in
    let lh = contents s g.start in
    record g { n = lh 0; block = read_loop (lh 0) 0 lh g.block; store = brelse s g.start }

-- for (i = 0; i < log.lh.n; i++) hb->block[i] = log.lh.block[i];
unfoldable pub head_loop : ℕ → ℕ → (ℕ → ℕ) → Block → Block
head_loop zero i block hb = hb
head_loop (suc k) i block hb = head_loop k (i + 1) block (update hb (i + 1) (block i))

unfoldable pub write_head : Log → Log
unfolding head_loop contents bread put bwrite brelse
write_head g =
    let s = bread g.store g.start in
    let hb = head_loop g.n 0 g.block (update (contents s g.start) 0 g.n) in
    record g { store = brelse (bwrite (put s g.start hb) g.start) g.start }

unfoldable pub recover_from_log : Log → Log
recover_from_log g = let g = install_trans true (read_head g) in write_head (record g { n = 0 })

-- One round of `write_log`: the cached block goes into log block `tail`.
unfoldable pub write_one : ℕ → (ℕ → ℕ) → ℕ → Store → Store
unfolding contents bread put bwrite brelse
write_one start block tail s =
    let to = start + tail + 1 in
    let from = block tail in
    let s = bread (bread s to) from in
    let s = bwrite (put s to (contents s from)) to in brelse (brelse s from) to

unfoldable pub write_loop : ℕ → ℕ → ℕ → (ℕ → ℕ) → Store → Store
unfolding write_one
write_loop zero tail start block s = s
write_loop (suc k) tail start block s =
    write_loop k (tail + 1) start block (write_one start block tail s)

unfoldable pub write_log : Log → Log
write_log g = record g { store = write_loop g.n 0 g.start g.block g.store }

unfoldable pub commit : Log → Log
commit g =
    if ltb 0 g.n
    then (let g = install_trans false (write_head (write_log g)) in write_head (record g { n = 0 }))
    else g

-- acquire(&log.lock) panics where the caller holds the lock already, as release does where not.
acquire : Cmd Log (Unit {0})
acquire g = if g.locked then panic else ok tt (record g { locked = true })

release : Cmd Log (Unit {0})
release g = if g.locked then ok tt (record g { locked = false }) else panic

wakeup : Cmd Log (Unit {0})
wakeup g = ok tt (record g { woken = g.woken + 1 })

-- sleep(&log, &log.lock) gives the lock up.
sleep : Cmd Log (Unit {0})
sleep g = asleep (record g { locked = false })

unfoldable pub begin_op : Cmd Log (Unit {0})
unfolding acquire release sleep
begin_op = do
  acquire
  λ g.
      if g.committing
      then sleep g
      else if ltb log_size (g.n + (g.outstanding + 1) * max_op_blocks)
      then sleep g
      else release (record g { outstanding = g.outstanding + 1 })

-- The first half of `end_op`: whether this call has to commit.
unfoldable pub end_section : Cmd Log Bool
unfolding acquire release wakeup
end_section = do
  acquire
  change (λ g. record g { outstanding = dec g.outstanding })
  λ g. panic_if g.committing g
  do_commit ← λ g.
      if g.outstanding == 0
      then ok true (record g { committing = true })
      else (wakeup >> pure false) g
  release
  pure do_commit

-- The second half, run with no lock held while `committing` keeps other calls out.
unfoldable pub commit_section : Cmd Log (Unit {0})
unfolding acquire release wakeup
commit_section = do
  change commit
  acquire
  change (λ g. record g { committing = false })
  wakeup
  release

unfoldable pub end_op : Cmd Log (Unit {0})
unfolding end_section commit_section
end_op = do do_commit ← end_section; if do_commit then commit_section else pure tt

-- The index at which the loop of `log_write` stops: that of `b`, or `n`.
unfoldable pub find_block : ℕ → ℕ → (ℕ → ℕ) → ℕ → ℕ
find_block zero i block b = i
find_block (suc k) i block b =
    let rest = find_block k (i + 1) block b in if block i == b then i else rest

unfoldable pub log_write : ℕ → Cmd Log (Unit {0})
unfolding acquire release find_block bpin
log_write b = do
  acquire
  λ g. panic_if (leb log_size g.n || leb (g.size - 1) g.n) g
  λ g. panic_if (ltb g.outstanding 1) g
  change λ g.
      let i = find_block g.n 0 g.block b in
      let g' = record g { block = update g.block i b } in
      if i == g.n then record g' { store = bpin g.store b; n = g.n + 1 } else g'
  release

-- `initlog` on the log of the superblock; `store` is what the device and the cache hold.
unfoldable pub initlog : ℕ → ℕ → Store → Log
initlog start size store = recover_from_log (record {
  locked = false;
  start = start;
  size = size;
  outstanding = 0;
  committing = false;
  n = 0;
  block = λ _. 0;
  store = store;
  woken = 0;
})
