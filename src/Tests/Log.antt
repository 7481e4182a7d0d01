-- ===== src/Tests/Log.antt =====
-- kernel/log.c at a concrete log: area of 31 blocks from block 2 on.
use minios.Base.{
  ℕ, ◌+◌, ◌≤◌, ◌≡◌, ◌≢◌, ◌⊎◌, ◌↔◌, ◌&&◌, refl, true, false, [], ◌∷◌, none, some, ◌==◌,
  if◌then◌else◌, arith, inl, inr, All, fun_ext,
}
use minios.Kern.{ok, panic}
use minios.Store.{Store, Disk, Block, update, bpin}
use minios.Log.{
  Log, begin_op, commit_section, commit, log_write, initlog, log_size, install_trans, write_log,
  write_head, install_loop, write_loop,
}
use minios.Log.Recover.{boot, Committed}
use minios.Log.Crash.{Recovers, recovery_atomic, CanCommit, OldAfter, NewAfter, commit_atomic}
use minios.Log.Space.{at, Step, Reach, Reserved, IsServed, reservations_hold}
use minios.Log.Absorb.{Named, IsDistinct, log_write_lem}

-- Blocks 40 and 41 are cached with new contents, and pinned.
abbrev store : Store
store = record {
  disk = λ b w. 0;
  cached = λ b. if b == 40 then some (λ w. 7) else if b == 41 then some (λ w. 8) else none;
  refcnt = λ b. if b == 40 then 1 else if b == 41 then 1 else 0;
  history = [];
}

abbrev sample : Log
sample = record {
  locked = false;
  start = 2;
  size = 31;
  outstanding = 0;
  committing = true;
  n = 2;
  block = λ i. 40 + i;
  store = store;
  woken = 0;
}

abbrev active : Log
active = record sample { outstanding = 1; committing = false }

committed_words :
    ((commit sample).store.disk 40 3 ≡ 7)
    × ((commit sample).store.disk 41 0 ≡ 8)
    × ((commit sample).store.disk 42 0 ≡ 0)
    × ((commit sample).store.refcnt 40 ≡ 0)
unfolding commit write_log write_head install_trans install_loop write_loop
committed_words = (refl, refl, refl, refl)

sample-CanCommit : CanCommit sample
sample-CanCommit = record { fit = omega arith; home = λ i h. inr (omega arith); idle = refl }

commit_atomic_example :
    All (λ d. OldAfter sample d ⊎ NewAfter sample d) (commit sample).store.history
commit_atomic_example = commit_atomic sample sample-CanCommit refl

-- A disk whose header names block 40, with 9 in its copy.
abbrev crashed : Disk
crashed b w =
    if b == 2 then (if w == 0 then 1 else if w == 1 then 40 else 0) else if b == 3 then 9 else 0

abbrev copy : ℕ → Block
copy i w = if i == 0 then 9 else 0

crashed-Committed : Committed 2 31 1 (λ i. 40) copy (λ b w. 0) crashed
crashed-Committed = record {
  count = refl;
  names = λ i h. ground arith;
  copies = λ i h. fun_ext λ w. ground arith;
  rest = λ b home miss. fun_ext λ w. ground arith;
}

recovery_atomic_example :
    All
      (Recovers 2 31 1 (λ i. 40) copy (λ b w. 0) (omega arith) (λ i h. inr (omega arith)))
      (initlog 2 31 (boot crashed)).store.history
recovery_atomic_example =
    recovery_atomic 2 31 1 (λ i. 40) copy (λ b w. 0) (omega arith) (λ i h. inr (omega arith))
      crashed crashed-Committed

abbrev written : Log
written = record active { block = update active.block 2 50; n = 3; store = bpin store 50 }

active_writes : log_write 50 active ≡ ok tt written
unfolding log_write
active_writes = refl

active-IsDistinct : IsDistinct active
active-IsDistinct i j hi hj e = omega arith

log_write_lem_example :
    (Named written 41 ↔ (◌≡◌ {A = ℕ} 41 50 ⊎ Named active 41))
    × IsDistinct written
    × (written.store.refcnt 41 ≡ (
        if (41 == 50) && (written.n == (active.n + 1))
        then active.store.refcnt 41 + 1
        else active.store.refcnt 41))
log_write_lem_example = log_write_lem active 50 active_writes active-IsDistinct 41

abbrev quiet : Log
quiet = record sample { committing = false; size = 30; n = 0 }

abbrev opened : Log
opened = record quiet { outstanding = 1 }

quiet_begins : begin_op quiet ≡ ok tt opened
unfolding begin_op
quiet_begins = refl

quiet-Reserved : Reserved (at quiet [])
quiet-Reserved = record {
  unlocked = refl;
  counted = refl;
  each = tt;
  room = omega arith;
  alone = inl refl;
  large = omega arith;
}

reservations_hold_example :
    (opened.n ≤ log_size)
    × (commit_section opened ≢ panic)
    × All (IsServed (at opened (10 ∷ []))) (10 ∷ [])
reservations_hold_example =
    reservations_hold quiet-Reserved (Reach.next Reach.here (Step.begin quiet_begins))

-- The area that mkfs lays out has LOGSIZE blocks: with 29 of them in use an operation that has
-- written fewer than MAXOPBLOCKS blocks panics.
abbrev crowded : Log
crowded = record sample { outstanding = 3; committing = false; size = 30; n = 29 }

small_area_panics : log_write 80 crowded ≡ panic
unfolding log_write
small_area_panics = refl
