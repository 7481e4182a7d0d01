-- ===== src/Proc/Sleep.antt =====
-- sleep() and wakeup() of kernel/proc.c taken apart at their locks, for one process that waits for a
-- condition and the others, which set it: no wakeup is lost. The waiting process runs
--   acquire(lk); while(!condition) sleep(chan, lk);
-- and the others run acquire(lk); condition = 1; wakeup(chan); release(lk).
use minios.Base.{◌≡◌, Bool, true, false, if◌then◌else◌, arith}
use minios.Proc.{ProcState, sleeping, runnable, running, is_sleeping}

-- Where the waiting process stands: at the test of its loop, at the lines of sleep(), or past the
-- loop.
pub data Waiter : Type 0 where
  testing locking releasing marking switching suspended resumed reacquiring past : Waiter

-- Where the process that holds `lk` to set the condition stands, if there is one.
pub data Waker : Type 0 where
  absent setting scanning comparing unlocking leaving : Waker

-- Who holds a spinlock.
pub data Holder : Type 0 where
  nobody waiter waker : Holder

pub record State : Type 0 where
  pub sleeper : Waiter
  pub other : Waker
  pub lk : Holder
  pub plock : Holder
  pub state : ProcState
  pub condition : Bool

-- One line of one process; a lock is taken only where nobody holds it. The last five constructors
-- are the other process.
pub data Step (s : State) : State → Type 0 where
  pass :
      s.sleeper ≡ testing → s.condition ≡ true → Step s (record s { sleeper = past; lk = nobody })
  fail : s.sleeper ≡ testing → s.condition ≡ false → Step s (record s { sleeper = locking })
  lock_p :
      s.sleeper ≡ locking
      → s.plock ≡ nobody
      → Step s (record s { sleeper = releasing; plock = waiter })
  release_lk : s.sleeper ≡ releasing → Step s (record s { sleeper = marking; lk = nobody })
  mark : s.sleeper ≡ marking → Step s (record s { sleeper = switching; state = sleeping })
  switch : s.sleeper ≡ switching → Step s (record s { sleeper = suspended; plock = nobody })
  schedule :
      s.sleeper ≡ suspended
      → s.state ≡ runnable
      → s.plock ≡ nobody
      → Step s (record s { sleeper = resumed; plock = waiter; state = running })
  unlock_p : s.sleeper ≡ resumed → Step s (record s { sleeper = reacquiring; plock = nobody })
  reacquire :
      s.sleeper ≡ reacquiring → s.lk ≡ nobody → Step s (record s { sleeper = testing; lk = waiter })
  again :
      s.sleeper ≡ past
      → s.lk ≡ nobody
      → Step s (record s { sleeper = testing; lk = waiter; condition = false })
  arrive : s.other ≡ absent → s.lk ≡ nobody → Step s (record s { other = setting; lk = waker })
  set : s.other ≡ setting → Step s (record s { other = scanning; condition = true })
  take :
      s.other ≡ scanning → s.plock ≡ nobody → Step s (record s { other = comparing; plock = waker })
  wake :
      s.other ≡ comparing
      → Step s (record s {
        other = unlocking;
        state = if is_sleeping s.state then runnable else s.state;
      })
  drop : s.other ≡ unlocking → Step s (record s { other = leaving; plock = nobody })
  leave : s.other ≡ leaving → Step s (record s { other = absent; lk = nobody })

pub data Reach (s : State) : State → Type 0 where
  here : Reach s s
  next : {t u : State} → Reach s t → Step t u → Reach s u

-- Who holds `lk` and `p->lock`, by where the processes stand.
abbrev waiter_has_lk : Waiter → Bool
waiter_has_lk testing = true
waiter_has_lk locking = true
waiter_has_lk releasing = true
waiter_has_lk _ = false

abbrev waiter_has_plock : Waiter → Bool
waiter_has_plock releasing = true
waiter_has_plock marking = true
waiter_has_plock switching = true
waiter_has_plock resumed = true
waiter_has_plock _ = false

abbrev waker_has_lk : Waker → Bool
waker_has_lk absent = false
waker_has_lk _ = true

abbrev waker_has_plock : Waker → Bool
waker_has_plock comparing = true
waker_has_plock unlocking = true
waker_has_plock _ = false

-- A wakeup() after the condition has been set, that has not yet looked at the process.
abbrev pub is_pending : Waker → Bool
is_pending scanning = true
is_pending comparing = true
is_pending _ = false

-- The process has seen the condition false and has not been woken since.
abbrev is_committed : Waiter → ProcState → Bool
is_committed locking st = true
is_committed releasing st = true
is_committed marking st = true
is_committed switching st = true
is_committed suspended st = is_sleeping st
is_committed w st = false

abbrev holds_waiter : Holder → Bool
holds_waiter waiter = true
holds_waiter _ = false

abbrev holds_waker : Holder → Bool
holds_waker waker = true
holds_waker _ = false

abbrev is_switching : Waiter → Bool
is_switching switching = true
is_switching _ = false

pub record Consistent (s : State) : Type 0 where
  pub lk_waiter : holds_waiter s.lk ≡ waiter_has_lk s.sleeper
  pub lk_waker : holds_waker s.lk ≡ waker_has_lk s.other
  pub p_waiter : holds_waiter s.plock ≡ waiter_has_plock s.sleeper
  pub p_waker : holds_waker s.plock ≡ waker_has_plock s.other
  pub marked : is_switching s.sleeper ≡ true → s.state ≡ sleeping
  pub awaited :
      is_committed s.sleeper s.state ≡ true → s.condition ≡ true → is_pending s.other ≡ true

Step-Consistent : {s t : State} → Consistent s → Step s t → Consistent t
Step-Consistent {s} c (pass a b) = ground arith
Step-Consistent {s} c (fail a b) = ground arith
Step-Consistent {s} c (lock_p a b) = ground arith
Step-Consistent {s} c (release_lk a) = ground arith
Step-Consistent {s} c (mark a) = ground arith
Step-Consistent {s} c (switch a) = ground arith
Step-Consistent {s} c (schedule a b d) = ground arith
Step-Consistent {s} c (unlock_p a) = ground arith
Step-Consistent {s} c (reacquire a b) = ground arith
Step-Consistent {s} c (again a b) = ground arith
Step-Consistent {s} c (arrive a b) = ground arith
Step-Consistent {s} c (set a) = ground arith
Step-Consistent {s} c (take a b) = ground arith
Step-Consistent {s} c (wake a) = ground arith
Step-Consistent {s} c (drop a) = ground arith
Step-Consistent {s} c (leave a) = ground arith

Reach-Consistent : {s t : State} → Consistent s → Reach s t → Consistent t
Reach-Consistent c here = c
Reach-Consistent c (next r st) = Step-Consistent (Reach-Consistent c r) st

-- No wakeup is lost: from a consistent state, under every interleaving, a process that sleeps while
-- its condition holds has a wakeup() coming that has set the condition and not yet looked at it.
pub no_lost_wakeup :
    {s t : State}
    → Consistent s
    → Reach s t
    → t.sleeper ≡ suspended
    → t.state ≡ sleeping
    → t.condition ≡ true
    → is_pending t.other ≡ true
no_lost_wakeup c r a b d = let now = Reach-Consistent c r in ground (arith, now.awaited)
