-- ===== src/Sleeplock.antt =====
-- kernel/sleeplock.c: locks that a process sleeps on. A call is one section under the spinlock that
-- the sleep lock holds; a section that finds the lock taken goes to sleep and is run again.
pub mod Exclusion
use minios.Base.{ℕ, ◌+◌, Bool, true, false, ◌&&◌, ◌==◌, if◌then◌else◌}
use minios.Kern.{Outcome, ok, asleep}

-- `woken` counts the calls of wakeup(lk).
pub record Sleeplock : Type 0 where
  pub locked : Bool
  pub pid : ℕ
  pub woken : ℕ

unfoldable pub initsleeplock : Sleeplock → Sleeplock
initsleeplock lk = record lk { locked = false; pid = 0 }

-- `me` is myproc()->pid.
unfoldable pub acquiresleep : ℕ → Sleeplock → Outcome Sleeplock (Unit {0})
acquiresleep me lk = if lk.locked then asleep lk else ok tt (record lk { locked = true; pid = me })

unfoldable pub releasesleep : Sleeplock → Sleeplock
releasesleep lk = record lk { locked = false; pid = 0; woken = lk.woken + 1 }

unfoldable pub holdingsleep : ℕ → Sleeplock → Bool
holdingsleep me lk = lk.locked && lk.pid == me
