-- ===== src/Sleeplock/Exclusion.antt =====
-- Processes that take and give back one sleep lock.
use minios.Base.{ℕ, ◌≡◌, ◌≢◌, true, false, ◌==◌, if◌then◌else◌, arith}
use minios.Kern.{ok, asleep}
use minios.Sleeplock.{Sleeplock, acquiresleep, releasesleep, holdingsleep}

-- Where a process stands, by its pid: it wants the lock, sleeps, or is between acquiresleep and
-- releasesleep.
pub data Place : Type 0 where
  outside sleeping inside : Place

pub record State : Type 0 where
  pub lock : Sleeplock
  pub place : ℕ → Place

abbrev pub move : (ℕ → Place) → ℕ → Place → ℕ → Place
move f c p d = if d == c then p else f d

-- wakeup(lk) makes a sleeper run its loop again.
abbrev pub awake : Place → Place
awake outside = outside
awake sleeping = outside
awake inside = inside

pub data Step (s : State) : State → Type 0 where
  take :
      (me : ℕ) (lk : Sleeplock)
      → s.place me ≡ outside
      → acquiresleep me s.lock ≡ ok tt lk
      → Step s (record { lock = lk; place = move s.place me inside })
  wait :
      (me : ℕ) (lk : Sleeplock)
      → s.place me ≡ outside
      → acquiresleep me s.lock ≡ asleep lk
      → Step s (record { lock = lk; place = move s.place me sleeping })
  give :
      (me : ℕ)
      → s.place me ≡ inside
      → holdingsleep me s.lock ≡ true
      → Step s
          (record { lock = releasesleep s.lock; place = λ d. awake (move s.place me outside d) })

pub data Reach (s : State) : State → Type 0 where
  here : Reach s s
  next : {t u : State} → Reach s t → Step t u → Reach s u

-- A process is inside just when the lock is taken in its name, and a process sleeps only while the
-- lock is taken.
pub record IsExclusive (s : State) : Type 0 where
  pub owner : (c : ℕ) → s.place c ≡ inside → (s.lock.locked ≡ true) × (s.lock.pid ≡ c)
  pub owned : (c : ℕ) → s.lock.locked ≡ true → s.lock.pid ≡ c → s.place c ≡ inside
  pub waits : (c : ℕ) → s.place c ≡ sleeping → s.lock.locked ≡ true

Step-IsExclusive : {s t : State} → IsExclusive s → Step s t → IsExclusive t
unfolding acquiresleep releasesleep holdingsleep
Step-IsExclusive {s} x (take me lk at e) = record {
  owner = λ c h. ground (arith, x.owner c);
  owned = λ c h k. ground (arith, x.owned c);
  waits = λ c h. ground (arith, x.waits c);
}
Step-IsExclusive {s} x (wait me lk at e) = record {
  owner = λ c h. ground (arith, x.owner c);
  owned = λ c h k. ground (arith, x.owned c);
  waits = λ c h. ground (arith, x.waits c);
}
Step-IsExclusive {s} x (give me at e) = record {
  owner = λ c h. ground (arith, x.owner c);
  owned = λ c h k. ground (arith, x.owned c);
  waits = λ c h. ground (arith, x.waits c);
}

Reach-IsExclusive : {s t : State} → IsExclusive s → Reach s t → IsExclusive t
Reach-IsExclusive x here = x
Reach-IsExclusive x (next r st) = Step-IsExclusive (Reach-IsExclusive x r) st

-- Under every interleaving of processes that take and give back a sleep lock, from a state in which
-- it is used properly: two processes between acquiresleep and releasesleep are one.
pub one_inside :
    {s t : State} (c d : ℕ)
    → IsExclusive s
    → Reach s t
    → t.place c ≡ inside
    → t.place d ≡ inside
    → c ≡ d
one_inside {t} c d x r h k =
    let now = Reach-IsExclusive x r in ground (arith, now.owner c, now.owner d)

-- Under every interleaving, from a state in which the lock is used properly, no process sleeps on
-- the lock while it is free.
pub no_sleep_when_free :
    {s t : State} (c : ℕ) → IsExclusive s → Reach s t → t.lock.locked ≡ false → t.place c ≢ sleeping
no_sleep_when_free {t} c x r free h = let now = Reach-IsExclusive x r in ground (arith, now.waits c)
