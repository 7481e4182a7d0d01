-- ===== src/Spinlock/Exclusion.antt =====
-- acquire and release of kernel/spinlock.c line by line on any number of CPUs: mutual exclusion.
use minios.Base.{ℕ, ◌+◌, ◌≡◌, refl, Bool, true, false, ◌==◌, if◌then◌else◌, arith}
use minios.Spinlock.{Spinlock, holding}

-- Where a CPU stands: outside; spinning on the swap; behind the swap that found the lock free;
-- inside, with its number in `lk->cpu`; behind `lk->cpu = 0` of release.
pub data Place : Type 0 where
  outside spinning won inside leaving : Place

pub record State : Type 0 where
  pub lock : Spinlock
  pub place : ℕ → Place

abbrev pub move : (ℕ → Place) → ℕ → Place → ℕ → Place
move f c p d = if d == c then p else f d

pub data Step (s : State) : State → Type 0 where
  -- push_off(); if(holding(lk)) panic("acquire");
  enter :
      (c : ℕ)
      → s.place c ≡ outside
      → holding c s.lock ≡ false
      → Step s (record s { place = move s.place c spinning })
  -- while(__sync_lock_test_and_set(&lk->locked, 1) != 0): one swap
  busy : (c : ℕ) → s.place c ≡ spinning → s.lock.locked ≡ true → Step s s
  swap :
      (c : ℕ)
      → s.place c ≡ spinning
      → s.lock.locked ≡ false
      → Step s (record s {
        lock = let lk = s.lock in record lk { locked = true };
        place = move s.place c won;
      })
  -- lk->cpu = mycpu();
  own :
      (c : ℕ)
      → s.place c ≡ won
      → Step s (record s {
        lock = let lk = s.lock in record lk { cpu = c + 1 };
        place = move s.place c inside;
      })
  -- if(!holding(lk)) panic("release"); lk->cpu = 0;
  disown :
      (c : ℕ)
      → s.place c ≡ inside
      → holding c s.lock ≡ true
      → Step s (record s {
        lock = let lk = s.lock in record lk { cpu = 0 };
        place = move s.place c leaving;
      })
  -- __sync_lock_release(&lk->locked); pop_off();
  unlock :
      (c : ℕ)
      → s.place c ≡ leaving
      → Step s (record s {
        lock = let lk = s.lock in record lk { locked = false };
        place = move s.place c outside;
      })

pub data Reach (s : State) : State → Type 0 where
  here : Reach s s
  next : {t u : State} → Reach s t → Step t u → Reach s u

-- Between the swap that takes the lock and the store that gives it back.
abbrev pub has : Place → Bool
has won = true
has inside = true
has leaving = true
has _ = false

abbrev pub is_inside : Place → Bool
is_inside inside = true
is_inside _ = false

pub record IsExclusive (s : State) : Type 0 where
  pub locked : (c : ℕ) → has (s.place c) ≡ true → s.lock.locked ≡ true
  pub one : (c d : ℕ) → has (s.place c) ≡ true → has (s.place d) ≡ true → c ≡ d
  pub owner : (c : ℕ) → is_inside (s.place c) ≡ true → s.lock.cpu ≡ c + 1
  pub owned : (c : ℕ) → s.lock.cpu ≡ c + 1 → is_inside (s.place c) ≡ true

Step-IsExclusive : {s t : State} → IsExclusive s → Step s t → IsExclusive t
Step-IsExclusive {s} x (enter c at free) = record {
  locked = λ a h. ground (arith, x.locked a);
  one = λ a b h k. ground (arith, x.one a b);
  owner = λ a h. ground (arith, x.owner a);
  owned = λ a h. ground (arith, x.owned a, x.owner c);
}
Step-IsExclusive {s} x (busy c at taken) = x
Step-IsExclusive {s} x (swap c at free) = record {
  locked = λ a h. refl;
  one = λ a b h k. ground (arith, x.locked a, x.locked b);
  owner = λ a h. ground (arith, x.locked a);
  owned = λ a h. ground (arith, x.owned a, x.locked a);
}
Step-IsExclusive {s} x (own c at) = record {
  locked = λ a h. ground (arith, x.locked c);
  one = λ a b h k. ground (arith, x.one a b, x.one a c, x.one c b);
  owner = λ a h. ground (arith, x.one a c);
  owned = λ a h. ground (arith);
}
Step-IsExclusive {s} x (disown c at held) = record {
  locked = λ a h. ground (arith, x.locked a, x.locked c);
  one = λ a b h k. ground (arith, x.one a b, x.one a c, x.one c b);
  owner = λ a h. ground (arith, x.one a c);
  owned = λ a h. ground (arith);
}
Step-IsExclusive {s} x (unlock c at) = record {
  locked = λ a h. ground (arith, x.one a c);
  one = λ a b h k. ground (arith, x.one a b);
  owner = λ a h. ground (arith, x.owner a);
  owned = λ a h. ground (arith, x.owned a);
}

Reach-IsExclusive : {s t : State} → IsExclusive s → Reach s t → IsExclusive t
Reach-IsExclusive x here = x
Reach-IsExclusive x (next r st) = Step-IsExclusive (Reach-IsExclusive x r) st

-- Under every interleaving of the CPUs' lines, from a state in which the lock is used properly: no
-- two CPUs stand between the swap of acquire that takes the lock and the store of release that
-- gives it back.
pub mutual_exclusion :
    {s t : State} (c d : ℕ)
    → IsExclusive s
    → Reach s t
    → has (t.place c) ≡ true
    → has (t.place d) ≡ true
    → c ≡ d
mutual_exclusion {t} c d x r h k = let now = Reach-IsExclusive x r in now.one c d h k

-- Under every interleaving, from a state in which the lock is used properly, `holding` is true on
-- just the CPUs that are inside: acquire does not panic on a CPU that is outside, and release does
-- not panic on a CPU that is inside.
pub holding_iff_inside :
    {s t : State} (c : ℕ) → IsExclusive s → Reach s t → holding c t.lock ≡ is_inside (t.place c)
unfolding holding
holding_iff_inside {t} c x r =
    let now = Reach-IsExclusive x r in ground (arith, now.owner c, now.owned c, now.locked c)
