-- ===== src/Tests/Bio.antt =====
-- Runs of the buffer cache and of sleep locks, and a witness for each theorem on kernel/bio.c and
-- kernel/sleeplock.c.
use minios.Base.{ℕ, ◌≡◌, refl, true, false, [], ◌∷◌, ◌==◌, if◌then◌else◌, arith}
use minios.Sleeplock.{Sleeplock, acquiresleep, releasesleep, holdingsleep}
use minios.Sleeplock.Exclusion
use minios.Sleeplock.Exclusion.{
  outside, sleeping, inside, IsExclusive, one_inside, no_sleep_when_free,
}
use minios.Bio.{Bcache, bget, head}
use minios.Bio.Ring.{IsRing}
use minios.Bio.Cache.{IsUnique, BgetEnds, bget_lem}

abbrev free_lock : Sleeplock
free_lock = record { locked = false; pid = 0; woken = 0 }

abbrev my_lock : Sleeplock
my_lock = record { locked = true; pid = 7; woken = 0 }

abbrev free : Exclusion.State
free = record { lock = free_lock; place = λ c. outside }

free-IsExclusive : IsExclusive free
free-IsExclusive = record { owner = λ c h. cc; owned = λ c h k. cc; waits = λ c h. cc }

abbrev taken : Exclusion.State
taken = record {
  lock = my_lock;
  place = Exclusion.move (Exclusion.move (λ c. outside) 7 inside) 8 sleeping;
}

taken-Reach : Exclusion.Reach free taken
unfolding acquiresleep
taken-Reach =
    Exclusion.Reach.next
      (Exclusion.Reach.next Exclusion.Reach.here (Exclusion.Step.take 7 my_lock refl refl))
      (Exclusion.Step.wait 8 my_lock refl refl)

one_inside_example : ◌≡◌ {A = ℕ} 7 7
one_inside_example = one_inside 7 7 free-IsExclusive taken-Reach refl refl

abbrev given : Exclusion.State
given = record {
  lock = releasesleep my_lock;
  place = λ d. Exclusion.awake (Exclusion.move taken.place 7 outside d);
}

given-Reach : Exclusion.Reach free given
unfolding holdingsleep
given-Reach = Exclusion.Reach.next taken-Reach (Exclusion.Step.give 7 refl refl)

-- Two buffers, of which process 7 holds the second, for block 33.
abbrev small : Bcache
small = record {
  buf = λ b.
      if b == 1
      then record {
        valid = true;
        dev = 1;
        blockno = 33;
        lock = my_lock;
        refcnt = 1;
        block = λ i. 5;
      }
      else record {
        valid = false;
        dev = 0;
        blockno = 0;
        lock = free_lock;
        refcnt = 0;
        block = λ i. 0;
      };
  next = λ b. if b == head then 0 else if b == 0 then 1 else head;
  prev = λ b. if b == head then 1 else if b == 0 then head else 0;
  disk = λ b i. b;
}

small-IsRing : IsRing small (0 ∷ 1 ∷ [])
small-IsRing = record {
  linked = (refl, refl, (refl, refl, (refl, refl)));
  apart = (ground arith, (ground arith, tt));
  distinct = ((ground arith, tt), (tt, tt));
  most = omega arith;
}

small-IsUnique : IsUnique small (0 ∷ 1 ∷ [])
small-IsUnique x y i j e e' pos = ground arith

bget_lem_example : BgetEnds 8 1 40 (0 ∷ 1 ∷ []) small (bget 8 1 40 small)
bget_lem_example = bget_lem 8 1 40 small (0 ∷ 1 ∷ []) small-IsRing small-IsUnique
