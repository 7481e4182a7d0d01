-- ===== src/Tests/Spinlock.antt =====
-- Runs of the spinlock model, and a witness for each theorem on kernel/spinlock.c.
use minios.Base.{ℕ, ◌≡◌, refl, true, false, arith}
use minios.Spinlock.{Cpu, holding}
use minios.Spinlock.Nesting.{Calls, none, around, both, IsValid}
use minios.Spinlock.Exclusion
use minios.Spinlock.Exclusion.{
  Place, outside, spinning, won, inside, leaving, State, Step, Reach, has, is_inside, IsExclusive,
  mutual_exclusion, holding_iff_inside,
}

abbrev idle_cpu : Cpu
idle_cpu = record { intr = true; noff = 0; intena = false }

idle_cpu-IsValid : IsValid idle_cpu
idle_cpu-IsValid = record { off = λ h. ground (arith) }

abbrev two_locks : Calls
two_locks = both (around (around none)) (around none)

abbrev free_lock : State
free_lock = record { lock = record { locked = false; cpu = 0 }; place = λ c. outside }

free_lock-IsExclusive : IsExclusive free_lock
free_lock-IsExclusive = record {
  locked = λ c h. cc;
  one = λ c d h k. cc;
  owner = λ c h. cc;
  owned = λ c h. ground (arith);
}

-- CPU 1 takes the lock while CPU 0 spins.
abbrev places : ℕ → Place
places =
    Exclusion.move
      (Exclusion.move (Exclusion.move (Exclusion.move (λ c. outside) 0 spinning) 1 spinning) 1 won)
      1 inside

abbrev taken : State
taken = record { lock = record { locked = true; cpu = 2 }; place = places }

taken-Reach : Reach free_lock taken
unfolding holding
taken-Reach =
    Reach.next
      (Reach.next
        (Reach.next
          (Reach.next (Reach.next Reach.here (Step.enter 0 refl refl)) (Step.enter 1 refl refl))
          (Step.swap 1 refl refl))
        (Step.own 1 refl))
      (Step.busy 0 refl refl)

mutual_exclusion_example : ◌≡◌ {A = ℕ} 1 1
mutual_exclusion_example = mutual_exclusion 1 1 free_lock-IsExclusive taken-Reach refl refl
