-- ===== src/Spinlock.antt =====
-- kernel/spinlock.c: the nesting of disabled interrupts, and the lock.
pub mod Nesting
pub mod Exclusion
use minios.Base.{ℕ, ◌+◌, ◌-◌, ◌<◌, ◌≡◌, Bool, true, false, not, ◌&&◌, ltb, ◌==◌, if◌then◌else◌}
use minios.Kern.{Outcome, ok, panic}

-- A CPU: whether its interrupts are on, and `noff` and `intena` of `struct cpu`.
pub record Cpu : Type 0 where
  pub intr : Bool
  pub noff : ℕ
  pub intena : Bool

unfoldable pub push_off : Cpu → Cpu
push_off c = record {
  intr = false;
  noff = c.noff + 1;
  intena = if c.noff == 0 then c.intr else c.intena;
}

unfoldable pub pop_off : Cpu → Outcome Cpu (Unit {0})
pop_off c =
    let c' = record c { noff = c.noff - 1 } in
    if c.intr
    then panic
    else if ltb c.noff 1
    then panic
    else ok tt (if c'.noff == 0 && c'.intena then record c' { intr = true } else c')

-- `struct spinlock`. The owner is 0 for no CPU, and else the CPU's number and one.
pub record Spinlock : Type 0 where
  pub locked : Bool
  pub cpu : ℕ

unfoldable pub initlock : Spinlock → Spinlock
initlock lk = record { locked = false; cpu = 0 }

unfoldable pub holding : ℕ → Spinlock → Bool
holding me lk = lk.locked && lk.cpu == (me + 1)
