-- ===== src/Kern.antt =====
-- What a kernel routine can do besides return: go to sleep in sleep() of kernel/proc.c, or panic().
-- A routine that sleeps in a loop is run again from that loop when its channel is woken.
use minios.Base.{Bool, if◌then◌else◌}

pub data Outcome (S A : Type 0) : Type 0 where
  ok : A → S → Outcome S A
  asleep : S → Outcome S A
  panic : Outcome S A

abbrev pub Cmd : Type 0 → Type 0 → Type 0
Cmd S A = S → Outcome S A

abbrev pub pure : {S A : Type 0} → A → Cmd S A
pure = ok

-- abbrev, so that a chain computes wherever it stands.
abbrev pub and_then : {S A B : Type 0} → Outcome S A → (A → Cmd S B) → Outcome S B
and_then (ok a s) k = k a s
and_then (asleep s) k = asleep s
and_then panic k = panic

infixl 5 ◌>>=◌ ◌>>◌
abbrev pub ◌>>=◌ : {S A B : Type 0} → Cmd S A → (A → Cmd S B) → Cmd S B
◌>>=◌ m k s = and_then (m s) k

abbrev pub ◌>>◌ : {S B : Type 0} → Cmd S (Unit {0}) → Cmd S B → Cmd S B
m >> k = m >>= λ _. k

-- if(bad) panic(...);
abbrev pub panic_if : {S : Type 0} → Bool → Cmd S (Unit {0})
panic_if bad s = if bad then panic else ok tt s

-- A change of the state that always succeeds.
abbrev pub change : {S : Type 0} → (S → S) → Cmd S (Unit {0})
change f s = ok tt (f s)
