-- ===== src/Spinlock/Nesting.antt =====
-- push_off and pop_off of kernel/spinlock.c are matched.
use minios.Base.{
  ◌-◌, ◌<◌, ◌≡◌, refl, true, false, ◌==◌, ◌&&◌, if◌then◌else◌, arith, ◌∙◌, ap, sym, subst,
}
use minios.Kern.{Outcome, ok, and_then}
use minios.Spinlock.{Cpu, push_off, pop_off}

-- Calls of push_off and pop_off in which each pop_off undoes a push_off.
pub data Calls : Type 0 where
  none : Calls
  around : Calls → Calls
  both : Calls → Calls → Calls

unfoldable pub run : Calls → Cpu → Outcome Cpu (Unit {0})
run none c = ok tt c
run (around w) c = and_then (run w (push_off c)) (λ _. pop_off)
run (both v w) c = and_then (run v c) (λ _. run w)

-- Interrupts are off while a push_off is not undone.
pub record IsValid (c : Cpu) : Type 0 where
  pub off : 0 < c.noff → c.intr ≡ false

-- What matched calls leave: the depth and the interrupts as before, and `intena` while it counts.
abbrev pub Restored : Cpu → Outcome Cpu (Unit {0}) → Type 0
Restored c r =
    (d : Cpu) × (r ≡ ok tt d)
    × (d.noff ≡ c.noff)
    × (d.intr ≡ c.intr)
    × (0 < c.noff → d.intena ≡ c.intena)

push_off-IsValid : (c : Cpu) → IsValid (push_off c)
unfolding push_off
push_off-IsValid c = record { off = λ h. refl }

pop_off-Restored :
    (c d : Cpu)
    → IsValid c
    → d.noff ≡ (push_off c).noff
    → d.intr ≡ (push_off c).intr
    → (0 < (push_off c).noff → d.intena ≡ (push_off c).intena)
    → Restored c (pop_off d)
unfolding push_off pop_off
pop_off-Restored c d v depth off kept =
    let c' = record d { noff = d.noff - 1 } in
    let final = if c'.noff == 0 && c'.intena then record c' { intr = true } else c' in
    (final, ground (arith), ground (arith), ground (arith, v.off), ground (arith))

around-Restored :
    (c : Cpu) (r : Outcome Cpu (Unit {0}))
    → IsValid c
    → Restored (push_off c) r
    → Restored c (and_then r (λ _. pop_off))
around-Restored c r v (d, e, depth, off, kept) =
    subst (λ x. Restored c (and_then x (λ _. pop_off))) (sym e)
      (pop_off-Restored c d v depth off kept)

-- Matched calls of push_off and pop_off, however nested, never panic, and leave the depth and the
-- interrupt state as they were: off if they were off, on if they were on.
pub run-Restored : (w : Calls) (c : Cpu) → IsValid c → Restored c (run w c)
unfolding run
run-Restored none c v = (c, refl, refl, refl, λ h. refl)
run-Restored (around w) c v =
    around-Restored c (run w (push_off c)) v (run-Restored w (push_off c) (push_off-IsValid c))
run-Restored (both v w) c valid =
    let (d, e, depth, intr, kept) = run-Restored v c valid in
    let still : IsValid d = record { off = λ h. ground (arith, valid.off) } in
    let (d', e', depth', intr', kept') = run-Restored w d still in
    (
      d',
      ap (λ r. and_then r (λ _. run w)) e ∙ e',
      depth' ∙ depth,
      intr' ∙ intr,
      λ h. ground (arith, kept, kept'),
    )
