-- ===== src/Vm/Tables.antt =====
-- walk of kernel/vm.c goes down the page tables, and grows them with pages of the allocator.
use mathlib.Core.Bool.{false≢true}
use minios.Base.{
  ℕ, zero, suc, ◌<◌, ◌≤◌, ◌≡◌, ◌⊎◌, inl, inr, refl, sym, ◌∙◌, Bool, true, false, leb, arith,
  Bool-cases,
}
use minios.Kern.{ok, panic}
use minios.Kalloc.{Kmem}
use minios.Vm.{maxva, pte_v, pte2pa, slot, walk_loop, walk}

-- The entry at `a` is that for `va` below the table at `pt`, through valid entries.
pub data Reaches (k : Kmem) (va : ℕ) : ℕ → ℕ → ℕ → Type 0 where
  last : (pt : ℕ) → Reaches k va zero pt (slot 0 pt va)
  down :
      (l pt a : ℕ)
      → pte_v (k.words (slot (suc l) pt va)) ≡ true
      → Reaches k va l (pte2pa (k.words (slot (suc l) pt va))) a
      → Reaches k va (suc l) pt a

pub down_parts :
    (k : Kmem) (va l pt a : ℕ)
    → Reaches k va (suc l) pt a
    → (pte_v (k.words (slot (suc l) pt va)) ≡ true)
      × Reaches k va l (pte2pa (k.words (slot (suc l) pt va))) a
down_parts k va _ _ _ (down l pt a e r) = (e, r)

pub last_is : (k : Kmem) (va pt a : ℕ) → Reaches k va zero pt a → a ≡ slot 0 pt va
last_is k va _ _ (last pt) = refl

-- Without alloc the walk changes nothing, and finds what the tables reach.
walk_loop_finds :
    (l pt va : ℕ) (k : Kmem)
    → ((a : ℕ) × (walk_loop l pt va false k ≡ ok a k) × Reaches k va l pt a)
      ⊎ ((walk_loop l pt va false k ≡ ok 0 k) × ((a : ℕ) → ¬ Reaches k va l pt a))
unfolding walk_loop
walk_loop_finds zero pt va k = inl (slot 0 pt va, refl, last pt)
walk_loop_finds (suc l) pt va k = elim (Bool-cases (pte_v (k.words (slot (suc l) pt va)))) [
  | inr e ↦ inr (rw e refl, λ a r. false≢true (sym e ∙ (down_parts k va l pt a r).0))
  | inl e ↦ elim (walk_loop_finds l (pte2pa (k.words (slot (suc l) pt va))) va k) [
    | inl (a, w, r) ↦ inl (a, rw e w, down l pt a e r)
    | inr (w, no_way) ↦ inr (rw e w, λ a r. no_way a (down_parts k va l pt a r).1)
  ]
]

-- walk without alloc of an address below MAXVA changes no memory: it returns the entry that the
-- valid entries of the upper levels lead to, or 0 where they lead to none.
pub walk_finds :
    (pt va : ℕ) (k : Kmem)
    → va < maxva
    → ((a : ℕ) × (walk pt va false k ≡ ok a k) × Reaches k va 2 pt a)
      ⊎ ((walk pt va false k ≡ ok 0 k) × ((a : ℕ) → ¬ Reaches k va 2 pt a))
unfolding walk
walk_finds pt va k lt =
    let low : leb maxva va ≡ false = ground arith in rw low (walk_loop_finds 2 pt va k)

pub walk_range : (pt va : ℕ) (alloc : Bool) (k : Kmem) → maxva ≤ va → walk pt va alloc k ≡ panic
unfolding walk
walk_range pt va alloc k h = ground arith
