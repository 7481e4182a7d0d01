-- ===== src/Kalloc/Init.antt =====
-- kinit of kernel/kalloc.c frees every page of the memory behind the kernel.
use minios.Base.{
  ℕ, zero, suc, ◌+◌, ◌-◌, ◌*◌, ◌/◌, ◌%◌, ◌≤◌, ◌<◌, ◌≡◌, refl, inr, ap, ◌∙◌, List, [], ◌∷◌, arith,
  All,
}
use minios.Kern.{ok, and_then}
use minios.Kalloc.{Kmem, page, phystop, pgroundup, freerange_loop, freerange, kinit}
use minios.Kalloc.Chain.{Fresh, HasFree, kfree_lem}

-- `n` pages from `p` on, the last first, before the pages `ps`.
abbrev pub stacked : ℕ → ℕ → List ℕ → List ℕ
stacked p zero ps = ps
stacked p (suc n) ps = stacked (p + page) n (p ∷ ps)

below_Fresh : (p : ℕ) (ps : List ℕ) → All (λ q. q < p) ps → Fresh p ps
below_Fresh p [] h = tt
below_Fresh p (q ∷ ps) (h, hs) = (ground arith, below_Fresh p ps hs)

below_more : (p : ℕ) (ps : List ℕ) → All (λ q. q < p) ps → All (λ q. q < p + page) ps
below_more p [] h = tt
below_more p (q ∷ ps) (h, hs) = (omega arith, below_more p ps hs)

pub freerange_loop_lem :
    (end p n : ℕ) (k : Kmem) (ps : List ℕ)
    → HasFree end k ps
    → All (λ q. q < p) ps
    → p % page ≡ 0
    → end ≤ p
    → p + n * page ≤ phystop
    → (k' : Kmem) × (freerange_loop end p n k ≡ ok tt k') × HasFree end k' (stacked p n ps)
unfolding freerange_loop
freerange_loop_lem end p zero k ps f below al lo hi = (k, refl, f)
freerange_loop_lem end p (suc n) k ps f below al lo hi =
    let (k₁, e, f₁, _) =
      kfree_lem end k p ps (p + page) f (al, lo, omega arith) (below_Fresh p ps below)
        (inr (omega arith)) in
    let (k', e', f') =
      freerange_loop_lem end (p + page) n k₁ (p ∷ ps) f₁ (omega arith, below_more p ps below)
        (omega arith) (omega arith) (omega arith) in
    (k', ap (λ r. and_then r (λ _. freerange_loop end (p + page) n)) e ∙ e', f')

-- kinit from an empty free list, where the kernel ends below PHYSTOP: it does not panic, and the
-- free list has, the last first, as many pages as fit between the end of the kernel, rounded up to
-- a page, and PHYSTOP.
pub kinit_lem :
    (end : ℕ) (k : Kmem)
    → end < phystop
    → k.freelist ≡ 0
    → (k' : Kmem) × (kinit end k ≡ ok tt k')
      × HasFree end k' (stacked (pgroundup end) ((phystop - pgroundup end) / page) [])
unfolding kinit freerange pgroundup
kinit_lem end k small empty =
    freerange_loop_lem end (pgroundup end) ((phystop - pgroundup end) / page) k []
      (record { chain = empty; pages = tt; distinct = tt }) tt (omega arith) (omega arith)
      (omega arith)
