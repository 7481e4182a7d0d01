-- ===== src/Vm/Pages.antt =====
-- The words of pages, as kernel/vm.c writes them.
use minios.Base.{
  ℕ, zero, suc, ◌+◌, ◌*◌, ◌%◌, ◌<◌, ◌≤◌, ◌≡◌, ◌≢◌, ◌⊎◌, inl, inr, List, [], ◌∷◌, true, ltb, arith,
  All, Bool-cases,
}
use minios.Kalloc.{Words, Kmem, page, fill, write}
use minios.Kalloc.Chain.{Page, Fresh, HasFree, Chain-agree}
use minios.Vm.{pte_v, pa2pte, pte2pa, px, slot, set_word, zero_page}

-- A word of the page `u`.
abbrev pub InPage : ℕ → ℕ → Type 0
InPage u x = (u ≤ x) × (x < u + page)

pub px-lt : (l va : ℕ) → px l va < 512
px-lt zero va = omega arith
px-lt (suc zero) va = omega arith
px-lt (suc (suc l)) va = omega arith

pub slot-InPage : (l pt va : ℕ) → InPage pt (slot l pt va)
slot-InPage l pt va = (omega arith, omega (arith, px-lt l va))

-- A word of one page is not in another one.
pub other_page :
    (end p q x : ℕ) → Page end p → Page end q → p ≢ q → InPage p x → (x < q) ⊎ (q + page ≤ x)
other_page end p q x (ap', lo, hi) (aq, lo', hi') ne (h, h') = elim (Bool-cases (ltb x q)) [
  | inl e ↦ inl (ground arith)
  | inr e ↦ inr (ground arith)
]

pub fill_away : (m : Words) (q c x : ℕ) → (x < q) ⊎ (q + page ≤ x) → fill m q c x ≡ m x
unfolding fill
fill_away m q c x h = ground arith

pub fill_inside : (m : Words) (q c x : ℕ) → InPage q x → fill m q c x ≡ c * 72340172838076673
unfolding fill
fill_inside m q c x (h, h') = ground arith

-- The memory after `grow` has taken page `p` for the entry at `pte`.
abbrev pub grown : ℕ → ℕ → Kmem → Kmem
grown pte p k = set_word pte (pa2pte p + 1) (zero_page p k)

pub grown-word :
    (end pte p u x : ℕ) (k : Kmem)
    → Page end p
    → Page end u
    → u ≢ p
    → InPage u x
    → x ≢ pte
    → (grown pte p k).words x ≡ k.words x
unfolding write
grown-word end pte p u x k hp hu ne at away =
    let kept = fill_away k.words p 0 x (other_page end u p x hu hp ne at) in ground (arith, kept)

pub grown-entry : (pte p : ℕ) (k : Kmem) → (grown pte p k).words pte ≡ pa2pte p + 1
unfolding write
grown-entry pte p k = ground arith

pub entry-valid :
    (p : ℕ) → p % page ≡ 0 → (pte_v (pa2pte p + 1) ≡ true) × (pte2pa (pa2pte p + 1) ≡ p)
entry-valid p al = (ground arith, omega arith)

-- Writing a word of a page that is not free leaves the free list.
pub set_word-HasFree :
    (end pt x v : ℕ) (k : Kmem) (ps : List ℕ)
    → HasFree end k ps
    → Page end pt
    → Fresh pt ps
    → InPage pt x
    → HasFree end (set_word x v k) ps
unfolding write
set_word-HasFree end pt x v k ps f hp fr at = record {
  chain = Chain-agree k.words (write k.words x v) k.freelist ps (kept ps f.pages fr) f.chain;
  pages = f.pages;
  distinct = f.distinct;
}
  where
    kept :
        (qs : List ℕ)
        → All (Page end) qs
        → Fresh pt qs
        → All (λ q. write k.words x v q ≡ k.words q) qs
    kept [] h fr = tt
    kept (q ∷ qs) (hq, h) (n, fr) = (ground (arith, other_page end pt q x hp hq n at), kept qs h fr)
