-- ===== src/Kalloc/Chain.antt =====
-- The free list of kernel/kalloc.c is a chain of distinct pages.
use minios.Base.{
  ℕ, ◌+◌, ◌%◌, ◌≤◌, ◌<◌, ◌≡◌, ◌≢◌, refl, sym, subst, ◌⊎◌, List, [], ◌∷◌, arith, All, ltb, leb, ◌&&◌,
  if◌then◌else◌,
}
use minios.Kern.{ok, panic}
use minios.Kalloc.{Words, Kmem, page, phystop, fill, write, link, kfree, kalloc}

-- An aligned address of the memory that the allocator owns.
abbrev pub Page : ℕ → ℕ → Type 0
Page end p = (p % page ≡ 0) × (end ≤ p) × (p < phystop)

-- The links lead from `r` through the pages of the list to 0.
abbrev pub Chain : Words → ℕ → List ℕ → Type 0
Chain m r [] = r ≡ 0
Chain m r (p ∷ ps) = (r ≡ p) × Chain m (m p) ps

abbrev pub Fresh : ℕ → List ℕ → Type 0
Fresh p = All (λ q. p ≢ q)

abbrev pub Distinct : List ℕ → Type 0
Distinct [] = Unit
Distinct (p ∷ ps) = Fresh p ps × Distinct ps

pub record HasFree (end : ℕ) (k : Kmem) (ps : List ℕ) : Type 0 where
  pub chain : Chain k.words k.freelist ps
  pub pages : All (Page end) ps
  pub distinct : Distinct ps

-- A change that leaves the first words of the pages alone leaves the chain alone.
pub Chain-agree :
    (m m' : Words) (r : ℕ) (ps : List ℕ) → All (λ q. m' q ≡ m q) ps → Chain m r ps → Chain m' r ps
Chain-agree m m' r [] same c = c
Chain-agree m m' r (p ∷ ps) (e, same) (h, c) =
    (h, Chain-agree m m' (m' p) ps same (subst (λ x. Chain m x ps) (sym e) c))

-- A page's junk does not reach another page.
pub fill_other :
    (end : ℕ) (m : Words) (p q c : ℕ) → Page end p → Page end q → p ≢ q → fill m p c q ≡ m q
unfolding fill
fill_other end m p q c hp hq ne = ground arith

fills_other :
    (end : ℕ) (m : Words) (p c : ℕ) (ps : List ℕ)
    → Page end p
    → All (Page end) ps
    → Fresh p ps
    → All (λ q. fill m p c q ≡ m q) ps
fills_other end m p c [] hp hs ne = tt
fills_other end m p c (q ∷ ps) hp (hq, hs) (n, ne) =
    (fill_other end m p q c hp hq n, fills_other end m p c ps hp hs ne)

writes_other : (m : Words) (p v : ℕ) (ps : List ℕ) → Fresh p ps → All (λ q. write m p v q ≡ m q) ps
unfolding write
writes_other m p v [] ne = tt
writes_other m p v (q ∷ ps) (n, ne) = (ground arith, writes_other m p v ps ne)

write_self : (m : Words) (p v : ℕ) → write m p v p ≡ v
unfolding write
write_self m p v = ground arith

link-HasFree :
    (end : ℕ) (k : Kmem) (p : ℕ) (ps : List ℕ)
    → HasFree end k ps
    → Page end p
    → Fresh p ps
    → HasFree end (link p k) (p ∷ ps)
unfolding link
link-HasFree end k p ps f hp ne =
    let w = write k.words p k.freelist in
    record {
      chain = (
        refl,
        subst (λ x. Chain w x ps) (sym (write_self k.words p k.freelist))
            (Chain-agree k.words w k.freelist ps (writes_other k.words p k.freelist ps ne) f.chain),
      );
      pages = (hp, f.pages);
      distinct = (ne, f.distinct);
    }

pub fill-HasFree :
    (end : ℕ) (k : Kmem) (p c : ℕ) (ps : List ℕ)
    → HasFree end k ps
    → Page end p
    → Fresh p ps
    → HasFree end (record k { words = fill k.words p c }) ps
fill-HasFree end k p c ps f hp ne = record {
  chain =
      Chain-agree k.words (fill k.words p c) k.freelist ps
        (fills_other end k.words p c ps hp f.pages ne) f.chain;
  pages = f.pages;
  distinct = f.distinct;
}

link_outside : (m : Words) (r p a : ℕ) → (a < p) ⊎ (p + page ≤ a) → write (fill m p 1) p r a ≡ m a
unfolding write fill
link_outside m r p a h = ground arith

-- kfree of a page that is not free: the page becomes the first of the free list, the pages behind
-- it are those of before in their order, and a word outside the page is unchanged.
pub kfree_lem :
    (end : ℕ) (k : Kmem) (p : ℕ) (ps : List ℕ) (a : ℕ)
    → HasFree end k ps
    → Page end p
    → Fresh p ps
    → (a < p) ⊎ (p + page ≤ a)
    → (k' : Kmem) × (kfree end p k ≡ ok tt k') × HasFree end k' (p ∷ ps) × (k'.words a ≡ k.words a)
unfolding kfree link
kfree_lem end k p ps a f hp ne outside =
    let junk = record k { words = fill k.words p 1 } in
    (
      link p junk,
      ground arith,
      link-HasFree end junk p ps (fill-HasFree end k p 1 ps f hp ne) hp ne,
      link_outside k.words k.freelist p a outside,
    )

-- kfree panics on each address that is not a page of the allocator's memory.
pub kfree_bad : (end : ℕ) (k : Kmem) (pa : ℕ) → ¬ Page end pa → kfree end pa k ≡ panic
unfolding kfree
kfree_bad end k pa h = ground arith

-- Eight bytes of 5.
abbrev pub junk : ℕ
junk = 0x0505050505050505

-- What kalloc does by the list of the free pages: none, or a first one.
abbrev pub Allocated : ℕ → Kmem → List ℕ → Type 0
Allocated end k [] = kalloc k ≡ ok 0 k
Allocated end k (p ∷ ps) =
    (k' : Kmem) × (kalloc k ≡ ok p k')
    × HasFree end k' ps
    × ((a : ℕ) → k'.words a ≡ (if leb p a && ltb a (p + 4096) then junk else k.words a))

abbrev rest : Kmem → ℕ → Kmem
rest k p = record { words = fill k.words p 5; freelist = k.words p }

kalloc_first : (k : Kmem) (p : ℕ) → 0 < p → k.freelist ≡ p → kalloc k ≡ ok p (rest k p)
unfolding kalloc
kalloc_first k p pos e = ground arith

rest-HasFree :
    (end : ℕ) (k : Kmem) (p : ℕ) (ps : List ℕ) → HasFree end k (p ∷ ps) → HasFree end (rest k p) ps
rest-HasFree end k p ps f =
    let (hp, hs) = f.pages in
    let (ne, distinct) = f.distinct in
    let (_, chain) = f.chain in
    fill-HasFree end (record k { freelist = k.words p }) p 5 ps
      (record { chain = chain; pages = hs; distinct = distinct }) hp ne

-- kalloc returns the first free page and takes it off the free list, with each byte of its 4096 set
-- to 5 and no word outside the page changed; with no free page it returns 0 and changes nothing.
pub kalloc_lem :
    (end : ℕ) (k : Kmem) (ps : List ℕ) → 0 < end → HasFree end k ps → Allocated end k ps
unfolding kalloc fill
kalloc_lem end k [] pos f = ground (arith, f.chain)
kalloc_lem end k (p ∷ ps) pos f =
    let (first, _) = f.chain in
    let ((_, lo, _), _) = f.pages in
    (rest k p, kalloc_first k p (omega arith) first, rest-HasFree end k p ps f, λ a. refl)
