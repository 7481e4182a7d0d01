-- ===== src/Vm/Growth.antt =====
-- walk of kernel/vm.c with alloc: the page-table pages that it adds.
use minios.Base.{
  ℕ, zero, suc, ◌+◌, ◌%◌, ◌<◌, ◌≡◌, ◌≢◌, ◌⊎◌, inl, inr, refl, sym, ap, ◌∙◌, subst, List, [], ◌∷◌,
  Bool, true, false, leb, ◌==◌, if◌then◌else◌, arith, All, Bool-cases,
}
use minios.Kern.{Outcome, ok, and_then}
use minios.Kalloc.{Kmem, page, fill, write, kalloc}
use minios.Kalloc.Chain.{Page, Fresh, HasFree, kalloc_lem, fill-HasFree}
use minios.Vm.{maxva, pte_v, pa2pte, pte2pa, slot, zero_page, grow, walk_loop, walk}
use minios.Vm.Tables.{Reaches, last, down, down_parts, last_is, walk_finds}
use minios.Vm.Pages.{
  slot-InPage, other_page, fill_away, fill_inside, grown-word, grown-entry, entry-valid,
  set_word-HasFree, InPage, grown,
}

-- The tables for `va` from `pt` down are pages of the allocator's memory, none of them free and no
-- two the same; `used` are those above.
abbrev pub When : Bool → Type 0 → Type 0
When true P = P
When false P = Unit

abbrev pub Tables : ℕ → ℕ → ℕ → ℕ → Kmem → List ℕ → List ℕ → Type 0
Tables end zero pt va k ps used = Page end pt × Fresh pt ps × Fresh pt used
Tables end (suc l) pt va k ps used =
    let pte = k.words (slot (suc l) pt va) in
    Page end pt
    × Fresh pt ps
    × Fresh pt used
    × When (pte_v pte) (Tables end l (pte2pa pte) va k ps (pt ∷ used))

-- The page that the allocator gives, in its place in the tables.
grow-grown :
    (end pte : ℕ) (k : Kmem) (p : ℕ) (ps : List ℕ)
    → 0 < end
    → HasFree end k (p ∷ ps)
    → (k' : Kmem) × (kalloc k ≡ ok p k')
      × HasFree end k' ps
      × (grow pte k ≡ ok p (grown pte p k'))
      × ((a : ℕ) → k'.words a ≡ fill k.words p 5 a)
unfolding grow fill
grow-grown end pte k p ps lo f =
    let (k', e, f', same) = kalloc_lem end k (p ∷ ps) lo f in
    let ((al, from, below), _) = f.pages in
    let real : (p == 0) ≡ false = ground arith in
    (
      k',
      e,
      f',
      ap (λ r. and_then r (λ r k. if r == 0 then ok 0 k else ok r (grown pte r k))) e
          ∙ rw real refl,
      same,
    )

grow-none : (end pte : ℕ) (k : Kmem) → 0 < end → HasFree end k [] → grow pte k ≡ ok 0 k
unfolding grow
grow-none end pte k lo f =
    ap (λ r. and_then r (λ r k. if r == 0 then ok 0 k else ok r (grown pte r k)))
      (kalloc_lem end k [] lo f)

abbrev pub In : ℕ → List ℕ → Type 0
In u [] = ⊥
In u (v ∷ vs) = (u ≡ v) ⊎ In u vs

-- What a walk with alloc comes to: no memory is left, or an entry that the tables reach now. The
-- words of the tables above are as before.
pub record Grows (end l pt va : ℕ) (used : List ℕ) (k : Kmem) (a : ℕ) (k' : Kmem) : Type 0 where
  pub left : List ℕ
  pub free : HasFree end k' left
  pub reached : ((a ≡ 0) × (left ≡ [])) ⊎ Reaches k' va l pt a
  pub kept : (u x : ℕ) → In u used → InPage u x → k'.words x ≡ k.words x

-- The tables above are pages, none of them free.
abbrev pub Above : ℕ → List ℕ → List ℕ → Type 0
Above end ps = All (λ u. Page end u × Fresh u ps)

Above-In :
    (end : ℕ) (ps used : List ℕ) (u : ℕ) → Above end ps used → In u used → Page end u × Fresh u ps
Above-In end ps [] u h i = elim i [ ]
Above-In end ps (v ∷ vs) u (h, hs) (inl e) = subst (λ u. Page end u × Fresh u ps) (sym e) h
Above-In end ps (v ∷ vs) u (h, hs) (inr i) = Above-In end ps vs u hs i

Above-rest : (end p : ℕ) (ps used : List ℕ) → Above end (p ∷ ps) used → Above end ps used
Above-rest end p ps [] h = tt
Above-rest end p ps (u ∷ us) ((hu, (_, fr)), hs) = ((hu, fr), Above-rest end p ps us hs)

Above-Fresh : (end p : ℕ) (ps used : List ℕ) → Above end (p ∷ ps) used → Fresh p used
Above-Fresh end p ps [] h = tt
Above-Fresh end p ps (u ∷ us) ((hu, (n, fr)), hs) = (λ e. n (sym e), Above-Fresh end p ps us hs)

zeroed-word :
    (end pte p pt x : ℕ) (k : Kmem)
    → Page end p
    → Page end pt
    → pt ≢ p
    → InPage pt pte
    → InPage p x
    → (grown pte p k).words x ≡ 0
unfolding write
zeroed-word end pte p pt x k hp ht ne at inside =
    let blank = fill_inside k.words p 0 x inside in
    let away = other_page end pt p pte ht hp ne at in ground (arith, blank, away)

Fresh-In : (p u : ℕ) (used : List ℕ) → Fresh p used → In u used → p ≢ u
Fresh-In p u [] fr i = elim i [ ]
Fresh-In p u (v ∷ vs) (n, fr) (inl e) = λ h. n (h ∙ e)
Fresh-In p u (v ∷ vs) (n, fr) (inr i) = Fresh-In p u vs fr i

-- A new table has no valid entry.
new-Tables :
    (end l pte p pt va : ℕ) (k : Kmem) (ps used : List ℕ)
    → Page end p
    → Page end pt
    → pt ≢ p
    → InPage pt pte
    → Fresh p ps
    → Fresh p used
    → Tables end l p va (grown pte p k) ps (pt ∷ used)
new-Tables end zero pte p pt va k ps used hp ht ne at fr fu = (hp, fr, (λ e. ne (sym e), fu))
new-Tables end (suc l) pte p pt va k ps used hp ht ne at fr fu =
    let x = slot (suc l) p va in
    let inside = slot-InPage (suc l) p va in
    let empty : (grown pte p k).words x ≡ 0 = zeroed-word end pte p pt x k hp ht ne at inside in
    (hp, fr, (λ e. ne (sym e), fu), rw empty tt)

down_to :
    (k : Kmem) (va l pt p a : ℕ)
    → p % page ≡ 0
    → k.words (slot (suc l) pt va) ≡ pa2pte p + 1
    → Reaches k va l p a
    → Reaches k va (suc l) pt a
down_to k va l pt p a al e r =
    let (valid, same) = entry-valid p al in
    down l pt a (ap pte_v e ∙ valid) (subst (λ q. Reaches k va l q a) (sym (ap pte2pa e ∙ same)) r)

abbrev Walks : ℕ → ℕ → ℕ → ℕ → List ℕ → Kmem → Outcome Kmem ℕ → Type 0
Walks end l pt va used k r = (a : ℕ) × (k' : Kmem) × (r ≡ ok a k') × Grows end l pt va used k a k'

-- What walk does with the page that `grow` has returned.
abbrev continue : ℕ → ℕ → ℕ → Kmem → Outcome Kmem ℕ
continue l va r k = let more = walk_loop l r va true k in if r == 0 then ok 0 k else more

grown-HasFree :
    (end pt pte p : ℕ) (k : Kmem) (ps : List ℕ)
    → HasFree end k ps
    → Page end p
    → Page end pt
    → Fresh p ps
    → Fresh pt ps
    → InPage pt pte
    → HasFree end (grown pte p k) ps
grown-HasFree end pt pte p k ps f hp ht fp fr at =
    set_word-HasFree end pt pte (pa2pte p + 1) (zero_page p k) ps
      (fill-HasFree end k p 0 ps f hp fp) ht fr at

-- The walk through a table that lacks the entry; `below` is the walk from the new table.
missing-Walks :
    (end l pt va : ℕ) (k : Kmem) (ps used : List ℕ)
    → 0 < end
    → HasFree end k ps
    → Above end ps used
    → Page end pt
    → Fresh pt ps
    → Fresh pt used
    → ((p : ℕ) (k : Kmem) (ps used : List ℕ)
        → HasFree end k ps
        → Above end ps used
        → Tables end l p va k ps used
        → Walks end l p va used k (walk_loop l p va true k))
    → Walks end (suc l) pt va used k (and_then (grow (slot (suc l) pt va) k) (continue l va))
missing-Walks end l pt va k [] used lo f above ht fr fu below = (
  0,
  k,
  ap (λ r. and_then r (continue l va)) (grow-none end (slot (suc l) pt va) k lo f),
  record { left = []; free = f; reached = inl (refl, refl); kept = λ u x i at. refl },
)
missing-Walks end l pt va k (p ∷ ps) used lo f above ht (np, fr) fu below =
    let pte = slot (suc l) pt va in
    let at = slot-InPage (suc l) pt va in
    let (hp, _) = f.pages in
    let (fp, _) = f.distinct in
    let (k1, e1, f1, e2, junk) = grow-grown end pte k p ps lo f in
    let k3 = grown pte p k1 in
    let real : (p == 0) ≡ false = ground arith in
    let (a, k', w, g) =
      below p k3 ps (pt ∷ used) (grown-HasFree end pt pte p k1 ps f1 hp ht fp fr at)
        ((ht, fr), Above-rest end p ps used above)
        (new-Tables end l pte p pt va k1 ps used hp ht np at fp
          (Above-Fresh end p ps used above)) in
    let entry : k'.words pte ≡ pa2pte p + 1 = g.kept pt pte (inl refl) at ∙ grown-entry pte p k1 in
    (
      a,
      k',
      ap (λ r. and_then r (continue l va)) e2 ∙ rw real w,
      record {
        left = g.left;
        free = g.free;
        reached = elim g.reached [
          | inl h ↦ inl h
          | inr r ↦ inr (down_to k' va l pt p a (omega arith) entry r)
        ];
        kept = λ u x i inside.
            let (hu, (nu, _)) = Above-In end (p ∷ ps) used u above i in
            let apart = Fresh-In pt u used fu i in
            let side = other_page end u pt x hu ht (λ h. apart (sym h)) inside in
            let (low, high) = at in
            let other : x ≢ pte = λ h. ground (arith, side, low, high) in
            g.kept u x (inr i) inside
            ∙ grown-word end pte p u x k1 hp hu nu inside other
            ∙ junk x
            ∙ fill_away k.words p 5 x (other_page end u p x hu hp nu inside);
      },
    )

pub walk_loop_lem :
    (end l pt va : ℕ) (k : Kmem) (ps used : List ℕ)
    → 0 < end
    → HasFree end k ps
    → Above end ps used
    → Tables end l pt va k ps used
    → (a : ℕ) × (k' : Kmem) × (walk_loop l pt va true k ≡ ok a k') × Grows end l pt va used k a k'
unfolding walk_loop
walk_loop_lem end zero pt va k ps used lo f above t = (
  slot 0 pt va,
  k,
  refl,
  record { left = ps; free = f; reached = inr (last pt); kept = λ u x i at. refl },
)
walk_loop_lem end (suc l) pt va k ps used lo f above (hp, fr, fu, below) =
    let pte = slot (suc l) pt va in
    elim (Bool-cases (pte_v (k.words pte))) [
      | inl e ↦
          let child : Tables end l (pte2pa (k.words pte)) va k ps (pt ∷ used) = rw e at below in
          let (a, k', w, g) =
            walk_loop_lem end l (pte2pa (k.words pte)) va k ps (pt ∷ used) lo f ((hp, fr), above)
              child in
          let same = g.kept pt pte (inl refl) (slot-InPage (suc l) pt va) in
          (
            a,
            k',
            rw e w,
            record {
              left = g.left;
              free = g.free;
              reached = elim g.reached [
                | inl h ↦ inl h
                | inr r ↦ inr (
                    down l pt a (ap pte_v same ∙ e)
                      (subst (λ v. Reaches k' va l (pte2pa v) a) (sym same) r))
              ];
              kept = λ u x i at. g.kept u x (inr i) at;
            },
          )
      | inr e ↦ rw e (
          missing-Walks end l pt va k ps used lo f above hp fr fu
            (λ p k ps used f above t. walk_loop_lem end l p va k ps used lo f above t))
    ]

-- The end of a walk with alloc: no memory is left, or the entry that a walk without alloc finds
-- from then on.
abbrev pub Found : ℕ → ℕ → ℕ → Kmem → Type 0
Found pt va a k = Reaches k va 2 pt a × (walk pt va false k ≡ ok a k)

Reaches-one : (k : Kmem) (va l pt a b : ℕ) → Reaches k va l pt a → Reaches k va l pt b → a ≡ b
Reaches-one k va zero pt a b r t = last_is k va pt a r ∙ sym (last_is k va pt b t)
Reaches-one k va (suc l) pt a b r t =
    let (_, r') = down_parts k va l pt a r in
    let (_, t') = down_parts k va l pt b t in
    Reaches-one k va l (pte2pa (k.words (slot (suc l) pt va))) a b r' t'

Reaches-Found : (pt va a : ℕ) (k : Kmem) → va < maxva → Reaches k va 2 pt a → Found pt va a k
Reaches-Found pt va a k lt r = elim (walk_finds pt va k lt) [
  | inl (b, w, t) ↦ let same = Reaches-one k va 2 pt b a t r in (r, w ∙ ap (λ a. ok a k) same)
  | inr (w, no_way) ↦ absurd (no_way a r)
]

-- walk with alloc of an address below MAXVA, where the tables on its way are pages that are not
-- free and are not twice on it: it does not panic; it returns an entry that the tables reach then
-- and that a walk without alloc finds again, or 0, and then no page is free; the pages that stay
-- free are a chain of distinct pages still.
pub walk_lem :
    (end pt va : ℕ) (k : Kmem) (ps : List ℕ)
    → 0 < end
    → va < maxva
    → HasFree end k ps
    → Tables end 2 pt va k ps []
    → (a : ℕ) × (k' : Kmem) × (left : List ℕ) × (walk pt va true k ≡ ok a k')
      × HasFree end k' left
      × (((a ≡ 0) × (left ≡ [])) ⊎ Found pt va a k')
unfolding walk
walk_lem end pt va k ps lo lt f t =
    let low : leb maxva va ≡ false = ground arith in
    let (a, k', w, g) = walk_loop_lem end 2 pt va k ps [] lo f tt t in
    (
      a,
      k',
      g.left,
      rw low w,
      g.free,
      elim g.reached [ inl h ↦ inl h | inr r ↦ inr (Reaches-Found pt va a k' lt r) ],
    )
