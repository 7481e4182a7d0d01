-- ===== src/Fs/Table.antt =====
-- The table of inodes in kernel/fs.c: iget and idup.
use mathlib.Core.Bool.{false≢true}
use minios.Base.{
  ℕ, zero, suc, ◌+◌, ◌<◌, ◌≤◌, ◌≡◌, ◌≢◌, ◌⊎◌, inl, inr, refl, sym, ◌∙◌, subst, Bool, true, false,
  ◌&&◌, Option, none, some, ltb, ◌==◌, arith, Bool-cases,
}
use minios.Kern.{Outcome, ok, asleep, panic}
use minios.Fs.{Fs, Inode, ninode}
use minios.Fs.Itable.{remember, iget_loop, idup, take_slot, iget, set_inode}

-- An entry in use for the inode.
abbrev pub IsFor : ℕ → ℕ → Inode → Type 0
IsFor dev inum v = (0 < v.refs) × (v.dev ≡ dev) × (v.inum ≡ inum)

-- No inode has two entries in use.
abbrev pub IsTable : Fs → Type 0
IsTable s =
    (i j : ℕ)
    → i < ninode
    → j < ninode
    → 0 < (s.inode i).refs
    → 0 < (s.inode j).refs
    → (s.inode i).dev ≡ (s.inode j).dev
    → (s.inode i).inum ≡ (s.inode j).inum
    → i ≡ j

-- The empty slot that the loop remembers: none where each entry is in use, the one from before, or
-- one that it has passed.
abbrev Slots : ℕ → ℕ → Option ℕ → (ℕ → Inode) → Option ℕ → Type 0
Slots n i empty t e =
    ((e ≡ none) × (empty ≡ none) × ((c : ℕ) → i ≤ c → c < i + n → 0 < (t c).refs))
    ⊎ ((k : ℕ) × (e ≡ some k)
        × ((empty ≡ some k) ⊎ ((empty ≡ none) × (i ≤ k) × (k < i + n) × ((t k).refs ≡ 0))))

-- What the loop comes to from index `i` on.
abbrev Ends : ℕ → ℕ → ℕ → ℕ → Option ℕ → (ℕ → Inode) → Option ℕ × Option ℕ → Type 0
Ends n i dev inum empty t r =
    ((k : ℕ) × (e : Option ℕ) × (r ≡ (some k, e)) × (i ≤ k) × (k < i + n) × IsFor dev inum (t k))
    ⊎ ((e : Option ℕ) × (r ≡ (none, e))
        × ((c : ℕ) → i ≤ c → c < i + n → ¬ IsFor dev inum (t c))
        × Slots n i empty t e)

more-Slots :
    (n i : ℕ) (b : Bool) (empty : Option ℕ) (t : ℕ → Inode) (e : Option ℕ)
    → ((t i).refs == 0) ≡ b
    → Slots n (i + 1) (remember i b empty) t e
    → Slots (suc n) i empty t e
more-Slots n i true none t e z (inl (h, h', used)) = absurd (ground arith)
more-Slots n i true none t e z (inr (k, h, inl same)) =
    inr (k, h, inr (refl, ground arith, ground arith, ground arith))
more-Slots n i true none t e z (inr (k, h, inr (h', _, _, _))) = absurd (ground arith)
more-Slots n i false none t e z (inl (h, h', used)) = inl (
  h,
  refl,
  λ c lo hi. elim (Bool-cases (c == i)) [
    | inl same ↦ ground arith
    | inr other ↦ used c (ground arith) (omega arith)
  ],
)
more-Slots n i false none t e z (inr (k, h, inl same)) = absurd (ground arith)
more-Slots n i false none t e z (inr (k, h, inr (h', lo, hi, zero_refs))) =
    inr (k, h, inr (refl, omega arith, omega arith, zero_refs))
more-Slots n i true (some m) t e z (inl (h, h', used)) = absurd (ground arith)
more-Slots n i true (some m) t e z (inr (k, h, inl same)) = inr (k, h, inl same)
more-Slots n i true (some m) t e z (inr (k, h, inr (h', _, _, _))) = absurd (ground arith)
more-Slots n i false (some m) t e z (inl (h, h', used)) = absurd (ground arith)
more-Slots n i false (some m) t e z (inr (k, h, inl same)) = inr (k, h, inl same)
more-Slots n i false (some m) t e z (inr (k, h, inr (h', _, _, _))) = absurd (ground arith)

matches :
    (dev inum : ℕ) (v : Inode)
    → IsFor dev inum v
    → (ltb 0 v.refs && v.dev == dev && v.inum == inum) ≡ true
matches dev inum v (used, d, m) = ground arith

iget_loop_lem :
    (n i dev inum : ℕ) (empty : Option ℕ) (t : ℕ → Inode)
    → Ends n i dev inum empty t (iget_loop n i dev inum empty t)
unfolding iget_loop
iget_loop_lem zero i dev inum none t =
    inr
      (none, refl, λ c h h'. absurd (omega arith), inl (refl, refl, λ c h h'. absurd (omega arith)))
iget_loop_lem zero i dev inum (some k) t =
    inr (some k, refl, λ c h h'. absurd (omega arith), inr (k, refl, inl refl))
iget_loop_lem (suc n) i dev inum empty t =
    let v = t i in
    elim (Bool-cases (ltb 0 v.refs && v.dev == dev && v.inum == inum)) [
      | inl h ↦ inl (
        i,
        empty,
        rw h refl,
        omega arith,
        omega arith,
        (ground arith, ground arith, ground arith),
      )
      | inr h ↦ elim (iget_loop_lem n (i + 1) dev inum (remember i (v.refs == 0) empty) t) [
        | inl (k, e, r, lo, hi, is) ↦ inl (k, e, rw h r, omega arith, omega arith, is)
        | inr (e, r, miss, slots) ↦ inr (
          e,
          rw h r,
          λ c lo hi is. elim (Bool-cases (c == i)) [
            | inl same ↦
                let (used, d, m) = is in
                false≢true (
                  sym h
                  ∙ subst (λ i. (ltb 0 (t i).refs && (t i).dev == dev && (t i).inum == inum) ≡ true)
                      (ground arith) (matches dev inum (t c) is))
            | inr other ↦ miss c (ground arith) (omega arith) is
          ],
          more-Slots n i (v.refs == 0) empty t e refl slots,
        )
      ]
    ]

-- The entry that iget returns.
pub record Gets (dev inum : ℕ) (s : Fs) (ip : ℕ) (t : Fs) : Type 0 where
  pub inside : ip < ninode
  pub is : IsFor dev inum (t.inode ip)
  pub one_more : (t.inode ip).refs ≡ (s.inode ip).refs + 1
  pub others : (c : ℕ) → c ≢ ip → t.inode c ≡ s.inode c
  pub blocks : t.block ≡ s.block
  pub unique : IsTable t

abbrev pub IgetEnds : ℕ → ℕ → Fs → Outcome Fs ℕ → Type 0
IgetEnds dev inum s (ok ip t) = Gets dev inum s ip t
IgetEnds dev inum s (asleep t) = ⊥
IgetEnds dev inum s panic =
    ((c : ℕ) → c < ninode → ¬ IsFor dev inum (s.inode c))
    × ((c : ℕ) → c < ninode → 0 < (s.inode c).refs)

idup-IsTable : (ip : ℕ) (s : Fs) → IsTable s → 0 < (s.inode ip).refs → IsTable (idup ip s)
unfolding idup
idup-IsTable ip s u used i j hi hj ui uj d m =
    u i j hi hj (ground arith) (ground arith) (ground arith) (ground arith)

abbrev fresh_slot : ℕ → ℕ → ℕ → Fs → Fs
fresh_slot dev inum ip s =
    set_inode ip
      (let v = s.inode ip in record v { dev = dev; inum = inum; refs = 1; valid = false }) s

fresh_slot-IsTable :
    (dev inum ip : ℕ) (s : Fs)
    → IsTable s
    → ((c : ℕ) → c < ninode → ¬ IsFor dev inum (s.inode c))
    → IsTable (fresh_slot dev inum ip s)
fresh_slot-IsTable dev inum ip s u miss i j hi hj ui uj d m = elim (Bool-cases (i == ip)) [
  | inl a ↦ elim (Bool-cases (j == ip)) [
    | inl b ↦ ground arith
    | inr b ↦ absurd (miss j hj (ground arith, ground arith, ground arith))
  ]
  | inr a ↦ elim (Bool-cases (j == ip)) [
    | inl b ↦ absurd (miss i hi (ground arith, ground arith, ground arith))
    | inr b ↦ u i j hi hj (ground arith) (ground arith) (ground arith) (ground arith)
  ]
]

found-Gets :
    (dev inum ip : ℕ) (s : Fs)
    → IsTable s
    → ip < ninode
    → IsFor dev inum (s.inode ip)
    → Gets dev inum s ip (idup ip s)
unfolding idup
found-Gets dev inum ip s u lt (used, d, m) = record {
  inside = lt;
  is = (ground arith, ground arith, ground arith);
  one_more = ground arith;
  others = λ c ne. ground arith;
  blocks = refl;
  unique = idup-IsTable ip s u used;
}

fresh-Gets :
    (dev inum ip : ℕ) (s : Fs)
    → IsTable s
    → ip < ninode
    → (s.inode ip).refs ≡ 0
    → ((c : ℕ) → c < ninode → ¬ IsFor dev inum (s.inode c))
    → Gets dev inum s ip (fresh_slot dev inum ip s)
fresh-Gets dev inum ip s u lt empty miss = record {
  inside = lt;
  is = (ground arith, ground arith, ground arith);
  one_more = ground arith;
  others = λ c ne. ground arith;
  blocks = refl;
  unique = fresh_slot-IsTable dev inum ip s u miss;
}

Slots-IgetEnds :
    (dev inum : ℕ) (e : Option ℕ) (s : Fs)
    → IsTable s
    → ((c : ℕ) → c < ninode → ¬ IsFor dev inum (s.inode c))
    → Slots ninode 0 none s.inode e
    → IgetEnds dev inum s (take_slot dev inum (none, e) s)
unfolding take_slot
Slots-IgetEnds dev inum none s u miss (inl (h, h', used)) = (miss, λ c lt. used c (omega arith) lt)
Slots-IgetEnds dev inum none s u miss (inr (k, h, slot)) = absurd (ground arith)
Slots-IgetEnds dev inum (some m) s u miss (inl (h, h', used)) = absurd (ground arith)
Slots-IgetEnds dev inum (some m) s u miss (inr (k, h, inl same)) = absurd (ground arith)
Slots-IgetEnds dev inum (some m) s u miss (inr (k, h, inr (_, lo, hi, empty))) =
    let same : m ≡ k = ground arith in
    subst (λ m. Gets dev inum s m (fresh_slot dev inum m s)) (sym same)
      (fresh-Gets dev inum k s u hi empty miss)

-- iget on a table in which no inode has two entries in use: it returns an entry of the table that is
-- in use for the inode, with one reference more than before, changes no other entry and no block,
-- and leaves the table so; or it panics, and then no entry is for the inode and each is in use.
pub iget_lem : (dev inum : ℕ) (s : Fs) → IsTable s → IgetEnds dev inum s (iget dev inum s)
unfolding iget take_slot
iget_lem dev inum s u = elim (iget_loop_lem ninode 0 dev inum none s.inode) [
  | inl (k, e, r, lo, hi, is) ↦
      subst (λ x. IgetEnds dev inum s (take_slot dev inum x s)) (sym r)
        (found-Gets dev inum k s u hi is)
  | inr (e, r, miss, slots) ↦
      subst (λ x. IgetEnds dev inum s (take_slot dev inum x s)) (sym r)
        (Slots-IgetEnds dev inum e s u (λ c lt. miss c (omega arith) lt) slots)
]
