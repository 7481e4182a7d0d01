-- ===== src/Virtio/Alloc.antt =====
-- alloc_desc and alloc3_desc of kernel/virtio_disk.c.
use minios.Base.{
  ℕ, zero, suc, ◌+◌, ◌<◌, ◌≤◌, ◌≡◌, ◌⊎◌, inl, inr, refl, sym, ap, ◌∙◌, Bool, true, false, leb, ◌==◌,
  ==_refl, Bool-cases, arith, Option, none, some,
}
use minios.Kern.{Outcome, ok}
use minios.Store.{update}
use minios.Virtio.{
  Disk, num, find_desc, take_desc, use_desc, clear_desc, alloc_desc, free_desc, alloc_first,
  alloc_second, alloc_third, alloc3_desc,
}

abbrev pub one_if : Bool → ℕ
one_if true = 1
one_if false = 0

-- How many of the first `n` descriptors are free.
unfoldable pub count : ℕ → (ℕ → Bool) → ℕ
count zero free = 0
count (suc n) free = one_if (free n) + count n free

count-update :
    (n i : ℕ) (free : ℕ → Bool)
    → free i ≡ true
    → (i < n → count n (update free i false) + 1 ≡ count n free)
      × (n ≤ i → count n (update free i false) ≡ count n free)
unfolding count
count-update zero i free own = (λ lt. absurd (omega arith), λ _. refl)
count-update (suc n) i free own = elim (Bool-cases (n == i)) [
  | inl e ↦
      let at : n ≡ i = ground arith in
      let here : free n ≡ true = ap free at ∙ own in
      (
        λ _. rw (e, here) (omega (arith, (count-update n i free own).1 (omega arith))),
        λ le. absurd (omega arith),
      )
  | inr e ↦ (
    λ lt. rw e (omega (arith, (count-update n i free own).0 (ground arith))),
    λ le. rw e (omega (arith, (count-update n i free own).1 (omega arith))),
  )
]

-- What alloc_desc finds.
find_desc_lem :
    (n i : ℕ) (free : ℕ → Bool)
    → ((j : ℕ) × (find_desc n i free ≡ some j) × (j < i + n) × (free j ≡ true))
      ⊎ ((find_desc n i free ≡ none) × ((j : ℕ) → i ≤ j → j < i + n → free j ≡ false))
unfolding find_desc
find_desc_lem zero i free = inr (refl, λ j lo hi. absurd (omega arith))
find_desc_lem (suc n) i free = elim (Bool-cases (free i)) [
  | inl e ↦ inl (i, rw e refl, omega arith, e)
  | inr e ↦
      let here : (j : ℕ) → j ≡ i → free j ≡ false = (λ j at. ap free at ∙ e) in
      elim (find_desc_lem n (i + 1) free) [
        | inl (j, found, lt, own) ↦ inl (j, rw e found, omega arith, own)
        | inr (found, all) ↦ inr (
          rw e found,
          λ j lo hi. elim (Bool-cases (j == i)) [
            | inl at ↦ here j (ground arith)
            | inr at ↦ all j (ground arith) (omega arith)
          ],
        )
      ]
]

count-none : (n : ℕ) (free : ℕ → Bool) → ((j : ℕ) → j < n → free j ≡ false) → count n free ≡ 0
unfolding count
count-none zero free all = refl
count-none (suc n) free all =
    rw (all n (omega arith)) (omega (arith, count-none n free (λ j lt. all j (omega arith))))

-- A descriptor that was free, with the count after it is taken, or none when none is free.
pub alloc_desc-cases :
    (d : Disk)
    → ((i : ℕ) × (alloc_desc d ≡ (some i, use_desc i d))
        × (i < num)
        × (d.free i ≡ true)
        × (count num (use_desc i d).free + 1 ≡ count num d.free))
      ⊎ ((alloc_desc d ≡ (none, d)) × (count num d.free ≡ 0))
unfolding alloc_desc take_desc
alloc_desc-cases d = elim (find_desc_lem num 0 d.free) [
  | inl (i, found, lt, own) ↦
      inl (i, rw found refl, omega arith, own, (count-update num i d.free own).0 (omega arith))
  | inr (found, all) ↦
      inr (rw found refl, count-none num d.free (λ j lt. all j (omega arith) (omega arith)))
]

pub free_desc-clear :
    (i : ℕ) (d : Disk) → i < num → d.free i ≡ false → free_desc i d ≡ ok tt (clear_desc i d)
unfolding free_desc
free_desc-clear i d lt own = let e : leb num i ≡ false = ground arith in rw (e, own) refl

-- Three different descriptors that are free.
pub record AreFree (free : ℕ → Bool) (i0 i1 i2 : ℕ) : Type 0 where
  pub in0 : i0 < num
  pub in1 : i1 < num
  pub in2 : i2 < num
  pub free0 : free i0 ≡ true
  pub free1 : free i1 ≡ true
  pub free2 : free i2 ≡ true
  pub apart1 : (i1 == i0) ≡ false
  pub apart2 : (i2 == i0) ≡ false
  pub apart3 : (i2 == i1) ≡ false

abbrev pub use_three : ℕ → ℕ → ℕ → Disk → Disk
use_three i0 i1 i2 d = use_desc i2 (use_desc i1 (use_desc i0 d))

unfoldable pub AllocEnds : Disk → Outcome Disk (Option (ℕ × ℕ × ℕ)) → Type 0
AllocEnds d r =
    ((u : Disk) × (r ≡ ok none u) × (count num d.free < 3) × ((j : ℕ) → u.free j ≡ d.free j))
    ⊎ ((i0 i1 i2 : ℕ) × (r ≡ ok (some (i0, i1, i2)) (use_three i0 i1 i2 d))
        × AreFree d.free i0 i1 i2)

still-free :
    (free : ℕ → Bool) (i j : ℕ)
    → update free i false j ≡ true
    → ((j == i) ≡ false) × (free j ≡ true)
still-free free i j own = ground arith

given-back :
    (free : ℕ → Bool) (i j : ℕ) → free i ≡ true → update (update free i false) i true j ≡ free j
given-back free i j own = elim (Bool-cases (j == i)) [
  | inl e ↦ let at : j ≡ i = ground arith in rw e (sym (ap free at ∙ own))
  | inr e ↦ rw e refl
]

both-given-back :
    (free : ℕ → Bool) (i k j : ℕ)
    → free i ≡ true
    → free k ≡ true
    → update (update (update (update free i false) k false) i true) k true j ≡ free j
both-given-back free i k j own own' = elim (Bool-cases (j == k)) [
  | inl e ↦ let at : j ≡ k = ground arith in rw e (sym (ap free at ∙ own'))
  | inr e ↦ elim (Bool-cases (j == i)) [
    | inl e' ↦ let at : j ≡ i = ground arith in rw (e, e') (sym (ap free at ∙ own))
    | inr e' ↦ rw (e, e') refl
  ]
]

third-Ends :
    (i0 i1 : ℕ) (d : Disk)
    → i0 < num
    → i1 < num
    → d.free i0 ≡ true
    → d.free i1 ≡ true
    → (i1 == i0) ≡ false
    → count num (use_desc i1 (use_desc i0 d)).free + 2 ≡ count num d.free
    → AllocEnds d (alloc_third i0 i1 (alloc_desc (use_desc i1 (use_desc i0 d))))
unfolding alloc_third AllocEnds
third-Ends i0 i1 d lt0 lt1 own0 own1 apart counted =
    let d1 = use_desc i1 (use_desc i0 d) in
    elim (alloc_desc-cases d1) [
      | inl (i2, found, lt, own, left) ↦
          let (apart2, own') = still-free (update d.free i0 false) i1 i2 own in
          let (apart3, own2) = still-free d.free i0 i2 own' in
          inr (
            i0,
            i1,
            i2,
            rw found refl,
            record {
              in0 = lt0;
              in1 = lt1;
              in2 = lt;
              free0 = own0;
              free1 = own1;
              free2 = own2;
              apart1 = apart;
              apart2 = apart3;
              apart3 = apart2;
            },
          )
      | inr (found, none_left) ↦
          let used0 : d1.free i0 ≡ false = ground (arith, ==_refl i0) in
          let used1 : (clear_desc i0 d1).free i1 ≡ false = rw (apart, ==_refl i1) refl in
          let first = free_desc-clear i0 d1 lt0 used0 in
          let second = free_desc-clear i1 (clear_desc i0 d1) lt1 used1 in
          inl (
            clear_desc i1 (clear_desc i0 d1),
            rw (found, first, second) refl,
            omega arith,
            λ j. both-given-back d.free i0 i1 j own0 own1,
          )
    ]

second-Ends :
    (i0 : ℕ) (d : Disk)
    → i0 < num
    → d.free i0 ≡ true
    → count num (use_desc i0 d).free + 1 ≡ count num d.free
    → AllocEnds d (alloc_second i0 (alloc_desc (use_desc i0 d)))
unfolding alloc_second AllocEnds
second-Ends i0 d lt0 own0 counted =
    let d1 = use_desc i0 d in
    elim (alloc_desc-cases d1) [
      | inl (i1, found, lt, own, left) ↦
          let (apart, own1) = still-free d.free i0 i1 own in
          rw found (third-Ends i0 i1 d lt0 lt own0 own1 apart (omega arith))
      | inr (found, none_left) ↦
          let used0 : d1.free i0 ≡ false = rw (==_refl i0) refl in
          inl (
            clear_desc i0 d1,
            rw (found, free_desc-clear i0 d1 lt0 used0) refl,
            omega arith,
            λ j. given-back d.free i0 j own0,
          )
    ]

-- alloc3_desc takes three different descriptors that were free and no others; or there are fewer
-- than three free ones, and it fails and leaves every descriptor free that was.
pub alloc3_desc_lem : (d : Disk) → AllocEnds d (alloc3_desc d)
unfolding alloc3_desc alloc_first AllocEnds
alloc3_desc_lem d = elim (alloc_desc-cases d) [
  | inl (i0, found, lt, own, left) ↦ rw found (second-Ends i0 d lt own left)
  | inr (found, none_left) ↦ inl (d, rw found refl, omega arith, λ j. refl)
]
