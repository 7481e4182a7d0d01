-- ===== src/Virtio/Chain.antt =====
-- The descriptors of one request of kernel/virtio_disk.c, from virtio_disk_rw to free_chain.
use minios.Base.{
  ℕ, suc, ◌%◌, ◌<◌, ◌≡◌, inl, inr, refl, sym, ap, ◌∙◌, subst, Bool, true, false, not, ◌&&◌, ◌||◌,
  ◌==◌, ==_refl, Bool-cases, arith, none,
}
use minios.Kern.{Outcome, ok, asleep, panic}
use minios.Store.{update}
use minios.Virtio.{
  Disk, Desc, Places, num, clear_desc, chain_loop, free_chain, head_desc, data_desc, status_desc,
  chain, post, post_with, submit, finish,
}
use minios.Virtio.Alloc.{AreFree, AllocEnds, use_three, free_desc-clear, alloc3_desc_lem}

abbrev clear_three : ℕ → ℕ → ℕ → Disk → Disk
clear_three i0 i1 i2 d = clear_desc i2 (clear_desc i1 (clear_desc i0 d))

unfoldable HasNext : Desc → Bool → Type 0
HasNext v more = (v.flags % 2 == 1) ≡ more

-- A round of free_chain that goes on, and the last one.
chain_loop-next :
    (fuel i : ℕ) (d : Disk) (v : Desc)
    → i < num
    → d.free i ≡ false
    → d.desc i ≡ v
    → HasNext v true
    → chain_loop (suc fuel) i d ≡ chain_loop fuel v.next (clear_desc i d)
unfolding chain_loop HasNext
chain_loop-next fuel i d v lt used here more = rw (free_desc-clear i d lt used, here, more) refl

chain_loop-last :
    (fuel i : ℕ) (d : Disk) (v : Desc)
    → i < num
    → d.free i ≡ false
    → d.desc i ≡ v
    → HasNext v false
    → chain_loop (suc fuel) i d ≡ ok tt (clear_desc i d)
unfolding chain_loop HasNext
chain_loop-last fuel i d v lt used here more = rw (free_desc-clear i d lt used, here, more) refl

data-HasNext : (p : Places) (write : Bool) (b i2 : ℕ) → HasNext (data_desc p write b i2) true
unfolding HasNext
data-HasNext p true b i2 = refl
data-HasNext p false b i2 = refl

-- free_chain over three descriptors that are linked and in use.
chain_frees :
    (p : Places) (write : Bool) (b : ℕ) (u : Disk) (i0 i1 i2 : ℕ) (free : ℕ → Bool)
    → AreFree free i0 i1 i2
    → u.desc i0 ≡ head_desc p i0 i1
    → u.desc i1 ≡ data_desc p write b i2
    → u.desc i2 ≡ status_desc p i0
    → u.free i0 ≡ false
    → u.free i1 ≡ false
    → u.free i2 ≡ false
    → free_chain i0 u ≡ ok tt (clear_three i0 i1 i2 u)
unfolding free_chain HasNext
chain_frees p write b u i0 i1 i2 free three first second third used0 used1 used2 =
    let u1 = clear_desc i0 u in
    let u2 = clear_desc i1 u1 in
    chain_loop-next 8 i0 u (head_desc p i0 i1) three.in0 used0 first refl
    ∙ chain_loop-next 7 i1 u1 (data_desc p write b i2) three.in1 (rw three.apart1 used1)
        (rw three.apart1 second) (data-HasNext p write b i2)
    ∙ chain_loop-last 6 i2 u2 (status_desc p i0) three.in2 (rw (three.apart3, three.apart2) used2)
        (rw (three.apart3, three.apart2) third) refl

abbrev head_of : Outcome Disk ℕ → ℕ
head_of (ok i d) = i
head_of (asleep d) = 0
head_of panic = 0

abbrev state_of : Disk → Outcome Disk ℕ → Disk
state_of d (ok i t) = t
state_of d (asleep t) = d
state_of d panic = d

-- What a request took, and left in its descriptors.
unfoldable Posted : Places → Bool → ℕ → ℕ → Disk → ℕ → Disk → Type 0
Posted p write b blockno d head t =
    (i1 i2 : ℕ) × AreFree d.free head i1 i2
    × (t ≡ post p write b blockno (head, i1, i2) (use_three head i1 i2 d))

submit-Posted :
    (p : Places) (write : Bool) (b blockno : ℕ) (d t : Disk) (head : ℕ)
    → submit p write b blockno d ≡ ok head t
    → Posted p write b blockno d head t
unfolding submit post_with AllocEnds Posted
submit-Posted p write b blockno d t head submitted = elim (alloc3_desc_lem d) [
  | inl (u, none_left, few, same) ↦
      let slept : submit p write b blockno d ≡ asleep u = rw none_left refl in absurd cc
  | inr (i0, i1, i2, found, three) ↦
      let left = post p write b blockno (i0, i1, i2) (use_three i0 i1 i2 d) in
      let posted : submit p write b blockno d ≡ ok i0 left = rw found refl in
      let same : ok i0 left ≡ ok head t = sym posted ∙ submitted in
      subst (λ i. Posted p write b blockno d i t) (ap head_of same)
        (i1, i2, three, sym (ap (state_of d) same))
]

and_not : (b c : Bool) → (b && not b || c) ≡ c
and_not true c = refl
and_not false c = refl

-- What is free when three descriptors are given back, by what is free when they are taken.
freed_three :
    (free now : ℕ → Bool) (i0 i1 i2 j : ℕ)
    → AreFree free i0 i1 i2
    → update (update (update now i0 true) i1 true) i2 true j
      ≡ (free j && not (update (update (update free i0 false) i1 false) i2 false j) || now j)
freed_three free now i0 i1 i2 j three = elim (Bool-cases (j == i2)) [
  | inl e ↦ let at : j ≡ i2 = ground arith in rw e (rw (ap free at ∙ three.free2) refl)
  | inr e2 ↦ elim (Bool-cases (j == i1)) [
    | inl e ↦ let at : j ≡ i1 = ground arith in rw (e2, e) (rw (ap free at ∙ three.free1) refl)
    | inr e1 ↦ elim (Bool-cases (j == i0)) [
      | inl e ↦
          let at : j ≡ i0 = ground arith in rw (e2, e1, e) (rw (ap free at ∙ three.free0) refl)
      | inr e0 ↦ rw (e2, e1, e0) (sym (and_not (free j) (now j)))
    ]
  ]
]

-- The descriptors of a request that are as it left them are freed, and no others.
request_frees :
    (p : Places) (write : Bool) (b blockno : ℕ) (d t u : Disk) (head : ℕ)
    → Posted p write b blockno d head t
    → ((j : ℕ) → d.free j ≡ true → t.free j ≡ false → u.desc j ≡ t.desc j)
    → ((j : ℕ) → d.free j ≡ true → t.free j ≡ false → u.free j ≡ false)
    → (v : Disk) × (free_chain head u ≡ ok tt v)
      × ((j : ℕ) → v.free j ≡ (d.free j && not (t.free j) || u.free j))
unfolding Posted post
request_frees p write b blockno d t u head (i1, i2, three, posted) kept used =
    let three0 = three.apart1 in
    let three1 = three.apart2 in
    let three2 = three.apart3 in
    let a1 : (head == i1) ≡ false = ground arith in
    let a2 : (head == i2) ≡ false = ground arith in
    let a3 : (i1 == i2) ≡ false = ground arith in
    let taken : (j : ℕ) → t.free j ≡ (use_three head i1 i2 d).free j =
      (λ j. ap (λ x. x.free j) posted) in
    let left : (j : ℕ) → t.desc j ≡ chain p write b (head, i1, i2) d.desc j =
      (λ j. ap (λ x. x.desc j) posted) in
    let taken0 : t.free head ≡ false = taken head ∙ rw (a2, a1, ==_refl head) refl in
    let taken1 : t.free i1 ≡ false = taken i1 ∙ rw (a3, ==_refl i1) refl in
    let taken2 : t.free i2 ≡ false = taken i2 ∙ rw (==_refl i2) refl in
    (
      clear_three head i1 i2 u,
      chain_frees p write b u head i1 i2 d.free three
          (kept head three.free0 taken0 ∙ left head ∙ rw (a2, a1, ==_refl head) refl)
          (kept i1 three.free1 taken1 ∙ left i1 ∙ rw (a3, ==_refl i1) refl)
          (kept i2 three.free2 taken2 ∙ left i2 ∙ rw (==_refl i2) refl)
          (used head three.free0 taken0) (used i1 three.free1 taken1) (used i2 three.free2 taken2),
      λ j. freed_three d.free u.free head i1 i2 j three ∙ rw (taken j) refl,
    )

-- A request gives back the descriptors that it took: when submit() has returned the head of its
-- chain, the device is done with the buffer, and the descriptors that the request took are as it
-- left them and in use, whatever else has changed, then finish() returns, and what is free is what
-- the request took and what was free before.
pub finish-submit :
    (p : Places) (write : Bool) (b blockno : ℕ) (d t u : Disk) (head : ℕ)
    → submit p write b blockno d ≡ ok head t
    → ((j : ℕ) → d.free j ≡ true → t.free j ≡ false → u.desc j ≡ t.desc j)
    → ((j : ℕ) → d.free j ≡ true → t.free j ≡ false → u.free j ≡ false)
    → (u.disk b == 1) ≡ false
    → (v : Disk) × (finish b head u ≡ ok tt v)
      × ((j : ℕ) → v.free j ≡ (d.free j && not (t.free j) || u.free j))
unfolding finish
finish-submit p write b blockno d t u head submitted kept used ready = rw ready (
    request_frees p write b blockno d t (record u { info_buf = update u.info_buf head none }) head
      (submit-Posted p write b blockno d t head submitted) kept used)
