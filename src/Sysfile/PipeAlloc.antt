-- ===== src/Sysfile/PipeAlloc.antt =====
-- The references that pipealloc() of kernel/pipe.c takes.
use minios.Base.{
  ℕ, ◌<◌, ◌≡◌, inl, inr, refl, ap, ◌∙◌, true, false, ◌==◌, ==_refl, Bool-cases, arith, Option, none,
  some,
}
use minios.Kern.{Cmd, and_then, pure}
use minios.Ftable.{Files, fd_pipe, nfile, fileclose, filealloc}
use minios.Ftable.Returns.{Ensures, Ensures-and_then}
use minios.Sysfile.{Sys}
use minios.Sysfile.Descriptors.{IsShared}
use minios.Sysfile.Pipes.{set_ends, close_both, alloc_second, alloc_first, pipealloc}
use minios.Sysfile.Sharing.{with_ref, filealloc-IsShared, IsShared-others, fileclose-IsShared}

-- Two entries that are the ends of the pipe at `page`.
pub record IsPipe (page rf wf : ℕ) (t : Files) : Type 0 where
  pub apart : (rf == wf) ≡ false
  pub types : ((t.file rf).type ≡ fd_pipe) × ((t.file wf).type ≡ fd_pipe)
  pub pages : ((t.file rf).pipe ≡ page) × ((t.file wf).pipe ≡ page)
  pub reader : ((t.file rf).readable ≡ true) × ((t.file rf).writable ≡ false)
  pub writer : ((t.file wf).readable ≡ false) × ((t.file wf).writable ≡ true)

set_ends-IsPipe :
    (page rf wf : ℕ) (t : Files) → (rf == wf) ≡ false → IsPipe page rf wf (set_ends page rf wf t)
unfolding set_ends
set_ends-IsPipe page rf wf t e =
    let e' : (wf == rf) ≡ false = ground arith in
    record {
      apart = e;
      types = (rw (e, ==_refl rf) refl, rw (==_refl wf) refl);
      pages = (rw (e, ==_refl rf) refl, rw (==_refl wf) refl);
      reader = (rw (e, ==_refl rf) refl, rw (e, ==_refl rf) refl);
      writer = (rw (==_refl wf) refl, rw (==_refl wf) refl);
    }

set_ends-refs :
    (page rf wf g : ℕ) (t : Files) → ((set_ends page rf wf t).file g).refs ≡ (t.file g).refs
unfolding set_ends
set_ends-refs page rf wf g t = elim (Bool-cases (g == wf)) [
  | inl e ↦
      let at : g ≡ wf = ground arith in
      rw at (
        rw (==_refl wf) (elim (Bool-cases (wf == rf)) [
          | inl e' ↦ let at' : wf ≡ rf = ground arith in rw at' (rw (==_refl rf) refl)
          | inr e' ↦ rw e' refl
        ]))
  | inr e ↦ rw e (elim (Bool-cases (g == rf)) [
    | inl e' ↦ let at' : g ≡ rf = ground arith in rw at' (rw (==_refl rf) refl)
    | inr e' ↦ rw e' refl
  ])
]

-- What pipealloc comes to.
unfoldable pub Alloced : (ℕ → ℕ) → ℕ → Sys → Option (ℕ × ℕ) → Files → Type 0
Alloced others page s none t = IsShared others (record s { files = t })
Alloced others page s (some (rf, wf)) t =
    (rf < nfile)
    × (wf < nfile)
    × IsPipe page rf wf t
    × IsShared (with_ref rf (with_ref wf others)) (record s { files = t })

module _ (begin_op end_op : Cmd Files (Unit {0}))
    (begins : (t : Files) → Ensures (λ _ u. u.file ≡ t.file) (begin_op t))
    (ends : (t : Files) → Ensures (λ _ u. u.file ≡ t.file) (end_op t)) (me page : ℕ)
    (others : ℕ → ℕ) where
  pub swap : (rf wf g : ℕ) → with_ref wf (with_ref rf others) g ≡ with_ref rf (with_ref wf others) g
  swap rf wf g = omega arith

  -- fileclose, and then -1.
  close_one-Alloced :
      (s : Sys) (f : ℕ) (t : Files)
      → IsShared (with_ref f others) (record s { files = t })
      → Ensures
          (Alloced others page s)
          (and_then (fileclose begin_op end_op me f t) (λ _. pure none))
  unfolding Alloced
  close_one-Alloced s f t v =
      Ensures-and_then (λ _ u. IsShared others (record s { files = u })) (Alloced others page s)
        (fileclose begin_op end_op me f t) _
        (fileclose-IsShared begin_op end_op begins ends me others s f t v) (λ _ u h. h)

  second-Alloced :
      (s : Sys) (rf : ℕ) (t : Files)
      → rf < nfile
      → IsShared (with_ref rf others) (record s { files = t })
      → Ensures (Alloced others page s) (alloc_second begin_op end_op me page rf (filealloc t))
  unfolding alloc_second close_both Alloced
  second-Alloced s rf t small v =
      elim (filealloc-IsShared (with_ref rf others) (record s { files = t }) v) [
        | inr full ↦ rw full (close_one-Alloced s rf t v)
        | inl (wf, u, found, small', free, v') ↦
            let own = v.counted rf small in
            let apart : (rf == wf) ≡ false = elim (Bool-cases (rf == wf)) [
              | inl e ↦
                  let at : rf ≡ wf = ground arith in
                  let zero_refs : (t.file rf).refs ≡ 0 = ap (λ g. (t.file g).refs) at ∙ free in
                  let self = ==_refl rf in absurd (ground (arith, own))
              | inr e ↦ e
            ] in
            let held = IsShared-others _ (with_ref rf (with_ref wf others)) _ (swap rf wf) v' in
            rw found (elim (Bool-cases (page == 0)) [
              | inl e ↦ rw e (
                  Ensures-and_then (λ _ w. IsShared (with_ref wf others) (record s { files = w }))
                    (Alloced others page s) (fileclose begin_op end_op me rf u) _
                    (fileclose-IsShared begin_op end_op begins ends me (with_ref wf others) s rf u
                      held)
                    (λ _ w h. close_one-Alloced s wf w h))
              | inr e ↦ rw e (
                small,
                small',
                set_ends-IsPipe page rf wf u apart,
                record {
                  counted = λ g lt. set_ends-refs page rf wf g u ∙ held.counted g lt;
                  inside = held.inside;
                },
              )
            ])
      ]

  pub pipealloc-Alloced :
      (s : Sys)
      → IsShared others s
      → Ensures (Alloced others page s) (pipealloc begin_op end_op me page s.files)
  unfolding pipealloc alloc_first Alloced
  pipealloc-Alloced s v = elim (filealloc-IsShared others s v) [
    | inr full ↦ rw full v
    | inl (rf, t, found, small, free, v') ↦ rw found (second-Alloced s rf t small v')
  ]
