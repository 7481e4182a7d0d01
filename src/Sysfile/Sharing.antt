-- ===== src/Sysfile/Sharing.antt =====
-- How the references of kernel/sysfile.c move between a local variable and a descriptor.
use minios.Base.{
  ℕ, ◌+◌, ◌-◌, ◌<◌, ◌≡◌, ◌⊎◌, inl, inr, refl, ap, ◌∙◌, subst, true, ◌==◌, if◌then◌else◌, Bool-cases,
  arith, none, some, negsuc,
}
use minios.Kern.{Outcome, ok, asleep, panic, Cmd}
use minios.Ftable.{Files, File, nfile, fileclose, drop_file, take_file, filealloc}
use minios.Ftable.Counts.{free_file_lem}
use minios.Ftable.Returns.{Ensures, Ensures-weaken}
use minios.Sysfile.{Sys, nofile, put_result, in_files, set_fd, close, is_none, bind, return, ◌>>◌}
use minios.Sysfile.Pipes.{give_up}
use minios.Sysfile.Descriptors.{refers, IsShared, uses-put, refers-none}
use minios.Sysfile.Dropping.{drop_file-refs, fileclose-table}

-- One reference more, such as that of a local variable.
abbrev pub with_ref : ℕ → (ℕ → ℕ) → ℕ → ℕ
with_ref f others g = refers g (some f) + others g

-- A free entry that is taken has one reference.
pub filealloc-IsShared :
    (others : ℕ → ℕ) (s : Sys)
    → IsShared others s
    → ((f : ℕ) × (t : Files) × (filealloc s.files ≡ (some f, t))
        × (f < nfile)
        × ((s.files.file f).refs ≡ 0)
        × IsShared (with_ref f others) (record s { files = t }))
      ⊎ (filealloc s.files ≡ (none, s.files))
unfolding filealloc take_file
filealloc-IsShared others s v = elim (free_file_lem nfile 0 s.files.file) [
  | inr (missing, used) ↦ inr (rw missing refl)
  | inl (f, found, lo, hi, free) ↦ inl (
    f,
    (take_file (some f) s.files).1,
    rw found refl,
    hi,
    free,
    record {
      counted = λ g small.
          let own = v.counted g small in
          elim (Bool-cases (g == f)) [
            | inl e ↦
                let at : g ≡ f = ground arith in
                let free' : (s.files.file g).refs ≡ 0 = ap (λ g. (s.files.file g).refs) at ∙ free in
                rw e (omega arith)
            | inr e ↦ rw e (omega arith)
          ];
      inside = v.inside;
    },
  )
]

-- A descriptor takes the reference over.
pub give-IsShared :
    (others : ℕ → ℕ) (s : Sys) (new f : ℕ)
    → IsShared (with_ref f others) s
    → new < nofile
    → is_none (s.ofile new) ≡ true
    → f < nfile
    → IsShared others (set_fd new (some f) s)
give-IsShared others s new f v lt free small_f = record {
  counted = λ g small. omega (
    arith,
    v.counted g small,
    uses-put nofile g new (some f) s.ofile lt,
    refers-none g (s.ofile new) free,
  );
  inside = λ fd h small e. elim (Bool-cases (fd == new)) [
    | inl c ↦ let e' = rw c at e in let same : f ≡ h = cc in subst (λ h. h < nfile) same small_f
    | inr c ↦ v.inside fd h small (rw c at e)
  ];
}

-- A descriptor that is cleared leaves its reference to a local variable.
pub take-IsShared :
    (others : ℕ → ℕ) (s : Sys) (old f : ℕ)
    → IsShared others s
    → old < nofile
    → s.ofile old ≡ some f
    → IsShared (with_ref f others) (set_fd old none s)
take-IsShared others s old f v lt own = record {
  counted = λ g small.
      let before : refers g (s.ofile old) ≡ refers g (some f) = ap (refers g) own in
      omega (arith, v.counted g small, uses-put nofile g old none s.ofile lt, before);
  inside = λ fd h small e. elim (Bool-cases (fd == old)) [
    | inl c ↦ cc (rw c at e)
    | inr c ↦ v.inside fd h small (rw c at e)
  ];
}

-- Where a reference is counted does not matter.
pub IsShared-others :
    (others now : ℕ → ℕ) (s : Sys)
    → ((g : ℕ) → others g ≡ now g)
    → IsShared others s
    → IsShared now s
IsShared-others others now s same v = record {
  counted = λ g small. omega (arith, v.counted g small, same g);
  inside = v.inside;
}

pub bind-Ensures :
    {A B : Type 0} (P : A → Sys → Type 0) (Q : B → Sys → Type 0) (o : Outcome Sys A)
    (k : A → Cmd Sys B)
    → Ensures P o
    → ((a : A) (s : Sys) → P a s → Ensures Q (k a s))
    → Ensures Q (bind o k)
unfolding bind
bind-Ensures P Q (ok a s) k p f = f a s p
bind-Ensures P Q (asleep s) k p f = tt
bind-Ensures P Q panic k p f = tt

put-Ensures :
    (others : ℕ → ℕ) (s : Sys) (o : Outcome Files (Unit {0}))
    → Ensures (λ _ t. IsShared others (record s { files = t })) o
    → Ensures (λ _ u. (u.ofile ≡ s.ofile) × IsShared others u) (put_result s o)
put-Ensures others s (ok a t) v = (refl, v)
put-Ensures others s (asleep t) v = tt
put-Ensures others s panic v = tt

module _ (begin_op end_op : Cmd Files (Unit {0}))
    (begins : (t : Files) → Ensures (λ _ u. u.file ≡ t.file) (begin_op t))
    (ends : (t : Files) → Ensures (λ _ u. u.file ≡ t.file) (end_op t)) (me : ℕ) where
  -- fileclose gives the reference of a local variable up.
  pub fileclose-IsShared :
      (others : ℕ → ℕ) (s : Sys) (f : ℕ) (t : Files)
      → IsShared (with_ref f others) (record s { files = t })
      → Ensures (λ _ u. IsShared others (record s { files = u })) (fileclose begin_op end_op me f t)
  fileclose-IsShared others s f t v =
      Ensures-weaken (λ _ u. u.file ≡ (drop_file f t).file)
        (λ _ u. IsShared others (record s { files = u })) (fileclose begin_op end_op me f t)
        (fileclose-table begin_op end_op begins ends me f t)
        (λ _ u table. record {
          counted = λ g small.
              let own = v.counted g small in
              let entry : (u.file g).refs
                  ≡ (if g == f then (t.file f).refs - 1 else (t.file g).refs) =
                ap (λ (h : ℕ → File). (h g).refs) table ∙ drop_file-refs f g t in
              ground (arith, own, entry);
          inside = v.inside;
        })

  close-IsShared :
      (others : ℕ → ℕ) (s : Sys) (f : ℕ)
      → IsShared (with_ref f others) s
      → Ensures (λ _ u. (u.ofile ≡ s.ofile) × IsShared others u) (close begin_op end_op me f s)
  unfolding close in_files
  close-IsShared others s f v =
      put-Ensures others s (fileclose begin_op end_op me f s.files)
        (fileclose-IsShared others s f s.files v)

  -- The label `bad` gives two references up.
  pub give_up-IsShared :
      (page : ℕ) (others : ℕ → ℕ) (s : Sys) (rf wf : ℕ)
      → IsShared (with_ref rf (with_ref wf others)) s
      → Ensures
          (λ r u. (r ≡ negsuc 0) × (u.ofile ≡ s.ofile) × IsShared others u)
          (give_up begin_op end_op me page rf wf s)
  unfolding give_up ◌>>◌ return
  give_up-IsShared page others s rf wf v =
      bind-Ensures (λ _ u. (u.ofile ≡ s.ofile) × IsShared others u) _ _ _
        (bind-Ensures (λ _ u. (u.ofile ≡ s.ofile) × IsShared (with_ref wf others) u) _ _ _
          (close-IsShared (with_ref wf others) s rf v)
          (λ _ u h.
            Ensures-weaken _ (λ _ w. (w.ofile ≡ s.ofile) × IsShared others w) _
              (close-IsShared others u wf h.1) (λ _ w k. (k.0 ∙ h.0, k.1))))
        (λ _ u h. (refl, h.0, h.1))
