-- ===== src/Sysfile/Dropping.antt =====
-- close of kernel/sysfile.c: the descriptor and the reference that it gives up.
use minios.Base.{
  ℕ, ◌-◌, ◌≡◌, ◌⊎◌, inl, inr, refl, ◌∙◌, ltb, ◌==◌, if◌then◌else◌, Bool-cases, arith, none, some, ℤ,
  pos, negsuc,
}
use minios.Kern.{Outcome, ok, asleep, panic, Cmd}
use minios.Pipe.{Code, done, waiting, panicked, pipeclose}
use minios.Fs.{Fs}
use minios.Fs.Dir.{iput}
use minios.Ftable.{
  Files, File, Kind, fd_none, fd_pipe, fd_inode, fd_device, fileclose, drop_file, close_object,
  close_pipe, end_pipe, put_inode, in_fs,
}
use minios.Ftable.Returns.{Ensures, Ensures-and_then, Ensures-weaken}
use minios.Sysfile.{Sys, argfd, set_fd}
use minios.Sysfile.Descriptors.{IsShared}

in_fs-table :
    {A : Type 0} (t : Files) (o : Outcome Fs A) → Ensures (λ _ u. u.file ≡ t.file) (in_fs t o)
in_fs-table t (ok a s) = refl
in_fs-table t (asleep s) = tt
in_fs-table t panic = tt

end_pipe-table : (c : Code) (t : Files) → Ensures (λ _ u. u.file ≡ t.file) (end_pipe c t)
end_pipe-table (done r) t = refl
end_pipe-table (waiting c i) t = tt
end_pipe-table panicked t = tt

pub drop_file-refs :
    (f g : ℕ) (t : Files)
    → ((drop_file f t).file g).refs ≡ (if g == f then (t.file f).refs - 1 else (t.file g).refs)
unfolding drop_file
drop_file-refs f g t = elim (Bool-cases (g == f)) [
  | inl e ↦ elim (Bool-cases (ltb 0 ((t.file f).refs - 1))) [
    | inl more ↦ rw (e, more) refl
    | inr last ↦ rw (e, last) (ground arith)
  ]
  | inr e ↦ rw e refl
]

-- What close comes to where it returns.
pub Closes : (ℕ → ℕ) → ℤ → Sys → ℤ → Sys → Type 0
Closes others fd s r u =
    IsShared others u
    × (((old f : ℕ) × (argfd fd s ≡ some (old, f))
          × (r ≡ pos 0)
          × (u.ofile ≡ (set_fd old none s).ofile))
        ⊎ ((argfd fd s ≡ none) × (r ≡ negsuc 0) × (u ≡ s)))

module _ (begin_op end_op : Cmd Files (Unit {0}))
    (begins : (t : Files) → Ensures (λ _ u. u.file ≡ t.file) (begin_op t))
    (ends : (t : Files) → Ensures (λ _ u. u.file ≡ t.file) (end_op t)) (me : ℕ) where
  put_inode-table :
      (ip : ℕ) (t : Files) → Ensures (λ _ u. u.file ≡ t.file) (put_inode begin_op end_op me ip t)
  unfolding put_inode
  put_inode-table ip t =
      Ensures-and_then (λ _ u. u.file ≡ t.file) (λ _ u. u.file ≡ t.file) _ (λ _. end_op)
        (Ensures-and_then (λ _ u. u.file ≡ t.file) (λ _ u. u.file ≡ t.file) (begin_op t) _
          (begins t)
          (λ _ u h.
            Ensures-weaken (λ _ v. v.file ≡ u.file) (λ _ v. v.file ≡ t.file)
              (in_fs u (iput me ip u.fs)) (in_fs-table u (iput me ip u.fs)) (λ _ v e. e ∙ h)))
        (λ _ u h.
          Ensures-weaken (λ _ v. v.file ≡ u.file) (λ _ v. v.file ≡ t.file) (end_op u) (ends u)
            (λ _ v e. e ∙ h))

  close_object-table :
      (k : Kind) (ff : File) (t : Files)
      → Ensures (λ _ u. u.file ≡ t.file) (close_object begin_op end_op me k ff t)
  unfolding close_object close_pipe
  close_object-table fd_none ff t = refl
  close_object-table fd_pipe ff t = end_pipe-table (pipeclose ff.writable (t.pipes ff.pipe)).code _
  close_object-table fd_inode ff t = put_inode-table ff.ip t
  close_object-table fd_device ff t = put_inode-table ff.ip t

  pub fileclose-table :
      (f : ℕ) (t : Files)
      → Ensures (λ _ u. u.file ≡ (drop_file f t).file) (fileclose begin_op end_op me f t)
  unfolding fileclose
  fileclose-table f t = elim (Bool-cases (ltb (t.file f).refs 1)) [
    | inl e ↦ rw e tt
    | inr e ↦ elim (Bool-cases (ltb 0 ((t.file f).refs - 1))) [
      | inl e' ↦ rw (e, e') refl
      | inr e' ↦ rw (e, e') (close_object-table (t.file f).type (t.file f) _)
    ]
  ]
