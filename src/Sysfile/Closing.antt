-- ===== src/Sysfile/Closing.antt =====
-- begin_op and end_op in fileclose of kernel/file.c, as kernel/sysfile.c calls it.
use minios.Base.{ℕ, suc, ◌≡◌, refl, subst, ◌∙◌, ltb, ◌-◌, inl, inr, Bool-cases, arith}
use minios.Kern.{Outcome, ok, asleep, panic, Cmd}
use minios.Pipe.{Code, done, waiting, panicked, pipeclose}
use minios.Fs.{Fs}
use minios.Fs.Dir.{iput}
use minios.Ftable.{
  Files, File, Kind, fd_none, fd_pipe, fd_inode, fd_device, fileclose, drop_file, close_object,
  close_pipe, end_pipe, put_inode, in_fs,
}
use minios.Ftable.Returns.{Ensures, Ensures-and_then, Ensures-weaken}
use minios.Sysfile.{close}
use minios.Sysfile.Steps.{Moves, Moves-files}

end_pipe-ops : (c : Code) (t : Files) → Ensures (λ _ u. u.ops ≡ t.ops) (end_pipe c t)
end_pipe-ops (done r) t = refl
end_pipe-ops (waiting c i) t = tt
end_pipe-ops panicked t = tt

in_fs-ops : {A : Type 0} (t : Files) (o : Outcome Fs A) → Ensures (λ _ u. u.ops ≡ t.ops) (in_fs t o)
in_fs-ops t (ok a s) = refl
in_fs-ops t (asleep s) = tt
in_fs-ops t panic = tt

module _ (begin_op end_op : Cmd Files (Unit {0}))
    (begins : (t : Files) → Ensures (λ _ u. u.ops ≡ suc t.ops) (begin_op t))
    (ends : (t : Files) → Ensures (λ _ u. suc u.ops ≡ t.ops) (end_op t)) (me : ℕ) where
  put_inode-ops :
      (ip : ℕ) (t : Files) → Ensures (λ _ u. u.ops ≡ t.ops) (put_inode begin_op end_op me ip t)
  unfolding put_inode
  put_inode-ops ip t =
      Ensures-and_then (λ _ u. u.ops ≡ suc t.ops) (λ _ u. u.ops ≡ t.ops) _ (λ _. end_op)
        (Ensures-and_then (λ _ u. u.ops ≡ suc t.ops) (λ _ u. u.ops ≡ suc t.ops) (begin_op t) _
          (begins t)
          (λ _ u h.
            Ensures-weaken (λ _ v. v.ops ≡ u.ops) (λ _ v. v.ops ≡ suc t.ops)
              (in_fs u (iput me ip u.fs)) (in_fs-ops u (iput me ip u.fs)) (λ _ v e. e ∙ h)))
        (λ _ u h.
          Ensures-weaken (λ _ v. suc v.ops ≡ u.ops) (λ _ v. v.ops ≡ t.ops) (end_op u) (ends u)
            (λ _ v e. omega arith))

  close_object-ops :
      (k : Kind) (ff : File) (t : Files)
      → Ensures (λ _ u. u.ops ≡ t.ops) (close_object begin_op end_op me k ff t)
  unfolding close_object close_pipe
  close_object-ops fd_none ff t = refl
  close_object-ops fd_pipe ff t = end_pipe-ops (pipeclose ff.writable (t.pipes ff.pipe)).code _
  close_object-ops fd_inode ff t = put_inode-ops ff.ip t
  close_object-ops fd_device ff t = put_inode-ops ff.ip t

  fileclose-ops :
      (f : ℕ) (t : Files) → Ensures (λ _ u. u.ops ≡ t.ops) (fileclose begin_op end_op me f t)
  unfolding fileclose drop_file
  fileclose-ops f t = elim (Bool-cases (ltb (t.file f).refs 1)) [
    | inl e ↦ rw e tt
    | inr e ↦ elim (Bool-cases (ltb 0 ((t.file f).refs - 1))) [
      | inl e' ↦ rw (e, e') refl
      | inr e' ↦ rw (e, e') (close_object-ops (t.file f).type (t.file f) _)
    ]
  ]

  pub Moves-close : {a : ℕ} (f : ℕ) → Moves a a (close begin_op end_op me f)
  unfolding close
  Moves-close {a} f = Moves-files _ (λ t e.
      subst (λ n. Ensures (λ _ u. u.ops ≡ n) (fileclose begin_op end_op me f t)) e
        (fileclose-ops f t))
