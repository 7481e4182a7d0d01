-- ===== src/Tests/Sysfile.antt =====
-- kernel/sysfile.c in a process with two descriptors of one file.
use minios.Base.{
  ℕ, suc, ◌+◌, ◌-◌, ◌≡◌, refl, true, none, some, List, [], ◌∷◌, ◌==◌, ◌||◌, if◌then◌else◌, arith,
  pos, Bool-cases, inl, inr,
}
use minios.Kern.{ok, panic, Cmd}
use minios.Ftable.{Files, filedup}
use minios.Ftable.Returns.{Ensures}
use minios.Sysfile.{
  Sys, argfd, sys_dup, sys_close, dup_arg, dup_file, fdalloc, take_fd, free_fd, in_files, return,
  ◌>>=◌,
}
use minios.Sysfile.Calls.{sys_link, sys_unlink}
use minios.Sysfile.Open.{sys_open, sys_mkdir, sys_mknod, sys_chdir}
use minios.Sysfile.Openings.{operations_end}
use minios.Sysfile.Descriptors.{uses, IsShared}
use minios.Sysfile.Pipes.{sys_pipe}
use minios.Sysfile.Piping.{Piped, sys_pipe_lem}
use minios.Tests.Ftable.{shared}

abbrev process : Sys
process = record {
  files = shared;
  ofile = λ fd. if fd == 0 || fd == 2 then some 3 else none;
  cwd = 0;
}

process-IsShared : IsShared (λ g. 0) process
unfolding uses
process-IsShared = record {
  counted = λ g small. ground arith;
  inside = λ fd f small e. elim (Bool-cases (fd == 0 || fd == 2)) [
    | inl c ↦ let e' = rw c at e in let same : f ≡ 3 = cc in rw same (omega arith)
    | inr c ↦ cc (rw c at e)
  ];
}

abbrev begin_op : Cmd Files (Unit {0})
begin_op t = ok tt (record t { ops = t.ops + 1 })

abbrev end_op : Cmd Files (Unit {0})
end_op t = if t.ops == 0 then panic else ok tt (record t { ops = t.ops - 1 })

end_op-ops : (t : Files) → Ensures (λ _ u. suc u.ops ≡ t.ops) (end_op t)
end_op-ops t = elim (Bool-cases (t.ops == 0)) [ inl e ↦ rw e tt | inr e ↦ rw e (ground arith) ]

end_op-file : (t : Files) → Ensures (λ _ u. u.file ≡ t.file) (end_op t)
end_op-file t = elim (Bool-cases (t.ops == 0)) [ inl e ↦ rw e tt | inr e ↦ rw e refl ]

abbrev path : List ℕ
path = 47 ∷ 97 ∷ []

operations_end_example :
    Ensures (λ _ u. u.files.ops ≡ 0) (sys_link begin_op end_op 1 (some path) (some path) process)
    × Ensures (λ _ u. u.files.ops ≡ 0) (sys_unlink begin_op end_op 1 (some path) process)
    × Ensures (λ _ u. u.files.ops ≡ 0) (sys_open begin_op end_op 1 (some path) 512 process)
    × Ensures (λ _ u. u.files.ops ≡ 0) (sys_mkdir begin_op end_op 1 (some path) process)
    × Ensures (λ _ u. u.files.ops ≡ 0) (sys_mknod begin_op end_op 1 1 0 (some path) process)
    × Ensures (λ _ u. u.files.ops ≡ 0) (sys_chdir begin_op end_op 1 (some path) process)
    × Ensures (λ _ u. u.files.ops ≡ 0) (sys_close begin_op end_op 1 (pos 2) process)
operations_end_example =
    operations_end begin_op end_op (λ t. omega arith) end_op-ops 1 process (some path) (some path)
      512 1 0 (pos 2)

-- Descriptor 1 is the lowest that is free.
dup_two : Ensures (λ r u. (r ≡ pos 1) × (u.ofile 1 ≡ some 3)) (sys_dup (pos 2) process)
unfolding sys_dup dup_arg argfd dup_file fdalloc take_fd free_fd in_files return ◌>>=◌ filedup
dup_two = (refl, refl)

sys_pipe_lem_example :
    Ensures (Piped (λ g. 0) 7 process) (sys_pipe begin_op end_op 1 7 true true process)
sys_pipe_lem_example =
    sys_pipe_lem begin_op end_op (λ t. refl) end_op-file 1 7 (λ g. 0) true true process
      process-IsShared
