-- ===== src/Sysfile/Piping.antt =====
-- The references and descriptors of pipe() of kernel/sysfile.c, on each of its paths.
use minios.Base.{
  ℕ, ◌<◌, ◌≡◌, ◌⊎◌, inl, inr, refl, sym, ap, ◌∙◌, Bool, true, false, not, ◌||◌, ◌==◌, ==_refl,
  Bool-cases, arith, Option, none, some, ℤ, pos, negsuc,
}
use minios.Kern.{Outcome, ok, asleep, panic, Cmd}
use minios.Ftable.{Files, nfile}
use minios.Ftable.Returns.{Ensures, Ensures-weaken}
use minios.Sysfile.{
  Sys, nofile, put_result, in_files, set_fd, is_none, bind, ◌>>=◌, take_fd, fdalloc,
}
use minios.Sysfile.Descriptors.{IsShared, free_fd_lem}
use minios.Sysfile.Pipes.{pipealloc, give_up, second_fd, first_fd, pipe_fds, sys_pipe}
use minios.Sysfile.Sharing.{
  with_ref, give-IsShared, take-IsShared, IsShared-others, give_up-IsShared,
}
use minios.Sysfile.PipeAlloc.{IsPipe, Alloced, swap, pipealloc-Alloced}

-- What pipe comes to: the descriptors as they were and -1, or two that were free, now of the two
-- ends of one pipe, and 0.
pub Piped : (ℕ → ℕ) → ℕ → Sys → ℤ → Sys → Type 0
Piped others page s r u =
    IsShared others u
    × (((r ≡ negsuc 0) × ((j : ℕ) → u.ofile j ≡ s.ofile j))
        ⊎ ((r ≡ pos 0)
            × ((rf wf fd0 fd1 : ℕ) × (fd0 < nofile)
                × (fd1 < nofile)
                × (is_none (s.ofile fd0) ≡ true)
                × (is_none (s.ofile fd1) ≡ true)
                × (u.ofile ≡ (set_fd fd1 (some wf) (set_fd fd0 (some rf) s)).ofile)
                × IsPipe page rf wf u.files)))

is_none-eq : (o : Option ℕ) → is_none o ≡ true → o ≡ none
is_none-eq none e = refl
is_none-eq (some f) e = cc

-- A descriptor that was free, set and cleared again, is as it was.
set_clear :
    (s : Sys) (fd f j : ℕ)
    → is_none (s.ofile fd) ≡ true
    → (set_fd fd none (set_fd fd (some f) s)).ofile j ≡ s.ofile j
set_clear s fd f j free = elim (Bool-cases (j == fd)) [
  | inl e ↦
      let at : j ≡ fd = ground arith in rw e (sym (ap s.ofile at ∙ is_none-eq (s.ofile fd) free))
  | inr e ↦ rw e refl
]

set_clear_two :
    (s : Sys) (fd0 fd1 rf wf j : ℕ)
    → is_none (s.ofile fd0) ≡ true
    → is_none ((set_fd fd0 (some rf) s).ofile fd1) ≡ true
    → (set_fd fd1 none (set_fd fd0 none (set_fd fd1 (some wf) (set_fd fd0 (some rf) s)))).ofile j
      ≡ s.ofile j
set_clear_two s fd0 fd1 rf wf j free0 free1 = elim (Bool-cases (j == fd1)) [
  | inl e ↦
      let at : j ≡ fd1 = ground arith in
      elim (Bool-cases (fd1 == fd0)) [
        | inl c ↦ cc (rw c at free1)
        | inr c ↦
            let own : s.ofile fd1 ≡ none = is_none-eq (s.ofile fd1) (rw c at free1) in
            rw e (sym (ap s.ofile at ∙ own))
      ]
  | inr e ↦ elim (Bool-cases (j == fd0)) [
    | inl c ↦
        let at : j ≡ fd0 = ground arith in
        rw (e, c) (sym (ap s.ofile at ∙ is_none-eq (s.ofile fd0) free0))
    | inr c ↦ rw (e, c) refl
  ]
]

-- The second descriptor is another one.
apart_fds :
    (s : Sys) (fd0 fd1 rf : ℕ)
    → is_none ((set_fd fd0 (some rf) s).ofile fd1) ≡ true
    → ((fd0 == fd1) ≡ false) × (is_none (s.ofile fd1) ≡ true)
apart_fds s fd0 fd1 rf free = elim (Bool-cases (fd1 == fd0)) [
  | inl c ↦ cc (rw c at free)
  | inr c ↦ (ground arith, rw c at free)
]

module _ (begin_op end_op : Cmd Files (Unit {0}))
    (begins : (t : Files) → Ensures (λ _ u. u.file ≡ t.file) (begin_op t))
    (ends : (t : Files) → Ensures (λ _ u. u.file ≡ t.file) (end_op t)) (me page : ℕ)
    (others : ℕ → ℕ) where
  -- The calls of fileclose at the end give back what pipealloc has taken.
  give_up-Piped :
      (s v : Sys) (rf wf : ℕ)
      → IsShared (with_ref rf (with_ref wf others)) v
      → ((j : ℕ) → v.ofile j ≡ s.ofile j)
      → Ensures (Piped others page s) (give_up begin_op end_op me page rf wf v)
  unfolding Piped
  give_up-Piped s v rf wf h same =
      Ensures-weaken (λ r u. (r ≡ negsuc 0) × (u.ofile ≡ v.ofile) × IsShared others u)
        (Piped others page s) (give_up begin_op end_op me page rf wf v)
        (give_up-IsShared begin_op end_op begins ends me page others v rf wf h)
        (λ r u k. (k.2, inl (k.0, λ j. ap (λ (o : ℕ → Option ℕ). o j) k.1 ∙ same j)))

  both_taken :
      (v : Sys) (rf wf fd0 fd1 : ℕ)
      → fd0 < nofile
      → fd1 < nofile
      → (fd0 == fd1) ≡ false
      → IsShared others (set_fd fd1 (some wf) (set_fd fd0 (some rf) v))
      → IsShared
          (with_ref rf (with_ref wf others))
          (set_fd fd1 none (set_fd fd0 none (set_fd fd1 (some wf) (set_fd fd0 (some rf) v))))
  both_taken v rf wf fd0 fd1 lt0 lt1 e h =
      let both = set_fd fd1 (some wf) (set_fd fd0 (some rf) v) in
      let e' : (fd1 == fd0) ≡ false = ground arith in
      let own0 : both.ofile fd0 ≡ some rf = rw (e, ==_refl fd0) refl in
      let own1 : (set_fd fd0 none both).ofile fd1 ≡ some wf = rw (e', ==_refl fd1) refl in
      IsShared-others _ _ _ (swap begin_op end_op begins ends me page others rf wf) (
        take-IsShared (with_ref rf others) (set_fd fd0 none both) fd1 wf
          (take-IsShared others both fd0 rf h lt0 own0) lt1 own1)

  second-Piped :
      (sent0 sent1 : Bool) (s : Sys) (t : Files) (rf wf fd0 : ℕ)
      → wf < nfile
      → IsPipe page rf wf t
      → fd0 < nofile
      → is_none (s.ofile fd0) ≡ true
      → IsShared (with_ref wf others) (set_fd fd0 (some rf) (record s { files = t }))
      → Ensures (Piped others page s) (
          second_fd begin_op end_op me page sent0 sent1 rf wf fd0
            (fdalloc wf (set_fd fd0 (some rf) (record s { files = t }))))
  unfolding second_fd fdalloc take_fd Piped
  second-Piped sent0 sent1 s t rf wf fd0 small ends_lem lt free h =
      let v = record s { files = t } in
      let one = set_fd fd0 (some rf) v in
      elim (free_fd_lem nofile 0 one.ofile) [
        | inr (missing, used) ↦
            let own : one.ofile fd0 ≡ some rf = rw (==_refl fd0) refl in
            rw missing (
              give_up-Piped s (set_fd fd0 none one) rf wf
                (take-IsShared (with_ref wf others) one fd0 rf h lt own)
                (λ j. set_clear s fd0 rf j free))
        | inl (fd1, found, lo, hi, free1, before) ↦
            let apart = apart_fds s fd0 fd1 rf free1 in
            let given = give-IsShared others one fd1 wf h hi free1 small in
            rw found (elim (Bool-cases (not sent0 || not sent1)) [
              | inl e ↦ rw e (
                  give_up-Piped s _ rf wf (both_taken v rf wf fd0 fd1 lt hi apart.0 given)
                    (λ j. set_clear_two s fd0 fd1 rf wf j free free1))
              | inr e ↦
                  rw e
                    (given, inr (refl, (rf, wf, fd0, fd1, lt, hi, free, apart.1, refl, ends_lem)))
            ])
      ]

  first-Piped :
      (sent0 sent1 : Bool) (s : Sys) (r : Option (ℕ × ℕ)) (t : Files)
      → Alloced others page s r t
      → Ensures
          (Piped others page s)
          (pipe_fds begin_op end_op me page sent0 sent1 r (record s { files = t }))
  unfolding pipe_fds first_fd fdalloc take_fd Alloced Piped
  first-Piped sent0 sent1 s none t h = (h, inl (refl, λ j. refl))
  first-Piped sent0 sent1 s (some (rf, wf)) t (small_r, small_w, ends_lem, h) =
      let v = record s { files = t } in
      elim (free_fd_lem nofile 0 s.ofile) [
        | inr (missing, used) ↦ rw missing (give_up-Piped s v rf wf h (λ j. refl))
        | inl (fd0, found, lo, hi, free, before) ↦ rw found (
            second-Piped sent0 sent1 s t rf wf fd0 small_w ends_lem hi free
              (give-IsShared (with_ref wf others) v fd0 rf h hi free small_r))
      ]

  put-Piped :
      (sent0 sent1 : Bool) (s : Sys) (o : Outcome Files (Option (ℕ × ℕ)))
      → Ensures (Alloced others page s) o
      → Ensures
          (Piped others page s)
          (bind (put_result s o) (pipe_fds begin_op end_op me page sent0 sent1))
  unfolding bind
  put-Piped sent0 sent1 s (ok r t) h = first-Piped sent0 sent1 s r t h
  put-Piped sent0 sent1 s (asleep t) h = tt
  put-Piped sent0 sent1 s panic h = tt

  -- pipe, where the counts of references are right, on all of its paths: no free entry for either
  -- file, no page, no free descriptor for either end, or a copyout() that fails. When it returns,
  -- the counts are right again; and either the value is -1 and every descriptor is as it was, or it
  -- is 0 and two descriptors that were free are now those of the reading and the writing end of the
  -- one pipe. begin_op and end_op leave the table of files alone.
  pub sys_pipe_lem :
      (sent0 sent1 : Bool) (s : Sys)
      → IsShared others s
      → Ensures (Piped others page s) (sys_pipe begin_op end_op me page sent0 sent1 s)
  unfolding sys_pipe in_files ◌>>=◌
  sys_pipe_lem sent0 sent1 s v =
      put-Piped sent0 sent1 s (pipealloc begin_op end_op me page s.files)
        (pipealloc-Alloced begin_op end_op begins ends me page others s v)
