-- ===== src/Sysfile/Pipes.antt =====
-- pipealloc of kernel/pipe.c and pipe of kernel/sysfile.c.
use minios.Base.{
  ℕ, Bool, true, false, not, ◌||◌, Option, none, some, [], ◌==◌, if◌then◌else◌, ℤ, pos, negsuc,
}
use minios.Kern.{Outcome, ok, Cmd, and_then, pure}
use minios.Store.{update}
use minios.Pipe.{Pipe}
use minios.Ftable.{Files, File, fd_pipe, filealloc, set_file, fileclose}
use minios.Sysfile.{Sys, in_files, return, ◌>>=◌, ◌>>◌, fdalloc, set_fd, close}

-- One end of the pipe at `page`.
abbrev pub end_of : ℕ → Bool → File → File
end_of page writing v = record v {
  type = fd_pipe;
  readable = not writing;
  writable = writing;
  pipe = page;
}

-- The pipe in a new page, of which the data are left as they are.
abbrev pub new_pipe : Pipe → Pipe
new_pipe p = record p {
  locked = false;
  nread = 0;
  nwrite = 0;
  readopen = true;
  writeopen = true;
  woken = [];
  freed = false;
}

unfoldable pub set_ends : ℕ → ℕ → ℕ → Files → Files
set_ends page f0 f1 t =
    let t = record t { pipes = update t.pipes page (new_pipe (t.pipes page)) } in
    let t = set_file f0 (end_of page false (t.file f0)) t in
    set_file f1 (end_of page true (t.file f1)) t

-- `page` is what kalloc() returns, 0 for no memory; begin_op and end_op are those of kernel/log.c.
module _ (begin_op end_op : Cmd Files (Unit {0})) (me page : ℕ) where
  -- The label `bad` of pipealloc with two files.
  unfoldable pub close_both : ℕ → ℕ → Cmd Files (Option (ℕ × ℕ))
  close_both f0 f1 t =
      and_then (fileclose begin_op end_op me f0 t)
        (λ _ t. and_then (fileclose begin_op end_op me f1 t) (λ _. pure none))

  unfoldable pub alloc_second : ℕ → Option ℕ × Files → Outcome Files (Option (ℕ × ℕ))
  alloc_second f0 (none, t) = and_then (fileclose begin_op end_op me f0 t) (λ _. pure none)
  alloc_second f0 (some f1, t) =
      if page == 0 then close_both f0 f1 t else ok (some (f0, f1)) (set_ends page f0 f1 t)

  unfoldable pub alloc_first : Option ℕ × Files → Outcome Files (Option (ℕ × ℕ))
  alloc_first (none, t) = ok none t
  alloc_first (some f0, t) = alloc_second f0 (filealloc t)

  unfoldable pub pipealloc : Cmd Files (Option (ℕ × ℕ))
  pipealloc t = alloc_first (filealloc t)

  -- fileclose(rf); fileclose(wf); return -1;
  unfoldable pub give_up : ℕ → ℕ → Cmd Sys ℤ
  give_up rf wf = close begin_op end_op me rf >> close begin_op end_op me wf >> return (negsuc 0)

  -- `sent0` and `sent1` are whether the two calls of copyout() succeed.
  unfoldable pub second_fd : Bool → Bool → ℕ → ℕ → ℕ → Option ℕ × Sys → Outcome Sys ℤ
  second_fd sent0 sent1 rf wf fd0 (none, s) = give_up rf wf (set_fd fd0 none s)
  second_fd sent0 sent1 rf wf fd0 (some fd1, s) =
      if not sent0 || not sent1
      then give_up rf wf (set_fd fd1 none (set_fd fd0 none s))
      else ok (pos 0) s

  unfoldable pub first_fd : Bool → Bool → ℕ → ℕ → Option ℕ × Sys → Outcome Sys ℤ
  first_fd sent0 sent1 rf wf (none, s) = give_up rf wf s
  first_fd sent0 sent1 rf wf (some fd0, s) = second_fd sent0 sent1 rf wf fd0 (fdalloc wf s)

  unfoldable pub pipe_fds : Bool → Bool → Option (ℕ × ℕ) → Cmd Sys ℤ
  pipe_fds sent0 sent1 none s = ok (negsuc 0) s
  pipe_fds sent0 sent1 (some (rf, wf)) s = first_fd sent0 sent1 rf wf (fdalloc rf s)

  unfoldable pub sys_pipe : Bool → Bool → Cmd Sys ℤ
  sys_pipe sent0 sent1 = in_files pipealloc >>= pipe_fds sent0 sent1
