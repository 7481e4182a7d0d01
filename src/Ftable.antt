-- ===== src/Ftable.antt =====
-- kernel/file.c: the table of open files, which descriptors share by counted references, with
-- filealloc, filedup and fileclose.
pub mod Io
pub mod Counts
pub mod Returns
pub mod Advance
pub mod Offsets
use minios.Base.{ℕ, zero, suc, ◌+◌, ◌-◌, Bool, Option, none, some, ltb, ◌==◌, if◌then◌else◌}
use minios.Kern.{Outcome, ok, asleep, panic, Cmd, and_then, ◌>>◌}
use minios.Store.{update}
use minios.Pipe.{Pipe, Code, done, waiting, panicked, pipeclose}
use minios.Fs.{Fs}
use minios.Fs.Dir.{iput}

abbrev pub nfile : ℕ
nfile = 100

pub data Kind : Type 0 where
  fd_none fd_pipe fd_inode fd_device : Kind

-- `struct file`; `pipe` and `ip` are the places of a pipe and of an inode in `Files`.
pub record File : Type 0 where
  pub type : Kind
  pub refs : ℕ
  pub readable : Bool
  pub writable : Bool
  pub pipe : ℕ
  pub ip : ℕ
  pub off : ℕ
  pub major : ℕ

-- `ftable`, and the pipes and the file system that its entries point into. `ops` counts the calls
-- of begin_op that the running system call has not yet ended.
pub record Files : Type 0 where
  pub file : ℕ → File
  pub pipes : ℕ → Pipe
  pub fs : Fs
  pub ops : ℕ

abbrev pub set_file : ℕ → File → Files → Files
set_file f v t = record t { file = update t.file f v }

-- The loop of filealloc from index `i` on, `n` entries left.
unfoldable pub free_file : ℕ → ℕ → (ℕ → File) → Option ℕ
free_file zero i t = none
free_file (suc n) i t = let rest = free_file n (i + 1) t in if (t i).refs == 0 then some i else rest

unfoldable pub take_file : Option ℕ → Files → Option ℕ × Files
take_file none t = (none, t)
take_file (some f) t = (some f, set_file f (let v = t.file f in record v { refs = 1 }) t)

unfoldable pub filealloc : Files → Option ℕ × Files
filealloc t = take_file (free_file nfile 0 t.file) t

unfoldable pub filedup : ℕ → Cmd Files ℕ
filedup f t =
    let v = t.file f in
    if ltb v.refs 1 then panic else ok f (set_file f (record v { refs = v.refs + 1 }) t)

-- What the table is when fileclose has released its lock: the count is one less, and at 0 the entry
-- has no type.
unfoldable pub drop_file : ℕ → Files → Files
drop_file f t =
    let v = t.file f in
    set_file f
      (if ltb 0 (v.refs - 1)
        then record v { refs = v.refs - 1 }
        else record v { type = fd_none; refs = 0 })
      t

-- A call of pipeclose, by the way it ends.
abbrev pub end_pipe : Code → Files → Outcome Files (Unit {0})
end_pipe (done r) t = ok tt t
end_pipe (waiting c i) t = asleep t
end_pipe panicked t = panic

unfoldable pub close_pipe : ℕ → Bool → Cmd Files (Unit {0})
close_pipe p writable t =
    let r = pipeclose writable (t.pipes p) in
    end_pipe r.code (record t { pipes = update t.pipes p r.pipe })

-- A call of the file system from here.
abbrev pub in_fs : {A : Type 0} → Files → Outcome Fs A → Outcome Files A
in_fs t (ok a s) = ok a (record t { fs = s })
in_fs t (asleep s) = asleep (record t { fs = s })
in_fs t panic = panic

-- `begin_op` and `end_op` are those of kernel/log.c, seen from the table.
module _ (begin_op end_op : Cmd Files (Unit {0})) where
  unfoldable pub put_inode : ℕ → ℕ → Cmd Files (Unit {0})
  put_inode me ip = begin_op >> (λ t. in_fs t (iput me ip t.fs)) >> end_op

  -- What fileclose does with the entry `ff` of the last reference, by its type.
  unfoldable pub close_object : ℕ → Kind → File → Cmd Files (Unit {0})
  close_object me fd_none ff t = ok tt t
  close_object me fd_pipe ff t = close_pipe ff.pipe ff.writable t
  close_object me fd_inode ff t = put_inode me ff.ip t
  close_object me fd_device ff t = put_inode me ff.ip t

  -- `me` is the calling process.
  unfoldable pub fileclose : ℕ → ℕ → Cmd Files (Unit {0})
  fileclose me f t =
      let v = t.file f in
      if ltb v.refs 1
      then panic
      else if ltb 0 (v.refs - 1)
      then ok tt (drop_file f t)
      else close_object me v.type v (drop_file f t)
