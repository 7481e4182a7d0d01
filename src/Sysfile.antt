-- ===== src/Sysfile.antt =====
-- kernel/sysfile.c: the system calls on files, over Ftable and Fs. An `int` argument comes as an
-- integer, a string argument as what argstr() gives, `none` where it fails.
pub mod Calls
pub mod Open
pub mod Steps
pub mod Transactions
pub mod Closing
pub mod Openings
pub mod Descriptors
pub mod Dropping
pub mod Pipes
pub mod Sharing
pub mod PipeAlloc
pub mod Piping
use minios.Base.{
  ℕ, zero, suc, ◌+◌, ◌-◌, ◌%◌, Bool, Option, none, some, leb, ◌==◌, if◌then◌else◌, ℤ, pos, negsuc,
  List,
}
use minios.Kern.{Outcome, ok, asleep, panic, Cmd}
use minios.Fs.{Fs, Inode}
use minios.Fs.Itable.{set_inode}
use minios.Ftable.{Files, File, in_fs, filealloc, filedup, fileclose, set_file}
use minios.Ftable.Io.{read_inode_file}

abbrev pub nofile : ℕ
nofile = 16

-- The running process: its open files and its directory, with the tables of the kernel.
pub record Sys : Type 0 where
  pub files : Files
  pub ofile : ℕ → Option ℕ
  pub cwd : ℕ

abbrev pub put_result : {A : Type 0} → Sys → Outcome Files A → Outcome Sys A
put_result s (ok a t) = ok a (record s { files = t })
put_result s (asleep t) = asleep (record s { files = t })
put_result s panic = panic

-- A call of the table of files, and one of the file system.
unfoldable pub in_files : {A : Type 0} → Cmd Files A → Cmd Sys A
in_files m s = put_result s (m s.files)

unfoldable pub fs_call : {A : Type 0} → Cmd Fs A → Cmd Sys A
fs_call m s = put_result s (in_fs s.files (m s.files.fs))

-- What the state is, and a change of it.
unfoldable pub read : {A : Type 0} → (Sys → A) → Cmd Sys A
read f s = ok (f s) s

unfoldable pub return : {A : Type 0} → A → Cmd Sys A
return a s = ok a s

unfoldable pub stop : {A : Type 0} → Cmd Sys A
stop s = panic

unfoldable pub bind : {A B : Type 0} → Outcome Sys A → (A → Cmd Sys B) → Outcome Sys B
bind (ok a s) k = k a s
bind (asleep s) k = asleep s
bind panic k = panic

infixl 5 ◌>>=◌ ◌>>◌
unfoldable pub ◌>>=◌ : {A B : Type 0} → Cmd Sys A → (A → Cmd Sys B) → Cmd Sys B
unfolding bind
◌>>=◌ m k s = bind (m s) k

unfoldable pub ◌>>◌ : {B : Type 0} → Cmd Sys (Unit {0}) → Cmd Sys B → Cmd Sys B
unfolding bind
◌>>◌ m k s = bind (m s) (λ _. k)

-- A change of the fields of an inode.
unfoldable pub edit : ℕ → (Inode → Inode) → Cmd Sys (Unit {0})
edit ip f = fs_call (λ t. ok tt (set_inode ip (f (t.inode ip)) t))

unfoldable pub inode_of : ℕ → Cmd Sys Inode
inode_of ip = read (λ s. s.files.fs.inode ip)

-- argfd(): the descriptor with its file.
abbrev pub with_file : ℕ → Option ℕ → Option (ℕ × ℕ)
with_file fd none = none
with_file fd (some f) = some (fd, f)

unfoldable pub argfd : ℤ → Sys → Option (ℕ × ℕ)
argfd (negsuc n) s = none
argfd (pos fd) s = if leb nofile fd then none else with_file fd (s.ofile fd)

abbrev pub set_fd : ℕ → Option ℕ → Sys → Sys
set_fd fd f s = record s { ofile = λ j. if j == fd then f else s.ofile j }

abbrev pub is_none : Option ℕ → Bool
is_none none = Bool.true
is_none (some f) = Bool.false

-- The loop of fdalloc from `fd` on, `n` descriptors left.
unfoldable pub free_fd : ℕ → ℕ → (ℕ → Option ℕ) → Option ℕ
free_fd zero fd ofile = none
free_fd (suc n) fd ofile =
    let rest = free_fd n (fd + 1) ofile in if is_none (ofile fd) then some fd else rest

unfoldable pub take_fd : ℕ → Option ℕ → Sys → Option ℕ × Sys
take_fd f none s = (none, s)
take_fd f (some fd) s = (some fd, set_fd fd (some f) s)

unfoldable pub fdalloc : ℕ → Sys → Option ℕ × Sys
fdalloc f s = take_fd f (free_fd nofile 0 s.ofile) s

unfoldable pub dup_file : ℕ → Option ℕ × Sys → Outcome Sys ℤ
dup_file f (none, s) = ok (negsuc 0) s
dup_file f (some fd, s) = (in_files (filedup f) >>= λ _. return (pos fd)) s

unfoldable pub dup_arg : Option (ℕ × ℕ) → Cmd Sys ℤ
dup_arg none s = ok (negsuc 0) s
dup_arg (some (fd, f)) s = dup_file f (fdalloc f s)

unfoldable pub sys_dup : ℤ → Cmd Sys ℤ
sys_dup fd s = dup_arg (argfd fd s) s

-- `me` is the calling process; begin_op and end_op are those of kernel/log.c.
module _ (begin_op end_op : Cmd Files (Unit {0})) (me : ℕ) where
  unfoldable pub close : ℕ → Cmd Sys (Unit {0})
  close f = in_files (fileclose begin_op end_op me f)

  unfoldable pub close_arg : Option (ℕ × ℕ) → Cmd Sys ℤ
  close_arg none s = ok (negsuc 0) s
  close_arg (some (fd, f)) s = (close f >> return (pos 0)) (set_fd fd none s)

  unfoldable pub sys_close : ℤ → Cmd Sys ℤ
  sys_close fd s = close_arg (argfd fd s) s
