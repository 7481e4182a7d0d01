-- ===== src/Sysfile/Steps.antt =====
-- How a command of kernel/sysfile.c moves the count of begun operations, by the parts of the command.
use minios.Base.{ℕ, ◌≡◌, Bool, true, false, if◌then◌else◌}
use minios.Kern.{Outcome, ok, asleep, panic, Cmd}
use minios.Fs.{Fs, Inode}
use minios.Ftable.{Files, in_fs}
use minios.Ftable.Returns.{Ensures}
use minios.Sysfile.Calls.{save}
use minios.Sysfile.{
  Sys, put_result, in_files, fs_call, read, return, stop, bind, ◌>>=◌, ◌>>◌, edit, inode_of,
}

-- Begun with `a` operations open, the command, where it returns, leaves `b`.
pub record Moves {A : Type 0} (a b : ℕ) (m : Cmd Sys A) : Type 0 where
  pub run : (s : Sys) → s.files.ops ≡ a → Ensures (λ _ u. u.files.ops ≡ b) (m s)

bind-Ensures :
    {A B : Type 0} {b c : ℕ} (o : Outcome Sys A) (k : A → Cmd Sys B)
    → Ensures (λ _ u. u.files.ops ≡ b) o
    → ((x : A) → Moves b c (k x))
    → Ensures (λ _ u. u.files.ops ≡ c) (bind o k)
unfolding bind
bind-Ensures (ok x s) k h f = (f x).run s h
bind-Ensures (asleep s) k h f = tt
bind-Ensures panic k h f = tt

pub Moves-through :
    {A B : Type 0} {a b c : ℕ} {m : Cmd Sys A} {k : A → Cmd Sys B}
    → Moves a b m
    → ((x : A) → Moves b c (k x))
    → Moves a c (m >>= k)
unfolding ◌>>=◌
Moves-through {m} {k} h f = record { run = λ s e. bind-Ensures (m s) k (h.run s e) f }

pub Moves-bind :
    {A B : Type 0} {a c : ℕ} {m : Cmd Sys A} {k : A → Cmd Sys B}
    → Moves a a m
    → ((x : A) → Moves a c (k x))
    → Moves a c (m >>= k)
Moves-bind h f = Moves-through h f

pub Moves-then :
    {B : Type 0} {a b c : ℕ} {m : Cmd Sys (Unit {0})} {k : Cmd Sys B}
    → Moves a b m
    → Moves b c k
    → Moves a c (m >> k)
unfolding ◌>>◌
Moves-then {m} {k} h f = record { run = λ s e. bind-Ensures (m s) (λ _. k) (h.run s e) (λ _. f) }

pub Moves-step :
    {B : Type 0} {a c : ℕ} {m : Cmd Sys (Unit {0})} {k : Cmd Sys B}
    → Moves a a m
    → Moves a c k
    → Moves a c (m >> k)
Moves-step h f = Moves-then h f

pub Moves-if :
    {A : Type 0} {a b : ℕ} (c : Bool) {m k : Cmd Sys A}
    → Moves a b m
    → Moves a b k
    → Moves a b (if c then m else k)
Moves-if true h f = h
Moves-if false h f = f

pub Moves-return : {A : Type 0} {a : ℕ} (x : A) → Moves a a (return x)
unfolding return
Moves-return x = record { run = λ s e. e }

pub Moves-stop : {A : Type 0} {a b : ℕ} → Moves a b (stop {A = A})
unfolding stop
Moves-stop = record { run = λ s e. tt }

pub Moves-read : {A : Type 0} {a : ℕ} (f : Sys → A) → Moves a a (read f)
unfolding read
Moves-read f = record { run = λ s e. e }

fs-Ensures :
    {A : Type 0} {a : ℕ} (s : Sys) (o : Outcome Fs A)
    → s.files.ops ≡ a
    → Ensures (λ _ u. u.files.ops ≡ a) (put_result s (in_fs s.files o))
fs-Ensures s (ok x t) e = e
fs-Ensures s (asleep t) e = tt
fs-Ensures s panic e = tt

-- The file system begins and ends no operation.
pub Moves-fs : {A : Type 0} {a : ℕ} (m : Cmd Fs A) → Moves a a (fs_call m)
unfolding fs_call
Moves-fs m = record { run = λ s e. fs-Ensures s (m s.files.fs) e }

files-Ensures :
    {A : Type 0} (b : ℕ) (s : Sys) (o : Outcome Files A)
    → Ensures (λ _ u. u.ops ≡ b) o
    → Ensures (λ _ u. u.files.ops ≡ b) (put_result s o)
files-Ensures b s (ok x t) h = h
files-Ensures b s (asleep t) h = tt
files-Ensures b s panic h = tt

pub Moves-files :
    {A : Type 0} {a b : ℕ} (m : Cmd Files A)
    → ((t : Files) → t.ops ≡ a → Ensures (λ _ u. u.ops ≡ b) (m t))
    → Moves a b (in_files m)
unfolding in_files
Moves-files {b} m h = record { run = λ s e. files-Ensures b s (m s.files) (h s.files e) }

pub Moves-edit : {a : ℕ} (ip : ℕ) (f : Inode → Inode) → Moves a a (edit ip f)
unfolding edit
Moves-edit ip f = Moves-fs _

pub Moves-inode_of : {a : ℕ} (ip : ℕ) → Moves a a (inode_of ip)
unfolding inode_of
Moves-inode_of ip = Moves-read _

pub Moves-save : {a : ℕ} (ip : ℕ) → Moves a a (save ip)
unfolding save
Moves-save ip = Moves-fs _

pub ruleset moves = (
  Moves-bind, Moves-step, Moves-if, Moves-return, Moves-stop, Moves-read, Moves-fs, Moves-edit,
  Moves-inode_of, Moves-save,
)
