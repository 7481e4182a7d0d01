-- ===== src/Sysfile/Transactions.antt =====
-- begin_op and end_op in the system calls of kernel/sysfile.c.
use minios.Base.{ℕ, suc, ◌≡◌, subst, Bool, true, false, Option, none, some, arith, List, ℤ, negsuc}
use minios.Kern.{Cmd}
use minios.Fs.{Inode}
use minios.Ftable.{Files}
use minios.Ftable.Returns.{Ensures, Ensures-weaken}
use minios.Sysfile.Calls.{
  begin, end_with, lock, unlock, unlock_put, find, find_parent, unlink_back, link_fails, link_into,
  link_found, sys_link, leave_dir, less_if, clear_entry, remove, is_full, unlink_entry, unlink_in,
  sys_unlink,
}
use minios.Sysfile.Steps.{Moves, Moves-then, Moves-return, Moves-fs, Moves-files, moves}

module _ (begin_op end_op : Cmd Files (Unit {0}))
    (begins : (t : Files) → Ensures (λ _ u. u.ops ≡ suc t.ops) (begin_op t))
    (ends : (t : Files) → Ensures (λ _ u. suc u.ops ≡ t.ops) (end_op t)) (me : ℕ) where
  pub Moves-begin : (a : ℕ) → Moves a (suc a) (begin begin_op end_op me)
  unfolding begin
  Moves-begin a =
      Moves-files _ (λ t e. subst (λ n. Ensures (λ _ u. u.ops ≡ suc n) (begin_op t)) e (begins t))

  pub Moves-end_with : (a : ℕ) (r : ℤ) → Moves (suc a) a (end_with begin_op end_op me r)
  unfolding end_with
  Moves-end_with a r =
      Moves-then
        (Moves-files _ (λ t e.
          Ensures-weaken (λ _ u. suc u.ops ≡ t.ops) (λ _ u. u.ops ≡ a) (end_op t) (ends t)
            (λ _ u h. omega arith)))
        (Moves-return r)

  pub Moves-unlock_put : {a : ℕ} (ip : ℕ) → Moves a a (unlock_put begin_op end_op me ip)
  unfolding unlock_put
  Moves-unlock_put ip = Moves-fs _

  pub Moves-lock : {a : ℕ} (ip : ℕ) → Moves a a (lock begin_op end_op me ip)
  unfolding lock
  Moves-lock ip = search moves

  pub Moves-find : {a : ℕ} (path : List ℕ) → Moves a a (find begin_op end_op me path)
  unfolding find
  Moves-find path = search moves

  pub Moves-unlock : {a : ℕ} (ip : ℕ) → Moves a a (unlock begin_op end_op me ip)
  unfolding unlock
  Moves-unlock ip = search moves

  pub Moves-find_parent : {a : ℕ} (path : List ℕ) → Moves a a (find_parent begin_op end_op me path)
  unfolding find_parent
  Moves-find_parent path = search moves

  ruleset calls = (
    moves, Moves-lock, Moves-unlock, Moves-unlock_put, Moves-find, Moves-find_parent,
    Moves-end_with,
  )

  Moves-unlink_back : (a ip : ℕ) → Moves (suc a) a (unlink_back begin_op end_op me ip)
  unfolding unlink_back
  Moves-unlink_back a ip = search calls depth 14

  Moves-link_fails :
      {a : ℕ} (dp ip : ℕ) (name : ℕ → ℕ) → Moves a a (link_fails begin_op end_op me dp ip name)
  unfolding link_fails
  Moves-link_fails dp ip name = search calls depth 14

  Moves-link_into :
      (a ip : ℕ) (r : Option ℕ × (ℕ → ℕ)) → Moves (suc a) a (link_into begin_op end_op me ip r)
  unfolding link_into
  Moves-link_into a ip (none, name) = Moves-unlink_back a ip
  Moves-link_into a ip (some dp, name) =
      search (calls, Moves-link_fails, Moves-unlink_back) depth 14

  Moves-link_found :
      (a : ℕ) (new : List ℕ) (r : Option ℕ × (ℕ → ℕ))
      → Moves (suc a) a (link_found begin_op end_op me new r)
  unfolding link_found
  Moves-link_found a new (none, name) = Moves-end_with a (negsuc 0)
  Moves-link_found a new (some ip, name) = search (calls, Moves-link_into) depth 14

  pub Moves-sys_link :
      (a : ℕ) (old new : Option (List ℕ)) → Moves a a (sys_link begin_op end_op me old new)
  unfolding sys_link
  Moves-sys_link a none new = Moves-return (negsuc 0)
  Moves-sys_link a (some old) none = Moves-return (negsuc 0)
  Moves-sys_link a (some old) (some new) =
      Moves-then (Moves-begin a) (search (calls, Moves-link_found) depth 14)

  Moves-leave_dir : (a dp : ℕ) → Moves (suc a) a (leave_dir begin_op end_op me dp)
  unfolding leave_dir
  Moves-leave_dir a dp = search calls depth 14

  Moves-less_if : {a : ℕ} (dir : Bool) (dp : ℕ) → Moves a a (less_if begin_op end_op me dir dp)
  unfolding less_if
  Moves-less_if true dp = search calls depth 14
  Moves-less_if false dp = Moves-return tt

  Moves-clear_entry : {a : ℕ} (dp off : ℕ) → Moves a a (clear_entry begin_op end_op me dp off)
  unfolding clear_entry
  Moves-clear_entry dp off = search calls depth 14

  Moves-remove :
      (a dp ip off : ℕ) (dir : Bool) → Moves (suc a) a (remove begin_op end_op me dp ip off dir)
  unfolding remove
  Moves-remove a dp ip off dir = search (calls, Moves-clear_entry, Moves-less_if) depth 14

  Moves-is_full : {a : ℕ} (ip : ℕ) (v : Inode) → Moves a a (is_full begin_op end_op me ip v)
  unfolding is_full
  Moves-is_full ip v = search calls depth 14

  Moves-unlink_entry :
      (a dp : ℕ) (r : Option (ℕ × ℕ)) → Moves (suc a) a (unlink_entry begin_op end_op me dp r)
  unfolding unlink_entry
  Moves-unlink_entry a dp none = Moves-leave_dir a dp
  Moves-unlink_entry a dp (some (ip, off)) =
      search (calls, Moves-is_full, Moves-leave_dir, Moves-remove) depth 14

  Moves-unlink_in :
      (a : ℕ) (r : Option ℕ × (ℕ → ℕ)) → Moves (suc a) a (unlink_in begin_op end_op me r)
  unfolding unlink_in
  Moves-unlink_in a (none, name) = Moves-end_with a (negsuc 0)
  Moves-unlink_in a (some dp, name) = search (calls, Moves-leave_dir, Moves-unlink_entry) depth 14

  pub Moves-sys_unlink :
      (a : ℕ) (path : Option (List ℕ)) → Moves a a (sys_unlink begin_op end_op me path)
  unfolding sys_unlink
  Moves-sys_unlink a none = Moves-return (negsuc 0)
  Moves-sys_unlink a (some path) =
      Moves-then (Moves-begin a) (search (calls, Moves-unlink_in) depth 14)
