-- ===== src/Sysfile/Openings.antt =====
-- begin_op and end_op in create, open, mkdir, mknod, chdir and close of kernel/sysfile.c.
use minios.Base.{ℕ, suc, ◌≡◌, refl, ◌∙◌, Option, none, some, List, ℤ, pos, negsuc}
use minios.Kern.{Cmd}
use minios.Fs.{Inode}
use minios.Ftable.{Files, take_file, free_file, nfile, filealloc}
use minios.Ftable.Returns.{Ensures}
use minios.Sysfile.{
  Sys, in_files, close_arg, sys_close, argfd, set_fd, fdalloc, take_fd, free_fd, nofile,
}
use minios.Sysfile.Calls.{sys_link, sys_unlink}
use minios.Sysfile.Open.{
  linked, undo_create, make_dots, count_dots, fill_new, create_new, create_at, create_in, create,
  fail_open, set_fields, truncate, open_fd, new_fd, open_with, new_file, open_inode, open_created,
  open_found, sys_open, end_made, make, sys_mkdir, sys_mknod, move_to, put_cwd, enter_dir, enter,
  sys_chdir,
}
use minios.Sysfile.Steps.{
  Moves, Moves-then, Moves-step, Moves-return, Moves-files, Moves-through, moves,
}
use minios.Sysfile.Transactions.{
  Moves-begin, Moves-end_with, Moves-lock, Moves-unlock, Moves-unlock_put, Moves-find,
  Moves-find_parent, Moves-sys_link, Moves-sys_unlink,
}
use minios.Sysfile.Closing.{Moves-close}

take_fd-ops : (f : ℕ) (fd : Option ℕ) (s : Sys) → (take_fd f fd s).1.files.ops ≡ s.files.ops
unfolding take_fd
take_fd-ops f none s = refl
take_fd-ops f (some fd) s = refl

take_file-ops : (f : Option ℕ) (t : Files) → (take_file f t).1.ops ≡ t.ops
unfolding take_file
take_file-ops none t = refl
take_file-ops (some f) t = refl

module _ (begin_op end_op : Cmd Files (Unit {0}))
    (begins : (t : Files) → Ensures (λ _ u. u.ops ≡ suc t.ops) (begin_op t))
    (ends : (t : Files) → Ensures (λ _ u. suc u.ops ≡ t.ops) (end_op t)) (me : ℕ) where
  ruleset calls = (
    moves, Moves-lock, Moves-unlock, Moves-unlock_put, Moves-find, Moves-find_parent,
    Moves-end_with, Moves-close,
  )

  Moves-linked :
      {a : ℕ} (dp : ℕ) (name : ℕ → ℕ) (inum : ℕ)
      → Moves a a (linked begin_op end_op me dp name inum)
  unfolding linked
  Moves-linked dp name inum = search calls depth 14

  Moves-undo_create : {a : ℕ} (dp ip : ℕ) → Moves a a (undo_create begin_op end_op me dp ip)
  unfolding undo_create
  Moves-undo_create dp ip = search calls depth 14

  Moves-make_dots : {a : ℕ} (type dp ip : ℕ) → Moves a a (make_dots begin_op end_op me type dp ip)
  unfolding make_dots
  Moves-make_dots type dp ip = search (calls, Moves-linked) depth 14

  Moves-count_dots : {a : ℕ} (type dp : ℕ) → Moves a a (count_dots begin_op end_op me type dp)
  unfolding count_dots
  Moves-count_dots type dp = search calls depth 14

  Moves-fill_new :
      {a : ℕ} (type major minor dp ip : ℕ) (name : ℕ → ℕ)
      → Moves a a (fill_new begin_op end_op me type major minor dp ip name)
  unfolding fill_new
  Moves-fill_new type major minor dp ip name =
      search (calls, Moves-make_dots, Moves-undo_create, Moves-linked, Moves-count_dots) depth 14

  Moves-create_new :
      {a : ℕ} (type major minor dp : ℕ) (name : ℕ → ℕ) (r : Option ℕ)
      → Moves a a (create_new begin_op end_op me type major minor dp name r)
  unfolding create_new
  Moves-create_new type major minor dp name none = search calls depth 14
  Moves-create_new type major minor dp name (some ip) = Moves-fill_new type major minor dp ip name

  Moves-create_at :
      {a : ℕ} (type major minor dp : ℕ) (name : ℕ → ℕ) (r : Option (ℕ × ℕ))
      → Moves a a (create_at begin_op end_op me type major minor dp name r)
  unfolding create_at
  Moves-create_at type major minor dp name (some (ip, off)) = search calls depth 14
  Moves-create_at type major minor dp name none = search (calls, Moves-create_new) depth 14

  Moves-create_in :
      {a : ℕ} (type major minor : ℕ) (r : Option ℕ × (ℕ → ℕ))
      → Moves a a (create_in begin_op end_op me type major minor r)
  unfolding create_in
  Moves-create_in type major minor (none, name) = Moves-return none
  Moves-create_in type major minor (some dp, name) = search (calls, Moves-create_at) depth 14

  Moves-create :
      {a : ℕ} (path : List ℕ) (type major minor : ℕ)
      → Moves a a (create begin_op end_op me path type major minor)
  unfolding create
  Moves-create path type major minor = search (calls, Moves-create_in) depth 14

  Moves-fail_open : (a ip : ℕ) → Moves (suc a) a (fail_open begin_op end_op me ip)
  unfolding fail_open
  Moves-fail_open a ip = search calls depth 14

  Moves-set_fields :
      {a : ℕ} (omode ip : ℕ) (v : Inode) (f : ℕ)
      → Moves a a (set_fields begin_op end_op me omode ip v f)
  unfolding set_fields
  Moves-set_fields omode ip v f = Moves-files _ (λ t e. e)

  Moves-truncate :
      {a : ℕ} (omode ip : ℕ) (v : Inode) → Moves a a (truncate begin_op end_op me omode ip v)
  unfolding truncate
  Moves-truncate omode ip v = search calls depth 14

  Moves-open_fd :
      (a omode ip : ℕ) (v : Inode) (f : ℕ) (fd : Option ℕ)
      → Moves (suc a) a (open_fd begin_op end_op me omode ip v f fd)
  unfolding open_fd
  Moves-open_fd a omode ip v f none = search (calls, Moves-fail_open) depth 14
  Moves-open_fd a omode ip v f (some fd) = search (calls, Moves-set_fields, Moves-truncate) depth 14

  Moves-new_fd : {a : ℕ} (f : ℕ) → Moves a a (new_fd begin_op end_op me f)
  unfolding new_fd fdalloc
  Moves-new_fd f = record { run = λ s e. take_fd-ops f (free_fd nofile 0 s.ofile) s ∙ e }

  Moves-new_file : {a : ℕ} → Moves a a (in_files (new_file begin_op end_op me))
  unfolding new_file filealloc
  Moves-new_file = Moves-files _ (λ t e. take_file-ops (free_file nfile 0 t.file) t ∙ e)

  Moves-open_with :
      (a omode ip : ℕ) (v : Inode) (f : Option ℕ)
      → Moves (suc a) a (open_with begin_op end_op me omode ip v f)
  unfolding open_with
  Moves-open_with a omode ip v none = Moves-fail_open a ip
  Moves-open_with a omode ip v (some f) = search (calls, Moves-new_fd, Moves-open_fd) depth 14

  Moves-open_inode : (a omode ip : ℕ) → Moves (suc a) a (open_inode begin_op end_op me omode ip)
  unfolding open_inode
  Moves-open_inode a omode ip =
      search (calls, Moves-fail_open, Moves-new_file, Moves-open_with) depth 14

  Moves-open_created :
      (a omode : ℕ) (r : Option ℕ) → Moves (suc a) a (open_created begin_op end_op me omode r)
  unfolding open_created
  Moves-open_created a omode none = Moves-end_with begin_op end_op begins ends me a (negsuc 0)
  Moves-open_created a omode (some ip) = Moves-open_inode a omode ip

  Moves-open_found :
      (a omode : ℕ) (r : Option ℕ × (ℕ → ℕ))
      → Moves (suc a) a (open_found begin_op end_op me omode r)
  unfolding open_found
  Moves-open_found a omode (none, name) = Moves-end_with begin_op end_op begins ends me a (negsuc 0)
  Moves-open_found a omode (some ip, name) =
      search (calls, Moves-fail_open, Moves-open_inode) depth 14

  pub Moves-sys_open :
      (a : ℕ) (path : Option (List ℕ)) (omode : ℕ)
      → Moves a a (sys_open begin_op end_op me path omode)
  unfolding sys_open
  Moves-sys_open a none omode = Moves-return (negsuc 0)
  Moves-sys_open a (some path) omode =
      Moves-then (Moves-begin begin_op end_op begins ends me a)
        (search (calls, Moves-create, Moves-open_created, Moves-open_found) depth 14)

  Moves-end_made : (a : ℕ) (r : Option ℕ) → Moves (suc a) a (end_made begin_op end_op me r)
  unfolding end_made
  Moves-end_made a none = Moves-end_with begin_op end_op begins ends me a (negsuc 0)
  Moves-end_made a (some ip) = search calls depth 14

  Moves-make :
      (a type major minor : ℕ) (path : Option (List ℕ))
      → Moves a a (make begin_op end_op me type major minor path)
  unfolding make
  Moves-make a type major minor none =
      Moves-then (Moves-begin begin_op end_op begins ends me a) (search calls depth 14)
  Moves-make a type major minor (some path) =
      Moves-then (Moves-begin begin_op end_op begins ends me a)
        (search (calls, Moves-create, Moves-end_made) depth 14)

  pub Moves-sys_mkdir :
      (a : ℕ) (path : Option (List ℕ)) → Moves a a (sys_mkdir begin_op end_op me path)
  unfolding sys_mkdir
  Moves-sys_mkdir a path = Moves-make a 1 0 0 path

  pub Moves-sys_mknod :
      (a major minor : ℕ) (path : Option (List ℕ))
      → Moves a a (sys_mknod begin_op end_op me major minor path)
  unfolding sys_mknod
  Moves-sys_mknod a major minor path = Moves-make a 3 _ _ path

  Moves-move_to : {a : ℕ} (ip : ℕ) → Moves a a (move_to begin_op end_op me ip)
  unfolding move_to
  Moves-move_to ip = record { run = λ s e. e }

  Moves-put_cwd : {a : ℕ} → Moves a a (put_cwd begin_op end_op me)
  unfolding put_cwd
  Moves-put_cwd = search calls depth 14

  Moves-enter_dir : (a ip : ℕ) → Moves (suc a) a (enter_dir begin_op end_op me ip)
  unfolding enter_dir
  Moves-enter_dir a ip =
      Moves-step (Moves-step (Moves-unlock begin_op end_op begins ends me ip) Moves-put_cwd) (
        Moves-through (Moves-end_with begin_op end_op begins ends me a (pos 0))
          (λ r. Moves-step (Moves-move_to ip) (Moves-return r)))

  Moves-enter : (a : ℕ) (r : Option ℕ × (ℕ → ℕ)) → Moves (suc a) a (enter begin_op end_op me r)
  unfolding enter
  Moves-enter a (none, name) = Moves-end_with begin_op end_op begins ends me a (negsuc 0)
  Moves-enter a (some ip, name) = search (calls, Moves-enter_dir) depth 14

  pub Moves-sys_chdir :
      (a : ℕ) (path : Option (List ℕ)) → Moves a a (sys_chdir begin_op end_op me path)
  unfolding sys_chdir
  Moves-sys_chdir a none =
      Moves-then (Moves-begin begin_op end_op begins ends me a) (search calls depth 14)
  Moves-sys_chdir a (some path) =
      Moves-then (Moves-begin begin_op end_op begins ends me a)
        (search (calls, Moves-enter) depth 14)

  sys_close-ops :
      (r : Option (ℕ × ℕ)) (s : Sys)
      → Ensures (λ _ u. u.files.ops ≡ s.files.ops) (close_arg begin_op end_op me r s)
  unfolding close_arg
  sys_close-ops none s = refl
  sys_close-ops (some (fd, f)) s =
      (Moves-step (Moves-close begin_op end_op begins ends me f) (Moves-return (pos 0))).run
        (set_fd fd none s) refl

  -- Of link, unlink, open, mkdir, mknod, chdir and close, each call that returns, on whatever path, has
  -- ended as many operations as it has begun, where begin_op begins one and end_op ends one.
  pub operations_end :
      (s : Sys) (path new : Option (List ℕ)) (omode major minor : ℕ) (fd : ℤ)
      → Ensures (λ _ u. u.files.ops ≡ s.files.ops) (sys_link begin_op end_op me path new s)
        × Ensures (λ _ u. u.files.ops ≡ s.files.ops) (sys_unlink begin_op end_op me path s)
        × Ensures (λ _ u. u.files.ops ≡ s.files.ops) (sys_open begin_op end_op me path omode s)
        × Ensures (λ _ u. u.files.ops ≡ s.files.ops) (sys_mkdir begin_op end_op me path s)
        × Ensures
            (λ _ u. u.files.ops ≡ s.files.ops)
            (sys_mknod begin_op end_op me major minor path s)
        × Ensures (λ _ u. u.files.ops ≡ s.files.ops) (sys_chdir begin_op end_op me path s)
        × Ensures (λ _ u. u.files.ops ≡ s.files.ops) (sys_close begin_op end_op me fd s)
  unfolding sys_close
  operations_end s path new omode major minor fd =
      let a = s.files.ops in
      (
        (Moves-sys_link begin_op end_op begins ends me a path new).run s refl,
        (Moves-sys_unlink begin_op end_op begins ends me a path).run s refl,
        (Moves-sys_open a path omode).run s refl,
        (Moves-sys_mkdir a path).run s refl,
        (Moves-sys_mknod a major minor path).run s refl,
        (Moves-sys_chdir a path).run s refl,
        sys_close-ops (argfd fd s) s,
      )
