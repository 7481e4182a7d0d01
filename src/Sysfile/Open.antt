-- ===== src/Sysfile/Open.antt =====
-- create, open, mkdir, mknod and chdir of kernel/sysfile.c. `omode` is the bit pattern of an `int`.
use minios.Base.{
  ℕ, ◌/◌, ◌%◌, ◌^◌, Bool, true, false, not, ◌&&◌, ◌||◌, Option, none, some, leb, ◌==◌,
  if◌then◌else◌, ℤ, pos, negsuc, List,
}
use minios.Kern.{ok, Cmd}
use minios.Fs.{Inode}
use minios.Fs.Itable.{ialloc}
use minios.Fs.Content.{itrunc}
use minios.Fs.Dir.{iput, dirlookup, dirlink}
use minios.Ftable.{Files, File, fd_inode, fd_device, filealloc, set_file}
use minios.Sysfile.{
  Sys, in_files, fs_call, read, return, ◌>>=◌, ◌>>◌, edit, inode_of, fdalloc, close,
}
use minios.Sysfile.Calls.{
  ndev, is_dir, is_file, is_device, one_more, save, dot, dot_dot, begin, end_with, lock, unlock,
  unlock_put, find, find_parent, is_bad,
}

abbrev pub t_dir : ℕ
t_dir = 1

abbrev pub t_file : ℕ
t_file = 2

abbrev pub t_device : ℕ
t_device = 3

abbrev pub o_wronly : ℕ → Bool
o_wronly omode = omode % 2 == 1

abbrev pub o_rdwr : ℕ → Bool
o_rdwr omode = omode / 2 % 2 == 1

abbrev pub o_create : ℕ → Bool
o_create omode = omode / 512 % 2 == 1

abbrev pub o_trunc : ℕ → Bool
o_trunc omode = omode / 1024 % 2 == 1

module _ (begin_op end_op : Cmd Files (Unit {0})) (me : ℕ) where
  -- dirlink(dp, name, inum) < 0
  unfoldable pub linked : ℕ → (ℕ → ℕ) → ℕ → Cmd Sys Bool
  linked dp name inum =
      fs_call (dirlink me dp name inum) >>= λ r. return (not (is_bad begin_op end_op me r))

  -- The label `fail` of create.
  unfoldable pub undo_create : ℕ → ℕ → Cmd Sys (Option ℕ)
  undo_create dp ip =
      edit ip (λ v. record v { nlink = 0 })
      >> save ip
      >> unlock_put begin_op end_op me ip
      >> unlock_put begin_op end_op me dp
      >> return none

  -- if(type == T_DIR): "." and ".."; the calls of dirlink stop at the first that fails.
  unfoldable pub make_dots : ℕ → ℕ → ℕ → Cmd Sys Bool
  make_dots type dp ip = inode_of ip >>= λ v. inode_of dp >>= λ d.
      if type == t_dir
      then (linked ip dot v.inum >>= λ first.
          if first then linked ip dot_dot d.inum else return false)
      else return true

  -- if(type == T_DIR): dp->nlink++ for "..".
  unfoldable pub count_dots : ℕ → ℕ → Cmd Sys (Unit {0})
  count_dots type dp = if type == t_dir then (edit dp one_more >> save dp) else return tt

  unfoldable pub fill_new : ℕ → ℕ → ℕ → ℕ → ℕ → (ℕ → ℕ) → Cmd Sys (Option ℕ)
  fill_new type major minor dp ip name =
      lock begin_op end_op me ip
      >> edit ip (λ v. record v { major = major; minor = minor; nlink = 1 })
      >> save ip
      >> (make_dots type dp ip >>= λ dots.
          if not dots
          then undo_create dp ip
          else (inode_of ip >>= λ v. linked dp name v.inum >>= λ named.
              if not named
              then undo_create dp ip
              else (count_dots type dp >> unlock_put begin_op end_op me dp >> return (some ip))))

  unfoldable pub create_new : ℕ → ℕ → ℕ → ℕ → (ℕ → ℕ) → Option ℕ → Cmd Sys (Option ℕ)
  create_new type major minor dp name none = unlock_put begin_op end_op me dp >> return none
  create_new type major minor dp name (some ip) = fill_new type major minor dp ip name

  -- What create does when dirlookup finds the name, or does not.
  unfoldable pub create_at : ℕ → ℕ → ℕ → ℕ → (ℕ → ℕ) → Option (ℕ × ℕ) → Cmd Sys (Option ℕ)
  create_at type major minor dp name (some (ip, off)) =
      unlock_put begin_op end_op me dp
      >> lock begin_op end_op me ip
      >> (inode_of ip >>= λ v.
          if type == t_file && (is_file v || is_device v)
          then return (some ip)
          else (unlock_put begin_op end_op me ip >> return none))
  create_at type major minor dp name none =
      inode_of dp >>= λ d. fs_call (ialloc d.dev type) >>= create_new type major minor dp name

  unfoldable pub create_in : ℕ → ℕ → ℕ → Option ℕ × (ℕ → ℕ) → Cmd Sys (Option ℕ)
  create_in type major minor (none, name) = return none
  create_in type major minor (some dp, name) =
      lock begin_op end_op me dp
      >> (fs_call (dirlookup dp name) >>= create_at type major minor dp name)

  unfoldable pub create : List ℕ → ℕ → ℕ → ℕ → Cmd Sys (Option ℕ)
  create path type major minor = find_parent begin_op end_op me path >>= create_in type major minor

  unfoldable pub fail_open : ℕ → Cmd Sys ℤ
  fail_open ip = unlock_put begin_op end_op me ip >> end_with begin_op end_op me (negsuc 0)

  -- The fields of `f` for the inode `v` at `ip`.
  abbrev pub opened : ℕ → ℕ → Inode → File → File
  opened omode ip v w =
      let typed =
        if is_device v
        then record w { type = fd_device; major = v.major }
        else record w { type = fd_inode; off = 0 } in
      record typed {
        ip = ip;
        readable = not (o_wronly omode);
        writable = o_wronly omode || o_rdwr omode;
      }

  unfoldable pub set_fields : ℕ → ℕ → Inode → ℕ → Cmd Sys (Unit {0})
  set_fields omode ip v f = in_files (λ t. ok tt (set_file f (opened omode ip v (t.file f)) t))

  unfoldable pub truncate : ℕ → ℕ → Inode → Cmd Sys (Unit {0})
  truncate omode ip v = if o_trunc omode && is_file v then fs_call (itrunc ip) else return tt

  unfoldable pub open_fd : ℕ → ℕ → Inode → ℕ → Option ℕ → Cmd Sys ℤ
  open_fd omode ip v f none = close begin_op end_op me f >> fail_open ip
  open_fd omode ip v f (some fd) =
      set_fields omode ip v f
      >> truncate omode ip v
      >> unlock begin_op end_op me ip
      >> end_with begin_op end_op me (pos fd)

  -- fdalloc(f)
  unfoldable pub new_fd : ℕ → Cmd Sys (Option ℕ)
  new_fd f s = let (fd, t) = fdalloc f s in ok fd t

  unfoldable pub open_with : ℕ → ℕ → Inode → Option ℕ → Cmd Sys ℤ
  open_with omode ip v none = fail_open ip
  open_with omode ip v (some f) = new_fd f >>= open_fd omode ip v f

  unfoldable pub new_file : Cmd Files (Option ℕ)
  new_file t = let (f, u) = filealloc t in ok f u

  -- What sys_open does with the inode, which is locked.
  unfoldable pub open_inode : ℕ → ℕ → Cmd Sys ℤ
  open_inode omode ip = inode_of ip >>= λ v.
      if is_device v && leb ndev v.major
      then fail_open ip
      else (in_files new_file >>= open_with omode ip v)

  unfoldable pub open_created : ℕ → Option ℕ → Cmd Sys ℤ
  open_created omode none = end_with begin_op end_op me (negsuc 0)
  open_created omode (some ip) = open_inode omode ip

  unfoldable pub open_found : ℕ → Option ℕ × (ℕ → ℕ) → Cmd Sys ℤ
  open_found omode (none, name) = end_with begin_op end_op me (negsuc 0)
  open_found omode (some ip, name) =
      lock begin_op end_op me ip
      >> (inode_of ip >>= λ v.
          if is_dir v && not (omode == 0) then fail_open ip else open_inode omode ip)

  unfoldable pub sys_open : Option (List ℕ) → ℕ → Cmd Sys ℤ
  sys_open none omode = return (negsuc 0)
  sys_open (some path) omode =
      begin begin_op end_op me
      >> (if o_create omode
          then (create path t_file 0 0 >>= open_created omode)
          else (find begin_op end_op me path >>= open_found omode))

  unfoldable pub end_made : Option ℕ → Cmd Sys ℤ
  end_made none = end_with begin_op end_op me (negsuc 0)
  end_made (some ip) = unlock_put begin_op end_op me ip >> end_with begin_op end_op me (pos 0)

  -- mkdir and mknod begin the operation before they fetch the path.
  unfoldable pub make : ℕ → ℕ → ℕ → Option (List ℕ) → Cmd Sys ℤ
  make type major minor none = begin begin_op end_op me >> end_with begin_op end_op me (negsuc 0)
  make type major minor (some path) =
      begin begin_op end_op me >> (create path type major minor >>= end_made)

  unfoldable pub sys_mkdir : Option (List ℕ) → Cmd Sys ℤ
  sys_mkdir = make t_dir 0 0

  unfoldable pub sys_mknod : ℕ → ℕ → Option (List ℕ) → Cmd Sys ℤ
  sys_mknod major minor = make t_device (major % 2 ^ 16) (minor % 2 ^ 16)

  unfoldable pub move_to : ℕ → Cmd Sys (Unit {0})
  move_to ip s = ok tt (record s { cwd = ip })

  -- iput(p->cwd)
  unfoldable pub put_cwd : Cmd Sys (Unit {0})
  put_cwd = read (λ s. s.cwd) >>= λ cwd. fs_call (iput me cwd)

  unfoldable pub enter_dir : ℕ → Cmd Sys ℤ
  enter_dir ip =
      unlock begin_op end_op me ip
      >> put_cwd
      >> (end_with begin_op end_op me (pos 0) >>= λ r. move_to ip >> return r)

  unfoldable pub enter : Option ℕ × (ℕ → ℕ) → Cmd Sys ℤ
  enter (none, name) = end_with begin_op end_op me (negsuc 0)
  enter (some ip, name) =
      lock begin_op end_op me ip
      >> (inode_of ip >>= λ v.
          if not (is_dir v)
          then (unlock_put begin_op end_op me ip >> end_with begin_op end_op me (negsuc 0))
          else enter_dir ip)

  unfoldable pub sys_chdir : Option (List ℕ) → Cmd Sys ℤ
  sys_chdir none = begin begin_op end_op me >> end_with begin_op end_op me (negsuc 0)
  sys_chdir (some path) = begin begin_op end_op me >> (find begin_op end_op me path >>= enter)
