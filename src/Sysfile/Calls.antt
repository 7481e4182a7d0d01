-- ===== src/Sysfile/Calls.antt =====
-- The system calls of kernel/sysfile.c that change the tree of directories. The fields `nlink` and
-- `major` are bit patterns of a `short`.
use minios.Base.{
  ℕ, zero, suc, ◌+◌, ◌-◌, ◌/◌, ◌%◌, ◌^◌, Bool, true, false, not, ◌||◌, Option, none, some, leb,
  ◌==◌, if◌then◌else◌, ℤ, pos, negsuc, List,
}
use minios.Kern.{ok, Cmd, and_then}
use minios.Fs.{Fs, Inode}
use minios.Fs.Itable.{ilock, iunlock, iupdate}
use minios.Fs.Content.{writei}
use minios.Fs.Dir.{
  iput, iunlockput, namei, nameiparent, dirlookup, dirlink, namecmp, read_entry, entry_inum,
  is_zero, is_entry,
}
use minios.Ftable.{Files}
use minios.Sysfile.{Sys, in_files, fs_call, read, return, stop, ◌>>=◌, ◌>>◌, edit, inode_of}

abbrev pub ndev : ℕ
ndev = 10

abbrev pub is_dir : Inode → Bool
is_dir v = v.type == 1

abbrev pub is_file : Inode → Bool
is_file v = v.type == 2

abbrev pub is_device : Inode → Bool
is_device v = v.type == 3

-- ip->nlink++ and ip->nlink--
abbrev pub one_more : Inode → Inode
one_more v = record v { nlink = (v.nlink + 1) % 2 ^ 16 }

abbrev pub one_less : Inode → Inode
one_less v = record v { nlink = (v.nlink + (2 ^ 16 - 1)) % 2 ^ 16 }

-- ilock, iunlock and the like from here.
unfoldable pub save : ℕ → Cmd Sys (Unit {0})
save ip = fs_call (λ t. ok tt (iupdate ip t))

-- The names "." and "..", and the buffer for a name before it is written.
abbrev pub blank : ℕ → ℕ
blank i = 0

abbrev pub dot : ℕ → ℕ
dot i = if i == 0 then b'.' else 0

abbrev pub dot_dot : ℕ → ℕ
dot_dot i = if i == 0 then b'.' else if i == 1 then b'.' else 0

-- The loop of isdirempty from `off` on, `n` entries left.
unfoldable pub empty_from : ℕ → ℕ → ℕ → Cmd Fs Bool
empty_from zero dp off s = ok true s
empty_from (suc n) dp off s = and_then (read_entry dp off s) (λ de t.
    let rest = empty_from n dp (off + 16) t in if entry_inum de == 0 then rest else ok false t)

unfoldable pub isdirempty : ℕ → Cmd Fs Bool
isdirempty dp s = empty_from (((s.inode dp).size + 15) / 16 - 2) dp 32 s

module _ (begin_op end_op : Cmd Files (Unit {0})) (me : ℕ) where
  unfoldable pub begin : Cmd Sys (Unit {0})
  begin = in_files begin_op

  -- end_op(); return r;
  unfoldable pub end_with : ℤ → Cmd Sys ℤ
  end_with r = in_files end_op >> return r

  unfoldable pub lock : ℕ → Cmd Sys (Unit {0})
  lock ip = fs_call (ilock me ip)

  unfoldable pub unlock : ℕ → Cmd Sys (Unit {0})
  unlock ip = fs_call (iunlock me ip)

  unfoldable pub unlock_put : ℕ → Cmd Sys (Unit {0})
  unlock_put ip = fs_call (iunlockput me ip)

  unfoldable pub find : List ℕ → Cmd Sys (Option ℕ × (ℕ → ℕ))
  find path = read (λ s. s.cwd) >>= λ cwd. fs_call (namei me cwd path blank)

  unfoldable pub find_parent : List ℕ → Cmd Sys (Option ℕ × (ℕ → ℕ))
  find_parent path = read (λ s. s.cwd) >>= λ cwd. fs_call (nameiparent me cwd path blank)

  -- The label `bad` of sys_link.
  unfoldable pub unlink_back : ℕ → Cmd Sys ℤ
  unlink_back ip = lock ip >> edit ip one_less >> save ip >> unlock_put ip >> end_with (negsuc 0)

  abbrev pub is_bad : ℤ → Bool
  is_bad (pos n) = false
  is_bad (negsuc n) = true

  -- dp->dev != ip->dev || dirlink(dp, name, ip->inum) < 0
  unfoldable pub link_fails : ℕ → ℕ → (ℕ → ℕ) → Cmd Sys Bool
  link_fails dp ip name = inode_of dp >>= λ d. inode_of ip >>= λ v.
      if not (d.dev == v.dev)
      then return true
      else (fs_call (dirlink me dp name v.inum) >>= λ r. return (is_bad r))

  unfoldable pub link_into : ℕ → Option ℕ × (ℕ → ℕ) → Cmd Sys ℤ
  link_into ip (none, name) = unlink_back ip
  link_into ip (some dp, name) =
      lock dp
      >> (link_fails dp ip name >>= λ bad.
          if bad
          then (unlock_put dp >> unlink_back ip)
          else (unlock_put dp >> fs_call (iput me ip) >> end_with (pos 0)))

  unfoldable pub link_found : List ℕ → Option ℕ × (ℕ → ℕ) → Cmd Sys ℤ
  link_found new (none, name) = end_with (negsuc 0)
  link_found new (some ip, name) =
      lock ip
      >> (inode_of ip >>= λ v.
          if is_dir v
          then (unlock_put ip >> end_with (negsuc 0))
          else (edit ip one_more >> save ip >> unlock ip >> (find_parent new >>= link_into ip)))

  unfoldable pub sys_link : Option (List ℕ) → Option (List ℕ) → Cmd Sys ℤ
  sys_link none new = return (negsuc 0)
  sys_link (some old) none = return (negsuc 0)
  sys_link (some old) (some new) = begin >> (find old >>= link_found new)

  -- The label `bad` of sys_unlink.
  unfoldable pub leave_dir : ℕ → Cmd Sys ℤ
  leave_dir dp = unlock_put dp >> end_with (negsuc 0)

  -- dp->nlink--; iupdate(dp); for the ".." of a directory
  unfoldable pub less_if : Bool → ℕ → Cmd Sys (Unit {0})
  less_if true dp = edit dp one_less >> save dp
  less_if false dp = return tt

  -- memset(&de, 0, sizeof(de)); writei(...)
  unfoldable pub clear_entry : ℕ → ℕ → Cmd Sys (Unit {0})
  clear_entry dp off = fs_call (writei (λ i. 0) (λ i m. true) dp off 16) >>= λ n.
      if is_entry n then return tt else stop

  unfoldable pub remove : ℕ → ℕ → ℕ → Bool → Cmd Sys ℤ
  remove dp ip off dir =
      clear_entry dp off
      >> less_if dir dp
      >> unlock_put dp
      >> edit ip one_less
      >> save ip
      >> unlock_put ip
      >> end_with (pos 0)

  -- ip->type == T_DIR && !isdirempty(ip)
  unfoldable pub is_full : ℕ → Inode → Cmd Sys Bool
  is_full ip v =
      if is_dir v then (fs_call (isdirempty ip) >>= λ empty. return (not empty)) else return false

  unfoldable pub unlink_entry : ℕ → Option (ℕ × ℕ) → Cmd Sys ℤ
  unlink_entry dp none = leave_dir dp
  unlink_entry dp (some (ip, off)) =
      lock ip
      >> (inode_of ip >>= λ v.
          if v.nlink == 0 || leb (2 ^ 15) v.nlink
          then stop
          else (is_full ip v >>= λ full.
              if full then (unlock_put ip >> leave_dir dp) else remove dp ip off (is_dir v)))

  unfoldable pub unlink_in : Option ℕ × (ℕ → ℕ) → Cmd Sys ℤ
  unlink_in (none, name) = end_with (negsuc 0)
  unlink_in (some dp, name) =
      lock dp
      >> (if is_zero (namecmp name dot) || is_zero (namecmp name dot_dot)
          then leave_dir dp
          else (fs_call (dirlookup dp name) >>= unlink_entry dp))

  unfoldable pub sys_unlink : Option (List ℕ) → Cmd Sys ℤ
  sys_unlink none = return (negsuc 0)
  sys_unlink (some path) = begin >> (find_parent path >>= unlink_in)
