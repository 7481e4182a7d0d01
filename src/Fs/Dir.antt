-- ===== src/Fs/Dir.antt =====
-- iput, the directories and the path names of kernel/fs.c. `me` is the calling process.
use minios.Base.{
  ℕ, zero, suc, ◌+◌, ◌-◌, ◌*◌, ◌/◌, ◌%◌, Bool, true, false, not, ◌&&◌, Option, none, some, ltb,
  ◌==◌, if◌then◌else◌, List, [], ◌∷◌, ℤ, pos, negsuc, length, get_or,
}
use minios.Kern.{Outcome, ok, panic, Cmd, pure, and_then, ◌>>=◌, ◌>>◌, panic_if, change}
use minios.Bytes.{strncmp, strncpy}
use minios.Fs.{Fs}
use minios.Fs.Itable.{set_inode, iupdate, iget, idup, lock_inode, unlock_inode, ilock, iunlock}
use minios.Fs.Content.{itrunc, readi, writei}
use minios.Fs.Path.{skipelem, slash, dirsiz}

-- ip->ref--
unfoldable pub drop_ref : ℕ → Fs → Fs
drop_ref ip s = set_inode ip (let v = s.inode ip in record v { refs = v.refs - 1 }) s

-- itrunc(ip); ip->type = 0; iupdate(ip); ip->valid = 0;
unfoldable pub free_inode : ℕ → Cmd Fs (Unit {0})
free_inode ip =
    itrunc ip
    >> change (λ s. iupdate ip (set_inode ip (let v = s.inode ip in record v { type = 0 }) s))
    >> change (λ s. set_inode ip (let v = s.inode ip in record v { valid = false }) s)

unfoldable pub iput : ℕ → ℕ → Cmd Fs (Unit {0})
iput me ip s =
    let v = s.inode ip in
    let freed =
      and_then (lock_inode me ip s)
        (λ _. free_inode ip >> change (unlock_inode ip) >> change (drop_ref ip)) in
    if v.refs == 1 && v.valid && v.nlink == 0 then freed else ok tt (drop_ref ip s)

unfoldable pub iunlockput : ℕ → ℕ → Cmd Fs (Unit {0})
iunlockput me ip = iunlock me ip >> iput me ip

-- strncmp(s, t, DIRSIZ), with `s` and `t` side by side in memory.
unfoldable pub namecmp : (ℕ → ℕ) → (ℕ → ℕ) → ℤ
namecmp s t = strncmp (λ i. if ltb i dirsiz then s i else t (i - dirsiz)) 0 dirsiz dirsiz

-- The bytes of a `struct dirent`: its number, and its name.
abbrev pub entry_inum : List ℕ → ℕ
entry_inum de = get_or de 0 0 + 256 * get_or de 1 0

abbrev pub entry_name : List ℕ → ℕ → ℕ
entry_name de i = get_or de (i + 2) 0

abbrev pub is_zero : ℤ → Bool
is_zero (pos n) = n == 0
is_zero (negsuc n) = false

abbrev pub is_entry : ℤ → Bool
is_entry (pos n) = n == 16
is_entry (negsuc n) = false

-- readi of one entry into the kernel's memory, which must succeed.
unfoldable pub read_entry : ℕ → ℕ → Cmd Fs (List ℕ)
read_entry dp off =
    readi (λ dst m. true) dp 0 off 16 >>= λ (n, de). panic_if (not (is_entry n)) >> pure de

-- The loop of dirlookup from `off` on, `n` entries left.
unfoldable pub lookup_loop : ℕ → ℕ → (ℕ → ℕ) → ℕ → Cmd Fs (Option (ℕ × ℕ))
lookup_loop zero dp name off s = ok none s
lookup_loop (suc n) dp name off s = and_then (read_entry dp off s) (λ de t.
    let rest = lookup_loop n dp name (off + 16) t in
    if entry_inum de == 0
    then rest
    else if is_zero (namecmp name (entry_name de))
    then and_then (iget (t.inode dp).dev (entry_inum de) t) (λ ip. pure (some (ip, off)))
    else rest)

abbrev pub entries : ℕ → Fs → ℕ
entries dp s = ((s.inode dp).size + 15) / 16

-- The inode and the offset of the entry.
unfoldable pub dirlookup : ℕ → (ℕ → ℕ) → Cmd Fs (Option (ℕ × ℕ))
dirlookup dp name s =
    if (s.inode dp).type == 1 then lookup_loop (entries dp s) dp name 0 s else panic

-- The loop of dirlink: the offset of an empty entry, or that behind the last one.
unfoldable pub empty_loop : ℕ → ℕ → ℕ → Cmd Fs ℕ
empty_loop zero dp off s = ok off s
empty_loop (suc n) dp off s = and_then (read_entry dp off s) (λ de t.
    let rest = empty_loop n dp (off + 16) t in if entry_inum de == 0 then ok off t else rest)

-- strncpy(de.name, name, DIRSIZ); de.inum = inum;
unfoldable pub make_entry : (ℕ → ℕ) → ℕ → ℕ → ℕ
make_entry name inum i =
    if i == 0
    then inum % 256
    else if i == 1
    then inum / 256 % 256
    else strncpy (λ j. name j) 32 0 dirsiz (32 + (i - 2))

unfoldable pub write_entry : ℕ → (ℕ → ℕ) → ℕ → ℕ → Cmd Fs ℤ
write_entry dp name inum off = writei (make_entry name inum) (λ i m. true) dp off 16 >>= λ n.
    pure (if is_entry n then pos 0 else negsuc 0)

unfoldable pub link_unless : ℕ → ℕ → (ℕ → ℕ) → ℕ → Option (ℕ × ℕ) → Cmd Fs ℤ
link_unless me dp name inum (some (ip, off)) s = and_then (iput me ip s) (λ _. pure (negsuc 0))
link_unless me dp name inum none s =
    and_then (empty_loop (entries dp s) dp 0 s) (write_entry dp name inum)

unfoldable pub dirlink : ℕ → ℕ → (ℕ → ℕ) → ℕ → Cmd Fs ℤ
dirlink me dp name inum = dirlookup dp name >>= link_unless me dp name inum

-- What namex does with the inode that an element of the path names; `walk` is the rest of the loop.
unfoldable pub step_to :
    ℕ
    → ℕ
    → (ℕ → Cmd Fs (Option ℕ × (ℕ → ℕ)))
    → (ℕ → ℕ)
    → Option (ℕ × ℕ)
    → Cmd Fs (Option ℕ × (ℕ → ℕ))
step_to me ip walk name none = iunlockput me ip >> pure (none, name)
step_to me ip walk name (some (next, off)) = iunlockput me ip >> walk next

-- A round of namex by what skipelem has returned; `walk` is the rest of the loop.
unfoldable pub walk_on :
    ℕ
    → Bool
    → (List ℕ → (ℕ → ℕ) → ℕ → Cmd Fs (Option ℕ × (ℕ → ℕ)))
    → (ℕ → ℕ)
    → ℕ
    → Fs
    → Option (List ℕ × (ℕ → ℕ))
    → Outcome Fs (Option ℕ × (ℕ → ℕ))
walk_on me parent walk name ip s none =
    if parent then and_then (iput me ip s) (λ _. pure (none, name)) else ok (some ip, name) s
walk_on me parent walk name ip s (some (rest, name')) = and_then (ilock me ip s) (λ _ t.
    if not ((t.inode ip).type == 1)
    then and_then (iunlockput me ip t) (λ _. pure (none, name'))
    else if parent && length rest == 0
    then and_then (iunlock me ip t) (λ _. pure (some ip, name'))
    else and_then (dirlookup ip name' t) (step_to me ip (walk rest name') name'))

-- The while loop of namex, on as many rounds as `fuel`.
unfoldable pub walk : ℕ → ℕ → Bool → List ℕ → (ℕ → ℕ) → ℕ → Cmd Fs (Option ℕ × (ℕ → ℕ))
walk zero me parent path name ip s = ok (none, name) s
walk (suc fuel) me parent path name ip s =
    walk_on me parent (walk fuel me parent) name ip s (skipelem path name)

abbrev pub rooted : List ℕ → Bool
rooted [] = false
rooted (c ∷ path) = c == slash

-- `cwd` is myproc()->cwd; the root is inode 1 of device 1.
unfoldable pub namex : ℕ → ℕ → Bool → List ℕ → (ℕ → ℕ) → Cmd Fs (Option ℕ × (ℕ → ℕ))
namex me cwd parent path name s =
    and_then (if rooted path then iget 1 1 s else ok cwd (idup cwd s))
      (walk (length path + 1) me parent path name)

unfoldable pub namei : ℕ → ℕ → List ℕ → (ℕ → ℕ) → Cmd Fs (Option ℕ × (ℕ → ℕ))
namei me cwd path name = namex me cwd false path name

unfoldable pub nameiparent : ℕ → ℕ → List ℕ → (ℕ → ℕ) → Cmd Fs (Option ℕ × (ℕ → ℕ))
nameiparent me cwd path name = namex me cwd true path name
