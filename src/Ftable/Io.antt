-- ===== src/Ftable/Io.antt =====
-- filewrite of kernel/file.c, and fileread on a file that is an inode. `me` is the calling process.
use minios.Base.{
  ℕ, zero, suc, ◌+◌, ◌-◌, ◌%◌, ◌^◌, Bool, false, ◌==◌, if◌then◌else◌, min, ℤ, pos, negsuc, List,
  Option, none, some,
}
use minios.Kern.{ok, panic, Cmd, and_then, pure}
use minios.Fs.Itable.{ilock, iunlock}
use minios.Fs.Content.{readi, writei}
use minios.Ftable.{Files, Kind, fd_none, fd_pipe, fd_inode, fd_device, set_file, in_fs}

-- ((MAXOPBLOCKS-1-1-2) / 2) * BSIZE
abbrev pub max_write : ℕ
max_write = 3072

-- f->off += r
unfoldable pub advance : ℕ → ℕ → Files → Files
advance f r t = set_file f (let v = t.file f in record v { off = (v.off + r) % 2 ^ 32 }) t

-- if((r = ...) > 0) f->off += r;
abbrev pub advance_by : ℕ → ℤ → Files → Files
advance_by f (pos zero) t = t
advance_by f (pos (suc r)) t = advance f (suc r) t
advance_by f (negsuc r) t = t

-- Moves the offset by what a call of readi or writei returned, and unlocks the inode.
unfoldable pub end_io : {A : Type 0} → (A → ℤ) → ℕ → ℕ → ℕ → A → Cmd Files A
end_io code me f ip r t =
    let u = advance_by f (code r) t in and_then (in_fs u (iunlock me ip u.fs)) (λ _. pure r)

unfoldable pub read_inode_file : (ℕ → ℕ → Bool) → ℕ → ℕ → ℕ → ℕ → Cmd Files (ℤ × List ℕ)
read_inode_file copies me f dst n t =
    let ip = (t.file f).ip in
    and_then (in_fs t (ilock me ip t.fs)) (λ _ u.
      and_then (in_fs u (readi copies ip dst (u.file f).off n u.fs)) (end_io (λ r. r.0) me f ip))

-- The bytes of the source and the places where copyin() succeeds, from `i` on.
abbrev pub shift : {B : Type 0} → (ℕ → B) → ℕ → ℕ → B
shift src i j = src (i + j)

-- r == n1
abbrev pub is_count : ℤ → ℕ → Bool
is_count (pos r) n = r == n
is_count (negsuc r) n = false

module _ (begin_op end_op : Cmd Files (Unit {0})) where
  -- One round: what writei returns.
  unfoldable pub write_part : (ℕ → ℕ) → (ℕ → ℕ → Bool) → ℕ → ℕ → ℕ → ℕ → Cmd Files ℤ
  write_part src fetches me f i n1 t =
      let ip = (t.file f).ip in
      and_then (begin_op t) (λ _ u. and_then (in_fs u (ilock me ip u.fs)) (λ _ v.
        and_then (in_fs v (writei (shift src i) (shift fetches i) ip (v.file f).off n1 v.fs))
          (λ r w.
            and_then (end_io (λ r. r) me f ip r w) (λ r x. and_then (end_op x) (λ _. pure r)))))

  -- The loop with at most `fuel` rounds, `i` bytes written and `left` for `n - i`: the last `i`.
  unfoldable pub write_rounds : ℕ → (ℕ → ℕ) → (ℕ → ℕ → Bool) → ℕ → ℕ → ℕ → ℕ → Cmd Files ℕ
  write_rounds zero src fetches me f i left t = ok i t
  write_rounds (suc fuel) src fetches me f i left t =
      let n1 = min left max_write in
      let more = and_then (write_part src fetches me f i n1 t) (λ r u.
        if is_count r n1
        then write_rounds fuel src fetches me f (i + n1) (left - n1) u
        else ok i u) in
      if left == 0 then ok i t else more

  -- The branch for an inode. The loop does not run for a negative `n`, which `i`, then 0, is not.
  unfoldable pub write_inode_file : (ℕ → ℕ) → (ℕ → ℕ → Bool) → ℕ → ℕ → ℤ → Cmd Files ℤ
  write_inode_file src fetches me f (negsuc n) t = ok (negsuc 0) t
  write_inode_file src fetches me f (pos n) t =
      and_then (write_rounds n src fetches me f 0 n t)
        (λ i. pure (if i == n then pos n else negsuc 0))

  -- What a device's entry in devsw comes to; a null entry, or a number outside the array, is none.
  abbrev pub call_write : Option (Cmd Files ℤ) → Cmd Files ℤ
  call_write none t = ok (negsuc 0) t
  call_write (some write) t = write t

  -- Behind the test of f->writable. `to_pipe` is what pipewrite() does with the bytes, and `devsw`
  -- the functions of the devices, by major number.
  unfoldable pub write_by_type :
      (ℕ → Cmd Files ℤ)
      → (ℕ → Option (Cmd Files ℤ))
      → (ℕ → ℕ)
      → (ℕ → ℕ → Bool)
      → ℕ
      → ℕ
      → ℤ
      → Kind
      → Cmd Files ℤ
  write_by_type to_pipe devsw src fetches me f n fd_pipe t = to_pipe (t.file f).pipe t
  write_by_type to_pipe devsw src fetches me f n fd_device t = call_write (devsw (t.file f).major) t
  write_by_type to_pipe devsw src fetches me f n fd_inode t = write_inode_file src fetches me f n t
  write_by_type to_pipe devsw src fetches me f n fd_none t = panic

  unfoldable pub filewrite :
      (ℕ → Cmd Files ℤ)
      → (ℕ → Option (Cmd Files ℤ))
      → (ℕ → ℕ)
      → (ℕ → ℕ → Bool)
      → ℕ
      → ℕ
      → ℤ
      → Cmd Files ℤ
  filewrite to_pipe devsw src fetches me f n t =
      if (t.file f).writable
      then write_by_type to_pipe devsw src fetches me f n (t.file f).type t
      else ok (negsuc 0) t
