-- ===== src/Tests/Ftable.antt =====
-- kernel/file.c at a table with one open file, which two descriptors share.
use minios.Base.{◌≡◌, ℤ, pos, refl, true, false, [], none, some, ◌==◌, if◌then◌else◌, arith}
use minios.Kern.{Outcome, ok, panic}
use minios.Pipe.{Pipe}
use minios.Ftable.{
  Files, File, fd_none, fd_inode, filealloc, take_file, free_file, drop_file, fileclose,
}
use minios.Ftable.Io.{
  filewrite, write_by_type, write_inode_file, write_rounds, write_part, end_io, advance,
}
use minios.Fs.{write_block}
use minios.Fs.Itable.{ilock, iunlock, lock_inode, read_inode, iupdate}
use minios.Fs.Content.{writei, write_loop, bmap, need_addr, end_write}
use minios.Sleeplock.{holdingsleep}
use minios.Ftable.Returns.{Ensures}
use minios.Ftable.Offsets.{Written, filewrite_lem}
use minios.Tests.Fs.{small}

abbrev unused : File
unused = record {
  type = fd_none;
  refs = 0;
  readable = false;
  writable = false;
  pipe = 0;
  ip = 0;
  off = 0;
  major = 0;
}

abbrev no_pipe : Pipe
no_pipe = record {
  locked = false;
  bytes = λ _. 0;
  nread = 0;
  nwrite = 0;
  readopen = false;
  writeopen = false;
  woken = [];
  freed = true;
}

-- Entry 3 is inode 0, open twice.
abbrev pub shared : Files
shared = record {
  file =
      λ f. if f == 3 then record unused { type = fd_inode; refs = 2; readable = true } else unused;
  pipes = λ _. no_pipe;
  fs = small;
  ops = 0;
}

-- The first free entry.
alloc_first : (filealloc shared).0 ≡ some 0
unfolding filealloc take_file free_file
alloc_first = refl

close_shared : fileclose (ok tt) (ok tt) 1 3 shared ≡ ok tt (drop_file 3 shared)
unfolding fileclose
close_shared = refl

-- The same with the descriptors open for writing.
abbrev opened : Files
opened = record shared { file = λ f. let v = shared.file f in record v { writable = true } }

abbrev ten_written : Outcome Files ℤ
ten_written =
    filewrite (ok tt) (ok tt) (λ p t. panic) (λ d. none) (λ i. i) (λ i m. true) 1 3 (pos 10) opened

-- Ten bytes of which all can be copied in.
write_ten : Ensures (λ r u. (r ≡ pos 10) × ((u.file 3).off ≡ 10)) ten_written
unfolding filewrite write_by_type write_inode_file write_rounds write_part ilock lock_inode
    read_inode writei write_loop bmap need_addr end_write end_io iunlock holdingsleep advance
    iupdate write_block
write_ten = (refl, refl)

filewrite_lem_example : Ensures (Written 3 (pos 10) opened) ten_written
filewrite_lem_example =
    filewrite_lem (ok tt) (ok tt) (λ t. refl) (λ t. refl) (λ p t. panic) (λ d. none) (λ i. i)
      (λ i m. true) 1 3 (pos 10) opened refl (omega arith)
