-- ===== src/Fs.antt =====
-- kernel/fs.c over the blocks of the disk as the buffer cache and the log show them: bread gives a
-- block's current bytes, and log_write records that the block is to be written.
pub mod Bits
pub mod Bitmap
pub mod Words
pub mod Itable
pub mod Content
pub mod Path
pub mod Dir
pub mod Dinode
pub mod Table
pub mod Mapping
pub mod Fuel
use minios.Base.{ℕ, zero, suc, ◌+◌, ◌*◌, ◌/◌, ◌%◌, ◌^◌, Bool, List, ◌∷◌, ◌==◌, if◌then◌else◌}
use minios.Store.{update}
use minios.Sleeplock.{Sleeplock}

abbrev pub bsize : ℕ
bsize = 1024

abbrev pub bpb : ℕ
bpb = 8192

abbrev pub ipb : ℕ
ipb = 16

abbrev pub ndirect : ℕ
ndirect = 12

abbrev pub nindirect : ℕ
nindirect = 256

abbrev pub maxfile : ℕ
maxfile = 268

abbrev pub ninode : ℕ
ninode = 50

-- The bytes of a block.
abbrev pub Bytes : Type 0
Bytes = ℕ → ℕ

-- `struct inode`; the `short` fields are bit patterns below 2 ^ 16.
pub record Inode : Type 0 where
  pub dev : ℕ
  pub inum : ℕ
  pub refs : ℕ
  pub lock : Sleeplock
  pub valid : Bool
  pub type : ℕ
  pub major : ℕ
  pub minor : ℕ
  pub nlink : ℕ
  pub size : ℕ
  pub addrs : ℕ → ℕ

-- The disk, the calls of log_write, the newest first, the fields of the superblock that are used,
-- and the table of inodes.
pub record Fs : Type 0 where
  pub block : ℕ → Bytes
  pub logged : List ℕ
  pub size : ℕ
  pub ninodes : ℕ
  pub inodestart : ℕ
  pub bmapstart : ℕ
  pub inode : ℕ → Inode

-- The bytes of a block change, and log_write(bp).
unfoldable pub write_block : ℕ → Bytes → Fs → Fs
write_block b v s = record s { block = update s.block b v; logged = b ∷ s.logged }

abbrev pub bblock : ℕ → Fs → ℕ
bblock b s = b / bpb + s.bmapstart

abbrev pub iblock : ℕ → Fs → ℕ
iblock i s = i / ipb + s.inodestart
