-- ===== src/Tests/Fs.antt =====
-- Runs of the file system, and a witness for each theorem on kernel/fs.c.
use minios.Base.{ℕ, ◌/◌, ◌≡◌, refl, true, false, ◌&&◌, [], ◌∷◌, ◌==◌, if◌then◌else◌, arith, List}
use minios.Kern.{ok}
use minios.Sleeplock.{Sleeplock}
use minios.Fs.{Fs, Inode}
use minios.Fs.Bitmap.{balloc}
use minios.Fs.Bitmap.Alloc.{IsMapped}
use minios.Fs.Bitmap.Balloc.{BallocEnds, balloc_lem}
use minios.Fs.Itable.{iget, iupdate, read_inode}
use minios.Fs.Table.{IsTable, IgetEnds, iget_lem}
use minios.Fs.Dinode.{IsInode, SameFields, iupdate-read_inode}
use minios.Fs.Content.{bmap}
use minios.Fs.Dir
use minios.Fs.Fuel.{walk_fuel}
use minios.Fs.Mapping.{Stays, bmap_lem}
use minios.Fs.Path.{Skips, skipelem, skipelem_lem}

abbrev unlocked : Sleeplock
unlocked = record { locked = false; pid = 0; woken = 0 }

-- An inode with block 5 as its first one.
abbrev file : Inode
file = record {
  dev = 1;
  inum = 3;
  refs = 1;
  lock = unlocked;
  valid = true;
  type = 2;
  major = 0;
  minor = 0;
  nlink = 1;
  size = 600;
  addrs = λ k. if k == 0 then 5 else 0;
}

abbrev no_inode : Inode
no_inode = record file { refs = 0; valid = false; dev = 0 }

-- Eight blocks, the free map in block 1, of which blocks 0 to 2 and 5 are in use.
abbrev pub small : Fs
small = record {
  block = λ b i. if b == 1 && i == 0 then 39 else 0;
  logged = [];
  size = 8;
  ninodes = 10;
  inodestart = 2;
  bmapstart = 1;
  inode = λ i. if i == 0 then file else no_inode;
}

small-IsMapped : IsMapped small
small-IsMapped = record {
  bytes = λ b i. ground arith;
  boot = refl;
  own = λ b lt. let e : b / 8192 ≡ 0 = omega arith in rw e refl;
  inside = λ b lt. omega arith;
}

balloc_lem_example : BallocEnds small (balloc small)
balloc_lem_example = balloc_lem small small-IsMapped

small-IsTable : IsTable small
small-IsTable i j hi hj ui uj d m = ground arith

iget_lem_example : IgetEnds 1 7 small (iget 1 7 small)
iget_lem_example = iget_lem 1 7 small small-IsTable

file-IsInode : IsInode file
file-IsInode = record {
  type_fits = omega arith;
  major_fits = omega arith;
  minor_fits = omega arith;
  nlink_fits = omega arith;
  size_fits = omega arith;
  addrs_fit = λ i. ground arith;
}

iupdate-read_inode_example :
    (t : Fs) × (read_inode 4 (iupdate 0 small) ≡ ok tt t)
    × SameFields (t.inode 4) (small.inode 0)
    × ((t.inode 4).valid ≡ true)
iupdate-read_inode_example = iupdate-read_inode 0 4 small file-IsInode refl refl (omega arith)

bmap_lem_example : Stays 0 20 (bmap 0 20 small)
bmap_lem_example = bmap_lem 0 20 small small-IsMapped (omega arith) (omega arith)

-- "//a//bc"
abbrev path : List ℕ
path = 47 ∷ 47 ∷ 97 ∷ 47 ∷ 47 ∷ 98 ∷ 99 ∷ []

skipelem_lem_example : Skips path (λ i. 0) (skipelem path (λ i. 0))
skipelem_lem_example = skipelem_lem path (λ i. 0)

-- The walk along "//a//bc" from inode 0, with eight rounds and with nine.
walk_fuel_example :
    Dir.walk 9 7 false path (λ i. 0) 0 small ≡ Dir.walk 8 7 false path (λ i. 0) 0 small
walk_fuel_example = walk_fuel 8 7 false path (λ i. 0) 0 small (omega arith)
