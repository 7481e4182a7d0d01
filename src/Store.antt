-- ===== src/Store.antt =====
-- The disk behind the buffer cache, as the clients of kernel/bio.c see it: the contents that the
-- device holds, the contents of the cached blocks, and how often each block is referenced. The
-- history lists the disks that the device has held, the newest first: a crash leaves one of them.
pub mod Laws
use minios.Base.{ℕ, ◌-◌, ◌+◌, ◌^◌, Option, none, some, List, ◌∷◌, ◌==◌, if◌then◌else◌}

-- The words of a block, by their index.
abbrev pub Block : Type 0
Block = ℕ → ℕ

abbrev pub Disk : Type 0
Disk = ℕ → Block

abbrev pub update : {A : Type 0} → (ℕ → A) → ℕ → A → ℕ → A
update f k v j = if j == k then v else f j

pub record Store : Type 0 where
  pub disk : Disk
  pub cached : ℕ → Option Block
  pub refcnt : ℕ → ℕ
  pub history : List Disk

-- refcnt is a uint.
abbrev pub dec : ℕ → ℕ
dec r = if r == 0 then 2 ^ 32 - 1 else r - 1

abbrev pub or_disk : Option Block → Block → Block
or_disk none d = d
or_disk (some c) d = c

-- What bp->data holds when block `b` is read.
unfoldable pub contents : Store → ℕ → Block
contents s b = or_disk (s.cached b) (s.disk b)

-- A referenced buffer that holds the block's contents.
unfoldable pub bread : Store → ℕ → Store
unfolding contents
bread s b = record s {
  cached = update s.cached b (some (contents s b));
  refcnt = update s.refcnt b (s.refcnt b + 1);
}

-- The caller writes bp->data.
unfoldable pub put : Store → ℕ → Block → Store
put s b v = record s { cached = update s.cached b (some v) }

-- The buffer goes to the disk. One block is written at once or not at all.
unfoldable pub bwrite : Store → ℕ → Store
unfolding contents
bwrite s b =
    let d = update s.disk b (contents s b) in record s { disk = d; history = d ∷ s.history }

unfoldable pub bpin : Store → ℕ → Store
bpin s b = record s { refcnt = update s.refcnt b (s.refcnt b + 1) }

unfoldable pub bunpin : Store → ℕ → Store
bunpin s b = record s { refcnt = update s.refcnt b (dec (s.refcnt b)) }

-- The buffer stays cached until `bget` recycles it, which it may once nothing refers to it.
unfoldable pub brelse : Store → ℕ → Store
brelse s b = record s { refcnt = update s.refcnt b (dec (s.refcnt b)) }

-- `bget` recycles the buffer of a block that nothing refers to.
unfoldable pub recycle : Store → ℕ → Store
recycle s b = if s.refcnt b == 0 then record s { cached = update s.cached b none } else s
