-- ===== src/Virtio.antt =====
-- kernel/virtio_disk.c: the descriptors of the disk's queue and the requests in them. A routine is
-- a section under `vdisk_lock`; the device enters by what it writes: the status of a request and
-- the ring of the requests that are done.
pub mod Alloc
pub mod Chain
use minios.Base.{
  ℕ, zero, suc, ◌+◌, ◌-◌, ◌*◌, ◌/◌, ◌%◌, ◌^◌, Bool, true, false, not, ◌||◌, Option, none, some,
  List, [], ◌∷◌, leb, ◌==◌, if◌then◌else◌,
}
use minios.Kern.{Outcome, ok, asleep, panic, Cmd, and_then, pure}
use minios.Store.{update}

abbrev pub num : ℕ
num = 8

abbrev pub bsize : ℕ
bsize = 1024

pub record Desc : Type 0 where
  pub addr : ℕ
  pub len : ℕ
  pub flags : ℕ
  pub next : ℕ

pub record BlkReq : Type 0 where
  pub type : ℕ
  pub reserved : ℕ
  pub sector : ℕ

-- `info_buf` and `status` are disk.info, `ring` and `avail_idx` are disk.avail, `disk` is the field
-- of that name of each buffer. `woken` has the channels of wakeup(), `none` for &disk.free[0].
pub record Disk : Type 0 where
  pub free : ℕ → Bool
  pub desc : ℕ → Desc
  pub ops : ℕ → BlkReq
  pub info_buf : ℕ → Option ℕ
  pub status : ℕ → ℕ
  pub ring : ℕ → ℕ
  pub avail_idx : ℕ
  pub used_idx : ℕ
  pub disk : ℕ → ℕ
  pub woken : List (Option ℕ)

-- The loop of alloc_desc from `i` on, `n` descriptors left.
unfoldable pub find_desc : ℕ → ℕ → (ℕ → Bool) → Option ℕ
find_desc zero i free = none
find_desc (suc n) i free = let rest = find_desc n (i + 1) free in if free i then some i else rest

abbrev pub use_desc : ℕ → Disk → Disk
use_desc i d = record d { free = update d.free i false }

unfoldable pub take_desc : Option ℕ → Disk → Option ℕ × Disk
take_desc none d = (none, d)
take_desc (some i) d = (some i, use_desc i d)

unfoldable pub alloc_desc : Disk → Option ℕ × Disk
alloc_desc d = take_desc (find_desc num 0 d.free) d

abbrev pub no_desc : Desc
no_desc = record { addr = 0; len = 0; flags = 0; next = 0 }

abbrev pub clear_desc : ℕ → Disk → Disk
clear_desc i d = record d {
  desc = update d.desc i no_desc;
  free = update d.free i true;
  woken = none ∷ d.woken;
}

unfoldable pub free_desc : ℕ → Cmd Disk (Unit {0})
free_desc i d = if leb num i || d.free i then panic else ok tt (clear_desc i d)

-- The loop of free_chain on `fuel` rounds. Every round frees one more descriptor, and free_desc()
-- panics on one that is free.
unfoldable pub chain_loop : ℕ → ℕ → Cmd Disk (Unit {0})
chain_loop zero i d = panic
chain_loop (suc fuel) i d = and_then (free_desc i d) (λ _ t.
    let rest = chain_loop fuel (d.desc i).next t in
    if (d.desc i).flags % 2 == 1 then rest else ok tt t)

unfoldable pub free_chain : ℕ → Cmd Disk (Unit {0})
free_chain i d = chain_loop (num + 1) i d

-- The three rounds of alloc3_desc, from the last; a round that finds no descriptor gives back
-- those of the rounds before it.
unfoldable pub alloc_third : ℕ → ℕ → Option ℕ × Disk → Outcome Disk (Option (ℕ × ℕ × ℕ))
alloc_third i0 i1 (none, d) =
    and_then (free_desc i0 d) (λ _ t. and_then (free_desc i1 t) (λ _. pure none))
alloc_third i0 i1 (some i2, d) = ok (some (i0, i1, i2)) d

unfoldable pub alloc_second : ℕ → Option ℕ × Disk → Outcome Disk (Option (ℕ × ℕ × ℕ))
alloc_second i0 (none, d) = and_then (free_desc i0 d) (λ _. pure none)
alloc_second i0 (some i1, d) = alloc_third i0 i1 (alloc_desc d)

unfoldable pub alloc_first : Option ℕ × Disk → Outcome Disk (Option (ℕ × ℕ × ℕ))
alloc_first (none, d) = ok none d
alloc_first (some i0, d) = alloc_second i0 (alloc_desc d)

unfoldable pub alloc3_desc : Cmd Disk (Option (ℕ × ℕ × ℕ))
alloc3_desc d = alloc_first (alloc_desc d)

-- Where the fields are that the device is told of: &disk.ops[i], b->data, &disk.info[i].status.
pub record Places : Type 0 where
  pub ops_at : ℕ → ℕ
  pub data_at : ℕ → ℕ
  pub status_at : ℕ → ℕ

-- The chain of the three descriptors. The flags are NEXT, 1, and WRITE, 2.
abbrev pub head_desc : Places → ℕ → ℕ → Desc
head_desc p i0 i1 = record { addr = p.ops_at i0; len = 16; flags = 1; next = i1 }

abbrev pub data_desc : Places → Bool → ℕ → ℕ → Desc
data_desc p write b i2 = record {
  addr = p.data_at b;
  len = bsize;
  flags = if write then 1 else 3;
  next = i2;
}

abbrev pub status_desc : Places → ℕ → Desc
status_desc p i0 = record { addr = p.status_at i0; len = 1; flags = 2; next = 0 }

abbrev pub chain : Places → Bool → ℕ → ℕ × ℕ × ℕ → (ℕ → Desc) → ℕ → Desc
chain p write b (i0, i1, i2) desc =
    let first = update desc i0 (head_desc p i0 i1) in
    let second = update first i1 (data_desc p write b i2) in update second i2 (status_desc p i0)

-- `blockno` is a uint, and so is blockno * (BSIZE / 512).
abbrev pub blk_req : Bool → ℕ → BlkReq
blk_req write blockno = record {
  type = if write then 1 else 0;
  reserved = 0;
  sector = blockno * (bsize / 512) % 2 ^ 32;
}

unfoldable pub post : Places → Bool → ℕ → ℕ → ℕ × ℕ × ℕ → Disk → Disk
post p write b blockno (i0, i1, i2) d = record d {
  ops = update d.ops i0 (blk_req write blockno);
  desc = chain p write b (i0, i1, i2) d.desc;
  status = update d.status i0 255;
  disk = update d.disk b 1;
  info_buf = update d.info_buf i0 (some b);
  ring = update d.ring (d.avail_idx % num) i0;
  avail_idx = (d.avail_idx + 1) % 2 ^ 16;
}

-- virtio_disk_rw up to the notice to the device: it sleeps while there are not three descriptors,
-- and else the first of them heads the chain.
unfoldable pub post_with : Places → Bool → ℕ → ℕ → Option (ℕ × ℕ × ℕ) → Cmd Disk ℕ
post_with p write b blockno none d = asleep d
post_with p write b blockno (some (i0, i1, i2)) d = ok i0 (post p write b blockno (i0, i1, i2) d)

unfoldable pub submit : Places → Bool → ℕ → ℕ → Cmd Disk ℕ
submit p write b blockno d = and_then (alloc3_desc d) (post_with p write b blockno)

-- virtio_disk_rw from while(b->disk == 1) on, with i0 for idx[0].
unfoldable pub finish : ℕ → ℕ → Cmd Disk (Unit {0})
finish b i0 d =
    if d.disk b == 1
    then asleep d
    else free_chain i0 (record d { info_buf = update d.info_buf i0 none })

-- b->disk = 0; wakeup(b); a null `b` is a fault.
unfoldable pub done : Option ℕ → Cmd Disk (Unit {0})
done none d = panic
done (some b) d = ok tt (record d {
  disk = update d.disk b 0;
  woken = some b ∷ d.woken;
  used_idx = (d.used_idx + 1) % 2 ^ 16;
})

-- The loop of virtio_disk_intr with `n` entries of the used ring left, `ids` the ring.
unfoldable pub intr_loop : (ℕ → ℕ) → ℕ → Cmd Disk (Unit {0})
intr_loop ids zero d = ok tt d
intr_loop ids (suc n) d =
    let id = ids (d.used_idx % num) in
    let rest = and_then (done (d.info_buf id) d) (λ _. intr_loop ids n) in
    if not (d.status id == 0) then panic else rest

-- `index` is disk.used->idx where the loop ends, a uint16 as used_idx is: the device may move it on
-- meanwhile, and what it adds behind that is left to the next interrupt.
unfoldable pub virtio_disk_intr : (ℕ → ℕ) → ℕ → Cmd Disk (Unit {0})
virtio_disk_intr ids index d = intr_loop ids ((index + (2 ^ 16 - d.used_idx)) % 2 ^ 16) d
