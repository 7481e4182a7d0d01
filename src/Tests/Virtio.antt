-- ===== src/Tests/Virtio.antt =====
-- kernel/virtio_disk.c with a few requests.
use minios.Base.{ℕ, ◌+◌, ◌≡◌, refl, true, false, not, ◌&&◌, ◌||◌, none, some, [], ◌∷◌, ltb}
use minios.Kern.{ok}
use minios.Store.{update}
use minios.Virtio.{
  Disk, Places, no_desc, alloc_desc, take_desc, find_desc, alloc_first, alloc_second, alloc_third,
  alloc3_desc, post, post_with, submit, finish, done, intr_loop, virtio_disk_intr,
}
use minios.Virtio.Alloc.{AllocEnds, use_three, alloc3_desc_lem}
use minios.Virtio.Chain.{finish-submit}

-- All descriptors are free.
abbrev idle : Disk
idle = record {
  free = λ i. true;
  desc = λ i. no_desc;
  ops = λ i. record { type = 0; reserved = 0; sector = 0 };
  info_buf = λ i. none;
  status = λ i. 0;
  ring = λ i. 0;
  avail_idx = 65535;
  used_idx = 65535;
  disk = λ i. 0;
  woken = [];
}

abbrev places : Places
places = record { ops_at = λ i. 1000 + i; data_at = λ b. 5000 + b; status_at = λ i. 2000 + i }

-- Two descriptors are free.
abbrev crowded : Disk
crowded = record idle { free = λ i. ltb i 2 }

alloc3_desc_lem_example : AllocEnds crowded (alloc3_desc crowded)
alloc3_desc_lem_example = alloc3_desc_lem crowded

-- A read of block 7 into buffer 4, and the disk behind it when the device is done with it.
abbrev asked : Disk
asked = post places false 4 7 (0, 1, 2) (use_three 0 1 2 idle)

abbrev answered : Disk
answered = record asked { disk = update asked.disk 4 0; status = update asked.status 0 0 }

finish-submit_example :
    (v : Disk) × (finish 4 0 answered ≡ ok tt v)
    × ((j : ℕ) → v.free j ≡ (idle.free j && not (asked.free j) || answered.free j))
unfolding submit post_with alloc3_desc alloc_first alloc_second alloc_third alloc_desc take_desc
    find_desc post
finish-submit_example =
    finish-submit places false 4 7 idle asked answered 0 refl (λ j own taken. refl)
      (λ j own taken. taken) refl

-- The chain from its head on, and the ring at an index that wraps.
posted_chain :
    ((asked.desc 0).next ≡ 1)
    × ((asked.desc 1).flags ≡ 3)
    × ((asked.desc 2).next ≡ 0)
    × (asked.ring 7 ≡ 0)
    × (asked.avail_idx ≡ 0)
unfolding post
posted_chain = (refl, refl, refl, refl, refl)

-- The interrupt for it, with the device's index one past the driver's.
interrupted :
    virtio_disk_intr (λ i. 0) 0 (record asked { status = λ i. 0 })
    ≡ ok tt (record asked {
      status = λ i. 0;
      disk = update asked.disk 4 0;
      woken = some 4 ∷ [];
      used_idx = 0;
    })
unfolding virtio_disk_intr intr_loop done post
interrupted = refl
