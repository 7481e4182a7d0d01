-- ===== src/Log/Head.antt =====
-- The header block of kernel/log.c: `read_head` and `write_head`.
use minios.Base.{
  ℕ, zero, suc, ◌+◌, ◌-◌, ◌<◌, ◌≡◌, refl, false, ◌&&◌, ltb, leb, ◌==◌, if◌then◌else◌, arith, ◌∷◌,
}
use minios.Store.{Block, contents, update}
use minios.Log.{Log, read_loop, read_head, head_loop, write_head}

pub read_loop_lem :
    (k i : ℕ) (lh : Block) (block : ℕ → ℕ) (j : ℕ)
    → read_loop k i lh block j ≡ (if leb i j && ltb j (i + k) then lh (j + 1) else block j)
unfolding read_loop
read_loop_lem zero i lh block j = ground arith
read_loop_lem (suc k) i lh block j =
    ground (arith, read_loop_lem k (i + 1) lh (update block i (lh (i + 1))) j)

head_loop_lem :
    (k i : ℕ) (block : ℕ → ℕ) (hb : Block) (w : ℕ)
    → head_loop k i block hb w ≡ (if ltb i w && leb w (i + k) then block (w - 1) else hb w)
unfolding head_loop
head_loop_lem zero i block hb w = ground arith
head_loop_lem (suc k) i block hb w =
    ground (arith, head_loop_lem k (i + 1) block (update hb (i + 1) (block i)) w)

module _ (g : Log) where
  pub read_head-n : (read_head g).n ≡ contents g.store g.start 0
  unfolding read_head
  read_head-n = ground arith

  pub read_head-block :
      (j : ℕ)
      → j < contents g.store g.start 0
      → (read_head g).block j ≡ contents g.store g.start (j + 1)
  unfolding read_head
  read_head-block j h =
      let lh = contents g.store g.start in ground (arith, read_loop_lem (lh 0) 0 lh g.block j)

  pub read_head-contents : (b : ℕ) → contents (read_head g).store b ≡ contents g.store b
  unfolding read_head
  read_head-contents b = ground arith

  pub read_head-store :
      ((read_head g).store.disk ≡ g.store.disk)
      × ((read_head g).store.history ≡ g.store.history)
      × ((read_head g).start ≡ g.start)
  unfolding read_head
  read_head-store = (refl, refl, refl)

  -- The words of the header block that `write_head` writes.
  pub write_head-words :
      (w : ℕ)
      → (write_head g).store.disk g.start w ≡ (
          if w == 0 then g.n else if leb w g.n then g.block (w - 1) else contents g.store g.start w)
  unfolding write_head
  write_head-words w =
      ground (arith, head_loop_lem g.n 0 g.block (update (contents g.store g.start) 0 g.n) w)

  pub write_head-disk :
      (b : ℕ) → (b == g.start) ≡ false → (write_head g).store.disk b ≡ g.store.disk b
  unfolding write_head
  write_head-disk b h = ground arith

  pub write_head-contents :
      (b : ℕ) → (b == g.start) ≡ false → contents (write_head g).store b ≡ contents g.store b
  unfolding write_head
  write_head-contents b h = ground arith

  pub write_head-refcnt : (b : ℕ) → (write_head g).store.refcnt b ≡ g.store.refcnt b
  unfolding write_head
  write_head-refcnt b = ground arith

  pub write_head-rest :
      ((write_head g).store.history ≡ (write_head g).store.disk ∷ g.store.history)
      × ((write_head g).start ≡ g.start)
      × ((write_head g).n ≡ g.n)
      × ((write_head g).block ≡ g.block)
  unfolding write_head
  write_head-rest = (refl, refl, refl, refl)
