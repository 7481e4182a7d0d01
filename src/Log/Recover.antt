-- ===== src/Log/Recover.antt =====
-- `initlog` of kernel/log.c after a crash: what the file system then finds on the disk.
use minios.Base.{
  ℕ, zero, suc, ◌+◌, ◌≤◌, ◌<◌, ◌≡◌, inl, inr, refl, Bool, true, false, arith, [], ◌∷◌, ◌∙◌, Option,
  none, some, Option-cases, ap, subst, sym,
}
use minios.Store.{Block, Disk, Store, contents}
use minios.Log.{Log, read_head, install_trans, write_head, recover_from_log, initlog}
use minios.Log.Copy.{Home, slot, pick, slot-bounds, install_loop-disk}
use minios.Log.Head.{
  read_head-n, read_head-block, read_head-contents, read_head-store, write_head-disk,
  write_head-words,
}

-- A machine that starts on the disk `d`: nothing is cached.
abbrev pub boot : Disk → Store
boot d = record { disk = d; cached = λ _. none; refcnt = λ _. 0; history = d ∷ [] }

-- The disk once `initlog` has run on the disk that a crash left.
abbrev pub after_crash : ℕ → ℕ → Disk → Disk
after_crash start size d = (initlog start size (boot d)).store.disk

pub slot-cong :
    (f g : ℕ → ℕ) (k t b : ℕ)
    → ((i : ℕ) → t ≤ i → i < t + k → f i ≡ g i)
    → slot f k t b ≡ slot g k t b
slot-cong f g zero t b same = refl
slot-cong f g (suc k) t b same = ground (
  arith,
  slot-cong f g k (t + 1) b (λ i lo hi. same i (omega arith) (omega arith)),
  same t (omega arith) (omega arith),
)

pub slot-all_none : (f : ℕ → ℕ) (t b : ℕ) → slot f 0 t b ≡ none
slot-all_none f t b = refl

pub pick-cong :
    (o : Option ℕ) (f g : ℕ → Block) {d e : Block}
    → ((i : ℕ) → o ≡ some i → f i ≡ g i)
    → d ≡ e
    → pick o f d ≡ pick o g e
pick-cong none f g same h = h
pick-cong (some i) f g same h = same i refl

-- Recovery behind `read_head`, and a commit behind its `write_head`: the blocks that the header in
-- memory names go home, and the header is cleared.
module _ (recovering : Bool) (r : Log) (size b : ℕ) where
  abbrev pub finish : Log
  finish = let g = install_trans recovering r in write_head (record g { n = 0 })

  finish-disk :
      r.n < size
      → ((i : ℕ) → i < r.n → Home r.start size (r.block i))
      → Home r.start size b
      → finish.store.disk b
        ≡ pick (slot r.block r.n 0 b) (λ i. contents r.store (r.start + i + 1)) (r.store.disk b)
  unfolding install_trans
  finish-disk fit home at =
      let g = install_trans recovering r in
      write_head-disk (record g { n = 0 }) b (ground arith)
      ∙ install_loop-disk r.start size r.block recovering r.n 0 r.store (omega arith)
          (λ i h. home i (omega arith)) b

  pub finish-count : finish.store.disk r.start 0 ≡ 0
  unfolding install_trans
  finish-count = let g = install_trans recovering r in write_head-words (record g { n = 0 }) 0

-- What a disk holds from the moment its header names `n` blocks until the header is cleared: the
-- header's words, the copies in the log, and the old contents wherever no name points.
pub record Committed (start size n : ℕ) (block : ℕ → ℕ) (copy old : ℕ → Block) (d : Disk)
    : Type 0 where
  pub count : d start 0 ≡ n
  pub names : (i : ℕ) → i < n → d start (i + 1) ≡ block i
  pub copies : (i : ℕ) → i < n → d (start + i + 1) ≡ copy i
  pub rest : (b : ℕ) → Home start size b → slot block n 0 b ≡ none → d b ≡ old b

module _ (start size n : ℕ) (block : ℕ → ℕ) (copy old : ℕ → Block) where
  -- What the file system finds in block `b` when the copies have been taken home.
  abbrev pub installed : ℕ → Block
  installed b = pick (slot block n 0 b) copy (old b)

  -- The header in memory and the store agree with a committed disk.
  pub record Loaded (r : Log) : Type 0 where
    pub at : r.start ≡ start
    pub count : r.n ≡ n
    pub names : (i : ℕ) → i < n → r.block i ≡ block i
    pub clean : (i : ℕ) → i < n → contents r.store (start + i + 1) ≡ r.store.disk (start + i + 1)
    pub disk : Committed start size n block copy old r.store.disk

  pub Loaded-slot : {r : Log} (b : ℕ) → Loaded r → slot r.block r.n 0 b ≡ slot block n 0 b
  Loaded-slot {r} b l =
      ap (λ k. slot r.block k 0 b) l.count
      ∙ slot-cong r.block block n 0 b (λ i lo hi. l.names i (omega arith))

  Loaded-pick :
      {r : Log} (b : ℕ)
      → Loaded r
      → Home start size b
      → pick (slot r.block r.n 0 b) (λ i. contents r.store (r.start + i + 1)) (r.store.disk b)
        ≡ installed b
  Loaded-pick {r} b l at = rw (Loaded-slot b l) (elim (Option-cases (slot block n 0 b)) [
    | inl miss ↦ rw miss (l.disk.rest b at miss)
    | inr (i, hit) ↦
        let from : r.start + i + 1 ≡ start + i + 1 = omega (arith, l.at) in
        let low = slot-bounds start size block n 0 b hit in
        rw hit
          (ap (contents r.store) from ∙ l.clean i (omega arith) ∙ l.disk.copies i (omega arith))
  ])

  module _ (fit : n < size) (home : (i : ℕ) → i < n → Home start size (block i)) where
    pub Loaded-Home : {r : Log} → Loaded r → (i : ℕ) → i < r.n → Home r.start size (r.block i)
    Loaded-Home l i h = ground (arith, l.at, l.count, l.names i, home i)

    pub finish-installed :
        (recovering : Bool) (r : Log) (b : ℕ)
        → Loaded r
        → Home start size b
        → (finish recovering r size b).store.disk b ≡ installed b
    finish-installed recovering r b l at =
        finish-disk recovering r size b (omega (arith, l.count)) (Loaded-Home l)
          (ground (arith, l.at))
        ∙ Loaded-pick b l at

    -- The log that `initlog` starts from.
    abbrev pub fresh : Disk → Log
    fresh d = record {
      locked = false;
      start = start;
      size = size;
      outstanding = 0;
      committing = false;
      n = 0;
      block = λ _. 0;
      store = boot d;
      woken = 0;
    }

    pub fresh-Loaded :
        (d : Disk) → Committed start size n block copy old d → Loaded (read_head (fresh d))
    unfolding contents
    fresh-Loaded d c =
        let g = fresh d in
        let (same, past, at') = read_head-store g in
        record {
          at = at';
          count = read_head-n g ∙ c.count;
          names = λ i h. read_head-block g i (omega (arith, c.count)) ∙ c.names i h;
          clean = λ i h.
              read_head-contents g (start + i + 1)
              ∙ sym (ap (λ (e : Disk). e (start + i + 1)) same);
          disk = subst (Committed start size n block copy old) (sym same) c;
        }

    -- Recovery from a committed disk takes every copy home.
    pub Committed-after_crash :
        (d : Disk) (b : ℕ)
        → Committed start size n block copy old d
        → Home start size b
        → after_crash start size d b ≡ installed b
    unfolding initlog recover_from_log
    Committed-after_crash d b c at =
        finish-installed true (read_head (fresh d)) b (fresh-Loaded d c) at

-- Recovery from a disk whose header names nothing changes no block but the header's own.
pub after_crash-idle :
    (start size : ℕ) (d : Disk) (b : ℕ)
    → 0 < size
    → d start 0 ≡ 0
    → Home start size b
    → after_crash start size d b ≡ d b
after_crash-idle start size d b pos idle at =
    Committed-after_crash start size 0 (λ _. 0) d d pos (λ i h. absurd (omega arith)) d b
      (record {
        count = idle;
        names = λ i h. absurd (omega arith);
        copies = λ i h. absurd (omega arith);
        rest = λ b at miss. refl;
      })
      at
