-- ===== src/Log/Crash.antt =====
-- Crashes during `commit` and during recovery of kernel/log.c.
use minios.Base.{
  ℕ, ◌+◌, ◌-◌, ◌≤◌, ◌<◌, ◌≡◌, ◌⊎◌, inl, inr, refl, Bool, true, false, ltb, ◌==◌, if◌then◌else◌,
  arith, [], ◌∙◌, none, Option-cases, ap, subst, sym, All, lt→ltb, ltb→lt, Bool-cases,
}
use minios.Store.{Block, Disk, contents}
use minios.Log.{
  Log, read_head, install_trans, write_log, write_head, recover_from_log, initlog, commit,
}
use minios.Log.Copy.{
  Home, home_view, home_view-eq, in_log, slot, pick, slot-bounds, install_loop-history,
  write_loop-disk, write_loop-contents, write_loop-history,
}
use minios.Log.Head.{
  write_head-disk, write_head-words, write_head-rest, write_head-contents, read_head-store,
}
use minios.Log.Recover.{
  boot, after_crash, finish, Committed, installed, Loaded, fresh, fresh-Loaded,
  Committed-after_crash, after_crash-idle, finish-installed, finish-count, Loaded-slot,
}

module _ (start size n : ℕ) (block : ℕ → ℕ) (copy old : ℕ → Block) (fit : n < size)
    (home : (i : ℕ) → i < n → Home start size (block i)) where
  -- No name of the header points into the log.
  slot-log : (b : ℕ) → start ≤ b → b < start + size → slot block n 0 b ≡ none
  slot-log b lo hi = elim (Option-cases (slot block n 0 b)) [
    | inl miss ↦ miss
    | inr (i, hit) ↦
        let low = slot-bounds start size block n 0 b hit in
        ground (arith, low, home i (omega arith))
  ]

  -- Writing home blocks that the header names keeps a disk committed.
  Committed-named :
      (d e : Disk)
      → Committed start size n block copy old d
      → ((b : ℕ) → slot block n 0 b ≡ none → e b ≡ d b)
      → Committed start size n block copy old e
  Committed-named d e c same =
      let log : (b : ℕ) → start ≤ b → b < start + size → e b ≡ d b =
        (λ b lo hi. same b (slot-log b lo hi)) in
      let top : e start ≡ d start = log start (omega arith) (omega arith) in
      record {
        count = ap (λ (h : Block). h 0) top ∙ c.count;
        names = λ i h. ap (λ (h : Block). h (i + 1)) top ∙ c.names i h;
        copies = λ i h. log (start + i + 1) (omega arith) (omega arith) ∙ c.copies i h;
        rest = λ b at miss. same b miss ∙ c.rest b at miss;
      }

  -- After a crash at `e`, recovery finds every copy installed.
  abbrev pub Recovers : Disk → Type 0
  Recovers e =
      home_view start size (after_crash start size e)
      ≡ home_view start size (installed start size n block copy old)

  Committed-Recovers : (d : Disk) → Committed start size n block copy old d → Recovers d
  Committed-Recovers d c =
      home_view-eq start size _ _
        λ b at. Committed-after_crash start size n block copy old fit home d b c at

  -- The disk of `finish` has an empty header and every copy installed.
  Recovers-finish :
      (recovering : Bool) (r : Log) (k : ℕ)
      → Loaded start size n block copy old r
      → Recovers (finish recovering r size k).store.disk
  Recovers-finish recovering r k l = home_view-eq start size _ _ λ b at.
      after_crash-idle start size (finish recovering r size k).store.disk b (omega arith)
        (subst (λ a. (finish recovering r size k).store.disk a 0 ≡ 0) l.at
          (finish-count recovering r size k))
        at
      ∙ finish-installed start size n block copy old fit home recovering r b l at

  finish-history :
      (P : Disk → Type 0) (weaken : (e : Disk) → Recovers e → P e) (recovering : Bool) (r : Log)
      (k : ℕ)
      → Loaded start size n block copy old r
      → All P r.store.history
      → All P (finish recovering r size k).store.history
  unfolding install_trans
  finish-history P weaken recovering r k l past =
      let g = install_trans recovering r in
      let near : (e : Disk) → ((b : ℕ) → slot r.block r.n 0 b ≡ none → e b ≡ r.store.disk b) → P e =
        (λ e same. weaken e (
          Committed-Recovers e (
            Committed-named r.store.disk e l.disk
              λ b miss. same b (Loaded-slot start size n block copy old b l ∙ miss)))) in
      subst (All P) (sym (write_head-rest (record g { n = 0 })).0) (
        weaken _ (Recovers-finish recovering r k l),
        install_loop-history r.start size r.block recovering r.n 0 r.store P near past,
      )

  -- A crash at any point of recovery loses nothing: whatever disk it leaves, the next recovery finds
  -- every copy that the header names installed, and every other home block as it was.
  pub recovery_atomic :
      (d : Disk)
      → Committed start size n block copy old d
      → All Recovers (initlog start size (boot d)).store.history
  unfolding initlog recover_from_log
  recovery_atomic d c =
      let g = fresh start size n block copy old fit home d in
      finish-history Recovers (λ e h. h) true (read_head g) 0
        (fresh-Loaded start size n block copy old fit home d c)
        (subst (All Recovers) (sym (read_head-store g).1) (Committed-Recovers d c, tt))

-- A log that may commit: the header on the disk is empty, and the blocks that the log names lie
-- outside the log, which has room for them.
pub record CanCommit (g : Log) : Type 0 where
  pub fit : g.n < g.size
  pub home : (i : ℕ) → i < g.n → Home g.start g.size (g.block i)
  pub idle : g.store.disk g.start 0 ≡ 0

-- What the transaction leaves in block `b`: the cached contents of each block that the log names,
-- and the old contents of every other.
abbrev pub intended : Log → ℕ → Block
intended g b = pick (slot g.block g.n 0 b) (λ i. contents g.store (g.block i)) (g.store.disk b)

ltb-zero : (n : ℕ) → ltb 0 n ≡ false → 0 ≡ n
ltb-zero n h = ground arith

-- Recovery finds the home blocks as they were before the transaction.
abbrev pub OldAfter : Log → Disk → Type 0
OldAfter g e =
    home_view g.start g.size (after_crash g.start g.size e) ≡ home_view g.start g.size g.store.disk

-- Recovery finds the home blocks as the transaction leaves them.
abbrev pub NewAfter : Log → Disk → Type 0
NewAfter g e =
    home_view g.start g.size (after_crash g.start g.size e) ≡ home_view g.start g.size (intended g)

module _ (g : Log) (can : CanCommit g) where
  open can use {fit, home, idle}

  abbrev copies : ℕ → Block
  copies i = contents g.store (g.block i)

  -- Up to the write of the header, no home block and no word of the header has changed.
  record Untouched (d : Disk) : Type 0 where
    header : d g.start ≡ g.store.disk g.start
    same : (b : ℕ) → Home g.start g.size b → d b ≡ g.store.disk b

  Untouched-OldAfter : (d : Disk) → Untouched d → OldAfter g d
  Untouched-OldAfter d u = home_view-eq g.start g.size _ _ λ b at.
      after_crash-idle g.start g.size d b (omega arith) (ap (λ (h : Block). h 0) u.header ∙ idle) at
      ∙ u.same b at

  write_log-OldAfter :
      (d : Disk) → ((b : ℕ) → in_log g.start 0 g.n b ≡ false → d b ≡ g.store.disk b) → OldAfter g d
  write_log-OldAfter d same =
      Untouched-OldAfter d
        (record { header = same g.start (ground arith); same = λ b at. same b (ground arith) })

  abbrev logged : Log
  logged = write_head (write_log g)

  logged-disk :
      (b : ℕ)
      → (b == g.start) ≡ false
      → logged.store.disk b ≡ (
          if in_log g.start 0 g.n b
          then contents g.store (g.block (b - g.start - 1))
          else g.store.disk b)
  unfolding write_log
  logged-disk b ne =
      write_head-disk (write_log g) b ne
      ∙ write_loop-disk g.start g.size g.block g.n 0 g.store (omega arith)
          (λ i h. home i (omega arith)) b

  logged-contents :
      (b : ℕ)
      → (b == g.start) ≡ false
      → contents logged.store b ≡ (
          if in_log g.start 0 g.n b
          then contents g.store (g.block (b - g.start - 1))
          else contents g.store b)
  unfolding write_log
  logged-contents b ne =
      write_head-contents (write_log g) b ne
      ∙ write_loop-contents g.start g.size g.block g.n 0 g.store (omega arith)
          (λ i h. home i (omega arith)) b

  logged-Loaded : Loaded g.start g.size g.n g.block copies g.store.disk logged
  unfolding write_log
  logged-Loaded =
      let (_, at', count', names') = write_head-rest (write_log g) in
      let index : (i : ℕ) → g.start + i + 1 - g.start - 1 ≡ i = (λ i. omega arith) in
      record {
        at = at';
        count = count';
        names = λ i h. ap (λ (f : ℕ → ℕ). f i) names';
        clean =
            λ i h. ground (arith, logged-disk (g.start + i + 1), logged-contents (g.start + i + 1));
        disk = record {
          count = write_head-words (write_log g) 0;
          names = λ i h. ground (arith, write_head-words (write_log g) (i + 1));
          copies = λ i h. ground (arith, logged-disk (g.start + i + 1), index i);
          rest = λ b at miss. ground (arith, logged-disk b);
        };
      }

  commit-finish : 0 < g.n → commit g ≡ finish false logged g.size 0
  unfolding commit
  commit-finish h = rw (lt→ltb 0 g.n h)

  commit-none : ltb 0 g.n ≡ false → commit g ≡ g
  unfolding commit
  commit-none h = rw h

  -- A commit is atomic under crashes: whatever disk a crash leaves between two of its disk writes,
  -- recovery finds either every home block as it was before the transaction, or every home block as
  -- the transaction leaves it.
  pub commit_atomic :
      g.store.history ≡ [] → All (λ d. OldAfter g d ⊎ NewAfter g d) (commit g).store.history
  unfolding write_log
  commit_atomic none_yet = elim (Bool-cases (ltb 0 g.n)) [
    | inl some_blocks ↦
        let start_history = subst (All (λ d. OldAfter g d ⊎ NewAfter g d)) (sym none_yet) tt in
        subst (λ c. All (λ d. OldAfter g d ⊎ NewAfter g d) c.store.history)
          (sym (commit-finish (ltb→lt 0 g.n some_blocks)))
          (finish-history g.start g.size g.n g.block copies g.store.disk fit home
            (λ d. OldAfter g d ⊎ NewAfter g d) (λ e r. inr r) false logged 0 logged-Loaded
            (subst (All (λ d. OldAfter g d ⊎ NewAfter g d)) (sym (write_head-rest (write_log g)).0)
              (
                inr (
                    Committed-Recovers g.start g.size g.n g.block copies g.store.disk fit home
                      logged.store.disk logged-Loaded.disk),
                write_loop-history g.start g.size g.block g.n 0 g.store
                    (λ d. OldAfter g d ⊎ NewAfter g d) (λ d same. inl (write_log-OldAfter d same))
                    start_history,
              )))
    | inr no_blocks ↦
        subst (λ c. All (λ d. OldAfter g d ⊎ NewAfter g d) c.store.history)
          (sym (commit-none no_blocks))
          (subst (All (λ d. OldAfter g d ⊎ NewAfter g d)) (sym none_yet) tt)
  ]

  -- A commit ends with every block of the transaction at home on the disk, no other home block
  -- changed, and an empty header both in memory and on the disk.
  pub commit_installs :
      ((commit g).n ≡ 0)
      × ((commit g).store.disk g.start 0 ≡ 0)
      × (home_view g.start g.size (commit g).store.disk ≡ home_view g.start g.size (intended g))
  commit_installs = elim (Bool-cases (ltb 0 g.n)) [
    | inl some_blocks ↦
        let done = finish false logged g.size 0 in
        let l = logged-Loaded in
        subst
          (λ c.
            (c.n ≡ 0)
            × (c.store.disk g.start 0 ≡ 0)
            × (home_view g.start g.size c.store.disk ≡ home_view g.start g.size (intended g)))
          (sym (commit-finish (ltb→lt 0 g.n some_blocks)))
          (
            (write_head-rest (record (install_trans false logged) { n = 0 })).2,
            subst (λ a. done.store.disk a 0 ≡ 0) l.at (finish-count false logged g.size 0),
            home_view-eq g.start g.size _ _ λ b at.
                finish-installed g.start g.size g.n g.block copies g.store.disk fit home false
                  logged b l at,
          )
    | inr no_blocks ↦
        subst
          (λ c.
            (c.n ≡ 0)
            × (c.store.disk g.start 0 ≡ 0)
            × (home_view g.start g.size c.store.disk ≡ home_view g.start g.size (intended g)))
          (sym (commit-none no_blocks))
          (
            ground arith,
            idle,
            home_view-eq g.start g.size _ _ λ b at.
                subst
                  (λ k.
                    g.store.disk b
                    ≡ pick (slot g.block k 0 b) (λ i. contents g.store (g.block i))
                        (g.store.disk b))
                  (ltb-zero g.n no_blocks) refl,
          )
  ]
