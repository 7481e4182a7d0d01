-- ===== src/Log/Copy.antt =====
-- The two copying loops of kernel/log.c: `write_log` fills the log blocks, and `install_trans` takes
-- them home.
use minios.Base.{
  ℕ, zero, suc, ◌+◌, ◌-◌, ◌≤◌, ◌<◌, ◌≡◌, ◌⊎◌, inl, inr, refl, Bool, false, ◌&&◌, ltb, leb, ◌==◌,
  if◌then◌else◌, arith, Bool-cases, ◌∷◌, Option, none, some, Option-cases, All, ◌∙◌, subst, sym,
  fun_ext, ◌||◌,
}
use minios.Store.{Block, Disk, Store, contents, dec}
use minios.Log.{install_one, install_loop, write_one, write_loop}

module _ (start : ℕ) (block : ℕ → ℕ) (tail : ℕ) (s : Store) where
  write_one-contents :
      (b : ℕ)
      → contents (write_one start block tail s) b
        ≡ (if b == (start + tail + 1) then contents s (block tail) else contents s b)
  unfolding write_one
  write_one-contents b = ground arith

  write_one-disk :
      (b : ℕ)
      → (write_one start block tail s).disk b
        ≡ (if b == (start + tail + 1) then contents s (block tail) else s.disk b)
  unfolding write_one
  write_one-disk b = ground arith

  write_one-history :
      (write_one start block tail s).history ≡ (write_one start block tail s).disk ∷ s.history
  unfolding write_one
  write_one-history = refl

  write_one-refcnt : (b : ℕ) → (write_one start block tail s).refcnt b ≡ s.refcnt b
  unfolding write_one
  write_one-refcnt b = ground arith

module _ (r : Bool) (start : ℕ) (block : ℕ → ℕ) (tail : ℕ) (s : Store) where
  install_one-contents :
      (b : ℕ)
      → contents (install_one r start block tail s) b
        ≡ (if b == block tail then contents s (start + tail + 1) else contents s b)
  unfolding install_one
  install_one-contents b = ground arith

  install_one-disk :
      (b : ℕ)
      → (install_one r start block tail s).disk b
        ≡ (if b == block tail then contents s (start + tail + 1) else s.disk b)
  unfolding install_one
  install_one-disk b = ground arith

  install_one-history :
      (install_one r start block tail s).history
      ≡ (install_one r start block tail s).disk ∷ s.history
  unfolding install_one
  install_one-history = ground arith

  -- During a commit the buffer that `log_write` pinned loses one reference.
  install_one-refcnt :
      (b : ℕ)
      → (install_one r start block tail s).refcnt b
        ≡ (if r then s.refcnt b else if b == block tail then dec (s.refcnt b) else s.refcnt b)
  unfolding install_one
  install_one-refcnt b = ground arith

-- The block `b` is one of the log blocks for the indices from `t` on, `k` of them.
abbrev pub in_log : ℕ → ℕ → ℕ → ℕ → Bool
in_log start t k b = ltb (start + t) b && leb b (start + t + k)

-- A block outside the log's area of `size` blocks at `start`.
abbrev pub Home : ℕ → ℕ → ℕ → Type 0
Home start size b = (b < start) ⊎ (start + size ≤ b)

-- What a disk holds outside the log's area, as the file system sees it.
abbrev pub home_view : ℕ → ℕ → (ℕ → Block) → ℕ → Block
home_view start size d b = if ltb b start || leb (start + size) b then d b else λ _. 0

pub home_view-eq :
    (start size : ℕ) (d e : ℕ → Block)
    → ((b : ℕ) → Home start size b → d b ≡ e b)
    → home_view start size d ≡ home_view start size e
home_view-eq start size d e same = fun_ext λ b.
    elim (Bool-cases (ltb b start || leb (start + size) b)) [
      | inl home ↦ rw home (same b (ground arith))
      | inr log ↦ rw log
    ]

-- The last of the indices from `t` on, `k` of them, at which the header names `b`.
abbrev pub slot : (ℕ → ℕ) → ℕ → ℕ → ℕ → Option ℕ
slot block zero t b = none
slot block (suc k) t b = elim (slot block k (t + 1) b) [
  | some i ↦ some i
  | none ↦ if b == block t then some t else none
]

abbrev pub pick : Option ℕ → (ℕ → Block) → Block → Block
pick none f d = d
pick (some i) f d = f i

module _ (start size : ℕ) (block : ℕ → ℕ) where
  pub write_loop-contents :
      (k t : ℕ) (s : Store)
      → t + k < size
      → ((i : ℕ) → i < t + k → Home start size (block i))
      → (b : ℕ)
      → contents (write_loop k t start block s) b
        ≡ (if in_log start t k b then contents s (block (b - start - 1)) else contents s b)
  unfolding write_loop
  write_loop-contents zero t s fit home b = ground arith
  write_loop-contents (suc k) t s fit home b =
      let s1 = write_one start block t s in
      let ih = write_loop-contents k (t + 1) s1 (omega arith) (λ i h. home i (omega arith)) b in
      ground (
        arith,
        ih,
        write_one-contents start block t s (block (b - start - 1)),
        write_one-contents start block t s b,
        home (b - start - 1),
      )

  pub write_loop-disk :
      (k t : ℕ) (s : Store)
      → t + k < size
      → ((i : ℕ) → i < t + k → Home start size (block i))
      → (b : ℕ)
      → (write_loop k t start block s).disk b
        ≡ (if in_log start t k b then contents s (block (b - start - 1)) else s.disk b)
  unfolding write_loop
  write_loop-disk zero t s fit home b = ground arith
  write_loop-disk (suc k) t s fit home b =
      let s1 = write_one start block t s in
      let ih = write_loop-disk k (t + 1) s1 (omega arith) (λ i h. home i (omega arith)) b in
      ground (
        arith,
        ih,
        write_one-contents start block t s (block (b - start - 1)),
        write_one-disk start block t s b,
        home (b - start - 1),
      )

  -- Every disk on the way differs from the first only in the log blocks of the indices.
  pub write_loop-history :
      (k t : ℕ) (s : Store) (P : Disk → Type 0)
      → ((d : Disk) → ((b : ℕ) → in_log start t k b ≡ false → d b ≡ s.disk b) → P d)
      → All P s.history
      → All P (write_loop k t start block s).history
  unfolding write_loop
  write_loop-history zero t s P keep h = h
  write_loop-history (suc k) t s P keep h =
      let s1 = write_one start block t s in
      let near : (b : ℕ) → in_log start t (suc k) b ≡ false → s1.disk b ≡ s.disk b =
        (λ b out. ground (arith, write_one-disk start block t s b)) in
      write_loop-history k (t + 1) s1 P
        (λ d same. keep d λ b out. same b (ground arith) ∙ near b out)
        (subst (All P) (sym (write_one-history start block t s)) (keep s1.disk near, h))

  pub write_loop-refcnt :
      (k t : ℕ) (s : Store) (b : ℕ) → (write_loop k t start block s).refcnt b ≡ s.refcnt b
  unfolding write_loop
  write_loop-refcnt zero t s b = refl
  write_loop-refcnt (suc k) t s b =
      write_loop-refcnt k (t + 1) (write_one start block t s) b ∙ write_one-refcnt start block t s b

  pub slot-bounds :
      (k t b : ℕ) {i : ℕ} → slot block k t b ≡ some i → (t ≤ i) × (i < t + k) × (block i ≡ b)
  slot-bounds zero t b h = absurd (cc)
  slot-bounds (suc k) t b h = elim (Option-cases (slot block k (t + 1) b)) [
    | inl miss ↦ ground (arith)
    | inr (j, hit) ↦ ground (arith, slot-bounds k (t + 1) b hit)
  ]

  pub install_loop-contents :
      (r : Bool) (k t : ℕ) (s : Store)
      → t + k < size
      → ((i : ℕ) → i < t + k → Home start size (block i))
      → (b : ℕ)
      → contents (install_loop k t r start block s) b
        ≡ pick (slot block k t b) (λ i. contents s (start + i + 1)) (contents s b)
  unfolding install_loop
  install_loop-contents r zero t s fit home b = refl
  install_loop-contents r (suc k) t s fit home b =
      let s1 = install_one r start block t s in
      let ih = install_loop-contents r k (t + 1) s1 (omega arith) (λ i h. home i (omega arith)) b in
      elim (Option-cases (slot block k (t + 1) b)) [
        | inl miss ↦ ground (arith, ih, install_one-contents r start block t s b)
        | inr (j, hit) ↦ ground (
          arith,
          ih,
          slot-bounds k (t + 1) b hit,
          home t,
          install_one-contents r start block t s (start + j + 1),
        )
      ]

  pub install_loop-disk :
      (r : Bool) (k t : ℕ) (s : Store)
      → t + k < size
      → ((i : ℕ) → i < t + k → Home start size (block i))
      → (b : ℕ)
      → (install_loop k t r start block s).disk b
        ≡ pick (slot block k t b) (λ i. contents s (start + i + 1)) (s.disk b)
  unfolding install_loop
  install_loop-disk r zero t s fit home b = refl
  install_loop-disk r (suc k) t s fit home b =
      let s1 = install_one r start block t s in
      let ih = install_loop-disk r k (t + 1) s1 (omega arith) (λ i h. home i (omega arith)) b in
      elim (Option-cases (slot block k (t + 1) b)) [
        | inl miss ↦ ground (arith, ih, install_one-disk r start block t s b)
        | inr (j, hit) ↦ ground (
          arith,
          ih,
          slot-bounds k (t + 1) b hit,
          home t,
          install_one-contents r start block t s (start + j + 1),
        )
      ]

  -- Every disk on the way differs from the first only in blocks that the header names.
  pub install_loop-history :
      (r : Bool) (k t : ℕ) (s : Store) (P : Disk → Type 0)
      → ((d : Disk) → ((b : ℕ) → slot block k t b ≡ none → d b ≡ s.disk b) → P d)
      → All P s.history
      → All P (install_loop k t r start block s).history
  unfolding install_loop
  install_loop-history r zero t s P keep h = h
  install_loop-history r (suc k) t s P keep h =
      let s1 = install_one r start block t s in
      let near : (b : ℕ) → slot block (suc k) t b ≡ none → s1.disk b ≡ s.disk b =
        (λ b out. ground (arith, install_one-disk r start block t s b)) in
      install_loop-history r k (t + 1) s1 P
        (λ d same. keep d λ b out. same b (ground arith) ∙ near b out)
        (subst (All P) (sym (install_one-history r start block t s)) (keep s1.disk near, h))
