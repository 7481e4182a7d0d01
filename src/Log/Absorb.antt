-- ===== src/Log/Absorb.antt =====
-- log_write of kernel/log.c: which blocks the transaction names afterwards.
use minios.Base.{
  ℕ, zero, suc, ◌+◌, ◌≤◌, ◌<◌, ◌≡◌, ◌≢◌, ◌↔◌, ◌⊎◌, inl, inr, ◌==◌, if◌then◌else◌, arith, Bool-cases,
  ◌&&◌,
}
use minios.Kern.{ok}
use minios.Log.{Log, log_write, find_block}

-- The transaction names block `a`.
abbrev pub Named : Log → ℕ → Type 0
Named g a = (i : ℕ) × (i < g.n) × (g.block i ≡ a)

-- No block is named twice.
abbrev pub IsDistinct : Log → Type 0
IsDistinct g = (i j : ℕ) → i < g.n → j < g.n → g.block i ≡ g.block j → i ≡ j

-- The loop stops at the first index from `i` on that names `b`, or behind the last one.
find_block_lem :
    (k i : ℕ) (block : ℕ → ℕ) (b : ℕ)
    → let r = find_block k i block b in
      (i ≤ r) × (r ≤ i + k) × (r < i + k → block r ≡ b) × ((j : ℕ) → i ≤ j → j < r → block j ≢ b)
unfolding find_block
find_block_lem zero i block b =
    (omega arith, omega arith, λ h. absurd (omega arith), λ j lo hi. absurd (omega arith))
find_block_lem (suc k) i block b =
    let ih = find_block_lem k (i + 1) block b in
    elim (Bool-cases (block i == b)) [
      | inl hit ↦
          rw hit (omega arith, omega arith, λ h. ground arith, λ j lo hi. absurd (omega arith))
      | inr miss ↦
          let far : (j : ℕ) → i ≤ j → j < find_block k (i + 1) block b → block j ≢ b = (λ j lo hi.
            elim (Bool-cases (i == j)) [
              | inl e ↦ ground arith
              | inr ne ↦ ih.3 j (ground arith) hi
            ]) in
          rw miss (omega arith, omega arith, λ h. ih.2 (omega arith), far)
    ]

module _ (g : Log) (b : ℕ) {h : Log} (done : log_write b g ≡ ok tt h) where
  abbrev place : ℕ
  place = find_block g.n 0 g.block b

  abbrev found :
      (place ≤ g.n) × (place < g.n → g.block place ≡ b) × ((j : ℕ) → j < place → g.block j ≢ b)
  found =
      let r = find_block_lem g.n 0 g.block b in
      (omega (arith, r.1), λ h. r.2 (omega arith), λ j lt. r.3 j (omega arith) lt)

  after :
      ((a : ℕ) → h.block a ≡ (if a == place then b else g.block a))
      × (h.n ≡ (if place == g.n then g.n + 1 else g.n))
      × ((a : ℕ)
          → h.store.refcnt a
            ≡ (if (a == b) && (place == g.n) then g.store.refcnt a + 1 else g.store.refcnt a))
  unfolding log_write
  after = (λ a. ground arith, ground arith, λ a. ground arith)

  -- An index of the new log that holds `b` is the one just written.
  only_place : IsDistinct g → (j : ℕ) → j < h.n → h.block j ≡ b → j ≡ place
  only_place distinct j hj e =
      let (at, count, refs) = after in
      let (in_range, hit, before) = found in
      elim (Bool-cases (j == place)) [
        | inl same ↦ ground arith
        | inr other ↦ elim (Bool-cases (place == g.n)) [
          | inl new ↦ absurd (before j (ground arith) (ground (arith, at j)))
          | inr old ↦ distinct j place (ground arith) (ground arith) (ground (arith, at j))
        ]
      ]

  same_index : IsDistinct g → (i j : ℕ) → i < h.n → j < h.n → h.block i ≡ h.block j → i ≡ j
  same_index distinct i j hi hj e =
      let (at, count, refs) = after in
      elim (Bool-cases (i == place)) [
        | inl here ↦ ground (arith, at i, only_place distinct j hj)
        | inr away ↦ elim (Bool-cases (j == place)) [
          | inl there ↦ ground (arith, at j, only_place distinct i hi)
          | inr apart ↦ distinct i j (ground arith) (ground arith) (ground (arith, at i, at j))
        ]
      ]

  -- A log_write that returns adds its block to those that the transaction names, and no other; a
  -- block that was named already is absorbed, so that no block comes to be named twice; and it
  -- references the block's buffer once more exactly when the name is new.
  pub log_write_lem :
      IsDistinct g
      → (a : ℕ)
      → (Named h a ↔ ((a ≡ b) ⊎ Named g a))
        × IsDistinct h
        × (h.store.refcnt a
            ≡ (if (a == b) && (h.n == (g.n + 1)) then g.store.refcnt a + 1 else g.store.refcnt a))
  log_write_lem distinct a =
      let (at, count, refs) = after in
      let (in_range, hit, before) = found in
      (
        (
          λ x. elim (Bool-cases (x.0 == place)) [
            | inl e ↦ inl (ground (arith, at x.0))
            | inr e ↦ inr (x.0, ground (arith), ground (arith, at x.0))
          ],
          λ x. elim x [
            | inl e ↦ (place, ground (arith), ground (arith, at place))
            | inr y ↦ (y.0, ground (arith), ground (arith, at y.0))
          ],
        ),
        same_index distinct,
        ground (arith, refs a),
      )
