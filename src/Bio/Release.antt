-- ===== src/Bio/Release.antt =====
-- What brelse of kernel/bio.c does to the cache.
use minios.Base.{
  ℕ, ◌+◌, ◌<◌, ◌≡◌, ◌≢◌, refl, sym, subst, List, ◌∷◌, ◌++◌, Bool, true, false, ◌==◌, if◌then◌else◌,
  arith, Bool-cases, inl, inr,
}
use minios.Kern.{ok, panic}
use minios.Sleeplock.{releasesleep, holdingsleep}
use minios.Bio.{Bcache, link, unlink, set_buf, bunpin, bwrite, to_front, brelse}
use minios.Bio.Ring.{IsRing, moved-IsRing}

to_front-buf : (b : ℕ) (s : Bcache) → (to_front b s).buf ≡ s.buf
unfolding to_front link unlink
to_front-buf b s = elim (Bool-cases ((s.buf b).refcnt == 0)) [
  | inl e ↦ rw e refl
  | inr e ↦ rw e refl
]

to_front-IsRing :
    (b : ℕ) (ys zs : List ℕ) (s : Bcache) (last : Bool)
    → IsRing s (ys ++ b ∷ zs)
    → ((s.buf b).refcnt == 0) ≡ last
    → IsRing (to_front b s) (if last then b ∷ (ys ++ zs) else ys ++ b ∷ zs)
unfolding to_front
to_front-IsRing b ys zs s true r e = rw e (moved-IsRing s ys b zs r)
to_front-IsRing b ys zs s false r e = rw e r

unfoldable released : ℕ → Bcache → Bcache
released b s = let v = s.buf b in bunpin b (set_buf b (record v { lock = releasesleep v.lock }) s)

released_lem :
    (b : ℕ) (s : Bcache)
    → 0 < (s.buf b).refcnt
    → (((released b s).buf b).refcnt + 1 ≡ (s.buf b).refcnt)
      × (((released b s).buf b).lock.locked ≡ false)
unfolding released bunpin releasesleep
released_lem b s pos = (ground arith, ground arith)

released_others : (b c : ℕ) (s : Bcache) → c ≢ b → (released b s).buf c ≡ s.buf c
unfolding released bunpin
released_others b c s ne = ground arith

released-IsRing : (b : ℕ) (s : Bcache) (xs : List ℕ) → IsRing s xs → IsRing (released b s) xs
unfolding released bunpin
released-IsRing b s xs r = record {
  linked = r.linked;
  apart = r.apart;
  distinct = r.distinct;
  most = r.most;
}

-- brelse by the holder of a buffer of the ring: the buffer has one reference less and its lock is
-- free; when that was the last reference it becomes the most recently used one, and else the ring
-- is as before; the other buffers are unchanged.
pub brelse_lem :
    (me b : ℕ) (ys zs : List ℕ) (s : Bcache)
    → IsRing s (ys ++ b ∷ zs)
    → holdingsleep me (s.buf b).lock ≡ true
    → 0 < (s.buf b).refcnt
    → (t : Bcache) × (brelse me b s ≡ ok tt t)
      × IsRing t (if (s.buf b).refcnt == 1 then b ∷ (ys ++ zs) else ys ++ b ∷ zs)
      × ((t.buf b).refcnt + 1 ≡ (s.buf b).refcnt)
      × ((t.buf b).lock.locked ≡ false)
      × ((c : ℕ) → c ≢ b → t.buf c ≡ s.buf c)
unfolding brelse released
brelse_lem me b ys zs s r held pos =
    let t = released b s in
    let (fewer, free) = released_lem b s pos in
    let same = to_front-buf b t in
    (
      to_front b t,
      rw held refl,
      to_front-IsRing b ys zs t ((s.buf b).refcnt == 1) (released-IsRing b s (ys ++ b ∷ zs) r)
          (ground (arith, released_lem b s pos)),
      subst (λ f. (f b).refcnt + 1 ≡ (s.buf b).refcnt) (sym same) fewer,
      subst (λ f. (f b).lock.locked ≡ false) (sym same) free,
      λ c ne. subst (λ f. f c ≡ s.buf c) (sym same) (released_others b c s ne),
    )

-- brelse and bwrite panic for a process that does not hold the buffer.
pub not_held_panics :
    (me b : ℕ) (s : Bcache)
    → holdingsleep me (s.buf b).lock ≡ false
    → (brelse me b s ≡ panic) × (bwrite me b s ≡ panic)
unfolding brelse bwrite
not_held_panics me b s h = (rw h refl, rw h refl)
