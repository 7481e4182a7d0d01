-- ===== src/Bio/Ring.antt =====
-- The buffers of kernel/bio.c are a ring through `head`, and its two scans go through all of them.
use minios.Base.{
  ℕ, zero, suc, ◌+◌, ◌<◌, ◌≤◌, ◌≡◌, ◌≢◌, refl, sym, ap, List, [], ◌∷◌, ◌++◌, Bool, false, ◌&&◌,
  ◌==◌, if◌then◌else◌, arith, All, length, Option, none, some,
}
use minios.Store.{update}
use minios.Sleeplock.{initsleeplock}
use minios.Bio.{
  Bcache, head, nbuf, link, unlink, set_buf, binit_loop, binit, find_cached, find_unused,
}
use minios.Bio.Segment.{
  Segment, Fresh, Distinct, link-Segment, unlink-Segment, reverse_onto, Segment-reverse_onto,
  Fresh-reverse_onto,
}

-- The buffers of the list, the most recently used first.
pub record IsRing (s : Bcache) (xs : List ℕ) : Type 0 where
  pub linked : Segment s.next s.prev head xs head
  pub apart : Fresh head xs
  pub distinct : Distinct xs
  pub most : length xs ≤ nbuf

link-IsRing :
    (s : Bcache) (b : ℕ) (xs : List ℕ)
    → IsRing s xs
    → head ≢ b
    → Fresh b xs
    → length xs < nbuf
    → IsRing (link b s) (b ∷ xs)
unfolding link
link-IsRing s b xs r ne fr lt =
    let away : b ≢ head = λ h. ne (sym h) in
    record {
      linked =
          link-Segment s.next s.prev head b xs head r.linked away away r.apart r.apart r.distinct
            fr;
      apart = (ne, r.apart);
      distinct = (fr, r.distinct);
      most = omega arith;
    }

-- `b`, `b + 1`, ..., `n` of them, the last first, before `xs`.
abbrev pub linked_from : ℕ → ℕ → List ℕ → List ℕ
linked_from b zero xs = xs
linked_from b (suc n) xs = linked_from (b + 1) n (b ∷ xs)

below-Fresh : (b : ℕ) (xs : List ℕ) → All (λ x. x < b) xs → Fresh b xs
below-Fresh b [] h = tt
below-Fresh b (x ∷ xs) (h, hs) = (ground arith, below-Fresh b xs hs)

below_suc : (b : ℕ) (xs : List ℕ) → All (λ x. x < b) xs → All (λ x. x < b + 1) xs
below_suc b [] h = tt
below_suc b (x ∷ xs) (h, hs) = (omega arith, below_suc b xs hs)

binit_loop-IsRing :
    (b n : ℕ) (s : Bcache) (xs : List ℕ)
    → IsRing s xs
    → All (λ x. x < b) xs
    → b + n ≤ nbuf
    → length xs ≤ b
    → IsRing (binit_loop b n s) (linked_from b n xs)
unfolding binit_loop
binit_loop-IsRing b zero s xs r h le most = r
binit_loop-IsRing b (suc n) s xs r h le most =
    let v = s.buf b in
    let s' = set_buf b (record v { lock = initsleeplock v.lock }) s in
    let r' : IsRing s' xs = record {
      linked = r.linked;
      apart = r.apart;
      distinct = r.distinct;
      most = r.most;
    } in
    binit_loop-IsRing (b + 1) n (link b s') (b ∷ xs)
      (link-IsRing s' b xs r' (ground arith) (below-Fresh b xs h) (omega arith))
      (omega arith, below_suc b xs h) (omega arith) (omega arith)

-- After binit the ring has each of the NBUF buffers once, whatever the memory held.
pub binit-IsRing : (s : Bcache) → IsRing (binit s) (linked_from 0 nbuf [])
unfolding binit
binit-IsRing s =
    let s' = record s { prev = update s.prev head head; next = update s.next head head } in
    binit_loop-IsRing 0 nbuf s' []
      (record { linked = (refl, refl); apart = tt; distinct = tt; most = omega arith }) tt
      (omega arith) (omega arith)

-- The first of the buffers that passes the test.
abbrev pub first_where : (ℕ → Bool) → List ℕ → Option ℕ
first_where p [] = none
first_where p (x ∷ xs) = if p x then some x else first_where p xs

abbrev pub caches : Bcache → ℕ → ℕ → ℕ → Bool
caches s dev blockno b = (s.buf b).dev == dev && (s.buf b).blockno == blockno

abbrev pub unused : Bcache → ℕ → Bool
unused s b = (s.buf b).refcnt == 0

find_cached_lem :
    (n dev blockno : ℕ) (s : Bcache) (a : ℕ) (xs : List ℕ)
    → Segment s.next s.prev a xs head
    → Fresh head xs
    → length xs < n
    → find_cached n dev blockno (s.next a) s ≡ first_where (caches s dev blockno) xs
unfolding find_cached
find_cached_lem zero dev blockno s a xs t fr lt = absurd (omega arith)
find_cached_lem (suc n) dev blockno s a [] (e, _) fr lt = ground arith
find_cached_lem (suc n) dev blockno s a (x ∷ xs) (e, e', t) (nx, fr) lt =
    let other : (x == head) ≡ false = ground arith in
    rw (e, other)
      (ap (λ r. if caches s dev blockno x then some x else r)
        (find_cached_lem n dev blockno s x xs t fr (omega arith)))

find_unused_lem :
    (n : ℕ) (s : Bcache) (a : ℕ) (xs : List ℕ)
    → Segment s.prev s.next a xs head
    → Fresh head xs
    → length xs < n
    → find_unused n (s.prev a) s ≡ first_where (unused s) xs
unfolding find_unused
find_unused_lem zero s a xs t fr lt = absurd (omega arith)
find_unused_lem (suc n) s a [] (e, _) fr lt = ground arith
find_unused_lem (suc n) s a (x ∷ xs) (e, e', t) (nx, fr) lt =
    let other : (x == head) ≡ false = ground arith in
    rw (e, other)
      (ap (λ r. if unused s x then some x else r) (find_unused_lem n s x xs t fr (omega arith)))

-- Backwards from `head`, the buffers come the least recently used first.
abbrev pub backwards : List ℕ → List ℕ
backwards xs = reverse_onto xs []

pub cached_scan :
    (dev blockno : ℕ) (s : Bcache) (xs : List ℕ)
    → IsRing s xs
    → find_cached (nbuf + 1) dev blockno (s.next head) s ≡ first_where (caches s dev blockno) xs
cached_scan dev blockno s xs r =
    find_cached_lem (nbuf + 1) dev blockno s head xs r.linked r.apart (omega (arith, r.most))

length-reverse_onto : (xs ys : List ℕ) → length (reverse_onto xs ys) ≡ length xs + length ys
length-reverse_onto [] ys = omega arith
length-reverse_onto (x ∷ xs) ys = omega (arith, length-reverse_onto xs (x ∷ ys))

backwards-Segment :
    (s : Bcache) (xs : List ℕ)
    → Segment s.next s.prev head xs head
    → Segment s.prev s.next head (backwards xs) head
backwards-Segment s [] (e, e') = (e', e)
backwards-Segment s (x ∷ xs) (e, e', t) =
    Segment-reverse_onto s.next s.prev x head xs [] head t (e', e)

pub unused_scan :
    (s : Bcache) (xs : List ℕ)
    → IsRing s xs
    → find_unused (nbuf + 1) (s.prev head) s ≡ first_where (unused s) (backwards xs)
unused_scan s xs r =
    find_unused_lem (nbuf + 1) s head (backwards xs) (backwards-Segment s xs r.linked)
      (Fresh-reverse_onto head xs [] r.apart tt) (omega (arith, r.most, length-reverse_onto xs []))

Fresh-drop :
    (k : ℕ) (ys : List ℕ) (b : ℕ) (zs : List ℕ)
    → Fresh k (ys ++ b ∷ zs)
    → (k ≢ b) × Fresh k (ys ++ zs)
Fresh-drop k [] b zs h = h
Fresh-drop k (y ∷ ys) b zs (n, h) = let (nb, rest) = Fresh-drop k ys b zs h in (nb, (n, rest))

Distinct-drop :
    (ys : List ℕ) (b : ℕ) (zs : List ℕ)
    → Distinct (ys ++ b ∷ zs)
    → Fresh b (ys ++ zs) × Distinct (ys ++ zs)
Distinct-drop [] b zs h = h
Distinct-drop (y ∷ ys) b zs (fr, h) =
    let (fb, d) = Distinct-drop ys b zs h in
    let (nb, fy) = Fresh-drop y ys b zs fr in ((λ e. nb (sym e), fb), (fy, d))

length-drop : (ys : List ℕ) (b : ℕ) (zs : List ℕ) → length (ys ++ b ∷ zs) ≡ suc (length (ys ++ zs))
length-drop [] b zs = refl
length-drop (y ∷ ys) b zs = ap suc (length-drop ys b zs)

-- The six assignments of brelse take a buffer from its place in the ring to the front.
pub moved-IsRing :
    (s : Bcache) (ys : List ℕ) (b : ℕ) (zs : List ℕ)
    → IsRing s (ys ++ b ∷ zs)
    → IsRing (link b (unlink b s)) (b ∷ (ys ++ zs))
unfolding unlink
moved-IsRing s ys b zs r =
    let (nb, apart) = Fresh-drop head ys b zs r.apart in
    let (fb, d) = Distinct-drop ys b zs r.distinct in
    link-IsRing (unlink b s) b (ys ++ zs)
      (record {
        linked = unlink-Segment s.next s.prev head ys b zs head r.linked r.apart r.apart r.distinct;
        apart = apart;
        distinct = d;
        most = omega (arith, r.most, length-drop ys b zs);
      })
      nb fb (omega (arith, r.most, length-drop ys b zs))
