-- ===== src/Bio/Cache.antt =====
-- What bget of kernel/bio.c does to the cache.
use minios.Base.{
  ℕ, ◌<◌, ◌≡◌, ◌≢◌, ◌⊎◌, refl, sym, ap, subst, ◌∙◌, List, [], true, false, arith, none, some,
  Bool-cases, inl, inr,
}
use minios.Kern.{Outcome, ok, asleep, panic}
use minios.Sleeplock.{Sleeplock, acquiresleep, holdingsleep}
use minios.Bio.{Bcache, set_buf, lock_buf, with_lock, take_cached, take_unused, recycle, bpin, bget}
use minios.Bio.Ring.{IsRing, first_where, caches, unused, backwards, cached_scan, unused_scan}
use minios.Bio.Scan.{In, scan, In-backwards, In-onto}

-- No block of a device is in two buffers. Device 0 is that of buffers that were never used.
abbrev pub IsUnique : Bcache → List ℕ → Type 0
IsUnique s xs =
    (x y : ℕ)
    → In x xs
    → In y xs
    → (s.buf x).dev ≡ (s.buf y).dev
    → (s.buf x).blockno ≡ (s.buf y).blockno
    → 0 < (s.buf x).dev
    → x ≡ y

-- A buffer that a process holds and that is for a block.
pub record Gives (me dev blockno : ℕ) (xs : List ℕ) (s : Bcache) (b : ℕ) (t : Bcache) : Type 0 where
  pub there : In b xs
  pub dev_is : (t.buf b).dev ≡ dev
  pub blockno_is : (t.buf b).blockno ≡ blockno
  pub held : holdingsleep me (t.buf b).lock ≡ true
  pub used : 0 < (t.buf b).refcnt
  pub others : (c : ℕ) → c ≢ b → t.buf c ≡ s.buf c
  pub disk : t.disk ≡ s.disk
  pub ring : IsRing t xs
  pub unique : IsUnique t xs
  -- the buffer was there, or it is the unused one that was released first
  pub choice :
      (first_where (caches s dev blockno) xs ≡ some b)
      ⊎ ((first_where (caches s dev blockno) xs ≡ none)
          × (first_where (unused s) (backwards xs) ≡ some b)
          × ((t.buf b).valid ≡ false))

-- Asleep, the process waits for a buffer that another one holds; a panic is that of a cache with
-- neither the block nor an unused buffer.
abbrev pub BgetEnds : ℕ → ℕ → ℕ → List ℕ → Bcache → Outcome Bcache ℕ → Type 0
BgetEnds me dev blockno xs s (ok b t) = Gives me dev blockno xs s b t
BgetEnds me dev blockno xs s (asleep t) = (b : ℕ) × In b xs × ((t.buf b).lock.locked ≡ true)
BgetEnds me dev blockno xs s panic =
    ((x : ℕ) → In x xs → caches s dev blockno x ≡ false) × ((x : ℕ) → In x xs → unused s x ≡ false)

-- A change of one buffer, locked in the end by `me`.
unfoldable pub locked_as : ℕ → ℕ → Bcache → Bcache
locked_as me b t =
    let v = t.buf b in
    let lk = v.lock in set_buf b (record v { lock = record lk { locked = true; pid = me } }) t

acquire_free :
    (me : ℕ) (lk : Sleeplock)
    → lk.locked ≡ false
    → acquiresleep me lk ≡ ok tt (record lk { locked = true; pid = me })
unfolding acquiresleep
acquire_free me lk e = ground arith

acquire_taken : (me : ℕ) (lk : Sleeplock) → lk.locked ≡ true → acquiresleep me lk ≡ asleep lk
unfolding acquiresleep
acquire_taken me lk e = ground arith

lock_buf_free :
    (me b : ℕ) (t : Bcache)
    → (t.buf b).lock.locked ≡ false
    → lock_buf me b t ≡ ok b (locked_as me b t)
unfolding lock_buf locked_as
lock_buf_free me b t e = ap (with_lock b t) (acquire_free me (t.buf b).lock e)

lock_buf_taken : (me b : ℕ) (t : Bcache) → (t.buf b).lock.locked ≡ true → lock_buf me b t ≡ asleep t
unfolding lock_buf
lock_buf_taken me b t e = ap (with_lock b t) (acquire_taken me (t.buf b).lock e)

same-IsUnique :
    (me : ℕ) (s : Bcache) (xs : List ℕ) (b : ℕ)
    → IsUnique s xs
    → IsUnique (locked_as me b (bpin b s)) xs
unfolding locked_as bpin
same-IsUnique me s xs b u x y i j e e' pos = u x y i j (ground arith) (ground arith) (ground arith)

new-IsUnique :
    (me dev blockno : ℕ) (s : Bcache) (xs : List ℕ) (b : ℕ)
    → IsUnique s xs
    → ((x : ℕ) → In x xs → caches s dev blockno x ≡ false)
    → IsUnique (locked_as me b (recycle dev blockno b s)) xs
unfolding locked_as recycle
new-IsUnique me dev blockno s xs b u none_of x y i j e e' pos =
    ground (arith, u x y i j, none_of x i, none_of y j)

cached-Gives :
    (me dev blockno : ℕ) (s : Bcache) (xs : List ℕ) (b : ℕ)
    → IsRing s xs
    → IsUnique s xs
    → In b xs
    → caches s dev blockno b ≡ true
    → first_where (caches s dev blockno) xs ≡ some b
    → Gives me dev blockno xs s b (locked_as me b (bpin b s))
unfolding locked_as bpin holdingsleep
cached-Gives me dev blockno s xs b r u i h found = record {
  there = i;
  dev_is = ground arith;
  blockno_is = ground arith;
  held = ground arith;
  used = ground arith;
  others = λ c ne. ground arith;
  disk = refl;
  ring = record { linked = r.linked; apart = r.apart; distinct = r.distinct; most = r.most };
  unique = same-IsUnique me s xs b u;
  choice = inl found;
}

new-Gives :
    (me dev blockno : ℕ) (s : Bcache) (xs : List ℕ) (b : ℕ)
    → IsRing s xs
    → IsUnique s xs
    → In b xs
    → first_where (caches s dev blockno) xs ≡ none
    → ((x : ℕ) → In x xs → caches s dev blockno x ≡ false)
    → first_where (unused s) (backwards xs) ≡ some b
    → Gives me dev blockno xs s b (locked_as me b (recycle dev blockno b s))
unfolding locked_as recycle holdingsleep
new-Gives me dev blockno s xs b r u i missing none_of found = record {
  there = i;
  dev_is = ground arith;
  blockno_is = ground arith;
  held = ground arith;
  used = ground arith;
  others = λ c ne. ground arith;
  disk = refl;
  ring = record { linked = r.linked; apart = r.apart; distinct = r.distinct; most = r.most };
  unique = new-IsUnique me dev blockno s xs b u none_of;
  choice = inr (missing, found, ground arith);
}

-- To lock the buffer that a scan has found.
locked-BgetEnds :
    (me dev blockno : ℕ) (s t : Bcache) (xs : List ℕ) (b : ℕ)
    → In b xs
    → Gives me dev blockno xs s b (locked_as me b t)
    → BgetEnds me dev blockno xs s (lock_buf me b t)
locked-BgetEnds me dev blockno s t xs b i g = elim (Bool-cases (t.buf b).lock.locked) [
  | inl e ↦ rw (lock_buf_taken me b t e) (b, i, e)
  | inr e ↦ rw (lock_buf_free me b t e) g
]

-- bget on a cache whose buffers are in a ring, with no block of a device in two of them: it returns
-- the buffer that caches the block, or else the least recently used buffer that nothing refers to,
-- now for that block and not valid, locked and referenced by the caller, and changes no other
-- buffer, with the ring and the uniqueness kept; or it sleeps on the lock of a buffer that is held;
-- or it panics, and then no buffer has the block and each is referenced.
pub bget_lem :
    (me dev blockno : ℕ) (s : Bcache) (xs : List ℕ)
    → IsRing s xs
    → IsUnique s xs
    → BgetEnds me dev blockno xs s (bget me dev blockno s)
unfolding bget take_cached take_unused
bget_lem me dev blockno s xs r u = elim (scan (caches s dev blockno) xs) [
  | inl (b, found, i, h) ↦
      subst (λ o. BgetEnds me dev blockno xs s (take_cached me dev blockno s o))
        (sym (cached_scan dev blockno s xs r ∙ found))
        (locked-BgetEnds me dev blockno s (bpin b s) xs b i
          (cached-Gives me dev blockno s xs b r u i h found))
  | inr (missing, none_of) ↦
      subst (λ o. BgetEnds me dev blockno xs s (take_cached me dev blockno s o))
        (sym (cached_scan dev blockno s xs r ∙ missing))
        (elim (scan (unused s) (backwards xs)) [
          | inl (b, found, i, h) ↦
              subst (λ o. BgetEnds me dev blockno xs s (take_unused me dev blockno s o))
                (sym (unused_scan s xs r ∙ found))
                (locked-BgetEnds me dev blockno s (recycle dev blockno b s) xs b
                  (In-backwards b xs i)
                  (new-Gives me dev blockno s xs b r u (In-backwards b xs i) missing none_of found))
          | inr (full, all_used) ↦
              subst (λ o. BgetEnds me dev blockno xs s (take_unused me dev blockno s o))
                (sym (unused_scan s xs r ∙ full))
                (none_of, λ x i. all_used x (In-onto x xs [] (inl i)))
        ])
]
