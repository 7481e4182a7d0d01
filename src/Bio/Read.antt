-- ===== src/Bio/Read.antt =====
-- What bread of kernel/bio.c does to the cache.
use mathlib.Core.Bool.{false≢true}
use minios.Base.{
  ℕ, ◌≡◌, ◌≢◌, ◌⊎◌, ==_refl, refl, sym, ap₂, ◌∙◌, List, true, false, if◌then◌else◌, arith, some,
  Bool-cases, inl, inr,
}
use minios.Kern.{Outcome, ok, asleep, panic, and_then}
use minios.Sleeplock.{holdingsleep}
use minios.Bio.{Bcache, bget, fill, bread}
use minios.Bio.Ring.{IsRing, first_where, caches, unused}
use minios.Bio.Scan.{In}
use minios.Bio.Cache.{IsUnique, Gives, BgetEnds, bget_lem}

-- A buffer with the contents of the block: those it had, or the disk's where the block was in no
-- buffer.
pub record Reads (me dev blockno : ℕ) (xs : List ℕ) (s : Bcache) (b : ℕ) (t : Bcache) : Type 0 where
  pub there : In b xs
  pub dev_is : (t.buf b).dev ≡ dev
  pub blockno_is : (t.buf b).blockno ≡ blockno
  pub held : holdingsleep me (t.buf b).lock ≡ true
  pub valid : (t.buf b).valid ≡ true
  pub contents :
      (first_where (caches s dev blockno) xs ≡ some b) ⊎ ((t.buf b).block ≡ s.disk blockno)
  pub others : (c : ℕ) → c ≢ b → t.buf c ≡ s.buf c
  pub ring : IsRing t xs
  pub unique : IsUnique t xs

abbrev pub BreadEnds : ℕ → ℕ → ℕ → List ℕ → Bcache → Outcome Bcache ℕ → Type 0
BreadEnds me dev blockno xs s (ok b t) = Reads me dev blockno xs s b t
BreadEnds me dev blockno xs s (asleep t) = (b : ℕ) × In b xs × ((t.buf b).lock.locked ≡ true)
BreadEnds me dev blockno xs s panic =
    ((x : ℕ) → In x xs → caches s dev blockno x ≡ false) × ((x : ℕ) → In x xs → unused s x ≡ false)

abbrev load : ℕ → Bcache → Outcome Bcache ℕ
load b s = ok b (if (s.buf b).valid then s else fill b s)

fill-IsUnique : (b : ℕ) (t : Bcache) (xs : List ℕ) → IsUnique t xs → IsUnique (fill b t) xs
unfolding fill
fill-IsUnique b t xs u x y i j e e' pos = u x y i j (ground arith) (ground arith) (ground arith)

filled-block : (b : ℕ) (t : Bcache) → ((fill b t).buf b).block ≡ t.disk (t.buf b).blockno
unfolding fill
filled-block b t = rw (==_refl b) refl

fill-Reads :
    (me dev blockno b : ℕ) (xs : List ℕ) (s t : Bcache)
    → Gives me dev blockno xs s b t
    → Reads me dev blockno xs s b (fill b t)
unfolding fill
fill-Reads me dev blockno b xs s t g =
    let r = g.ring in
    record {
      there = g.there;
      dev_is = ground (arith, g.dev_is);
      blockno_is = ground (arith, g.blockno_is);
      held = ground (arith, g.held);
      valid = ground arith;
      contents = inr (filled-block b t ∙ ap₂ (λ d n. d n) g.disk g.blockno_is);
      others = λ c ne. ground (arith, g.others c ne);
      ring = record { linked = r.linked; apart = r.apart; distinct = r.distinct; most = r.most };
      unique = fill-IsUnique b t xs g.unique;
    }

load-BreadEnds :
    (me dev blockno : ℕ) (xs : List ℕ) (s : Bcache) (r : Outcome Bcache ℕ)
    → BgetEnds me dev blockno xs s r
    → BreadEnds me dev blockno xs s (and_then r load)
load-BreadEnds me dev blockno xs s (ok b t) g = elim (Bool-cases (t.buf b).valid) [
  | inl e ↦ rw e (record {
    there = g.there;
    dev_is = g.dev_is;
    blockno_is = g.blockno_is;
    held = g.held;
    valid = e;
    contents = elim g.choice [
      | inl found ↦ inl found
      | inr (_, _, old) ↦ absurd (false≢true (sym old ∙ e))
    ];
    others = g.others;
    ring = g.ring;
    unique = g.unique;
  })
  | inr e ↦ rw e (fill-Reads me dev blockno b xs s t g)
]
load-BreadEnds me dev blockno xs s (asleep t) g = g
load-BreadEnds me dev blockno xs s panic g = g

-- bread on a cache whose buffers are in a ring, with no block of a device in two of them: it returns
-- a buffer for the block, locked by the caller and valid, that was there, or that has now what the
-- disk has in that block, with the other buffers unchanged and the ring and the uniqueness kept; or
-- it sleeps on the lock of a buffer that is held; or it panics, and then no buffer has the block and
-- each is referenced.
pub bread_lem :
    (me dev blockno : ℕ) (s : Bcache) (xs : List ℕ)
    → IsRing s xs
    → IsUnique s xs
    → BreadEnds me dev blockno xs s (bread me dev blockno s)
unfolding bread
bread_lem me dev blockno s xs r u =
    load-BreadEnds me dev blockno xs s (bget me dev blockno s) (bget_lem me dev blockno s xs r u)
