-- ===== src/Pipe/Sections.antt =====
-- What one section of `pipewrite` and of `piperead` does to the queue in the pipe.
use mathlib.Core.List.{append-nil, append_assoc}
use mathlib.Core.Bool.{false≢true}
use minios.Base.{
  ℕ, zero, suc, ◌+◌, ◌-◌, ◌%◌, ◌^◌, ◌≤◌, ◌<◌, ◌≡◌, ◌⊎◌, inl, inr, refl, Bool, true, false, not,
  ◌||◌, ◌&&◌, List, [], ◌∷◌, ◌++◌, ◌==◌, if◌then◌else◌, arith, length, ap, ap₂, ◌∙◌, Bool-cases,
  pos, negsuc, sym,
}
use minios.Bytes.Move.{slice}
use minios.Pipe.{
  Pipe, put, skip, done, waiting, nwrite_chan, nread_chan, Result, Source, write_loop, leave,
  pipewrite, read_loop, piperead,
}
use minios.Pipe.Ring.{IsValid, count, contents, window, put-contents, skip-contents, count-zero_iff}

-- How a section of `pipewrite` ends that has `k` bytes to go at index `i`, with `m` of them moved.
abbrev pub WriteEnds : Source → Bool → ℕ → ℕ → ℕ → ℕ → Bool → Result → Type 0
WriteEnds u killed addr k i m open_end r =
    ((r.code ≡ done (pos (i + m))) × ((m ≡ k) ⊎ ((m < k) × (u.readable (addr + (i + m)) ≡ false))))
    ⊎ (((r.code ≡ waiting nwrite_chan (i + m)) × (count r.pipe ≡ 512) × (m < k))
        ⊎ ((r.code ≡ done (negsuc 0)) × (m ≡ 0) × (0 < k) × ((not open_end || killed) ≡ true)))

pub record Wrote (u : Source) (killed : Bool) (addr k i : ℕ) (p : Pipe) (r : Result) : Type 0 where
  pub moved : ℕ
  pub most : moved ≤ k
  pub bytes : contents r.pipe ≡ contents p ++ slice u.memory (addr + i) moved
  pub counted : count r.pipe ≡ count p + moved
  pub valid : IsValid r.pipe
  pub reader : r.pipe.nread ≡ p.nread
  pub ends : WriteEnds u killed addr k i moved p.readopen r

-- A section that ends at `p` with no byte moved.
Wrote-stop :
    (u : Source) (killed : Bool) (addr k i : ℕ) (p : Pipe) (r : Result)
    → p.nread < 2 ^ 32
    → p.nwrite < 2 ^ 32
    → count p ≤ 512
    → (r.pipe.locked ≡ false)
      × (r.pipe.bytes ≡ p.bytes)
      × (r.pipe.nread ≡ p.nread)
      × (r.pipe.nwrite ≡ p.nwrite)
    → WriteEnds u killed addr k i 0 p.readopen r
    → Wrote u killed addr k i p r
Wrote-stop u killed addr k i p r hr hw room (free, same, rd, wr) ends =
    let held : contents r.pipe ≡ contents p = rw (same, rd, wr) refl in
    record {
      moved = 0;
      most = omega arith;
      bytes = held ∙ sym (append-nil (contents p));
      counted = omega arith;
      valid = record {
        free = free;
        read_fits = omega arith;
        write_fits = omega arith;
        room = omega arith;
      };
      reader = rd;
      ends = ends;
    }

module _ (u : Source) (killed : Bool) (addr : ℕ) where
  -- One byte has gone into the pipe, and the rest of the section has done `w`.
  Wrote-more :
      (k i : ℕ) (p : Pipe) (r : Result)
      → p.nread < 2 ^ 32
      → p.nwrite < 2 ^ 32
      → count p < 512
      → (not p.readopen || killed) ≡ false
      → Wrote u killed addr k (i + 1) (put p (u.memory (addr + i))) r
      → Wrote u killed addr (suc k) i p r
  unfolding put
  Wrote-more k i p r hr hw room alive w =
      let (queue, more) = put-contents p (u.memory (addr + i)) hr hw room in
      let shift : (m : ℕ) → slice u.memory (addr + (i + 1)) m ≡ slice u.memory (addr + i + 1) m =
        (λ m. ap (λ a. slice u.memory a m) (omega arith)) in
      let index : i + 1 + w.moved ≡ i + suc w.moved = omega arith in
      record {
        moved = suc w.moved;
        most = omega (arith, w.most);
        bytes =
            w.bytes
            ∙ ap₂ ◌++◌ queue (shift w.moved)
            ∙ append_assoc (contents p) (u.memory (addr + i) ∷ [])
                (slice u.memory (addr + i + 1) w.moved);
        counted = omega (arith, w.counted, more);
        valid = w.valid;
        reader = w.reader;
        ends = elim w.ends [
          | inl x ↦ inl (
            x.0 ∙ ap (λ n. done (pos n)) index,
            elim x.1 [
              | inl all ↦ inl (omega arith)
              | inr (lt, bad) ↦ inr (omega arith, ap (λ n. u.readable (addr + n)) (sym index) ∙ bad)
            ],
          )
          | inr y ↦ elim y [
            | inl x ↦ inr (inl (x.0 ∙ ap (waiting nwrite_chan) index, x.1, omega (arith, x.2)))
            | inr x ↦ absurd (false≢true (sym alive ∙ x.3))
          ]
        ];
      }

  write_loop-Wrote :
      (k i : ℕ) (p : Pipe)
      → p.nread < 2 ^ 32
      → p.nwrite < 2 ^ 32
      → count p ≤ 512
      → Wrote u killed addr k i p (write_loop u killed addr k i p)
  unfolding write_loop put
  write_loop-Wrote zero i p hr hw room =
      Wrote-stop u killed addr 0 i p _ hr hw room (refl, refl, refl, refl)
        (inl (ap (λ n. done (pos n)) (omega arith), inl refl))
  write_loop-Wrote (suc k) i p hr hw room =
      let p' = put p (u.memory (addr + i)) in
      let ih = write_loop-Wrote k (i + 1) p' in
      let here : i ≡ i + 0 = omega arith in
      elim (Bool-cases (not p.readopen || killed)) [
        | inl dead ↦ rw dead (
            Wrote-stop u killed addr (suc k) i p _ hr hw room (refl, refl, refl, refl)
              (inr (inr (refl, refl, omega arith, dead))))
        | inr alive ↦ rw alive (elim (Bool-cases (p.nwrite == ((p.nread + 512) % 2 ^ 32))) [
          | inl full ↦ rw full (
              Wrote-stop u killed addr (suc k) i p _ hr hw room (refl, refl, refl, refl)
                (inr (inl (ap (waiting nwrite_chan) here, ground arith, omega arith))))
          | inr space ↦
              let less : count p < 512 = ground arith in
              rw space (elim (Bool-cases (u.readable (addr + i))) [
                | inl good ↦ rw good (
                    Wrote-more k i p _ hr hw less alive (
                      ih hr (ground arith)
                        (omega (arith, (put-contents p (u.memory (addr + i)) hr hw less).1))))
                | inr bad ↦ rw bad (
                    Wrote-stop u killed addr (suc k) i p _ hr hw room (refl, refl, refl, refl)
                      (inl (
                        ap (λ n. done (pos n)) here,
                        inr (omega arith, ap (λ n. u.readable (addr + n)) (sym here) ∙ bad),
                      )))
              ])
        ])
      ]

-- A call of `pipewrite`, or its next section after a sleep: the bytes that it moves are the next
-- ones of the writer's buffer, appended in order to the queue in the pipe. It returns `n` when all
-- are moved, or the index of the first byte that cannot be read; it sleeps only on a full pipe with
-- bytes left; and it returns -1, with nothing moved, only when the reader's end is closed or the
-- process has been killed.
pub pipewrite_lem :
    (u : Source) (killed : Bool) (addr n i : ℕ) (p : Pipe)
    → IsValid p
    → Wrote u killed addr (n - i) i p (pipewrite u killed addr n i p)
unfolding pipewrite
pipewrite_lem u killed addr n i p v =
    let w =
      write_loop-Wrote u killed addr (n - i) i (record p { locked = true }) v.read_fits v.write_fits
        v.room in
    rw v.free (record {
      moved = w.moved;
      most = w.most;
      bytes = w.bytes;
      counted = w.counted;
      valid = w.valid;
      reader = w.reader;
      ends = w.ends;
    })

-- How a section of `piperead` ends that may take `k` bytes more at index `i`. A byte that cannot be
-- copied out is lost.
pub record Took (writable : ℕ → Bool) (addr k i : ℕ) (out : List ℕ) (p : Pipe) (r : Result)
    : Type 0 where
  pub got : List ℕ
  pub lost : List ℕ
  pub most : length got ≤ k
  pub bytes : contents p ≡ got ++ (lost ++ contents r.pipe)
  pub delivered : r.out ≡ out ++ got
  pub code : r.code ≡ done (pos (i + length got))
  pub valid : IsValid r.pipe
  pub ends :
      ((lost ≡ []) × ((length got ≡ k) ⊎ (contents r.pipe ≡ [])))
      ⊎ ((length lost ≡ 1) × (length got < k) × (writable (addr + (i + length got)) ≡ false))

skip-fits : (p : Pipe) → (skip p).nread < 2 ^ 32
unfolding skip
skip-fits p = omega arith

skip-writer : (p : Pipe) → p.nwrite < 2 ^ 32 → (skip p).nwrite < 2 ^ 32
unfolding skip
skip-writer p h = h

module _ (writable : ℕ → Bool) (addr : ℕ) where
  read_loop-Took :
      (k i : ℕ) (out : List ℕ) (p : Pipe)
      → p.nread < 2 ^ 32
      → p.nwrite < 2 ^ 32
      → count p ≤ 512
      → Took writable addr k i out p (read_loop writable addr k i out p)
  unfolding read_loop
  read_loop-Took zero i out p hr hw room = record {
    got = [];
    lost = [];
    most = omega arith;
    bytes = refl;
    delivered = sym (append-nil out);
    code = ap (λ n. done (pos n)) (omega arith);
    valid = record { free = refl; read_fits = hr; write_fits = hw; room = room };
    ends = inl (refl, inl refl);
  }
  read_loop-Took (suc k) i out p hr hw room =
      let ch = p.bytes (p.nread % 512) in
      let fits : (skip p).nread < 2 ^ 32 = skip-fits p in
      let ih = read_loop-Took k (i + 1) (out ++ (ch ∷ [])) (skip p) fits in
      let here : i ≡ i + 0 = omega arith in
      elim (Bool-cases (p.nread == p.nwrite)) [
        | inl empty ↦ rw empty (record {
          got = [];
          lost = [];
          most = omega arith;
          bytes = refl;
          delivered = sym (append-nil out);
          code = ap (λ n. done (pos n)) here;
          valid = record { free = refl; read_fits = hr; write_fits = hw; room = room };
          ends = inl (refl, inr (ap (window p.bytes p.nread) (count-zero_iff p hr hw empty)));
        })
        | inr some_bytes ↦
            let (queue, less) = skip-contents p hr hw some_bytes in
            let room' : count (skip p) ≤ 512 = omega (arith, less) in
            rw some_bytes (elim (Bool-cases (writable (addr + i))) [
              | inl good ↦ rw good (
                  let t = ih (skip-writer p hw) room' in
                  let index : i + 1 + length t.got ≡ i + suc (length t.got) = omega arith in
                  record {
                    got = ch ∷ t.got;
                    lost = t.lost;
                    most = omega (arith, t.most);
                    bytes = queue ∙ ap (λ l. ch ∷ l) t.bytes;
                    delivered = t.delivered ∙ append_assoc out (ch ∷ []) t.got;
                    code = t.code ∙ ap (λ n. done (pos n)) index;
                    valid = t.valid;
                    ends = elim t.ends [
                      | inl x ↦ inl (
                        x.0,
                        elim x.1 [ inl all ↦ inl (omega arith) | inr none_left ↦ inr none_left ],
                      )
                      | inr x ↦
                          inr (
                            x.0,
                            omega (arith, x.1),
                            ap (λ n. writable (addr + n)) (sym index) ∙ x.2,
                          )
                    ];
                  })
              | inr bad ↦ rw bad (record {
                got = [];
                lost = ch ∷ [];
                most = omega arith;
                bytes = queue;
                delivered = sym (append-nil out);
                code = ap (λ n. done (pos n)) here;
                valid = record {
                  free = refl;
                  read_fits = fits;
                  write_fits = skip-writer p hw;
                  room = room';
                };
                ends = inr (refl, omega arith, ap (λ n. writable (addr + n)) (sym here) ∙ bad);
              })
            ])
      ]

-- A section of `piperead` on an empty pipe whose writing end is open returns -1 if the process has
-- been killed, and sleeps otherwise, with the queue as it was.
pub record Blocked (killed : Bool) (p : Pipe) (r : Result) : Type 0 where
  pub empty : contents p ≡ []
  pub opened : p.writeopen ≡ true
  pub still : contents r.pipe ≡ []
  pub nothing : r.out ≡ []
  pub code : r.code ≡ (if killed then done (negsuc 0) else waiting nread_chan 0)
  pub valid : IsValid r.pipe

Blocked-of :
    (killed : Bool) (p : Pipe)
    → IsValid p
    → (p.nread == p.nwrite) ≡ true
    → p.writeopen ≡ true
    → Blocked killed p (
        if killed
        then leave (done (negsuc 0)) [] (record p { locked = true })
        else leave (waiting nread_chan 0) [] (record p { locked = true }))
Blocked-of true p v same open_end =
    let gone = ap (window p.bytes p.nread) (count-zero_iff p v.read_fits v.write_fits same) in
    record {
      empty = gone;
      opened = open_end;
      still = gone;
      nothing = refl;
      code = refl;
      valid = record {
        free = refl;
        read_fits = v.read_fits;
        write_fits = v.write_fits;
        room = v.room;
      };
    }
Blocked-of false p v same open_end =
    let gone = ap (window p.bytes p.nread) (count-zero_iff p v.read_fits v.write_fits same) in
    record {
      empty = gone;
      opened = open_end;
      still = gone;
      nothing = refl;
      code = refl;
      valid = record {
        free = refl;
        read_fits = v.read_fits;
        write_fits = v.write_fits;
        room = v.room;
      };
    }

-- A call of `piperead`, or its next section after a sleep, blocks only on an empty pipe whose
-- writing end is open. Otherwise it takes the oldest bytes of the queue, in order, delivers them to
-- the buffer and returns their number: `n` of them, or all that there are, or those before the first
-- address that cannot be written; in that last case it takes one byte more, which is lost.
pub piperead_lem :
    (writable : ℕ → Bool) (killed : Bool) (addr n : ℕ) (p : Pipe)
    → IsValid p
    → Blocked killed p (piperead writable killed addr n p)
      ⊎ Took writable addr n 0 [] p (piperead writable killed addr n p)
unfolding piperead
piperead_lem writable killed addr n p v =
    let q : Pipe = record p { locked = true } in
    let t = read_loop-Took writable addr n 0 [] q v.read_fits v.write_fits v.room in
    rw v.free (elim (Bool-cases (p.nread == p.nwrite && p.writeopen)) [
      | inl stuck ↦
          let b = Blocked-of killed p v (ground arith) (ground arith) in
          rw stuck (
            inl (record {
              empty = b.empty;
              opened = b.opened;
              still = b.still;
              nothing = b.nothing;
              code = b.code;
              valid = b.valid;
            }))
      | inr moves ↦ rw moves (
          inr (record {
            got = t.got;
            lost = t.lost;
            most = t.most;
            bytes = t.bytes;
            delivered = t.delivered;
            code = t.code;
            valid = t.valid;
            ends = t.ends;
          }))
    ])
