-- ===== src/Pipe/Fifo.antt =====
-- A pipe under any interleaving of the sections of its readers and writers, and of closes.
use mathlib.Core.List.{append-nil, append_assoc}
use minios.Base.{ℕ, ◌+◌, ◌-◌, ◌≡◌, inl, inr, Bool, true, List, [], ◌++◌, arith, ap, ap₂, ◌∙◌, sym}
use minios.Bytes.Move.{slice}
use minios.Pipe.{Pipe, Result, Source, pipewrite, piperead, pipeclose}
use minios.Pipe.Ring.{IsValid, count, contents}
use minios.Pipe.Sections.{Took, Blocked, pipewrite_lem, piperead_lem}

-- The pipe, all that has ever gone into it, and all that has been delivered out of it.
pub record State : Type 0 where
  pub pipe : Pipe
  pub sent : List ℕ
  pub received : List ℕ

-- The bytes that a section of `pipewrite` has put in: as many as the count has grown by.
abbrev pub put_in : Source → ℕ → Pipe → Pipe → List ℕ
put_in u a p q = slice u.memory a (count q - count p)

-- One section of one process. The readers' buffers can be written.
pub data Step (s : State) : State → Type 0 where
  write :
      (u : Source) (killed : Bool) (addr n i : ℕ)
      → Step s (
          let q = (pipewrite u killed addr n i s.pipe).pipe in
          record { pipe = q; sent = s.sent ++ put_in u (addr + i) s.pipe q; received = s.received })
  read :
      (killed : Bool) (addr n : ℕ)
      → Step s (
          let r = piperead (λ _. true) killed addr n s.pipe in
          record { pipe = r.pipe; sent = s.sent; received = s.received ++ r.out })
  close : (writable : Bool) → Step s (record s { pipe = (pipeclose writable s.pipe).pipe })

pub data Reach (s : State) : State → Type 0 where
  here : Reach s s
  next : {t u : State} → Reach s t → Step t u → Reach s u

pub record InOrder (s : State) : Type 0 where
  pub valid : IsValid s.pipe
  pub order : s.sent ≡ s.received ++ contents s.pipe

pipeclose-IsValid :
    (w : Bool) (p : Pipe)
    → IsValid p
    → IsValid (pipeclose w p).pipe × (contents (pipeclose w p).pipe ≡ contents p)
unfolding pipeclose
pipeclose-IsValid w p v = ground arith

Blocked-order :
    (before : List ℕ) {killed : Bool} {p : Pipe} {r : Result}
    → Blocked killed p r
    → before ++ contents p ≡ (before ++ r.out) ++ contents r.pipe
Blocked-order before b =
    ap (λ l. before ++ l) b.empty
    ∙ sym (ap₂ ◌++◌ (ap (λ l. before ++ l) b.nothing ∙ append-nil before) b.still)

-- Where every address can be written, no byte is lost.
Took-order :
    (before : List ℕ) {addr k i : ℕ} {p : Pipe} {r : Result}
    → Took (λ _. true) addr k i [] p r
    → before ++ contents p ≡ (before ++ r.out) ++ contents r.pipe
Took-order before {r} t =
    let kept : t.lost ≡ [] = elim t.ends [ inl x ↦ x.0 | inr x ↦ cc (x.2) ] in
    ap (λ l. before ++ l) (t.bytes ∙ ap (λ l. t.got ++ (l ++ contents r.pipe)) kept)
    ∙ sym (append_assoc before t.got (contents r.pipe))
    ∙ ap (λ l. (before ++ l) ++ contents r.pipe) (sym t.delivered)

Step-InOrder : {s t : State} → InOrder s → Step s t → InOrder t
Step-InOrder {s} h (write u killed addr n i) =
    let w = pipewrite_lem u killed addr n i s.pipe h.valid in
    let grown : count (pipewrite u killed addr n i s.pipe).pipe - count s.pipe ≡ w.moved =
      omega (arith, w.counted) in
    record {
      valid = w.valid;
      order = rw grown (
          ap (λ l. l ++ slice u.memory (addr + i) w.moved) h.order
          ∙ append_assoc s.received (contents s.pipe) (slice u.memory (addr + i) w.moved)
          ∙ ap (λ l. s.received ++ l) (sym w.bytes));
    }
Step-InOrder {s} h (read killed addr n) =
    elim (piperead_lem (λ _. true) killed addr n s.pipe h.valid) [
      | inl b ↦ record { valid = b.valid; order = h.order ∙ Blocked-order s.received b }
      | inr t ↦ record { valid = t.valid; order = h.order ∙ Took-order s.received t }
    ]
Step-InOrder {s} h (close w) =
    let c = pipeclose-IsValid w s.pipe h.valid in
    record { valid = c.0; order = h.order ∙ ap (λ l. s.received ++ l) (sym c.1) }

-- A pipe is first in, first out: under every interleaving of the sections of writers, of readers
-- whose buffers can be written, and of closes, from a valid pipe that holds what was sent and not
-- yet received, what has been received followed by what the pipe holds is what was sent, in order,
-- with nothing lost, repeated or invented; and the pipe stays valid, with at most PIPESIZE bytes.
pub Reach-InOrder : {s t : State} → InOrder s → Reach s t → InOrder t
Reach-InOrder h here = h
Reach-InOrder h (next r st) = Step-InOrder (Reach-InOrder h r) st
