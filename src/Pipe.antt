-- ===== src/Pipe.antt =====
-- kernel/pipe.c: a ring of PIPESIZE bytes between writers and readers. A call runs in sections: from
-- taking the lock until it returns or goes to sleep. A section that sleeps gives the index that it
-- has reached, and runs on from there when its channel is woken.
pub mod Ring
pub mod Sections
pub mod Fifo
use minios.Base.{
  ℕ, zero, suc, ◌+◌, ◌-◌, ◌%◌, ◌^◌, Bool, true, false, not, ◌&&◌, ◌||◌, List, [], ◌∷◌, ◌++◌, ◌==◌,
  if◌then◌else◌, ℤ, pos, negsuc,
}
use minios.Bytes.{Mem, store}

abbrev pub pipe_size : ℕ
pipe_size = 512

abbrev pub uint : ℕ
uint = 2 ^ 32

-- The channels of a pipe: &pi->nread and &pi->nwrite.
pub data Chan : Type 0 where
  nread_chan nwrite_chan : Chan

-- `struct pipe`; `woken` lists the calls of wakeup(), and `freed` is set by kfree(pi).
pub record Pipe : Type 0 where
  pub locked : Bool
  pub bytes : Mem
  pub nread : ℕ
  pub nwrite : ℕ
  pub readopen : Bool
  pub writeopen : Bool
  pub woken : List Chan
  pub freed : Bool

-- What a section comes to: a return value, sleep at an index, or a panic.
pub data Code : Type 0 where
  done : ℤ → Code
  waiting : Chan → ℕ → Code
  panicked : Code

pub record Result : Type 0 where
  pub code : Code
  pub pipe : Pipe
  -- what has gone through copyout() to the reader's buffer
  pub out : List ℕ

abbrev pub wakeup : Chan → Pipe → Pipe
wakeup c p = record p { woken = p.woken ++ (c ∷ []) }

-- release(&pi->lock), and the value with which the section ends.
abbrev pub leave : Code → List ℕ → Pipe → Result
leave c out p = record { code = c; pipe = record p { locked = false }; out = out }

-- acquire(&pi->lock) panics where the caller holds the lock already.
abbrev pub enter : (Pipe → Result) → Pipe → Result
enter body p =
    if p.locked
    then record { code = panicked; pipe = p; out = [] }
    else body (record p { locked = true })

-- pi->data[pi->nwrite++ % PIPESIZE] = ch;
unfoldable pub put : Pipe → ℕ → Pipe
unfolding store
put p ch = record p {
  bytes = store p.bytes (p.nwrite % pipe_size) ch;
  nwrite = (p.nwrite + 1) % uint;
}

-- pi->nread++
unfoldable pub skip : Pipe → Pipe
skip p = record p { nread = (p.nread + 1) % uint }

-- The writer's memory, and at which of its addresses copyin() succeeds.
pub record Source : Type 0 where
  pub memory : Mem
  pub readable : ℕ → Bool

-- while(i < n), with `k` for `n - i`.
unfoldable pub write_loop : Source → Bool → ℕ → ℕ → ℕ → Pipe → Result
write_loop u killed addr zero i p = leave (done (pos i)) [] (wakeup nread_chan p)
write_loop u killed addr (suc k) i p =
    let p' = put p (u.memory (addr + i)) in
    let rest = write_loop u killed addr k (i + 1) p' in
    if not p.readopen || killed
    then leave (done (negsuc 0)) [] p
    else if p.nwrite == ((p.nread + pipe_size) % uint)
    then leave (waiting nwrite_chan i) [] (wakeup nread_chan p)
    else if u.readable (addr + i)
    then rest
    else leave (done (pos i)) [] (wakeup nread_chan p)

-- A section of `pipewrite` that has come to index `i`; the call itself starts at 0. The reads of
-- `killed(pr)` in one section give one value.
unfoldable pub pipewrite : Source → Bool → ℕ → ℕ → ℕ → Pipe → Result
unfolding write_loop
pipewrite u killed addr n i = enter (write_loop u killed addr (n - i) i)

-- for(i = 0; i < n; i++), with `k` for `n - i`. A byte is taken before copyout() is tried.
unfoldable pub read_loop : (ℕ → Bool) → ℕ → ℕ → ℕ → List ℕ → Pipe → Result
read_loop writable addr zero i out p = leave (done (pos i)) out (wakeup nwrite_chan p)
read_loop writable addr (suc k) i out p =
    let ch = p.bytes (p.nread % pipe_size) in
    let rest = read_loop writable addr k (i + 1) (out ++ (ch ∷ [])) (skip p) in
    if p.nread == p.nwrite
    then leave (done (pos i)) out (wakeup nwrite_chan p)
    else if writable (addr + i)
    then rest
    else leave (done (pos i)) out (wakeup nwrite_chan (skip p))

unfoldable pub piperead : (ℕ → Bool) → Bool → ℕ → ℕ → Pipe → Result
unfolding read_loop skip
piperead writable killed addr n = enter λ p.
    if p.nread == p.nwrite && p.writeopen
    then (if killed then leave (done (negsuc 0)) [] p else leave (waiting nread_chan 0) [] p)
    else read_loop writable addr n 0 [] p

unfoldable pub pipeclose : Bool → Pipe → Result
pipeclose writable = enter λ p.
    let p' =
      (if writable
        then wakeup nread_chan (record p { writeopen = false })
        else wakeup nwrite_chan (record p { readopen = false })) in
    if not p'.readopen && not p'.writeopen
    then leave (done (pos 0)) [] (record p' { freed = true })
    else leave (done (pos 0)) [] p'
