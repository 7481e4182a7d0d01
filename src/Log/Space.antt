-- ===== src/Log/Space.antt =====
-- The reservations of kernel/log.c: begin_op, log_write and end_op, interleaved by their critical
-- sections, never exhaust the log.
use minios.Base.{
  ℕ, zero, suc, ◌+◌, ◌*◌, ◌≤◌, ◌≡◌, ◌⊎◌, Bool, true, false, arith, List, [], ◌∷◌, ◌++◌, length, All,
  subst, ◌≢◌, ◌-◌, inl, inr, refl, sym, ◌∙◌, leb, Bool-cases,
}
use mathlib.Core.List.{append_assoc}
use minios.Kern.{ok, panic}
use minios.Log.{
  Log, log_size, max_op_blocks, begin_op, end_section, commit_section, commit, log_write,
  find_block, write_log, write_head, install_trans,
}

-- The calls of log_write that each operation in progress may still make.
abbrev pub Budgets : Type 0
Budgets = List ℕ

abbrev pub total : Budgets → ℕ
total [] = 0
total (r ∷ rs) = r + total rs

total-append : (xs ys : Budgets) → total (xs ++ ys) ≡ total xs + total ys
total-append [] ys = omega arith
total-append (x ∷ xs) ys = omega (arith, total-append xs ys)

pub record State : Type 0 where
  pub log : Log
  pub ops : Budgets

abbrev pub at : Log → Budgets → State
at g ops = record { log = g; ops = ops }

-- One critical section of one operation. An operation makes at most MAXOPBLOCKS calls of log_write.
pub data Step (s : State) : State → Type 0 where
  begin : {g : Log} → begin_op s.log ≡ ok tt g → Step s (at g (max_op_blocks ∷ s.ops))
  write :
      {g : Log} (b r : ℕ) (pre post : Budgets)
      → s.ops ≡ pre ++ (suc r ∷ post)
      → log_write b s.log ≡ ok tt g
      → Step s (at g (pre ++ (r ∷ post)))
  end :
      {g : Log} {last : Bool} (r : ℕ) (pre post : Budgets)
      → s.ops ≡ pre ++ (r ∷ post)
      → end_section s.log ≡ ok last g
      → Step s (at g (pre ++ post))
  finish :
      {g : Log} → s.log.committing ≡ true → commit_section s.log ≡ ok tt g → Step s (at g s.ops)

pub data Reach (s : State) : State → Type 0 where
  here : Reach s s
  next : {t u : State} → Reach s t → Step t u → Reach s u

pub record Reserved (s : State) : Type 0 where
  pub unlocked : s.log.locked ≡ false
  pub counted : s.log.outstanding ≡ length s.ops
  pub each : All (λ r. r ≤ max_op_blocks) s.ops
  pub room : s.log.n + total s.ops ≤ log_size
  pub alone : (s.log.committing ≡ false) ⊎ (length s.ops ≡ 0)
  pub large : log_size ≤ s.log.size

total-le :
    (ops : Budgets) → All (λ r. r ≤ max_op_blocks) ops → total ops ≤ max_op_blocks * length ops
total-le [] h = omega arith
total-le (r ∷ rs) h = omega (arith, total-le rs h.1)

All-remove :
    (pre : Budgets) (r : ℕ) (post : Budgets)
    → All (λ r. r ≤ max_op_blocks) (pre ++ (r ∷ post))
    → (r ≤ max_op_blocks) × All (λ r. r ≤ max_op_blocks) (pre ++ post)
All-remove [] r post h = h
All-remove (x ∷ pre) r post h = let rest = All-remove pre r post h.1 in (rest.0, (h.0, rest.1))

All-insert :
    (pre : Budgets) (r : ℕ) (post : Budgets)
    → r ≤ max_op_blocks
    → All (λ r. r ≤ max_op_blocks) (pre ++ post)
    → All (λ r. r ≤ max_op_blocks) (pre ++ (r ∷ post))
All-insert [] r post b h = (b, h)
All-insert (x ∷ pre) r post b h = (h.0, All-insert pre r post b h.1)

-- One operation among those in progress.
total-middle :
    (pre : Budgets) (r : ℕ) (post : Budgets)
    → (total (pre ++ (r ∷ post)) ≡ total (pre ++ post) + r)
      × (length (pre ++ (r ∷ post)) ≡ length (pre ++ post) + 1)
total-middle [] r post = omega arith
total-middle (x ∷ pre) r post = omega (arith, total-middle pre r post)

begin-Reserved :
    (g h : Log) (ops : Budgets)
    → Reserved (at g ops)
    → begin_op g ≡ ok tt h
    → Reserved (at h (max_op_blocks ∷ ops))
unfolding begin_op
begin-Reserved g h ops inv e = let bound = total-le ops inv.each in ground (arith)

find_block_bounds :
    (k i : ℕ) (block : ℕ → ℕ) (b : ℕ)
    → (i ≤ find_block k i block b) × (find_block k i block b ≤ i + k)
unfolding find_block
find_block_bounds zero i block b = omega arith
find_block_bounds (suc k) i block b = ground (arith, find_block_bounds k (i + 1) block b)

write-Reserved :
    (g h : Log) (b r : ℕ) (pre post : Budgets)
    → Reserved (at g (pre ++ (suc r ∷ post)))
    → log_write b g ≡ ok tt h
    → Reserved (at h (pre ++ (r ∷ post)))
unfolding log_write
write-Reserved g h b r pre post inv e =
    let (small, others) = All-remove pre (suc r) post inv.each in
    let each = All-insert pre r post (omega arith) others in
    let before = total-middle pre (suc r) post in
    let after = total-middle pre r post in ground (arith)

end-Reserved :
    (g h : Log) (last : Bool) (r : ℕ) (pre post : Budgets)
    → Reserved (at g (pre ++ (r ∷ post)))
    → end_section g ≡ ok last h
    → Reserved (at h (pre ++ post))
unfolding end_section
end-Reserved g h last r pre post inv e =
    let each = All-remove pre r post inv.each in
    let before = total-middle pre r post in ground (arith)

-- A commit empties the log and leaves the counts alone.
commit-counts :
    (g : Log)
    → ((commit g).n ≡ 0)
      × ((commit g).locked ≡ g.locked)
      × ((commit g).outstanding ≡ g.outstanding)
      × ((commit g).size ≡ g.size)
unfolding commit write_log write_head install_trans
commit-counts g = ground arith

commit-Reserved :
    (g h : Log) (ops : Budgets)
    → Reserved (at g ops)
    → commit_section g ≡ ok tt h
    → Reserved (at h ops)
unfolding commit_section
commit-Reserved g h ops inv e = ground (arith, commit-counts g)

Step-Reserved : {s t : State} → Reserved s → Step s t → Reserved t
Step-Reserved {s} inv (begin {g} e) = begin-Reserved s.log g s.ops inv e
Step-Reserved {s} inv (write {g} b r pre post at' e) =
    write-Reserved s.log g b r pre post (subst (λ o. Reserved (at s.log o)) at' inv) e
Step-Reserved {s} inv (end {g} {last} r pre post at' e) =
    end-Reserved s.log g last r pre post (subst (λ o. Reserved (at s.log o)) at' inv) e
Step-Reserved {s} inv (finish {g} busy e) = commit-Reserved s.log g s.ops inv e

pub Reach-Reserved : {s t : State} → Reserved s → Reach s t → Reserved t
Reach-Reserved inv here = inv
Reach-Reserved inv (next r st) = Step-Reserved (Reach-Reserved inv r) st

-- The last block that the operations in progress may log, on an area of just LOGSIZE blocks, the
-- first of which is the header.
abbrev pub IsLast : State → Type 0
IsLast s = (suc s.log.n ≡ log_size) × (s.log.size ≡ log_size) × (total s.ops ≡ 1)

log_write-ok :
    (g : Log) (b r : ℕ) (pre post : Budgets)
    → Reserved (at g (pre ++ (suc r ∷ post)))
    → (log_write b g ≢ panic) ⊎ IsLast (at g (pre ++ (suc r ∷ post)))
unfolding log_write
log_write-ok g b r pre post inv =
    let before = total-middle pre (suc r) post in
    elim (Bool-cases (leb (g.size - 1) g.n)) [
      | inl e ↦ inr (ground arith, ground arith, ground arith)
      | inr e ↦ inl (ground arith)
    ]

end_section-ok :
    (g : Log) (r : ℕ) (pre post : Budgets)
    → Reserved (at g (pre ++ (r ∷ post)))
    → end_section g ≢ panic
unfolding end_section
end_section-ok g r pre post inv = let before = total-middle pre r post in ground (arith)

commit_section-ok : (g : Log) (ops : Budgets) → Reserved (at g ops) → commit_section g ≢ panic
unfolding commit_section
commit_section-ok g ops inv = ground (arith, commit-counts g)

-- What an operation with the budget `r` can count on in `s`.
abbrev pub IsServed : State → ℕ → Type 0
IsServed s zero = end_section s.log ≢ panic
IsServed s (suc r) =
    (end_section s.log ≢ panic) × ((b : ℕ) → (log_write b s.log ≢ panic) ⊎ IsLast s)

IsServed-middle :
    (g : Log) (r : ℕ) (pre post : Budgets)
    → Reserved (at g (pre ++ (r ∷ post)))
    → IsServed (at g (pre ++ (r ∷ post))) r
IsServed-middle g zero pre post inv = end_section-ok g zero pre post inv
IsServed-middle g (suc r) pre post inv =
    (end_section-ok g (suc r) pre post inv, λ b. log_write-ok g b r pre post inv)

-- All operations from the place behind `pre` on.
IsServed-from :
    (g : Log) (ops pre post : Budgets)
    → ops ≡ pre ++ post
    → Reserved (at g ops)
    → All (IsServed (at g ops)) post
IsServed-from g ops pre [] e inv = tt
IsServed-from g ops pre (r ∷ post) e inv = (
  subst (λ o. IsServed (at g o) r) (sym e)
      (IsServed-middle g r pre post (subst (λ o. Reserved (at g o)) e inv)),
  IsServed-from g ops (pre ++ (r ∷ [])) post (e ∙ sym (append_assoc pre (r ∷ []) post)) inv,
)

-- From a log whose reservations fit, with an area of at least LOGSIZE blocks, under every
-- interleaving of the critical sections of operations that call log_write at most MAXOPBLOCKS times
-- each: the log holds at most LOGSIZE blocks; for each operation in progress, whatever it has still
-- to write, the section of its end_op does not panic, nor does the commit behind that; and while it
-- may still call log_write, that call does not panic, but for the last one that all operations
-- together have left, on an area of no more than LOGSIZE blocks that holds LOGSIZE - 1.
pub reservations_hold :
    {s t : State}
    → Reserved s
    → Reach s t
    → (t.log.n ≤ log_size) × (commit_section t.log ≢ panic) × All (IsServed t) t.ops
reservations_hold {t} inv reach =
    let now = Reach-Reserved inv reach in
    (
      omega (arith, now.room),
      commit_section-ok t.log t.ops now,
      IsServed-from t.log t.ops [] t.ops refl now,
    )
