-- ===== src/Proc/Pids.antt =====
-- The pids of kernel/proc.c: no two processes of the table have the same.
use minios.Base.{
  ℕ, zero, suc, ◌+◌, ◌≤◌, ◌<◌, ◌≡◌, ◌⊎◌, inl, inr, refl, true, false, Option, none, some, ◌==◌,
  arith, ℤ, pos, negsuc, Bool-cases, Option-cases, ◌∙◌, ap, sym, subst, ◌^◌,
}
use minios.Printf.{as_int}
use minios.Proc.{
  Proc, is_unused, find_unused, Services, Table, freeproc, setup_proc, allocproc, fork, fork_into,
}

-- Every process has a pid that was given out, and no other process has it.
pub record AreUnique (ps : ℕ → Proc) (nextpid : ℕ) : Type 0 where
  pub given : (i : ℕ) → is_unused (ps i).state ≡ false → (ps i).pid < nextpid
  pub alone :
      (i j : ℕ)
      → is_unused (ps i).state ≡ false
      → is_unused (ps j).state ≡ false
      → (ps i).pid ≡ (ps j).pid
      → i ≡ j

find_unused_lem :
    (k i : ℕ) (ps : ℕ → Proc) {j : ℕ}
    → find_unused k i ps ≡ some j
    → (is_unused (ps j).state ≡ true) × (i ≤ j) × (j < i + k)
unfolding find_unused
find_unused_lem zero i ps e = absurd (cc)
find_unused_lem (suc k) i ps {j} e = elim (Bool-cases (is_unused (ps i).state)) [
  | inl hit ↦ ground arith
  | inr miss ↦ ground (arith, find_unused_lem k (i + 1) ps {j = j})
]

-- A table in which only slot `i` differs: it holds no process, or the one of the next pid.
data Differs (i : ℕ) (ps : ℕ → Proc) (n : ℕ) (qs : ℕ → Proc) (m : ℕ) : Type 0 where
  emptied :
      ((j : ℕ) → (j == i) ≡ false → qs j ≡ ps j)
      → is_unused (qs i).state ≡ true
      → n ≤ m
      → Differs i ps n qs m
  filled : ((j : ℕ) → (j == i) ≡ false → qs j ≡ ps j) → (qs i).pid ≡ n → n < m → Differs i ps n qs m

Differs-AreUnique :
    {i : ℕ} {ps : ℕ → Proc} {n : ℕ} {qs : ℕ → Proc} {m : ℕ}
    → AreUnique ps n
    → Differs i ps n qs m
    → AreUnique qs m
Differs-AreUnique {i} {qs} u (emptied same gone le) = record {
  given = λ j live. elim (Bool-cases (j == i)) [
    | inl e ↦ ground arith
    | inr ne ↦ ground (arith, same j ne, u.given j)
  ];
  alone = λ j k hj hk e. elim (Bool-cases (j == i)) [
    | inl ej ↦ ground arith
    | inr nj ↦ elim (Bool-cases (k == i)) [
      | inl ek ↦ ground arith
      | inr nk ↦ ground (arith, same j nj, same k nk, u.alone j k)
    ]
  ];
}
Differs-AreUnique {i} {qs} u (filled same new lt) = record {
  given = λ j live. elim (Bool-cases (j == i)) [
    | inl e ↦ ground arith
    | inr ne ↦ ground (arith, same j ne, u.given j)
  ];
  alone = λ j k hj hk e. elim (Bool-cases (j == i)) [
    | inl ej ↦ elim (Bool-cases (k == i)) [
      | inl ek ↦ ground arith
      | inr nk ↦ ground (arith, same k nk, u.given k)
    ]
    | inr nj ↦ elim (Bool-cases (k == i)) [
      | inl ek ↦ ground (arith, same j nj, u.given j)
      | inr nk ↦ ground (arith, same j nj, same k nk, u.alone j k)
    ]
  ];
}

-- An int that is not negative.
as_int-small : (n : ℕ) → n < 2 ^ 31 → as_int n ≡ pos n
as_int-small n lt = ground arith

module _ (S : Services) (address : ℕ → ℕ) (forkret : ℕ) where
  setup_proc-Differs :
      (i : ℕ) (t : Table S.M)
      → t.nextpid + 1 < 2 ^ 31
      → let (o, t') = setup_proc S address forkret i t in
        Differs i t.procs t.nextpid t'.procs t'.nextpid
        × ((o ≡ none) ⊎ ((o ≡ some i) × ((t'.procs i).pid ≡ t.nextpid) × (t.nextpid < t'.nextpid)))
        × ((j : ℕ) → (j == i) ≡ false → t'.procs j ≡ t.procs j)
  unfolding setup_proc
  setup_proc-Differs i t small = elim (Bool-cases ((S.kalloc t.mem).0 == 0)) [
    | inl no_frame ↦ rw no_frame (
      emptied (λ j ne. ground arith) (ground arith) (omega arith),
      inl refl,
      λ j ne. ground arith,
    )
    | inr frame ↦
        rw frame
          (elim (Bool-cases ((S.proc_pagetable (S.kalloc t.mem).0 (S.kalloc t.mem).1).0 == 0)) [
            | inl no_table ↦ rw no_table (
              emptied (λ j ne. ground arith) (ground arith) (omega arith),
              inl refl,
              λ j ne. ground arith,
            )
            | inr table ↦ rw table (
              filled (λ j ne. ground arith) (ground arith) (omega arith),
              inr (refl, ground arith, omega arith),
              λ j ne. ground arith,
            )
          ])
  ]

  freeproc-Differs :
      (i : ℕ) (t : Table S.M)
      → Differs i t.procs t.nextpid
          (freeproc S address forkret i t).procs
          (freeproc S address forkret i t).nextpid
  unfolding freeproc
  freeproc-Differs i t = emptied (λ j ne. ground arith) (ground arith) (omega arith)

  -- `fork` after allocproc() has filled slot `i` with the pid `n`.
  fork_into-Differs :
      (me i n : ℕ) (t : Table S.M)
      → (t.procs i).pid ≡ n
      → n < t.nextpid
      → let (v, t') = fork_into S address forkret me i t in
        Differs i t.procs n t'.procs t'.nextpid × ((v ≡ negsuc 0) ⊎ (v ≡ as_int n))
  unfolding fork_into
  fork_into-Differs me i n t own lt =
      let p = t.procs me in
      elim (Bool-cases (S.uvmcopy p.pagetable (t.procs i).pagetable p.sz t.mem).0) [
        | inl copied ↦
            rw copied
              (filled (λ j ne. ground arith) (ground arith) (omega arith), inr (ap as_int own))
        | inr failed ↦
            rw failed (emptied (λ j ne. ground arith) (ground arith) (omega arith), inl refl)
      ]

  Differs-again :
      {i : ℕ} {ps : ℕ → Proc} {n : ℕ} {qs rs : ℕ → Proc} {m : ℕ}
      → ((j : ℕ) → (j == i) ≡ false → qs j ≡ ps j)
      → Differs i qs n rs m
      → Differs i ps n rs m
  Differs-again same (emptied more gone le) = emptied (λ j ne. more j ne ∙ same j ne) gone le
  Differs-again same (filled more new lt) = filled (λ j ne. more j ne ∙ same j ne) new lt

  abbrev Allocated : ℤ × Table S.M → Table S.M → Type 0
  Allocated r t = AreUnique r.1.procs r.1.nextpid × ((r.0 ≡ negsuc 0) ⊎ (r.0 ≡ as_int t.nextpid))

  -- `fork` with the result of allocproc().
  fork_with : ℕ → Option ℕ × Table S.M → ℤ × Table S.M
  fork_with me (none, t) = (negsuc 0, t)
  fork_with me (some i, t) = fork_into S address forkret me i t

  fork-fork_with :
      (me : ℕ) (t : Table S.M)
      → fork S address forkret me t ≡ fork_with me (allocproc S address forkret t)
  unfolding fork fork_with
  fork-fork_with me t = ground arith

  allocproc-found :
      (i : ℕ) (t : Table S.M)
      → find_unused 64 0 t.procs ≡ some i
      → allocproc S address forkret t ≡ setup_proc S address forkret i t
  unfolding allocproc
  allocproc-found i t e = rw (e, allocproc)

  allocproc-full :
      (t : Table S.M) → find_unused 64 0 t.procs ≡ none → allocproc S address forkret t ≡ (none, t)
  unfolding allocproc
  allocproc-full t e = rw (e, allocproc)

  fork-Allocated :
      (me : ℕ) (t : Table S.M)
      → t.nextpid + 1 < 2 ^ 31
      → AreUnique t.procs t.nextpid
      → Allocated (fork S address forkret me t) t
  unfolding fork_with
  fork-Allocated me t small u = elim (Option-cases (find_unused 64 0 t.procs)) [
    | inl full ↦
        subst (λ r. Allocated r t)
          (sym (fork-fork_with me t ∙ ap (fork_with me) (allocproc-full t full))) (u, inl refl)
    | inr (i, found) ↦
        let (diff, outcome, same) = setup_proc-Differs i t small in
        let r = setup_proc S address forkret i t in
        let step = fork-fork_with me t ∙ ap (fork_with me) (allocproc-found i t found) in
        elim outcome [
          | inl failed ↦
              subst (λ q. Allocated q t) (sym (step ∙ ap (λ o. fork_with me (o, r.1)) failed))
                (Differs-AreUnique u diff, inl refl)
          | inr (some_slot, own, lt) ↦
              let (last, value) = fork_into-Differs me i t.nextpid r.1 own lt in
              subst (λ q. Allocated q t) (sym (step ∙ ap (λ o. fork_with me (o, r.1)) some_slot))
                (Differs-AreUnique u (Differs-again same last), value)
        ]
  ]

  -- `fork`, as long as nextpid, an int, can be counted on: it keeps the pids of the table's processes
  -- unique and below nextpid, whether it succeeds or not; and it returns -1 or the value that nextpid
  -- had.
  pub fork-AreUnique :
      (me : ℕ) (t : Table S.M)
      → t.nextpid + 1 < 2 ^ 31
      → AreUnique t.procs t.nextpid
      → (let t' = (fork S address forkret me t).1 in AreUnique t'.procs t'.nextpid)
        × (((fork S address forkret me t).0 ≡ negsuc 0)
            ⊎ ((fork S address forkret me t).0 ≡ pos t.nextpid))
  fork-AreUnique me t small u =
      let now = (fork S address forkret me t).0 in
      let (unique, value) = fork-Allocated me t small u in
      (
        unique,
        subst (λ v. (now ≡ negsuc 0) ⊎ (now ≡ v)) (as_int-small t.nextpid (omega arith)) value,
      )
