-- ===== src/Proc/Reaping.antt =====
-- wait of kernel/proc.c: a parent and its ZOMBIE children.
use mathlib.Core.Bool.{false≢true}
use minios.Base.{
  ℕ, zero, suc, ◌+◌, ◌≤◌, ◌<◌, ◌≡◌, ◌≢◌, ◌⊎◌, inl, inr, refl, Bool, true, false, ◌&&◌, ◌||◌, Option,
  none, some, ◌==◌, ==_refl, arith, negsuc, Bool-cases, ◌∙◌, sym, ap,
}
use minios.Proc.{
  Proc, ProcState, unused, zombie, nproc, is_zombie, is_parent, Services, Table, freeproc,
  find_zombie, wait, returns, sleeps, killed,
}
use minios.Printf.{as_int}

is_parent-eq : (o : Option ℕ) (i : ℕ) → is_parent o i ≡ true → o ≡ some i
is_parent-eq none i e = absurd cc
is_parent-eq (some j) i e = ground arith

is_parent_self : (o : Option ℕ) (i : ℕ) → o ≡ some i → is_parent o i ≡ true
is_parent_self o i e = rw e (==_refl i)

is_zombie-eq : (s : ProcState) → is_zombie s ≡ true → s ≡ zombie
is_zombie-eq zombie e = refl
is_zombie-eq _ e = absurd cc

-- Slot `i` holds no process any more, and all other processes are as they were.
pub record Frees {M : Type 0} (i : ℕ) (t t' : Table M) : Type 0 where
  pub state : (t'.procs i).state ≡ unused
  pub pid : (t'.procs i).pid ≡ 0
  pub parent : (t'.procs i).parent ≡ none
  pub killed : (t'.procs i).killed ≡ false
  pub others : (j : ℕ) → (j == i) ≡ false → t'.procs j ≡ t.procs j
  pub nextpid : t'.nextpid ≡ t.nextpid
  pub initproc : t'.initproc ≡ t.initproc

module _ (S : Services) (address : ℕ → ℕ) (forkret : ℕ) where
  -- The test of the code for a child of `me` in slot `j`.
  abbrev IsMine : (ℕ → Proc) → ℕ → ℕ → Type 0
  IsMine ps me j = is_parent (ps j).parent me ≡ true

  find_zombie_lem :
      (k i me : ℕ) (h : Bool) (ps : ℕ → Proc)
      → let r = find_zombie S address forkret k i me h ps in
        ((j : ℕ) × (r.0 ≡ some j) × (j < i + k) × IsMine ps me j × (is_zombie (ps j).state ≡ true))
        ⊎ ((r.0 ≡ none)
            × ((l : ℕ) → i ≤ l → l < i + k → IsMine ps me l → is_zombie (ps l).state ≡ false)
            × (((r.1 ≡ true) × ((h ≡ true) ⊎ ((j : ℕ) × (j < i + k) × IsMine ps me j)))
                ⊎ ((r.1 ≡ false)
                    × (h ≡ false)
                    × ((l : ℕ) → i ≤ l → l < i + k → is_parent (ps l).parent me ≡ false))))
  unfolding find_zombie
  find_zombie_lem zero i me true ps =
      inr (refl, λ l lo hi c. absurd (omega arith), inl (refl, inl refl))
  find_zombie_lem zero i me false ps =
      inr
        (refl, λ l lo hi c. absurd (omega arith), inr (refl, refl, λ l lo hi. absurd (omega arith)))
  find_zombie_lem (suc k) i me h ps =
      let mine = is_parent (ps i).parent me in
      elim (Bool-cases (mine && is_zombie (ps i).state)) [
        | inl hit ↦ inl (i, rw hit, omega arith, ground arith, ground arith)
        | inr miss ↦ rw miss (elim (find_zombie_lem k (i + 1) me (mine || h) ps) [
          | inl (j, e, lt, c, z) ↦ inl (j, e, omega arith, c, z)
          | inr (e, calm, kids) ↦ inr (
            e,
            λ l lo hi c. elim (Bool-cases (l == i)) [
              | inl same ↦ ground arith
              | inr other ↦ calm l (ground arith) (omega arith) c
            ],
            elim kids [
              | inl (yes', why) ↦ inl (
                yes',
                elim why [
                  | inl now ↦ elim (Bool-cases mine) [
                    | inl own ↦ inr (i, omega arith, own)
                    | inr not_own ↦ inl (ground arith)
                  ]
                  | inr (j, lt, c) ↦ inr (j, omega arith, c)
                ],
              )
              | inr (no', nobody, never) ↦ inr (
                no',
                ground arith,
                λ l lo hi. elim (Bool-cases (l == i)) [
                  | inl same ↦ ground arith
                  | inr other ↦ never l (ground arith) (omega arith)
                ],
              )
            ],
          )
        ])
      ]

  -- Slot `j` holds a child of `me`.
  abbrev pub IsChild : (ℕ → Proc) → ℕ → ℕ → Type 0
  IsChild ps me j = (ps j).parent ≡ some me

  freeproc-Frees :
      (i : ℕ) (t : Table S.M) (m : S.M)
      → Frees i t (freeproc S address forkret i (record t { mem = m }))
  unfolding freeproc
  freeproc-Frees i t m = record {
    state = rw (==_refl i) refl;
    pid = rw (==_refl i) refl;
    parent = rw (==_refl i) refl;
    killed = rw (==_refl i) refl;
    others = λ j e. rw e refl;
    nextpid = refl;
    initproc = refl;
  }

  -- What copyout() of the exit status of slot `i` comes to.
  abbrev pub status_out : ℕ → ℕ → ℕ → Table S.M → Bool × S.M
  status_out me addr i t = S.copyout (t.procs me).pagetable addr (t.procs i).xstate t.mem

  -- As wait_lem, by the tests of the code.
  wait-cases :
      (me addr : ℕ) (t : Table S.M)
      → ((i : ℕ) × (i < nproc)
          × IsMine t.procs me i
          × (is_zombie (t.procs i).state ≡ true)
          × (((t' : Table S.M) × (wait S address forkret me addr t
                  ≡ returns (as_int (t.procs i).pid) t')
                × Frees i t t'
                × ((addr ≡ 0) ⊎ ((status_out me addr i t).0 ≡ true)))
              ⊎ ((addr ≢ 0)
                  × ((status_out me addr i t).0 ≡ false)
                  × (wait S address forkret me addr t
                      ≡ returns (negsuc 0) (record t { mem = (status_out me addr i t).1 })))))
        ⊎ (((l : ℕ) → l < nproc → IsMine t.procs me l → is_zombie (t.procs l).state ≡ false)
            × (((wait S address forkret me addr t ≡ returns (negsuc 0) t)
                  × (((l : ℕ) → l < nproc → is_parent (t.procs l).parent me ≡ false)
                      ⊎ (killed me t.procs ≡ true)))
                ⊎ ((wait S address forkret me addr t ≡ sleeps (address me) t)
                    × ((j : ℕ) × (j < nproc) × IsMine t.procs me j)
                    × (killed me t.procs ≡ false))))
  unfolding wait
  wait-cases me addr t = elim (find_zombie_lem 64 0 me false t.procs) [
    | inl (i, e, lt, c, z) ↦
        let sent = S.copyout (t.procs me).pagetable addr (t.procs i).xstate t.mem in
        inl (
          i,
          omega arith,
          c,
          z,
          elim (Bool-cases (addr == 0)) [
            | inl unasked ↦ inl (
              freeproc S address forkret i t,
              rw (e, unasked, wait) refl,
              freeproc-Frees i t t.mem,
              inl (ground arith),
            )
            | inr asked ↦ elim (Bool-cases sent.0) [
              | inl good ↦ inl (
                freeproc S address forkret i (record t { mem = sent.1 }),
                rw (e, asked, good, wait) refl,
                freeproc-Frees i t sent.1,
                inr good,
              )
              | inr bad ↦ inr (ground arith, bad, rw (e, asked, bad, wait) refl)
            ]
          ],
        )
    | inr (e, calm, kids) ↦ inr (
      λ l hi c. calm l (omega arith) (omega arith) c,
      elim kids [
        | inl (some_kids, why) ↦ elim (Bool-cases (killed me t.procs)) [
          | inl dead ↦ inl (rw (e, some_kids, dead, wait) refl, inr dead)
          | inr alive ↦ inr (
            rw (e, some_kids, alive, wait) refl,
            elim why [ inl h ↦ absurd (false≢true h) | inr (j, lt, c) ↦ (j, omega arith, c) ],
            alive,
          )
        ]
        | inr (no_kids, h, never) ↦
            inl (rw (e, no_kids, wait) refl, inl (λ l hi. never l (omega arith) (omega arith)))
      ],
    )
  ]

  -- `wait` in `me`. If a child in the table is a ZOMBIE, there is one such child for which the call
  -- either returns its pid and frees its slot and no other, where no status was asked for or copyout()
  -- of its status has succeeded, or returns -1 with all processes as they were, where the status was
  -- asked for and copyout() has failed. If none is, it returns -1 with the table as it was when `me`
  -- has no child in the table or has been killed, and it sleeps on its own address otherwise.
  pub wait_lem :
      (me addr : ℕ) (t : Table S.M)
      → ((i : ℕ) × (i < nproc)
          × IsChild t.procs me i
          × ((t.procs i).state ≡ zombie)
          × (((t' : Table S.M) × (wait S address forkret me addr t
                  ≡ returns (as_int (t.procs i).pid) t')
                × Frees i t t'
                × ((addr ≡ 0) ⊎ ((status_out me addr i t).0 ≡ true)))
              ⊎ ((addr ≢ 0)
                  × ((status_out me addr i t).0 ≡ false)
                  × (wait S address forkret me addr t
                      ≡ returns (negsuc 0) (record t { mem = (status_out me addr i t).1 })))))
        ⊎ (((l : ℕ) → l < nproc → IsChild t.procs me l → (t.procs l).state ≢ zombie)
            × (((wait S address forkret me addr t ≡ returns (negsuc 0) t)
                  × (((l : ℕ) → l < nproc → ¬ IsChild t.procs me l) ⊎ ((t.procs me).killed ≡ true)))
                ⊎ ((wait S address forkret me addr t ≡ sleeps (address me) t)
                    × ((j : ℕ) × (j < nproc) × IsChild t.procs me j)
                    × ((t.procs me).killed ≡ false))))
  unfolding killed
  wait_lem me addr t = elim (wait-cases me addr t) [
    | inl (i, lt, c, z, r) ↦
        inl (i, lt, is_parent-eq (t.procs i).parent me c, is_zombie-eq (t.procs i).state z, r)
    | inr (calm, r) ↦ inr (
      λ l lt c z.
          let no' = calm l lt (is_parent_self (t.procs l).parent me c) in
          false≢true (sym no' ∙ ap is_zombie z),
      elim r [
        | inl (v, why) ↦ inl (
          v,
          elim why [
            | inl never ↦
                inl
                  (λ l lt c. false≢true (sym (never l lt) ∙ is_parent_self (t.procs l).parent me c))
            | inr dead ↦ inr dead
          ],
        )
        | inr (v, (j, lt, c), alive) ↦ inr (v, (j, lt, is_parent-eq (t.procs j).parent me c), alive)
      ],
    )
  ]
