-- ===== src/Proc/Signals.antt =====
-- wakeup, kill and reparent of kernel/proc.c: which slots of the table they change, and how.
use minios.Base.{
  ℕ, zero, suc, ◌+◌, ◌≤◌, ◌<◌, ◌≡◌, ◌≢◌, ◌⊎◌, inl, inr, refl, Bool, true, false, not, ◌&&◌, none,
  some, ◌==◌, ltb, leb, if◌then◌else◌, arith, pos, negsuc, Bool-cases, ◌∙◌, ap,
}
use minios.Proc.{
  Proc, runnable, nproc, is_sleeping, set_proc, wake_one, wakeup_loop, wakeup, find_pid, kill,
  mark_killed, Services, Table, setup_proc,
}

abbrev pub in_range : ℕ → ℕ → ℕ → Bool
in_range i k j = leb i j && ltb j (i + k)

-- Whether `wakeup(chan)` in process `me` wakes slot `j`.
abbrev pub wakes : ℕ → ℕ → (ℕ → Proc) → ℕ → Bool
wakes me chan ps j = not (j == me) && (is_sleeping (ps j).state && (ps j).chan == chan)

-- A slot after wakeup() in `me`.
abbrev pub after_wakeup : ℕ → ℕ → (ℕ → Proc) → ℕ → Proc
after_wakeup me chan ps j =
    let p = ps j in if wakes me chan ps j then record p { state = runnable } else p

wake_one_self :
    (i me chan : ℕ) (ps : ℕ → Proc) → wake_one i me chan ps i ≡ after_wakeup me chan ps i
unfolding wake_one
wake_one_self i me chan ps = ground arith

wake_one_other :
    (i me chan : ℕ) (ps : ℕ → Proc) (j : ℕ) → (j == i) ≡ false → wake_one i me chan ps j ≡ ps j
unfolding wake_one
wake_one_other i me chan ps j h = ground arith

wakeup_loop_lem :
    (k i me chan : ℕ) (ps : ℕ → Proc) (j : ℕ)
    → wakeup_loop k i me chan ps j ≡ (if in_range i k j then after_wakeup me chan ps j else ps j)
unfolding wakeup_loop
wakeup_loop_lem zero i me chan ps j = let out : in_range i 0 j ≡ false = ground arith in rw out
wakeup_loop_lem (suc k) i me chan ps j =
    let ps1 = wake_one i me chan ps in
    let ih = wakeup_loop_lem k (i + 1) me chan ps1 j in
    elim (Bool-cases (j == i)) [
      | inl e ↦
          let e' : j ≡ i = ground arith in
          let out : in_range (i + 1) k j ≡ false = ground arith in
          let here : in_range i (suc k) j ≡ true = ground arith in
          rw here (ih ∙ rw out (rw e' (wake_one_self i me chan ps)))
      | inr ne ↦
          let same : ps1 j ≡ ps j = wake_one_other i me chan ps j ne in
          let range : in_range (i + 1) k j ≡ in_range i (suc k) j = ground arith in
          ih ∙ rw (range, same) refl
    ]

-- `wakeup` makes RUNNABLE exactly the processes of the table that sleep on the channel, the caller
-- excepted, and changes nothing else of the table.
pub wakeup_lem :
    (me chan : ℕ) (ps : ℕ → Proc) (j : ℕ)
    → wakeup me chan ps j ≡ (if ltb j nproc then after_wakeup me chan ps j else ps j)
unfolding wakeup
wakeup_lem me chan ps j =
    let range : in_range 0 64 j ≡ ltb j 64 = ground arith in
    wakeup_loop_lem 64 0 me chan ps j ∙ rw range refl

-- The slot that the loop of `kill` stops at is the first with the pid.
find_pid_lem :
    (k i pid : ℕ) (ps : ℕ → Proc)
    → ((j : ℕ) × (find_pid k i pid ps ≡ some j)
        × (i ≤ j)
        × (j < i + k)
        × ((ps j).pid ≡ pid)
        × ((l : ℕ) → i ≤ l → l < j → (ps l).pid ≢ pid))
      ⊎ ((find_pid k i pid ps ≡ none) × ((l : ℕ) → i ≤ l → l < i + k → (ps l).pid ≢ pid))
unfolding find_pid
find_pid_lem zero i pid ps = inr (refl, λ l lo hi. absurd (omega arith))
find_pid_lem (suc k) i pid ps = elim (Bool-cases ((ps i).pid == pid)) [
  | inl hit ↦
      inl (i, rw hit, omega arith, omega arith, ground arith, λ l lo hi. absurd (omega arith))
  | inr miss ↦
      let skip : (l : ℕ) → (l == i) ≡ true → (ps l).pid ≢ pid = (λ l e. ground arith) in
      elim (find_pid_lem k (i + 1) pid ps) [
        | inl (j, e, lo, hi, own, before) ↦ inl (
          j,
          rw miss e,
          omega arith,
          omega arith,
          own,
          λ l lo' hi'. elim (Bool-cases (l == i)) [
            | inl same ↦ skip l same
            | inr other ↦ before l (ground arith) hi'
          ],
        )
        | inr (e, never) ↦ inr (
          rw miss e,
          λ l lo' hi'. elim (Bool-cases (l == i)) [
            | inl same ↦ skip l same
            | inr other ↦ never l (ground arith) (omega arith)
          ],
        )
      ]
]

-- `kill` returns 0 when a slot of the table has the pid: the first such slot comes out killed, and
-- RUNNABLE if it slept, and every other slot stays as it was. It returns -1 when no slot has the
-- pid, and then the table stays as it was.
pub kill_lem :
    (pid : ℕ) (ps : ℕ → Proc)
    → ((i : ℕ) × (i < nproc)
        × ((ps i).pid ≡ pid)
        × ((j : ℕ) → j < i → (ps j).pid ≢ pid)
        × ((kill pid ps).0 ≡ pos 0)
        × ((kill pid ps).1 ≡ set_proc ps i (mark_killed (ps i))))
      ⊎ (((j : ℕ) → j < nproc → (ps j).pid ≢ pid) × (kill pid ps ≡ (negsuc 0, ps)))
unfolding kill
kill_lem pid ps = elim (find_pid_lem 64 0 pid ps) [
  | inl (i, e, lo, hi, own, before) ↦
      inl (i, omega arith, own, λ j h. before j (omega arith) h, rw (e, kill), rw (e, kill))
  | inr (e, never) ↦ inr (λ j h. never j (omega arith) (omega arith), rw (e, kill))
]

module _ (S : Services) (address : ℕ → ℕ) (forkret : ℕ) where
  setup_proc-killed :
      (i : ℕ) (t : Table S.M) {t' : Table S.M}
      → setup_proc S address forkret i t ≡ (some i, t')
      → (t'.procs i).killed ≡ (t.procs i).killed
  unfolding setup_proc
  setup_proc-killed i t e = ground arith

  -- kill(0) finds the first slot of pid 0, such as an UNUSED one, returns 0 and marks the slot killed;
  -- setting the slot up for a new process does not clear the mark, so that the new process starts
  -- killed.
  pub kill_zero_marks_next :
      (i : ℕ) (t : Table S.M) {t' : Table S.M}
      → i < nproc
      → (t.procs i).pid ≡ 0
      → ((j : ℕ) → j < i → (t.procs j).pid ≢ 0)
      → setup_proc S address forkret i (record t { procs = (kill 0 t.procs).1 }) ≡ (some i, t')
      → ((kill 0 t.procs).0 ≡ pos 0) × ((t'.procs i).killed ≡ true)
  kill_zero_marks_next i t lt free first e = elim (kill_lem 0 t.procs) [
    | inl (k, in_table, own, before, value, marked) ↦
        let same : k ≡ i = elim (Bool-cases (ltb k i)) [
          | inl low ↦ absurd (first k (ground arith) own)
          | inr high ↦ elim (Bool-cases (ltb i k)) [
            | inl lo ↦ absurd (before i (ground arith) free)
            | inr hi ↦ ground arith
          ]
        ] in
        (
          value,
          setup_proc-killed i _ e
              ∙ ap (λ (f : ℕ → Proc). (f i).killed) marked
              ∙ rw same (ground arith),
        )
    | inr (never, unchanged) ↦ absurd (never i lt free)
  ]
