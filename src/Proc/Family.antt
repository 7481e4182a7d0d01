-- ===== src/Proc/Family.antt =====
-- exit and reparent of kernel/proc.c: parents and children.
use minios.Base.{
  ℕ, zero, suc, ◌+◌, ◌≡◌, ◌≢◌, inl, inr, refl, true, false, Option, some, ◌==◌, ltb, if◌then◌else◌,
  arith, Bool-cases, ◌∙◌,
}
use minios.Proc.{
  Proc, zombie, nproc, is_parent, set_proc, Services, Table, wakeup, reparent_one, reparent_loop,
  reparent, exit, parent_chan, close_files,
}
use minios.Proc.Signals.{wakeup_lem, in_range}

wakeup-parent : (me c : ℕ) (ps : ℕ → Proc) (j : ℕ) → (wakeup me c ps j).parent ≡ (ps j).parent
wakeup-parent me c ps j = ground (arith, wakeup_lem me c ps j)

module _ (S : Services) (address : ℕ → ℕ) (forkret : ℕ) where
  -- The parent of a slot once the children of `p` are init's.
  abbrev pub adopted : ℕ → ℕ → Option ℕ → Option ℕ
  adopted p init o = if is_parent o p then some init else o

  reparent_one_self :
      (i p init : ℕ) (ps : ℕ → Proc)
      → (reparent_one S address forkret i p init ps i).parent ≡ adopted p init (ps i).parent
  unfolding reparent_one
  reparent_one_self i p init ps =
      let qs = set_proc ps i (let pp = ps i in record pp { parent = some init }) in
      ground (arith, wakeup-parent p (address init) qs i)

  reparent_one_other :
      (i p init : ℕ) (ps : ℕ → Proc) (j : ℕ)
      → (j == i) ≡ false
      → (reparent_one S address forkret i p init ps j).parent ≡ (ps j).parent
  unfolding reparent_one
  reparent_one_other i p init ps j ne =
      let qs = set_proc ps i (let pp = ps i in record pp { parent = some init }) in
      ground (arith, wakeup-parent p (address init) qs j)

  reparent_loop_lem :
      (k i p init : ℕ) (ps : ℕ → Proc) (j : ℕ)
      → (reparent_loop S address forkret k i p init ps j).parent
        ≡ (if in_range i k j then adopted p init (ps j).parent else (ps j).parent)
  unfolding reparent_loop
  reparent_loop_lem zero i p init ps j = let out : in_range i 0 j ≡ false = ground arith in rw out
  reparent_loop_lem (suc k) i p init ps j =
      let ps1 = reparent_one S address forkret i p init ps in
      let ih = reparent_loop_lem k (i + 1) p init ps1 j in
      elim (Bool-cases (j == i)) [
        | inl e ↦
            let e' : j ≡ i = ground arith in
            let out : in_range (i + 1) k j ≡ false = ground arith in
            let here : in_range i (suc k) j ≡ true = ground arith in
            rw here (ih ∙ rw out (rw e' (reparent_one_self i p init ps)))
        | inr ne ↦
            let same = reparent_one_other i p init ps j ne in
            let range : in_range (i + 1) k j ≡ in_range i (suc k) j = ground arith in
            ih ∙ rw (range, same) refl
      ]

  reparent-parent :
      (p init : ℕ) (ps : ℕ → Proc) (j : ℕ)
      → (reparent S address forkret p init ps j).parent
        ≡ (if ltb j nproc then adopted p init (ps j).parent else (ps j).parent)
  unfolding reparent
  reparent-parent p init ps j =
      let range : in_range 0 64 j ≡ ltb j 64 = ground arith in
      reparent_loop_lem 64 0 p init ps j ∙ rw range refl

  -- A process that exits, which init may not, ends as a ZOMBIE with its exit status; every child
  -- that it had in the table has become init's, and every other slot keeps its parent.
  pub exit_lem :
      (me status : ℕ) (t : Table S.M) {t' : Table S.M} (j : ℕ)
      → exit S address forkret me status t ≡ some t'
      → (me ≢ t.initproc)
        × ((t'.procs me).state ≡ zombie)
        × ((t'.procs me).xstate ≡ status)
        × ((t'.procs j).parent ≡ (
            if ltb j nproc then adopted me t.initproc (t.procs j).parent else (t.procs j).parent))
  unfolding exit
  exit_lem me status t {t'} j e =
      let p = t.procs me in
      let files = (close_files S address forkret 16 0 p.ofile t.mem).0 in
      let ps0 = set_proc t.procs me (record p { ofile = files; cwd = 0 }) in
      let ps1 = reparent S address forkret me t.initproc ps0 in
      let chan = parent_chan S address forkret (ps1 me).parent in
      let woken = wakeup-parent me chan ps1 in
      (
        ground arith,
        ground arith,
        ground arith,
        ground (arith, woken j, woken me, reparent-parent me t.initproc ps0 j),
      )
