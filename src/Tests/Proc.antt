-- ===== src/Tests/Proc.antt =====
-- kernel/proc.c at a concrete table: init in slot 0, its child in slot 1 and a child of that, which
-- sleeps, in slot 2.
use minios.Base.{
  ℕ, ◌+◌, ◌<◌, ◌≡◌, ◌≢◌, ◌⊎◌, refl, true, false, [], ltb, ◌==◌, if◌then◌else◌, arith, pos, negsuc,
  none, some,
}
use minios.Proc.{
  Proc, unused, sleeping, running, zombie, Services, Table, nproc, fork, exit, wait, returns,
  sleeps, allocproc, fork_into, dup_files,
}
use minios.Printf.{as_int}
use minios.Proc.Pids.{AreUnique, fork-AreUnique}
use minios.Proc.Family.{adopted, exit_lem}
use minios.Proc.Reaping.{IsChild, Frees, status_out, wait_lem}
use minios.Proc.Sleep
use minios.Proc.Sleep.{Consistent, is_pending, no_lost_wakeup}

abbrev blank : Proc
blank = record {
  state = unused;
  chan = 0;
  killed = false;
  xstate = 0;
  pid = 0;
  parent = none;
  sz = 0;
  pagetable = 0;
  trapframe = 0;
  context_ra = 0;
  context_sp = 0;
  kstack = 0;
  ofile = λ _. 0;
  cwd = 0;
  name = [];
  trace_mask = 0;
}

abbrev procs : ℕ → Proc
procs i =
    if i == 0
    then record blank { state = running; pid = 1 }
    else if i == 1
    then record blank { state = zombie; pid = 2; parent = some 0; xstate = 7 }
    else if i == 2
    then record blank { state = sleeping; chan = 50; pid = 3; parent = some 1; trace_mask = 32 }
    else blank

-- Services that always succeed, and count what is allocated.
abbrev services : Services
services = record {
  M = ℕ;
  kalloc = λ m. (4096, m + 1);
  kfree = λ _ m. m;
  proc_pagetable = λ _ m. (8192, m + 1);
  proc_freepagetable = λ _ _ m. m;
  uvmcopy = λ _ _ _ m. (true, m);
  copy_trapframe = λ _ _ m. m;
  clear_a0 = λ _ m. m;
  copyout = λ _ _ _ m. (true, m);
  filedup = λ _ m. m;
  fileclose = λ _ m. m;
  idup = λ _ m. m;
  iput_op = λ _ m. m;
}

abbrev address : ℕ → ℕ
address i = 1000 + i

abbrev table : Table ℕ
table = record { procs = procs; nextpid = 4; initproc = 0; mem = 0 }

fork_inherits_mask :
    (((fork services address 0 2 table).1.procs 3).trace_mask ≡ 32)
    × ((fork services address 0 2 table).0 ≡ pos 4)
unfolding fork allocproc fork_into dup_files
fork_inherits_mask = (refl, refl)

table-AreUnique : AreUnique procs 4
table-AreUnique = record {
  given = λ i live. ground arith;
  alone = λ i j live_i live_j same. ground arith;
}

fork-AreUnique_example :
    (let t' = (fork services address 0 2 table).1 in AreUnique t'.procs t'.nextpid)
    × (((fork services address 0 2 table).0 ≡ negsuc 0)
        ⊎ ((fork services address 0 2 table).0 ≡ pos 4))
fork-AreUnique_example = fork-AreUnique services address 0 2 table (omega arith) table-AreUnique

wait_lem_example :
    ((i : ℕ) × (i < nproc)
      × IsChild services address 0 procs 0 i
      × ((procs i).state ≡ zombie)
      × (((t' : Table ℕ) × (wait services address 0 0 50 table ≡ returns (as_int (procs i).pid) t')
            × Frees i table t'
            × ((◌≡◌ {A = ℕ} 50 0) ⊎ ((status_out services address 0 0 50 i table).0 ≡ true)))
          ⊎ ((◌≢◌ {A = ℕ} 50 0)
              × ((status_out services address 0 0 50 i table).0 ≡ false)
              × (wait services address 0 0 50 table
                  ≡ returns
                      (negsuc 0)
                      (record table { mem = (status_out services address 0 0 50 i table).1 })))))
    ⊎ (((l : ℕ) → l < nproc → IsChild services address 0 procs 0 l → (procs l).state ≢ zombie)
        × (((wait services address 0 0 50 table ≡ returns (negsuc 0) table)
              × (((l : ℕ) → l < nproc → ¬ IsChild services address 0 procs 0 l)
                  ⊎ ((procs 0).killed ≡ true)))
            ⊎ ((wait services address 0 0 50 table ≡ sleeps (address 0) table)
                × ((j : ℕ) × (j < nproc) × IsChild services address 0 procs 0 j)
                × ((procs 0).killed ≡ false))))
wait_lem_example = wait_lem services address 0 0 50 table

-- The state in which the process of slot 1 has exited.
abbrev exited : Table ℕ
exited = elim (exit services address 0 1 9 table) [ none ↦ table | some t ↦ t ]

exit_runs : exit services address 0 1 9 table ≡ some exited
unfolding exit
exit_runs = refl

exit_lem_example :
    (◌≢◌ {A = ℕ} 1 0)
    × ((exited.procs 1).state ≡ zombie)
    × ((exited.procs 1).xstate ≡ 9)
    × ((exited.procs 2).parent ≡ (
        if ltb 2 nproc then adopted services address 0 1 0 (procs 2).parent else (procs 2).parent))
exit_lem_example = exit_lem services address 0 1 9 table 2 exit_runs

abbrev testing : Sleep.State
testing = record {
  sleeper = Sleep.testing;
  other = Sleep.absent;
  lk = Sleep.waiter;
  plock = Sleep.nobody;
  state = running;
  condition = false;
}

testing-Consistent : Consistent testing
testing-Consistent = record {
  lk_waiter = refl;
  lk_waker = refl;
  p_waiter = refl;
  p_waker = refl;
  marked = λ h. cc;
  awaited = λ h k. cc;
}

abbrev waited : Sleep.State
waited = record {
  sleeper = Sleep.suspended;
  other = Sleep.scanning;
  lk = Sleep.waker;
  plock = Sleep.nobody;
  state = sleeping;
  condition = true;
}

run : Sleep.Reach testing waited
run =
    Sleep.Reach.next
      (Sleep.Reach.next
        (Sleep.Reach.next
          (Sleep.Reach.next
            (Sleep.Reach.next
              (Sleep.Reach.next (Sleep.Reach.next Sleep.Reach.here (Sleep.Step.fail refl refl))
                (Sleep.Step.lock_p refl refl))
              (Sleep.Step.release_lk refl))
            (Sleep.Step.mark refl))
          (Sleep.Step.switch refl))
        (Sleep.Step.arrive refl refl))
      (Sleep.Step.set refl)

no_lost_wakeup_example : is_pending waited.other ≡ true
no_lost_wakeup_example = no_lost_wakeup testing-Consistent run refl refl refl
