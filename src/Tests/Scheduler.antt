-- ===== src/Tests/Scheduler.antt =====
-- The scheduler of kernel/proc.c over processes that yield at once.
use minios.Base.{ℕ, ◌+◌, ◌≡◌, refl, false, Option, none, some, [], ◌==◌, if◌then◌else◌}
use minios.Proc.{Proc, Table, set_proc, runnable, sleeping}
use minios.Proc.Scheduler.{run_slot, scan, scheduler}

abbrev proc : Proc
proc = record {
  state = runnable;
  chan = 0;
  killed = false;
  xstate = 0;
  pid = 1;
  parent = none;
  sz = 0;
  pagetable = 0;
  trapframe = 0;
  context_ra = 0;
  context_sp = 0;
  kstack = 0;
  ofile = λ _. 0;
  cwd = 0;
  name = [];
  trace_mask = 0;
}

-- Processes 2 and 5 are RUNNABLE; `mem` counts the switches.
abbrev table : Table ℕ
table = record {
  procs = λ i. if i == 2 then proc else if i == 5 then proc else record proc { state = sleeping };
  nextpid = 9;
  initproc = 0;
  mem = 0;
}

abbrev yield : Option ℕ → Table ℕ → Table ℕ
yield none t = t
yield (some i) t = record t {
  procs = set_proc t.procs i (let p = t.procs i in record p { state = runnable });
  mem = t.mem + 1;
}

two_turns : (scheduler yield 2 table).mem ≡ 4
unfolding scheduler scan run_slot
two_turns = refl
