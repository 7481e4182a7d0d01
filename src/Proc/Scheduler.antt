-- ===== src/Proc/Scheduler.antt =====
-- scheduler() of kernel/proc.c: the scans of the table on one CPU.
use minios.Base.{ℕ, zero, suc, ◌+◌, ◌≡◌, false, ◌==◌, if◌then◌else◌, Option, some}
use minios.Proc.{nproc, running, is_runnable, Table, set_proc}

-- `v` is `u` but for the state of process `j`, which is RUNNING.
pub record Dispatches {M : Type 0} (j : ℕ) (u v : Table M) : Type 0 where
  pub state : (v.procs j).state ≡ running
  pub same_process : record (v.procs j) { state = (u.procs j).state } ≡ u.procs j
  pub others : (i : ℕ) → (i == j) ≡ false → v.procs i ≡ u.procs i
  pub same_rest : record v { procs = u.procs } ≡ u

-- `swtch current t` is what becomes of the table between swtch(&c->context, &p->context) and the way
-- back to the scheduler, with c->proc = `current` meanwhile. At the other places c->proc is 0.
module _ {M : Type 0} (swtch : Option ℕ → Table M → Table M) where
  -- p->state = RUNNING; c->proc = p; swtch(...); c->proc = 0;
  unfoldable pub run_slot : ℕ → Table M → Table M
  run_slot i t =
      let p = t.procs i in
      swtch (some i) (record t { procs = set_proc t.procs i (record p { state = running }) })

  -- The for loop with `k` slots left from `i` on.
  unfoldable pub scan : ℕ → ℕ → Table M → Table M
  scan zero i t = t
  scan (suc k) i t = scan k (i + 1) (if is_runnable (t.procs i).state then run_slot i t else t)

  -- `rounds` turns of for(;;).
  unfoldable pub scheduler : ℕ → Table M → Table M
  scheduler zero t = t
  scheduler (suc rounds) t = scheduler rounds (scan nproc 0 t)

  -- Process `j` dispatched in `t`.
  abbrev marked : ℕ → Table M → Table M
  marked j t = record t {
    procs = set_proc t.procs j (let p = t.procs j in record p { state = running });
  }
