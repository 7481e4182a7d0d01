-- ===== src/Proc.antt =====
-- kernel/proc.c: the process table. A section between acquire and release of a `p->lock`,
-- `wait_lock` or `pid_lock` is one step here, and the calls of the locks themselves do not appear;
-- Proc/Sleep takes `sleep` and `wakeup` apart at their locks. Memory, files and inodes are other
-- components: their operations come as an interface.
pub mod Signals
pub mod Pids
pub mod Family
pub mod Reaping
pub mod Sleep
pub mod Scheduler
use minios.Base.{
  ℕ, zero, suc, ◌+◌, ◌-◌, Bool, true, false, not, ◌&&◌, ◌||◌, Option, none, some, List, [], ◌∷◌,
  ◌++◌, ◌%◌, ◌^◌, ◌==◌, ltb, if◌then◌else◌, ℤ, pos, negsuc,
}
use minios.Printf.{as_int}

abbrev pub nproc : ℕ
nproc = 64

abbrev pub nofile : ℕ
nofile = 16

-- `enum procstate`
pub data ProcState : Type 0 where
  unused used sleeping runnable running zombie : ProcState

abbrev pub is_unused : ProcState → Bool
is_unused unused = true
is_unused _ = false

abbrev pub is_sleeping : ProcState → Bool
is_sleeping sleeping = true
is_sleeping _ = false

abbrev pub is_zombie : ProcState → Bool
is_zombie zombie = true
is_zombie _ = false

abbrev pub is_runnable : ProcState → Bool
is_runnable runnable = true
is_runnable _ = false

-- `struct proc`. A pid is the 32 bits of its int. A pointer is a number, and 0 is the null pointer; `parent` is the index in the
-- table, `trapframe_a0` what a system call returns in the process.
pub record Proc : Type 0 where
  pub state : ProcState
  pub chan : ℕ
  pub killed : Bool
  pub xstate : ℕ
  pub pid : ℕ
  pub parent : Option ℕ
  pub sz : ℕ
  pub pagetable : ℕ
  pub trapframe : ℕ
  pub context_ra : ℕ
  pub context_sp : ℕ
  pub kstack : ℕ
  pub ofile : ℕ → ℕ
  pub cwd : ℕ
  pub name : List ℕ
  pub trace_mask : ℕ

-- What proc.c calls in the other components, over their state `M`. An address 0 or `false` is the
-- failure that the source tests for.
pub record Services : Type 1 where
  pub M : Type 0
  pub kalloc : M → ℕ × M
  pub kfree : ℕ → M → M
  pub proc_pagetable : ℕ → M → ℕ × M
  pub proc_freepagetable : ℕ → ℕ → M → M
  pub uvmcopy : ℕ → ℕ → ℕ → M → Bool × M
  pub copy_trapframe : ℕ → ℕ → M → M
  pub clear_a0 : ℕ → M → M
  pub copyout : ℕ → ℕ → ℕ → M → Bool × M
  pub filedup : ℕ → M → M
  pub fileclose : ℕ → M → M
  pub idup : ℕ → M → M
  pub iput_op : ℕ → M → M

abbrev pub set_proc : (ℕ → Proc) → ℕ → Proc → ℕ → Proc
set_proc ps i p j = if j == i then p else ps j

abbrev pub is_parent : Option ℕ → ℕ → Bool
is_parent none i = false
is_parent (some j) i = j == i

pub record Table (M : Type 0) : Type 0 where
  pub procs : ℕ → Proc
  pub nextpid : ℕ
  pub initproc : ℕ
  pub mem : M

-- What `wakeup(chan)` does to slot `i`; `me` is myproc().
unfoldable pub wake_one : ℕ → ℕ → ℕ → (ℕ → Proc) → ℕ → Proc
wake_one i me chan ps =
    let p = ps i in
    let woken = set_proc ps i (record p { state = runnable }) in
    if not (i == me) then (if is_sleeping p.state && p.chan == chan then woken else ps) else ps

-- for(p = proc; p < &proc[NPROC]; p++), with `k` slots left from `i` on.
unfoldable pub wakeup_loop : ℕ → ℕ → ℕ → ℕ → (ℕ → Proc) → ℕ → Proc
unfolding wake_one
wakeup_loop zero i me chan ps = ps
wakeup_loop (suc k) i me chan ps = wakeup_loop k (i + 1) me chan (wake_one i me chan ps)

unfoldable pub wakeup : ℕ → ℕ → (ℕ → Proc) → ℕ → Proc
unfolding wakeup_loop
wakeup me chan ps = wakeup_loop nproc 0 me chan ps

-- The slot at which the loop of `kill` stops.
unfoldable pub find_pid : ℕ → ℕ → ℕ → (ℕ → Proc) → Option ℕ
find_pid zero i pid ps = none
find_pid (suc k) i pid ps =
    let rest = find_pid k (i + 1) pid ps in if (ps i).pid == pid then some i else rest

abbrev pub mark_killed : Proc → Proc
mark_killed p = record p {
  killed = true;
  state = if is_sleeping p.state then runnable else p.state;
}

unfoldable pub kill : ℕ → (ℕ → Proc) → ℤ × (ℕ → Proc)
unfolding find_pid
kill pid ps = elim (find_pid nproc 0 pid ps) [
  | some i ↦ (pos 0, set_proc ps i (mark_killed (ps i)))
  | none ↦ (negsuc 0, ps)
]

unfoldable pub setkilled : ℕ → (ℕ → Proc) → ℕ → Proc
setkilled i ps = let p = ps i in set_proc ps i (record p { killed = true })

unfoldable pub killed : ℕ → (ℕ → Proc) → Bool
killed i ps = (ps i).killed

-- The first UNUSED slot from `i` on.
unfoldable pub find_unused : ℕ → ℕ → (ℕ → Proc) → Option ℕ
find_unused zero i ps = none
find_unused (suc k) i ps =
    let rest = find_unused k (i + 1) ps in if is_unused (ps i).state then some i else rest

-- `address i` is &proc[i], which `wait` and `exit` use as a channel; `forkret` is its address.
module _ (S : Services) (address : ℕ → ℕ) (forkret : ℕ) where
  open S use {
    M, kalloc, kfree, proc_pagetable, proc_freepagetable, uvmcopy, copy_trapframe, clear_a0,
    copyout, filedup, fileclose, idup, iput_op,
  }

  -- `nextpid` is an int, whose 32 bits are kept.
  unfoldable pub allocpid : Table M → ℕ × Table M
  allocpid t = (t.nextpid, record t { nextpid = (t.nextpid + 1) % 2 ^ 32 })

  -- The fields that `freeproc` clears.
  abbrev pub cleared : Proc → Proc
  cleared p = record p {
    trapframe = 0;
    pagetable = 0;
    sz = 0;
    pid = 0;
    parent = none;
    name = [];
    chan = 0;
    killed = false;
    xstate = 0;
    trace_mask = 0;
    state = unused;
  }

  unfoldable pub freeproc : ℕ → Table M → Table M
  freeproc i t =
      let p = t.procs i in
      let m = (if not (p.trapframe == 0) then kfree p.trapframe t.mem else t.mem) in
      let m' = (if not (p.pagetable == 0) then proc_freepagetable p.pagetable p.sz m else m) in
      record t { procs = set_proc t.procs i (cleared p); mem = m' }

  -- Behind `found:`, in slot `i`.
  unfoldable pub setup_proc : ℕ → Table M → Option ℕ × Table M
  unfolding allocpid freeproc
  setup_proc i t =
      let (pid, t) = allocpid t in
      let p = t.procs i in
      let (tf, m) = kalloc t.mem in
      let q = record p { pid = pid; state = used; trapframe = tf } in
      let t = record t { procs = set_proc t.procs i q; mem = m } in
      if tf == 0
      then (none, freeproc i t)
      else (let (pt, m) = proc_pagetable tf t.mem in
          let r = record q { pagetable = pt } in
          let t = record t { procs = set_proc t.procs i r; mem = m } in
          if pt == 0 then (none, freeproc i t) else (
            some i,
            record t {
              procs =
                  set_proc t.procs i
                    (record r { context_ra = forkret; context_sp = r.kstack + 4096 });
            },
          ))

  unfoldable pub allocproc : Table M → Option ℕ × Table M
  unfolding find_unused setup_proc
  allocproc t = elim (find_unused nproc 0 t.procs) [ some i ↦ setup_proc i t | none ↦ (none, t) ]

  -- for(i = 0; i < NOFILE; i++): the reference counts of the parent's open files.
  unfoldable pub dup_files : ℕ → ℕ → (ℕ → ℕ) → (ℕ → ℕ) → M → (ℕ → ℕ) × M
  dup_files zero i from to m = (to, m)
  dup_files (suc k) i from to m =
      let held = not (from i == 0) in
      dup_files k (i + 1) from (if held then (λ j. if j == i then from i else to j) else to)
        (if held then filedup (from i) m else m)

  -- `fork` once allocproc() has given slot `i`.
  unfoldable pub fork_into : ℕ → ℕ → Table M → ℤ × Table M
  unfolding freeproc
  fork_into me i t =
      let p = t.procs me in
      let np = t.procs i in
      let (copied, m) = uvmcopy p.pagetable np.pagetable p.sz t.mem in
      let t = record t { mem = m } in
      if not copied
      then (negsuc 0, freeproc i t)
      else (let m = clear_a0 np.trapframe (copy_trapframe p.trapframe np.trapframe t.mem) in
          let (files, m) = dup_files nofile 0 p.ofile np.ofile m in
          let m = idup p.cwd m in
          let child = record np {
            sz = p.sz;
            ofile = files;
            cwd = p.cwd;
            trace_mask = p.trace_mask;
            name = p.name;
            parent = some me;
            state = runnable;
          } in
          (as_int np.pid, record t { procs = set_proc t.procs i child; mem = m }))

  unfoldable pub fork : ℕ → Table M → ℤ × Table M
  fork me t =
      let (slot, t) = allocproc t in elim slot [ none ↦ (negsuc 0, t) | some i ↦ fork_into me i t ]

  -- A child of `p` that is handed over wakes init.
  unfoldable pub reparent_one : ℕ → ℕ → ℕ → (ℕ → Proc) → ℕ → Proc
  reparent_one i p init ps =
      let pp = ps i in
      if is_parent pp.parent p
      then wakeup p (address init) (set_proc ps i (record pp { parent = some init }))
      else ps

  unfoldable pub reparent_loop : ℕ → ℕ → ℕ → ℕ → (ℕ → Proc) → ℕ → Proc
  unfolding reparent_one
  reparent_loop zero i p init ps = ps
  reparent_loop (suc k) i p init ps = reparent_loop k (i + 1) p init (reparent_one i p init ps)

  unfoldable pub reparent : ℕ → ℕ → (ℕ → Proc) → ℕ → Proc
  unfolding reparent_loop
  reparent p init ps = reparent_loop nproc 0 p init ps

  unfoldable pub close_files : ℕ → ℕ → (ℕ → ℕ) → M → (ℕ → ℕ) × M
  close_files zero fd ofile m = (ofile, m)
  close_files (suc k) fd ofile m =
      let held = not (ofile fd == 0) in
      close_files k (fd + 1) (if held then (λ j. if j == fd then 0 else ofile j) else ofile)
        (if held then fileclose (ofile fd) m else m)

  abbrev pub parent_chan : Option ℕ → ℕ
  parent_chan none = 0
  parent_chan (some j) = address j

  -- Up to the jump into the scheduler; `none` is the panic of init.
  unfoldable pub exit : ℕ → ℕ → Table M → Option (Table M)
  exit me status t =
      let p = t.procs me in
      let (files, m) = close_files nofile 0 p.ofile t.mem in
      let m = iput_op p.cwd m in
      let ps = reparent me t.initproc (set_proc t.procs me (record p { ofile = files; cwd = 0 })) in
      let ps = wakeup me (parent_chan (ps me).parent) ps in
      let p = ps me in
      let ps = set_proc ps me (record p { xstate = status; state = zombie }) in
      if me == t.initproc then none else some (record t { procs = ps; mem = m })

  -- What one scan of the table by `wait` finds.
  unfoldable pub find_zombie : ℕ → ℕ → ℕ → Bool → (ℕ → Proc) → Option ℕ × Bool
  find_zombie zero i me havekids ps = (none, havekids)
  find_zombie (suc k) i me havekids ps =
      let p = ps i in
      let mine = is_parent p.parent me in
      let rest = find_zombie k (i + 1) me (mine || havekids) ps in
      if mine && is_zombie p.state then (some i, true) else rest

  -- One round of `wait`: its value, or sleep on the own address, after which it is run again.
  pub data Waited : Type 0 where
    returns : ℤ → Table M → Waited
    sleeps : ℕ → Table M → Waited

  unfoldable pub wait : ℕ → ℕ → Table M → Waited
  unfolding killed
  wait me addr t =
      let (found, havekids) = find_zombie nproc 0 me false t.procs in
      elim found [
        | some i ↦
            let pp = t.procs i in
            let (sent, m) = copyout (t.procs me).pagetable addr pp.xstate t.mem in
            if addr == 0
            then returns (as_int pp.pid) (freeproc i t)
            else if not sent
            then returns (negsuc 0) (record t { mem = m })
            else returns (as_int pp.pid) (freeproc i (record t { mem = m }))
        | none ↦
            if not havekids || killed me t.procs
            then returns (negsuc 0) t
            else sleeps (address me) t
      ]
