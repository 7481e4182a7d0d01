-- ===== src/Tests/Syscall.antt =====
-- kernel/syscall.c with calls of a process that traces itself.
use minios.Base.{
  ℕ, ◌+◌, ◌≡◌, refl, true, false, none, some, [], ◌∷◌, leb, ◌==◌, if◌then◌else◌, arith,
}
use minios.Kern.{Outcome, ok, asleep, panic, Cmd}
use minios.Proc.{Proc, running}
use minios.Printf.{digit_loop, printint}
use minios.Syscall.{
  Call, Kernel, find_call, sys_trace, call, dispatch, syscall, fetchaddr, minus_one,
}
use minios.Syscall.Trace.{name_of, returned, trace_text, fetchaddr_lem, syscall_lem}

abbrev proc : Proc
proc = record {
  state = running;
  chan = 0;
  killed = false;
  xstate = 0;
  pid = 3;
  parent = none;
  sz = 4096;
  pagetable = 0;
  trapframe = 0;
  context_ra = 0;
  context_sp = 0;
  kstack = 0;
  ofile = λ _. 0;
  cwd = 0;
  name = b's' ∷ b'h' ∷ [];
  trace_mask = 0;
}

-- trace(1 << SYS_trace)
abbrev asking : Kernel ℕ
asking = record {
  table = record { procs = λ i. proc; nextpid = 9; initproc = 0; mem = 0 };
  me = 5;
  regs = record { a0 = 4194304; a1 = 0; a2 = 0; a3 = 0; a4 = 0; a5 = 0; a7 = 22 };
  ticks = 7;
  printed = [];
}

-- The same process with the mask set.
abbrev tracing : Kernel ℕ
tracing = record asking {
  table = record (asking.table) {
    procs = λ i. if i == 5 then record proc { trace_mask = 4194304 } else proc;
  };
}

abbrev no_others : Call → Cmd (Kernel ℕ) ℕ
no_others c s = panic

syscall_lem_example :
    syscall no_others asking ≡ ok tt (returned tracing 0 (trace_text 3 (name_of Call.call_trace) 0))
unfolding call sys_trace
syscall_lem_example =
    syscall_lem no_others Call.call_trace asking tracing 0 0 0 true refl refl (omega arith) refl

-- The line reads "3: syscall trace -> 0".
traced_text :
    trace_text 3 (b't' ∷ b'r' ∷ b'a' ∷ b'c' ∷ b'e' ∷ []) 0
    ≡ b'3' ∷ b':' ∷ b' ' ∷ b's' ∷ b'y' ∷ b's' ∷ b'c' ∷ b'a' ∷ b'l' ∷ b'l' ∷ b' ' ∷ b't' ∷ b'r'
      ∷ b'a' ∷ b'c' ∷ b'e' ∷ b' ' ∷ b'-' ∷ b'>' ∷ b' ' ∷ b'0' ∷ 10 ∷ []
unfolding printint digit_loop
traced_text = refl

abbrev a0_of : Outcome (Kernel ℕ) (Unit {0}) → ℕ
a0_of (ok r s) = s.regs.a0
a0_of (asleep s) = 0
a0_of panic = 0

-- A number that the array does not have.
unknown_call :
    a0_of (syscall no_others (record asking { regs = record (asking.regs) { a7 = 23 } }))
    ≡ minus_one
unfolding syscall dispatch find_call
unknown_call = refl

-- The last eight bytes of a process, and the seven behind their first.
last_word : fetchaddr some 4096 4088 ≡ some 4088
unfolding fetchaddr
last_word = refl

fetchaddr_lem_example : fetchaddr some 4096 4089 ≡ (if leb (4089 + 8) 4096 then some 4089 else none)
fetchaddr_lem_example = fetchaddr_lem some 4096 4089 (omega arith)
