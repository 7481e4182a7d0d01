-- ===== src/Syscall/Trace.antt =====
-- What a system call of kernel/syscall.c returns and prints.
use native.Mathlib.Nat.{div-eq_of_lt, mul-add-div_right}
use mathlib.Core.List.{append-nil}
use minios.Base.{
  ℕ, ◌+◌, ◌*◌, ◌/◌, ◌%◌, ◌^◌, ◌≤◌, ◌<◌, ◌≡◌, ap, ◌∙◌, inl, inr, refl, Bool, true, false, Option,
  none, some, List, [], ◌∷◌, ◌++◌, ltb, leb, if◌then◌else◌, arith, Bool-cases, pos,
}
use minios.Kern.{Outcome, ok, Cmd}
use minios.Proc.{Proc}
use minios.Printf.{as_int, printint, printf_loop, convert}
use minios.Syscall.{
  Call, call_fork, call_exit, call_wait, call_pipe, call_read, call_kill, call_exec, call_fstat,
  call_chdir, call_dup, call_getpid, call_sbrk, call_sleep, call_uptime, call_open, call_write,
  call_mknod, call_unlink, call_link, call_mkdir, call_close, call_trace, Kernel, nth,
  syscall_names, find_call, print, trace_format, call, is_traced, trace_line, give, dispatch,
  syscall, fetchaddr,
}

-- fetchaddr gives what copyin() gives for an address whose eight bytes are in the process, and
-- fails for any other address, also for one whose end wraps. Sizes are at most 2 ^ 38.
pub fetchaddr_lem :
    (copyin : ℕ → Option ℕ) (sz addr : ℕ)
    → sz ≤ 2 ^ 38
    → fetchaddr copyin sz addr ≡ (if leb (addr + 8) sz then copyin addr else none)
unfolding fetchaddr
fetchaddr_lem copyin sz addr le = elim (Bool-cases (leb (addr + 8) sz)) [
  | inl e ↦
      let out : leb sz addr ≡ false = ground arith in
      let past : ltb sz ((addr + 8) % 2 ^ 64) ≡ false = ground arith in rw (e, out, past) refl
  | inr e ↦ elim (Bool-cases (leb sz addr)) [
    | inl out ↦ rw (e, out) refl
    | inr inside ↦
        let past : ltb sz ((addr + 8) % 2 ^ 64) ≡ true = ground arith in rw (e, inside, past) refl
  ]
]

-- The numbers of kernel/syscall.h.
abbrev pub number : Call → ℕ
number call_fork = 1
number call_exit = 2
number call_wait = 3
number call_pipe = 4
number call_read = 5
number call_kill = 6
number call_exec = 7
number call_fstat = 8
number call_chdir = 9
number call_dup = 10
number call_getpid = 11
number call_sbrk = 12
number call_sleep = 13
number call_uptime = 14
number call_open = 15
number call_write = 16
number call_mknod = 17
number call_unlink = 18
number call_link = 19
number call_mkdir = 20
number call_close = 21
number call_trace = 22

-- What a user calls them.
abbrev pub name_of : Call → List ℕ
name_of call_fork = b'f' ∷ b'o' ∷ b'r' ∷ b'k' ∷ []
name_of call_exit = b'e' ∷ b'x' ∷ b'i' ∷ b't' ∷ []
name_of call_wait = b'w' ∷ b'a' ∷ b'i' ∷ b't' ∷ []
name_of call_pipe = b'p' ∷ b'i' ∷ b'p' ∷ b'e' ∷ []
name_of call_read = b'r' ∷ b'e' ∷ b'a' ∷ b'd' ∷ []
name_of call_kill = b'k' ∷ b'i' ∷ b'l' ∷ b'l' ∷ []
name_of call_exec = b'e' ∷ b'x' ∷ b'e' ∷ b'c' ∷ []
name_of call_fstat = b'f' ∷ b's' ∷ b't' ∷ b'a' ∷ b't' ∷ []
name_of call_chdir = b'c' ∷ b'h' ∷ b'd' ∷ b'i' ∷ b'r' ∷ []
name_of call_dup = b'd' ∷ b'u' ∷ b'p' ∷ []
name_of call_getpid = b'g' ∷ b'e' ∷ b't' ∷ b'p' ∷ b'i' ∷ b'd' ∷ []
name_of call_sbrk = b's' ∷ b'b' ∷ b'r' ∷ b'k' ∷ []
name_of call_sleep = b's' ∷ b'l' ∷ b'e' ∷ b'e' ∷ b'p' ∷ []
name_of call_uptime = b'u' ∷ b'p' ∷ b't' ∷ b'i' ∷ b'm' ∷ b'e' ∷ []
name_of call_open = b'o' ∷ b'p' ∷ b'e' ∷ b'n' ∷ []
name_of call_write = b'w' ∷ b'r' ∷ b'i' ∷ b't' ∷ b'e' ∷ []
name_of call_mknod = b'm' ∷ b'k' ∷ b'n' ∷ b'o' ∷ b'd' ∷ []
name_of call_unlink = b'u' ∷ b'n' ∷ b'l' ∷ b'i' ∷ b'n' ∷ b'k' ∷ []
name_of call_link = b'l' ∷ b'i' ∷ b'n' ∷ b'k' ∷ []
name_of call_mkdir = b'm' ∷ b'k' ∷ b'd' ∷ b'i' ∷ b'r' ∷ []
name_of call_close = b'c' ∷ b'l' ∷ b'o' ∷ b's' ∷ b'e' ∷ []
name_of call_trace = b't' ∷ b'r' ∷ b'a' ∷ b'c' ∷ b'e' ∷ []

find_call-number : (c : Call) → find_call (pos (number c)) ≡ some (number c, c)
unfolding find_call
find_call-number call_fork = refl
find_call-number call_exit = refl
find_call-number call_wait = refl
find_call-number call_pipe = refl
find_call-number call_read = refl
find_call-number call_kill = refl
find_call-number call_exec = refl
find_call-number call_fstat = refl
find_call-number call_chdir = refl
find_call-number call_dup = refl
find_call-number call_getpid = refl
find_call-number call_sbrk = refl
find_call-number call_sleep = refl
find_call-number call_uptime = refl
find_call-number call_open = refl
find_call-number call_write = refl
find_call-number call_mknod = refl
find_call-number call_unlink = refl
find_call-number call_link = refl
find_call-number call_mkdir = refl
find_call-number call_close = refl
find_call-number call_trace = refl

names-number : (c : Call) → nth (number c) syscall_names ≡ some (name_of c)
names-number call_fork = refl
names-number call_exit = refl
names-number call_wait = refl
names-number call_pipe = refl
names-number call_read = refl
names-number call_kill = refl
names-number call_exec = refl
names-number call_fstat = refl
names-number call_chdir = refl
names-number call_dup = refl
names-number call_getpid = refl
names-number call_sbrk = refl
names-number call_sleep = refl
names-number call_uptime = refl
names-number call_open = refl
names-number call_write = refl
names-number call_mknod = refl
names-number call_unlink = refl
names-number call_link = refl
names-number call_mkdir = refl
names-number call_close = refl
names-number call_trace = refl

-- The line for one call.
abbrev pub trace_text : ℕ → List ℕ → ℕ → List ℕ
trace_text pid name r =
    printint (as_int pid) 10
    ++ ((b':' ∷ b' ' ∷ b's' ∷ b'y' ∷ b's' ∷ b'c' ∷ b'a' ∷ b'l' ∷ b'l' ∷ b' ' ∷ [])
        ++ (name ++ ((b' ' ∷ b'-' ∷ b'>' ∷ b' ' ∷ []) ++ (printint (as_int r) 10 ++ (10 ∷ [])))))

print-trace_format :
    (pid r : ℕ) (name : List ℕ) → print trace_format pid (some name) r ≡ trace_text pid name r
unfolding print printf_loop convert
print-trace_format pid r name = refl

-- The bit at `n` of a number, where `hi` stands above it and `lo` below it.
abbrev pub with_bit : ℕ → ℕ → Bool → ℕ → ℕ
with_bit n hi bit lo = (2 * hi + (if bit then 1 else 0)) * 2 ^ n + lo

div-with_bit :
    (n hi lo : ℕ) (bit : Bool)
    → lo < 2 ^ n
    → with_bit n hi bit lo / 2 ^ n ≡ 2 * hi + (if bit then 1 else 0)
div-with_bit n hi lo bit lt =
    let pos : 0 < 2 ^ n = omega arith in
    let over : lo / 2 ^ n ≡ 0 = div-eq_of_lt lt in
    mul-add-div_right pos (2 * hi + (if bit then 1 else 0)) lo
    ∙ ap (λ (k : ℕ). 2 * hi + (if bit then 1 else 0) + k) over
    ∙ omega arith

is_traced-with_bit :
    (n hi lo : ℕ) (bit : Bool) (p : Proc)
    → lo < 2 ^ n
    → p.trace_mask ≡ with_bit n hi bit lo
    → is_traced n p ≡ bit
is_traced-with_bit n hi lo true p lt e = rw (e, div-with_bit n hi lo true lt) (ground arith)
is_traced-with_bit n hi lo false p lt e = rw (e, div-with_bit n hi lo false lt) (ground arith)

module _ {M : Type 0} where
  -- The state `t` with the result `r` in a0, and `line` behind what has been printed.
  abbrev pub returned : Kernel M → ℕ → List ℕ → Kernel M
  returned t r line = record t { regs = record (t.regs) { a0 = r }; printed = t.printed ++ line }

  given :
      (t : Kernel M) (r : ℕ) (line : List ℕ) (bit : Bool)
      → ◌≡◌ {A = Outcome (Kernel M) (Unit {0})}
          (ok tt (
            if bit
            then record t { regs = record (t.regs) { a0 = r }; printed = t.printed ++ line }
            else record t { regs = record (t.regs) { a0 = r } }))
          (ok tt (returned t r (if bit then line else [])))
  given t r line true = refl
  given t r line false = rw (append-nil t.printed) refl

  -- syscall() with the number of a call in a7, read as an int, where the call returns: it leaves the
  -- result in a0, and changes nothing else behind the call but what is printed; it prints nothing when
  -- the bit of the number is clear in the caller's trace mask as the call leaves it; and when the bit
  -- is set, one line, with the caller's pid, the name of the call, and the result.
  pub syscall_lem :
      (others : Call → Cmd (Kernel M) ℕ) (c : Call) (s t : Kernel M) (r hi lo : ℕ) (bit : Bool)
      → as_int s.regs.a7 ≡ pos (number c)
      → call others c s ≡ ok r t
      → lo < 2 ^ number c
      → (t.table.procs s.me).trace_mask ≡ with_bit (number c) hi bit lo
      → syscall others s
        ≡ ok tt
            (returned t r (if bit then trace_text (t.table.procs s.me).pid (name_of c) r else []))
  unfolding syscall dispatch give trace_line
  syscall_lem others c s t r hi lo bit asked came lt mask =
      let line = print-trace_format (t.table.procs s.me).pid r (name_of c) in
      let traced = is_traced-with_bit (number c) hi lo bit (t.table.procs s.me) lt mask in
      rw (asked, find_call-number c, came, names-number c, line, traced) (given t r _ bit)
