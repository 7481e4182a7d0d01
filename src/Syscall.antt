-- ===== src/Syscall.antt =====
-- kernel/syscall.c: the dispatch of system calls and the words that it fetches, with the calls of
-- kernel/sysproc.c that only read or set fields of the process.
pub mod Trace
use minios.Base.{
  ℕ, zero, suc, ◌+◌, ◌-◌, ◌/◌, ◌%◌, ◌^◌, Bool, true, false, ◌||◌, Option, none, some, List, [], ◌∷◌,
  ◌++◌, ltb, leb, ◌==◌, if◌then◌else◌, ℤ, pos, negsuc,
}
use minios.Kern.{Outcome, ok, asleep, panic, Cmd}
use minios.Proc.{Table, Proc, set_proc}
use minios.Printf.{as_int, printf_loop}

-- The functions in `syscalls`.
pub data Call : Type 0 where
  call_fork call_exit call_wait call_pipe call_read call_kill call_exec call_fstat call_chdir
        call_dup call_getpid call_sbrk call_sleep call_uptime call_open call_write call_mknod
        call_unlink call_link call_mkdir call_close call_trace :
      Call

-- The registers of the trapframe that a call reads, 64-bit words.
pub record Regs : Type 0 where
  pub a0 : ℕ
  pub a1 : ℕ
  pub a2 : ℕ
  pub a3 : ℕ
  pub a4 : ℕ
  pub a5 : ℕ
  pub a7 : ℕ

-- What a call runs on: the table of processes with the slot `me` of myproc(), its trapframe, the
-- clock, and what printf() has sent to the console.
pub record Kernel (M : Type 0) : Type 0 where
  pub table : Table M
  pub me : ℕ
  pub regs : Regs
  pub ticks : ℕ
  pub printed : List ℕ

abbrev pub nth {ℓ} : {A : Type ℓ} → ℕ → List (Option A) → Option A
nth n [] = none
nth zero (x ∷ xs) = x
nth (suc n) (x ∷ xs) = nth n xs

-- The array of functions; its entry 0 is null.
abbrev pub syscalls : List (Option Call)
syscalls =
    none
    ∷ some call_fork
    ∷ some call_exit
    ∷ some call_wait
    ∷ some call_pipe
    ∷ some call_read
    ∷ some call_kill
    ∷ some call_exec
    ∷ some call_fstat
    ∷ some call_chdir
    ∷ some call_dup
    ∷ some call_getpid
    ∷ some call_sbrk
    ∷ some call_sleep
    ∷ some call_uptime
    ∷ some call_open
    ∷ some call_write
    ∷ some call_mknod
    ∷ some call_unlink
    ∷ some call_link
    ∷ some call_mkdir
    ∷ some call_close
    ∷ some call_trace
    ∷ []

-- The array of names.
abbrev pub syscall_names : List (Option (List ℕ))
syscall_names =
    none
    ∷ some (b'f' ∷ b'o' ∷ b'r' ∷ b'k' ∷ [])
    ∷ some (b'e' ∷ b'x' ∷ b'i' ∷ b't' ∷ [])
    ∷ some (b'w' ∷ b'a' ∷ b'i' ∷ b't' ∷ [])
    ∷ some (b'p' ∷ b'i' ∷ b'p' ∷ b'e' ∷ [])
    ∷ some (b'r' ∷ b'e' ∷ b'a' ∷ b'd' ∷ [])
    ∷ some (b'k' ∷ b'i' ∷ b'l' ∷ b'l' ∷ [])
    ∷ some (b'e' ∷ b'x' ∷ b'e' ∷ b'c' ∷ [])
    ∷ some (b'f' ∷ b's' ∷ b't' ∷ b'a' ∷ b't' ∷ [])
    ∷ some (b'c' ∷ b'h' ∷ b'd' ∷ b'i' ∷ b'r' ∷ [])
    ∷ some (b'd' ∷ b'u' ∷ b'p' ∷ [])
    ∷ some (b'g' ∷ b'e' ∷ b't' ∷ b'p' ∷ b'i' ∷ b'd' ∷ [])
    ∷ some (b's' ∷ b'b' ∷ b'r' ∷ b'k' ∷ [])
    ∷ some (b's' ∷ b'l' ∷ b'e' ∷ b'e' ∷ b'p' ∷ [])
    ∷ some (b'u' ∷ b'p' ∷ b't' ∷ b'i' ∷ b'm' ∷ b'e' ∷ [])
    ∷ some (b'o' ∷ b'p' ∷ b'e' ∷ b'n' ∷ [])
    ∷ some (b'w' ∷ b'r' ∷ b'i' ∷ b't' ∷ b'e' ∷ [])
    ∷ some (b'm' ∷ b'k' ∷ b'n' ∷ b'o' ∷ b'd' ∷ [])
    ∷ some (b'u' ∷ b'n' ∷ b'l' ∷ b'i' ∷ b'n' ∷ b'k' ∷ [])
    ∷ some (b'l' ∷ b'i' ∷ b'n' ∷ b'k' ∷ [])
    ∷ some (b'm' ∷ b'k' ∷ b'd' ∷ b'i' ∷ b'r' ∷ [])
    ∷ some (b'c' ∷ b'l' ∷ b'o' ∷ b's' ∷ b'e' ∷ [])
    ∷ some (b't' ∷ b'r' ∷ b'a' ∷ b'c' ∷ b'e' ∷ [])
    ∷ []

-- argraw(n); another `n` panics.
unfoldable pub argraw : ℕ → Regs → Option ℕ
argraw n r = nth n (some r.a0 ∷ some r.a1 ∷ some r.a2 ∷ some r.a3 ∷ some r.a4 ∷ some r.a5 ∷ [])

-- fetchaddr(addr, ip) in a process of size `sz`; `copyin addr` is the word that copyin() gives, and
-- addr + 8 is a uint64.
unfoldable pub fetchaddr : (ℕ → Option ℕ) → ℕ → ℕ → Option ℕ
fetchaddr copyin sz addr = if leb sz addr || ltb sz ((addr + 8) % 2 ^ 64) then none else copyin addr

-- -1 as a uint64.
abbrev pub minus_one : ℕ
minus_one = 2 ^ 64 - 1

abbrev pub numbered : ℕ → Option Call → Option (ℕ × Call)
numbered n none = none
numbered n (some c) = some (n, c)

-- The number in a7, when it is one that the array has.
unfoldable pub find_call : ℤ → Option (ℕ × Call)
find_call (negsuc n) = none
find_call (pos n) = numbered n (nth n syscalls)

abbrev pub trace_format : List ℕ
trace_format =
    b'%' ∷ b'd' ∷ b':' ∷ b' ' ∷ b's' ∷ b'y' ∷ b's' ∷ b'c' ∷ b'a' ∷ b'l' ∷ b'l' ∷ b' ' ∷ b'%' ∷ b's'
    ∷ b' ' ∷ b'-' ∷ b'>' ∷ b' ' ∷ b'%' ∷ b'd' ∷ 10 ∷ []

abbrev pub unknown_format : List ℕ
unknown_format =
    b'%' ∷ b'd' ∷ b' ' ∷ b'%' ∷ b's' ∷ b':' ∷ b' ' ∷ b'u' ∷ b'n' ∷ b'k' ∷ b'n' ∷ b'o' ∷ b'w' ∷ b'n'
    ∷ b' ' ∷ b's' ∷ b'y' ∷ b's' ∷ b' ' ∷ b'c' ∷ b'a' ∷ b'l' ∷ b'l' ∷ b' ' ∷ b'%' ∷ b'd' ∷ 10 ∷ []

-- The arguments of one call of printf() with one string, which stands at 1 unless it is null.
abbrev pub pointer : Option (List ℕ) → ℕ
pointer none = 0
pointer (some text) = 1

abbrev pub text_of : Option (List ℕ) → List ℕ
text_of none = []
text_of (some text) = text

abbrev pub three : ℕ → ℕ → ℕ → ℕ → ℕ
three x y z i = if i == 0 then x else if i == 1 then y else z

unfoldable pub print : List ℕ → ℕ → Option (List ℕ) → ℕ → List ℕ
print fmt x text y = printf_loop (λ a. text_of text) (three x (pointer text) y) fmt 0

-- if(n < 0) n = 0;
abbrev pub not_below : ℤ → ℕ
not_below (pos n) = n
not_below (negsuc n) = 0

-- An int as a uint64.
abbrev pub extended : ℕ → ℕ
extended w = if ltb w (2 ^ 31) then w else w + (2 ^ 64 - 2 ^ 32)

-- (p->trace_mask >> num) & 1
abbrev pub is_traced : ℕ → Proc → Bool
is_traced num p = p.trace_mask / 2 ^ num % 2 == 1

module _ {M : Type 0} where
  abbrev pub my_proc : Kernel M → Proc
  my_proc s = s.table.procs s.me

  abbrev pub set_mine : Proc → Kernel M → Kernel M
  set_mine p s = record s { table = record (s.table) { procs = set_proc s.table.procs s.me p } }

  abbrev pub set_a0 : ℕ → Kernel M → Kernel M
  set_a0 r s = record s { regs = record (s.regs) { a0 = r } }

  unfoldable pub sys_getpid : Cmd (Kernel M) ℕ
  sys_getpid s = ok (extended (my_proc s).pid) s

  unfoldable pub sys_uptime : Cmd (Kernel M) ℕ
  sys_uptime s = ok s.ticks s

  -- `mask` is an int, and so is the field: the low 32 bits of the word.
  unfoldable pub sys_trace : Cmd (Kernel M) ℕ
  sys_trace s = ok 0 (set_mine (record (my_proc s) { trace_mask = s.regs.a0 % 2 ^ 32 }) s)

  -- The loop of sys_sleep, run again when `ticks` is woken; both counts are uints.
  unfoldable pub sleep_loop : ℕ → ℕ → Cmd (Kernel M) ℕ
  sleep_loop ticks0 n s =
      let slept = (s.ticks + (2 ^ 32 - ticks0)) % 2 ^ 32 in
      if ltb slept n then (if (my_proc s).killed then ok minus_one s else asleep s) else ok 0 s

  unfoldable pub sys_sleep : Cmd (Kernel M) ℕ
  sys_sleep s = sleep_loop s.ticks (not_below (as_int s.regs.a0)) s

  -- The functions of the array; `others` are those that are not above.
  unfoldable pub call : (Call → Cmd (Kernel M) ℕ) → Call → Cmd (Kernel M) ℕ
  call others call_getpid = sys_getpid
  call others call_uptime = sys_uptime
  call others call_trace = sys_trace
  call others call_sleep = sys_sleep
  call others c = others c

  -- Behind the call, with its result in a0; `me` is the slot of `p`, taken before the call.
  unfoldable pub trace_line : ℕ → ℕ → ℕ → Kernel M → Kernel M
  trace_line me num r s =
      let p = s.table.procs me in
      let line = print trace_format p.pid (nth num syscall_names) r in
      if is_traced num p then record s { printed = s.printed ++ line } else s

  unfoldable pub give : ℕ → ℕ → Outcome (Kernel M) ℕ → Outcome (Kernel M) (Unit {0})
  give me num (ok r s) = ok tt (trace_line me num r (set_a0 r s))
  give me num (asleep s) = asleep s
  give me num panic = panic

  unfoldable pub dispatch :
      (Call → Cmd (Kernel M) ℕ) → Option (ℕ × Call) → Cmd (Kernel M) (Unit {0})
  dispatch others (some (num, c)) s = give s.me num (call others c s)
  dispatch others none s =
      let p = my_proc s in
      let line = print unknown_format p.pid (some p.name) s.regs.a7 in
      ok tt (set_a0 minus_one (record s { printed = s.printed ++ line }))

  unfoldable pub syscall : (Call → Cmd (Kernel M) ℕ) → Cmd (Kernel M) (Unit {0})
  syscall others s = dispatch others (find_call (as_int s.regs.a7)) s
