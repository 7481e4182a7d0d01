-- ===== src/Console.antt =====
-- kernel/console.c: the line editor between the UART's interrupts and the readers of the console.
-- A call runs in sections, from taking the lock until it returns or goes to sleep.
pub mod Text
pub mod Typing
pub mod Editor
pub mod Reading
use minios.Base.{
  ℕ, zero, suc, ◌+◌, ◌-◌, ◌%◌, ◌^◌, Bool, true, false, not, ◌&&◌, ◌||◌, List, [], ◌∷◌, ◌++◌, ltb,
  ◌==◌, if◌then◌else◌, ℤ, pos, negsuc,
}

abbrev pub input_buf_size : ℕ
input_buf_size = 128

abbrev pub uint : ℕ
uint = 2 ^ 32

-- `cons`, with the indices r, w and e of the input. `echoed` lists the characters that went through
-- uartputc_sync, `woken` counts the calls of wakeup(&cons.r), and `dumps` those of procdump().
pub record Cons : Type 0 where
  pub buf : ℕ → ℕ
  pub r : ℕ
  pub w : ℕ
  pub e : ℕ
  pub echoed : List ℕ
  pub woken : ℕ
  pub dumps : ℕ

-- x++ and x-- of a uint.
abbrev pub inc : ℕ → ℕ
inc x = (x + 1) % uint

abbrev pub dec : ℕ → ℕ
dec x = (x + (uint - 1)) % uint

-- a - b of two uints.
abbrev pub distance : ℕ → ℕ → ℕ
distance a b = (a + uint - b) % uint

abbrev pub backspace : ℕ
backspace = 256

-- The control characters: C('P'), C('U'), C('H'), '\x7f', C('D'), '\n', '\r'.
abbrev pub ctrl_p : ℕ
ctrl_p = 16

abbrev pub ctrl_u : ℕ
ctrl_u = 21

abbrev pub ctrl_h : ℕ
ctrl_h = 8

abbrev pub delete : ℕ
delete = 127

abbrev pub ctrl_d : ℕ
ctrl_d = 4

abbrev pub newline : ℕ
newline = 10

abbrev pub carriage_return : ℕ
carriage_return = 13

unfoldable pub consputc : ℕ → Cons → Cons
consputc c s = record s {
  echoed = s.echoed ++ (if c == backspace then 8 ∷ 32 ∷ 8 ∷ [] else c ∷ []);
}

-- cons.e--; consputc(BACKSPACE);
unfoldable pub erase : Cons → Cons
erase s = consputc backspace (record s { e = dec s.e })

-- The while loop of Control-U, in at most as many rounds as there are characters behind w.
unfoldable pub kill_line : ℕ → Cons → Cons
unfolding erase
kill_line zero s = s
kill_line (suc n) s =
    let rest = kill_line n (erase s) in
    if not (s.e == s.w) && not (s.buf (dec s.e % input_buf_size) == newline) then rest else s

unfoldable pub store : Cons → ℕ → Cons
store s c = record s {
  buf = λ i. if i == (s.e % input_buf_size) then c % 256 else s.buf i;
  e = inc s.e;
}

-- cons.w = cons.e; wakeup(&cons.r);
unfoldable pub commit_line : Cons → Cons
commit_line s = record s { w = s.e; woken = s.woken + 1 }

unfoldable pub insert : ℕ → Cons → Cons
insert c s =
    let c = if c == carriage_return then newline else c in
    let s = store (consputc c s) c in
    if c == newline || c == ctrl_d || distance s.e s.r == input_buf_size then commit_line s else s

unfoldable pub consoleintr : ℕ → Cons → Cons
consoleintr c s =
    if c == ctrl_p
    then record s { dumps = s.dumps + 1 }
    else if c == ctrl_u
    then kill_line (distance s.e s.w) s
    else if c == ctrl_h || c == delete
    then (if s.e == s.w then s else erase s)
    else if not (c == 0) && ltb (distance s.e s.r) input_buf_size
    then insert c s
    else s

-- What a section of `consoleread` comes to: a return value, or sleep with `i` bytes delivered.
pub data Code : Type 0 where
  done : ℤ → Code
  waiting : ℕ → Code

pub record Result : Type 0 where
  pub code : Code
  pub cons : Cons
  -- what has gone through either_copyout()
  pub out : List ℕ

abbrev pub leave : Code → List ℕ → Cons → Result
leave c out s = record { code = c; cons = s; out = out }

-- while(n > 0), with `k` for `n` and `i` for `target - n`; `writable` tells where either_copyout()
-- succeeds.
unfoldable pub read_loop : (ℕ → Bool) → Bool → ℕ → ℕ → ℕ → List ℕ → Cons → Result
read_loop writable killed dst zero i out s = leave (done (pos i)) out s
read_loop writable killed dst (suc k) i out s =
    let c = s.buf (s.r % input_buf_size) in
    let s' = record s { r = inc s.r } in
    let rest = read_loop writable killed dst k (i + 1) (out ++ (c ∷ [])) s' in
    if s.r == s.w
    then leave (if killed then done (negsuc 0) else waiting i) out s
    else if c == ctrl_d
    then leave (done (pos i)) out (if ltb 0 i then record s' { r = dec s'.r } else s')
    else if not (writable (dst + i))
    then leave (done (pos i)) out s'
    else if c == newline
    then leave (done (pos (i + 1))) (out ++ (c ∷ [])) s'
    else rest

-- A section of `consoleread` that has delivered `i` bytes; the call itself starts at 0.
unfoldable pub consoleread : (ℕ → Bool) → Bool → ℕ → ℕ → ℕ → Cons → Result
unfolding read_loop
consoleread writable killed dst target i = read_loop writable killed dst (target - i) i []
