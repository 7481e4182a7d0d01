-- ===== src/Tests/Console.antt =====
-- Runs of the console, and a witness for each theorem on kernel/console.c.
use minios.Base.{◌-◌, ◌≡◌, refl, [], ◌∷◌, arith}
use minios.Base.{true, false, not}
use minios.Console.{Cons, consoleintr, consoleread, read_loop, Result, waiting}
use minios.Console.Reading.{Reads, consoleread_lem}
use minios.Console.Typing.{IsValid}
use minios.Console.Editor.{edit, texts, consoleintr_lem}

-- "a" is ready and "b" is typed, with the indices about to wrap.
abbrev b_typed : Cons
b_typed = record {
  buf = λ i. i - 29;
  r = 4294967294;
  w = 4294967295;
  e = 0;
  echoed = [];
  woken = 1;
  dumps = 0;
}

b_typed-IsValid : IsValid b_typed
b_typed-IsValid = record {
  r_fits = omega arith;
  w_fits = omega arith;
  e_fits = omega arith;
  order = refl;
  room = omega arith;
  one_line = (ground arith, tt);
}

consoleintr_lem_example :
    IsValid (consoleintr 13 b_typed) × (texts (consoleintr 13 b_typed) ≡ edit 13 (texts b_typed))
consoleintr_lem_example = consoleintr_lem 13 b_typed (omega arith) b_typed-IsValid

-- The return key makes the line ready.
edit_return : edit 13 (texts b_typed) ≡ record { ready = 97 ∷ 98 ∷ 10 ∷ []; typed = [] }
edit_return = refl

-- Two bytes are wanted, and the ready text has one.
consoleread_lem_example :
    Reads (λ j. not true) false 2 0 [] b_typed (consoleread (λ a. true) false 4096 2 0 b_typed)
consoleread_lem_example = consoleread_lem (λ a. true) false 4096 2 0 b_typed b_typed-IsValid

abbrev first_read : Result
first_read = consoleread (λ a. true) false 4096 2 0 b_typed

first_read_sleeps : (first_read.out ≡ 97 ∷ []) × (first_read.code ≡ waiting 1)
unfolding consoleread read_loop
first_read_sleeps = (refl, refl)
