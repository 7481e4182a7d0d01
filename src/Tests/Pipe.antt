-- ===== src/Tests/Pipe.antt =====
-- kernel/pipe.c at concrete pipes.
use minios.Base.{◌-◌, ◌≡◌, refl, true, false, [], ◌∷◌, ltb, arith, pos}
use minios.Bytes.{store}
use minios.Pipe.{Pipe, done, Source, pipewrite, piperead, pipeclose, put}
use minios.Pipe.Ring.{IsValid, contents}
use minios.Pipe.Fifo.{State, InOrder, Reach, Step, Reach-InOrder}

abbrev empty : Pipe
empty = record {
  locked = false;
  bytes = λ _. 0;
  nread = 0xffff_fffe;
  nwrite = 0xffff_fffe;
  readopen = true;
  writeopen = true;
  woken = [];
  freed = false;
}

-- The writer's bytes at 100 are 0, 1, 2 and so on; the address 105 is not mapped.
abbrev user : Source
user = record { memory = λ a. a - 100; readable = λ a. ltb a 105 }

-- Writing goes round the end of the counters and stops at the unmapped address.
write_five : contents (pipewrite user false 100 8 0 empty).pipe ≡ 0 ∷ 1 ∷ 2 ∷ 3 ∷ 4 ∷ []
unfolding pipewrite put store
write_five = refl

write_five_code : (pipewrite user false 100 8 0 empty).code ≡ done (pos 5)
unfolding pipewrite put store
write_five_code = refl

read_two :
    (piperead (λ _. true) false 300 2 (pipewrite user false 100 8 0 empty).pipe).out ≡ 0 ∷ 1 ∷ []
unfolding pipewrite piperead put store
read_two = refl

-- A copyout() that fails loses the byte that it was given.
read_lost :
    contents (piperead (λ _. false) false 300 2 (pipewrite user false 100 8 0 empty).pipe).pipe
    ≡ 1 ∷ 2 ∷ 3 ∷ 4 ∷ []
unfolding pipewrite piperead put store
read_lost = refl

empty-IsValid : IsValid empty
empty-IsValid = record {
  free = refl;
  read_fits = omega arith;
  write_fits = omega arith;
  room = omega arith;
}

abbrev start : State
start = record { pipe = empty; sent = []; received = [] }

start-InOrder : InOrder start
start-InOrder = record { valid = empty-IsValid; order = refl }

abbrev closed : State
closed = record start { pipe = (pipeclose true empty).pipe }

Reach-InOrder_example : InOrder closed
Reach-InOrder_example = Reach-InOrder start-InOrder (Reach.next Reach.here (Step.close true))
