-- ===== src/Tests/Bytes.antt =====
-- kernel/string.c at concrete memories.
use minios.Base.{◌+◌, ◌-◌, ◌≡◌, refl, [], ◌∷◌, ltb, if◌then◌else◌}
use minios.Bytes.{Mem, memmove, strlen}
use minios.Bytes.Move.{within, slice, memmove_lem}

-- "abcde" at 100, NULs elsewhere.
abbrev letters : Mem
letters a = if ltb a 100 then 0 else if ltb a 105 then a - 3 else 0

memmove_up_overlap : slice (memmove letters 102 100 4) 100 7 ≡ 97 ∷ 98 ∷ 97 ∷ 98 ∷ 99 ∷ 100 ∷ 0 ∷ []
unfolding memmove
memmove_up_overlap = refl

memmove_down_overlap : slice (memmove letters 99 101 3) 99 4 ≡ 98 ∷ 99 ∷ 100 ∷ 99 ∷ []
unfolding memmove
memmove_down_overlap = refl

strlen-letters : strlen 10 letters 100 ≡ 5
unfolding strlen
strlen-letters = refl

memmove_lem_example :
    memmove letters 102 100 4 104
    ≡ (if within 102 4 104 then letters (100 + (104 - 102)) else letters 104)
memmove_lem_example = memmove_lem letters 102 100 4 104
