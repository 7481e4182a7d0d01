-- ===== src/Tests/Vm.antt =====
-- Runs of virtual memory, and a witness for each theorem on kernel/vm.c.
use minios.Base.{ℕ, ◌≡◌, ◌⊎◌, refl, true, [], ◌∷◌, arith, List, ◌+◌, ◌*◌, ◌/◌, ℤ, pos, negsuc}
use minios.Kern.{Outcome, ok, asleep, panic}
use minios.Kalloc.{Kmem}
use minios.Kalloc.Chain.{HasFree}
use minios.Vm.{walk, walk_loop, walkaddr, put_bytes, copyin_loop, copyin}
use minios.Vm.Growth.{Tables, Found, walk_lem}
use minios.Vm.Copy.{CopyEnds, copyin_lem}

abbrev kernel_end : ℕ
kernel_end = 2147618816

abbrev root : ℕ
root = 2147622912

abbrev free_page : ℕ
free_page = 2147627008

-- An empty page table, and one free page.
abbrev memory : Kmem
memory = record { words = λ a. 0; freelist = free_page }

memory-HasFree : HasFree kernel_end memory (free_page ∷ [])
memory-HasFree = record {
  chain = (refl, refl);
  pages = ((omega arith, omega arith, omega arith), tt);
  distinct = (tt, tt);
}

root-Tables : Tables kernel_end 2 root 8192 memory (free_page ∷ []) []
root-Tables = ((omega arith, omega arith, omega arith), (ground arith, tt), tt, tt)

walk_lem_example :
    (a : ℕ) × (k : Kmem) × (left : List ℕ) × (walk root 8192 true memory ≡ ok a k)
    × HasFree kernel_end k left
    × (((a ≡ 0) × (left ≡ [])) ⊎ Found root 8192 a k)
walk_lem_example =
    walk_lem kernel_end root 8192 memory (free_page ∷ []) (omega arith) (omega arith) memory-HasFree
      root-Tables

-- Page tables in which every entry leads to the root again, for the user to read and write.
abbrev circular : Kmem
circular = record { words = λ a. root / 4096 * 1024 + 23; freelist = 0 }

copyin_lem_example : CopyEnds circular root 8190 0 4 (λ i. 7) (copyin root (λ i. 7) 8190 4 circular)
copyin_lem_example = copyin_lem root 8190 4 (λ i. 7) circular

-- The four bytes across the border of two pages, and the place behind them.
abbrev summary : Outcome Kmem (ℤ × (ℕ → ℕ)) → List ℕ
summary (ok (pos n, dst) k) = n ∷ dst 0 ∷ dst 1 ∷ dst 2 ∷ dst 3 ∷ dst 4 ∷ []
summary (ok (negsuc n, dst) k) = []
summary (asleep k) = []
summary panic = []

four_bytes : summary (copyin root (λ i. 7) 8190 4 circular) ≡ 0 ∷ 0 ∷ 0 ∷ 23 ∷ 136 ∷ 7 ∷ []
unfolding copyin copyin_loop walkaddr walk walk_loop
four_bytes = refl

-- Two bytes moved into a word.
moved_word : put_bytes (λ a. 0x1122334455667788) 4098 2 (λ i. i + 1) 4096 ≡ 0x1122334402017788
unfolding put_bytes
moved_word = refl
