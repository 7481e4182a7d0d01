-- ===== src/Tests/Kalloc.antt =====
-- Runs of the page allocator, and a witness for each theorem on kernel/kalloc.c.
use minios.Base.{ℕ, ◌≡◌, refl, inl, [], ◌∷◌, arith}
use minios.Kern.{ok}
use minios.Kalloc.{Kmem, kfree}
use minios.Kalloc.Chain.{HasFree, Allocated, kfree_lem, kalloc_lem}

abbrev kernel_end : ℕ
kernel_end = 2147618816

abbrev first_page : ℕ
first_page = 2147622912

abbrev second_page : ℕ
second_page = 2147627008

abbrev no_pages : Kmem
no_pages = record { words = λ a. 0; freelist = 0 }

no_pages-HasFree : HasFree kernel_end no_pages []
no_pages-HasFree = record { chain = refl; pages = tt; distinct = tt }

abbrev one_page : Kmem
one_page = record { words = λ a. 0; freelist = first_page }

one_page-HasFree : HasFree kernel_end one_page (first_page ∷ [])
one_page-HasFree = record {
  chain = (refl, refl);
  pages = ((omega arith, omega arith, omega arith), tt);
  distinct = (tt, tt);
}

kfree_lem_example :
    (k : Kmem) × (kfree kernel_end second_page one_page ≡ ok tt k)
    × HasFree kernel_end k (second_page ∷ first_page ∷ [])
    × (k.words first_page ≡ 0)
kfree_lem_example =
    kfree_lem kernel_end one_page second_page (first_page ∷ []) first_page one_page-HasFree
      (omega arith, omega arith, omega arith) (ground arith, tt) (inl (omega arith))

kalloc_lem_example : Allocated kernel_end one_page (first_page ∷ [])
kalloc_lem_example = kalloc_lem kernel_end one_page (first_page ∷ []) (omega arith) one_page-HasFree
