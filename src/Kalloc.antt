-- ===== src/Kalloc.antt =====
-- kernel/kalloc.c: the allocator of physical pages. The memory is one of 64-bit words by their
-- addresses, and a free page holds the link to the next one in its first word.
pub mod Chain
pub mod Init
use minios.Base.{
  ℕ, zero, suc, ◌+◌, ◌-◌, ◌*◌, ◌/◌, ◌%◌, Bool, not, ◌||◌, ◌&&◌, ltb, leb, ◌==◌, if◌then◌else◌,
}
use minios.Kern.{Outcome, ok, panic, Cmd, pure, ◌>>=◌, ◌>>◌, panic_if, change}

abbrev pub page : ℕ
page = 4096

-- KERNBASE + 128*1024*1024
abbrev pub phystop : ℕ
phystop = 2147483648 + 134217728

abbrev pub Words : Type 0
Words = ℕ → ℕ

-- `end` is the linker's first address after the kernel.
pub record Kmem : Type 0 where
  pub words : Words
  pub freelist : ℕ

-- memset(pa, c, PGSIZE): each of the eight bytes of a word is `c`.
unfoldable pub fill : Words → ℕ → ℕ → Words
fill m pa c a = if leb pa a && ltb a (pa + page) then c * 72340172838076673 else m a

unfoldable pub write : Words → ℕ → ℕ → Words
write m a v b = if b == a then v else m b

-- r->next = kmem.freelist; kmem.freelist = r;
unfoldable pub link : ℕ → Kmem → Kmem
link pa k = record { words = write k.words pa k.freelist; freelist = pa }

unfoldable pub kfree : ℕ → ℕ → Cmd Kmem (Unit {0})
kfree end pa =
    panic_if (not (pa % page == 0) || ltb pa end || leb phystop pa)
    >> change (λ k. record k { words = fill k.words pa 1 })
    >> change (link pa)

-- The page, or 0 when none is free.
unfoldable pub kalloc : Cmd Kmem ℕ
kalloc k =
    let r = k.freelist in
    if r == 0 then ok 0 k else ok r (record { words = fill k.words r 5; freelist = k.words r })

unfoldable pub pgroundup : ℕ → ℕ
pgroundup sz = (sz + (page - 1)) / page * page

-- The for loop of freerange: the pages from `p` on, as many as fit.
unfoldable pub freerange_loop : ℕ → ℕ → ℕ → Cmd Kmem (Unit {0})
freerange_loop end p zero = pure tt
freerange_loop end p (suc n) = kfree end p >> freerange_loop end (p + page) n

unfoldable pub freerange : ℕ → ℕ → ℕ → Cmd Kmem (Unit {0})
freerange end pa_start pa_end =
    let p = pgroundup pa_start in freerange_loop end p ((pa_end - p) / page)

unfoldable pub kinit : ℕ → Cmd Kmem (Unit {0})
kinit end = freerange end end phystop
