-- ===== src/Vm.antt =====
-- kernel/vm.c: page tables in the words of physical memory, over the allocator of kernel/kalloc.c.
-- A page-table entry is the word at its address; a physical address of 0 is the null pointer.
pub mod Tables
pub mod Pages
pub mod Growth
pub mod Copy
use minios.Base.{
  ℕ, zero, suc, ◌+◌, ◌-◌, ◌*◌, ◌/◌, ◌%◌, ◌^◌, Bool, true, false, not, ◌&&◌, ◌||◌, ltb, leb, ◌==◌,
  if◌then◌else◌, ℤ, pos, negsuc, min,
}
use minios.Kern.{Outcome, ok, panic, Cmd, pure, ◌>>=◌, ◌>>◌, and_then, panic_if, change}
use minios.Kalloc.{Words, Kmem, page, fill, write, kalloc, kfree, pgroundup}

-- 1L << (9 + 9 + 9 + 12 - 1)
abbrev pub maxva : ℕ
maxva = 2 ^ 38

-- The bits V, R, W, X and U of an entry.
abbrev pub pte_v : ℕ → Bool
pte_v pte = pte % 2 == 1

abbrev pub pte_r : ℕ → Bool
pte_r pte = pte / 2 % 2 == 1

abbrev pub pte_w : ℕ → Bool
pte_w pte = pte / 4 % 2 == 1

abbrev pub pte_x : ℕ → Bool
pte_x pte = pte / 8 % 2 == 1

abbrev pub pte_u : ℕ → Bool
pte_u pte = pte / 16 % 2 == 1

abbrev pub pa2pte : ℕ → ℕ
pa2pte pa = pa / 4096 * 1024

abbrev pub pte2pa : ℕ → ℕ
pte2pa pte = pte / 1024 * 4096

abbrev pub pte_flags : ℕ → ℕ
pte_flags pte = pte % 1024

-- The nine bits of `va` for a level.
abbrev pub px : ℕ → ℕ → ℕ
px zero va = va / 4096 % 512
px (suc zero) va = va / 2097152 % 512
px (suc (suc l)) va = va / 1073741824 % 512

-- &pagetable[PX(level, va)]
abbrev pub slot : ℕ → ℕ → ℕ → ℕ
slot level pagetable va = pagetable + 8 * px level va

abbrev pub set_word : ℕ → ℕ → Kmem → Kmem
set_word a v k = record k { words = write k.words a v }

-- memset(pa, 0, PGSIZE)
abbrev pub zero_page : ℕ → Kmem → Kmem
zero_page pa k = record k { words = fill k.words pa 0 }

-- A new page-table page in the slot at `pte`; 0 when there is no memory.
unfoldable pub grow : ℕ → Cmd Kmem ℕ
grow pte k =
    and_then (kalloc k)
      (λ r k. if r == 0 then ok 0 k else ok r (set_word pte (pa2pte r + 1) (zero_page r k)))

-- The for loop of walk from `level` down: the address of the entry at level 0, or 0.
unfoldable pub walk_loop : ℕ → ℕ → ℕ → Bool → Cmd Kmem ℕ
walk_loop zero pagetable va alloc k = ok (slot 0 pagetable va) k
walk_loop (suc l) pagetable va alloc k =
    let pte = slot (suc l) pagetable va in
    let deeper = walk_loop l (pte2pa (k.words pte)) va alloc k in
    let grown =
      and_then (grow pte k)
        (λ r k. let more = walk_loop l r va alloc k in if r == 0 then ok 0 k else more) in
    if pte_v (k.words pte) then deeper else if alloc then grown else ok 0 k

unfoldable pub walk : ℕ → ℕ → Bool → Cmd Kmem ℕ
walk pagetable va alloc k = if leb maxva va then panic else walk_loop 2 pagetable va alloc k

-- What walkaddr makes of the entry at `pte`.
abbrev pub user_pa : ℕ → Kmem → ℕ
user_pa pte k =
    if pte == 0
    then 0
    else if not (pte_v (k.words pte))
    then 0
    else if not (pte_u (k.words pte))
    then 0
    else pte2pa (k.words pte)

unfoldable pub walkaddr : ℕ → ℕ → Cmd Kmem ℕ
walkaddr pagetable va k =
    if leb maxva va
    then ok 0 k
    else and_then (walk pagetable va false k) (λ pte k. ok (user_pa pte k) k)

-- perm | PTE_V
abbrev pub with_v : ℕ → ℕ
with_v perm = if perm % 2 == 1 then perm else perm + 1

-- The body of the loop of mappages; `next` is what follows.
unfoldable pub map_page : ℕ → ℕ → ℕ → ℕ → Cmd Kmem ℤ → Cmd Kmem ℤ
map_page pagetable a pa perm next k = and_then (walk pagetable a true k) (λ pte k.
    if pte == 0
    then ok (negsuc 0) k
    else if pte_v (k.words pte)
    then panic
    else next (set_word pte (pa2pte pa + with_v perm) k))

-- The for loop of mappages, with `n` pages to go behind this one.
unfoldable pub map_loop : ℕ → ℕ → ℕ → ℕ → ℕ → Cmd Kmem ℤ
map_loop zero pagetable a pa perm = map_page pagetable a pa perm (pure (pos 0))
map_loop (suc n) pagetable a pa perm =
    map_page pagetable a pa perm (map_loop n pagetable (a + page) (pa + page) perm)

unfoldable pub mappages : ℕ → ℕ → ℕ → ℕ → ℕ → Cmd Kmem ℤ
mappages pagetable va size pa perm =
    panic_if (not (va % page == 0))
    >> panic_if (not (size % page == 0))
    >> panic_if (size == 0)
    >> map_loop (size / page - 1) pagetable va pa perm

unfoldable pub kvmmap : ℕ → ℕ → ℕ → ℕ → ℕ → Cmd Kmem (Unit {0})
kvmmap kpgtbl va pa sz perm = mappages kpgtbl va sz pa perm >>= λ r.
    panic_if (elim r [ pos n ↦ not (n == 0) | negsuc n ↦ true ])

-- The for loop of uvmunmap from `a` on, `n` pages left.
unfoldable pub unmap_loop : ℕ → ℕ → ℕ → ℕ → Bool → Cmd Kmem (Unit {0})
unmap_loop end zero pagetable a do_free k = ok tt k
unmap_loop end (suc n) pagetable a do_free k = and_then (walk pagetable a false k) (λ pte k.
    let entry = k.words pte in
    let freed = if do_free then kfree end (pte2pa entry) k else ok tt k in
    if pte == 0
    then panic
    else if not (pte_v entry)
    then panic
    else if pte_flags entry == 1
    then panic
    else and_then freed (λ _ k. unmap_loop end n pagetable (a + page) do_free (set_word pte 0 k)))

unfoldable pub uvmunmap : ℕ → ℕ → ℕ → ℕ → Bool → Cmd Kmem (Unit {0})
uvmunmap end pagetable va npages do_free =
    panic_if (not (va % page == 0)) >> unmap_loop end npages pagetable va do_free

unfoldable pub uvmcreate : Cmd Kmem ℕ
uvmcreate k = and_then (kalloc k) (λ r k. if r == 0 then ok 0 k else ok r (zero_page r k))

unfoldable pub uvmdealloc : ℕ → ℕ → ℕ → ℕ → Cmd Kmem ℕ
uvmdealloc end pagetable oldsz newsz k =
    let low = pgroundup newsz in
    let high = pgroundup oldsz in
    if leb oldsz newsz
    then ok oldsz k
    else if ltb low high
    then and_then (uvmunmap end pagetable low ((high - low) / page) true k) (λ _. pure newsz)
    else ok newsz k

-- The for loop of uvmalloc from `a` on; `base` is the old size, rounded up, and `n` pages are left.
unfoldable pub grow_loop : ℕ → ℕ → ℕ → ℕ → ℕ → ℕ → ℕ → Cmd Kmem ℕ
grow_loop end zero pagetable a base newsz xperm k = ok newsz k
grow_loop end (suc n) pagetable a base newsz xperm k = and_then (kalloc k) (λ mem k.
    let undo = λ (k : Kmem). and_then (uvmdealloc end pagetable a base k) (λ _. pure 0) in
    if mem == 0
    then undo k
    else and_then (mappages pagetable a page mem (2 + 16 + xperm) (zero_page mem k)) (λ r k.
      elim r [
        | pos m ↦ grow_loop end n pagetable (a + page) base newsz xperm k
        | negsuc m ↦ and_then (kfree end mem k) (λ _. undo)
      ]))

-- `xperm` is 0, PTE_W, PTE_X or both, which `+` joins to PTE_R and PTE_U.
unfoldable pub uvmalloc : ℕ → ℕ → ℕ → ℕ → ℕ → Cmd Kmem ℕ
uvmalloc end pagetable oldsz newsz xperm =
    let base = pgroundup oldsz in
    if ltb newsz oldsz
    then pure oldsz
    else grow_loop end ((newsz - base + (page - 1)) / page) pagetable base base newsz xperm

-- memmove(mem, pa, PGSIZE) between pages.
unfoldable pub copy_page : ℕ → ℕ → Kmem → Kmem
copy_page mem pa k =
    let m = k.words in
    record k { words = λ a. if leb mem a && ltb a (mem + page) then m (pa + (a - mem)) else m a }

-- The for loop of uvmcopy from `i` on, `n` pages left.
unfoldable pub copy_loop : ℕ → ℕ → ℕ → ℕ → ℕ → Cmd Kmem ℤ
copy_loop end zero old new i k = ok (pos 0) k
copy_loop end (suc n) old new i k = and_then (walk old i false k) (λ pte k.
    let entry = k.words pte in
    let undo =
      λ (k : Kmem). and_then (uvmunmap end new 0 (i / page) true k) (λ _. pure (negsuc 0)) in
    if pte == 0
    then panic
    else if not (pte_v entry)
    then panic
    else and_then (kalloc k) (λ mem k.
      if mem == 0
      then undo k
      else and_then (mappages new i page mem (pte_flags entry) (copy_page mem (pte2pa entry) k))
          (λ r k. elim r [
            | pos m ↦ copy_loop end n old new (i + page) k
            | negsuc m ↦ and_then (kfree end mem k) (λ _. undo)
          ])))

unfoldable pub uvmcopy : ℕ → ℕ → ℕ → ℕ → Cmd Kmem ℤ
uvmcopy end old new sz = copy_loop end ((sz + (page - 1)) / page) old new 0

-- *pte &= ~PTE_U
unfoldable pub uvmclear : ℕ → ℕ → Cmd Kmem (Unit {0})
uvmclear pagetable va k = and_then (walk pagetable va false k) (λ pte k.
    let entry = k.words pte in
    if pte == 0 then panic else ok tt (set_word pte (if pte_u entry then entry - 16 else entry) k))

-- The byte at `a` of memory; words are little-endian.
abbrev pub byte : Words → ℕ → ℕ
byte m a = m (a - a % 8) / 2 ^ (8 * (a % 8)) % 256

-- memmove(dst + at, (void *)pa, n): the kernel's buffer behind it. `dst` is a function from indices to
-- bytes, for a buffer that lies apart from the page tables and the pages that are read.
abbrev pub get_bytes : Words → ℕ → ℕ → ℕ → (ℕ → ℕ) → ℕ → ℕ
get_bytes m pa at n dst i = if leb at i && ltb i (at + n) then byte m (pa + (i - at)) else dst i

-- The byte at `a` when the bytes of `src` have been moved to the `n` addresses from `pa` on.
abbrev pub byte_over : Words → ℕ → ℕ → (ℕ → ℕ) → ℕ → ℕ
byte_over m pa n src a = if leb pa a && ltb a (pa + n) then src (a - pa) else byte m a

-- The bytes `b` of the word at `a`, from the one at index `j` - 1 down, behind those above.
abbrev pub join_bytes : ℕ → (ℕ → ℕ) → ℕ → ℕ → ℕ
join_bytes zero b a w = w
join_bytes (suc j) b a w = join_bytes j b a (w * 256 + b (a + j))

-- memmove((void *)pa, src, n) in memory, by the words that it reaches.
unfoldable pub put_bytes : Words → ℕ → ℕ → (ℕ → ℕ) → Words
put_bytes m pa n src a = if a % 8 == 0 then join_bytes 8 (byte_over m pa n src) a 0 else m a

-- n = PGSIZE - (va - va0); if(n > len) n = len;
abbrev pub part : ℕ → ℕ → ℕ
part va len = min len (page - va % page)

-- Whether copyout may write by the entry at `pte`.
abbrev pub writable : ℕ → Kmem → Bool
writable pte k = not (pte == 0) && pte_v (k.words pte) && pte_u (k.words pte) && pte_w (k.words pte)

-- The while loop of copyout on `fuel` rounds; `at` is how much of `src` has been copied.
unfoldable pub copyout_loop : ℕ → ℕ → ℕ → (ℕ → ℕ) → ℕ → ℕ → Cmd Kmem ℤ
copyout_loop zero pagetable va src at len k = ok (pos 0) k
copyout_loop (suc fuel) pagetable va src at len k =
    let va0 = va / page * page in
    let n = part va len in
    let go = and_then (walk pagetable va0 false k) (λ pte k.
      let pa0 = pte2pa (k.words pte) in
      let moved = put_bytes k.words (pa0 + (va - va0)) n (λ i. src (at + i)) in
      let rest =
        copyout_loop fuel pagetable (va0 + page) src (at + n) (len - n)
          (record k { words = moved }) in
      if not (writable pte k) then ok (negsuc 0) k else rest) in
    if len == 0 then ok (pos 0) k else if leb maxva va0 then ok (negsuc 0) k else go

unfoldable pub copyout : ℕ → ℕ → (ℕ → ℕ) → ℕ → Cmd Kmem ℤ
copyout pagetable dstva src len = copyout_loop len pagetable dstva src 0 len

-- The while loop of copyin; it returns its value and the buffer.
unfoldable pub copyin_loop : ℕ → ℕ → ℕ → ℕ → ℕ → (ℕ → ℕ) → Cmd Kmem (ℤ × (ℕ → ℕ))
copyin_loop zero pagetable va at len dst k = ok (pos 0, dst) k
copyin_loop (suc fuel) pagetable va at len dst k =
    let va0 = va / page * page in
    let n = part va len in
    let go = and_then (walkaddr pagetable va0 k) (λ pa0 k.
      let moved = get_bytes k.words (pa0 + (va - va0)) at n dst in
      let rest = copyin_loop fuel pagetable (va0 + page) (at + n) (len - n) moved k in
      if pa0 == 0 then ok (negsuc 0, dst) k else rest) in
    if len == 0 then ok (pos 0, dst) k else go

unfoldable pub copyin : ℕ → (ℕ → ℕ) → ℕ → ℕ → Cmd Kmem (ℤ × (ℕ → ℕ))
copyin pagetable dst srcva len = copyin_loop len pagetable srcva 0 len dst
