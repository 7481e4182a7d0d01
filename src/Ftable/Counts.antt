-- ===== src/Ftable/Counts.antt =====
-- The reference counts of kernel/file.c's table, against the list of all references to its entries.
use minios.Base.{
  ℕ, zero, suc, ◌+◌, ◌<◌, ◌≤◌, ◌≡◌, ◌⊎◌, inl, inr, refl, sym, ap, ◌∙◌, subst, false, none, some,
  ltb, ◌==◌, ==_refl, if◌then◌else◌, arith, Bool-cases, List, [], ◌∷◌, ◌++◌,
}
use minios.Kern.{Outcome, ok, Cmd, ◌>>◌}
use minios.Pipe.{pipeclose}
use minios.Fs.Dir.{iput}
use minios.Ftable.{
  Files, File, Kind, fd_none, fd_pipe, fd_inode, fd_device, nfile, set_file, free_file, take_file,
  filealloc, filedup, end_pipe, in_fs,
}

-- How often `f` stands in a list of references.
unfoldable pub count : ℕ → List ℕ → ℕ
count f [] = 0
count f (g ∷ held) = (if f == g then 1 else 0) + count f held

-- The count of every entry is the number of references to it.
abbrev pub IsCounted : Files → List ℕ → Type 0
IsCounted t held = (f : ℕ) → f < nfile → (t.file f).refs ≡ count f held

count_self : (f : ℕ) (held : List ℕ) → count f (f ∷ held) ≡ suc (count f held)
unfolding count
count_self f held = let self = ==_refl f in ground (arith, self)

count_other : (f g : ℕ) (held : List ℕ) → (g == f) ≡ false → count g (f ∷ held) ≡ count g held
unfolding count
count_other f g held e = ground (arith, e)

count_middle :
    (f g : ℕ) (front back : List ℕ) → count f (front ++ g ∷ back) ≡ count f (g ∷ (front ++ back))
unfolding count
count_middle f g [] back = refl
count_middle f g (h ∷ front) back = let ih = count_middle f g front back in omega (arith, ih)

-- An entry that changes its count as the list of its references does.
set_file-IsCounted :
    (f : ℕ) (v : File) (t : Files) (held now : List ℕ)
    → IsCounted t held
    → v.refs ≡ count f now
    → ((g : ℕ) → (g == f) ≡ false → count g now ≡ count g held)
    → IsCounted (set_file f v t) now
set_file-IsCounted f v t held now c own others g lt = elim (Bool-cases (g == f)) [
  | inl e ↦ let same : g ≡ f = ground arith in rw e (own ∙ ap (λ g. count g now) (sym same))
  | inr e ↦ rw e (c g lt ∙ sym (others g e))
]

-- Where it stands, the first free entry from `i` on; else there is none.
pub free_file_lem :
    (n i : ℕ) (t : ℕ → File)
    → ((f : ℕ) × (free_file n i t ≡ some f) × (i ≤ f) × (f < i + n) × ((t f).refs ≡ 0))
      ⊎ ((free_file n i t ≡ none) × ((f : ℕ) → i ≤ f → f < i + n → 0 < (t f).refs))
unfolding free_file
free_file_lem zero i t = inr (refl, λ f h h'. absurd (omega arith))
free_file_lem (suc n) i t = elim (Bool-cases ((t i).refs == 0)) [
  | inl e ↦ inl (i, rw e refl, omega arith, omega arith, ground arith)
  | inr e ↦ elim (free_file_lem n (i + 1) t) [
    | inl (f, found, lo, hi, free) ↦ inl (f, rw e found, omega arith, omega arith, free)
    | inr (missing, used) ↦ inr (
      rw e missing,
      λ f lo hi. elim (Bool-cases (f == i)) [
        | inl same ↦
            let at : f ≡ i = ground arith in
            let own : 0 < (t i).refs = ground arith in subst (λ f. 0 < (t f).refs) (sym at) own
        | inr other ↦ used f (ground arith) (ground arith)
      ],
    )
  ]
]

-- filealloc on a table whose counts are right either takes an entry that nobody refers to and gives
-- the caller the one reference to it, or returns 0, and then every entry is referred to.
pub filealloc_lem :
    (t : Files) (held : List ℕ)
    → IsCounted t held
    → ((f : ℕ) × (u : Files) × (filealloc t ≡ (some f, u))
        × (f < nfile)
        × (count f held ≡ 0)
        × IsCounted u (f ∷ held))
      ⊎ ((filealloc t ≡ (none, t)) × ((f : ℕ) → f < nfile → 0 < count f held))
unfolding filealloc take_file
filealloc_lem t held c = elim (free_file_lem nfile 0 t.file) [
  | inl (f, found, lo, hi, free) ↦
      let v : File = (let v = t.file f in record v { refs = 1 }) in
      let unheld : count f held ≡ 0 = sym (c f hi) ∙ free in
      inl (
        f,
        set_file f v t,
        ap (λ o. take_file o t) found,
        hi,
        unheld,
        set_file-IsCounted f v t held (f ∷ held) c (sym (count_self f held ∙ ap suc unheld))
            (λ g. count_other f g held),
      )
  | inr (missing, used) ↦ inr (
    ap (λ o. take_file o t) missing,
    λ f lt. subst (λ n. 0 < n) (c f lt) (used f (omega arith) lt),
  )
]

-- filedup by one who has a reference never panics, and adds one reference to the entry.
pub filedup_lem :
    (t : Files) (front back : List ℕ) (f : ℕ)
    → f < nfile
    → IsCounted t (front ++ f ∷ back)
    → (u : Files) × (filedup f t ≡ ok f u) × IsCounted u (f ∷ (front ++ f ∷ back))
unfolding filedup
filedup_lem t front back f lt c =
    let held = front ++ f ∷ back in
    let v : File = (let v = t.file f in record v { refs = v.refs + 1 }) in
    let alive : ltb (t.file f).refs 1 ≡ false =
      ground (arith, c f lt, count_middle f f front back, count_self f (front ++ back)) in
    (
      set_file f v t,
      rw alive refl,
      set_file-IsCounted f v t held (f ∷ held) c (omega (arith, c f lt, count_self f held))
          (λ g. count_other f g held),
    )

-- The result `o` of closing, in the table `t`, what an entry `v` of a type stands for: an end of a
-- pipe by pipeclose, an inode by iput in an operation of its own, also for a device, and nothing else.
abbrev pub Closes :
    Cmd Files (Unit {0})
    → Cmd Files (Unit {0})
    → ℕ
    → Kind
    → File
    → Files
    → Outcome Files (Unit {0})
    → Type 0
Closes begin_op end_op me fd_none v t o = o ≡ ok tt t
Closes begin_op end_op me fd_pipe v t o =
    let r = pipeclose v.writable (t.pipes v.pipe) in
    o ≡ end_pipe r.code (record t { pipes = λ p. if p == v.pipe then r.pipe else t.pipes p })
Closes begin_op end_op me fd_inode v t o =
    o ≡ (begin_op >> (λ u. in_fs u (iput me v.ip u.fs)) >> end_op) t
Closes begin_op end_op me fd_device v t o =
    o ≡ (begin_op >> (λ u. in_fs u (iput me v.ip u.fs)) >> end_op) t
