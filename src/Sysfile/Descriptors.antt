-- ===== src/Sysfile/Descriptors.antt =====
-- The descriptors of a process against the counts of references in kernel/file.c's table.
use minios.Base.{
  ℕ, zero, suc, ◌+◌, ◌<◌, ◌≤◌, ◌≡◌, ◌⊎◌, inl, inr, refl, sym, ap, ◌∙◌, true, false, leb, ◌==◌,
  ==_refl, if◌then◌else◌, Bool-cases, arith, Option, none, some, ℤ, pos, negsuc,
}
use minios.Kern.{Outcome, ok}
use minios.Ftable.{nfile, set_file}
use minios.Sysfile.{Sys, nofile, argfd, with_file, is_none, free_fd, set_fd}

-- 1 where the descriptor refers to entry `g` of the table.
abbrev pub refers : ℕ → Option ℕ → ℕ
refers g none = 0
refers g (some f) = if g == f then 1 else 0

-- How many of the first `n` descriptors refer to `g`.
unfoldable pub uses : ℕ → ℕ → (ℕ → Option ℕ) → ℕ
uses zero g ofile = 0
uses (suc n) g ofile = refers g (ofile n) + uses n g ofile

-- The count of each entry is that of the process's descriptors that refer to it, and of the
-- references from elsewhere; and the descriptors refer to entries of the table.
pub record IsShared (others : ℕ → ℕ) (s : Sys) : Type 0 where
  pub counted : (g : ℕ) → g < nfile → (s.files.file g).refs ≡ uses nofile g s.ofile + others g
  pub inside : (fd f : ℕ) → fd < nofile → s.ofile fd ≡ some f → f < nfile

abbrev pub put : (ℕ → Option ℕ) → ℕ → Option ℕ → ℕ → Option ℕ
put ofile i v j = if j == i then v else ofile j

uses-outside :
    (n g i : ℕ) (v : Option ℕ) (ofile : ℕ → Option ℕ)
    → n ≤ i
    → uses n g (put ofile i v) ≡ uses n g ofile
unfolding uses
uses-outside zero g i v ofile le = refl
uses-outside (suc n) g i v ofile le =
    let e : (n == i) ≡ false = ground arith in
    rw e (ap (λ k. refers g (ofile n) + k) (uses-outside n g i v ofile (omega arith)))

-- A descriptor changes the count by what it refers to before and after.
pub uses-put :
    (n g i : ℕ) (v : Option ℕ) (ofile : ℕ → Option ℕ)
    → i < n
    → uses n g (put ofile i v) + refers g (ofile i) ≡ uses n g ofile + refers g v
unfolding uses
uses-put zero g i v ofile lt = absurd (omega arith)
uses-put (suc n) g i v ofile lt = elim (Bool-cases (n == i)) [
  | inl e ↦
      let at : i ≡ n = ground arith in
      rw at (rw (==_refl n) (omega (arith, uses-outside n g n v ofile (omega arith))))
  | inr e ↦ rw e (omega (arith, uses-put n g i v ofile (ground arith)))
]

pub uses_pos : (n f i : ℕ) (ofile : ℕ → Option ℕ) → i < n → ofile i ≡ some f → 0 < uses n f ofile
unfolding uses
uses_pos zero f i ofile lt e = absurd (omega arith)
uses_pos (suc n) f i ofile lt e = elim (Bool-cases (i == n)) [
  | inl at ↦
      let same : i ≡ n = ground arith in
      let own : refers f (ofile n) ≡ 1 =
        ap (λ j. refers f (ofile j)) (sym same) ∙ ap (refers f) e ∙ rw (==_refl f) refl in
      omega arith
  | inr other ↦ omega (arith, uses_pos n f i ofile (ground arith) e)
]

with_file-cases :
    (fd : ℕ) (o : Option ℕ)
    → (with_file fd o ≡ none) ⊎ ((f : ℕ) × (with_file fd o ≡ some (fd, f)) × (o ≡ some f))
with_file-cases fd none = inl refl
with_file-cases fd (some f) = inr (f, refl, refl)

-- An argument that is a descriptor of an open file, or any other.
pub argfd-cases :
    (fd : ℤ) (s : Sys)
    → (argfd fd s ≡ none)
      ⊎ ((old f : ℕ) × (argfd fd s ≡ some (old, f)) × (old < nofile) × (s.ofile old ≡ some f))
unfolding argfd
argfd-cases (negsuc n) s = inl refl
argfd-cases (pos fd) s = elim (Bool-cases (leb nofile fd)) [
  | inl e ↦ inl (rw e refl)
  | inr e ↦ elim (with_file-cases fd (s.ofile fd)) [
    | inl closed ↦ inl (rw e closed)
    | inr (f, open', own) ↦ inr (fd, f, rw e open', ground arith, own)
  ]
]

-- The lowest descriptor that is free, if one is.
pub free_fd_lem :
    (n i : ℕ) (ofile : ℕ → Option ℕ)
    → ((fd : ℕ) × (free_fd n i ofile ≡ some fd)
        × (i ≤ fd)
        × (fd < i + n)
        × (is_none (ofile fd) ≡ true)
        × ((j : ℕ) → i ≤ j → j < fd → is_none (ofile j) ≡ false))
      ⊎ ((free_fd n i ofile ≡ none) × ((j : ℕ) → i ≤ j → j < i + n → is_none (ofile j) ≡ false))
unfolding free_fd
free_fd_lem zero i ofile = inr (refl, λ j lo hi. absurd (omega arith))
free_fd_lem (suc n) i ofile = elim (Bool-cases (is_none (ofile i))) [
  | inl e ↦ inl (i, rw e refl, omega arith, omega arith, e, λ j lo hi. absurd (omega arith))
  | inr e ↦
      let here : (j : ℕ) → j ≡ i → is_none (ofile j) ≡ false =
        (λ j at. ap (λ j. is_none (ofile j)) at ∙ e) in
      elim (free_fd_lem n (i + 1) ofile) [
        | inl (fd, found, lo, hi, free, before) ↦ inl (
          fd,
          rw e found,
          omega arith,
          omega arith,
          free,
          λ j lo' hi'. elim (Bool-cases (j == i)) [
            | inl at ↦ here j (ground arith)
            | inr other ↦ before j (ground arith) hi'
          ],
        )
        | inr (missing, used) ↦ inr (
          rw e missing,
          λ j lo' hi'. elim (Bool-cases (j == i)) [
            | inl at ↦ here j (ground arith)
            | inr other ↦ used j (ground arith) (ground arith)
          ],
        )
      ]
]

-- An open file from one more descriptor.
abbrev shared_by : ℕ → ℕ → Sys → Sys
shared_by new f s = record (set_fd new (some f) s) {
  files = set_file f (let v = s.files.file f in record v { refs = v.refs + 1 }) s.files;
}

pub refers-none : (g : ℕ) (o : Option ℕ) → is_none o ≡ true → refers g o ≡ 0
refers-none g none e = refl
refers-none g (some f) e = cc

-- What sys_dup comes to: a new descriptor, the lowest free one, for the file of the old one, with one
-- more reference; or -1 and no change, where the argument is no open descriptor or none is free.
pub Dups : (ℕ → ℕ) → ℤ → Sys → Outcome Sys ℤ → Type 0
Dups others fd s r =
    ((old f new : ℕ) × (u : Sys) × (argfd fd s ≡ some (old, f))
      × (r ≡ ok (pos new) u)
      × (new < nofile)
      × (is_none (s.ofile new) ≡ true)
      × ((j : ℕ) → j < new → is_none (s.ofile j) ≡ false)
      × (u.ofile ≡ put s.ofile new (some f))
      × IsShared others u)
    ⊎ ((r ≡ ok (negsuc 0) s)
        × ((argfd fd s ≡ none) ⊎ ((j : ℕ) → j < nofile → is_none (s.ofile j) ≡ false)))
