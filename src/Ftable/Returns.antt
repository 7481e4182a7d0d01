-- ===== src/Ftable/Returns.antt =====
-- What holds when a routine returns, for writei of kernel/fs.c as filewrite uses it.
use minios.Base.{
  ℕ, zero, suc, ◌+◌, ◌-◌, ◌*◌, ◌/◌, ◌%◌, ◌^◌, ◌≤◌, ◌≡◌, inl, inr, refl, subst, Bool, ◌==◌, arith,
  Bool-cases, ℤ, pos, negsuc, ltb, ◌||◌,
}
use minios.Kern.{Outcome, ok, asleep, panic, Cmd, and_then}
use minios.Fs.{Fs, bsize, maxfile, write_block}
use minios.Fs.Content.{bmap, chunk, patch, write_loop, end_write, writei}
use minios.Ftable.{Files, in_fs}

-- What holds of the value and the state whenever a routine returns.
abbrev pub Ensures : {S A : Type 0} → (A → S → Type 0) → Outcome S A → Type 0
Ensures P (ok a s) = P a s
Ensures P (asleep s) = Unit
Ensures P panic = Unit

pub Ensures-and_then :
    {S A B : Type 0} (P : A → S → Type 0) (Q : B → S → Type 0) (o : Outcome S A) (k : A → Cmd S B)
    → Ensures P o
    → ((a : A) (s : S) → P a s → Ensures Q (k a s))
    → Ensures Q (and_then o k)
Ensures-and_then P Q (ok a s) k p f = f a s p
Ensures-and_then P Q (asleep s) k p f = tt
Ensures-and_then P Q panic k p f = tt

pub Ensures-weaken :
    {S A : Type 0} (P Q : A → S → Type 0) (o : Outcome S A)
    → Ensures P o
    → ((a : A) (s : S) → P a s → Q a s)
    → Ensures Q o
Ensures-weaken P Q (ok a s) p f = f a s p
Ensures-weaken P Q (asleep s) p f = tt
Ensures-weaken P Q panic p f = tt

pub Ensures-anything : {S A : Type 0} (o : Outcome S A) → Ensures (λ _ _. Unit) o
Ensures-anything (ok a s) = tt
Ensures-anything (asleep s) = tt
Ensures-anything panic = tt

-- A call of the file system leaves the table as it is.
pub in_fs-file :
    {A : Type 0} (P : A → Type 0) (t : Files) (o : Outcome Fs A)
    → Ensures (λ a _. P a) o
    → Ensures (λ a u. (u.file ≡ t.file) × P a) (in_fs t o)
in_fs-file P t (ok a s) p = (refl, p)
in_fs-file P t (asleep s) p = tt
in_fs-file P t panic p = tt

write_loop-total :
    (fuel : ℕ) (src : ℕ → ℕ) (fetches : ℕ → ℕ → Bool) (ip off tot left : ℕ) (s : Fs)
    → Ensures (λ (r : ℕ × ℕ) _. r.0 ≤ tot + left) (write_loop fuel src fetches ip off tot left s)
unfolding write_loop
write_loop-total zero src fetches ip off tot left s = omega arith
write_loop-total (suc fuel) src fetches ip off tot left s = elim (Bool-cases (left == 0)) [
  | inl e ↦ rw e (omega arith)
  | inr e ↦ rw e (
      Ensures-and_then (λ _ _. Unit) (λ r _. r.0 ≤ tot + left) (bmap ip (off / bsize) s) _
        (Ensures-anything (bmap ip (off / bsize) s))
        (λ addr t _. elim (Bool-cases (addr == 0)) [
          | inl none_left ↦ rw none_left (omega arith)
          | inr given ↦ elim (Bool-cases (fetches tot (chunk left off))) [
            | inr bad ↦ rw (given, bad) (omega arith)
            | inl good ↦
                let m = chunk left off in
                let same : tot + m + (left - m) ≡ tot + left = omega arith in
                rw (given, good)
                  (subst
                    (λ k.
                      Ensures (λ (r : ℕ × ℕ) _. r.0 ≤ k)
                        (write_loop fuel src fetches ip (off + m) (tot + m) (left - m) (
                          write_block addr
                            (patch (λ i. src (tot + i)) (off % bsize) m (t.block addr)) t)))
                    same
                    (write_loop-total fuel src fetches ip (off + m) (tot + m) (left - m) (
                      write_block addr (patch (λ i. src (tot + i)) (off % bsize) m (t.block addr))
                        t)))
          ]
        ]))
]

-- At most `n` bytes, where it is a count.
abbrev pub AtMost : ℕ → ℤ → Type 0
AtMost n (pos r) = r ≤ n
AtMost n (negsuc r) = Unit

end_write-AtMost :
    (ip n : ℕ) (r : ℕ × ℕ) (s : Fs) → r.0 ≤ n → Ensures (λ c _. AtMost n c) (end_write ip r s)
unfolding end_write
end_write-AtMost ip n (tot, off) s le = le

-- writei returns no more than it was asked to write.
pub writei-AtMost :
    (src : ℕ → ℕ) (fetches : ℕ → ℕ → Bool) (ip off n : ℕ) (s : Fs)
    → Ensures (λ c _. AtMost n c) (writei src fetches ip off n s)
unfolding writei
writei-AtMost src fetches ip off n s =
    let sum = (off + n) % 2 ^ 32 in
    elim (Bool-cases (ltb (s.inode ip).size off || ltb sum off)) [
      | inl e ↦ rw e tt
      | inr e ↦ elim (Bool-cases (ltb (maxfile * bsize) sum)) [
        | inl e' ↦ rw (e, e') tt
        | inr e' ↦
            rw (e, e')
              (Ensures-and_then (λ r _. r.0 ≤ 0 + n) (λ c _. AtMost n c)
                (write_loop n src fetches ip off 0 n s) (end_write ip)
                (write_loop-total n src fetches ip off 0 n s)
                (λ r t le. end_write-AtMost ip n r t (omega arith)))
      ]
    ]
