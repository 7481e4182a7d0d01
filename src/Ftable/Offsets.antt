-- ===== src/Ftable/Offsets.antt =====
-- The offset of an open file across filewrite of kernel/file.c.
use minios.Base.{
  ℕ, zero, suc, ◌+◌, ◌-◌, ◌^◌, ◌<◌, ◌≤◌, ◌≡◌, ◌≢◌, ◌⊎◌, inl, inr, refl, ◌∙◌, sym, subst, Bool, true,
  false, ◌==◌, if◌then◌else◌, arith, Bool-cases, ℤ, pos, negsuc, min, ap, Option,
}
use minios.Kern.{ok, Cmd, and_then, pure}
use minios.Fs.Itable.{ilock, iunlock}
use minios.Fs.Content.{writei}
use minios.Ftable.{Files, fd_inode, in_fs}
use minios.Ftable.Io.{
  max_write, advance_by, end_io, shift, write_part, is_count, write_rounds, write_inode_file,
  write_by_type, filewrite,
}
use minios.Ftable.Returns.{
  Ensures, Ensures-and_then, Ensures-weaken, Ensures-anything, in_fs-file, AtMost, writei-AtMost,
}
use minios.Ftable.Advance.{Moved, Moved-trans, Moved-same, counted, still, advance_by-Moved}

-- What a round of filewrite does to the table, where it returns.
pub Part : ℕ → ℕ → Files → ℤ → Files → Type 0
Part f n1 t r u = AtMost n1 r × Moved f (counted r) t u

module _ (begin_op end_op : Cmd Files (Unit {0}))
    (begins : (t : Files) → Ensures (λ _ u. u.file ≡ t.file) (begin_op t))
    (ends : (t : Files) → Ensures (λ _ u. u.file ≡ t.file) (end_op t)) where
  close_round :
      (me f ip n1 : ℕ) (t w : Files) (r : ℤ)
      → AtMost n1 r
      → w.file ≡ t.file
      → (t.file f).off < 2 ^ 32
      → Ensures
          (Part f n1 t)
          (and_then (end_io (λ r. r) me f ip r w) (λ r x. and_then (end_op x) (λ _. pure r)))
  unfolding end_io Part
  close_round me f ip n1 t w r le same small =
      let moved = advance_by f r w in
      Ensures-and_then (λ c x. (c ≡ r) × (x.file ≡ moved.file)) (Part f n1 t)
        (end_io (λ r. r) me f ip r w) _
        (Ensures-and_then (λ _ x. (x.file ≡ moved.file) × Unit {0})
          (λ c x. (c ≡ r) × (x.file ≡ moved.file)) (in_fs moved (iunlock me ip moved.fs))
          (λ _. pure r)
          (in_fs-file (λ _. Unit {0}) moved (iunlock me ip moved.fs)
            (Ensures-anything (iunlock me ip moved.fs)))
          (λ _ x p. (refl, p.0)))
        (λ c x p.
          Ensures-and_then (λ _ y. y.file ≡ x.file) (Part f n1 t) (end_op x) (λ _. pure c) (ends x)
            (λ _ y e. (
              subst (AtMost n1) (sym p.0) le,
              subst (λ c. Moved f (counted c) t y) (sym p.0)
                  (Moved-same f (counted r) t moved y (e ∙ p.1)
                    (advance_by-Moved f r t w same small)),
            )))

  write_part-Part :
      (src : ℕ → ℕ) (fetches : ℕ → ℕ → Bool) (me f i n1 : ℕ) (t : Files)
      → (t.file f).off < 2 ^ 32
      → Ensures (Part f n1 t) (write_part begin_op end_op src fetches me f i n1 t)
  unfolding write_part
  write_part-Part src fetches me f i n1 t small =
      let ip = (t.file f).ip in
      Ensures-and_then (λ _ u. u.file ≡ t.file) (Part f n1 t) (begin_op t) _ (begins t)
        (λ _ u e.
          Ensures-and_then (λ _ v. (v.file ≡ u.file) × Unit {0}) (Part f n1 t)
            (in_fs u (ilock me ip u.fs)) _
            (in_fs-file (λ _. Unit {0}) u (ilock me ip u.fs) (Ensures-anything (ilock me ip u.fs)))
            (λ _ v p.
              let call = writei (shift src i) (shift fetches i) ip (v.file f).off n1 v.fs in
              Ensures-and_then (λ r w. (w.file ≡ v.file) × AtMost n1 r) (Part f n1 t) (in_fs v call)
                _
                (in_fs-file (AtMost n1) v call
                  (writei-AtMost (shift src i) (shift fetches i) ip (v.file f).off n1 v.fs))
                (λ r w q. close_round me f ip n1 t w r q.1 (q.0 ∙ p.0 ∙ e) small)))

-- The rounds that have come to index `i` with `left` bytes to go end at `i'`: all bytes written and
-- counted by the offset, or stopped before the end.
pub record Rounds (f i left : ℕ) (t : Files) (i' : ℕ) (u : Files) : Type 0 where
  pub count : ℕ
  pub moved : Moved f count t u
  pub most : count ≤ left
  pub whole : ((i' ≡ i + left) × (count ≡ left)) ⊎ ((i' < i + left) × (count < left))

module _ (begin_op end_op : Cmd Files (Unit {0}))
    (begins : (t : Files) → Ensures (λ _ u. u.file ≡ t.file) (begin_op t))
    (ends : (t : Files) → Ensures (λ _ u. u.file ≡ t.file) (end_op t)) where
  -- What follows a round that came to `r`.
  next_round :
      (fuel : ℕ) (src : ℕ → ℕ) (fetches : ℕ → ℕ → Bool) (me f i left n1 : ℕ) (t u : Files) (r : ℤ)
      → 0 < n1
      → n1 ≤ left
      → Part f n1 t r u
      → Ensures
          (Rounds f (i + n1) (left - n1) u)
          (write_rounds begin_op end_op fuel src fetches me f (i + n1) (left - n1) u)
      → Ensures (Rounds f i left t) (
          if is_count r n1
          then write_rounds begin_op end_op fuel src fetches me f (i + n1) (left - n1) u
          else ok i u)
  unfolding Part
  next_round fuel src fetches me f i left n1 t u (negsuc r) some_room le p rest = record {
    count = 0;
    moved = p.1;
    most = omega arith;
    whole = inr (omega arith, omega arith);
  }
  next_round fuel src fetches me f i left n1 t u (pos r) some_room le p rest =
      elim (Bool-cases (r == n1)) [
        | inl e ↦
            let all : r ≡ n1 = ground arith in
            rw e (
              Ensures-weaken (Rounds f (i + n1) (left - n1) u) (Rounds f i left t)
                (write_rounds begin_op end_op fuel src fetches me f (i + n1) (left - n1) u) rest
                (λ i' v q. record {
                  count = r + q.count;
                  moved = Moved-trans f r q.count t u v p.1 q.moved;
                  most = omega (arith, q.most);
                  whole = elim q.whole [
                    | inl (at, whole) ↦ inl (omega arith, omega arith)
                    | inr (before, part) ↦ inr (omega arith, omega arith)
                  ];
                }))
        | inr e ↦
            let short : r ≢ n1 = (λ h. ground arith) in
            rw e (record {
              count = r;
              moved = p.1;
              most = omega arith;
              whole = inr (omega arith, ground arith);
            })
      ]

  write_rounds-Rounds :
      (fuel : ℕ) (src : ℕ → ℕ) (fetches : ℕ → ℕ → Bool) (me f i left : ℕ) (t : Files)
      → left ≤ fuel
      → (t.file f).off < 2 ^ 32
      → Ensures (Rounds f i left t) (write_rounds begin_op end_op fuel src fetches me f i left t)
  unfolding write_rounds Part
  write_rounds-Rounds zero src fetches me f i left t le small = record {
    count = 0;
    moved = still f t t refl small;
    most = omega arith;
    whole = inl (omega arith, omega arith);
  }
  write_rounds-Rounds (suc fuel) src fetches me f i left t le small =
      elim (Bool-cases (left == 0)) [
        | inl e ↦ rw e (record {
          count = 0;
          moved = still f t t refl small;
          most = omega arith;
          whole = inl (ground arith, ground arith);
        })
        | inr e ↦
            let n1 = min left max_write in
            let some_left : left ≢ 0 = (λ h. ground arith) in
            rw e (
              Ensures-and_then (Part f n1 t) (Rounds f i left t)
                (write_part begin_op end_op src fetches me f i n1 t) _
                (write_part-Part begin_op end_op begins ends src fetches me f i n1 t small)
                (λ r u p.
                  let small_u : (u.file f).off < 2 ^ 32 = omega (arith, p.1.offset) in
                  next_round fuel src fetches me f i left n1 t u r (omega arith) (omega arith) p (
                    write_rounds-Rounds fuel src fetches me f (i + n1) (left - n1) u (omega arith)
                      small_u)))
      ]

-- Fewer bytes than `n`, or none where `n` is negative.
abbrev pub Short : ℕ → ℤ → Type 0
Short count (pos n) = count < n
Short count (negsuc n) = count ≡ 0

-- What filewrite of `n` bytes that returns `r` has done to the table.
pub record Written (f : ℕ) (n : ℤ) (t : Files) (r : ℤ) (u : Files) : Type 0 where
  pub count : ℕ
  pub moved : Moved f count t u
  pub whole :
      (((t.file f).writable ≡ true) × (n ≡ pos count) × (r ≡ n))
      ⊎ (((t.file f).writable ≡ true) × Short count n × (r ≡ negsuc 0))
      ⊎ (((t.file f).writable ≡ false) × (u ≡ t) × (r ≡ negsuc 0))

write_inode_file-Written :
    (begin_op end_op : Cmd Files (Unit {0}))
    (begins : (t : Files) → Ensures (λ _ u. u.file ≡ t.file) (begin_op t))
    (ends : (t : Files) → Ensures (λ _ u. u.file ≡ t.file) (end_op t)) (src : ℕ → ℕ)
    (fetches : ℕ → ℕ → Bool) (me f : ℕ) (n : ℤ) (t : Files)
    → (t.file f).writable ≡ true
    → (t.file f).off < 2 ^ 32
    → Ensures (Written f n t) (write_inode_file begin_op end_op src fetches me f n t)
unfolding write_inode_file
write_inode_file-Written begin_op end_op begins ends src fetches me f (negsuc n) t open' small =
    record { count = 0; moved = still f t t refl small; whole = inr (inl (open', refl, refl)) }
write_inode_file-Written begin_op end_op begins ends src fetches me f (pos n) t open' small =
    Ensures-and_then (Rounds f 0 n t) (Written f (pos n) t)
      (write_rounds begin_op end_op n src fetches me f 0 n t) _
      (write_rounds-Rounds begin_op end_op begins ends n src fetches me f 0 n t (omega arith) small)
      (λ i u p. record {
        count = p.count;
        moved = p.moved;
        whole = elim p.whole [
          | inl (at, all) ↦
              let e : (i == n) ≡ true = ground arith in inl (open', ap pos (sym all), rw e refl)
          | inr (before, part) ↦
              let e : (i == n) ≡ false = ground arith in inr (inl (open', part, rw e refl))
        ];
      })

-- filewrite of `n` bytes, an int, to an inode, where begin_op and end_op leave the table of files
-- alone. When it returns: on a file that is not writable the value is -1 and nothing has changed; on
-- any other, either the value is `n`, which is not negative, and the offset of the file, a uint, has
-- moved on by `n`, or the value is -1 and the offset has moved on by fewer than `n` bytes, and not at
-- all for a negative `n`. No other entry of the table has changed.
pub filewrite_lem :
    (begin_op end_op : Cmd Files (Unit {0}))
    (begins : (t : Files) → Ensures (λ _ u. u.file ≡ t.file) (begin_op t))
    (ends : (t : Files) → Ensures (λ _ u. u.file ≡ t.file) (end_op t)) (to_pipe : ℕ → Cmd Files ℤ)
    (devsw : ℕ → Option (Cmd Files ℤ)) (src : ℕ → ℕ) (fetches : ℕ → ℕ → Bool) (me f : ℕ) (n : ℤ)
    (t : Files)
    → (t.file f).type ≡ fd_inode
    → (t.file f).off < 2 ^ 32
    → Ensures (Written f n t) (filewrite begin_op end_op to_pipe devsw src fetches me f n t)
unfolding filewrite write_by_type
filewrite_lem begin_op end_op begins ends to_pipe devsw src fetches me f n t kind small =
    elim (Bool-cases (t.file f).writable) [
      | inl w ↦
          rw (w, kind)
            (write_inode_file-Written begin_op end_op begins ends src fetches me f n t w small)
      | inr w ↦
          rw w (record {
            count = 0;
            moved = still f t t refl small;
            whole = inr (inr (w, refl, refl));
          })
    ]
