-- ===== src/Fs/Fuel.antt =====
-- The rounds that the loops of readi, writei and namex in the model may take are enough.
use minios.Base.{
  ℕ, zero, suc, ◌+◌, ◌-◌, ◌/◌, ◌%◌, ◌<◌, ◌≤◌, ◌≡◌, ◌≢◌, refl, ap, subst, fun_ext, Bool, true, false,
  not, ◌&&◌, Option, none, some, List, [], ◌∷◌, ◌++◌, ◌==◌, if◌then◌else◌, arith, Bool-cases, inl,
  inr, length, pos, negsuc,
}
use minios.Kern.{ok, Cmd, and_then, pure}
use minios.Fs.{Fs, bsize, write_block}
use minios.Fs.Content.{bmap, chunk, slice, patch, read_loop, write_loop}
use minios.Fs.Itable.{ilock, iunlock}
use minios.Fs.Path.{skipelem, skip_from, span, drop_slashes, drop_slashes-starts}
use minios.Fs.Dir.{iunlockput, dirlookup, step_to, walk_on, walk}

-- A round takes at least a byte.
chunk-le :
    (left off fuel : ℕ) → left ≤ suc fuel → (left == 0) ≡ false → left - chunk left off ≤ fuel
chunk-le left off fuel le e =
    let some_left : left ≢ 0 = (λ h. ground arith) in
    let room : 0 < bsize - off % bsize = omega arith in omega arith

-- readi stops because it is done, not because the model's rounds are used up: one more round than
-- there are bytes to read makes no difference.
pub read_loop_fuel :
    (fuel : ℕ) (copies : ℕ → ℕ → Bool) (ip dst off tot left : ℕ) (out : List ℕ) (s : Fs)
    → left ≤ fuel
    → read_loop (suc fuel) copies ip dst off tot left out s
      ≡ read_loop fuel copies ip dst off tot left out s
unfolding read_loop
read_loop_fuel zero copies ip dst off tot left out s le =
    let none_left : (left == 0) ≡ true = ground arith in rw none_left refl
read_loop_fuel (suc fuel) copies ip dst off tot left out s le = elim (Bool-cases (left == 0)) [
  | inl e ↦ rw e refl
  | inr e ↦ rw e (
      ap (and_then (bmap ip (off / bsize) s)) (
        fun_ext λ addr. fun_ext λ t.
          ap
            (λ r.
              if addr == 0
              then ok (pos tot, out) t
              else if not (copies dst (chunk left off))
              then ok (negsuc 0, out) t
              else r)
            (read_loop_fuel fuel copies ip (dst + chunk left off) (off + chunk left off)
              (tot + chunk left off) (left - chunk left off)
              (out ++ slice (t.block addr) (off % bsize) (chunk left off)) t
              (chunk-le left off fuel le e))))
]

-- writei stops because it is done, not because the model's rounds are used up.
pub write_loop_fuel :
    (fuel : ℕ) (src : ℕ → ℕ) (fetches : ℕ → ℕ → Bool) (ip off tot left : ℕ) (s : Fs)
    → left ≤ fuel
    → write_loop (suc fuel) src fetches ip off tot left s
      ≡ write_loop fuel src fetches ip off tot left s
unfolding write_loop
write_loop_fuel zero src fetches ip off tot left s le =
    let none_left : (left == 0) ≡ true = ground arith in rw none_left refl
write_loop_fuel (suc fuel) src fetches ip off tot left s le = elim (Bool-cases (left == 0)) [
  | inl e ↦ rw e refl
  | inr e ↦ rw e (
      ap (and_then (bmap ip (off / bsize) s)) (
        fun_ext λ addr. fun_ext λ t.
          ap
            (λ r.
              if addr == 0
              then ok (tot, off) t
              else if not (fetches tot (chunk left off))
              then ok (tot, off) t
              else r)
            (write_loop_fuel fuel src fetches ip (off + chunk left off) (tot + chunk left off)
              (left - chunk left off)
              (write_block addr
                (patch (λ i. src (tot + i)) (off % bsize) (chunk left off) (t.block addr)) t)
              (chunk-le left off fuel le e))))
]

drop_slashes-le : (path : List ℕ) → length (drop_slashes path) ≤ length path
unfolding drop_slashes
drop_slashes-le [] = omega arith
drop_slashes-le (c ∷ path) = ground (arith, drop_slashes-le path)

span-le : (path : List ℕ) → length (span path).1 ≤ length path
unfolding span
span-le [] = omega arith
span-le (c ∷ path) = ground (arith, span-le path)

-- What skipelem returns is shorter than its path.
Shorter : List ℕ → Option (List ℕ × (ℕ → ℕ)) → Type 0
Shorter path none = Unit
Shorter path (some (rest, name)) = length rest < length path

skip_from-Shorter :
    (path : List ℕ) (p : List ℕ) (name : ℕ → ℕ)
    → drop_slashes path ≡ p
    → Shorter path (skip_from p name)
unfolding skip_from Shorter span
skip_from-Shorter path [] name e = tt
skip_from-Shorter path (c ∷ p) name e =
    let starts = drop_slashes-starts path c p e in
    let shorter : suc (length p) ≤ length path =
      subst (λ q. length q ≤ length path) e (drop_slashes-le path) in
    rw starts (omega (arith, drop_slashes-le (span p).1, span-le p, shorter))

walk_on_fuel :
    (me : ℕ) (parent : Bool) (path : List ℕ)
    (f g : List ℕ → (ℕ → ℕ) → ℕ → Cmd Fs (Option ℕ × (ℕ → ℕ))) (name : ℕ → ℕ) (ip : ℕ) (s : Fs)
    (o : Option (List ℕ × (ℕ → ℕ)))
    → Shorter path o
    → ((rest : List ℕ) (name : ℕ → ℕ) → length rest < length path → f rest name ≡ g rest name)
    → walk_on me parent f name ip s o ≡ walk_on me parent g name ip s o
unfolding walk_on Shorter
walk_on_fuel me parent path f g name ip s none lt same = refl
walk_on_fuel me parent path f g name ip s (some (rest, name')) lt same =
    ap
      (λ (w : ℕ → Cmd Fs (Option ℕ × (ℕ → ℕ))). and_then (ilock me ip s) (λ _ t.
        if not ((t.inode ip).type == 1)
        then and_then (iunlockput me ip t) (λ _. pure (none, name'))
        else if parent && length rest == 0
        then and_then (iunlock me ip t) (λ _. pure (some ip, name'))
        else and_then (dirlookup ip name' t) (step_to me ip w name')))
      (same rest name' lt)

-- namex stops because its path is used up or a step fails, not because the model's rounds are: one
-- more round than the path has characters makes no difference.
pub walk_fuel :
    (fuel me : ℕ) (parent : Bool) (path : List ℕ) (name : ℕ → ℕ) (ip : ℕ) (s : Fs)
    → length path < fuel
    → walk (suc fuel) me parent path name ip s ≡ walk fuel me parent path name ip s
unfolding walk skipelem
walk_fuel zero me parent path name ip s lt = absurd (omega arith)
walk_fuel (suc fuel) me parent path name ip s lt =
    walk_on_fuel me parent path (walk (suc fuel) me parent) (walk fuel me parent) name ip s
      (skip_from (drop_slashes path) name) (skip_from-Shorter path (drop_slashes path) name refl)
      (λ rest name' shorter.
        fun_ext λ ip'. fun_ext λ t. walk_fuel fuel me parent rest name' ip' t (omega arith))
