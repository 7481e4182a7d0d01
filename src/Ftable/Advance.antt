-- ===== src/Ftable/Advance.antt =====
-- How the offset of an open file of kernel/file.c moves.
use minios.Base.{
  ℕ, zero, suc, ◌+◌, ◌%◌, ◌^◌, ◌<◌, ◌≡◌, ap, ◌∙◌, false, ◌==◌, ==_refl, arith, ℤ, pos, negsuc,
}
use minios.Ftable.{Files, File}
use minios.Ftable.Io.{advance, advance_by}

-- The offset of `f` is `m` further on, as a uint, and all other entries are as they were.
pub record Moved (f m : ℕ) (t u : Files) : Type 0 where
  pub offset : (u.file f).off ≡ ((t.file f).off + m) % 2 ^ 32
  pub others : (g : ℕ) → (g == f) ≡ false → u.file g ≡ t.file g

pub Moved-trans : (f m k : ℕ) (t u v : Files) → Moved f m t u → Moved f k u v → Moved f (m + k) t v
Moved-trans f m k t u v a b = record {
  offset = omega (arith, a.offset, b.offset);
  others = λ g e. b.others g e ∙ a.others g e;
}

-- The bytes that a return value counts.
abbrev pub counted : ℤ → ℕ
counted (pos r) = r
counted (negsuc r) = 0

advance-Moved : (f r : ℕ) (t u : Files) → u.file ≡ t.file → Moved f r t (advance f r u)
unfolding advance
advance-Moved f r t u same = record {
  offset = rw (==_refl f) (ap (λ (g : ℕ → File). ((g f).off + r) % 2 ^ 32) same);
  others = λ g e. rw e (ap (λ (h : ℕ → File). h g) same);
}

pub still : (f : ℕ) (t u : Files) → u.file ≡ t.file → (t.file f).off < 2 ^ 32 → Moved f 0 t u
still f t u same small =
    let own : (u.file f).off ≡ (t.file f).off = ap (λ (g : ℕ → File). (g f).off) same in
    record { offset = omega arith; others = λ g e. ap (λ (h : ℕ → File). h g) same }

pub advance_by-Moved :
    (f : ℕ) (r : ℤ) (t u : Files)
    → u.file ≡ t.file
    → (t.file f).off < 2 ^ 32
    → Moved f (counted r) t (advance_by f r u)
advance_by-Moved f (pos zero) t u same small = still f t u same small
advance_by-Moved f (pos (suc r)) t u same small = advance-Moved f (suc r) t u same
advance_by-Moved f (negsuc r) t u same small = still f t u same small

pub Moved-same : (f m : ℕ) (t u v : Files) → v.file ≡ u.file → Moved f m t u → Moved f m t v
Moved-same f m t u v same a = record {
  offset = ap (λ (g : ℕ → File). (g f).off) same ∙ a.offset;
  others = λ g e. ap (λ (h : ℕ → File). h g) same ∙ a.others g e;
}
