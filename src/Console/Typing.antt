-- ===== src/Console/Typing.antt =====
-- What the steps of the console's interrupt handler do to the two texts in its buffer.
use minios.Base.{
  ℕ, zero, suc, ◌+◌, ◌%◌, ◌<◌, ◌≤◌, ◌≡◌, ◌≢◌, refl, false, List, [], ◌∷◌, ◌++◌, ◌==◌, arith, ap,
  ap₂, sym, subst, ◌∙◌,
}
use minios.Console.{
  Cons, input_buf_size, uint, inc, dec, distance, consputc, erase, kill_line, store, commit_line,
}
use minios.Console.Text.{
  text, over, drop_last, OneLine, text-append, text-drop_last, text-over, text-snoc, text-last,
  OneLine-init, OneLine-snoc,
}

abbrev pub ready : Cons → List ℕ
ready s = text s.buf s.r (distance s.w s.r)

abbrev pub typed : Cons → List ℕ
typed s = text s.buf s.w (distance s.e s.w)

-- The indices are uints, r before w before e with at most a buffer's size from r to e, and the line
-- that is being typed has no newline.
pub record IsValid (s : Cons) : Type 0 where
  pub r_fits : s.r < uint
  pub w_fits : s.w < uint
  pub e_fits : s.e < uint
  pub order : distance s.w s.r + distance s.e s.w ≡ distance s.e s.r
  pub room : distance s.e s.r ≤ input_buf_size
  pub one_line : OneLine (typed s)

-- The typed line loses its last character, or has none.
erased :
    (s : Cons) → IsValid s → (s.e == s.w) ≡ false → distance s.e s.w ≡ suc (distance (dec s.e) s.w)
erased s v ne =
    let differ : s.e ≢ s.w = (λ h. ground arith) in omega (arith, v.r_fits, v.w_fits, v.e_fits)

pub erase-IsValid : (s : Cons) → IsValid s → (s.e == s.w) ≡ false → IsValid (erase s)
unfolding erase consputc
erase-IsValid s v ne =
    let shorter = erased s v ne in
    let line : OneLine (text s.buf s.w (suc (distance (dec s.e) s.w))) =
      subst (λ k. OneLine (text s.buf s.w k)) shorter v.one_line in
    record {
      r_fits = v.r_fits;
      w_fits = v.w_fits;
      e_fits = omega arith;
      order = omega (arith, v.r_fits, v.w_fits, v.e_fits, v.order);
      room = omega (arith, v.r_fits, v.w_fits, v.e_fits, v.order, v.room);
      one_line = OneLine-init s.buf s.w (distance (dec s.e) s.w) line;
    }

pub erase-ready : (s : Cons) → ready (erase s) ≡ ready s
unfolding erase consputc
erase-ready s = refl

pub erase-texts :
    (s : Cons) → IsValid s → (s.e == s.w) ≡ false → typed (erase s) ≡ drop_last (typed s)
unfolding erase consputc
erase-texts s v ne = rw (erased s v ne) (sym (text-drop_last s.buf s.w (distance (dec s.e) s.w)))

-- Control-U takes the whole line that is being typed.
pub kill_line-texts :
    (n : ℕ) (s : Cons)
    → IsValid s
    → n ≡ distance s.e s.w
    → IsValid (kill_line n s) × (ready (kill_line n s) ≡ ready s) × (typed (kill_line n s) ≡ [])
unfolding kill_line erase consputc
kill_line-texts zero s v e = (v, refl, rw (sym e) refl)
kill_line-texts (suc n) s v e =
    let differ : (s.e == s.w) ≡ false = ground (arith, v.w_fits, v.e_fits) in
    let shorter = erased s v differ in
    let line : OneLine (text s.buf s.w (suc (distance (dec s.e) s.w))) =
      subst (λ k. OneLine (text s.buf s.w k)) shorter v.one_line in
    let other : s.buf (dec s.e % 128) ≢ 10 =
      subst (λ i. s.buf i ≢ 10) (omega (arith, v.w_fits, v.e_fits))
        (text-last s.buf s.w (distance (dec s.e) s.w) line) in
    let typed_on : (s.buf (dec s.e % 128) == 10) ≡ false = ground arith in
    rw (differ, typed_on) (kill_line-texts n (erase s) (erase-IsValid s v differ) (omega arith))

-- A character goes behind the typed line, and the lines that are ready stay.
module _ (c : ℕ) (s : Cons) (v : IsValid s) (free : distance s.e s.r < 128) where
  pub stored-count :
      (distance (inc s.e) s.w ≡ suc (distance s.e s.w))
      × (distance (inc s.e) s.r ≡ suc (distance s.e s.r))
  stored-count = (
    omega (arith, v.r_fits, v.w_fits, v.e_fits, v.order),
    omega (arith, v.r_fits, v.w_fits, v.e_fits),
  )

  pub stored-ready : ready (store (consputc c s) c) ≡ ready s
  unfolding store consputc
  stored-ready =
      text-over s.buf s.r (distance s.w s.r) (s.e % 128) (c % 256) (distance s.e s.r)
        (omega (arith, v.order)) free (omega (arith, v.r_fits, v.e_fits))

  pub stored-typed : typed (store (consputc c s) c) ≡ typed s ++ (c % 256 ∷ [])
  unfolding store consputc
  stored-typed =
      let (longer, _) = stored-count in
      rw longer (
        text-snoc s.buf s.w (distance s.e s.w) (s.e % 128) (c % 256) (omega (arith, v.order))
          (omega (arith, v.w_fits, v.e_fits)))

  pub stored-IsValid : c < 256 → c ≢ 10 → IsValid (store (consputc c s) c)
  unfolding store consputc
  stored-IsValid byte other =
      let (longer, more) = stored-count in
      record {
        r_fits = v.r_fits;
        w_fits = v.w_fits;
        e_fits = omega arith;
        order = omega (arith, v.order);
        room = omega arith;
        one_line =
            subst OneLine (sym stored-typed)
              (OneLine-snoc (typed s) (c % 256) v.one_line (λ h. other (omega arith)));
      }

  -- Where the line is given to the readers, they have it behind what they had.
  pub committed-ready :
      ready (commit_line (store (consputc c s) c)) ≡ ready s ++ (typed s ++ (c % 256 ∷ []))
  unfolding commit_line store consputc
  committed-ready =
      let b = over s.buf (s.e % 128) (c % 256) in
      let (longer, more) = stored-count in
      let all : distance (inc s.e) s.r ≡ distance s.w s.r + distance (inc s.e) s.w =
        omega (arith, v.order) in
      ap (text b s.r) all
      ∙ text-append b s.r (distance s.w s.r) s.w (distance (inc s.e) s.w)
          (omega (arith, v.r_fits, v.w_fits))
      ∙ ap₂ ◌++◌ stored-ready stored-typed

  committed-none : distance (inc s.e) (inc s.e) ≡ 0
  committed-none = omega arith

  pub committed-typed : typed (commit_line (store (consputc c s) c)) ≡ []
  unfolding commit_line store consputc
  committed-typed = rw committed-none refl

  pub committed-IsValid : IsValid (commit_line (store (consputc c s) c))
  unfolding commit_line store consputc
  committed-IsValid =
      let (_, more) = stored-count in
      record {
        r_fits = v.r_fits;
        w_fits = omega arith;
        e_fits = omega arith;
        order = omega arith;
        room = omega arith;
        one_line = subst OneLine (sym committed-typed) tt;
      }
