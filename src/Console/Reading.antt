-- ===== src/Console/Reading.antt =====
-- What one section of consoleread does to the text that is ready.
use mathlib.Core.List.{append-nil, append_assoc}
use minios.Base.{
  ℕ, zero, suc, ◌+◌, ◌-◌, ◌%◌, ◌<◌, ◌≤◌, ◌≡◌, ◌≢◌, ◌⊎◌, refl, Bool, true, false, not, List, [], ◌∷◌,
  ◌++◌, ltb, ◌==◌, if◌then◌else◌, All, arith, ap, sym, subst, ◌∙◌, Bool-cases, inl, inr, pos,
  negsuc,
}
use minios.Console.{Cons, inc, dec, distance, read_loop, consoleread, Result, done, waiting, leave}
use minios.Console.Text.{text-cong, length}
use minios.Console.Typing.{ready, typed, IsValid}

-- How a section ends that starts with `i` bytes delivered and `k` to go, and delivers `got`.
abbrev pub Ends : Bool → ℕ → ℕ → List ℕ → List ℕ → Result → Type 0
Ends killed k i got lost r =
    (r.code ≡ done (pos (i + length got)))
    ⊎ ((ready r.cons ≡ [])
        × (lost ≡ [])
        × (length got < k)
        × (r.code ≡ (if killed then done (negsuc 0) else waiting (i + length got))))

pub record Reads (stop : ℕ → Bool) (killed : Bool) (k i : ℕ) (out : List ℕ) (s : Cons) (r : Result)
    : Type 0 where
  pub got : List ℕ
  pub lost : List ℕ
  pub delivered : r.out ≡ out ++ got
  pub text_left : ready s ≡ got ++ (lost ++ ready r.cons)
  pub most : length got ≤ k
  pub one : length lost ≤ 1
  pub cause : All (λ c. (c ≡ 4) ⊎ (stop (i + length got) ≡ true)) lost
  pub line : typed r.cons ≡ typed s
  pub valid : IsValid r.cons
  pub ends : Ends killed k i got lost r

-- Reading takes the first character of the text that is ready.
module _ (s : Cons) (v : IsValid s) (some_left : (s.r == s.w) ≡ false) where
  abbrev pub after : Cons
  after = record s { r = inc s.r }

  first-count : distance s.w s.r ≡ suc (distance s.w (inc s.r))
  first-count = let differ : s.r ≢ s.w = (λ h. ground arith) in omega (arith, v.r_fits, v.w_fits)

  first-ready : ready s ≡ s.buf (s.r % 128) ∷ ready after
  first-ready = rw first-count (
      ap (λ l. s.buf (s.r % 128) ∷ l)
        (text-cong s.buf (s.r + 1) (inc s.r) (distance s.w (inc s.r)) (omega arith)))

  after-IsValid : IsValid after
  after-IsValid = record {
    r_fits = omega arith;
    w_fits = v.w_fits;
    e_fits = v.e_fits;
    order = omega (arith, v.r_fits, v.w_fits, v.e_fits, v.order, v.room, first-count);
    room = omega (arith, v.r_fits, v.w_fits, v.e_fits, v.order, v.room, first-count);
    one_line = v.one_line;
  }

  -- cons.r-- takes it back.
  back : dec (inc s.r) ≡ s.r
  back = omega (arith, v.r_fits)

-- A section that ends as it is.
Reads-none :
    (stop : ℕ → Bool) (killed : Bool) (k i : ℕ) (out : List ℕ) (s : Cons)
    → IsValid s
    → Reads stop killed k i out s (leave (done (pos i)) out s)
Reads-none stop killed k i out s v = record {
  got = [];
  lost = [];
  delivered = sym (append-nil out);
  text_left = refl;
  most = omega arith;
  one = omega arith;
  cause = tt;
  line = refl;
  valid = v;
  ends = inl (ap (λ n. done (pos n)) (omega arith));
}

Reads-empty :
    (stop : ℕ → Bool) (killed : Bool) (k i : ℕ) (out : List ℕ) (s : Cons)
    → IsValid s
    → (s.r == s.w) ≡ true
    → Reads stop killed
        (suc k)
        i
        out
        s
        (leave (if killed then done (negsuc 0) else waiting i) out s)
Reads-empty stop killed k i out s v empty =
    let none : distance s.w s.r ≡ 0 = ground (arith, v.r_fits, v.w_fits) in
    let here : i ≡ i + 0 = omega arith in
    record {
      got = [];
      lost = [];
      delivered = sym (append-nil out);
      text_left = refl;
      most = omega arith;
      one = omega arith;
      cause = tt;
      line = refl;
      valid = v;
      ends = inr (
        rw none refl,
        refl,
        omega arith,
        ap (λ n. if killed then done (negsuc 0) else waiting n) here,
      );
    }

module _ (stop : ℕ → Bool) (killed : Bool) (k i : ℕ) (out : List ℕ) (s : Cons) (v : IsValid s)
    (some_left : (s.r == s.w) ≡ false) where
  abbrev char : ℕ
  char = s.buf (s.r % 128)

  -- The first character is taken and not delivered.
  Reads-lost :
      (char ≡ 4) ⊎ (stop i ≡ true)
      → Reads stop killed (suc k) i out s (leave (done (pos i)) out (after s v some_left))
  Reads-lost why = record {
    got = [];
    lost = char ∷ [];
    delivered = sym (append-nil out);
    text_left = first-ready s v some_left;
    most = omega arith;
    one = omega arith;
    cause =
        (elim why [ inl d ↦ inl d | inr w ↦ inr (subst (λ j. stop j ≡ true) (omega arith) w) ], tt);
    line = refl;
    valid = after-IsValid s v some_left;
    ends = inl (ap (λ n. done (pos n)) (omega arith));
  }

  -- The first character is delivered, and the section ends.
  Reads-last :
      Reads stop killed
        (suc k)
        i
        out
        s
        (leave (done (pos (i + 1))) (out ++ (char ∷ [])) (after s v some_left))
  Reads-last = record {
    got = char ∷ [];
    lost = [];
    delivered = refl;
    text_left = first-ready s v some_left;
    most = omega arith;
    one = omega arith;
    cause = tt;
    line = refl;
    valid = after-IsValid s v some_left;
    ends = inl refl;
  }

  Reads-more :
      (r : Result)
      → Reads stop killed k (i + 1) (out ++ (char ∷ [])) (after s v some_left) r
      → Reads stop killed (suc k) i out s r
  Reads-more r rest =
      let index : i + 1 + length rest.got ≡ i + suc (length rest.got) = omega arith in
      record {
        got = char ∷ rest.got;
        lost = rest.lost;
        delivered = rest.delivered ∙ append_assoc out (char ∷ []) rest.got;
        text_left = first-ready s v some_left ∙ ap (λ l. char ∷ l) rest.text_left;
        most = omega (arith, rest.most);
        one = rest.one;
        cause = subst (λ j. All (λ c. (c ≡ 4) ⊎ (stop j ≡ true)) rest.lost) index rest.cause;
        line = rest.line;
        valid = rest.valid;
        ends = elim rest.ends [
          | inl e ↦ inl (e ∙ ap (λ n. done (pos n)) index)
          | inr (none, kept, lt, e) ↦ inr (
            none,
            kept,
            omega arith,
            e ∙ ap (λ n. if killed then done (negsuc 0) else waiting n) index,
          )
        ];
      }

read_loop-Reads :
    (writable : ℕ → Bool) (killed : Bool) (dst k i : ℕ) (out : List ℕ) (s : Cons)
    → IsValid s
    → Reads
        (λ j. not (writable (dst + j)))
        killed
        k
        i
        out
        s
        (read_loop writable killed dst k i out s)
unfolding read_loop
read_loop-Reads writable killed dst zero i out s v =
    Reads-none (λ j. not (writable (dst + j))) killed 0 i out s v
read_loop-Reads writable killed dst (suc k) i out s v =
    let c = s.buf (s.r % 128) in
    elim (Bool-cases (s.r == s.w)) [
      | inl h ↦ rw h (Reads-empty (λ j. not (writable (dst + j))) killed k i out s v h)
      | inr h ↦ rw h (elim (Bool-cases (c == 4)) [
        | inl d ↦ rw d (elim (Bool-cases (ltb 0 i)) [
          | inl j ↦
              rw (j, back s v h)
                (Reads-none (λ j. not (writable (dst + j))) killed (suc k) i out s v)
          | inr j ↦
              rw j (
                Reads-lost (λ j. not (writable (dst + j))) killed k i out s v h
                  (inl (ground arith)))
        ])
        | inr d ↦ rw d (elim (Bool-cases (not (writable (dst + i)))) [
          | inl w ↦ rw w (Reads-lost (λ j. not (writable (dst + j))) killed k i out s v h (inr w))
          | inr w ↦ rw w (elim (Bool-cases (c == 10)) [
            | inl n ↦ rw n (Reads-last (λ j. not (writable (dst + j))) killed k i out s v h)
            | inr n ↦ rw n (
                Reads-more (λ j. not (writable (dst + j))) killed k i out s v h _
                  (read_loop-Reads writable killed dst k (i + 1) (out ++ (c ∷ [])) (after s v h)
                    (after-IsValid s v h)))
          ])
        ])
      ])
    ]

-- One section of consoleread that starts with `i` of `target` bytes delivered, with the indices in
-- order: what it delivers is the front of the text that is ready, at most the bytes that are
-- wanted, and at most one more character is taken, a Control-D
-- or one that cannot be copied out;
-- the line that is being typed stays and the indices stay in order; it returns the number of bytes
-- delivered, or it has taken all the text that was ready and wants more, and then returns -1 in a
-- killed process and sleeps in another.
pub consoleread_lem :
    (writable : ℕ → Bool) (killed : Bool) (dst target i : ℕ) (s : Cons)
    → IsValid s
    → Reads
        (λ j. not (writable (dst + j)))
        killed
        (target - i)
        i
        []
        s
        (consoleread writable killed dst target i s)
unfolding consoleread
consoleread_lem writable killed dst target i s v =
    read_loop-Reads writable killed dst (target - i) i [] s v
