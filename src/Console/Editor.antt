-- ===== src/Console/Editor.antt =====
-- The console's interrupt handler as a line editor on two texts: the lines that are ready for
-- readers, and the line that is being typed.
use minios.Base.{
  ℕ, ◌+◌, ◌%◌, ◌<◌, ◌≡◌, ◌≢◌, refl, Bool, true, false, not, ◌&&◌, ◌||◌, List, [], ◌∷◌, ◌++◌, ltb,
  ◌==◌, if◌then◌else◌, arith, ap₂, sym, subst, Bool-cases, inl, inr,
}
use minios.Console.{
  Cons, input_buf_size, inc, distance, consputc, erase, kill_line, store, commit_line, insert,
  consoleintr, newline, ctrl_d,
}
use minios.Console.Text.{drop_last, length, length-text, length-snoc}
use minios.Console.Typing.{
  ready, typed, IsValid, erase-IsValid, erase-ready, erase-texts, kill_line-texts, stored-count,
  stored-ready, stored-typed, stored-IsValid, committed-ready, committed-typed, committed-IsValid,
}

-- The editor that the handler is to be.
pub record Texts : Type 0 where
  pub ready : List ℕ
  pub typed : List ℕ

abbrev pub enter : ℕ → Texts → Texts
enter c t =
    let line = t.typed ++ (c ∷ []) in
    if c == 10 || c == 4 || (length t.ready + length line) == 128
    then record { ready = t.ready ++ line; typed = [] }
    else record { ready = t.ready; typed = line }

abbrev pub edit : ℕ → Texts → Texts
edit c t =
    if c == 16
    then t
    else if c == 21
    then record t { typed = [] }
    else if c == 8 || c == 127
    then record t { typed = drop_last t.typed }
    else if not (c == 0) && ltb (length t.ready + length t.typed) 128
    then enter (if c == 13 then 10 else c) t
    else t

abbrev pub texts : Cons → Texts
texts s = record { ready = ready s; typed = typed s }

abbrev both_texts : List ℕ → List ℕ → Texts
both_texts a b = record { ready = a; typed = b }

-- The handler has done to `s` what the editor's `t` says.
abbrev pub Does : Cons → Texts → Type 0
Does s t = IsValid s × (texts s ≡ t)

entered-length :
    (c : ℕ) (s : Cons)
    → IsValid s
    → distance s.e s.r < 128
    → length (ready s) + length (typed s ++ (c ∷ [])) ≡ distance (inc s.e) s.r
entered-length c s v free =
    let (_, more) = stored-count c s v free in
    omega (
      arith,
      v.order,
      length-snoc (typed s) c,
      length-text s.buf s.r (distance s.w s.r),
      length-text s.buf s.w (distance s.e s.w),
    )

-- By the test for the end of a line.
entered-Does :
    (c : ℕ) (s : Cons) (b : Bool)
    → IsValid s
    → distance s.e s.r < 128
    → c < 256
    → (b ≡ false → c ≢ 10)
    → let s' = store (consputc c s) c in
      let line = typed s ++ (c ∷ []) in
      Does
        (if b then commit_line s' else s')
        (if b then both_texts (ready s ++ line) [] else both_texts (ready s) line)
entered-Does c s true v free byte h =
    let s' = commit_line (store (consputc c s) c) in
    let small : c % 256 ≡ c = omega arith in
    let lines : ready s' ≡ ready s ++ (typed s ++ (c ∷ [])) =
      subst (λ x. ready s' ≡ ready s ++ (typed s ++ (x ∷ []))) small (committed-ready c s v free) in
    (committed-IsValid c s v free, ap₂ both_texts lines (committed-typed c s v free))
entered-Does c s false v free byte h =
    let s' = store (consputc c s) c in
    let small : c % 256 ≡ c = omega arith in
    let line : typed s' ≡ typed s ++ (c ∷ []) =
      subst (λ x. typed s' ≡ typed s ++ (x ∷ [])) small (stored-typed c s v free) in
    (stored-IsValid c s v free byte (h refl), ap₂ both_texts (stored-ready c s v free) line)

tested-Does :
    (c : ℕ) (s : Cons)
    → IsValid s
    → distance s.e s.r < 128
    → c < 256
    → let s' = store (consputc c s) c in
      Does
        (if c == newline || c == ctrl_d || distance (inc s.e) s.r == input_buf_size
          then commit_line s'
          else s')
        (enter c (texts s))
tested-Does c s v free byte =
    let line = typed s ++ (c ∷ []) in
    let b = c == newline || c == ctrl_d || distance (inc s.e) s.r == input_buf_size in
    subst
      (λ n. Does (if b then commit_line (store (consputc c s) c) else store (consputc c s) c) (
        if c == 10 || c == 4 || n == 128
        then both_texts (ready s ++ line) []
        else both_texts (ready s) line))
      (sym (entered-length c s v free)) (entered-Does c s b v free byte (λ h. ground arith))

insert-Does :
    (c : ℕ) (s : Cons)
    → IsValid s
    → distance s.e s.r < 128
    → c < 256
    → Does (insert c s) (enter (if c == 13 then 10 else c) (texts s))
unfolding insert store consputc
insert-Does c s v free byte = tested-Does (if c == 13 then 10 else c) s v free (ground arith)

typed-count : (s : Cons) → IsValid s → length (ready s) + length (typed s) ≡ distance s.e s.r
typed-count s v = omega (
  arith,
  v.order,
  length-text s.buf s.r (distance s.w s.r),
  length-text s.buf s.w (distance s.e s.w),
)

kill-Does : (s : Cons) → IsValid s → Does (kill_line (distance s.e s.w) s) (both_texts (ready s) [])
kill-Does s v =
    let (valid, lines, line) = kill_line-texts (distance s.e s.w) s v refl in
    (valid, ap₂ both_texts lines line)

erase-Does :
    (s : Cons)
    → IsValid s
    → Does (if s.e == s.w then s else erase s) (both_texts (ready s) (drop_last (typed s)))
erase-Does s v = elim (Bool-cases (s.e == s.w)) [
  | inl h ↦
      let none : distance s.e s.w ≡ 0 = ground (arith, v.w_fits, v.e_fits) in
      rw h (v, ap₂ both_texts refl (rw none refl))
  | inr h ↦ rw h (erase-IsValid s v h, ap₂ both_texts (erase-ready s) (erase-texts s v h))
]

-- The interrupt handler is a line editor: on a byte from the UART, with the indices in order, it
-- changes the ready lines and the typed line as the editor does (Control-U drops the typed line,
-- Control-H and delete its last character; another character goes behind it unless the buffer is
-- full, and a newline, a Control-D or a full buffer makes the typed line ready), and the indices
-- stay in order, also where they wrap.
pub consoleintr_lem :
    (c : ℕ) (s : Cons)
    → c < 256
    → IsValid s
    → IsValid (consoleintr c s) × (texts (consoleintr c s) ≡ edit c (texts s))
unfolding consoleintr
consoleintr_lem c s byte v = elim (Bool-cases (c == 16)) [
  | inl h ↦ rw h (
    record {
      r_fits = v.r_fits;
      w_fits = v.w_fits;
      e_fits = v.e_fits;
      order = v.order;
      room = v.room;
      one_line = v.one_line;
    },
    refl,
  )
  | inr h ↦ rw h (elim (Bool-cases (c == 21)) [
    | inl h ↦ rw h (kill-Does s v)
    | inr h ↦ rw h (elim (Bool-cases (c == 8 || c == 127)) [
      | inl h ↦ rw h (erase-Does s v)
      | inr h ↦
          rw (h, typed-count s v)
            (elim (Bool-cases (not (c == 0) && ltb (distance s.e s.r) 128)) [
              | inl h ↦ rw h (insert-Does c s v (ground arith) byte)
              | inr h ↦ rw h (v, refl)
            ])
    ])
  ])
]
