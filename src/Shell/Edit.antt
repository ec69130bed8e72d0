-- ===== src/Shell/Edit.antt =====
-- What the shell of user/sh.c does to the text of its line, as lists.
use jokerix.Base.{
  ℕ, zero, suc, ◌+◌, ◌≤◌, ◌<◌, ◌≡◌, refl, ap, ◌∙◌, inl, inr, Bool, true, false, ◌&&◌, ◌||◌, List,
  [], ◌∷◌, ◌++◌, arith, ltb, leb, ◌==◌, Bool-cases, if◌then◌else◌, update,
}
use jokerix.Base.Lists.{
  length, get_or, drop_last, get_or-end, get_or-append, get_or-drop_last, length-append,
  length-drop_last,
}
use jokerix.Shell.{
  Output, put, exec, Shell, lf, cr, bs, dl, is_empty, empty, c_string, prompt, enter, delete,
  insert, on_char, session,
}

-- A text of blanks, up to a zero byte.
unfoldable pub blank : List ℕ → Bool
blank [] = true
blank (c ∷ cs) = (c == 0) || (((c == b' ') || (c == 0x09)) && blank cs)

-- The text in front of the first zero byte.
unfoldable pub before_zero : List ℕ → List ℕ
before_zero [] = []
before_zero (c ∷ cs) = if c == 0 then [] else c ∷ before_zero cs

-- The editor on texts.
unfoldable pub edit : List ℕ → ℕ → List ℕ × List Output
edit text c =
    if (c == lf) || (c == cr)
    then (if blank text
        then (text, put lf ∷ prompt)
        else ([], put lf ∷ exec (before_zero text) ∷ prompt))
    else if c == dl
    then (if length text == 0
        then (text, [])
        else (drop_last text, put bs ∷ put b' ' ∷ put bs ∷ []))
    else if ltb (length text) 255
    then (text ++ c ∷ [], put c ∷ [])
    else (text, [])

-- The array holds the text, and zeros behind it up to its end.
pub record IsLine (s : Shell) (text : List ℕ) : Type 0 where
  pub count : s.line_count ≡ length text
  pub short : length text ≤ 255
  pub bytes : (i : ℕ) → i < 256 → s.line i ≡ get_or text i 0

is_empty-blank :
    (n i : ℕ) (line : ℕ → ℕ) (text : List ℕ)
    → length text < n
    → ((j : ℕ) → j < n → line (i + j) ≡ get_or text j 0)
    → is_empty n i line ≡ blank text
unfolding is_empty blank
is_empty-blank zero i line text f same = elim f [ ]
is_empty-blank (suc n) i line [] f same = ground (arith, same 0)
is_empty-blank (suc n) i line (c ∷ text) f same =
    ground (arith, same 0, is_empty-blank n (i + 1) line text (omega arith) rest)
  where
    rest : (j : ℕ) → j < n → line (i + 1 + j) ≡ get_or text j 0
    rest j h = ap line (omega arith) ∙ same (suc j) (omega arith)

c_string-before_zero :
    (n i : ℕ) (line : ℕ → ℕ) (text : List ℕ)
    → length text < n
    → ((j : ℕ) → j < n → line (i + j) ≡ get_or text j 0)
    → c_string n i line ≡ before_zero text
unfolding c_string before_zero
c_string-before_zero zero i line text f same = elim f [ ]
c_string-before_zero (suc n) i line [] f same = ground (arith, same 0)
c_string-before_zero (suc n) i line (c ∷ text) f same =
    ground (arith, same 0, c_string-before_zero n (i + 1) line text (omega arith) rest)
  where
    rest : (j : ℕ) → j < n → line (i + 1 + j) ≡ get_or text j 0
    rest j h = ap line (omega arith) ∙ same (suc j) (omega arith)

empty_lem :
    (n i : ℕ) (line : ℕ → ℕ) (j : ℕ)
    → empty n i line j ≡ (if leb i j && ltb j (i + n) then 0 else line j)
unfolding empty
empty_lem zero i line j = ground arith
empty_lem (suc n) i line j = ground (arith, empty_lem n (i + 1) (update line i 0) j)

-- The state after a byte is the edited text, and what was written is as the editor says.
abbrev pub Follows : Shell × List Output → List ℕ × List Output → Type 0
Follows (s, out) (text, shown) = IsLine s text × (out ≡ shown)

enter-edit :
    (s : Shell) (text : List ℕ)
    → IsLine s text
    → Follows (enter s) (
        if blank text
        then (text, put lf ∷ prompt)
        else ([], put lf ∷ exec (before_zero text) ∷ prompt))
unfolding enter
enter-edit s text h =
    rw
      (
        is_empty-blank 256 0 s.line text (omega (arith, h.short)) same,
        c_string-before_zero 256 0 s.line text (omega (arith, h.short)) same,
      )
      (elim (Bool-cases (blank text)) [
        | inl none_typed ↦ rw none_typed (h, refl)
        | inr typed ↦ rw typed (
          record {
            count = refl;
            short = omega arith;
            bytes = λ i p. ground (arith, empty_lem 256 0 s.line i);
          },
          refl,
        )
      ])
  where
    same : (j : ℕ) → j < 256 → s.line (0 + j) ≡ get_or text j 0
    same j p = ap s.line (omega arith) ∙ h.bytes j p

delete-edit :
    (s : Shell) (text : List ℕ)
    → IsLine s text
    → Follows
        (delete s)
        (if length text == 0 then (text, []) else (drop_last text, put bs ∷ put b' ' ∷ put bs ∷ []))
unfolding delete
delete-edit s text h = elim (Bool-cases (length text == 0)) [
  | inl none_typed ↦
      let stays : ltb 0 s.line_count ≡ false = ground (arith, h.count) in
      rw (none_typed, stays) (h, refl)
  | inr typed ↦
      let goes : ltb 0 s.line_count ≡ true = ground (arith, h.count) in
      rw (typed, goes)
        (
          record {
            count = omega (arith, h.count, length-drop_last text);
            short = omega (arith, h.short, length-drop_last text);
            bytes = λ i p. ground (arith, h.count, h.bytes i, get_or-drop_last text i 0);
          },
          refl,
        )
]

insert-edit :
    (s : Shell) (text : List ℕ) (c : ℕ)
    → IsLine s text
    → Follows
        (insert s c)
        (if ltb (length text) 255 then (text ++ c ∷ [], put c ∷ []) else (text, []))
unfolding insert
insert-edit s text c h =
    let same : ltb s.line_count 255 ≡ ltb (length text) 255 = rw (h.count) in
    rw same (elim (Bool-cases (ltb (length text) 255)) [
      | inl room ↦ rw room (
        record {
          count = omega (arith, h.count, length-append text (c ∷ []));
          short = ground (arith, length-append text (c ∷ []));
          bytes = λ i p.
              ground (arith, h.count, h.bytes i, get_or-append text c i 0, get_or-end text i 0);
        },
        refl,
      )
      | inr full ↦ rw full (h, refl)
    ])

-- Each byte that is typed does to the line what the editor does to its text.
on_char-edit :
    (s : Shell) (text : List ℕ) (c : ℕ) → IsLine s text → Follows (on_char s c) (edit text c)
unfolding on_char edit
on_char-edit s text c h = elim (Bool-cases ((c == lf) || (c == cr))) [
  | inl end ↦ rw end (enter-edit s text h)
  | inr inside ↦ rw inside (elim (Bool-cases (c == dl)) [
    | inl back ↦ rw back (delete-edit s text h)
    | inr plain ↦ rw plain (insert-edit s text c h)
  ])
]

-- The editor over all the bytes that are typed.
unfoldable pub edit_all : List ℕ → List ℕ → List ℕ × List Output
unfolding edit
edit_all text [] = (text, [])
edit_all text (c ∷ cs) =
    let (next, now) = edit text c in let (end, later) = edit_all next cs in (end, now ++ later)

-- From a line that holds a text, the shell echoes and executes what the editor does for all the
-- bytes that are typed.
pub session-edit_all :
    (s : Shell) (text : List ℕ) (cs : List ℕ)
    → IsLine s text
    → Follows (session s cs) (edit_all text cs)
unfolding session edit_all
session-edit_all s text [] h = (h, refl)
session-edit_all s text (c ∷ cs) h =
    let (next, now) = on_char-edit s text c h in
    let (end, later) = session-edit_all (on_char s c).0 (edit text c).0 cs next in
    (end, rw (now, later))

-- Whatever the line held, after an Enter that finds a command in it the line is empty.
enter-IsLine : (s : Shell) → is_empty 256 0 s.line ≡ false → IsLine (enter s).0 []
unfolding enter
enter-IsLine s h = rw h (record {
  count = refl;
  short = omega arith;
  bytes = λ i p. ground (arith, empty_lem 256 0 s.line i);
})
