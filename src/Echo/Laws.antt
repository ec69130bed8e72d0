-- ===== src/Echo/Laws.antt =====
-- user/echo.c: what a terminal shows of the bytes that are written.
use jokerix.Base.{
  ℕ, ◌+◌, ◌-◌, ◌%◌, ◌^◌, ◌<◌, ◌≡◌, ◌≢◌, refl, inl, inr, ◌||◌, ◌&&◌, false, List, [], ◌∷◌, ◌++◌,
  arith, ltb, ◌==◌, Bool-cases, if◌then◌else◌, update,
}
use jokerix.Base.Lists.{
  length, get_or, drop_last, length-append, length-drop_last, get_or-append, get_or-drop_last,
  get_or-end,
}
use jokerix.Shell.{lf, cr, bs, dl}
use jokerix.Echo.{echo_char, echo}

-- The line as an editor keeps it: the end of the line clears it, and the delete key takes the last
-- byte off.
unfoldable pub edited : List ℕ → ℕ → List ℕ
edited text c =
    if (c == lf) || (c == cr) then [] else if c == dl then drop_last text else text ++ c ∷ []

unfoldable pub line_after : List ℕ → List ℕ → List ℕ
line_after text [] = text
line_after text (c ∷ cs) = line_after (edited text c) cs

-- The line of a terminal in which the cursor is: a line feed goes to a blank one, a carriage return to
-- its start, a backspace one cell back, and every other byte fills the cell of the cursor.
pub record Terminal : Type 0 where
  pub cells : ℕ → ℕ
  pub cursor : ℕ

unfoldable pub show_byte : ℕ → Terminal → Terminal
show_byte c t =
    if c == lf
    then record t { cells = λ i. b' ' }
    else if c == cr
    then record t { cursor = 0 }
    else if c == bs
    then record t { cursor = t.cursor - 1 }
    else record { cells = update t.cells t.cursor c; cursor = t.cursor + 1 }

unfoldable pub show_all : List ℕ → Terminal → Terminal
show_all [] t = t
show_all (c ∷ cs) t = show_all cs (show_byte c t)

-- The line has the text, blanks behind it, and the cursor at its end.
pub record Shows (text : List ℕ) (t : Terminal) : Type 0 where
  pub cell : (i : ℕ) → t.cells i ≡ get_or text i b' '
  pub end : t.cursor ≡ length text

-- No byte is a backspace.
unfoldable pub NoBackspace : List ℕ → Type 0
NoBackspace [] = Unit {0}
NoBackspace (c ∷ cs) = (c ≢ bs) × NoBackspace cs

show_all-append : (a b : List ℕ) (t : Terminal) → show_all (a ++ b) t ≡ show_all b (show_all a t)
unfolding show_all
show_all-append [] b t = refl
show_all-append (c ∷ a) b t = show_all-append a b (show_byte c t)

-- The three bytes for the delete key blank the last cell.
erased-Shows :
    (text : List ℕ) (t : Terminal)
    → Shows text t
    → 0 < length text
    → Shows (drop_last text) (show_all (bs ∷ b' ' ∷ bs ∷ []) t)
unfolding show_all show_byte
erased-Shows text t s some_typed = record {
  cell = λ i. ground (arith, s.cell i, s.end, get_or-drop_last text i b' ', get_or-end text i b' ');
  end = omega (arith, s.end, length-drop_last text);
}

typed-Shows :
    (text : List ℕ) (c : ℕ) (t : Terminal)
    → Shows text t
    → ((c == lf) || (c == cr)) ≡ false
    → c ≢ bs
    → Shows (text ++ c ∷ []) (show_all (c ∷ []) t)
unfolding show_all show_byte
typed-Shows text c t s inside plain =
    let one : (c == lf) ≡ false = ground (arith, inside) in
    let two : (c == cr) ≡ false = ground (arith, inside) in
    let three : (c == bs) ≡ false = ground (arith, plain) in
    rw (one, two, three)
      (record {
        cell = λ i. ground (arith, s.cell i, s.end, get_or-append text c i b' ');
        end = omega (arith, s.end, length-append text (c ∷ []));
      })

-- The two bytes for the end of a line start a blank one.
blank-Shows : (t : Terminal) → Shows [] (show_all (lf ∷ cr ∷ []) t)
unfolding show_all show_byte
blank-Shows t = record { cell = λ i. refl; end = refl }

nothing-Shows :
    (text : List ℕ) (t : Terminal)
    → Shows text t
    → length text ≡ 0
    → Shows (drop_last text) (show_all [] t)
unfolding show_all
nothing-Shows [] t s none = s
nothing-Shows (x ∷ xs) t s none = absurd (omega arith)

-- One round.
echo_char-Shows :
    (text : List ℕ) (c : ℕ) (t : Terminal)
    → Shows text t
    → c ≢ bs
    → length text + 1 < 2 ^ 31
    → let (count, out) = echo_char (length text) c in
      (count ≡ length (edited text c)) × Shows (edited text c) (show_all out t)
unfolding echo_char edited
echo_char-Shows text c t s plain short = elim (Bool-cases ((c == lf) || (c == cr))) [
  | inl end ↦ rw end (refl, blank-Shows t)
  | inr inside ↦ elim (Bool-cases (c == dl)) [
    | inl back ↦ elim (Bool-cases (ltb 0 (length text) && ltb (length text) (2 ^ 31))) [
      | inl some_typed ↦
          let word : (length text + 2 ^ 32 - 1) % 2 ^ 32 ≡ length (drop_last text) =
            ground (arith, length-drop_last text) in
          rw (inside, back, some_typed) (word, erased-Shows text t s (ground arith))
      | inr none_typed ↦
          let none : length text ≡ 0 = ground arith in
          rw (inside, back, none_typed)
            (omega (arith, length-drop_last text, none), nothing-Shows text t s none)
    ]
    | inr other ↦
        rw (inside, other)
          (omega (arith, length-append text (c ∷ [])), typed-Shows text c t s inside plain)
  ]
]

edited_short : (text : List ℕ) (c : ℕ) → length (edited text c) < length text + 2
unfolding edited
edited_short text c = ground (arith, length-drop_last text, length-append text (c ∷ []))

-- A terminal that shows a line goes on to show the line as it is edited, and the count is its
-- length: for lines that stay below 2 ^ 31 bytes, with no backspace among the bytes that are typed.
pub echo-line_after :
    (cs : List ℕ) (text : List ℕ) (t : Terminal)
    → Shows text t
    → NoBackspace cs
    → length text + length cs < 2 ^ 31
    → let (count, out) = echo (length text) cs in
      (count ≡ length (line_after text cs)) × Shows (line_after text cs) (show_all out t)
unfolding echo line_after show_all NoBackspace
echo-line_after [] text t s plain short = (refl, s)
echo-line_after (c ∷ cs) text t s plain short =
    let one = echo_char-Shows text c t s plain.0 (omega arith) in
    let step = one.0 in
    let out = (echo_char (length text) c).1 in
    let rest =
      echo-line_after cs (edited text c) (show_all out t) one.1 plain.1
        (omega (arith, edited_short text c)) in
    rw (step, show_all-append out (echo (length (edited text c)) cs).1 t) rest
