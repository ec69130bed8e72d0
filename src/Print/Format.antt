-- ===== src/Print/Format.antt =====
-- printf of kernel/printf.c, as the bytes that it writes. The format and the strings are the lists
-- of their bytes in front of the zero; an argument that is missing or has another type, which C
-- leaves undefined, is a fault.
use jokerix.Base.{
  ℕ, true, false, List, [], ◌∷◌, ◌++◌, Option, none, some, ◌==◌, ◌≡◌, refl, inl, inr, if◌then◌else◌,
  Bool-cases, arith,
}
use jokerix.Base.Run.{Run, ok, fault, ◌>>=◌}
use jokerix.Print.{print_int, print_ptr}

-- What stands in the place of `va_list`: the word of an int, an address, a string or a null pointer.
pub data Arg : Type 0 where
  int : ℕ → Arg
  pointer : ℕ → Arg
  text : Option (List ℕ) → Arg

abbrev null_text : List ℕ
null_text = b'(' ∷ b'n' ∷ b'u' ∷ b'l' ∷ b'l' ∷ b')' ∷ []

-- `va_arg`, and what is written for its value.
unfoldable pub int_arg : ℕ → List Arg → Run (List ℕ × List Arg)
int_arg base (int xx ∷ args) = do out ← print_int xx base true; ok (out, args)
int_arg base _ = fault

unfoldable pub pointer_arg : List Arg → Run (List ℕ × List Arg)
pointer_arg (pointer x ∷ args) = ok (print_ptr x, args)
pointer_arg _ = fault

unfoldable pub text_arg : List Arg → Run (List ℕ × List Arg)
text_arg (text (some s) ∷ args) = ok (s, args)
text_arg (text none ∷ args) = ok (null_text, args)
text_arg _ = fault

-- The switch over the char behind a percent sign: what is written, and the arguments left.
unfoldable pub directive : ℕ → List Arg → Run (List ℕ × List Arg)
directive c args =
    if c == b'd'
    then int_arg 10 args
    else if c == b'x'
    then int_arg 16 args
    else if c == b'p'
    then pointer_arg args
    else if c == b's'
    then text_arg args
    else if c == b'%'
    then ok (b'%' ∷ [], args)
    else ok (b'%' ∷ c ∷ [], args)

-- The loop of printf. A percent sign at the end writes nothing.
unfoldable pub printf : List ℕ → List Arg → Run (List ℕ)
printf [] args = ok []
printf (c ∷ []) args = if c == b'%' then ok [] else ok (c ∷ [])
printf (c ∷ d ∷ fmt) args =
    let plain = (do out ← printf (d ∷ fmt) args; ok (c ∷ out)) in
    let special = do (out, args') ← directive d args; rest ← printf fmt args'; ok (out ++ rest)
    in if c == b'%' then special else plain

-- What panic writes before it shuts the machine down. The message is a format without arguments.
unfoldable pub panic_text : List ℕ → Run (List ℕ)
panic_text s = do
  out ← printf s []
  ok ((b'p' ∷ b'a' ∷ b'n' ∷ b'i' ∷ b'c' ∷ b':' ∷ b' ' ∷ []) ++ out ++ b'\n' ∷ [])

-- A text with each percent sign doubled.
abbrev pub escape : List ℕ → List ℕ
escape [] = []
escape (c ∷ s) = if c == b'%' then b'%' ∷ b'%' ∷ escape s else c ∷ escape s

-- What printf does with one more char that is no percent sign.
printf-plain :
    (c : ℕ) (fmt : List ℕ) (args : List Arg)
    → (c == b'%') ≡ false
    → printf (c ∷ fmt) args ≡ (printf fmt args >>= λ out. ok (c ∷ out))
unfolding printf
printf-plain c [] args plain = rw plain
printf-plain c (d ∷ fmt) args plain = rw plain

printf-nil : (args : List Arg) → printf [] args ≡ ok []
unfolding printf
printf-nil args = refl

printf-percent :
    (fmt : List ℕ) (args : List Arg)
    → printf (b'%' ∷ b'%' ∷ fmt) args ≡ (printf fmt args >>= λ out. ok (b'%' ∷ out))
unfolding printf directive
printf-percent fmt args = refl

-- A text whose percent signs are doubled is written as it is, whatever the arguments.
pub printf-escape : (s : List ℕ) (args : List Arg) → printf (escape s) args ≡ ok s
printf-escape [] args = printf-nil args
printf-escape (c ∷ s) args = elim (Bool-cases (c == b'%')) [
  | inl percent ↦
      let e : c ≡ b'%' = ground arith in
      rw (percent, printf-percent (escape s) args, printf-escape s args, e)
  | inr plain ↦ rw (plain, printf-plain c (escape s) args plain, printf-escape s args)
]
