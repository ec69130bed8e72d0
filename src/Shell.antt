-- ===== src/Shell.antt =====
-- user/sh.c: the shell's line editor. `line` is an array of 256 bytes that the program does not
-- initialise; what it writes and executes is the list of its system calls.
pub mod Edit
use jokerix.Base.{
  ℕ, zero, suc, ◌+◌, ◌-◌, Bool, true, false, ◌&&◌, ◌||◌, not, List, [], ◌∷◌, ◌++◌, ltb, ◌==◌,
  if◌then◌else◌, update,
}

abbrev pub lf : ℕ
lf = 0x0a

abbrev pub cr : ℕ
cr = 0x0d

abbrev pub bs : ℕ
bs = 0x08

abbrev pub dl : ℕ
dl = 0x7f

-- `sys_write` of a byte, and `sys_exec` of a C string.
pub data Output : Type 0 where
  put : ℕ → Output
  exec : List ℕ → Output

pub record Shell : Type 0 where
  pub line : ℕ → ℕ
  pub line_count : ℕ

-- isEmpty: from entry `i`, with `n` entries left to look at.
unfoldable pub is_empty : ℕ → ℕ → (ℕ → ℕ) → Bool
is_empty zero i line = true
is_empty (suc n) i line =
    let rest = is_empty n (i + 1) line in
    if line i == 0
    then true
    else if not (line i == b' ') && not (line i == 0x09)
    then false
    else rest

-- `for(i = 0; i < length; i ++) line[i] = 0`, from entry `i`.
unfoldable pub empty : ℕ → ℕ → (ℕ → ℕ) → ℕ → ℕ
empty zero i line = line
empty (suc n) i line = empty n (i + 1) (update line i 0)

-- The C string at entry `i`: the bytes in front of the first zero.
unfoldable pub c_string : ℕ → ℕ → (ℕ → ℕ) → List ℕ
c_string zero i line = []
c_string (suc n) i line =
    let rest = c_string n (i + 1) line in if line i == 0 then [] else line i ∷ rest

abbrev pub prompt : List Output
prompt = put b'$' ∷ put b' ' ∷ []

-- The case of a line feed or a carriage return.
unfoldable pub enter : Shell → Shell × List Output
enter s =
    if not (is_empty 256 0 s.line)
    then (
      record { line = empty 256 0 s.line; line_count = 0 },
      put lf ∷ exec (c_string 256 0 s.line) ∷ prompt,
    )
    else (s, put lf ∷ prompt)

-- The case of the delete key.
unfoldable pub delete : Shell → Shell × List Output
delete s =
    if ltb 0 s.line_count
    then (
      record { line = update s.line (s.line_count - 1) 0; line_count = s.line_count - 1 },
      put bs ∷ put b' ' ∷ put bs ∷ [],
    )
    else (s, [])

-- Any other byte.
unfoldable pub insert : Shell → ℕ → Shell × List Output
insert s c =
    if ltb s.line_count 255
    then (record { line = update s.line s.line_count c; line_count = s.line_count + 1 }, put c ∷ [])
    else (s, [])

-- One round of the loop of main, for the byte that `getc` returned.
unfoldable pub on_char : Shell → ℕ → Shell × List Output
unfolding enter delete insert
on_char s c = if (c == lf) || (c == cr) then enter s else if c == dl then delete s else insert s c

-- The loop of main over the bytes that are typed.
unfoldable pub session : Shell → List ℕ → Shell × List Output
unfolding on_char
session s [] = (s, [])
session s (c ∷ cs) =
    let (s', now) = on_char s c in let (s'', later) = session s' cs in (s'', now ++ later)
