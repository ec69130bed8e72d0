-- ===== src/Echo.antt =====
-- user/echo.c: a program that writes back what is typed.
pub mod Laws
use jokerix.Base.{
  ℕ, ◌+◌, ◌-◌, ◌%◌, ◌^◌, Bool, ◌||◌, ◌&&◌, List, [], ◌∷◌, ◌++◌, ltb, ◌==◌, if◌then◌else◌,
}
use jokerix.Shell.{lf, cr, bs, dl}

-- One round of the loop of main: the count of the line, which is the word of 32 bits of an int, and
-- the bytes that are written. The count is positive below 2 ^ 31.
unfoldable pub echo_char : ℕ → ℕ → ℕ × List ℕ
echo_char line_count c =
    if (c == lf) || (c == cr)
    then (0, lf ∷ cr ∷ [])
    else if c == dl
    then (if ltb 0 line_count && ltb line_count (2 ^ 31)
        then ((line_count + 2 ^ 32 - 1) % 2 ^ 32, bs ∷ b' ' ∷ bs ∷ [])
        else (line_count, []))
    else ((line_count + 1) % 2 ^ 32, c ∷ [])

-- The loop over the bytes that are typed.
unfoldable pub echo : ℕ → List ℕ → ℕ × List ℕ
echo line_count [] = (line_count, [])
echo line_count (c ∷ cs) =
    let (count, now) = echo_char line_count c in
    let (end, later) = echo count cs in (end, now ++ later)
