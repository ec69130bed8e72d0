-- ===== src/Str.antt =====
-- kernel/string.c: C strings in a memory of bytes. A string without an end runs the model out of
-- fuel, where the code reads on.
pub mod Laws
use jokerix.Base.{ℕ, zero, suc, ◌+◌, List, [], ◌∷◌, ◌==◌, if◌then◌else◌}
use jokerix.Base.Lists.{get_or}
use jokerix.Base.Run.{Run, ok, out_of_fuel, ◌>>=◌}

-- The loop of strlen, at `str` with `num` bytes counted.
unfoldable pub strlen_loop : ℕ → (ℕ → ℕ) → ℕ → ℕ → Run ℕ
strlen_loop zero m str num = out_of_fuel
strlen_loop (suc fuel) m str num =
    let more = strlen_loop fuel m (str + 1) (num + 1) in if m str == 0 then ok num else more

unfoldable pub strlen : ℕ → (ℕ → ℕ) → ℕ → Run ℕ
unfolding strlen_loop
strlen fuel m str = strlen_loop fuel m str 0

-- The loop of strcmp over `n` bytes.
unfoldable pub strcmp_loop : ℕ → (ℕ → ℕ) → ℕ → (ℕ → ℕ) → ℕ → ℕ
strcmp_loop zero m str1 m' str2 = 0
strcmp_loop (suc n) m str1 m' str2 =
    let rest = strcmp_loop n m (str1 + 1) m' (str2 + 1) in if m str1 == m' str2 then rest else 1

-- The two strings may stand in different memories.
unfoldable pub strcmp : ℕ → (ℕ → ℕ) → ℕ → (ℕ → ℕ) → ℕ → Run ℕ
unfolding strlen strcmp_loop
strcmp fuel m str1 m' str2 = do
  len1 ← strlen fuel m str1
  len2 ← strlen fuel m' str2
  ok (if len1 == len2 then strcmp_loop len1 m str1 m' str2 else 1)

-- An array that holds a text and its end.
abbrev pub chars : List ℕ → ℕ → ℕ
chars cs i = get_or cs i 0
