-- ===== src/Print/Laws.antt =====
-- kernel/printf.c: the number that is read from what is written.
use jokerix.Base.{
  ℕ, ◌+◌, ◌-◌, ◌*◌, ◌≡◌, ◌⊎◌, Bool, true, false, ◌&&◌, List, [], ◌∷◌, leb, if◌then◌else◌,
}

-- The value of a digit, `0` to `9` or `a` to `f`; no other byte has one below 16.
unfoldable pub digit_value : ℕ → ℕ
digit_value c =
    if leb b'0' c && leb c b'9'
    then c - b'0'
    else if leb b'a' c && leb c b'f'
    then c - b'a' + 10
    else 16

-- The number that the digits continue `v` to.
unfoldable pub read_from : ℕ → ℕ → List ℕ → ℕ
read_from base v [] = v
read_from base v (c ∷ cs) = read_from base (v * base + digit_value c) cs

abbrev pub IsBase : ℕ → Type 0
IsBase base = (base ≡ 10) ⊎ (base ≡ 16)

-- The number that a text stands for, with a sign in front of it if `minus` is true.
unfoldable pub StandsFor : ℕ → ℕ → Bool → List ℕ → Type 0
StandsFor base n false cs = read_from base 0 cs ≡ n
StandsFor base n true [] = n ≡ 0
StandsFor base n true (c ∷ cs) = (c ≡ b'-') × (read_from base 0 cs ≡ n)
