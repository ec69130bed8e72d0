-- ===== src/Str/Laws.antt =====
-- kernel/string.c against texts: strlen is the length, and strcmp decides equality.
use jokerix.Base.{
  ℕ, zero, suc, ◌+◌, ◌<◌, ◌≡◌, refl, ap, ◌∙◌, ◌≢◌, inl, inr, Bool, true, false, ◌&&◌, List, [], ◌∷◌,
  arith, ◌==◌, Bool-cases, if◌then◌else◌,
}
use jokerix.Base.Lists.{length, get_or}
use jokerix.Base.Run.{ok}
use jokerix.Str.{strlen_loop, strlen, strcmp_loop, strcmp, chars}

-- The bytes of the text stand at `a`, and a zero behind them.
abbrev pub IsString : (ℕ → ℕ) → ℕ → List ℕ → Type 0
IsString m a [] = m a ≡ 0
IsString m a (c ∷ cs) = (m a ≡ c) × (c ≢ 0) × IsString m (a + 1) cs

-- Equality of texts.
abbrev pub text_eq : List ℕ → List ℕ → Bool
text_eq [] [] = true
text_eq (x ∷ xs) (y ∷ ys) = (x == y) && text_eq xs ys
text_eq _ _ = false

pub text_eq→≡ : (xs ys : List ℕ) → text_eq xs ys ≡ true → xs ≡ ys
text_eq→≡ [] [] h = refl
text_eq→≡ (x ∷ xs) (y ∷ ys) h = ground (arith, text_eq→≡ xs ys)
text_eq→≡ [] (y ∷ ys) h = ground arith
text_eq→≡ (x ∷ xs) [] h = ground arith

pub text_eq_refl : (xs : List ℕ) → text_eq xs xs ≡ true
text_eq_refl [] = refl
text_eq_refl (x ∷ xs) = ground (arith, text_eq_refl xs)

strlen_loop-length :
    (fuel : ℕ) (m : ℕ → ℕ) (a n : ℕ) (cs : List ℕ)
    → length cs < fuel
    → IsString m a cs
    → strlen_loop fuel m a n ≡ ok (n + length cs)
unfolding strlen_loop
strlen_loop-length zero m a n cs f h = elim f [ ]
strlen_loop-length (suc fuel) m a n [] f h = ground arith
strlen_loop-length (suc fuel) m a n (c ∷ cs) f h =
    let more : (m a == 0) ≡ false = ground arith in
    rw more (strlen_loop-length fuel m (a + 1) (n + 1) cs (omega arith) h.2 ∙ ap ok (omega arith))

-- strlen returns the length of the text.
strlen-length :
    (fuel : ℕ) (m : ℕ → ℕ) (a : ℕ) (cs : List ℕ)
    → length cs < fuel
    → IsString m a cs
    → strlen fuel m a ≡ ok (length cs)
unfolding strlen
strlen-length fuel m a cs f h = strlen_loop-length fuel m a 0 cs f h ∙ ap ok (omega arith)

strcmp_loop-eq :
    (xs ys : List ℕ) (m m' : ℕ → ℕ) (a b : ℕ)
    → length xs ≡ length ys
    → IsString m a xs
    → IsString m' b ys
    → strcmp_loop (length xs) m a m' b ≡ (if text_eq xs ys then 0 else 1)
unfolding strcmp_loop
strcmp_loop-eq [] [] m m' a b e h k = refl
strcmp_loop-eq (x ∷ xs) (y ∷ ys) m m' a b e h k =
    ground (arith, strcmp_loop-eq xs ys m m' (a + 1) (b + 1))
strcmp_loop-eq [] (y ∷ ys) m m' a b e h k = absurd (omega arith)
strcmp_loop-eq (x ∷ xs) [] m m' a b e h k = absurd (omega arith)

text_eq-length : (xs ys : List ℕ) → length xs ≢ length ys → text_eq xs ys ≡ false
text_eq-length [] [] h = absurd (h refl)
text_eq-length (x ∷ xs) (y ∷ ys) h = ground (arith, text_eq-length xs ys)
text_eq-length [] (y ∷ ys) h = refl
text_eq-length (x ∷ xs) [] h = refl

-- With fuel for their lengths, strcmp of two strings that end returns 0 where they are equal and
-- 1 where they are not.
pub strcmp-text_eq :
    (fuel : ℕ) (m m' : ℕ → ℕ) (a b : ℕ) (xs ys : List ℕ)
    → length xs < fuel
    → length ys < fuel
    → IsString m a xs
    → IsString m' b ys
    → strcmp fuel m a m' b ≡ ok (if text_eq xs ys then 0 else 1)
unfolding strcmp
strcmp-text_eq fuel m m' a b xs ys f g h k =
    rw (strlen-length fuel m a xs f h, strlen-length fuel m' b ys g k)
      (elim (Bool-cases (length xs == length ys)) [
        | inl same ↦ rw same (ap ok (strcmp_loop-eq xs ys m m' a b (ground arith) h k))
        | inr other ↦ rw (other, text_eq-length xs ys (ground arith))
      ])

-- No byte of the text is zero.
abbrev pub NonZero : List ℕ → Type 0
NonZero [] = Unit {0}
NonZero (c ∷ cs) = (c ≢ 0) × NonZero cs

chars_from :
    (m : ℕ → ℕ) (a : ℕ) (cs : List ℕ)
    → NonZero cs
    → ((i : ℕ) → m (a + i) ≡ get_or cs i 0)
    → IsString m a cs
chars_from m a [] h same = ap m (omega arith) ∙ same 0
chars_from m a (c ∷ cs) h same = (
  ap m (omega arith) ∙ same 0,
  h.0,
  chars_from m (a + 1) cs h.1 (λ i. ap m (omega arith) ∙ same (suc i)),
)

pub chars-IsString : (cs : List ℕ) → NonZero cs → IsString (chars cs) 0 cs
chars-IsString cs h = chars_from (chars cs) 0 cs h (λ i. ap (chars cs) (omega arith))
