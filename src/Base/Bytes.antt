-- ===== src/Base/Bytes.antt =====
-- Words in a memory of bytes, the low byte first, and arrays of words.
use jokerix.Base.Tests.{◌==◌, Bool-cases, update}
use Prim.Native.Nat.{ℕ, zero, suc, ◌+◌, ◌*◌, ◌/◌, ◌%◌, ◌^◌, ◌≤◌, ◌<◌}
use mathlib.Core.Path.{◌≡◌, refl, ◌∙◌}
use mathlib.Core.Logic.{◌⊎◌, inl, inr}
use native.Mathlib.Omega.{arith}
use jokerix.Base.Powers.{pow_add}

-- An entry: 8 bytes, the low ones first.
unfoldable pub load_bytes : ℕ → (ℕ → ℕ) → ℕ → ℕ
load_bytes zero bytes a = 0
load_bytes (suc n) bytes a = bytes a + load_bytes n bytes (a + 1) * 2 ^ 8

unfoldable pub store_bytes : ℕ → (ℕ → ℕ) → ℕ → ℕ → ℕ → ℕ
store_bytes zero bytes a v = bytes
store_bytes (suc n) bytes a v = store_bytes n (update bytes a (v % 2 ^ 8)) (a + 1) (v / 2 ^ 8)

-- The first `n` words of an array, of `w` bytes each, from an address on.
unfoldable pub store_words : ℕ → ℕ → (ℕ → ℕ) → ℕ → (ℕ → ℕ) → ℕ → ℕ
store_words w zero word a bytes = bytes
store_words w (suc n) word a bytes =
    store_bytes w (store_words w n word a bytes) (a + n * w) (word n)

-- A write leaves the bytes in front of it and behind it.
pub store_bytes-apart :
    (n : ℕ) (bytes : ℕ → ℕ) (a v b : ℕ)
    → (b < a) ⊎ (a + n ≤ b)
    → store_bytes n bytes a v b ≡ bytes b
unfolding store_bytes
store_bytes-apart zero bytes a v b out = refl
store_bytes-apart (suc n) bytes a v b out =
    store_bytes-apart n (update bytes a (v % 2 ^ 8)) (a + 1) (v / 2 ^ 8) b (ground arith)
    ∙ ground arith

-- What is read depends on the bytes that are read.
pub load_bytes-same :
    (n : ℕ) (f g : ℕ → ℕ) (a : ℕ)
    → ((b : ℕ) → a ≤ b → b < a + n → g b ≡ f b)
    → load_bytes n g a ≡ load_bytes n f a
unfolding load_bytes
load_bytes-same zero f g a same = refl
load_bytes-same (suc n) f g a same =
    let rest = load_bytes-same n f g (a + 1) (λ b p q. same b (omega arith) (omega arith)) in
    ground (arith, rest, same a)

-- What was written is read again.
pub load_bytes-store :
    (n : ℕ) (bytes : ℕ → ℕ) (a v : ℕ)
    → v < 2 ^ (8 * n)
    → load_bytes n (store_bytes n bytes a v) a ≡ v
unfolding load_bytes store_bytes
load_bytes-store zero bytes a v wide = omega arith
load_bytes-store (suc n) bytes a v wide =
    let first =
      store_bytes-apart n (update bytes a (v % 2 ^ 8)) (a + 1) (v / 2 ^ 8) a (inl (omega arith)) in
    let next : 8 * suc n ≡ 8 * n + 8 = omega arith in
    let more : 2 ^ (8 * suc n) ≡ 2 ^ (8 * n) * 2 ^ 8 = rw next (pow_add (8 * n) 8) in
    let rest =
      load_bytes-store n (update bytes a (v % 2 ^ 8)) (a + 1) (v / 2 ^ 8) (omega (arith, more)) in
    ground (arith, first, rest)

-- An array leaves the bytes in front of it and behind it,
pub store_words-apart :
    (w n : ℕ) (word : ℕ → ℕ) (a : ℕ) (bytes : ℕ → ℕ) (b : ℕ)
    → (b < a) ⊎ (a + n * w ≤ b)
    → store_words w n word a bytes b ≡ bytes b
unfolding store_words
store_words-apart w zero word a bytes b out = refl
store_words-apart w (suc n) word a bytes b out =
    store_bytes-apart w (store_words w n word a bytes) (a + n * w) (word n) b (grind arith)
    ∙ store_words-apart w n word a bytes b (grind arith)

-- and the words there.
pub store_words-keeps :
    (w n : ℕ) (word : ℕ → ℕ) (a : ℕ) (bytes : ℕ → ℕ) (b : ℕ)
    → (b + w ≤ a) ⊎ (a + n * w ≤ b)
    → load_bytes w (store_words w n word a bytes) b ≡ load_bytes w bytes b
store_words-keeps w n word a bytes b out =
    load_bytes-same w bytes (store_words w n word a bytes) b
      λ c p q. store_words-apart w n word a bytes c (ground arith)

in_front : (w i n a c : ℕ) → i < n → c < a + i * w + w → c < a + n * w
in_front w i n a c lt q = grind arith

-- A word of the array that fits is read there.
pub store_words-read :
    (w n : ℕ) (word : ℕ → ℕ) (a : ℕ) (bytes : ℕ → ℕ) (i : ℕ)
    → i < n
    → word i < 2 ^ (8 * w)
    → load_bytes w (store_words w n word a bytes) (a + i * w) ≡ word i
unfolding store_words
store_words-read w zero word a bytes i lt wide = absurd (omega arith)
store_words-read w (suc n) word a bytes i lt wide = elim (Bool-cases (i == n)) [
  | inl last ↦
      let e : n ≡ i = ground arith in
      rw e (load_bytes-store w (store_words w i word a bytes) (a + i * w) (word i) wide)
  | inr earlier ↦
      load_bytes-same w (store_words w n word a bytes) (store_words w (suc n) word a bytes)
        (a + i * w)
        (λ c p q.
          store_bytes-apart w (store_words w n word a bytes) (a + n * w) (word n) c
            (inl (in_front w i n a c (ground arith) q)))
      ∙ store_words-read w n word a bytes i (ground arith) wide
]
