-- ===== src/Mkfs/Space.antt =====
-- How many blocks mkfs/mksfs.c has left: getFreeBlock takes one while there is any.
use jokerix.Base.{
  ℕ, zero, suc, ◌+◌, ◌<◌, ◌≡◌, ◌≢◌, refl, arith, inl, inr, Bool, true, false, ◌==◌, Bool-cases,
  if◌then◌else◌,
}
use jokerix.Base.Run.{Returns, Returns-map}
use jokerix.Mkfs.{Builder, block_num, get_free_block}
use jokerix.Mkfs.Laws.{get_free_block_takes}

-- The free blocks in front of `n`.
abbrev pub free_below : ℕ → (ℕ → Bool) → ℕ
free_below zero f = 0
free_below (suc n) f = (if f n then 0 else 1) + free_below n f

-- Where there are some, there is one.
free_below-some : (n : ℕ) (f : ℕ → Bool) → 0 < free_below n f → (b : ℕ) × (b < n) × (f b ≡ false)
free_below-some zero f some = absurd (omega arith)
free_below-some (suc n) f some = elim (Bool-cases (f n)) [
  | inl taken ↦ let (b, lt, free) = free_below-some n f (ground arith) in (b, omega arith, free)
  | inr free ↦ (n, omega arith, free)
]

free_below-same :
    (n : ℕ) (f g : ℕ → Bool) → ((b : ℕ) → b < n → g b ≡ f b) → free_below n g ≡ free_below n f
free_below-same zero f g same = refl
free_below-same (suc n) f g same =
    let rest = free_below-same n f g (λ b lt. same b (omega arith)) in
    rw (same n (omega arith), rest)

-- Taking a free block leaves one less.
free_below-taken :
    (n : ℕ) (f g : ℕ → Bool) (b : ℕ)
    → b < n
    → f b ≡ false
    → g b ≡ true
    → ((j : ℕ) → j ≢ b → g j ≡ f j)
    → free_below n f ≡ suc (free_below n g)
free_below-taken zero f g b lt free taken same = absurd (omega arith)
free_below-taken (suc n) f g b lt free taken same = elim (Bool-cases (b == n)) [
  | inl last ↦
      let e : b ≡ n = ground arith in
      let rest = free_below-same n f g (λ j before. same j (ground arith)) in
      ground (arith, rest, e)
  | inr earlier ↦
      let rest = free_below-taken n f g b (ground arith) free taken same in
      let here = same n (ground arith) in rw here (omega (arith, rest))
]

-- The free blocks of the image.
unfoldable pub free_count : (ℕ → Bool) → ℕ
free_count freemap = free_below block_num freemap

-- What getFreeBlock has done.
pub record Took (s : Builder) (b : ℕ) (s' : Builder) : Type 0 where
  pub low : b < block_num
  pub free : s.freemap b ≡ false
  pub taken : s'.freemap b ≡ true
  pub others : (j : ℕ) → j ≢ b → s'.freemap j ≡ s.freemap j
  pub image : s'.image ≡ s.image
  pub left : free_count s.freemap ≡ suc (free_count s'.freemap)

pub get_free_block-Took :
    (s : Builder) → 0 < free_count s.freemap → Returns (λ (b, s'). Took s b s') (get_free_block s)
unfolding free_count
get_free_block-Took s some =
    let (a, low, free) = free_below-some block_num s.freemap some in
    Returns-map (get_free_block_takes s a low free) λ (b, s') (first, taken, others, fewer, image).
      record {
        low = omega (arith, first.1);
        free = first.2;
        taken = taken;
        others = others;
        image = image;
        left =
            free_below-taken block_num s.freemap s'.freemap b (omega (arith, first.1)) first.2 taken
              others;
      }
