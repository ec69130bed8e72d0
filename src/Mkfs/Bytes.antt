-- ===== src/Mkfs/Bytes.antt =====
-- The bytes of a file as mkfs/mksfs.c copies them, block by block.
use jokerix.Base.{
  ℕ, zero, suc, ◌+◌, ◌-◌, ◌≤◌, ◌<◌, ◌≡◌, refl, ap, ◌∙◌, ◌⊎◌, arith, inl, List, [], ◌∷◌, update,
}
use jokerix.Mkfs.{write, take_bytes, drop_bytes, byte_count}

abbrev pub byte_at : List ℕ → ℕ → ℕ
byte_at [] k = 0
byte_at (c ∷ cs) zero = c
byte_at (c ∷ cs) (suc k) = byte_at cs k

-- A write changes its own bytes only.
pub write-apart :
    (cs : List ℕ) (a : ℕ) (image : ℕ → ℕ) (b : ℕ)
    → (b < a) ⊎ (a + byte_count cs ≤ b)
    → write cs a image b ≡ image b
unfolding write
write-apart [] a image b out = refl
write-apart (c ∷ cs) a image b out =
    write-apart cs (a + 1) (update image a c) b (ground arith) ∙ ground arith

pub write_at :
    (cs : List ℕ) (a : ℕ) (image : ℕ → ℕ) (k : ℕ)
    → k < byte_count cs
    → write cs a image (a + k) ≡ byte_at cs k
unfolding write
write_at [] a image k lt = absurd (omega arith)
write_at (c ∷ cs) a image zero lt =
    write-apart cs (a + 1) (update image a c) (a + 0) (inl (omega arith)) ∙ ground arith
write_at (c ∷ cs) a image (suc k) lt =
    let next : a + suc k ≡ a + 1 + k = omega arith in
    rw next (write_at cs (a + 1) (update image a c) k (omega arith))

pub byte_count-take_bytes :
    (n : ℕ) (cs : List ℕ) → n ≤ byte_count cs → byte_count (take_bytes n cs) ≡ n
unfolding take_bytes
byte_count-take_bytes zero cs le = refl
byte_count-take_bytes (suc n) [] le = absurd (omega arith)
byte_count-take_bytes (suc n) (c ∷ cs) le = ap suc (byte_count-take_bytes n cs (omega arith))

pub byte_at-take_bytes :
    (n : ℕ) (cs : List ℕ) (k : ℕ) → k < n → byte_at (take_bytes n cs) k ≡ byte_at cs k
unfolding take_bytes
byte_at-take_bytes zero cs k lt = absurd (omega arith)
byte_at-take_bytes (suc n) [] k lt = refl
byte_at-take_bytes (suc n) (c ∷ cs) zero lt = refl
byte_at-take_bytes (suc n) (c ∷ cs) (suc k) lt = byte_at-take_bytes n cs k (omega arith)

pub byte_count-drop_bytes : (n : ℕ) (cs : List ℕ) → byte_count (drop_bytes n cs) ≡ byte_count cs - n
unfolding drop_bytes
byte_count-drop_bytes zero cs = omega arith
byte_count-drop_bytes (suc n) [] = omega arith
byte_count-drop_bytes (suc n) (c ∷ cs) = omega (arith, byte_count-drop_bytes n cs)

pub byte_at-drop_bytes :
    (n : ℕ) (cs : List ℕ) (k : ℕ) → byte_at (drop_bytes n cs) k ≡ byte_at cs (n + k)
unfolding drop_bytes
byte_at-drop_bytes zero cs k = let e : 0 + k ≡ k = omega arith in rw e
byte_at-drop_bytes (suc n) [] k = refl
byte_at-drop_bytes (suc n) (c ∷ cs) k =
    let e : suc n + k ≡ suc (n + k) = omega arith in rw e (byte_at-drop_bytes n cs k)
