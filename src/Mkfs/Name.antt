-- ===== src/Mkfs/Name.antt =====
-- The names of files and directories, which mkfs/mksfs.c copies into inodes.
use jokerix.Base.{ℕ, zero, suc, ◌+◌, ◌<◌, ◌≡◌, ap, ◌∙◌, List, [], ◌∷◌, true, ltb, update, arith}
use jokerix.Base.Run.{Returns, returns, Returns-map}
use jokerix.Mkfs.{set_filename, byte_count}
use jokerix.Mkfs.Bytes.{byte_at}

-- The bytes of a name and the zero behind it.
pub record IsNamed (text : ℕ → ℕ) (i : ℕ) (name : List ℕ) : Type 0 where
  pub letter : (k : ℕ) → k < byte_count name → text (i + k) ≡ byte_at name k
  pub end : text (i + byte_count name) ≡ 0

-- A name of less than 32 bytes is copied, and nothing in front of it changes.
pub set_filename-IsNamed :
    (name : List ℕ) (i : ℕ) (text : ℕ → ℕ)
    → i + byte_count name < 32
    → Returns
        (λ out. IsNamed out i name × ((j : ℕ) → j < i → out j ≡ text j))
        (set_filename name i text)
unfolding set_filename
set_filename-IsNamed [] i text short =
    let inside : ltb i 32 ≡ true = ground arith in
    rw inside (
      returns (
        record { letter = λ k lt. absurd (omega arith); end = ground arith },
        λ j lt. ground arith,
      ))
set_filename-IsNamed (c ∷ name) i text short =
    let inside : ltb i 32 ≡ true = ground arith in
    rw inside (
      Returns-map (set_filename-IsNamed name (i + 1) (update text i c) (omega arith))
        λ out (named, kept). (
          record {
            letter = letters out name i c named.letter (kept i (omega arith) ∙ ground arith);
            end = ap out (omega arith) ∙ named.end;
          },
          λ j lt. kept j (omega arith) ∙ ground arith,
        ))
  where
    letters :
        (out : ℕ → ℕ) (name : List ℕ) (i c : ℕ)
        → ((k : ℕ) → k < byte_count name → out (i + 1 + k) ≡ byte_at name k)
        → out i ≡ c
        → (k : ℕ) → k < byte_count (c ∷ name)
        → out (i + k) ≡ byte_at (c ∷ name) k
    letters out name i c rest first zero lt = ap out (omega arith) ∙ first
    letters out name i c rest first (suc k) lt = ap out (omega arith) ∙ rest k (omega arith)
