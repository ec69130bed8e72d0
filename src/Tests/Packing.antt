-- ===== src/Tests/Packing.antt =====
-- The program that writes the image, at small inputs.
use jokerix.Base.{ℕ, ◌≡◌, ◌≢◌, refl, List, [], ◌∷◌, true, arith}
use jokerix.Base.Run.{Returns, ◌>>=◌}
use jokerix.Fs.{type_file}
use jokerix.Mkfs.{Entries, none_left, dir, file, other, Inode, make_image}
use jokerix.Mkfs.File.{Reads}
use jokerix.Mkfs.Tree.{slots, room_for, is_fit}
use jokerix.Mkfs.Walk.{IsRaw}
use jokerix.Mkfs.Whole.{IsImage, make_image-IsImage}
use jokerix.Fs.Path.{IsName}
use jokerix.Mkfs.Find.{AllNonZero, at_file, at_dir, behind_file, behind_dir}
use jokerix.Mkfs.Paths.{read_path, make_image-read}

-- An inode before it is filled.
abbrev raw : Inode
raw = record {
  size = 5000;
  type = type_file;
  filename = λ i. b'?';
  blocks = 2;
  direct = λ i. 7;
  indirect = 0;
}

abbrev hi : List ℕ
hi = b'h' ∷ b'i' ∷ []

-- `.`, a file, and a directory with a file.
abbrev tree : Entries
tree = dir (b'.' ∷ []) none_left (
    file (b'a' ∷ []) hi
      (dir (b'd' ∷ []) (file (b'b' ∷ []) (b'x' ∷ []) none_left) (other none_left)))

tree_fit : is_fit tree ≡ true
unfolding is_fit slots
tree_fit = refl

tree_slots : slots tree ≡ 2
unfolding slots
tree_slots = refl

tree_room : room_for tree ≡ 8
unfolding room_for
tree_room = refl

raw-IsRaw : IsRaw (λ num i. raw)
raw-IsRaw = record { none = λ num i. refl; narrow = λ num i k. omega arith }

make_image-IsImage_example :
    Returns (λ m. IsImage m tree) (make_image (λ num i. raw) raw (λ i. 0) tree)
make_image-IsImage_example =
    make_image-IsImage (λ num i. raw) raw (λ i. 0) tree raw-IsRaw refl (λ i. omega arith) tree_fit
      (omega (arith, tree_slots)) (omega (arith, tree_room))

tree-AllNonZero : AllNonZero tree
unfolding AllNonZero
tree-AllNonZero =
    ((omega arith, tt), tt, ((omega arith, tt), ((omega arith, tt), ((omega arith, tt), tt), tt)))

letter-IsName : (c : ℕ) → c ≢ b'/' → c ≢ 0 → IsName (c ∷ [])
letter-IsName c ne nz = record {
  some_byte = omega arith;
  no_slash = (ne, tt);
  non_zero = (nz, tt);
  short = omega arith;
}

-- The file "/d/b".
make_image-read_example : Returns (Reads (b'x' ∷ []) 0x500 (λ j. 0xff)) (
    make_image (λ num i. raw) raw (λ i. 0) tree >>= λ m.
    read_path 3 m (b'/' ∷ b'd' ∷ b'/' ∷ b'b' ∷ []) 0x500 (λ j. 0xff))
make_image-read_example =
    make_image-read (λ num i. raw) raw (λ i. 0) tree 3 ((b'd' ∷ []) ∷ (b'b' ∷ []) ∷ []) (b'x' ∷ [])
      0x500 (λ j. 0xff) raw-IsRaw refl (λ i. omega arith) tree_fit (omega (arith, tree_slots))
      (omega (arith, tree_room)) tree-AllNonZero
      (behind_dir refl (behind_file refl (at_dir refl (at_file refl))))
      (
        letter-IsName b'd' (omega arith) (omega arith),
        (letter-IsName b'b' (omega arith) (omega arith), tt),
      )
      (omega arith)
