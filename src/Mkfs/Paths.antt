-- ===== src/Mkfs/Paths.antt =====
-- The files of the host at their paths, as kernel/fs.c finds and reads them in the image that
-- mkfs/mksfs.c makes.
use jokerix.Base.{
  ℕ, zero, suc, ◌+◌, ◌-◌, ◌^◌, ◌≤◌, ◌<◌, ◌≡◌, refl, ap, ◌∙◌, Bool, true, false, Option, none, some,
  List, [], ◌∷◌, ◌==◌, arith,
}
use jokerix.Base.Lists.{length}
use jokerix.Base.Run.{Run, ok, panic, Returns, Returns-bind, ◌>>=◌}
use jokerix.Str.Laws.{text_eq}
use jokerix.Fs.{Image, int_size, inode_at, lookup, type_dir, enter, dot, dot_dot, readall}
use jokerix.Fs.Names.{entry}
use jokerix.Fs.Path.{
  join, IsName, AllNames, split-join, strip-nil, strip-join, join-not-nil, literal-text_eq, restart,
}
use jokerix.Mkfs.{Entries, Inode, is_dots, make_image}
use jokerix.Mkfs.File.{IsStored, IsStored-readall, Reads}
use jokerix.Mkfs.Tree.{slots, room_for, is_fit, IsDirectory, Listed}
use jokerix.Mkfs.Walk.{IsRaw}
use jokerix.Mkfs.Whole.{IsImage, make_image-IsImage}
use jokerix.Mkfs.Find.{
  find_child-scan, AllNonZero, At, at_file, at_dir, behind_other, behind_file, behind_dir, Leads,
  arrived, inside,
}
use jokerix.Mkfs.Lookup.{Found, scan-Leads}

-- A path has a first name, which is none of the two that stand in each directory.
no_path : {es : Entries} {contents : List ℕ} → At es [] contents → ⊥
no_path (behind_other a) = no_path a

At-dots :
    {es : Entries} {target contents : List ℕ} {path : List (List ℕ)}
    → At es (target ∷ path) contents
    → is_dots target ≡ false
At-dots (at_file d) = d
At-dots (at_dir d a) = d
At-dots (behind_other a) = At-dots a
At-dots (behind_file ne a) = At-dots a
At-dots (behind_dir ne a) = At-dots a

not_dots :
    (target : List ℕ)
    → is_dots target ≡ false
    → (text_eq dot target ≡ false) × (text_eq dot_dot target ≡ false)
not_dots [] h = (refl, refl)
not_dots (c ∷ []) h = (ground arith, ground arith)
not_dots (c ∷ d ∷ []) h = (ground arith, ground arith)
not_dots (c ∷ d ∷ x ∷ cs) h = (ground arith, ground arith)

-- One name of a path that leads to a file.
enter-Leads :
    (keep : ℕ → Bool) (m : Image) (block num : ℕ) (name : List ℕ) (children : Entries)
    (target : List ℕ) (path : List (List ℕ)) (contents : List ℕ) (go : ℕ → Run (Option ℕ))
    → IsDirectory keep m block num name (slots children)
    → Listed keep m (entry m (inode_at m block)) block children 2
    → AllNonZero children
    → At children (target ∷ path) contents
    → IsName target
    → (b : ℕ) × (enter m block target go ≡ go b) × Leads keep m contents b path
unfolding enter Found
enter-Leads keep m block num name children target path contents go d l nz a w =
    let (b, e, leads) = scan-Leads target path contents w.non_zero w.short a l nz in
    let (one, two) = not_dots target (At-dots a) in
    let count : int_size (inode_at m block).blocks - 2 ≡ slots children =
      ground (arith, d.blocks, d.inode.high) in
    (
      b,
      rw
          (
            literal-text_eq dot target (omega arith, tt) (omega arith) w,
            literal-text_eq dot_dot target (omega arith, (omega arith, tt)) (omega arith) w,
            one,
            two,
            find_child-scan m (inode_at m block) target,
            count,
            e,
          )
          refl,
      leads,
    )

-- Where a path leads to a file, lookup finds it; one unit of fuel more than there are names is
-- enough.
lookup-Leads :
    (fuel : ℕ) (keep : ℕ → Bool) (m : Image) (block : ℕ) (path : List (List ℕ)) (contents : List ℕ)
    → Leads keep m contents block path
    → AllNames path
    → length path < fuel
    → (b : ℕ) × (name : List ℕ) × (lookup fuel m (some block) (join path) ≡ ok (some b))
      × IsStored keep m b name contents
unfolding lookup
lookup-Leads zero keep m block path contents leads names f = elim f [ ]
lookup-Leads (suc fuel) keep m block [] contents (arrived {name} i) names f =
    (block, name, rw (strip-nil m block) refl, i)
lookup-Leads (suc fuel) keep m block [] contents (inside d l nz a) names f = absurd (no_path a)
lookup-Leads (suc fuel) keep m block (target ∷ path) contents
      (inside {num} {name} {children} d l nz a) names f =
    let go : ℕ → Run (Option ℕ) = λ child. lookup fuel m (some child) (join path) in
    let (b, e, leads) =
      enter-Leads keep m block num name children target path contents go d l nz a names.0 in
    let (found, own, e', stored) =
      lookup-Leads fuel keep m b path contents leads names.1 (omega arith) in
    let kind = d.inode.kind in
    let directory : ((inode_at m block).type == type_dir) ≡ true = ground arith in
    (
      found,
      own,
      rw
          (
            strip-join m block target path names.0,
            split-join target path names.0.no_slash,
            join-not-nil target path names.0,
            directory,
          )
          (e ∙ e'),
      stored,
    )

-- What a reader of the image does: the path is looked up from the root, and the file is read.
unfoldable pub read_path : ℕ → Image → List ℕ → ℕ → (ℕ → ℕ) → Run (ℕ → ℕ)
read_path fuel m path buf old = do
  found ← lookup fuel m none path
  elim found [ none ↦ panic | some block ↦ readall m block buf old ]

-- A file of the tree.
IsImage-Reads :
    (fuel : ℕ) (m : Image) (entries : Entries) (path : List (List ℕ)) (contents : List ℕ) (buf : ℕ)
    (old : ℕ → ℕ)
    → IsImage m entries
    → AllNonZero entries
    → At entries path contents
    → AllNames path
    → length path < fuel
    → Returns (Reads contents buf old) (read_path fuel m (b'/' ∷ join path) buf old)
unfolding read_path
IsImage-Reads zero m entries path contents buf old i nz a names f = elim f [ ]
IsImage-Reads (suc fuel) m entries path contents buf old i nz a names f =
    let (b, name, e, stored) =
      lookup-Leads (suc fuel) i.keep m 2 path contents (inside i.directory i.listed nz a) names f in
    let found : lookup (suc fuel) m none (b'/' ∷ join path) ≡ ok (some b) =
      restart fuel m none path names
      ∙ ap (λ r. lookup (suc fuel) m (some r) (join path)) i.root
      ∙ e in
    rw found (IsStored-readall i.keep m b name contents buf old stored)

-- Whatever file the directory of the host holds at a path, the kernel finds it from the root of the
-- image that mksfs makes of the directory, and reads its bytes and nothing else: while names have
-- less than 32 bytes, none of them zero, files have at most 1036 blocks and directories 1034 entries,
-- the inodes of the program's variables start with 0 for `indirect` and words of 32 bits for
-- `direct`, the blocks for all of it and one more are at most 253, the names of the path are not
-- empty and hold no slash, and the fuel is more than their number.
pub make_image-read :
    (raw : ℕ → ℕ → Inode) (raw_root : Inode) (raw_info : ℕ → ℕ) (entries : Entries) (fuel : ℕ)
    (path : List (List ℕ)) (contents : List ℕ) (buf : ℕ) (old : ℕ → ℕ)
    → IsRaw raw
    → raw_root.indirect ≡ 0
    → ((i : ℕ) → raw_root.direct i < 2 ^ 32)
    → is_fit entries ≡ true
    → slots entries ≤ 1034
    → room_for entries + 1 ≤ 253
    → AllNonZero entries
    → At entries path contents
    → AllNames path
    → length path < fuel
    → Returns (Reads contents buf old) (
        make_image raw raw_root raw_info entries >>= λ m.
        read_path fuel m (b'/' ∷ join path) buf old)
make_image-read raw raw_root raw_info entries fuel path contents buf old clean none' narrow fit few
      room nz a names f =
    Returns-bind (make_image-IsImage raw raw_root raw_info entries clean none' narrow fit few room)
      λ m i. IsImage-Reads fuel m entries path contents buf old i nz a names f
