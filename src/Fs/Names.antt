-- ===== src/Fs/Names.antt =====
-- Directory entries of kernel/fs.c by their names: what a search through a directory finds.
use jokerix.Base.{
  ℕ, zero, suc, ◌+◌, ◌-◌, ◌≤◌, ◌<◌, ◌≡◌, refl, ap, ◌∙◌, inl, inr, true, Option, none, some, List,
  arith, ltb, leb, Bool-cases, Option-cases, if◌then◌else◌,
}
use jokerix.Base.Lists.{length}
use jokerix.Base.Run.{ok}
use jokerix.Str.Laws.{IsString, NonZero, text_eq, strcmp-text_eq, chars-IsString}
use jokerix.Fs.{
  Image, Inode, inode_at, name_bound, name_cmp, indirect_entry, scan, find_child, int_size,
}

-- Every block of the image bears a name, which ends within the bound.
pub record IsNamed (m : Image) (name : ℕ → List ℕ) : Type 0 where
  pub ends : (b : ℕ) → IsString m (inode_at m b).filename (name b)
  pub short : (b : ℕ) → length (name b) < name_bound

-- The block of the entry `i`.
abbrev pub entry : Image → Inode → ℕ → ℕ
entry m node i = if ltb i 12 then node.direct i else indirect_entry m node i

-- The first of `n` entries from `i` on that has the name.
unfoldable pub first_named : ℕ → ℕ → (ℕ → List ℕ) → (ℕ → ℕ) → List ℕ → Option ℕ
first_named zero i name block_of target = none
first_named (suc n) i name block_of target =
    if text_eq (name (block_of i)) target
    then some (block_of i)
    else first_named n (i + 1) name block_of target

infixl 5 ◌<|>◌
abbrev ◌<|>◌ : Option ℕ → Option ℕ → Option ℕ
none <|> other = other
some b <|> other = some b

name_cmp-text_eq :
    (m : Image) (name : ℕ → List ℕ) (b : ℕ) (target : List ℕ)
    → IsNamed m name
    → NonZero target
    → length target < name_bound
    → name_cmp m b target ≡ ok (if text_eq (name b) target then 0 else 1)
unfolding name_cmp
name_cmp-text_eq m name b target w nz short =
    strcmp-text_eq name_bound m _ (inode_at m b).filename 0 (name b) target (w.short b) short
      (w.ends b) (chars-IsString target nz)

module _ (m : Image) (name : ℕ → List ℕ) (target : List ℕ) (w : IsNamed m name)
    (nz : NonZero target) (short : length target < name_bound) where
  scan-first_named :
      (n i : ℕ) (block_of : ℕ → ℕ)
      → scan n i m block_of target ≡ ok (first_named n i name block_of target)
  unfolding scan first_named
  scan-first_named zero i block_of = refl
  scan-first_named (suc n) i block_of =
      rw (name_cmp-text_eq m name (block_of i) target w nz short)
        (elim (Bool-cases (text_eq (name (block_of i)) target)) [
          | inl same ↦ rw same
          | inr other ↦ rw other (scan-first_named n (i + 1) block_of)
        ])

  first_named-same :
      (n i : ℕ) (f g : ℕ → ℕ)
      → ((j : ℕ) → i ≤ j → j < i + n → f j ≡ g j)
      → first_named n i name f target ≡ first_named n i name g target
  unfolding first_named
  first_named-same zero i f g same = refl
  first_named-same (suc n) i f g same =
      let first : f i ≡ g i = same i (omega arith) (omega arith) in
      let rest = first_named-same n (i + 1) f g (λ j p q. same j (omega arith) (omega arith)) in
      rw (first, rest)

  -- The entries in front of `e` come from `f`, and those behind from `g`.
  first_named-split :
      (k n i e : ℕ) (f g : ℕ → ℕ)
      → k ≤ n
      → e ≡ i + k
      → (first_named k i name f target <|> first_named (n - k) e name g target)
        ≡ first_named n i name (λ j. if ltb j e then f j else g j) target
  unfolding first_named
  first_named-split zero n i e f g le at =
      let here : i ≡ e = omega arith in
      let all : n - 0 ≡ n = omega arith in
      rw (← here, all) (first_named-same n i g _ (λ j p q. ground arith))
  first_named-split (suc k) zero i e f g le at = elim le [ ]
  first_named-split (suc k) (suc n) i e f g le at =
      let before : ltb i e ≡ true = ground arith in
      let less : suc n - suc k ≡ n - k = omega arith in
      rw (before, less)
        (elim (Bool-cases (text_eq (name (f i)) target)) [
          | inl same ↦ rw same
          | inr other ↦ rw other (first_named-split k n (i + 1) e f g (omega arith) (omega arith))
        ])

  -- In an image whose names end, the search through a directory for a name without a zero byte
  -- finds its first entry of that name behind the first two, if there is one.
  pub find_child-first_named :
      (node : Inode)
      → find_child m node target
        ≡ ok (first_named (int_size node.blocks - 2) 2 name (entry m node) target)
  unfolding find_child
  find_child-first_named node =
      let blocks = int_size node.blocks in
      elim (Bool-cases (leb blocks 12)) [
        | inl few ↦
            rw (few, scan-first_named (blocks - 2) 2 node.direct)
              (ap ok (
                first_named-same (blocks - 2) 2 node.direct (entry m node) (λ j p q. ground arith)))
        | inr many ↦
            let twelve : 2 + 10 ≡ 12 = refl in
            let left : blocks - 2 - 10 ≡ blocks - 12 = omega arith in
            let split =
              first_named-split 10 (blocks - 2) 2 12 node.direct (indirect_entry m node)
                (ground arith) refl in
            let others = scan-first_named (blocks - 12) 12 (indirect_entry m node) in
            rw (many, scan-first_named 10 2 node.direct)
              (elim (Option-cases (first_named 10 2 name node.direct target)) [
                | inl e ↦ rw e (others ∙ ap ok (rw (e, left) at split))
                | inr (b, e) ↦ rw e (ap ok (rw e at split))
              ])
      ]
