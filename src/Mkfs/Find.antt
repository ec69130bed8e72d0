-- ===== src/Mkfs/Find.antt =====
-- A search of kernel/fs.c through a directory that mkfs/mksfs.c has packed.
use jokerix.Base.{
  ℕ, zero, suc, ◌+◌, ◌-◌, ◌≤◌, ◌<◌, ◌≡◌, refl, sym, ap, ◌∙◌, subst, inl, inr, Bool, false, Option,
  none, some, List, [], ◌∷◌, leb, ◌==◌, Bool-cases, if◌then◌else◌, arith,
}
use jokerix.Base.Lists.{length}
use jokerix.Base.Run.{Run, ok, panic, fault, out_of_fuel, ◌>>=◌}
use jokerix.Str.Laws.{IsString, NonZero, text_eq, strcmp-text_eq, chars-IsString}
use jokerix.Fs.{
  Image, int_size, Inode, inode_at, name_bound, name_cmp, scan, find_child, indirect_entry,
}
use jokerix.Fs.Names.{entry}
use jokerix.Mkfs.{Entries, none_left, dir, file, other, is_dots, byte_count}
use jokerix.Mkfs.Name.{IsNamed}
use jokerix.Mkfs.File.{IsStored}
use jokerix.Mkfs.Tree.{slots, IsDirectory, Listed}

scan-same :
    (n i : ℕ) (m : Image) (f g : ℕ → ℕ) (target : List ℕ)
    → ((j : ℕ) → i ≤ j → j < i + n → f j ≡ g j)
    → scan n i m f target ≡ scan n i m g target
unfolding scan
scan-same zero i m f g target same = refl
scan-same (suc n) i m f g target same =
    let here = same i (omega arith) (omega arith) in
    let rest = scan-same n (i + 1) m f g target (λ j p q. same j (omega arith) (omega arith)) in
    rw (here, rest)

-- What a search finds, and if it finds nothing, what another finds.
abbrev or_else : Run (Option ℕ) → Run (Option ℕ) → Run (Option ℕ)
or_else first others =
    first >>= λ found. elim found [ none ↦ others | some child ↦ ok (some child) ]

or_else_assoc :
    (c : Run ℕ) (b : ℕ) (x y : Run (Option ℕ))
    → (c >>= λ r. if r == 0 then ok (some b) else or_else x y)
      ≡ or_else (c >>= λ r. if r == 0 then ok (some b) else x) y
or_else_assoc panic b x y = refl
or_else_assoc fault b x y = refl
or_else_assoc out_of_fuel b x y = refl
or_else_assoc (ok r) b x y = elim (Bool-cases (r == 0)) [ inl e ↦ rw e | inr e ↦ rw e ]

scan-split :
    (k n i e : ℕ) (m : Image) (f : ℕ → ℕ) (target : List ℕ)
    → e ≡ i + k
    → or_else (scan k i m f target) (scan n e m f target) ≡ scan (k + n) i m f target
unfolding scan
scan-split zero n i e m f target at =
    let here : e ≡ i = omega arith in let all : 0 + n ≡ n = omega arith in rw (here, all)
scan-split (suc k) n i e m f target at =
    let all : suc k + n ≡ suc (k + n) = omega arith in
    rw all (
      sym (
        or_else_assoc (name_cmp m (f i) target) (f i) (scan k (i + 1) m f target)
          (scan n e m f target))
      ∙ ap (λ x. name_cmp m (f i) target >>= λ r. if r == 0 then ok (some (f i)) else x)
          (scan-split k n (i + 1) e m f target (omega arith)))

-- The search through a directory is one scan over its entries.
pub find_child-scan :
    (m : Image) (node : Inode) (target : List ℕ)
    → find_child m node target ≡ scan (int_size node.blocks - 2) 2 m (entry m node) target
unfolding find_child
find_child-scan m node target =
    let blocks = int_size node.blocks in
    elim (Bool-cases (leb blocks 12)) [
      | inl few ↦
          rw few
            (scan-same (blocks - 2) 2 m node.direct (entry m node) target λ j p q. ground arith)
      | inr many ↦
          let all : blocks - 2 ≡ 10 + (blocks - 12) = ground arith in
          let front = scan-same 10 2 m node.direct (entry m node) target (λ j p q. ground arith) in
          let behind =
            scan-same (blocks - 12) 12 m (indirect_entry m node) (entry m node) target
              (λ j p q. ground arith) in
          rw (many, front, all)
            (ap (or_else (scan 10 2 m (entry m node) target)) behind
              ∙ scan-split 10 (blocks - 12) 2 12 m (entry m node) target refl)
    ]

byte_count-length : (cs : List ℕ) → byte_count cs ≡ length cs
byte_count-length [] = refl
byte_count-length (c ∷ cs) = ap suc (byte_count-length cs)

-- A name in an inode is a string.
IsNamed-IsString :
    (m : Image) (a i : ℕ) (name : List ℕ)
    → NonZero name
    → IsNamed (λ k. m (a + k)) i name
    → IsString m (a + i) name
IsNamed-IsString m a i [] nz n = ap m (omega arith) ∙ n.end
IsNamed-IsString m a i (c ∷ cs) nz n = (
  ap m (omega arith) ∙ n.letter 0 (omega arith),
  nz.0,
  subst (λ b. IsString m b cs) (omega arith)
      (IsNamed-IsString m a (i + 1) cs nz.1 (record {
        letter = λ k lt. ap m (omega arith) ∙ n.letter (suc k) (omega arith);
        end = ap m (omega arith) ∙ n.end;
      })),
)

-- The comparison of the name of an inode with a name that is looked for.
pub named-cmp :
    (m : Image) (block : ℕ) (name target : List ℕ)
    → NonZero name
    → byte_count name < 32
    → NonZero target
    → length target < name_bound
    → IsNamed (λ i. m ((inode_at m block).filename + i)) 0 name
    → name_cmp m block target ≡ ok (if text_eq name target then 0 else 1)
unfolding name_cmp
named-cmp m block name target nz short nz' short' n =
    let ends = IsNamed-IsString m (inode_at m block).filename 0 name nz n in
    let from : (inode_at m block).filename + 0 ≡ (inode_at m block).filename = omega arith in
    strcmp-text_eq name_bound m _ (inode_at m block).filename 0 name target
      (omega (arith, byte_count-length name)) short' (rw from at ends) (chars-IsString target nz')

-- No name of the host holds a zero byte.
unfoldable pub AllNonZero : Entries → Type 0
AllNonZero none_left = Unit {0}
AllNonZero (other rest) = AllNonZero rest
AllNonZero (file name contents rest) = NonZero name × AllNonZero rest
AllNonZero (dir name children rest) = NonZero name × AllNonZero children × AllNonZero rest

-- Where a path of the host leads to a file with its contents: the first entry of a name counts, and
-- `.` and `..` are skipped.
pub data At : Entries → List (List ℕ) → List ℕ → Type 0 where
  at_file :
      {name contents : List ℕ} {rest : Entries}
      → is_dots name ≡ false
      → At (file name contents rest) (name ∷ []) contents
  at_dir :
      {name next contents : List ℕ} {path : List (List ℕ)} {children rest : Entries}
      → is_dots name ≡ false
      → At children (next ∷ path) contents
      → At (dir name children rest) (name ∷ next ∷ path) contents
  behind_other :
      {contents : List ℕ} {path : List (List ℕ)} {rest : Entries}
      → At rest path contents
      → At (other rest) path contents
  behind_file :
      {name text target contents : List ℕ} {path : List (List ℕ)} {rest : Entries}
      → text_eq name target ≡ false
      → At rest (target ∷ path) contents
      → At (file name text rest) (target ∷ path) contents
  behind_dir :
      {name target contents : List ℕ} {path : List (List ℕ)} {children rest : Entries}
      → text_eq name target ≡ false
      → At rest (target ∷ path) contents
      → At (dir name children rest) (target ∷ path) contents

-- The block of what a path leads to is that of the file, or of a directory in which the rest of the
-- path leads to it.
pub data Leads (keep : ℕ → Bool) (m : Image) (contents : List ℕ) (block : ℕ)
    : List (List ℕ) → Type 0 where
  arrived : {name : List ℕ} → IsStored keep m block name contents → Leads keep m contents block []
  inside :
      {num : ℕ} {name : List ℕ} {children : Entries} {path : List (List ℕ)}
      → IsDirectory keep m block num name (slots children)
      → Listed keep m (entry m (inode_at m block)) block children 2
      → AllNonZero children
      → At children path contents
      → Leads keep m contents block path
