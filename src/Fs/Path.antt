-- ===== src/Fs/Path.antt =====
-- lookup of kernel/fs.c against paths as lists of names.
use jokerix.Base.{
  ℕ, zero, suc, ◌-◌, ◌<◌, ◌≡◌, refl, ◌∙◌, ◌≢◌, inl, inr, true, false, Option, none, some, List, [],
  ◌∷◌, ◌++◌, arith, ◌==◌, Bool-cases, Option-cases, if◌then◌else◌,
}
use mathlib.Core.List.{append-nil}
use jokerix.Base.Lists.{length}
use jokerix.Base.Run.{Run, ok}
use jokerix.Str.Laws.{NonZero, text_eq, strcmp-text_eq, chars-IsString}
use jokerix.Fs.{
  Image, inode_at, name_bound, literal_cmp, dot, dot_dot, enter, split_name, strip, is_nil, lookup,
  type_dir, root_inode, int_size,
}
use jokerix.Fs.Names.{IsNamed, entry, first_named, find_child-first_named}

-- Where one name leads from a directory.
unfoldable pub step : Image → (ℕ → List ℕ) → ℕ → List ℕ → Option ℕ
step m name node target =
    if text_eq dot target
    then some node
    else if text_eq dot_dot target
    then some ((inode_at m node).direct 1)
    else first_named (int_size (inode_at m node).blocks - 2) 2 name (entry m (inode_at m node))
        target

-- Where a list of names leads; only a directory can be left.
unfoldable pub resolve : Image → (ℕ → List ℕ) → ℕ → List (List ℕ) → Option ℕ
resolve m name node [] = some node
resolve m name node (target ∷ rest) =
    if (inode_at m node).type == type_dir
    then (elim (step m name node target) [ none ↦ none | some child ↦ resolve m name child rest ])
    else none

-- The names with a slash between each two.
abbrev pub join : List (List ℕ) → List ℕ
join [] = []
join (c ∷ []) = c
join (c ∷ d ∷ cs) = c ++ b'/' ∷ join (d ∷ cs)

abbrev pub NoSlash : List ℕ → Type 0
NoSlash [] = Unit {0}
NoSlash (c ∷ cs) = (c ≢ b'/') × NoSlash cs

-- A name that a path can hold.
pub record IsName (target : List ℕ) : Type 0 where
  pub some_byte : 0 < length target
  pub no_slash : NoSlash target
  pub non_zero : NonZero target
  pub short : length target < name_bound

abbrev pub AllNames : List (List ℕ) → Type 0
AllNames [] = Unit {0}
AllNames (c ∷ cs) = IsName c × AllNames cs

split-end : (c : List ℕ) → NoSlash c → split_name c ≡ (c, [])
unfolding split_name
split-end [] h = refl
split-end (x ∷ c) h = ground (arith, split-end c h.1)

split-slash : (c rest : List ℕ) → NoSlash c → split_name (c ++ b'/' ∷ rest) ≡ (c, rest)
unfolding split_name
split-slash [] rest h = refl
split-slash (x ∷ c) rest h = ground (arith, split-slash c rest h.1)

pub split-join :
    (c : List ℕ) (cs : List (List ℕ)) → NoSlash c → split_name (join (c ∷ cs)) ≡ (c, join cs)
split-join c [] h = split-end c h
split-join c (d ∷ cs) h = split-slash c (join (d ∷ cs)) h

pub strip-nil : (m : Image) (node : ℕ) → strip m (some node) [] ≡ (node, [])
unfolding strip
strip-nil m node = refl

strip-slash :
    (m : Image) (start : Option ℕ) (rest : List ℕ)
    → strip m start (b'/' ∷ rest) ≡ (root_inode m, rest)
unfolding strip
strip-slash m start rest = refl

strip-name :
    (m : Image) (node : ℕ) (c rest : List ℕ)
    → 0 < length c
    → NoSlash c
    → strip m (some node) (c ++ rest) ≡ (node, c ++ rest)
unfolding strip
strip-name m node [] rest h k = elim h [ ]
strip-name m node (x ∷ c) rest h k = ground arith

pub strip-join :
    (m : Image) (node : ℕ) (c : List ℕ) (cs : List (List ℕ))
    → IsName c
    → strip m (some node) (join (c ∷ cs)) ≡ (node, join (c ∷ cs))
strip-join m node c [] h = rw (← append-nil c) (strip-name m node c [] h.some_byte h.no_slash)
strip-join m node c (d ∷ cs) h = strip-name m node c _ h.some_byte h.no_slash

pub join-not-nil : (c : List ℕ) (cs : List (List ℕ)) → IsName c → is_nil (join (c ∷ cs)) ≡ false
join-not-nil [] cs h = absurd (omega (arith, h.some_byte))
join-not-nil (x ∷ c) [] h = refl
join-not-nil (x ∷ c) (d ∷ cs) h = refl

pub literal-text_eq :
    (name target : List ℕ)
    → NonZero name
    → length name < name_bound
    → IsName target
    → literal_cmp name target ≡ ok (if text_eq name target then 0 else 1)
unfolding literal_cmp
literal-text_eq name target nz short h =
    strcmp-text_eq name_bound _ _ 0 0 name target short h.short (chars-IsString name nz)
      (chars-IsString target h.non_zero)

-- What `enter` does is a step and the rest of the search.
enter-step :
    (m : Image) (name : ℕ → List ℕ) (node : ℕ) (target : List ℕ) (go : ℕ → Run (Option ℕ))
    → IsNamed m name
    → IsName target
    → enter m node target go
      ≡ (elim (step m name node target) [ none ↦ ok none | some child ↦ go child ])
unfolding enter step
enter-step m name node target go w h =
    rw
      (
        literal-text_eq dot target (omega arith) (omega arith) h,
        literal-text_eq dot_dot target (omega arith) (omega arith) h,
      )
      (elim (Bool-cases (text_eq dot target)) [
        | inl here ↦ rw here
        | inr below ↦ rw below (elim (Bool-cases (text_eq dot_dot target)) [
          | inl up ↦ rw up
          | inr child ↦
              rw
                (child, find_child-first_named m name target w h.non_zero h.short (inode_at m node))
        ])
      ])

append-not-nil : (c rest : List ℕ) → IsName c → is_nil (c ++ rest) ≡ false
append-not-nil [] rest h = absurd (omega (arith, h.some_byte))
append-not-nil (x ∷ c) rest h = refl

-- Behind a leading slash the directory does not matter.
slash-any :
    (fuel : ℕ) (m : Image) (start : Option ℕ) (rest : List ℕ)
    → lookup (suc fuel) m start (b'/' ∷ rest) ≡ lookup (suc fuel) m none (b'/' ∷ rest)
unfolding lookup
slash-any fuel m start rest = rw (strip-slash m start rest, strip-slash m none rest)

pub restart :
    (fuel : ℕ) (m : Image) (start : Option ℕ) (path : List (List ℕ))
    → AllNames path
    → lookup (suc fuel) m start (b'/' ∷ join path)
      ≡ lookup (suc fuel) m (some (root_inode m)) (join path)
unfolding lookup
restart fuel m start [] h = rw (strip-slash m start [], strip-nil m (root_inode m))
restart fuel m start (c ∷ cs) h =
    rw (strip-slash m start (join (c ∷ cs)), strip-join m (root_inode m) c cs h.0)

-- In an image whose names end, a relative path of names without slashes leads from any node
-- where its names lead one by one; one unit of fuel more than there are names is enough.
pub lookup-resolve :
    (fuel : ℕ) (m : Image) (name : ℕ → List ℕ) (node : ℕ) (path : List (List ℕ))
    → IsNamed m name
    → AllNames path
    → length path < fuel
    → lookup fuel m (some node) (join path) ≡ ok (resolve m name node path)
unfolding lookup resolve
lookup-resolve zero m name node path w h f = elim f [ ]
lookup-resolve (suc fuel) m name node [] w h f = rw (strip-nil m node)
lookup-resolve (suc fuel) m name node (c ∷ cs) w h f =
    rw
      (
        strip-join m node c cs h.0,
        split-join c cs (h.0.no_slash),
        join-not-nil c cs h.0,
        enter-step m name node c (λ child. lookup fuel m (some child) (join cs)) w h.0,
      )
      (elim (Bool-cases ((inode_at m node).type == type_dir)) [
        | inl dir ↦ rw dir (elim (Option-cases (step m name node c)) [
          | inl missing ↦ rw missing
          | inr (child, found) ↦ rw found (lookup-resolve fuel m name child cs w h.1 (omega arith))
        ])
        | inr file ↦ rw file
      ])

-- In an image whose names end, a slash and a path of names without slashes lead from the root
-- where the names lead one by one, whatever node the search was given.
pub lookup-absolute :
    (fuel : ℕ) (m : Image) (name : ℕ → List ℕ) (start : Option ℕ) (path : List (List ℕ))
    → IsNamed m name
    → AllNames path
    → length path < fuel
    → lookup fuel m start (b'/' ∷ join path) ≡ ok (resolve m name (root_inode m) path)
lookup-absolute zero m name start path w h f = elim f [ ]
lookup-absolute (suc fuel) m name start path w h f =
    restart fuel m start path h ∙ lookup-resolve (suc fuel) m name (root_inode m) path w h f

-- In an image whose names end, where a name that leads from a directory to a child is followed
-- by two slashes, the search starts again at the root and forgets the child.
pub lookup-double_slash :
    (fuel : ℕ) (m : Image) (name : ℕ → List ℕ) (node child : ℕ) (c rest : List ℕ)
    → IsNamed m name
    → IsName c
    → (inode_at m node).type ≡ type_dir
    → step m name node c ≡ some child
    → lookup (suc (suc fuel)) m (some node) (c ++ b'/' ∷ b'/' ∷ rest)
      ≡ lookup (suc fuel) m none (b'/' ∷ rest)
unfolding lookup
lookup-double_slash fuel m name node child c rest w h dir found =
    let directory : ((inode_at m node).type == type_dir) ≡ true = ground arith in
    let go : ℕ → Run (Option ℕ) = λ child. lookup (suc fuel) m (some child) (b'/' ∷ rest) in
    rw
      (
        strip-name m node c (b'/' ∷ b'/' ∷ rest) h.some_byte h.no_slash,
        split-slash c (b'/' ∷ rest) h.no_slash,
        append-not-nil c (b'/' ∷ b'/' ∷ rest) h,
        directory,
        enter-step m name node c go w h,
        found,
      )
      (slash-any fuel m (some child) rest)
