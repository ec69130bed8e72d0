-- ===== src/Mkfs/Lookup.antt =====
-- Paths of the host, looked up by kernel/fs.c in the image that mkfs/mksfs.c makes.
use jokerix.Base.{
  ℕ, suc, ◌+◌, ◌<◌, ◌≡◌, Bool, true, false, some, List, [], ◌∷◌, if◌then◌else◌, arith,
}
use jokerix.Base.Lists.{length}
use jokerix.Base.Run.{ok}
use jokerix.Str.Laws.{NonZero, text_eq, text_eq_refl}
use jokerix.Fs.{Image, name_bound, name_cmp, scan}
use jokerix.Mkfs.{Entries, is_dots}
use jokerix.Mkfs.Tree.{
  slots, slots-file, slots-dir, slots-other, Listed, listed_other, skipped_file, listed_file,
  skipped_dir, listed_dir,
}
use jokerix.Mkfs.Find.{
  named-cmp, AllNonZero, At, at_file, at_dir, behind_other, behind_file, behind_dir, Leads, arrived,
  inside,
}

-- What a scan over the entries finds.
unfoldable pub Found :
    (keep : ℕ → Bool) (m : Image) (at : ℕ → ℕ) (n i : ℕ) (target : List ℕ) (path : List (List ℕ))
    (contents : List ℕ)
    → Type 0
Found keep m at n i target path contents =
    (b : ℕ) × (scan n i m at target ≡ ok (some b)) × Leads keep m contents b path

-- The first entry has the name, or another.
scan-here :
    (keep : ℕ → Bool) (m : Image) (at : ℕ → ℕ) (n i : ℕ) (target : List ℕ) (path : List (List ℕ))
    (contents : List ℕ)
    → name_cmp m (at i) target ≡ ok (if text_eq target target then 0 else 1)
    → Leads keep m contents (at i) path
    → Found keep m at (suc n) i target path contents
unfolding scan Found
scan-here keep m at n i target path contents cmp leads =
    (at i, rw (cmp, text_eq_refl target), leads)

scan-behind :
    (keep : ℕ → Bool) (m : Image) (at : ℕ → ℕ) (n i : ℕ) (name target : List ℕ)
    (path : List (List ℕ)) (contents : List ℕ)
    → name_cmp m (at i) target ≡ ok (if text_eq name target then 0 else 1)
    → text_eq name target ≡ false
    → Found keep m at n (i + 1) target path contents
    → Found keep m at (suc n) i target path contents
unfolding scan Found
scan-behind keep m at n i name target path contents cmp ne (b, e, leads) =
    (b, rw (cmp, ne, e), leads)

one_more :
    (name : List ℕ) (n k : ℕ)
    → is_dots name ≡ false
    → n ≡ (if is_dots name then 0 else 1) + k
    → n ≡ suc k
one_more name n k dots e = let e' = rw dots at e in omega (arith, e')

no_more :
    (name : List ℕ) (n k : ℕ)
    → is_dots name ≡ true
    → n ≡ (if is_dots name then 0 else 1) + k
    → n ≡ k
no_more name n k dots e = let e' = rw dots at e in omega (arith, e')

pub scan-Leads :
    {keep : ℕ → Bool} {m : Image} {at : ℕ → ℕ} {num i : ℕ} {es : Entries} (target : List ℕ)
    (path : List (List ℕ)) (contents : List ℕ)
    → NonZero target
    → length target < name_bound
    → At es (target ∷ path) contents
    → Listed keep m at num es i
    → AllNonZero es
    → Found keep m at (slots es) i target path contents
unfolding AllNonZero
scan-Leads {keep} {m} {at} {num} {i} target path contents nz short (at_file {rest} d)
      (listed_file dots f l) named =
    let count = one_more target _ (slots rest) dots (slots-file target contents rest) in
    rw count (
      scan-here keep m at (slots rest) i target [] contents
        (named-cmp m (at i) target target nz f.inode.short nz short f.inode.named) (arrived f))
scan-Leads target path contents nz short (at_file d) (skipped_file dots l) named =
    absurd (cc (d, dots))
scan-Leads {keep} {m} {at} {num} {i} target path contents nz short
      (at_dir {path = rest_path} {children} {rest} d a) (listed_dir dots f c l) named =
    let count = one_more target _ (slots rest) dots (slots-dir target children rest) in
    rw count (
      scan-here keep m at (slots rest) i target path contents
        (named-cmp m (at i) target target nz f.inode.short nz short f.inode.named)
        (inside f c (named.1) a))
scan-Leads target path contents nz short (at_dir d a) (skipped_dir dots l) named =
    absurd (cc (d, dots))
scan-Leads target path contents nz short (behind_other {rest} a) (listed_other l) named =
    rw (slots-other rest) (scan-Leads target path contents nz short a l named)
scan-Leads {keep} {m} {at} {num} {i} target path contents nz short
      (behind_file {name} {text} {rest} ne a) (listed_file dots f l) named =
    let count = one_more name _ (slots rest) dots (slots-file name text rest) in
    rw count (
      scan-behind keep m at (slots rest) i name target path contents
        (named-cmp m (at i) name target named.0 f.inode.short nz short f.inode.named) ne
        (scan-Leads {i = i + 1} target path contents nz short a l named.1))
scan-Leads target path contents nz short (behind_file {name} {text} {rest} ne a)
      (skipped_file dots l) named =
    let count = no_more name _ (slots rest) dots (slots-file name text rest) in
    rw count (scan-Leads target path contents nz short a l named.1)
scan-Leads {keep} {m} {at} {num} {i} target path contents nz short
      (behind_dir {name} {children} {rest} ne a) (listed_dir dots f c l) named =
    let count = one_more name _ (slots rest) dots (slots-dir name children rest) in
    rw count (
      scan-behind keep m at (slots rest) i name target path contents
        (named-cmp m (at i) name target named.0 f.inode.short nz short f.inode.named) ne
        (scan-Leads {i = i + 1} target path contents nz short a l named.2))
scan-Leads target path contents nz short (behind_dir {name} {children} {rest} ne a)
      (skipped_dir dots l) named =
    let count = no_more name _ (slots rest) dots (slots-dir name children rest) in
    rw count (scan-Leads target path contents nz short a l named.2)
