-- ===== src/Tests/Files.antt =====
-- The file system with an image of two files, and the shell.
use jokerix.Base.{
  ℕ, true, false, ◌+◌, ◌*◌, ◌/◌, ◌%◌, ◌≤◌, ◌≡◌, refl, false, inl, inr, none, some, List, [], ◌∷◌,
  ◌++◌, ltb, ◌==◌, if◌then◌else◌, arith, Bool-cases,
}
use jokerix.Base.Run.{ok, Returns}
use jokerix.Str.{strcmp, chars}
use jokerix.Str.Laws.{strcmp-text_eq, chars-IsString}
use jokerix.Fs.{
  Image, int_size, as_ints, get_block_addr, load32, inode_at, type_dir, lookup, readall,
}
use jokerix.Fs.Names.{IsNamed, first_named}
use jokerix.Fs.Path.{step, resolve, IsName, lookup-resolve, lookup-double_slash}
use jokerix.Fs.Read.{Holds, readall_lem}
use jokerix.Base.Lists.{get_or, length}
use jokerix.Echo.{echo}
use jokerix.Echo.Laws.{Terminal, Shows, NoBackspace, show_all, line_after, echo-line_after}
use jokerix.Print.{digit, print_digits, print_int}
use jokerix.Shell
use jokerix.Shell.{Shell, session, lf, dl}
use jokerix.Shell.Edit.{Follows, IsLine, edit_all, session-edit_all}

-- Block 2 is the root directory and block 3 the file `sh` in it, of five bytes in block 4.
abbrev root_byte : ℕ → ℕ
root_byte o =
    if o == 4
    then 1
    else if o == 8
    then b'/'
    else if o == 40
    then 3
    else if o == 44
    then 2
    else if o == 48
    then 2
    else if o == 52
    then 3
    else 0

abbrev sh_byte : ℕ → ℕ
sh_byte o =
    if o == 0
    then 5
    else if o == 8
    then b's'
    else if o == 9
    then b'h'
    else if o == 40
    then 1
    else if o == 44
    then 4
    else 0

abbrev pub image : Image
image a =
    if a / 4096 == 2
    then root_byte (a % 4096)
    else if a / 4096 == 3
    then sh_byte (a % 4096)
    else if a / 4096 == 4
    then (if ltb (a % 4096) 5 then b'A' + a % 4096 else 0)
    else if a == 12
    then 1
    else 0

abbrev sh : List ℕ
sh = b's' ∷ b'h' ∷ []

abbrev pub names : ℕ → List ℕ
names b = if b == 2 then b'/' ∷ [] else if b == 3 then sh else []

plain-zero : (b : ℕ) → (b == 2) ≡ false → (b == 3) ≡ false → image (b * 4096 + 8) ≡ 0
plain-zero b other no_file =
    let number : (b * 4096 + 8) / 4096 ≡ b = omega arith in
    let offset : (b * 4096 + 8) % 4096 ≡ 8 = omega arith in
    let high : (b * 4096 + 8 == 12) ≡ false = ground arith in
    rw (number, offset, other, no_file, high) (ground arith)

pub image-IsNamed : IsNamed image names
unfolding inode_at get_block_addr
image-IsNamed = record {
  ends = λ b. elim (Bool-cases (b == 2)) [
    | inl root ↦ let at : b ≡ 2 = ground arith in rw at (refl, omega arith, refl)
    | inr other ↦ elim (Bool-cases (b == 3)) [
      | inl file ↦
          let at : b ≡ 3 = ground arith in rw at (refl, omega arith, (refl, omega arith, refl))
      | inr no_file ↦ rw (other, no_file) (plain-zero b other no_file)
    ]
  ];
  short = λ b. ground arith;
}

sh-IsName : IsName sh
sh-IsName = record {
  some_byte = omega arith;
  no_slash = ground arith;
  non_zero = ground arith;
  short = omega arith;
}

-- From the root directory the path of the one name leads to its block.
found : resolve image names 2 (sh ∷ []) ≡ some 3
unfolding resolve step first_named inode_at load32 get_block_addr
found = refl

lookup-resolve_example : lookup 2 image (some 2) sh ≡ ok (resolve image names 2 (sh ∷ []))
lookup-resolve_example =
    lookup-resolve 2 image names 2 (sh ∷ []) image-IsNamed (sh-IsName, tt) (omega arith)

dir-2 : (inode_at image 2).type ≡ type_dir
unfolding inode_at load32 get_block_addr
dir-2 = refl

step-2 : step image names 2 sh ≡ some 3
unfolding step first_named inode_at load32 get_block_addr
step-2 = refl

lookup-double_slash_example :
    lookup 3 image (some 2) (sh ++ b'/' ∷ b'/' ∷ sh) ≡ lookup 2 image none (b'/' ∷ sh)
lookup-double_slash_example =
    lookup-double_slash 1 image names 2 3 sh sh image-IsNamed sh-IsName dir-2 step-2

file-3 :
    ((inode_at image 3).type ≡ 0)
    × (int_size (inode_at image 3).size ≤ int_size (inode_at image 3).blocks * 4096)
unfolding inode_at load32 get_block_addr
file-3 = (refl, omega arith)

readall_lem_example :
    Returns
      (Holds image (as_ints (inode_at image 3)) 0x500 (λ j. 0xff))
      (readall image 3 0x500 (λ j. 0xff))
readall_lem_example = readall_lem image 3 0x500 (λ j. 0xff) file-3.0 file-3.1

strcmp-text_eq_example : strcmp 9 (chars sh) 0 image 0x3008 ≡ ok 0
strcmp-text_eq_example =
    strcmp-text_eq 9 (chars sh) image 0 0x3008 sh sh (omega arith) (omega arith)
      (chars-IsString sh (ground arith)) (refl, omega arith, (refl, omega arith, refl))

-- The shell at an empty line.
abbrev fresh : Shell
fresh = record { line = λ i. 0; line_count = 0 }

fresh-IsLine : IsLine fresh []
fresh-IsLine = record { count = refl; short = omega arith; bytes = λ i p. refl }

-- `lx`, a delete, `s` and a line feed.
abbrev typed : List ℕ
typed = b'l' ∷ b'x' ∷ dl ∷ b's' ∷ lf ∷ []

session-edit_all_example : Follows (session fresh typed) (edit_all [] typed)
session-edit_all_example = session-edit_all fresh [] typed fresh-IsLine

abbrev garbage : Shell
garbage = record { line = λ i. b'g'; line_count = 7 }

garbage-typed : Shell.is_empty 256 0 garbage.line ≡ false
unfolding Shell.is_empty
garbage-typed = refl

-- What the shell's siblings write.
abbrev shown : Terminal
shown = record { cells = λ i. get_or sh i b' '; cursor = 2 }

typed-NoBackspace : NoBackspace typed
unfolding NoBackspace
typed-NoBackspace = (omega arith, (omega arith, (omega arith, (omega arith, (omega arith, tt)))))

echo-line_after_example :
    let (count, out) = echo 2 typed in
    (count ≡ length (line_after sh typed)) × Shows (line_after sh typed) (show_all out shown)
echo-line_after_example =
    echo-line_after typed sh shown (record { cell = λ i. refl; end = refl }) typed-NoBackspace
      (omega arith)

-- The int -255 to base 16.
minus_ff : print_int 0xffffff01 16 true ≡ ok (b'-' ∷ b'f' ∷ b'f' ∷ [])
unfolding print_int print_digits digit
minus_ff = refl
