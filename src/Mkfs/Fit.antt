-- ===== src/Mkfs/Fit.antt =====
-- What walk of mkfs/mksfs.c needs for an entry: names, numbers and blocks.
use jokerix.Base.{ℕ, ◌+◌, ◌≤◌, ◌<◌, ◌≡◌, refl, true, false, List, arith}
use jokerix.Mkfs.{Entries, dir, file, other, is_dots, byte_count}
use jokerix.Mkfs.File.{span}
use jokerix.Mkfs.Tree.{slots, room_for, is_fit}

pub room-other : (rest : Entries) → room_for (other rest) ≡ room_for rest
unfolding room_for
room-other rest = refl

pub fit-other : (rest : Entries) → is_fit (other rest) ≡ true → is_fit rest ≡ true
unfolding is_fit
fit-other rest fit = fit

-- What is asked for and counted for an entry.
pub fit-file :
    (name contents : List ℕ) (rest : Entries)
    → is_dots name ≡ false
    → is_fit (file name contents rest) ≡ true
    → (byte_count name < 32)
      × (span (byte_count contents) ≤ 1036)
      × (is_fit rest ≡ true)
      × (room_for (file name contents rest) ≡ span (byte_count contents) + 2 + room_for rest)
      × (slots (file name contents rest) ≡ 1 + slots rest)
unfolding is_fit room_for slots
fit-file name contents rest dots fit =
    let fit' = rw dots at fit in (ground arith, ground arith, ground arith, rw dots, rw dots)

pub fit-dir :
    (name : List ℕ) (children rest : Entries)
    → is_dots name ≡ false
    → is_fit (dir name children rest) ≡ true
    → (byte_count name < 32)
      × (slots children ≤ 1034)
      × (is_fit children ≡ true)
      × (is_fit rest ≡ true)
      × (room_for (dir name children rest) ≡ room_for children + 2 + room_for rest)
      × (slots (dir name children rest) ≡ 1 + slots rest)
unfolding is_fit room_for slots
fit-dir name children rest dots fit =
    let fit' = rw dots at fit in
    (ground arith, ground arith, ground arith, ground arith, rw dots, rw dots)

pub skip-file :
    (name contents : List ℕ) (rest : Entries)
    → is_dots name ≡ true
    → is_fit (file name contents rest) ≡ true
    → (is_fit rest ≡ true)
      × (room_for (file name contents rest) ≡ room_for rest)
      × (slots (file name contents rest) ≡ slots rest)
unfolding is_fit room_for slots
skip-file name contents rest dots fit =
    let fit' = rw dots at fit in
    let none : 0 + room_for rest ≡ room_for rest = omega arith in
    let none' : 0 + slots rest ≡ slots rest = omega arith in
    (ground arith, rw dots none, rw dots none')

pub skip-dir :
    (name : List ℕ) (children rest : Entries)
    → is_dots name ≡ true
    → is_fit (dir name children rest) ≡ true
    → (is_fit rest ≡ true)
      × (room_for (dir name children rest) ≡ room_for rest)
      × (slots (dir name children rest) ≡ slots rest)
unfolding is_fit room_for slots
skip-dir name children rest dots fit =
    let fit' = rw dots at fit in
    let none : 0 + room_for rest ≡ room_for rest = omega arith in
    let none' : 0 + slots rest ≡ slots rest = omega arith in
    (ground arith, rw dots none, rw dots none')
