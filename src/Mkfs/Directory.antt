-- ===== src/Mkfs/Directory.antt =====
-- walk of mkfs/mksfs.c: it packs a whole directory.
use jokerix.Base.{ℕ, ◌+◌, ◌≤◌, ◌<◌, ◌≡◌, ◌∙◌, inl, inr, true, List, Bool-cases, arith}
use jokerix.Base.Run.{Returns, returns, Returns-bind, Returns-map}
use jokerix.Mkfs.{
  Entries, none_left, dir, file, other, is_dots, Inode, Builder, block_num, walk_entries,
  copy_inode_to_block,
}
use jokerix.Mkfs.Space.{free_count, get_free_block-Took}
use jokerix.Mkfs.Blocks.{spare, IsOpen}
use jokerix.Mkfs.Pack.{taken_ne}
use jokerix.Mkfs.Name.{set_filename-IsNamed}
use jokerix.Mkfs.File.{Wrote, write_file-Wrote}
use jokerix.Mkfs.Tree.{
  slots, room_for, is_fit, listed_other, skipped_file, skipped_dir, slots-other,
}
use jokerix.Mkfs.Moved.{IsKept}
use jokerix.Mkfs.Folder.{Walked, empty_dir, directory-Made}
use jokerix.Mkfs.Walk.{
  IsRaw, none_left-Walked, skipped-Walked, recorded-Walked, file-Listed, dir-Listed,
}
use jokerix.Mkfs.Fit.{room-other, fit-other, fit-file, fit-dir, skip-file, skip-dir}

Wrote-IsKept :
    (s : Builder) (block : ℕ) (s1 : Builder) (name contents : List ℕ)
    → Wrote s block s1 name contents
    → IsKept s s1
Wrote-IsKept s block s1 name contents w = record { taken = w.taken; bytes = w.bytes }

-- The walk ends, and the entries are in the image.
pub walk_entries-Walked :
    (raw : ℕ → ℕ → Inode) (es : Entries) (num index : ℕ) (node : Inode) (s : Builder)
    → IsRaw raw
    → num < block_num
    → is_fit es ≡ true
    → index + slots es ≤ 1036
    → IsOpen s node index
    → room_for es + spare node ≤ free_count s.freemap
    → Returns
        (λ (node', s'). Walked s node index es num s' node')
        (walk_entries raw es num index node s)
unfolding walk_entries
walk_entries-Walked raw none_left num index node s clean low fit high o room =
    returns (none_left-Walked s node index num o)
walk_entries-Walked raw (other rest) num index node s clean low fit high o room =
    let count = slots-other rest in
    let more = room-other rest in
    Returns-map
      (walk_entries-Walked raw rest num index node s clean low (fit-other rest fit) (omega arith) o
        (omega (arith, more)))
      λ (node', s') w.
        skipped-Walked s node index (other rest) rest num s' node' count more listed_other w
walk_entries-Walked raw (file name contents rest) num index node s clean low fit high o room =
    elim (Bool-cases (is_dots name)) [
      | inl dots ↦ rw dots (
          let (fit', more, count) = skip-file name contents rest dots fit in
          Returns-map
            (walk_entries-Walked raw rest num index node s clean low fit' (omega (arith, count)) o
              (omega (arith, more)))
            λ (node', s') w.
              skipped-Walked s node index (file name contents rest) rest num s' node' count more
                (skipped_file dots) w)
      | inr named ↦ rw named (
          let (short, small, fit', more, count) = fit-file name contents rest named fit in
          Returns-bind
            (write_file-Wrote (raw num index) name contents s short small (clean.none num index)
              (clean.narrow num index) o.first (omega (arith, more)))
            λ (block, s1) w.
              recorded-Walked s node index (file name contents rest) rest num s1 block
                (walk_entries raw rest num (index + 1)) o high
                (Wrote-IsKept s block s1 name contents w) w.low count (omega (arith, more, w.room))
                room
                (λ s2 s' node'.
                  file-Listed s node index name contents rest num s1 block s2 s' node' named w)
                λ node1 s2 o1 room1.
                  walk_entries-Walked raw rest num (index + 1) node1 s2 clean low fit'
                    (omega (arith, count)) o1 room1)
    ]
walk_entries-Walked raw (dir name children rest) num index node s clean low fit high o room =
    elim (Bool-cases (is_dots name)) [
      | inl dots ↦ rw dots (
          let (fit', more, count) = skip-dir name children rest dots fit in
          Returns-map
            (walk_entries-Walked raw rest num index node s clean low fit' (omega (arith, count)) o
              (omega (arith, more)))
            λ (node', s') w.
              skipped-Walked s node index (dir name children rest) rest num s' node' count more
                (skipped_dir dots) w)
      | inr named ↦ rw named (
          let (short, small, fits, fit', more, count) = fit-dir name children rest named fit in
          Returns-bind (set_filename-IsNamed name 0 (raw num index).filename (omega arith))
            λ filename (text, same).
              Returns-bind (get_free_block-Took s (omega (arith, more))) λ (block, s1) t.
                let empty = empty_dir (raw num index) filename block num in
                let none = clean.none num index in
                let o1 : IsOpen s1 empty 2 = record {
                  first = t.others 0 (taken_ne s.freemap 0 block o.first t.free) ∙ o.first;
                  few = λ e. omega arith;
                  many = λ ne. absurd (ne none);
                } in
                let one : spare empty ≤ 1 = ground arith in
                Returns-bind
                  (walk_entries-Walked raw children block 2 empty s1 clean t.low fits (omega arith)
                    o1 (omega (arith, more, t.left, one)))
                  λ (child, s2) w.
                    let made =
                      directory-Made s block s1 name children num (raw num index) filename s2 child
                        t o.first none w short small text low (clean.narrow num index) in
                    let s3 = copy_inode_to_block block child s2 in
                    recorded-Walked s node index (dir name children rest) rest num s3 block
                      (walk_entries raw rest num (index + 1)) o high made.kept t.low count
                      (omega (arith, more, made.room)) room
                      (λ s4 s' node'.
                        dir-Listed s node index name children rest num s3 block s4 s' node' named
                          made)
                      λ node1 s4 o1 room1.
                        walk_entries-Walked raw rest num (index + 1) node1 s4 clean low fit'
                          (omega (arith, count)) o1 room1)
    ]
