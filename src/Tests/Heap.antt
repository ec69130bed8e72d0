-- ===== src/Tests/Heap.antt =====
-- The buddy system with four blocks.
use jokerix.Base.{ℕ, ◌+◌, ◌-◌, ◌<◌, ◌≡◌, refl, arith, Option, none, some, List, [], ◌∷◌}
use jokerix.Base.Run.{Run, ok, Returns, ◌>>=◌}
use jokerix.Heap.{
  BuddyTree, fix_size, round_up, init_nodes, init_tree, choose, find_node, raise, buddy_alloc,
  find_taken, merge, buddy_free,
}
use jokerix.Heap.Laws.{buddy_free_ends}

abbrev raw : BuddyTree
raw = record { size = 0; longest = λ i. 9 }

-- Blocks of one and of two, and a third one after the first was given back.
abbrev run : Run (List (Option ℕ))
run = do
  (a, t) ← buddy_alloc (init_tree 4 raw) 1
  (b, t') ← buddy_alloc t 2
  (c, t'') ← buddy_alloc t' 2
  t''' ← buddy_free t'' 0
  (d, _) ← buddy_alloc t''' 2
  ok (a ∷ b ∷ c ∷ d ∷ [])

run_result : run ≡ ok (some 0 ∷ some 2 ∷ none ∷ some 0 ∷ [])
unfolding init_tree init_nodes buddy_alloc round_up find_node choose raise fix_size buddy_free
    find_taken merge
run_result = refl

abbrev four : BuddyTree
four = init_tree 4 raw

two_inside : 2 < four.size
unfolding init_tree
two_inside = omega arith

buddy_free_ends_example :
    Returns
      (λ freed.
        (freed.size ≡ four.size)
        × ((j : ℕ) → 2 + four.size - 1 < j → freed.longest j ≡ four.longest j))
      (buddy_free four 2)
buddy_free_ends_example = buddy_free_ends four 2 two_inside
