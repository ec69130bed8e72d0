-- ===== src/Tests/Frame.antt =====
-- The frame allocator on a range of six pages.
use jokerix.Base.{
  ℕ, List, [], ◌∷◌, ◌++◌, ◌-◌, ◌/◌, ◌<◌, ◌≡◌, refl, ◌==◌, ◌||◌, if◌then◌else◌, arith, ◌↔◌,
}
use jokerix.Drill.{test_alloc, alloc_and_print}
use jokerix.Print.{print_ptr}
use jokerix.Print.Format.{printf, directive, pointer_arg}
use jokerix.Frame.Memory.{dealloc_frame}
use jokerix.Base.Run.{Run, ok, Returns, ◌>>=◌}
use jokerix.Frame.{Sta, new_allocator, alloc, dealloc}
use jokerix.Frame.Pages.{leaf, IsManaged, IsFree, IsValid, Marked, alloc_takes, dealloc-alloc}
use jokerix.Frame.Memory.{Memory, page_size, alloc_frame, init_frame_allocator}
use jokerix.Frame.Memory.Laws.{Framed, alloc_frame_clears, init_frame_allocator_frees}

-- Pages 10 to 14 of a range that ends at 16, of which 10 is taken.
abbrev pub six_node : ℕ → ℕ
six_node i = if (i == 8) || (i == 9) || (i == 14) || (i == 15) || (i == 4) || (i == 7) then 1 else 0

abbrev pub six : Sta
six = record { node = six_node; first_single = 8; length = 6; start_ppn = 9 }

pub six-IsValid : IsValid six
six-IsValid = ground arith

abbrev full : Sta
full = record six { node = λ i. 1 }

full-IsValid : IsValid full
full-IsValid = ground arith

-- The tree that newAllocator builds for the pages 10 to 15 hands out 10, and then 11.
abbrev pages : Run (List ℕ)
pages = do
  s ← new_allocator (λ i. 7) 10 16
  (p, s') ← alloc s
  (q, s'') ← alloc s'
  s''' ← dealloc s'' p
  (r, _) ← alloc s'''
  ok (p ∷ q ∷ r ∷ [])

two_pages : pages ≡ ok (10 ∷ 11 ∷ 10 ∷ [])
unfolding new_allocator alloc dealloc
two_pages = refl

alloc_takes_example :
    Returns (λ (q, s'). IsManaged six q × IsFree six q × Marked six q 1 s') (alloc six)
alloc_takes_example = alloc_takes six six-IsValid 11 (ground arith) refl

dealloc-alloc_example :
    Returns
      (λ s''.
        IsValid s'' × ((q : ℕ) → IsManaged six q → s''.node (leaf s'' q) ≡ six.node (leaf six q)))
      (alloc six >>= λ (q, s'). dealloc s' q)
dealloc-alloc_example = dealloc-alloc six 11 six-IsValid (ground arith) refl

abbrev memory : Memory
memory = record { sta = six; bytes = λ i. 0xff }

abbrev allocated : ℕ → List ℕ
allocated f = b'a' ∷ b'l' ∷ b'l' ∷ b'o' ∷ b'c' ∷ b' ' ∷ print_ptr f ++ b'\n' ∷ []

-- The second page is given back, and handed out again.
abbrev drill : List ℕ
drill =
    allocated 0xb000
    ++ allocated 0xc000
    ++ allocated 0xd000
    ++ (b'd' ∷ b'e' ∷ allocated 0xc000)
    ++ allocated 0xc000
    ++ allocated 0xe000

again : (test_alloc memory >>= λ (text, _). ok text) ≡ ok drill
unfolding test_alloc alloc_and_print alloc_frame dealloc_frame alloc dealloc printf directive
    pointer_arg print_ptr
again = refl

alloc_frame_clears_example : Returns (λ (addr, m'). Framed memory addr m') (alloc_frame memory)
alloc_frame_clears_example = alloc_frame_clears memory 11 six-IsValid (ground arith) refl

init_frame_allocator_frees_example :
    Returns
      (λ s.
        IsValid s
        × ((q : ℕ)
            → IsManaged s q
              ↔ (((0xffffffff80a00000 - 0xffffffff00000000) / page_size < q) × (q < 0x87fff)))
        × ((q : ℕ) → IsManaged s q → IsFree s q))
      (init_frame_allocator (λ i. 0) 0xffffffff80a00000)
init_frame_allocator_frees_example =
    init_frame_allocator_frees (λ i. 0) 0xffffffff80a00000 (omega arith) (omega arith)
