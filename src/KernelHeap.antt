-- ===== src/KernelHeap.antt =====
-- The dynamic memory of kernel/heap.c as its clients see it: kalloc and kfree, and what they rely
-- on. A pointer is live from the kalloc that returned it to its kfree. Heap/Interface has the buddy
-- system as such a heap.
use jokerix.Base.{ℕ, ◌^◌, ◌<◌, ◌≡◌, ◌≢◌}
use jokerix.Base.Run.{Run, ok, Returns}

pub record KernelHeap : Type 1 where
  pub State : Type 0
  pub kalloc : ℕ → State → Run (ℕ × State)
  pub kfree : ℕ → State → Run State
  pub Valid : State → Type 0
  pub Live : State → ℕ → Type 0
  pub kalloc_gives :
      (n p : ℕ) (s s' : State)
      → 0 < n
      → n < 2 ^ 31
      → Valid s
      → kalloc n s ≡ ok (p, s')
      → (p ≢ 0) × Valid s' × Live s' p × ((q : ℕ) → Live s q → (q ≢ p) × Live s' q)
  pub kfree_gives :
      (p : ℕ) (s : State)
      → Valid s
      → Live s p
      → Returns (λ s'. Valid s' × ((q : ℕ) → q ≢ p → Live s q → Live s' q)) (kfree p s)
