-- ===== src/Stdin/Laws.antt =====
-- kernel/stdin.c: what is typed comes out in its order.
use jokerix.Base.{
  ℕ, ◌-◌, ◌%◌, ◌^◌, ◌≡◌, ◌≢◌, refl, arith, false, [], ◌∷◌, ◌++◌, ◌==◌, if◌then◌else◌,
}
use jokerix.Base.Run.{ok, Returns, returns, Returns-bind}
use jokerix.KernelHeap.{KernelHeap}
use jokerix.Queue.{Store, node_bytes}
use jokerix.Queue.Laws
use jokerix.Queue.Laws.{Cells, is_empty-cons, push_back-append, pop_front-cons}
use jokerix.Condition.Laws.{notify_condition-nil}
use jokerix.Processor.{Processor}
use jokerix.Stdin.{Stdin, got, push_char, pop_char, external}

-- The char that a typed byte stands for: return ends a line.
abbrev pub typed : ℕ → ℕ
typed ret = if ret % 2 ^ 8 == b'\r' then b'\n' else ret % 2 ^ 8

module _ (k : KernelHeap) (self : Stdin) (cpu : Processor) (s : Store k) where
  -- While nobody waits for input and kalloc has memory, a byte of the console is put behind the chars
  -- that wait in the buffer, a return as a newline; the processor is left alone.
  pub external-append :
      (ret n : ℕ) (heap : k.State) (cs : Cells)
      → Laws.IsQueue k s self.buf cs
      → Laws.IsQueue k s self.pushed.wait_queue []
      → k.kalloc node_bytes s.heap ≡ ok (n, heap)
      → ret ≢ 2 ^ 64 - 1
      → Returns
          (λ (self', cpu', s').
            Laws.IsQueue k s' self'.buf (cs ++ (n, typed ret) ∷ [])
            × (self'.pushed ≡ self.pushed)
            × (cpu' ≡ cpu))
          (external k ret self cpu s)
  unfolding external push_char
  external-append ret n heap cs q nobody e some_byte =
      let byte : (ret == 2 ^ 64 - 1) ≡ false = ground arith in
      rw byte (
        Returns-bind (push_back-append k s self.buf cs (typed ret) n heap q e) λ (buf, s') q'.
          let still : Laws.IsQueue k s' self.pushed.wait_queue [] = record {
            valid = q'.valid;
            holds = nobody.holds;
          } in
          rw (notify_condition-nil k self.pushed cpu s' [] [] still) (returns (q', refl, refl)))

  -- popChar returns the first char of the buffer as a byte, and leaves the others in their order.
  pub pop_char-cons :
      (context p c : ℕ) (cs : Cells)
      → Laws.IsQueue k s self.buf ((p, c) ∷ cs)
      → Returns
          (λ (round, self', cpu', s').
            (round ≡ got (c % 2 ^ 8))
            × Laws.IsQueue k s' self'.buf cs
            × (self'.pushed ≡ self.pushed)
            × (cpu' ≡ cpu))
          (pop_char k context self cpu s)
  unfolding pop_char
  pop_char-cons context p c cs q =
      let busy = is_empty-cons k s self.buf (p, c) cs q in
      rw busy (
        Returns-bind (pop_front-cons k s self.buf p c cs q)
          λ (item, buf, s') (first, rest). returns (rw first, rest, refl, refl))
