-- ===== src/Stdin/Wake.antt =====
-- kernel/stdin.c and kernel/condition.c together: a thread that reads before anything is typed.
use jokerix.Base.{
  ℕ, suc, ◌-◌, ◌^◌, ◌<◌, ◌≡◌, ◌≢◌, refl, ap, ◌∙◌, arith, true, false, List, [], ◌∷◌, ◌++◌, ◌==◌,
}
use jokerix.Base.Run.{ok, Returns, returns, Returns-bind, ◌>>=◌}
use jokerix.KernelHeap.{KernelHeap}
use jokerix.Scheduler.{max_thread}
use jokerix.Scheduler.Chain.{Apart}
use jokerix.Pool.Laws.{IsReady}
use jokerix.Queue.{Queue, Store, node_bytes}
use jokerix.Queue.Laws.{Cells, is_empty_lem, is_empty-cons}
use jokerix.Queue.Apart.{Both, Both-sym, Both-heap, push_back-Both, pop_front-Both}
use jokerix.Processor.{Processor, idle_retrieve}
use jokerix.Processor.Laws.{IsBusy, Back, yield_cpu_lem}
use jokerix.Processor.Exit.{wakeup_cpu_lem}
use jokerix.Condition.{Condvar, wait_condition, notify_condition}
use jokerix.Condition.Laws.{to_tid-small}
use jokerix.Stdin.{Stdin, waits, push_char, pop_char, external}
use jokerix.Stdin.Laws.{typed}

module _ (k : KernelHeap) where
  notify_condition-Both :
      (self : Condvar) (cpu : Processor) (s : Store k) (p t : ℕ) (cs : Cells) (r : Queue)
      (ds : Cells) (ts : List ℕ)
      → Both k s self.wait_queue ((p, t) ∷ cs) r ds
      → IsReady cpu.pool ts
      → Apart (suc t) ts
      → t < max_thread
      → (cpu.pool.threads t).occupied ≡ true
      → Returns
          (λ (self', cpu', s').
            Both k s' self'.wait_queue cs r ds
            × IsReady cpu'.pool (ts ++ t ∷ [])
            × ((cpu'.pool.threads t).thread ≡ (cpu.pool.threads t).thread)
            × (cpu'.occupied ≡ cpu.occupied))
          (notify_condition k self cpu s)
  unfolding notify_condition
  notify_condition-Both self cpu s p t cs r ds ts b ready out small taken =
      let busy = is_empty-cons k s self.wait_queue (p, t) cs b.one in
      rw busy (
        Returns-bind (pop_front-Both k s self.wait_queue r ds p t cs b)
          λ (item, q', s') (first, rest).
            rw (first, to_tid-small t small)
              (Returns-bind (wakeup_cpu_lem cpu t ts ready out small taken)
                λ cpu' w. returns (rest, w.0, (w.3 t).1, w.2)))

  wait_condition-Both :
      (self : Condvar) (cpu : Processor) (s : Store k) (context n p : ℕ) (heap : k.State)
      (cs : Cells) (r : Queue) (ds : Cells) (ts : List ℕ)
      → IsBusy cpu n ts
      → Both k s self.wait_queue cs r ds
      → k.kalloc node_bytes s.heap ≡ ok (p, heap)
      → Returns
          (λ (self', cpu', s').
            Both k s' self'.wait_queue (cs ++ (p, cpu.current.tid) ∷ []) r ds
            × Returns (Back k s'.heap context cpu n ts ts) (idle_retrieve k cpu' s'.heap)
            × (s'.heap ≡ heap))
          (wait_condition k context self cpu s)
  unfolding wait_condition
  wait_condition-Both self cpu s context n p heap cs r ds ts b q e =
      Returns-bind (push_back-Both k s self.wait_queue r ds cs cpu.current.tid p heap q e)
        λ (q', s') (both, same). returns (both, yield_cpu_lem k s'.heap context cpu n ts b, same)

  -- With nothing in the buffer the reader becomes the last that waits.
  pub pop_char-nil :
      (self : Stdin) (cpu : Processor) (s : Store k) (context n p : ℕ) (heap : k.State) (cs : Cells)
      (ts : List ℕ)
      → IsBusy cpu n ts
      → Both k s self.pushed.wait_queue cs self.buf []
      → k.kalloc node_bytes s.heap ≡ ok (p, heap)
      → Returns
          (λ (round, self', cpu', s').
            (round ≡ waits)
            × Both k s' self'.pushed.wait_queue (cs ++ (p, cpu.current.tid) ∷ []) self'.buf []
            × Returns (Back k s'.heap context cpu n ts ts) (idle_retrieve k cpu' s'.heap)
            × (s'.heap ≡ heap))
          (pop_char k context self cpu s)
  unfolding pop_char
  pop_char-nil self cpu s context n p heap cs ts b q e =
      let none_yet = (is_empty_lem k s self.buf [] q.other).1 refl in
      rw none_yet (
        Returns-bind
          (wait_condition-Both self.pushed cpu s context n p heap cs self.buf [] ts b q e)
          λ (pushed, cpu', s') (both, back, at). returns (refl, both, back, at))

  -- A byte goes behind the chars in the buffer, and the thread that waits longest is woken.
  pub external-wakes :
      (self : Stdin) (cpu : Processor) (s : Store k) (ret p t c : ℕ) (heap : k.State)
      (cs ds : Cells) (ts : List ℕ)
      → Both k s self.pushed.wait_queue ((p, t) ∷ cs) self.buf ds
      → IsReady cpu.pool ts
      → Apart (suc t) ts
      → t < max_thread
      → (cpu.pool.threads t).occupied ≡ true
      → k.kalloc node_bytes s.heap ≡ ok (c, heap)
      → ret ≢ 2 ^ 64 - 1
      → Returns
          (λ (self', cpu', s').
            Both k s' self'.pushed.wait_queue cs self'.buf (ds ++ (c, typed ret) ∷ [])
            × IsReady cpu'.pool (ts ++ t ∷ [])
            × ((cpu'.pool.threads t).thread ≡ (cpu.pool.threads t).thread)
            × (cpu'.occupied ≡ cpu.occupied))
          (external k ret self cpu s)
  unfolding external push_char
  external-wakes self cpu s ret p t c heap cs ds ts q ready out small taken e byte =
      let some_byte : (ret == 2 ^ 64 - 1) ≡ false = ground arith in
      let waiting = self.pushed.wait_queue in
      rw some_byte (
        Returns-bind
          (push_back-Both k s self.buf waiting ((p, t) ∷ cs) ds (typed ret) c heap (Both-sym k q) e)
          λ (buf, s') (both, same).
            Returns-bind
              (notify_condition-Both self.pushed cpu s' p t cs buf (ds ++ (c, typed ret) ∷ []) ts
                (Both-sym k both) ready out small taken)
              λ (pushed, cpu', s'') w. returns w)

  -- If kalloc has memory for two nodes: the current thread, reading while nothing is in the buffer and
  -- nobody waits, waits; once it has given the processor up and a byte is typed, it is the last that
  -- will run, with the context that was saved, nobody waits any more, and the buffer holds the char.
  reader_wakes :
      (self : Stdin) (cpu : Processor) (s : Store k) (context ret n p c : ℕ) (h1 h2 : k.State)
      (ts : List ℕ)
      → IsBusy cpu n ts
      → Both k s self.pushed.wait_queue [] self.buf []
      → k.kalloc node_bytes s.heap ≡ ok (p, h1)
      → k.kalloc node_bytes h1 ≡ ok (c, h2)
      → ret ≢ 2 ^ 64 - 1
      → Returns
          (λ (round, self', cpu', s').
            (round ≡ waits)
            × Both k s' self'.pushed.wait_queue [] self'.buf ((c, typed ret) ∷ [])
            × IsReady cpu'.pool (ts ++ cpu.current.tid ∷ [])
            × ((cpu'.pool.threads cpu.current.tid).thread
                ≡ record cpu.current.thread { context_addr = context }))
          (do
            (round, self', cpu', s') ← pop_char k context self cpu s
            (idle, heap) ← idle_retrieve k cpu' s'.heap
            (self'', cpu'', s'') ← external k ret self' idle (record s' { heap = heap })
            ok (round, self'', cpu'', s''))
  reader_wakes self cpu s context ret n p c h1 h2 ts b q e1 e2 byte =
      Returns-bind (pop_char-nil self cpu s context n p h1 [] ts b q e1)
        λ (round, self', cpu', s') (sleeps, both, leaves, at).
          Returns-bind leaves λ (idle, heap) (free, saved, taken, same).
            Returns-bind
              (external-wakes self' idle (record s' { heap = heap }) ret p cpu.current.tid c h2 []
                [] ts (Both-heap k heap same both) free.is_ready b.apart b.small taken
                (ap (k.kalloc node_bytes) (same ∙ at) ∙ e2) byte)
              λ (self'', cpu'', s'') (both', ready, kept, still).
                returns (sleeps, both', ready, kept ∙ saved)
