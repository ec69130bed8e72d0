-- ===== src/Condition/Laws.antt =====
-- kernel/condition.c: who waits sleeps, and is woken in the order of waiting.
use jokerix.Base.{ℕ, suc, ◌<◌, ◌≡◌, refl, true, List, [], ◌∷◌, ◌++◌, ◌%◌, ◌^◌, arith, ltb}
use jokerix.Base.Run.{ok, Returns, returns, Returns-bind}
use jokerix.KernelHeap.{KernelHeap}
use jokerix.Scheduler.{max_thread}
use jokerix.Scheduler.Chain.{Apart}
use jokerix.Pool.Laws.{IsReady}
use jokerix.Queue.{node_bytes, Store}
use jokerix.Queue.Laws.{
  Cells, IsQueue, is_empty_lem, is_empty-cons, push_back-append, pop_front-cons,
}
use jokerix.Processor.{Processor, idle_retrieve}
use jokerix.Processor.Laws.{IsBusy, Back, yield_cpu_lem}
use jokerix.Processor.Exit.{wakeup_cpu_lem}
use jokerix.Condition.{Condvar, to_tid, wait_condition, notify_condition}

pub to_tid-small : (t : ℕ) → t < max_thread → to_tid t ≡ ok t
unfolding to_tid
to_tid-small t small =
    let kept : t % 2 ^ 32 ≡ t = omega arith in
    let low : ltb t (2 ^ 31) ≡ true = ground arith in rw (kept, low)

module _ (k : KernelHeap) (self : Condvar) (cpu : Processor) (s : Store k) (cs : Cells)
    (ts : List ℕ) where
  -- If kalloc has memory, the current thread becomes the last one that waits; once it has given
  -- the processor up, the ready threads are those that were.
  pub wait_condition_lem :
      (context n p : ℕ) (heap : k.State)
      → IsQueue k s self.wait_queue cs
      → k.kalloc node_bytes s.heap ≡ ok (p, heap)
      → IsBusy cpu n ts
      → Returns
          (λ (self', cpu', s').
            IsQueue k s' self'.wait_queue (cs ++ (p, cpu.current.tid) ∷ [])
            × Returns (Back k s'.heap context cpu n ts ts) (idle_retrieve k cpu' s'.heap))
          (wait_condition k context self cpu s)
  unfolding wait_condition
  wait_condition_lem context n p heap q e b =
      Returns-bind (push_back-append k s self.wait_queue cs cpu.current.tid p heap q e)
        λ (q', s') h. returns (h, yield_cpu_lem k s'.heap context cpu n ts b)

  -- The thread that waits longest, if it has its slot and is not ready, is woken: it is the last
  -- that will run, and the others still wait in their order.
  pub notify_condition-cons :
      (p t : ℕ)
      → IsQueue k s self.wait_queue ((p, t) ∷ cs)
      → IsReady cpu.pool ts
      → Apart (suc t) ts
      → t < max_thread
      → (cpu.pool.threads t).occupied ≡ true
      → Returns
          (λ (self', cpu', s'). IsQueue k s' self'.wait_queue cs × IsReady cpu'.pool (ts ++ t ∷ []))
          (notify_condition k self cpu s)
  unfolding notify_condition
  notify_condition-cons p t q r out small taken =
      let busy = is_empty-cons k s self.wait_queue (p, t) cs q in
      rw busy (
        Returns-bind (pop_front-cons k s self.wait_queue p t cs q) λ (item, q', s') (first, rest).
          rw (first, to_tid-small t small)
            (Returns-bind (wakeup_cpu_lem cpu t ts r out small taken)
              λ cpu' w. returns (rest, w.0)))

  -- With nobody waiting, nothing changes.
  pub notify_condition-nil :
      IsQueue k s self.wait_queue [] → notify_condition k self cpu s ≡ ok (self, cpu, s)
  unfolding notify_condition
  notify_condition-nil q = let idle = (is_empty_lem k s self.wait_queue [] q).1 refl in rw idle
