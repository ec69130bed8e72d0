-- ===== src/Processor/Exit.antt =====
-- kernel/processor.c: the end of a thread and the waking of another.
use jokerix.Base.{
  ℕ, suc, ◌+◌, ◌<◌, ◌≡◌, refl, ap, ◌∙◌, ◌≢◌, inl, inr, true, false, none, some, List, [], ◌∷◌, ◌++◌,
  arith, ◌==◌, Bool-cases,
}
use jokerix.Base.Run.{ok, Returns, returns, Returns-bind, Returns-inv, ◌>>=◌}
use jokerix.KernelHeap.{KernelHeap}
use jokerix.Scheduler.{RrScheduler, max_thread, scheduler_exit}
use jokerix.Scheduler.Chain.{Apart}
use jokerix.Scheduler.Queue.{IsQueue, Pushed, scheduler_push-append}
use jokerix.Pool.{Thread, ThreadPool, exit_from_pool, retrieve_to_pool}
use jokerix.Pool.Laws.{IsReady, AllReady-frame, AllReady-append, Pushed-Short}
use jokerix.Processor.{Processor, wake, wakeup_cpu, leave, exit_from_cpu, wake_host, idle_retrieve}
use jokerix.Processor.Laws.{IsIdle, IsBusy}

-- Making a sleeping thread ready puts it behind the others.
woken-IsReady :
    (pool : ThreadPool) (host : ℕ) (ts : List ℕ) (s : RrScheduler)
    → IsReady pool ts
    → Apart (suc host) ts
    → (pool.threads host).occupied ≡ true
    → Pushed pool.scheduler host ts s
    → IsReady (record (wake host pool) { scheduler = s }) (ts ++ host ∷ [])
woken-IsReady pool host ts s r out taken p =
    let threads = (wake host pool).threads in
    record {
      queue = p.queue;
      slots =
          AllReady-append threads host ts
            (AllReady-frame pool.threads threads host ts (λ j ne. ground arith) out r.slots)
            (ground (arith, taken)) (ground arith);
      times = Pushed-Short pool.scheduler s host ts r.times p;
    }

-- Waking a thread changes the status of its slot only.
wake-keeps :
    (pool : ThreadPool) (host j : ℕ)
    → (((wake host pool).threads j).occupied ≡ (pool.threads j).occupied)
      × (((wake host pool).threads j).thread ≡ (pool.threads j).thread)
wake-keeps pool host j = elim (Bool-cases (host == j)) [
  | inl here ↦ let same : host ≡ j = ground arith in rw same (ground arith)
  | inr away ↦ ground arith
]

-- A thread that has its slot and is not ready is the last that will run after wakeupCPU; the
-- current thread stays, and the slots change in their status only.
pub wakeup_cpu_lem :
    (cpu : Processor) (host : ℕ) (ts : List ℕ)
    → IsReady cpu.pool ts
    → Apart (suc host) ts
    → host < max_thread
    → (cpu.pool.threads host).occupied ≡ true
    → Returns
        (λ cpu'.
          IsReady cpu'.pool (ts ++ host ∷ [])
          × (cpu'.current ≡ cpu.current)
          × (cpu'.occupied ≡ cpu.occupied)
          × ((j : ℕ)
              → ((cpu'.pool.threads j).occupied ≡ (cpu.pool.threads j).occupied)
                × ((cpu'.pool.threads j).thread ≡ (cpu.pool.threads j).thread)))
        (wakeup_cpu host cpu)
unfolding wakeup_cpu
wakeup_cpu_lem cpu host ts r out small taken =
    Returns-bind (scheduler_push-append cpu.pool.scheduler ts host r.queue out small (r.times host))
      λ s p. returns (
        woken-IsReady cpu.pool host ts s r out taken p,
        refl,
        refl,
        λ j. wake-keeps cpu.pool host j,
      )

-- The scheduling thread frees the stack of a thread that has ended, and nothing else changes.
idle_retrieve-ended :
    (k : KernelHeap) (heap freed : k.State) (cpu : Processor)
    → (cpu.pool.threads cpu.current.tid).occupied ≡ false
    → k.kfree (cpu.pool.threads cpu.current.tid).thread.kstack heap ≡ ok freed
    → idle_retrieve k cpu heap ≡ ok (record cpu { occupied = false }, freed)
unfolding idle_retrieve retrieve_to_pool
idle_retrieve-ended k heap freed cpu gone e = rw (gone, e)

module _ (k : KernelHeap) (heap back : k.State) (context : ℕ) (cpu : Processor) (n : ℕ)
    (ts : List ℕ)
    (given_back : k.kfree (cpu.pool.threads cpu.current.tid).thread.kstack heap ≡ ok back) where
  -- What the scheduling thread finds once the current one has ended: the ready threads, the slot
  -- free, and the stack given back to the heap.
  abbrev pub Gone : List ℕ → Processor × k.State → Type 0
  Gone us (cpu', heap') =
      IsIdle cpu' us × ((cpu'.pool.threads cpu.current.tid).occupied ≡ false) × (heap' ≡ back)

  -- The pool without the current thread.
  exited-IsReady : IsBusy cpu n ts → IsReady (exit_from_pool cpu.pool cpu.current.tid) ts
  unfolding exit_from_pool scheduler_exit
  exited-IsReady b =
      let t = cpu.current.tid in
      let last : (cpu.pool.scheduler.current == t + 1) ≡ true = ground (arith, b.now) in
      let threads = (exit_from_pool cpu.pool t).threads in
      rw last (record {
        queue = record {
          chain = b.is_ready.queue.chain;
          distinct = b.is_ready.queue.distinct;
          timed = b.is_ready.queue.timed;
          slice = b.is_ready.queue.slice;
          narrow = b.is_ready.queue.narrow;
        };
        slots =
            AllReady-frame cpu.pool.threads threads t ts (λ j ne. ground arith) b.apart
              b.is_ready.slots;
        times = b.is_ready.times;
      })

  -- What is left to do once the waiting thread, if there is one, has been woken.
  exit-rest :
      (woken : Processor)
      → wake_host cpu.current.thread.wait
          (record cpu { pool = exit_from_pool cpu.pool cpu.current.tid })
        ≡ ok woken
      → woken.current ≡ cpu.current
      → (woken.pool.threads cpu.current.tid).occupied ≡ false
      → (woken.pool.threads cpu.current.tid).thread.kstack
        ≡ (cpu.pool.threads cpu.current.tid).thread.kstack
      → (exit_from_cpu context cpu >>= λ left. idle_retrieve k left heap)
        ≡ ok (record (leave context woken) { occupied = false }, back)
  unfolding exit_from_cpu
  exit-rest woken e same gone stack =
      let slot : (woken.pool.threads woken.current.tid).occupied ≡ false = rw same gone in
      let freed : k.kfree (woken.pool.threads woken.current.tid).thread.kstack heap ≡ ok back =
        rw (same, stack) given_back in
      rw (e, idle_retrieve-ended k heap back (leave context woken) slot freed)

  -- If kfree takes the stack back: once the current thread, for which nobody waits, has ended, its
  -- slot is free, its stack is given back, and the ready threads are those that were.
  exit_from_cpu-none :
      IsBusy cpu n ts
      → cpu.current.thread.wait ≡ none
      → Returns (Gone ts) (exit_from_cpu context cpu >>= λ left. idle_retrieve k left heap)
  unfolding wake_host exit_from_pool
  exit_from_cpu-none b nobody =
      let freed = record cpu { pool = exit_from_pool cpu.pool cpu.current.tid } in
      let alone : wake_host cpu.current.thread.wait freed ≡ ok freed =
        ap (λ o. wake_host o freed) nobody in
      let gone : (freed.pool.threads cpu.current.tid).occupied ≡ false = ground arith in
      rw (exit-rest freed alone refl gone (ground arith))
        (returns (record { is_ready = exited-IsReady b; free = refl }, gone, refl))

  -- If kfree takes the stack back: once the current thread has ended, its slot is free and its stack
  -- given back; another thread that waits for it, has its slot and is not ready is woken, and is the
  -- last that will run.
  pub exit_from_cpu-some :
      (host : ℕ)
      → IsBusy cpu n ts
      → cpu.current.thread.wait ≡ some host
      → host ≢ cpu.current.tid
      → Apart (suc host) ts
      → host < max_thread
      → (cpu.pool.threads host).occupied ≡ true
      → Returns
          (Gone (ts ++ host ∷ []))
          (exit_from_cpu context cpu >>= λ left. idle_retrieve k left heap)
  unfolding wake_host exit_from_pool
  exit_from_cpu-some host b waits other out small taken =
      let freed = record cpu { pool = exit_from_pool cpu.pool cpu.current.tid } in
      let r = exited-IsReady b in
      let held : (freed.pool.threads host).occupied ≡ true = ground arith in
      let (woken, e, p) = Returns-inv (wakeup_cpu_lem freed host ts r out small held) in
      let done : wake_host cpu.current.thread.wait freed ≡ ok woken =
        ap (λ o. wake_host o freed) waits ∙ e in
      let kept = p.3 cpu.current.tid in
      let gone : (freed.pool.threads cpu.current.tid).occupied ≡ false = ground arith in
      let stack : (woken.pool.threads cpu.current.tid).thread.kstack
          ≡ (cpu.pool.threads cpu.current.tid).thread.kstack =
        ap (λ (t : Thread). t.kstack) kept.1 ∙ ground arith in
      rw (exit-rest woken done p.1 (kept.0 ∙ gone) stack)
        (returns (record { is_ready = p.0; free = refl }, kept.0 ∙ gone, refl))

  -- If kfree takes the stack back: a current thread that waits for its own end becomes ready by
  -- ending, and is the last that will run, although its slot is free and its stack has been given
  -- back.
  pub exit_from_cpu-own :
      IsBusy cpu n ts
      → cpu.current.thread.wait ≡ some cpu.current.tid
      → Returns
          (λ (cpu', heap').
            IsQueue cpu'.pool.scheduler (ts ++ cpu.current.tid ∷ [])
            × ((cpu'.pool.threads cpu.current.tid).occupied ≡ false)
            × (heap' ≡ back))
          (exit_from_cpu context cpu >>= λ left. idle_retrieve k left heap)
  unfolding wake_host exit_from_pool wakeup_cpu
  exit_from_cpu-own b own =
      let t = cpu.current.tid in
      let freed = record cpu { pool = exit_from_pool cpu.pool t } in
      let r = exited-IsReady b in
      let (s, e, p) =
        Returns-inv
          (scheduler_push-append freed.pool.scheduler ts t r.queue b.apart b.small (r.times t)) in
      let woken = record freed { pool = record (wake t freed.pool) { scheduler = s } } in
      let run : wakeup_cpu t freed ≡ ok woken = rw e in
      let done : wake_host cpu.current.thread.wait freed ≡ ok woken =
        ap (λ o. wake_host o freed) own ∙ run in
      let gone : (woken.pool.threads t).occupied ≡ false = ground arith in
      let stack : (woken.pool.threads t).thread.kstack ≡ (cpu.pool.threads t).thread.kstack =
        ground arith in
      rw (exit-rest woken done refl gone stack) (returns (p.queue, gone, refl))
