-- ===== src/Pool/Retrieve.antt =====
-- retrieveToPool of kernel/thread.c: what becomes of the thread that stopped running.
use jokerix.Base.{ℕ, suc, ◌<◌, ◌≡◌, refl, true, false, List, [], ◌∷◌, ◌++◌, arith, update}
use jokerix.Base.Run.{ok, Returns, returns, Returns-bind}
use jokerix.KernelHeap.{KernelHeap}
use jokerix.Scheduler.{max_thread}
use jokerix.Scheduler.Chain.{Apart}
use jokerix.Scheduler.Queue.{scheduler_push-append}
use jokerix.Pool.{ready, running, sleeping, ThreadInfo, ThreadPool, RunningThread, retrieve_to_pool}
use jokerix.Pool.Laws.{IsReady, AllReady-frame, AllReady-append, Pushed-Short}

module _ (k : KernelHeap) (pool : ThreadPool) (rt : RunningThread) (heap : k.State) (ts : List ℕ)
    (r : IsReady pool ts) where
  -- A thread whose slice is over goes behind the others, with its new context.
  pub retrieve_to_pool-running :
      Apart (suc rt.tid) ts
      → rt.tid < max_thread
      → (pool.threads rt.tid).occupied ≡ true
      → (pool.threads rt.tid).status ≡ running
      → Returns
          (λ (pool', heap').
            IsReady pool' (ts ++ rt.tid ∷ [])
            × ((pool'.threads rt.tid).thread ≡ rt.thread)
            × ((pool'.threads rt.tid).occupied ≡ true)
            × (heap' ≡ heap))
          (retrieve_to_pool k pool rt heap)
  unfolding retrieve_to_pool
  retrieve_to_pool-running out small taken runs =
      let saved : ThreadInfo = record {
        status = ready;
        tid = (pool.threads rt.tid).tid;
        occupied = true;
        thread = rt.thread;
      } in
      let threads = update pool.threads rt.tid saved in
      rw (taken, runs)
        (Returns-bind
          (scheduler_push-append pool.scheduler ts rt.tid r.queue out small (r.times rt.tid))
          λ s p. returns (
            record {
              queue = p.queue;
              slots =
                  AllReady-append threads rt.tid ts
                    (AllReady-frame pool.threads threads rt.tid ts (λ j ne. ground arith) out
                      r.slots)
                    (ground arith) (ground arith);
              times = Pushed-Short pool.scheduler s rt.tid ts r.times p;
            },
            ground arith,
            ground arith,
            refl,
          ))

  -- A thread that went to sleep keeps its slot and its context, and is not made ready.
  pub retrieve_to_pool-sleeping :
      Apart (suc rt.tid) ts
      → (pool.threads rt.tid).occupied ≡ true
      → (pool.threads rt.tid).status ≡ sleeping
      → Returns
          (λ (pool', heap').
            IsReady pool' ts
            × ((pool'.threads rt.tid).thread ≡ rt.thread)
            × ((pool'.threads rt.tid).occupied ≡ true)
            × ((pool'.threads rt.tid).status ≡ sleeping)
            × (heap' ≡ heap))
          (retrieve_to_pool k pool rt heap)
  unfolding retrieve_to_pool
  retrieve_to_pool-sleeping out taken sleeps =
      let saved : ThreadInfo = record {
        status = sleeping;
        tid = (pool.threads rt.tid).tid;
        occupied = true;
        thread = rt.thread;
      } in
      let threads = update pool.threads rt.tid saved in
      rw (taken, sleeps)
        (returns (
          record {
            queue = r.queue;
            slots =
                AllReady-frame pool.threads threads rt.tid ts (λ j ne. ground arith) out r.slots;
            times = r.times;
          },
          ground arith,
          ground arith,
          ground arith,
          refl,
        ))

  -- The stack of a thread that has ended is freed, and the pool stays as it is.
  retrieve_to_pool-ended :
      (freed : k.State)
      → (pool.threads rt.tid).occupied ≡ false
      → k.kfree (pool.threads rt.tid).thread.kstack heap ≡ ok freed
      → retrieve_to_pool k pool rt heap ≡ ok (pool, freed)
  unfolding retrieve_to_pool
  retrieve_to_pool-ended freed ended e = rw (ended, e)
