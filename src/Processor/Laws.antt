-- ===== src/Processor/Laws.antt =====
-- kernel/processor.c: what the scheduling thread finds when it gets the processor back, and that
-- each way of giving it back keeps the ready threads in order.
use jokerix.Base.{
  ℕ, suc, ◌^◌, ◌<◌, ◌≡◌, refl, inl, inr, true, false, List, [], ◌∷◌, ◌++◌, arith, ◌==◌, Bool-cases,
}
use jokerix.Base.Run.{Returns, returns, Returns-bind}
use jokerix.KernelHeap.{KernelHeap}
use jokerix.Scheduler.{RrScheduler, max_thread, scheduler_tick}
use jokerix.Scheduler.Chain.{Apart}
use jokerix.Scheduler.Ticks.{Ticked, scheduler_tick_lem}
use jokerix.Pool.{running, tick_pool}
use jokerix.Pool.Laws.{IsReady, Short, AllReady-frame, acquire_from_pool-cons}
use jokerix.Pool.Retrieve.{retrieve_to_pool-running, retrieve_to_pool-sleeping}
use jokerix.Processor.{Processor, sleep, leave, yield_cpu, tick_cpu, idle_acquire, idle_retrieve}

-- The scheduling thread has the processor, and the threads `ts` are ready.
pub record IsIdle (cpu : Processor) (ts : List ℕ) : Type 0 where
  pub is_ready : IsReady cpu.pool ts
  pub free : cpu.occupied ≡ false

-- The current thread has the processor, with `left` ticks of its slice, and the threads `ts` are
-- ready.
pub record IsBusy (cpu : Processor) (left : ℕ) (ts : List ℕ) : Type 0 where
  pub is_ready : IsReady cpu.pool ts
  pub busy : cpu.occupied ≡ true
  pub apart : Apart (suc cpu.current.tid) ts
  pub small : cpu.current.tid < max_thread
  pub taken : (cpu.pool.threads cpu.current.tid).occupied ≡ true
  pub runs : (cpu.pool.threads cpu.current.tid).status ≡ running
  pub now : cpu.pool.scheduler.current ≡ suc cpu.current.tid
  pub time : (cpu.pool.scheduler.threads (suc cpu.current.tid)).time ≡ left
  pub some_left : 0 < left

-- With a thread ready, the scheduling thread takes the one at the front: it becomes the current
-- one, as its slot holds it, with all the time that it had left.
pub idle_acquire-cons :
    (cpu : Processor) (t : ℕ) (ts : List ℕ)
    → IsIdle cpu (t ∷ ts)
    → let (got, cpu') = idle_acquire cpu in
      (got ≡ true)
      × (cpu'.current ≡ record { tid = t; thread = (cpu.pool.threads t).thread })
      × IsBusy cpu' (cpu.pool.scheduler.threads (suc t)).time ts
unfolding idle_acquire
idle_acquire-cons cpu t ts i =
    let a = acquire_from_pool-cons cpu.pool t ts i.is_ready in
    let front = i.is_ready.queue.timed.0 in
    rw (a.0, idle_acquire)
      (
        refl,
        refl,
        record {
          is_ready = a.1;
          busy = refl;
          apart = a.2;
          small = front.0;
          taken = a.4;
          runs = a.3;
          now = a.5;
          time = a.6 (suc t);
          some_left = front.1;
        },
      )

-- A tick leaves no thread more time than a slice.
Ticked-Short :
    (s s' : RrScheduler) (t n : ℕ) (ts : List ℕ)
    → Short s
    → Ticked s t n ts s'
    → (s.threads (suc t)).time ≡ suc n
    → Short s'
Ticked-Short s s' t n ts short r left j = elim (Bool-cases (j == t)) [
  | inl here ↦
      let same : j ≡ t = ground arith in rw same (omega (arith, r.left, r.same, left, short t))
  | inr away ↦ ground (arith, r.others (suc j), r.same, short j)
]

-- A tick that is not the last of the slice leaves the current thread running, with one tick
-- less.
tick_cpu-more :
    (context : ℕ) (cpu : Processor) (n : ℕ) (ts : List ℕ)
    → IsBusy cpu (suc (suc n)) ts
    → ((tick_cpu context cpu).0 ≡ false) × IsBusy (tick_cpu context cpu).1 (suc n) ts
unfolding tick_cpu tick_pool
tick_cpu-more context cpu n ts b =
    let s = cpu.pool.scheduler in
    let t = cpu.current.tid in
    let q = b.is_ready.queue in
    let narrow : suc (suc n) < 2 ^ 64 = omega (arith, q.narrow, b.time, b.is_ready.times t) in
    let (over, r) = scheduler_tick_lem s t (suc n) ts q b.apart b.now b.time narrow in
    let more : (suc n == 0) ≡ false = ground arith in
    rw (b.busy, over, more)
      (
        refl,
        record {
          is_ready = record {
            queue = r.queue;
            slots = b.is_ready.slots;
            times = Ticked-Short s (scheduler_tick s).1 t (suc n) ts b.is_ready.times r b.time;
          };
          busy = refl;
          apart = b.apart;
          small = b.small;
          taken = b.taken;
          runs = b.runs;
          now = r.running;
          time = r.left;
          some_left = omega arith;
        },
      )

module _ (k : KernelHeap) (heap : k.State) (context : ℕ) (cpu : Processor) (n : ℕ)
    (ts : List ℕ) where
  -- What the scheduling thread finds once the current one has left: the ready threads, and in the
  -- current one's slot, which it keeps, the context that was saved.
  abbrev pub Back : List ℕ → Processor × k.State → Type 0
  Back us (cpu', heap') =
      IsIdle cpu' us
      × ((cpu'.pool.threads cpu.current.tid).thread
          ≡ record cpu.current.thread { context_addr = context })
      × ((cpu'.pool.threads cpu.current.tid).occupied ≡ true)
      × (heap' ≡ heap)

  -- The last tick of the slice hands the processor back; then the thread is behind the other
  -- ready ones, its slot holds the context that was saved, and the heap is as it was.
  pub tick_cpu-over :
      IsBusy cpu 1 ts
      → let (over, left) = tick_cpu context cpu in
        (over ≡ true) × Returns (Back (ts ++ cpu.current.tid ∷ [])) (idle_retrieve k left heap)
  unfolding tick_cpu tick_pool idle_retrieve
  tick_cpu-over b =
      let s = cpu.pool.scheduler in
      let t = cpu.current.tid in
      let q = b.is_ready.queue in
      let (over, r) = scheduler_tick_lem s t 0 ts q b.apart b.now b.time (omega arith) in
      let pool = record cpu.pool { scheduler = (scheduler_tick s).1 } in
      let is_ready : IsReady pool ts = record {
        queue = r.queue;
        slots = b.is_ready.slots;
        times = Ticked-Short s (scheduler_tick s).1 t 0 ts b.is_ready.times r b.time;
      } in
      let last : (scheduler_tick s).0 ≡ true = over in
      rw (b.busy, last)
        (
          refl,
          Returns-bind
              (retrieve_to_pool-running k pool (leave context cpu).current heap ts is_ready b.apart
                b.small b.taken b.runs)
              λ (pool', heap') (p, saved, held, same).
                returns (record { is_ready = p; free = refl }, saved, held, same),
        )

  -- Once the current thread has given the processor up, the ready threads are those that were,
  -- its slot holds the context that was saved, and the heap is as it was.
  pub yield_cpu_lem :
      IsBusy cpu n ts → Returns (Back ts) (idle_retrieve k (yield_cpu context cpu) heap)
  unfolding yield_cpu idle_retrieve
  yield_cpu_lem b =
      let t = cpu.current.tid in
      let pool = sleep t cpu.pool in
      let is_ready : IsReady pool ts = record {
        queue = b.is_ready.queue;
        slots =
            AllReady-frame cpu.pool.threads pool.threads t ts (λ j ne. ground arith) b.apart
              b.is_ready.slots;
        times = b.is_ready.times;
      } in
      rw b.busy (
        Returns-bind
          (retrieve_to_pool-sleeping k pool (leave context cpu).current heap ts is_ready b.apart
            (ground (arith, b.taken)) (ground arith))
          λ (pool', heap') (p, saved, held, sleeps, same).
            returns (record { is_ready = p; free = refl }, saved, held, same))
