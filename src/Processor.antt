-- ===== src/Processor.antt =====
-- kernel/processor.c: the one CPU, which runs the threads of its pool by turns. A thread and the
-- scheduling thread hand the processor to each other in switchThread, which saves the context of
-- the thread that leaves; its address is what the definitions take as `context`.
pub mod Laws
pub mod Exit
use jokerix.Base.{ℕ, Bool, true, false, Option, none, some, ◌==◌, if◌then◌else◌}
use jokerix.Base.Run.{Run, ok, ◌>>=◌}
use jokerix.KernelHeap.{KernelHeap}
use jokerix.Scheduler.{scheduler_push}
use jokerix.Pool.{
  Thread, ready, sleeping, ThreadInfo, ThreadPool, RunningThread, set_info, add_to_pool,
  acquire_from_pool, tick_pool, exit_from_pool, retrieve_to_pool,
}

pub record Processor : Type 0 where
  pub pool : ThreadPool
  pub idle : Thread
  pub current : RunningThread
  pub occupied : Bool

unfoldable pub init_cpu : Thread → ThreadPool → Processor → Processor
init_cpu idle pool cpu = record cpu { idle = idle; pool = pool; occupied = false }

unfoldable pub add_to_cpu : Thread → Processor → Run Processor
add_to_cpu thread cpu = do pool ← add_to_pool cpu.pool thread; ok (record cpu { pool = pool })

-- `CPU.pool.threads[tid].status = …`
abbrev pub wake : ℕ → ThreadPool → ThreadPool
wake tid pool = set_info pool tid (record (pool.threads tid) { status = ready })

abbrev pub sleep : ℕ → ThreadPool → ThreadPool
sleep tid pool = set_info pool tid (record (pool.threads tid) { status = sleeping })

unfoldable pub wakeup_cpu : ℕ → Processor → Run Processor
wakeup_cpu tid cpu = do
  scheduler ← scheduler_push cpu.pool.scheduler tid
  ok (record cpu { pool = record (wake tid cpu.pool) { scheduler = scheduler } })

-- switchThread(&CPU.current.thread, &CPU.idle)
abbrev pub leave : ℕ → Processor → Processor
leave context cpu = record cpu {
  current = record cpu.current { thread = record cpu.current.thread { context_addr = context } };
}

-- exitFromCPU's test of `wait` against -1.
unfoldable pub wake_host : Option ℕ → Processor → Run Processor
wake_host none cpu = ok cpu
wake_host (some host) cpu = wakeup_cpu host cpu

unfoldable pub exit_from_cpu : ℕ → Processor → Run Processor
exit_from_cpu context cpu = do
  woken ←
      wake_host cpu.current.thread.wait
        (record cpu { pool = exit_from_pool cpu.pool cpu.current.tid })
  ok (leave context woken)

unfoldable pub yield_cpu : ℕ → Processor → Processor
yield_cpu context cpu =
    if cpu.occupied
    then leave context (record cpu { pool = sleep cpu.current.tid cpu.pool })
    else cpu

-- `true` where the scheduling thread is switched to.
unfoldable pub tick_cpu : ℕ → Processor → Bool × Processor
tick_cpu context cpu =
    let (over, pool) = tick_pool cpu.pool in
    let ticked = record cpu { pool = pool } in
    if cpu.occupied
    then (if over then (true, leave context ticked) else (false, ticked))
    else (false, cpu)

-- idleMain's loop up to its switch to a thread; `false` where it waits for an interrupt instead.
unfoldable pub idle_acquire : Processor → Bool × Processor
idle_acquire cpu =
    let (next, pool) = acquire_from_pool cpu.pool in
    elim next [
      | none ↦ (false, record cpu { pool = pool })
      | some rt ↦ (true, record cpu { pool = pool; current = rt; occupied = true })
    ]

module _ (k : KernelHeap) where
  -- idleMain's loop from the switch back to it on.
  unfoldable pub idle_retrieve : Processor → k.State → Run (Processor × k.State)
  idle_retrieve cpu heap = do
    (pool, heap') ← retrieve_to_pool k cpu.pool cpu.current heap
    ok (record cpu { pool = pool; occupied = false }, heap')
