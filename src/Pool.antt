-- ===== src/Pool.antt =====
-- kernel/thread.h and the thread pool of kernel/thread.c. The pool's function pointers are those of
-- kernel/rrscheduler.c, as initThread sets them, and the scheduler's state is part of the pool's.
pub mod Laws
pub mod Retrieve
use jokerix.Base.{
  ℕ, zero, suc, ◌+◌, Bool, true, false, Option, none, some, ◌==◌, if◌then◌else◌, update,
}
use jokerix.Base.Run.{Run, ok, panic, ◌>>=◌}
use jokerix.KernelHeap.{KernelHeap}
use jokerix.Scheduler.{
  RrScheduler, max_thread, scheduler_push, scheduler_pop, scheduler_tick, scheduler_exit,
}

-- `wait` is the thread to wake at the end of this one, `none` for -1.
pub record Thread : Type 0 where
  pub context_addr : ℕ
  pub kstack : ℕ
  pub satp : ℕ
  pub wait : Option ℕ

pub data Status : Type 0 where
  ready running sleeping exited : Status

pub record ThreadInfo : Type 0 where
  pub status : Status
  pub tid : ℕ
  pub occupied : Bool
  pub thread : Thread

pub record ThreadPool : Type 0 where
  pub threads : ℕ → ThreadInfo
  pub scheduler : RrScheduler

pub record RunningThread : Type 0 where
  pub tid : ℕ
  pub thread : Thread

-- `pool->threads[tid] = …`
abbrev pub set_info : ThreadPool → ℕ → ThreadInfo → ThreadPool
set_info pool tid info = record pool { threads = update pool.threads tid info }

-- allocTid: the first free slot from `i` on, with `n` left to look at.
unfoldable pub alloc_tid_from : ℕ → ℕ → ThreadPool → Run ℕ
alloc_tid_from zero i pool = panic
alloc_tid_from (suc n) i pool =
    let rest = alloc_tid_from n (i + 1) pool in if (pool.threads i).occupied then rest else ok i

unfoldable pub alloc_tid : ThreadPool → Run ℕ
alloc_tid pool = alloc_tid_from max_thread 0 pool

unfoldable pub add_to_pool : ThreadPool → Thread → Run ThreadPool
add_to_pool pool thread = do
  tid ← alloc_tid pool
  let info = record (pool.threads tid) { status = ready; occupied = true; thread = thread }
  scheduler ← scheduler_push pool.scheduler tid
  ok (record (set_info pool tid info) { scheduler = scheduler })

-- `none` for the tid -1.
unfoldable pub acquire_from_pool : ThreadPool → Option RunningThread × ThreadPool
acquire_from_pool pool =
    let (next, scheduler) = scheduler_pop pool.scheduler in
    let popped = record pool { scheduler = scheduler } in
    elim next [
      | none ↦ (none, popped)
      | some tid ↦ (
        some (record { tid = tid; thread = (pool.threads tid).thread }),
        set_info popped tid (record (pool.threads tid) { status = running; tid = tid }),
      )
    ]

abbrev pub is_running : Status → Bool
is_running running = true
is_running _ = false

unfoldable pub tick_pool : ThreadPool → Bool × ThreadPool
tick_pool pool =
    let (over, scheduler) = scheduler_tick pool.scheduler in
    (over, record pool { scheduler = scheduler })

unfoldable pub exit_from_pool : ThreadPool → ℕ → ThreadPool
exit_from_pool pool tid =
    let freed = set_info pool tid (record (pool.threads tid) { occupied = false }) in
    record freed { scheduler = scheduler_exit pool.scheduler tid }

module _ (k : KernelHeap) where
  -- The stack of a thread that has ended is given back to the kernel's heap.
  unfoldable pub retrieve_to_pool :
      ThreadPool → RunningThread → k.State → Run (ThreadPool × k.State)
  retrieve_to_pool pool rt heap =
      let old = pool.threads rt.tid in
      let saved = record old { thread = rt.thread } in
      let again : Run (ThreadPool × k.State) = do
        scheduler ← scheduler_push pool.scheduler rt.tid
        let info = record saved { status = ready }
        ok (record (set_info pool rt.tid info) { scheduler = scheduler }, heap)
      in let free : Run (ThreadPool × k.State) = do
        heap' ← k.kfree old.thread.kstack heap
        ok (pool, heap')
        in if old.occupied
          then (if is_running old.status then again else ok (set_info pool rt.tid saved, heap))
          else free
