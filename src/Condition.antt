-- ===== src/Condition.antt =====
-- kernel/condition.c: a condition variable is the queue of the threads that wait for it.
pub mod Laws
use jokerix.Base.{ℕ, Bool, true, false, ◌%◌, ◌^◌, ltb, if◌then◌else◌}
use jokerix.Base.Run.{Run, ok, fault, ◌>>=◌}
use jokerix.KernelHeap.{KernelHeap}
use jokerix.Queue.{Queue, is_empty, Store, push_back, pop_front}
use jokerix.Processor.{Processor, yield_cpu, wakeup_cpu}

pub record Condvar : Type 0 where
  pub wait_queue : Queue

-- `(int)item` for a thread's index; a negative index is outside the pool's array.
unfoldable pub to_tid : ℕ → Run ℕ
to_tid item = if ltb (item % 2 ^ 32) (2 ^ 31) then ok (item % 2 ^ 32) else fault

module _ (k : KernelHeap) where
  -- Up to the switch in yieldCPU, which stores `context`.
  unfoldable pub wait_condition :
      ℕ → Condvar → Processor → Store k → Run (Condvar × Processor × Store k)
  wait_condition context self cpu s = do
    (q, s') ← push_back k self.wait_queue cpu.current.tid s
    ok (record { wait_queue = q }, yield_cpu context cpu, s')

  unfoldable pub notify_condition :
      Condvar → Processor → Store k → Run (Condvar × Processor × Store k)
  notify_condition self cpu s =
      let wake = do
        (item, q, s') ← pop_front k self.wait_queue s
        tid ← to_tid item
        woken ← wakeup_cpu tid cpu
        ok (record { wait_queue = q }, woken, s')
      in if is_empty self.wait_queue then ok (self, cpu, s) else wake
