-- ===== src/Stdin.antt =====
-- kernel/stdin.c: the buffer of what is typed, and external of kernel/interrupt.c, which fills it.
pub mod Laws
pub mod Wake
use jokerix.Base.{ℕ, ◌-◌, ◌%◌, ◌^◌, ◌==◌, if◌then◌else◌}
use jokerix.Base.Run.{Run, ok, ◌>>=◌}
use jokerix.KernelHeap.{KernelHeap}
use jokerix.Queue.{Queue, is_empty, Store, push_back, pop_front}
use jokerix.Condition.{Condvar, wait_condition, notify_condition}
use jokerix.Processor.{Processor}

-- `STDIN`
pub record Stdin : Type 0 where
  pub buf : Queue
  pub pushed : Condvar

-- One round of popChar's loop: it returns a char, or waits and starts again when it is woken.
pub data Round : Type 0 where
  got : ℕ → Round
  waits : Round

module _ (k : KernelHeap) where
  unfoldable pub push_char : ℕ → Stdin → Processor → Store k → Run (Stdin × Processor × Store k)
  push_char ch self cpu s = do
    (buf, s') ← push_back k self.buf ch s
    (pushed, cpu', s'') ← notify_condition k self.pushed cpu s'
    ok (record { buf = buf; pushed = pushed }, cpu', s'')

  -- `context` is what the switch of waitCondition stores.
  unfoldable pub pop_char :
      ℕ → Stdin → Processor → Store k → Run (Round × Stdin × Processor × Store k)
  pop_char context self cpu s =
      let take = do
        (item, buf, s') ← pop_front k self.buf s
        ok (got (item % 2 ^ 8), record self { buf = buf }, cpu, s')
      in let sleep = do
        (pushed, cpu', s'') ← wait_condition k context self.pushed cpu s
        ok (waits, record self { pushed = pushed }, cpu', s'')
        in if is_empty self.buf then sleep else take

  -- `ret` is what consoleGetchar returned, -1 for nothing.
  unfoldable pub external : ℕ → Stdin → Processor → Store k → Run (Stdin × Processor × Store k)
  external ret self cpu s =
      let ch = ret % 2 ^ 8 in
      let put = push_char (if ch == b'\r' then b'\n' else ch) self cpu s in
      if ret == 2 ^ 64 - 1 then ok (self, cpu, s) else put
