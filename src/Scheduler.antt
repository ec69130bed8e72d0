-- ===== src/Scheduler.antt =====
-- kernel/rrscheduler.c: the round-robin scheduler, a doubly linked ring inside an array.
-- A `tid` is what allocTid hands out, and so is never negative.
pub mod Chain
pub mod Queue
pub mod Rounds
pub mod Ticks
use jokerix.Base.{
  ℕ, ◌+◌, ◌-◌, Bool, true, false, Option, none, some, ltb, ◌==◌, if◌then◌else◌, update,
}
use jokerix.Base.Run.{Run, ok, panic}
use jokerix.Base.Words.{sub64}

abbrev pub max_thread : ℕ
max_thread = 0x40

pub record RrInfo : Type 0 where
  pub valid : ℕ
  pub time : ℕ
  pub prev : ℕ
  pub next : ℕ

-- `rrScheduler`: entry `tid + 1` is the thread's, entry 0 the ring's dummy head.
pub record RrScheduler : Type 0 where
  pub threads : ℕ → RrInfo
  pub max_time : ℕ
  pub current : ℕ

-- `threads[i].valid = v`, and so on.
abbrev pub set_valid : ℕ → ℕ → (ℕ → RrInfo) → ℕ → RrInfo
set_valid i v th = update th i (record (th i) { valid = v })

abbrev pub set_time : ℕ → ℕ → (ℕ → RrInfo) → ℕ → RrInfo
set_time i v th = update th i (record (th i) { time = v })

abbrev pub set_prev : ℕ → ℕ → (ℕ → RrInfo) → ℕ → RrInfo
set_prev i v th = update th i (record (th i) { prev = v })

abbrev pub set_next : ℕ → ℕ → (ℕ → RrInfo) → ℕ → RrInfo
set_next i v th = update th i (record (th i) { next = v })

unfoldable pub scheduler_init : RrScheduler → RrScheduler
scheduler_init s = record {
  threads = update s.threads 0 (record { valid = 0; time = 0; prev = 0; next = 0 });
  max_time = 1;
  current = 0;
}

-- The writes of schedulerPush, in its order; `tid` is the entry's index here.
unfoldable pub link_back : ℕ → ℕ → (ℕ → RrInfo) → ℕ → RrInfo
link_back tid max_time th =
    let timed = if (th tid).time == 0 then set_time tid max_time th else th in
    let prev = (timed 0).prev in
    let th1 = set_valid tid 1 timed in
    let th2 = set_next prev tid th1 in
    let th3 = set_prev tid prev th2 in let th4 = set_prev 0 tid th3 in set_next tid 0 th4

unfoldable pub scheduler_push : RrScheduler → ℕ → Run RrScheduler
scheduler_push s tid =
    let slot = tid + 1 in
    if ltb (max_thread + 1) (slot + 1)
    then panic
    else ok (record s { threads = link_back slot s.max_time s.threads })

-- The writes of schedulerPop to the entry `ret` at the head of the ring and to its neighbours.
unfoldable pub unlink : ℕ → (ℕ → RrInfo) → ℕ → RrInfo
unlink ret th =
    let next = (th ret).next in
    let prev = (th ret).prev in
    let th1 = set_prev next prev th in
    let th2 = set_next prev next th1 in
    let th3 = set_prev ret 0 th2 in let th4 = set_next ret 0 th3 in set_valid ret 0 th4

-- `none` is the source's -1.
unfoldable pub scheduler_pop : RrScheduler → Option ℕ × RrScheduler
scheduler_pop s =
    let ret = (s.threads 0).next in
    if ret == 0
    then (none, s)
    else (some (ret - 1), record s { threads = unlink ret s.threads; current = ret })

-- `true` where the running thread is to be switched out.
unfoldable pub scheduler_tick : RrScheduler → Bool × RrScheduler
scheduler_tick s =
    let tid = s.current in
    let left = sub64 (s.threads tid).time 1 in
    if tid == 0 then (true, s) else (left == 0, record s { threads = set_time tid left s.threads })

unfoldable pub scheduler_exit : RrScheduler → ℕ → RrScheduler
scheduler_exit s tid = if s.current == tid + 1 then record s { current = 0 } else s
