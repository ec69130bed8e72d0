-- ===== src/Tests/Threads.antt =====
-- The scheduler, the pool and the processor with three threads: 0 runs, 1 and 2 are ready.
use jokerix.Base.{
  ℕ, ◌+◌, ◌≡◌, refl, Option, none, some, List, [], ◌∷◌, map, ltb, ◌==◌, if◌then◌else◌, arith,
}
use jokerix.Base.Run.{Run, ok, Returns, ◌>>=◌}
use jokerix.Scheduler.{
  RrInfo, RrScheduler, scheduler_init, link_back, unlink, scheduler_push, scheduler_pop,
}
use jokerix.Scheduler.Queue.{IsQueue}
use jokerix.Scheduler.Rounds.{turns, round_robin}
use jokerix.Pool.{Thread, Status, ready, running, ThreadInfo, ThreadPool, add_to_pool}
use jokerix.Pool.Laws.{IsReady, Added, add_to_pool_lem}

-- The ring through the entries 2 and 3.
abbrev pub ring : ℕ → RrInfo
ring i =
    if i == 0
    then record { valid = 0; time = 0; prev = 3; next = 2 }
    else if i == 1
    then record { valid = 0; time = 2; prev = 0; next = 0 }
    else if i == 2
    then record { valid = 1; time = 2; prev = 0; next = 3 }
    else if i == 3
    then record { valid = 1; time = 1; prev = 2; next = 0 }
    else record { valid = 0; time = 0; prev = 0; next = 0 }

abbrev rr : RrScheduler
rr = record { threads = ring; max_time = 2; current = 1 }

abbrev pub two : List ℕ
two = 1 ∷ 2 ∷ []

rr-IsQueue : IsQueue rr two
rr-IsQueue = ground arith

-- Pushed threads come out in their order.
abbrev order : Run (List (Option ℕ))
order = do
  s ← scheduler_push (scheduler_init rr) 7
  s' ← scheduler_push s 3
  let (a, s'') = scheduler_pop s'
  let (b, s''') = scheduler_pop s''
  let (c, _) = scheduler_pop s'''
  ok (a ∷ b ∷ c ∷ [])

order_result : order ≡ ok (some 7 ∷ some 3 ∷ none ∷ [])
unfolding scheduler_init scheduler_push scheduler_pop link_back unlink
order_result = refl

round_robin_example :
    Returns (λ (ran, end). (ran ≡ map some two) × IsQueue end (two)) (turns 2 2 rr)
round_robin_example = round_robin two [] 2 rr (omega arith) rr-IsQueue

-- Thread 0 waits for nobody, or is waited for as the argument says.
abbrev pub thread : ℕ → Option ℕ → Thread
thread t host = record {
  context_addr = 0x1000 + t;
  kstack = 0x2000 + t;
  satp = 0x8000;
  wait = host;
}

abbrev pub slots : ℕ → ThreadInfo
slots t = record {
  status = if t == 0 then running else if ltb t 3 then ready else Status.sleeping;
  tid = t;
  occupied = ltb t 4;
  thread = thread t none;
}

abbrev pub pool : ThreadPool
pool = record { threads = slots; scheduler = rr }

pub pool-IsReady : IsReady pool two
pool-IsReady = record { queue = rr-IsQueue; slots = ground arith; times = λ t. ground arith }

add_to_pool_lem_example :
    Returns (Added pool (thread 9 none) two) (add_to_pool pool (thread 9 none))
add_to_pool_lem_example =
    add_to_pool_lem pool (thread 9 none) two 4 pool-IsReady (omega arith) (ground arith)
