-- ===== src/Tests/Cpu.antt =====
-- The processor, a queue and a condition variable with the threads of Tests/Threads and a heap that
-- never takes memory back.
use jokerix.Base.{
  ℕ, ◌+◌, ◌≤◌, ◌<◌, ◌≡◌, refl, ap, true, false, Option, none, some, [], ◌∷◌, ◌==◌, if◌then◌else◌,
  arith,
}
use jokerix.Base.Run.{Run, ok, panic, fault, out_of_fuel, Returns, returns, ◌>>=◌}
use jokerix.KernelHeap.{KernelHeap}
use jokerix.Scheduler.Queue.{IsQueue}
use jokerix.Pool.Laws.{IsReady}
use jokerix.Processor.{Processor, exit_from_cpu, tick_cpu, idle_retrieve}
use jokerix.Processor.Laws.{IsBusy, Back, tick_cpu-over}
use jokerix.Processor.Exit.{Gone, exit_from_cpu-some, exit_from_cpu-own}
use jokerix.Queue.{Queue, Store}
use jokerix.Queue.Laws
use jokerix.Queue.Laws.{Cells}
use jokerix.Condition.{Condvar, wait_condition, notify_condition}
use jokerix.Condition.Laws.{wait_condition_lem, notify_condition-cons}
use jokerix.Tests.Threads.{thread, pool, pool-IsReady, two, ring}

pub ok-inj : {p q : ℕ × ℕ} → ok p ≡ ok q → p ≡ q
ok-inj {p} e = ap (λ r. elim r [ ok a ↦ a | panic ↦ p | fault ↦ p | out_of_fuel ↦ p ]) e

-- Each kalloc returns the next 16 bytes.
abbrev pub bump_kalloc : ℕ → ℕ → Run (ℕ × ℕ)
bump_kalloc n top = ok (top + 16, top + 16)

abbrev pub bump : KernelHeap
bump = record {
  State = ℕ;
  kalloc = bump_kalloc;
  kfree = λ p top. ok top;
  Valid = λ top. Unit {0};
  Live = λ top q. (0 < q) × (q ≤ top);
  kalloc_gives = λ n p s s' some_bytes small valid e.
      let at = ap (λ x. x.0) (ok-inj e) in
      let top = ap (λ x. x.1) (ok-inj e) in
      (
        omega (arith, at),
        tt,
        (omega (arith, at), omega (arith, at, top)),
        λ q live. (omega (arith, at), (omega arith, omega (arith, top))),
      );
  kfree_gives = λ p s valid live. returns (tt, λ q ne still. still);
}

-- Thread 0 has the processor, with `left` ticks of its slice, and waits as the argument says.
abbrev pub cpu : Option ℕ → Processor
cpu host = record {
  pool = pool;
  idle = thread 60 none;
  current = record { tid = 0; thread = thread 0 host };
  occupied = true;
}

pub cpu-IsBusy : (host : Option ℕ) → IsBusy (cpu host) 2 two
cpu-IsBusy host = record {
  is_ready = pool-IsReady;
  busy = refl;
  apart = ground arith;
  small = omega arith;
  taken = refl;
  runs = refl;
  now = refl;
  time = refl;
  some_left = omega arith;
}

exit_from_cpu-some_example :
    Returns
      (Gone bump 0 0 0x3000 (cpu (some 3)) 2 two refl (1 ∷ 2 ∷ 3 ∷ []))
      (exit_from_cpu 0x3000 (cpu (some 3)) >>= λ left. idle_retrieve bump left 0)
exit_from_cpu-some_example =
    exit_from_cpu-some bump 0 0 0x3000 (cpu (some 3)) 2 two refl 3 (cpu-IsBusy (some 3)) refl
      (omega arith) (ground arith) (omega arith) refl

exit_from_cpu-own_example :
    Returns
      (λ (cpu', heap').
        IsQueue cpu'.pool.scheduler (1 ∷ 2 ∷ 0 ∷ [])
        × ((cpu'.pool.threads 0).occupied ≡ false)
        × (heap' ≡ 0))
      (exit_from_cpu 0x3000 (cpu (some 0)) >>= λ left. idle_retrieve bump left 0)
exit_from_cpu-own_example =
    exit_from_cpu-own bump 0 0 0x3000 (cpu (some 0)) 2 two refl (cpu-IsBusy (some 0)) refl

-- The same, with the scheduling thread on the processor.
abbrev idle : Processor
idle = record (cpu none) { occupied = false }

-- The same, with one tick left.
abbrev pub hasty : Processor
hasty = record (cpu none) {
  pool = record pool {
    scheduler = record {
      threads = λ i. if i == 1 then record (ring 1) { time = 1 } else ring i;
      max_time = 2;
      current = 1;
    };
  };
}

pub hasty-IsBusy : IsBusy hasty 1 two
hasty-IsBusy = record {
  is_ready = record { queue = ground arith; slots = ground arith; times = λ t. ground arith };
  busy = refl;
  apart = ground arith;
  small = omega arith;
  taken = refl;
  runs = refl;
  now = refl;
  time = refl;
  some_left = omega arith;
}

tick_cpu-over_example :
    let (over, left) = tick_cpu 0x3000 hasty in
    (over ≡ true)
    × Returns (Back bump 0 0x3000 hasty 1 two (1 ∷ 2 ∷ 0 ∷ [])) (idle_retrieve bump left 0)
tick_cpu-over_example = tick_cpu-over bump 0 0x3000 hasty 1 two hasty-IsBusy

-- A queue of one node, at 16, with the item 3.
abbrev pub waiting : Queue
waiting = record { head = 16; tail = 16 }

abbrev pub store : Store bump
store = record { heap = 16; nodes = λ p. record { item = 3; next = 0 } }

abbrev pub one_cell : Cells
one_cell = (16, 3) ∷ []

pub waiting-IsQueue : Laws.IsQueue bump store waiting one_cell
waiting-IsQueue = record {
  valid = tt;
  holds = (refl, (omega arith, refl, refl), ((omega arith, omega arith), tt));
}

abbrev condvar : Condvar
condvar = record { wait_queue = waiting }

wait_condition_lem_example :
    Returns
      (λ (self', cpu', s').
        Laws.IsQueue bump s' self'.wait_queue ((16, 3) ∷ (32, 0) ∷ [])
        × Returns (Back bump s'.heap 0x3000 (cpu none) 2 two two) (idle_retrieve bump cpu' s'.heap))
      (wait_condition bump 0x3000 condvar (cpu none) store)
wait_condition_lem_example =
    wait_condition_lem bump condvar (cpu none) store one_cell two 0x3000 2 32 32 waiting-IsQueue
      refl (cpu-IsBusy none)

notify_condition-cons_example :
    Returns
      (λ (self', cpu', s').
        Laws.IsQueue bump s' self'.wait_queue [] × IsReady cpu'.pool (1 ∷ 2 ∷ 3 ∷ []))
      (notify_condition bump condvar (cpu none) store)
notify_condition-cons_example =
    notify_condition-cons bump condvar (cpu none) store [] two 16 3 waiting-IsQueue pool-IsReady
      (ground arith) (omega arith) refl
