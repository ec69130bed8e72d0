-- ===== src/Scheduler/Ticks.antt =====
-- kernel/rrscheduler.c: schedulerTick and schedulerExit, which concern the running thread.
use jokerix.Base.{
  ℕ, suc, ◌+◌, ◌^◌, ◌<◌, ◌≡◌, refl, ◌≢◌, inl, inr, true, false, List, arith, ◌==◌, Bool-cases,
}
use jokerix.Base.Words.{sub64}
use jokerix.Scheduler.{RrScheduler, set_time, scheduler_tick, scheduler_exit}
use jokerix.Scheduler.Chain.{Apart, Chain-same}
use jokerix.Scheduler.Queue.{IsQueue, Timed-frame}

-- What a tick does to the thread `t` that runs, with `n` units of time left after it.
pub record Ticked (s : RrScheduler) (t n : ℕ) (ts : List ℕ) (s' : RrScheduler) : Type 0 where
  pub queue : IsQueue s' ts
  pub running : s'.current ≡ suc t
  pub left : (s'.threads (suc t)).time ≡ n
  pub same : s'.max_time ≡ s.max_time
  pub others : (j : ℕ) → j ≢ suc t → (s'.threads j).time ≡ (s.threads j).time

tick-run :
    (s : RrScheduler) (t n : ℕ)
    → s.current ≡ suc t
    → (s.threads (suc t)).time ≡ suc n
    → suc n < 2 ^ 64
    → scheduler_tick s ≡ (n == 0, record s { threads = set_time (suc t) n s.threads })
unfolding scheduler_tick
tick-run s t n now left narrow =
    let busy : (s.current == 0) ≡ false = ground arith in
    let less : sub64 (s.threads s.current).time 1 ≡ n = rw (now, left) (omega arith) in
    rw (busy, less) (rw now)

-- While a thread that is not ready runs and has time left, a tick takes one unit of it, asks for
-- a switch exactly when that was the last one, and leaves the queue alone.
pub scheduler_tick_lem :
    (s : RrScheduler) (t n : ℕ) (ts : List ℕ)
    → IsQueue s ts
    → Apart (suc t) ts
    → s.current ≡ suc t
    → (s.threads (suc t)).time ≡ suc n
    → suc n < 2 ^ 64
    → ((scheduler_tick s).0 ≡ (n == 0)) × Ticked s t n ts (scheduler_tick s).1
scheduler_tick_lem s t n ts q out now left narrow =
    let th = set_time (suc t) n s.threads in
    rw (tick-run s t n now left narrow) (
      refl,
      record {
        queue = record {
          chain = Chain-same s.threads th 0 ts (λ j. (ground arith, ground arith)) q.chain;
          distinct = q.distinct;
          timed = Timed-frame s.threads th s.max_time (suc t) ts (λ j ne. ground arith) out q.timed;
          slice = q.slice;
          narrow = q.narrow;
        };
        running = now;
        left = ground arith;
        same = refl;
        others = λ j ne. ground arith;
      },
    )

-- With no thread running a tick asks for a switch, and changes nothing.
scheduler_tick-idle : (s : RrScheduler) → s.current ≡ 0 → scheduler_tick s ≡ (true, s)
unfolding scheduler_tick
scheduler_tick-idle s e = ground arith

-- The end of the running thread leaves nobody running; that of another changes nothing.
scheduler_exit_lem :
    (s : RrScheduler) (t : ℕ) (ts : List ℕ)
    → IsQueue s ts
    → IsQueue (scheduler_exit s t) ts
      × (s.current ≡ suc t → (scheduler_exit s t).current ≡ 0)
      × (s.current ≢ suc t → scheduler_exit s t ≡ s)
unfolding scheduler_exit
scheduler_exit_lem s t ts q = elim (Bool-cases (s.current == t + 1)) [
  | inl last ↦ rw last (
    record {
      chain = q.chain;
      distinct = q.distinct;
      timed = q.timed;
      slice = q.slice;
      narrow = q.narrow;
    },
    λ e. refl,
    λ ne. absurd (ne (ground arith)),
  )
  | inr other ↦ rw other (q, λ e. absurd (ground arith), λ ne. refl)
]
