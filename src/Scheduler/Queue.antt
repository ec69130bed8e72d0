-- ===== src/Scheduler/Queue.antt =====
-- kernel/rrscheduler.c as a queue of threads: each operation of the scheduler on its abstract view.
use jokerix.Base.{
  ℕ, suc, ◌+◌, ◌-◌, ◌^◌, ◌≤◌, ◌<◌, ◌≡◌, refl, ◌≢◌, true, false, none, some, List, [], ◌∷◌, ◌++◌,
  arith, ltb, ◌==◌, if◌then◌else◌,
}
use jokerix.Base.Run.{panic, Returns, returns}
use jokerix.Scheduler.{
  RrInfo, RrScheduler, max_thread, scheduler_init, link_back, scheduler_push, unlink, scheduler_pop,
}
use jokerix.Scheduler.Chain.{
  Chain, Apart, Distinct, zero-Apart, unlink-Chain, link_back-Chain, link_back-time, unlink-time,
}

-- Every thread of the list has its slot in the array, and time left to run, of at most `m` ticks.
abbrev pub Timed : (ℕ → RrInfo) → ℕ → List ℕ → Type 0
Timed th m [] = Unit {0}
Timed th m (t ∷ ts) =
    ((t < max_thread) × (0 < (th (suc t)).time) × ((th (suc t)).time ≤ m)) × Timed th m ts

-- The scheduler holds the ready threads `ts`, the next one first.
pub record IsQueue (s : RrScheduler) (ts : List ℕ) : Type 0 where
  pub chain : Chain s.threads 0 ts
  pub distinct : Distinct ts
  pub timed : Timed s.threads s.max_time ts
  pub slice : 0 < s.max_time
  pub narrow : s.max_time < 2 ^ 64

pub Timed-frame :
    (th th' : ℕ → RrInfo) (m x : ℕ) (ts : List ℕ)
    → ((j : ℕ) → j ≢ x → (th' j).time ≡ (th j).time)
    → Apart x ts
    → Timed th m ts
    → Timed th' m ts
Timed-frame th th' m x [] same out h = tt
Timed-frame th th' m x (t ∷ ts) same out h =
    (ground (arith, same (suc t)), Timed-frame th th' m x ts same out.1 h.1)

Timed-append :
    (th : ℕ → RrInfo) (m t : ℕ) (ts : List ℕ)
    → Timed th m ts
    → (t < max_thread) × (0 < (th (suc t)).time) × ((th (suc t)).time ≤ m)
    → Timed th m (ts ++ t ∷ [])
Timed-append th m t [] h p = (p, tt)
Timed-append th m t (u ∷ ts) h p = (h.0, Timed-append th m t ts h.1 p)

Apart-append : (a t : ℕ) (ts : List ℕ) → Apart a ts → a ≢ suc t → Apart a (ts ++ t ∷ [])
Apart-append a t [] h ne = (ne, tt)
Apart-append a t (u ∷ ts) h ne = (h.0, Apart-append a t ts h.1 ne)

Distinct-append : (t : ℕ) (ts : List ℕ) → Distinct ts → Apart (suc t) ts → Distinct (ts ++ t ∷ [])
Distinct-append t [] d out = (tt, tt)
Distinct-append t (u ∷ ts) d out =
    (Apart-append (suc u) t ts d.0 (ground arith), Distinct-append t ts d.1 out.1)

-- After `scheduler_init` no thread is ready, whatever the entries held before.
scheduler_init-IsQueue : (s : RrScheduler) → IsQueue (scheduler_init s) []
unfolding scheduler_init
scheduler_init-IsQueue s = ground arith

-- What the scheduler is after `t` was put behind the threads `ts`: the running thread stays, and `t`
-- has the time that it had left, or a whole slice if it had none.
pub record Pushed (s : RrScheduler) (t : ℕ) (ts : List ℕ) (s' : RrScheduler) : Type 0 where
  pub queue : IsQueue s' (ts ++ t ∷ [])
  pub running : s'.current ≡ s.current
  pub same : s'.max_time ≡ s.max_time
  pub time :
      (s'.threads (suc t)).time
      ≡ (if (s.threads (suc t)).time == 0 then s.max_time else (s.threads (suc t)).time)
  pub others : (j : ℕ) → j ≢ suc t → (s'.threads j).time ≡ (s.threads j).time

-- A thread that has a slot, is not ready and has no more time than a slice goes to the back of
-- the queue, with the time that it has left, or a whole slice if it has none; the running thread
-- stays.
pub scheduler_push-append :
    (s : RrScheduler) (ts : List ℕ) (t : ℕ)
    → IsQueue s ts
    → Apart (suc t) ts
    → t < max_thread
    → (s.threads (suc t)).time ≤ s.max_time
    → Returns (Pushed s t ts) (scheduler_push s t)
unfolding scheduler_push
scheduler_push-append s ts t q out small short =
    let fits : ltb (max_thread + 1) (t + 1 + 1) ≡ false = ground arith in
    let slot : t + 1 ≡ suc t = omega arith in
    let th = link_back (suc t) s.max_time s.threads in
    let times = link_back-time s.threads s.max_time t in
    rw (fits, slot)
      (returns (record {
        queue = record {
          chain = link_back-Chain s.threads s.max_time t ts out q.distinct q.chain;
          distinct = Distinct-append t ts q.distinct out;
          timed =
              Timed-append th s.max_time t ts
                (Timed-frame s.threads th s.max_time (suc t) ts (λ j ne. ground (arith, times j))
                  out q.timed)
                (ground (arith, times (suc t), q.slice));
          slice = q.slice;
          narrow = q.narrow;
        };
        running = refl;
        same = refl;
        time = ground (arith, times (suc t));
        others = λ j ne. ground (arith, times j);
      }))

-- A thread without a slot is refused.
scheduler_push-overflow : (s : RrScheduler) (t : ℕ) → max_thread ≤ t → scheduler_push s t ≡ panic
unfolding scheduler_push
scheduler_push-overflow s t h =
    let beyond : ltb (max_thread + 1) (t + 1 + 1) ≡ true = ground arith in rw beyond

-- What the scheduler is after `t` was taken from the front of the queue.
pub record Popped (s : RrScheduler) (t : ℕ) (ts : List ℕ) (s' : RrScheduler) : Type 0 where
  pub queue : IsQueue s' ts
  pub running : s'.current ≡ suc t
  pub kept : (j : ℕ) → (s'.threads j).time ≡ (s.threads j).time
  pub same : s'.max_time ≡ s.max_time

-- The thread at the front of the queue leaves it and is the running one; the times stay.
pub scheduler_pop-cons :
    (s : RrScheduler) (t : ℕ) (ts : List ℕ)
    → IsQueue s (t ∷ ts)
    → ((scheduler_pop s).0 ≡ some t) × Popped s t ts (scheduler_pop s).1
unfolding scheduler_pop
scheduler_pop-cons s t ts q =
    let th = unlink (suc t) s.threads in
    let times = unlink-time s.threads t in
    let number : suc t - 1 ≡ t = omega arith in
    let more : (suc t == 0) ≡ false = ground arith in
    rw (q.chain.0, more, number)
      (
        refl,
        record {
          queue = record {
            chain = unlink-Chain s.threads t ts q.distinct q.chain;
            distinct = q.distinct.1;
            timed =
                Timed-frame s.threads th s.max_time 0 ts (λ j ne. times j) (zero-Apart ts)
                  q.timed.1;
            slice = q.slice;
            narrow = q.narrow;
          };
          running = refl;
          kept = times;
          same = refl;
        },
      )

-- With no thread ready the source returns -1 and changes nothing.
pub scheduler_pop-nil : (s : RrScheduler) → IsQueue s [] → scheduler_pop s ≡ (none, s)
unfolding scheduler_pop
scheduler_pop-nil s q = rw (q.chain.0)
