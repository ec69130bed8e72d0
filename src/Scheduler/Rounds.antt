-- ===== src/Scheduler/Rounds.antt =====
-- The turns of round robin: idleMain of kernel/processor.c takes the thread at the front, timer
-- ticks run its slice down, and retrieveToPool pushes it again, while no thread blocks or ends.
use jokerix.Base.{
  ℕ, zero, suc, ◌-◌, ◌^◌, ◌≤◌, ◌<◌, ◌≡◌, refl, ap, ◌∙◌, false, Option, none, some, List, [], ◌∷◌,
  ◌++◌, map, arith, ◌==◌, if◌then◌else◌,
}
use mathlib.Core.List.{append-nil, append_assoc}
use jokerix.Base.Lists.{length}
use jokerix.Base.Run.{Run, ok, out_of_fuel, ◌>>=◌, Returns, returns, Returns-bind}
use jokerix.Scheduler.{RrScheduler, scheduler_push, scheduler_pop, scheduler_tick}
use jokerix.Scheduler.Chain.{Apart}
use jokerix.Scheduler.Queue.{IsQueue, scheduler_pop-cons, scheduler_push-append}
use jokerix.Scheduler.Ticks.{Ticked, scheduler_tick_lem}

-- The running thread ticks until it is switched out; the number of ticks comes with the result.
unfoldable pub slice : ℕ → RrScheduler → Run (ℕ × RrScheduler)
slice zero s = out_of_fuel
slice (suc fuel) s =
    let (over, next) = scheduler_tick s in
    let rest = slice fuel next >>= λ (n, end). ok (suc n, end) in
    if over then ok (1, next) else rest

-- One turn: the thread that ran, if one was ready.
unfoldable pub turn : ℕ → RrScheduler → Run (Option ℕ × RrScheduler)
unfolding slice
turn fuel s =
    let (ready, running) = scheduler_pop s in
    elim ready [
      | none ↦ ok (none, running)
      | some t ↦ do
        (_, expired) ← slice fuel running
        next ← scheduler_push expired t
        ok (some t, next)
    ]

-- So many turns, and the threads that ran in them.
unfoldable pub turns : ℕ → ℕ → RrScheduler → Run (List (Option ℕ) × RrScheduler)
unfolding turn
turns zero fuel s = ok ([], s)
turns (suc k) fuel s = do
  (ran, next) ← turn fuel s
  (rest, end) ← turns k fuel next
  ok (ran ∷ rest, end)

-- With enough fuel, a running thread with `n + 1` units left is switched out after exactly as
-- many ticks, with no time left and the queue as it was.
slice_lem :
    (fuel n : ℕ) (s : RrScheduler) (t : ℕ) (ts : List ℕ)
    → n < fuel
    → IsQueue s ts
    → Apart (suc t) ts
    → s.current ≡ suc t
    → (s.threads (suc t)).time ≡ suc n
    → suc n < 2 ^ 64
    → Returns (λ (k, end). (k ≡ suc n) × Ticked s t 0 ts end) (slice fuel s)
unfolding slice
slice_lem zero n s t ts f q out now left narrow = elim f [ ]
slice_lem (suc fuel) zero s t ts f q out now left narrow =
    let (over, r) = scheduler_tick_lem s t 0 ts q out now left narrow in rw over (returns (refl, r))
slice_lem (suc fuel) (suc n) s t ts f q out now left narrow =
    let (over, r) = scheduler_tick_lem s t (suc n) ts q out now left narrow in
    let more : (suc n == 0) ≡ false = ground arith in
    rw (over, more)
      (Returns-bind
        (slice_lem fuel n (scheduler_tick s).1 t ts (omega arith) r.queue out r.running r.left
          (omega arith))
        λ (k, end) (ticks, e). returns (
          ap suc ticks,
          record {
            queue = e.queue;
            running = e.running;
            left = e.left;
            same = e.same ∙ r.same;
            others = λ j ne. e.others j ne ∙ r.others j ne;
          },
        ))

-- The thread at the front runs its slice and goes to the back.
turn_lem :
    (fuel : ℕ) (s : RrScheduler) (t : ℕ) (ts : List ℕ)
    → s.max_time ≤ fuel
    → IsQueue s (t ∷ ts)
    → Returns
        (λ (ran, end). (ran ≡ some t) × IsQueue end (ts ++ t ∷ []) × (end.max_time ≡ s.max_time))
        (turn fuel s)
unfolding turn
turn_lem fuel s t ts f q =
    let (ready, r) = scheduler_pop-cons s t ts q in
    let n = (s.threads (suc t)).time - 1 in
    let left : ((scheduler_pop s).1.threads (suc t)).time ≡ suc n =
      omega (arith, r.kept (suc t), q.timed.0) in
    rw (ready, turn)
      (Returns-bind
        (slice_lem fuel n (scheduler_pop s).1 t ts (omega (arith, q.timed.0)) r.queue q.distinct.0
          r.running left (omega (arith, q.timed.0, q.narrow)))
        λ (k, end) (ticks, e).
          Returns-bind
            (scheduler_push-append end ts t e.queue q.distinct.0 q.timed.0.0
              (omega (arith, e.left)))
            λ next p. returns (refl, p.queue, p.same ∙ e.same ∙ r.same))

-- While no thread blocks or ends, and with fuel for a slice, as many turns as there are threads
-- in front run exactly these, in their order, and put them behind the others.
pub round_robin :
    (xs ys : List ℕ) (fuel : ℕ) (s : RrScheduler)
    → s.max_time ≤ fuel
    → IsQueue s (xs ++ ys)
    → Returns
        (λ (ran, end). (ran ≡ map some xs) × IsQueue end (ys ++ xs))
        (turns (length xs) fuel s)
unfolding turns
round_robin [] ys fuel s f q = returns (refl, rw append-nil q)
round_robin (x ∷ xs) ys fuel s f q =
    Returns-bind (turn_lem fuel s x (xs ++ ys) f q) λ (ran, next) (first, p, same).
      let front : IsQueue next (xs ++ (ys ++ x ∷ [])) = rw append_assoc at p in
      Returns-bind (round_robin xs (ys ++ x ∷ []) fuel next (omega (arith, same)) front)
        λ (rest, end) (others, e). returns (rw (first, others), rw append_assoc at e)
