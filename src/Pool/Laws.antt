-- ===== src/Pool/Laws.antt =====
-- The thread pool of kernel/thread.c: which threads are ready, and that their slots say so.
use jokerix.Base.{
  ℕ, zero, suc, ◌+◌, ◌≤◌, ◌<◌, ◌≡◌, refl, sym, ap, ◌∙◌, ◌≢◌, inl, inr, true, false, none, some,
  List, [], ◌∷◌, ◌++◌, arith, ◌==◌, Bool-cases, update,
}
use mathlib.Core.Bool.{false≢true}
use jokerix.Base.Run.{panic, Returns, returns, Returns-bind, Returns-map}
use jokerix.Scheduler.{RrScheduler, max_thread}
use jokerix.Scheduler.Chain.{Apart}
use jokerix.Scheduler.Queue.{
  IsQueue, Pushed, scheduler_pop-cons, scheduler_pop-nil, scheduler_push-append,
}
use jokerix.Pool.{
  Thread, ready, running, ThreadInfo, ThreadPool, alloc_tid_from, alloc_tid, add_to_pool,
  acquire_from_pool,
}

-- Each thread of the list has a taken slot that says it is ready.
abbrev pub AllReady : (ℕ → ThreadInfo) → List ℕ → Type 0
AllReady threads [] = Unit {0}
AllReady threads (t ∷ ts) =
    (((threads t).occupied ≡ true) × ((threads t).status ≡ ready)) × AllReady threads ts

-- The pool's ready threads are `ts`, in the order in which they will run, and no thread has more
-- time left than a slice.
pub record IsReady (pool : ThreadPool) (ts : List ℕ) : Type 0 where
  pub queue : IsQueue pool.scheduler ts
  pub slots : AllReady pool.threads ts
  pub times : (t : ℕ) → (pool.scheduler.threads (suc t)).time ≤ pool.scheduler.max_time

pub AllReady-frame :
    (f g : ℕ → ThreadInfo) (x : ℕ) (ts : List ℕ)
    → ((j : ℕ) → j ≢ x → g j ≡ f j)
    → Apart (suc x) ts
    → AllReady f ts
    → AllReady g ts
AllReady-frame f g x [] same out h = tt
AllReady-frame f g x (t ∷ ts) same out h =
    let kept : g t ≡ f t = same t (λ e. out.0 (ap suc (sym e))) in
    (rw kept h.0, AllReady-frame f g x ts same out.1 h.1)

pub AllReady-append :
    (f : ℕ → ThreadInfo) (t : ℕ) (ts : List ℕ)
    → AllReady f ts
    → (f t).occupied ≡ true
    → (f t).status ≡ ready
    → AllReady f (ts ++ t ∷ [])
AllReady-append f t [] h a b = ((a, b), tt)
AllReady-append f t (u ∷ ts) h a b = (h.0, AllReady-append f t ts h.1 a b)

-- A free slot is not that of a ready thread.
free-Apart :
    (f : ℕ → ThreadInfo) (x : ℕ) (ts : List ℕ)
    → (f x).occupied ≡ false
    → AllReady f ts
    → Apart (suc x) ts
free-Apart f x [] free h = tt
free-Apart f x (t ∷ ts) free h = (differ, free-Apart f x ts free h.1)
  where
    differ : suc x ≢ suc t
    differ e =
        let same : x ≡ t = omega arith in
        false≢true (sym free ∙ ap (λ (j : ℕ). (f j).occupied) same ∙ h.0.0)

-- allocTid returns the first free slot.
alloc_tid_from-free :
    (n i end : ℕ) (pool : ThreadPool) (x : ℕ)
    → end ≡ i + n
    → i ≤ x
    → x < end
    → (pool.threads x).occupied ≡ false
    → Returns
        (λ t.
          (t < end)
          × ((pool.threads t).occupied ≡ false)
          × ((j : ℕ) → i ≤ j → j < t → (pool.threads j).occupied ≡ true))
        (alloc_tid_from n i pool)
unfolding alloc_tid_from
alloc_tid_from-free zero i end pool x at lo hi free = absurd (omega arith)
alloc_tid_from-free (suc n) i end pool x at lo hi free =
    elim (Bool-cases (pool.threads i).occupied) [
      | inl taken ↦ rw taken (
          Returns-map
            (alloc_tid_from-free n (i + 1) end pool x (omega arith) (ground arith) hi free)
            λ t r. (
              r.0,
              r.1,
              λ j p q. elim (Bool-cases (i == j)) [
                | inl first ↦ let same : i ≡ j = ground arith in rw (← same) taken
                | inr later ↦ r.2 j (ground arith) q
              ],
            ))
      | inr here ↦ rw here (returns (omega arith, here, λ j p q. absurd (omega arith)))
    ]

alloc_tid_from-full :
    (n i : ℕ) (pool : ThreadPool)
    → ((j : ℕ) → i ≤ j → j < i + n → (pool.threads j).occupied ≡ true)
    → alloc_tid_from n i pool ≡ panic
unfolding alloc_tid_from
alloc_tid_from-full zero i pool all = refl
alloc_tid_from-full (suc n) i pool all =
    let here = all i (omega arith) (omega arith) in
    rw here (alloc_tid_from-full n (i + 1) pool (λ j p q. all j (omega arith) (omega arith)))

-- The times of a scheduler whose slices no thread exceeds.
abbrev pub Short : RrScheduler → Type 0
Short s = (j : ℕ) → (s.threads (suc j)).time ≤ s.max_time

pub Pushed-Short :
    (s s' : RrScheduler) (t : ℕ) (ts : List ℕ) → Short s → Pushed s t ts s' → Short s'
Pushed-Short s s' t ts short p j = elim (Bool-cases (j == t)) [
  | inl here ↦ let same : j ≡ t = ground arith in rw same (ground (arith, p.time, p.same, short t))
  | inr away ↦ ground (arith, p.others (suc j), p.same, short j)
]

-- A new thread takes the first free slot and is the last that will run.
pub record Added (pool : ThreadPool) (thread : Thread) (ts : List ℕ) (pool' : ThreadPool)
    : Type 0 where
  pub tid : ℕ
  pub free : (pool.threads tid).occupied ≡ false
  pub first : (j : ℕ) → j < tid → (pool.threads j).occupied ≡ true
  pub is_ready : IsReady pool' (ts ++ tid ∷ [])
  pub holds : (pool'.threads tid).thread ≡ thread
  pub others : (j : ℕ) → j ≢ tid → pool'.threads j ≡ pool.threads j

-- While a slot is free, addToPool puts the thread into the first free one and makes it the last
-- that will run; the other slots stay.
pub add_to_pool_lem :
    (pool : ThreadPool) (thread : Thread) (ts : List ℕ) (x : ℕ)
    → IsReady pool ts
    → x < max_thread
    → (pool.threads x).occupied ≡ false
    → Returns (Added pool thread ts) (add_to_pool pool thread)
unfolding add_to_pool alloc_tid
add_to_pool_lem pool thread ts x r small free =
    Returns-bind (alloc_tid_from-free max_thread 0 max_thread pool x refl (omega arith) small free)
      λ t a.
        let out = free-Apart pool.threads t ts a.1 r.slots in
        let info : ThreadInfo = record (pool.threads t) {
          status = ready;
          occupied = true;
          thread = thread;
        } in
        let threads = update pool.threads t info in
        Returns-bind (scheduler_push-append pool.scheduler ts t r.queue out a.0 (r.times t)) λ s p.
          returns (record {
            tid = t;
            free = a.1;
            first = λ j q. a.2 j (omega arith) q;
            is_ready = record {
              queue = p.queue;
              slots =
                  AllReady-append threads t ts
                    (AllReady-frame pool.threads threads t ts (λ j ne. ground arith) out r.slots)
                    (ground arith) (ground arith);
              times = Pushed-Short pool.scheduler s t ts r.times p;
            };
            holds = ground arith;
            others = λ j ne. ground arith;
          })

-- With no slot free, addToPool panics.
add_to_pool-full :
    (pool : ThreadPool) (thread : Thread)
    → ((j : ℕ) → j < max_thread → (pool.threads j).occupied ≡ true)
    → add_to_pool pool thread ≡ panic
unfolding add_to_pool alloc_tid
add_to_pool-full pool thread all =
    rw (alloc_tid_from-full max_thread 0 pool (λ j p q. all j (omega arith)))

-- The thread at the front of the ready ones becomes the running one, with what its slot holds;
-- the others stay ready and no thread's time changes.
pub acquire_from_pool-cons :
    (pool : ThreadPool) (t : ℕ) (ts : List ℕ)
    → IsReady pool (t ∷ ts)
    → let (got, pool') = acquire_from_pool pool in
      (got ≡ some (record { tid = t; thread = (pool.threads t).thread }))
      × IsReady pool' ts
      × Apart (suc t) ts
      × ((pool'.threads t).status ≡ running)
      × ((pool'.threads t).occupied ≡ true)
      × (pool'.scheduler.current ≡ suc t)
      × ((j : ℕ) → (pool'.scheduler.threads j).time ≡ (pool.scheduler.threads j).time)
unfolding acquire_from_pool
acquire_from_pool-cons pool t ts r =
    let (next, p) = scheduler_pop-cons pool.scheduler t ts r.queue in
    let info : ThreadInfo = record (pool.threads t) { status = running; tid = t } in
    let threads = update pool.threads t info in
    rw (next, acquire_from_pool)
      (
        refl,
        record {
          queue = p.queue;
          slots =
              AllReady-frame pool.threads threads t ts (λ j ne. ground arith) r.queue.distinct.0
                r.slots.1;
          times = λ j. omega (arith, p.kept (suc j), p.same, r.times j);
        },
        r.queue.distinct.0,
        ground arith,
        ground (arith, r.slots.0),
        p.running,
        p.kept,
      )

-- With no thread ready nothing is acquired, and nothing changes.
acquire_from_pool-nil :
    (pool : ThreadPool) → IsReady pool [] → acquire_from_pool pool ≡ (none, pool)
unfolding acquire_from_pool
acquire_from_pool-nil pool r =
    let idle = scheduler_pop-nil pool.scheduler r.queue in
    rw (ap (λ x. x.0) idle, ap (λ x. x.1) idle, acquire_from_pool)
