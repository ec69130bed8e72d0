-- ===== src/Scheduler/Chain.antt =====
-- The ring of kernel/rrscheduler.c as a list of thread ids.
use jokerix.Base.{ℕ, suc, ◌≡◌, ◌≢◌, List, [], ◌∷◌, ◌++◌, arith, ◌==◌, if◌then◌else◌}
use jokerix.Scheduler.{RrInfo, link_back, unlink}

-- From entry `a` the links lead through the entries of `ts` and back to the head, both ways.
abbrev pub Chain : (ℕ → RrInfo) → ℕ → List ℕ → Type 0
Chain th a [] = ((th a).next ≡ 0) × ((th 0).prev ≡ a)
Chain th a (t ∷ ts) = ((th a).next ≡ suc t) × ((th (suc t)).prev ≡ a) × Chain th (suc t) ts

-- No thread of `ts` has entry `a`.
abbrev pub Apart : ℕ → List ℕ → Type 0
Apart a [] = Unit {0}
Apart a (t ∷ ts) = (a ≢ suc t) × Apart a ts

abbrev pub Distinct : List ℕ → Type 0
Distinct [] = Unit {0}
Distinct (t ∷ ts) = Apart (suc t) ts × Distinct ts

pub zero-Apart : (ts : List ℕ) → Apart 0 ts
zero-Apart [] = tt
zero-Apart (t ∷ ts) = (omega arith, zero-Apart ts)

-- The rest of a ring survives a change at entry `x` and to the link back from entry `y`.
Chain-frame :
    (th th' : ℕ → RrInfo) (a x y : ℕ) (ts : List ℕ)
    → ((j : ℕ) → j ≢ 0 → j ≢ x → (th' j).next ≡ (th j).next)
    → ((j : ℕ) → j ≢ x → j ≢ y → (th' j).prev ≡ (th j).prev)
    → a ≢ 0
    → a ≢ x
    → x ≢ 0
    → y ≢ 0
    → Apart x ts
    → Apart y ts
    → Chain th a ts
    → Chain th' a ts
Chain-frame th th' a x y [] next prev pos ne x0 y0 px py c = ground (arith, next a, prev 0)
Chain-frame th th' a x y (t ∷ ts) next prev pos ne x0 y0 px py c = (
  ground (arith, next a),
  ground (arith, prev (suc t)),
  Chain-frame th th' (suc t) x y ts next prev (omega arith) (ground arith) x0 y0 px.1 py.1 c.2,
)

-- schedulerPop takes the first thread off the ring.
pub unlink-Chain :
    (th : ℕ → RrInfo) (t : ℕ) (ts : List ℕ)
    → Distinct (t ∷ ts)
    → Chain th 0 (t ∷ ts)
    → Chain (unlink (suc t) th) 0 ts
unfolding unlink
unlink-Chain th t [] d c = ground arith
unlink-Chain th t (u ∷ ts) d c = (
  ground arith,
  ground arith,
  Chain-frame th (unlink (suc t) th) (suc u) (suc t) (suc u) ts (λ j p q. ground arith)
      (λ j p q. ground arith) (omega arith) (ground arith) (omega arith) (omega arith) d.0.1 d.1.0
      c.2.2,
)

-- The head's link back leads to the last thread, which lies behind every earlier entry.
last-ne :
    (th : ℕ → RrInfo) (a b : ℕ) (ts : List ℕ) → a ≢ b → Apart a ts → Chain th b ts → (th 0).prev ≢ a
last-ne th a b [] ne out c = ground arith
last-ne th a b (t ∷ ts) ne out c = last-ne th a (suc t) ts out.0 out.1 c.2

-- What schedulerPush leaves in the links, with `last` the entry that was at the back.
record Appended (th th' : ℕ → RrInfo) (t : ℕ) : Type 0 where
  next :
      (j : ℕ)
      → (th' j).next ≡ (if j == suc t then 0 else if j == (th 0).prev then suc t else (th j).next)
  prev :
      (j : ℕ)
      → (th' j).prev ≡ (if j == 0 then suc t else if j == suc t then (th 0).prev else (th j).prev)

append-Chain :
    (th th' : ℕ → RrInfo) (t a : ℕ) (ts : List ℕ)
    → Appended th th' t
    → a ≢ suc t
    → Apart (suc t) ts
    → Apart a ts
    → Distinct ts
    → Chain th a ts
    → Chain th' a (ts ++ t ∷ [])
append-Chain th th' t a [] e ne out own d c =
    ground (arith, e.next a, e.next (suc t), e.prev 0, e.prev (suc t))
append-Chain th th' t a (u ∷ ts) e ne out own d c = (
  ground (arith, e.next a, last-ne th a (suc u) ts own.0 own.1 c.2),
  ground (arith, e.prev (suc u)),
  append-Chain th th' t (suc u) ts e (ground arith) out.1 d.0 d.1 c.2,
)

-- schedulerPush puts a thread that is not on the ring behind all that are.
pub link_back-Chain :
    (th : ℕ → RrInfo) (max_time t : ℕ) (ts : List ℕ)
    → Apart (suc t) ts
    → Distinct ts
    → Chain th 0 ts
    → Chain (link_back (suc t) max_time th) 0 (ts ++ t ∷ [])
unfolding link_back
link_back-Chain th max_time t ts out d c =
    append-Chain th (link_back (suc t) max_time th) t 0 ts
      (record { next = λ j. ground arith; prev = λ j. ground arith }) (omega arith) out
      (zero-Apart ts) d c

-- schedulerPush renews the time of its thread only where none is left, and no other thread's.
pub link_back-time :
    (th : ℕ → RrInfo) (max_time t j : ℕ)
    → (link_back (suc t) max_time th j).time ≡ (
        if j == suc t
        then (if (th (suc t)).time == 0 then max_time else (th (suc t)).time)
        else (th j).time)
unfolding link_back
link_back-time th max_time t j = ground arith

pub unlink-time : (th : ℕ → RrInfo) (t j : ℕ) → (unlink (suc t) th j).time ≡ (th j).time
unfolding unlink
unlink-time th t j = ground arith

-- The links alone make a ring.
pub Chain-same :
    (th th' : ℕ → RrInfo) (a : ℕ) (ts : List ℕ)
    → ((j : ℕ) → ((th' j).next ≡ (th j).next) × ((th' j).prev ≡ (th j).prev))
    → Chain th a ts
    → Chain th' a ts
Chain-same th th' a [] same c = ground (arith, same a, same 0)
Chain-same th th' a (t ∷ ts) same c =
    (ground (arith, same a), ground (arith, same (suc t)), Chain-same th th' (suc t) ts same c.2)
