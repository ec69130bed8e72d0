-- ===== src/Queue/Laws.antt =====
-- kernel/queue.c refines a list: pushBack appends, popFront takes the first item.
use jokerix.Base.{
  ℕ, ◌≡◌, refl, sym, subst, ap, ◌≢◌, ◌↔◌, true, false, List, [], ◌∷◌, ◌++◌, arith, ◌==◌,
  if◌then◌else◌,
}
use jokerix.Base.Run.{ok, Returns, returns, Returns-bind}
use jokerix.KernelHeap.{KernelHeap}
use jokerix.Queue.{Node, Queue, node_bytes, is_empty, Store, push_back, pop_front}

-- The nodes of a queue: their addresses and items.
abbrev pub Cells : Type 0
Cells = List (ℕ × ℕ)

abbrev pub items : Cells → List ℕ
items [] = []
items ((p, v) ∷ cs) = v ∷ items cs

abbrev pub Off : ℕ → Cells → Type 0
Off a [] = Unit {0}
Off a ((p, v) ∷ cs) = (a ≢ p) × Off a cs

-- From `p` with item `v` the links lead through the cells to `tail`; no address comes twice.
abbrev pub Links : (ℕ → Node) → ℕ → ℕ → Cells → ℕ → Type 0
Links nodes p v [] tail = (p ≢ 0) × ((nodes p).item ≡ v) × (tail ≡ p)
Links nodes p v ((q, w) ∷ cs) tail =
    (p ≢ 0)
    × ((nodes p).item ≡ v)
    × ((nodes p).next ≡ q)
    × Off p ((q, w) ∷ cs)
    × Links nodes q w cs tail

module _ (k : KernelHeap) where
  abbrev pub AllLive : k.State → Cells → Type 0
  AllLive h [] = Unit {0}
  AllLive h ((p, v) ∷ cs) = k.Live h p × AllLive h cs

  abbrev pub Holds : Store k → Queue → Cells → Type 0
  Holds s q [] = (q.head ≡ 0) × (q.tail ≡ 0)
  Holds s q ((p, v) ∷ cs) =
      (q.head ≡ p) × Links s.nodes p v cs q.tail × AllLive s.heap ((p, v) ∷ cs)

  -- The queue holds the cells, on a valid heap.
  pub record IsQueue (s : Store k) (q : Queue) (cs : Cells) : Type 0 where
    pub valid : k.Valid s.heap
    pub holds : Holds s q cs

-- The last node is on no earlier one.
pub tail-ne :
    (nodes : ℕ → Node) (a p v : ℕ) (cs : Cells) (tail : ℕ)
    → Off a ((p, v) ∷ cs)
    → Links nodes p v cs tail
    → tail ≢ a
tail-ne nodes a p v [] tail out l = ground arith
tail-ne nodes a p v ((q, w) ∷ cs) tail out l = tail-ne nodes a q w cs tail out.1 l.4

head-not_null :
    (nodes : ℕ → Node) (p v : ℕ) (cs : Cells) (tail : ℕ) → Links nodes p v cs tail → p ≢ 0
head-not_null nodes p v [] tail l = l.0
head-not_null nodes p v (c ∷ cs) tail l = l.0

Links-first :
    (nodes : ℕ → Node) (p v : ℕ) (cs : Cells) (tail : ℕ)
    → Links nodes p v cs tail
    → (nodes p).item ≡ v
Links-first nodes p v [] tail l = l.1
Links-first nodes p v (c ∷ cs) tail l = l.1

Off-append : (a n x : ℕ) (cs : Cells) → Off a cs → a ≢ n → Off a (cs ++ (n, x) ∷ [])
Off-append a n x [] out ne = (ne, tt)
Off-append a n x ((q, w) ∷ cs) out ne = (out.0, Off-append a n x cs out.1 ne)

-- A node behind the last one.
Links-append :
    (nodes nodes' : ℕ → Node) (p v : ℕ) (cs : Cells) (tail n x : ℕ)
    → Links nodes p v cs tail
    → Off n ((p, v) ∷ cs)
    → n ≢ 0
    → ((j : ℕ) → j ≢ n → (nodes' j).item ≡ (nodes j).item)
    → ((j : ℕ) → j ≢ n → j ≢ tail → (nodes' j).next ≡ (nodes j).next)
    → (nodes' tail).next ≡ n
    → (nodes' n).item ≡ x
    → Links nodes' p v (cs ++ (n, x) ∷ []) n
Links-append nodes nodes' p v [] tail n x l out pos item next at new =
    let last : nodes' p ≡ nodes' tail = ap nodes' (sym l.2) in
    let linked : (nodes' p).next ≡ n = rw last at in ground (arith, item p, linked)
Links-append nodes nodes' p v ((q, w) ∷ cs) tail n x l out pos item next at new = (
  l.0,
  ground (arith, item p),
  ground (arith, next p, tail-ne nodes p q w cs tail l.3 l.4),
  Off-append p n x ((q, w) ∷ cs) l.3 (ground arith),
  Links-append nodes nodes' q w cs tail n x l.4 out.1 pos item next at new,
)

module _ (k : KernelHeap) where
  pub Live-Off :
      (h : k.State) (n : ℕ) (cs : Cells) (h' : k.State)
      → ((q : ℕ) → k.Live h q → (q ≢ n) × k.Live h' q)
      → AllLive k h cs
      → Off n cs × AllLive k h' cs
  Live-Off h n [] h' kept l = (tt, tt)
  Live-Off h n ((p, v) ∷ cs) h' kept l =
      let fresh = kept p l.0 in
      let rest = Live-Off h n cs h' kept l.1 in
      ((λ eq. fresh.0 (sym eq), rest.0), (fresh.1, rest.1))

  AllLive-append :
      (h : k.State) (n x : ℕ) (cs : Cells)
      → AllLive k h cs
      → k.Live h n
      → AllLive k h (cs ++ (n, x) ∷ [])
  AllLive-append h n x [] l new = (new, tt)
  AllLive-append h n x ((p, v) ∷ cs) l new = (l.0, AllLive-append h n x cs l.1 new)

  pub AllLive-Off :
      (h h' : k.State) (p : ℕ) (cs : Cells)
      → ((q : ℕ) → q ≢ p → k.Live h q → k.Live h' q)
      → Off p cs
      → AllLive k h cs
      → AllLive k h' cs
  AllLive-Off h h' p [] kept out l = tt
  AllLive-Off h h' p ((q, w) ∷ cs) kept out l =
      (kept q (λ e. out.0 (sym e)) l.0, AllLive-Off h h' p cs kept out.1 l.1)

  module _ (s : Store k) (q : Queue) where
    -- isEmpty tells the empty queue.
    pub is_empty_lem : (cs : Cells) → IsQueue k s q cs → (is_empty q ≡ true) ↔ (cs ≡ [])
    unfolding is_empty
    is_empty_lem [] h = ground (arith, h.holds)
    is_empty_lem ((p, v) ∷ cs) h =
        let busy : is_empty q ≡ false =
          ground (arith, h.holds.0, head-not_null s.nodes p v cs q.tail h.holds.1) in
        (λ e. absurd (cc), λ e. absurd (cc))

    pub is_empty-cons : (c : ℕ × ℕ) (cs : Cells) → IsQueue k s q (c ∷ cs) → is_empty q ≡ false
    unfolding is_empty
    is_empty-cons (p, v) cs h =
        ground (arith, h.holds.0, head-not_null s.nodes p v cs q.tail h.holds.1)

    -- If kalloc has memory, pushBack puts the item behind all others, in the node that kalloc
    -- returned.
    pub push_back-append :
        (cs : Cells) (x n : ℕ) (heap : k.State)
        → IsQueue k s q cs
        → k.kalloc node_bytes s.heap ≡ ok (n, heap)
        → Returns (λ (q', s'). IsQueue k s' q' (cs ++ (n, x) ∷ [])) (push_back k q x s)
    unfolding push_back
    push_back-append [] x n heap h e =
        let (some_address, valid, live, kept) =
          k.kalloc_gives node_bytes n s.heap heap (omega arith) (omega arith) h.valid e in
        let none_yet = (is_empty_lem [] h).1 refl in
        rw (e, none_yet)
          (returns (record {
            valid = valid;
            holds = (refl, (some_address, ground arith, refl), (live, tt));
          }))
    push_back-append ((p, v) ∷ cs) x n heap h e =
        let (some_address, valid, live, all) =
          k.kalloc_gives node_bytes n s.heap heap (omega arith) (omega arith) h.valid e in
        let busy = is_empty-cons (p, v) cs h in
        let kept = Live-Off s.heap n ((p, v) ∷ cs) heap all h.holds.2 in
        let apart = tail-ne s.nodes n p v cs q.tail kept.0 h.holds.1 in
        rw (e, busy)
          (returns (record {
            valid = valid;
            holds = (
              h.holds.0,
              Links-append s.nodes _ p v cs q.tail n x h.holds.1 kept.0 some_address
                  (λ j ne. ground arith) (λ j ne off. ground arith) (ground arith) (ground arith),
              AllLive-append heap n x ((p, v) ∷ cs) kept.1 live,
            );
          }))

    -- What is left of the links when the first node is gone.
    rest-Holds :
        (p v : ℕ) (cs : Cells) (heap : k.State)
        → Holds k s q ((p, v) ∷ cs)
        → ((j : ℕ) → j ≢ q.head → k.Live s.heap j → k.Live heap j)
        → Holds k
            (record s { heap = heap })
            (if q.head == q.tail
              then record { head = 0; tail = 0 }
              else record q { head = (s.nodes q.head).next })
            cs
    rest-Holds p v [] heap h kept = ground arith
    rest-Holds p v ((r, w) ∷ cs) heap h kept =
        let differ : (q.head == q.tail) ≡ false =
          ground (arith, h.0, tail-ne s.nodes p r w cs q.tail h.1.3 h.1.4) in
        let off : Off q.head ((r, w) ∷ cs) = subst (λ a. Off a ((r, w) ∷ cs)) (sym h.0) h.1.3 in
        rw differ
          (rw (h.0) h.1.2, h.1.4, AllLive-Off s.heap heap q.head ((r, w) ∷ cs) kept off h.2.1)

    -- From a queue that is not empty popFront returns the first item, and the others stay in their
    -- order.
    pub pop_front-cons :
        (p v : ℕ) (cs : Cells)
        → IsQueue k s q ((p, v) ∷ cs)
        → Returns (λ (item, q', s'). (item ≡ v) × IsQueue k s' q' cs) (pop_front k q s)
    unfolding pop_front
    pop_front-cons p v cs h =
        let live : k.Live s.heap q.head = rw (h.holds.0) h.holds.2.0 in
        let first : (s.nodes q.head).item ≡ v =
          rw (h.holds.0) (Links-first s.nodes p v cs q.tail h.holds.1) in
        Returns-bind (k.kfree_gives q.head s.heap h.valid live) λ heap (valid, kept).
          returns (first, record { valid = valid; holds = rest-Holds p v cs heap h.holds kept })
