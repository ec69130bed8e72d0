-- ===== src/Trap/Laws.antt =====
-- What is typed reaches the program that reads: kernel/interrupt.c and kernel/syscall.c with the queue
-- of kernel/stdin.c on the heap of kernel/heap.c.
use jokerix.Base.{
  ℕ, ◌-◌, ◌%◌, ◌^◌, ◌≡◌, ◌≢◌, refl, ap, ◌∙◌, sym, arith, List, [], ◌∷◌, ◌++◌, ◌==◌, inl, inr,
  Bool-cases,
}
use jokerix.Base.Run.{Returns, returns, Returns-bind, Returns-map, Returns-inv, ◌>>=◌}
use jokerix.Base.Words.{add64}
use jokerix.Heap.Block.{Block, HasRoom}
use jokerix.Heap.Buddy.{IsTree}
use jokerix.Queue.Laws.{Cells, IsQueue}
use jokerix.Queue.OnHeap.{node-kalloc, IsQueue-bytes}
use jokerix.Stdin.Laws.{typed, external-append, pop_char-cons}
use jokerix.Context.{InterruptContext}
use jokerix.Processor.{Processor, idle_retrieve}
use jokerix.Processor.Laws.{IsBusy, Back, tick_cpu-over}
use jokerix.Trap.Syscall.{
  Setting, heap_height, heap_of, System, Event, returned, sys_read_id, current_addr, sys_read,
  syscall, handle_syscall,
}
use jokerix.Trap.{
  back, switched, called, user_env_call, supervisor_timer_cause, supervisor_external, interval,
  set_timerout, supervisor_timer, external_interrupt, handle_interrupt,
}

pub typed-byte : (ret : ℕ) → typed ret % 2 ^ 8 ≡ typed ret
typed-byte ret = elim (Bool-cases (ret % 2 ^ 8 == b'\r')) [
  | inl line ↦ rw line refl
  | inr other ↦ rw other (omega arith)
]

module _ (e : Setting) where
  -- The first char of the buffer is stored for the program; the threads and the console stay as they
  -- are.
  pub sys_read-cons :
      (saved base : ℕ) (s : System e) (p c : ℕ) (cs : Cells)
      → IsQueue (heap_of e) s.store s.stdin.buf ((p, c) ∷ cs)
      → Returns
          (λ (progress, s').
            (progress ≡ returned 1)
            × (s'.store.heap.bytes (current_addr e s base) ≡ c % 2 ^ 8)
            × IsQueue (heap_of e) s'.store s'.stdin.buf cs
            × (s'.cpu ≡ s.cpu)
            × (s'.console ≡ s.console))
          (sys_read e saved base s)
  unfolding sys_read
  sys_read-cons saved base s p c cs q =
      Returns-bind (pop_char-cons (heap_of e) s.stdin s.cpu s.store saved p c cs q)
        λ (round, stdin, cpu, store) (taken, rest, pushed, same). rw taken (
          returns (
            refl,
            ground arith,
            IsQueue-bytes e.platform.heap 17 e.some_heap heap_height store stdin.buf cs _ rest,
            same,
            refl,
          ))

  -- The first char of the buffer is what a program's read call stores.
  handle_interrupt-read :
      (event : Event) (context : InterruptContext) (s : System e) (p c : ℕ) (cs : Cells)
      → IsQueue (heap_of e) s.store s.stdin.buf ((p, c) ∷ cs)
      → context.x 17 ≡ sys_read_id
      → Returns
          (λ (outcome, context', s').
            (outcome ≡ called (returned 1))
            × (s'.store.heap.bytes (current_addr e s (context.x 11)) ≡ c % 2 ^ 8)
            × (context'.x 10 ≡ 1)
            × (context'.sepc ≡ add64 context.sepc 4)
            × IsQueue (heap_of e) s'.store s'.stdin.buf cs
            × (s'.cpu ≡ s.cpu))
          (handle_interrupt e event context user_env_call s)
  unfolding handle_interrupt handle_syscall syscall
  handle_interrupt-read event context s p c cs q id =
      let (progress, run, r) =
        Returns-inv (sys_read-cons event.context_addr (context.x 11) s p c cs q) in
      rw (id, run, r.0) (returns (refl, r.1, refl, refl, r.2, r.3))

  -- If nobody waits and the heap has a free block, a typed byte goes behind the chars in the buffer.
  handle_interrupt-external :
      (event : Event) (context : InterruptContext) (s : System e) (cs : Cells) (t : Block)
      → IsQueue (heap_of e) s.store s.stdin.buf cs
      → IsQueue (heap_of e) s.store s.stdin.pushed.wait_queue []
      → IsTree s.store.heap.tree 17 t
      → HasRoom 17 0 t
      → event.char ≢ 2 ^ 64 - 1
      → Returns
          (λ (outcome, context', s').
            (outcome ≡ back)
            × (context' ≡ context)
            × ((n : ℕ) × IsQueue
                  (heap_of e)
                  s'.store
                  s'.stdin.buf
                  (cs ++ (n, typed event.char) ∷ []))
            × (s'.cpu ≡ s.cpu))
          (handle_interrupt e event context supervisor_external s)
  unfolding handle_interrupt external_interrupt
  handle_interrupt-external event context s cs t q nobody w room byte =
      let (n, heap, some_byte) =
        node-kalloc e.platform.heap 17 e.some_heap heap_height s.store t w room in
      let ((stdin, cpu, store), run, grown) = Returns-inv (
        external-append (heap_of e) s.stdin s.cpu s.store event.char n heap cs q nobody some_byte
          byte) in
      rw run (returns (refl, refl, (n, grown.0), grown.2))

  -- If nobody waits and the heap has a free block, a byte that is typed into the empty buffer is what
  -- the next read call stores for the program: at the address that the program gave, with a return
  -- as a newline; the call returns 1 behind its instruction, and the buffer is empty again.
  pub handle_interrupt-typed :
      (event reading : Event) (other context : InterruptContext) (s : System e) (t : Block)
      → IsQueue (heap_of e) s.store s.stdin.buf []
      → IsQueue (heap_of e) s.store s.stdin.pushed.wait_queue []
      → IsTree s.store.heap.tree 17 t
      → HasRoom 17 0 t
      → event.char ≢ 2 ^ 64 - 1
      → context.x 17 ≡ sys_read_id
      → Returns
          (λ (outcome, context', s').
            (outcome ≡ called (returned 1))
            × (s'.store.heap.bytes (current_addr e s (context.x 11)) ≡ typed event.char)
            × (context'.x 10 ≡ 1)
            × (context'.sepc ≡ add64 context.sepc 4)
            × IsQueue (heap_of e) s'.store s'.stdin.buf []
            × (s'.cpu ≡ s.cpu))
          (do
            (_, _, s') ← handle_interrupt e event other supervisor_external s
            handle_interrupt e reading context user_env_call s')
  handle_interrupt-typed event reading other context s t q nobody w room byte id =
      Returns-bind (handle_interrupt-external event other s [] t q nobody w room byte)
        λ (outcome, other', s') (done, kept, (n, grown), same).
          Returns-map (handle_interrupt-read reading context s' n (typed event.char) [] grown id)
            λ (outcome', context', s'') (read, stored, one, behind, rest, still). (
              read,
              ap
                    (λ (c : Processor).
                      s''.store.heap.bytes (e.user_addr c.current.thread.satp (context.x 11)))
                    (sym same)
                  ∙ stored
                  ∙ typed-byte event.char,
              one,
              behind,
              rest,
              still ∙ same,
            )

  -- A timer interrupt at the last tick of a slice sets the time of the next one and hands the processor
  -- over: the thread is then behind the other ready ones, and its slot holds the context that was
  -- saved.
  pub handle_interrupt-over :
      (event : Event) (context : InterruptContext) (s : System e) (ts : List ℕ)
      → IsBusy s.cpu 1 ts
      → Returns
          (λ (outcome, context', s').
            (outcome ≡ switched)
            × (context' ≡ context)
            × (s'.timer ≡ add64 event.time interval)
            × Returns
                (Back
                  (heap_of e)
                  s.store.heap
                  event.context_addr
                  s.cpu
                  1
                  ts
                  (ts ++ s.cpu.current.tid ∷ []))
                (idle_retrieve (heap_of e) s'.cpu s'.store.heap))
          (handle_interrupt e event context supervisor_timer_cause s)
  unfolding handle_interrupt supervisor_timer set_timerout
  handle_interrupt-over event context s ts b =
      let (over, left) = tick_cpu-over (heap_of e) s.store.heap event.context_addr s.cpu 1 ts b in
      rw over (returns (refl, refl, refl, left))
