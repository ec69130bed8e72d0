-- ===== src/Trap/Wake.antt =====
-- A program that reads before anything is typed: kernel/syscall.c, kernel/interrupt.c and
-- kernel/processor.c from the call to its end.
use jokerix.Base.{
  ℕ, suc, ◌-◌, ◌%◌, ◌^◌, ◌<◌, ◌≡◌, ◌≢◌, refl, ap, ◌∙◌, sym, true, List, [], ◌∷◌, ◌++◌,
}
use jokerix.Base.Run.{ok, Returns, returns, Returns-bind, Returns-inv, ◌>>=◌}
use jokerix.Base.Words.{add64}
use jokerix.Scheduler.{max_thread}
use jokerix.Scheduler.Chain.{Apart}
use jokerix.Pool.{Thread, RunningThread}
use jokerix.Pool.Laws.{IsReady}
use jokerix.Heap.{kalloc, Heap}
use jokerix.Heap.Block.{Block, HasRoom}
use jokerix.Heap.Buddy.{IsTree}
use jokerix.Queue.OnHeap.{node-kalloc-kalloc}
use jokerix.Queue.{node_bytes}
use jokerix.Queue.Laws.{Cells, IsQueue}
use jokerix.Queue.Apart.{Both, Both-heap}
use jokerix.Stdin.Laws.{typed}
use jokerix.Stdin.Wake.{pop_char-nil, external-wakes}
use jokerix.Context.{InterruptContext}
use jokerix.Processor.{Processor, idle_retrieve, idle_acquire}
use jokerix.Processor.Laws.{IsBusy, Back, idle_acquire-cons}
use jokerix.Trap.Syscall.{
  Setting, heap_height, heap_of, System, Event, returned, reading, sys_read_id, current_addr,
  sys_read, syscall, handle_syscall, resume,
}
use jokerix.Trap.{called, user_env_call, supervisor_external, external_interrupt, handle_interrupt}
use jokerix.Trap.Laws.{typed-byte, sys_read-cons}

module _ (e : Setting) where
  sys_read-nil :
      (saved base : ℕ) (s : System e) (n p : ℕ) (heap : Heap) (cs : Cells) (ts : List ℕ)
      → IsBusy s.cpu n ts
      → Both (heap_of e) s.store s.stdin.pushed.wait_queue cs s.stdin.buf []
      → kalloc e.platform.heap node_bytes s.store.heap ≡ ok (p, heap)
      → Returns
          (λ (progress, s').
            (progress ≡ reading base)
            × Both
                (heap_of e)
                s'.store
                s'.stdin.pushed.wait_queue
                (cs ++ (p, s.cpu.current.tid) ∷ [])
                s'.stdin.buf
                []
            × Returns
                (Back (heap_of e) s'.store.heap saved s.cpu n ts ts)
                (idle_retrieve (heap_of e) s'.cpu s'.store.heap)
            × (s'.store.heap ≡ heap))
          (sys_read e saved base s)
  unfolding sys_read
  sys_read-nil saved base s n p heap cs ts b q some =
      Returns-bind (pop_char-nil (heap_of e) s.stdin s.cpu s.store saved n p heap cs ts b q some)
        λ (round, stdin, cpu, store) (sleeps, both, leaves, at).
          rw sleeps (returns (refl, both, leaves, at))

  -- A read call that finds the buffer empty makes its thread the last that waits.
  handle_interrupt-waits :
      (event : Event) (context : InterruptContext) (s : System e) (n p : ℕ) (heap : Heap)
      (cs : Cells) (ts : List ℕ)
      → IsBusy s.cpu n ts
      → Both (heap_of e) s.store s.stdin.pushed.wait_queue cs s.stdin.buf []
      → kalloc e.platform.heap node_bytes s.store.heap ≡ ok (p, heap)
      → context.x 17 ≡ sys_read_id
      → Returns
          (λ (outcome, context', s').
            (outcome ≡ called (reading (context.x 11)))
            × (context' ≡ record context { sepc = add64 context.sepc 4 })
            × Both
                (heap_of e)
                s'.store
                s'.stdin.pushed.wait_queue
                (cs ++ (p, s.cpu.current.tid) ∷ [])
                s'.stdin.buf
                []
            × Returns
                (Back (heap_of e) s'.store.heap event.context_addr s.cpu n ts ts)
                (idle_retrieve (heap_of e) s'.cpu s'.store.heap)
            × (s'.store.heap ≡ heap))
          (handle_interrupt e event context user_env_call s)
  unfolding handle_interrupt handle_syscall syscall
  handle_interrupt-waits event context s n p heap cs ts b q some id =
      let (progress, run, sleeps) =
        Returns-inv (sys_read-nil event.context_addr (context.x 11) s n p heap cs ts b q some) in
      rw (id, run, sleeps.0) (returns (refl, refl, sleeps.1, sleeps.2, sleeps.3))

  -- A typed byte goes behind the chars in the buffer, and wakes the thread that waits longest.
  handle_interrupt-wakes :
      (event : Event) (context : InterruptContext) (s : System e) (p t c : ℕ) (heap : Heap)
      (cs ds : Cells) (ts : List ℕ)
      → Both (heap_of e) s.store s.stdin.pushed.wait_queue ((p, t) ∷ cs) s.stdin.buf ds
      → IsReady s.cpu.pool ts
      → Apart (suc t) ts
      → t < max_thread
      → (s.cpu.pool.threads t).occupied ≡ true
      → kalloc e.platform.heap node_bytes s.store.heap ≡ ok (c, heap)
      → event.char ≢ 2 ^ 64 - 1
      → Returns
          (λ (outcome, context', s').
            Both
              (heap_of e)
              s'.store
              s'.stdin.pushed.wait_queue
              cs
              s'.stdin.buf
              (ds ++ (c, typed event.char) ∷ [])
            × IsReady s'.cpu.pool (ts ++ t ∷ [])
            × ((s'.cpu.pool.threads t).thread ≡ (s.cpu.pool.threads t).thread)
            × (s'.cpu.occupied ≡ s.cpu.occupied))
          (handle_interrupt e event context supervisor_external s)
  unfolding handle_interrupt external_interrupt
  handle_interrupt-wakes event context s p t c heap cs ds ts q ready out small taken some byte =
      let ((stdin, cpu, store), run, woken) = Returns-inv (
        external-wakes (heap_of e) s.stdin s.cpu s.store event.char p t c heap cs ds ts q ready out
          small taken some byte) in
      rw run (returns woken)

  -- A read call that goes on ends with the first char of the buffer.
  resume-read :
      (saved base : ℕ) (context : InterruptContext) (s : System e) (p c : ℕ) (cs : Cells)
      → IsQueue (heap_of e) s.store s.stdin.buf ((p, c) ∷ cs)
      → Returns
          (λ (progress, context', s').
            (progress ≡ returned 1)
            × (s'.store.heap.bytes (current_addr e s base) ≡ c % 2 ^ 8)
            × (context'.x 10 ≡ 1)
            × (context'.sepc ≡ context.sepc)
            × IsQueue (heap_of e) s'.store s'.stdin.buf cs
            × (s'.cpu ≡ s.cpu))
          (resume e saved (reading base) context s)
  unfolding resume
  resume-read saved base context s p c cs q =
      Returns-bind (sys_read-cons e saved base s p c cs q)
        λ (progress, s') (done, stored, rest, same, quiet).
          rw done (returns (refl, stored, refl, refl, rest, same))

  -- While nothing is in the buffer, nobody waits and the heap has a free block of twice the smallest
  -- size: a program reads, its thread gives the processor up, a byte is typed, and idleMain then
  -- acquires a thread, the same one, with the context that it has left; no other was ready. Then the
  -- call stores what was typed at the program's address and returns 1 behind its instruction, and the
  -- buffer is empty.
  pub read_ends :
      (event typing : Event) (context other : InterruptContext) (s : System e) (n : ℕ) (t : Block)
      → IsBusy s.cpu n []
      → Both (heap_of e) s.store s.stdin.pushed.wait_queue [] s.stdin.buf []
      → IsTree s.store.heap.tree 17 t
      → HasRoom 17 1 t
      → context.x 17 ≡ sys_read_id
      → typing.char ≢ 2 ^ 64 - 1
      → Returns
          (λ (outcome, acquired, progress, context', s').
            (outcome ≡ called (reading (context.x 11)))
            × (acquired ≡ true)
            × (progress ≡ returned 1)
            × (s'.store.heap.bytes (current_addr e s (context.x 11)) ≡ typed typing.char)
            × (context'.x 10 ≡ 1)
            × (context'.sepc ≡ add64 context.sepc 4)
            × IsQueue (heap_of e) s'.store s'.stdin.buf []
            × (s'.cpu.current.tid ≡ s.cpu.current.tid)
            × (s'.cpu.current.thread.context_addr ≡ event.context_addr))
          (do
            (outcome, context', s1) ← handle_interrupt e event context user_env_call s
            (idle, heap) ← idle_retrieve (heap_of e) s1.cpu s1.store.heap
            (_, _, s2) ←
                handle_interrupt e typing other supervisor_external
                  (record s1 { cpu = idle; store = record s1.store { heap = heap } })
            (acquired, next) ← ok (idle_acquire s2.cpu)
            (progress, context'', s3) ←
                resume e event.context_addr
                  (reading (context.x 11))
                  context'
                  (record s2 { cpu = next })
            ok (outcome, acquired, progress, context'', s3))
  read_ends event typing context other s n tree b q w room id byte =
      let (p, c, h1, h2, e1, e2) =
        node-kalloc-kalloc e.platform.heap 17 e.some_heap heap_height s.store tree w room in
      Returns-bind (handle_interrupt-waits event context s n p h1 [] [] b q e1 id)
        λ (outcome, context', s1) (sleeps, kept, both, leaves, at).
          Returns-bind leaves λ (idle, heap) (free, saved, taken, same).
            Returns-bind
              (handle_interrupt-wakes typing other
                (record s1 { cpu = idle; store = record s1.store { heap = heap } }) p
                s.cpu.current.tid c h2 [] [] [] (Both-heap (heap_of e) heap same both) free.is_ready
                b.apart b.small taken (ap (kalloc e.platform.heap node_bytes) (same ∙ at) ∙ e2)
                byte)
              λ (outcome', other', s2) (both', ready, still, unused).
                let t = s.cpu.current.tid in
                let turn =
                  idle_acquire-cons s2.cpu t []
                    (record { is_ready = ready; free = unused ∙ free.free }) in
                let space =
                  ap (λ (r : RunningThread). r.thread.satp) turn.1
                  ∙ ap (λ (u : Thread). u.satp) (still ∙ saved) in
                Returns-bind
                  (resume-read event.context_addr (context.x 11) context'
                    (record s2 { cpu = (idle_acquire s2.cpu).1 }) c (typed typing.char) []
                    both'.other)
                  λ (progress, context'', s3) (done, stored, one, here, rest, runs). returns (
                    sleeps,
                    turn.0,
                    done,
                    ap (λ a. s3.store.heap.bytes (e.user_addr a (context.x 11))) (sym space)
                        ∙ stored
                        ∙ typed-byte typing.char,
                    one,
                    here ∙ ap (λ (i : InterruptContext). i.sepc) kept,
                    rest,
                    ap (λ (u : Processor). u.current.tid) runs
                        ∙ ap (λ (r : RunningThread). r.tid) turn.1,
                    ap (λ (u : Processor). u.current.thread.context_addr) runs
                        ∙ ap (λ (r : RunningThread). r.thread.context_addr) turn.1
                        ∙ ap (λ (u : Thread). u.context_addr) (still ∙ saved),
                  )
