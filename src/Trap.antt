-- ===== src/Trap.antt =====
-- kernel/interrupt.c, kernel/syscall.c and kernel/timer.c: what the kernel does at an interrupt. A
-- handler may hand the processor over in its middle; then its result says where it goes on.
pub mod Syscall
pub mod Laws
pub mod Wake
pub mod Exec
use jokerix.Base.{ℕ, ◌+◌, ◌%◌, ◌^◌, Bool, List, [], ◌∷◌, ◌++◌, ◌==◌, if◌then◌else◌}
use jokerix.Base.Run.{Run, ok, panic, ◌>>=◌}
use jokerix.Base.Words.{add64}
use jokerix.Stdin.{external}
use jokerix.Context.{InterruptContext}
use jokerix.Processor.{tick_cpu}
use jokerix.Print.Format.{pointer, printf}
use jokerix.Trap.Syscall.{Setting, heap_of, System, Event, Progress, handle_syscall}

abbrev pub breakpoint_cause : ℕ
breakpoint_cause = 3

abbrev pub user_env_call : ℕ
user_env_call = 8

abbrev pub supervisor_timer_cause : ℕ
supervisor_timer_cause = 5 + 2 ^ 63

abbrev pub supervisor_external : ℕ
supervisor_external = 9 + 2 ^ 63

abbrev pub interval : ℕ
interval = 100000

-- What a handler has come to: it is done, a system call has come so far, or the slice was over and
-- the processor handed over.
pub data Outcome : Type 0 where
  back switched : Outcome
  called : Progress → Outcome

-- setTimerout: the time of the next interrupt.
unfoldable pub set_timerout : ℕ → ℕ
set_timerout time = add64 time interval

-- `"Breakpoint at %p\n"`
abbrev pub breakpoint_text : List ℕ
breakpoint_text =
    b'B' ∷ b'r' ∷ b'e' ∷ b'a' ∷ b'k' ∷ b'p' ∷ b'o' ∷ b'i' ∷ b'n' ∷ b't' ∷ b' ' ∷ b'a' ∷ b't' ∷ b' '
    ∷ b'%' ∷ b'p' ∷ b'\n' ∷ []

module _ (e : Setting) where
  unfoldable pub breakpoint : InterruptContext → System e → Run (InterruptContext × System e)
  breakpoint context s = do
    text ← printf breakpoint_text (pointer context.sepc ∷ [])
    ok (record context { sepc = add64 context.sepc 2 }, record s { console = s.console ++ text })

  -- supervisorTimer; `true` where the slice is over and the processor has been handed over.
  unfoldable pub supervisor_timer : Event → System e → Bool × System e
  supervisor_timer event s =
      let (over, cpu) = tick_cpu event.context_addr s.cpu in
      (over, record s { timer = set_timerout event.time; cpu = cpu })

  unfoldable pub external_interrupt : Event → System e → Run (System e)
  external_interrupt event s = do
    (stdin, cpu, store) ← external (heap_of e) event.char s.stdin s.cpu s.store
    ok (record s { stdin = stdin; cpu = cpu; store = store })

  -- A cause that is not known ends in panic, which shuts the machine down.
  unfoldable pub handle_interrupt :
      Event → InterruptContext → ℕ → System e → Run (Outcome × InterruptContext × System e)
  handle_interrupt event context scause s =
      let stop = do (context', s') ← breakpoint context s; ok (back, context', s')
      in let call = do
        (progress, context', s') ← handle_syscall e event.context_addr context s
        ok (called progress, context', s')
        in let time = supervisor_timer event s in
          let input = do s' ← external_interrupt event s; ok (back, context, s')
          in if scause == breakpoint_cause
            then stop
            else if scause == user_env_call
            then call
            else if scause == supervisor_timer_cause
            then ok (if time.0 then switched else back, context, time.1)
            else if scause == supervisor_external
            then input
            else panic
