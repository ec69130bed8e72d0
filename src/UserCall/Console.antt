-- ===== src/UserCall/Console.antt =====
-- What a program writes comes to the console.
use jokerix.Base.{ℕ, ◌%◌, ◌^◌, ◌≡◌, refl, ◌∙◌, List, [], ◌∷◌, ◌++◌}
use mathlib.Core.List.{append-nil, append_assoc}
use jokerix.Base.Run.{Returns, returns, Returns-map, Returns-bind}
use jokerix.Base.Words.{add64}
use jokerix.Context.{InterruptContext}
use jokerix.Trap.Syscall.{Setting, System, Event, syscall, handle_syscall}
use jokerix.Trap.{user_env_call, handle_interrupt}
use jokerix.UserCall.{sys_call, putchar, put_all}

-- The bytes as the console takes them.
abbrev pub as_bytes : List ℕ → List ℕ
as_bytes [] = []
as_bytes (c ∷ cs) = (c % 2 ^ 8) ∷ as_bytes cs

module _ (e : Setting) where
  putchar-console :
      (event : Event) (c : ℕ) (context : InterruptContext) (s : System e)
      → Returns
          (λ (outcome, context', s').
            (context'.sepc ≡ add64 context.sepc 4)
            × (s' ≡ record s { console = s.console ++ (c % 2 ^ 8) ∷ [] }))
          (handle_interrupt e event (putchar c context) user_env_call s)
  unfolding handle_interrupt handle_syscall syscall putchar sys_call
  putchar-console event c context s = returns (refl, refl)

  -- Whatever the events are, what a program writes with putchar comes to the console, each as a
  -- byte, and nothing else of the system changes.
  pub put_all-console :
      (event : Event) (text : List ℕ) (context : InterruptContext) (s : System e)
      → Returns
          (λ (context', s'). s' ≡ record s { console = s.console ++ as_bytes text })
          (put_all e event text context s)
  unfolding put_all
  put_all-console event [] context s = returns (rw (append-nil s.console) refl)
  put_all-console event (c ∷ cs) context s =
      Returns-bind (putchar-console event c context s) λ (outcome, context1, s1) (pc, one).
        Returns-map (put_all-console event cs context1 s1) λ (context', s') rest.
          rw one at rest ∙ rw (append_assoc s.console ((c % 2 ^ 8) ∷ []) (as_bytes cs)) refl
