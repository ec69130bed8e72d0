-- ===== src/Hello/Console.antt =====
-- What user/hello.c leaves on the console.
use jokerix.Base.{ℕ, ◌≡◌, refl, ◌∙◌, ap, ◌++◌}
use jokerix.Base.Run.{ok, Returns, returns, Returns-bind, ◌>>=◌}
use jokerix.Heap.{Heap}
use jokerix.Context.{InterruptContext}
use jokerix.Trap.Syscall.{Setting, System, Event}
use jokerix.UserCall.{put_all}
use jokerix.UserCall.Console.{as_bytes, put_all-console}
use jokerix.Hello.{hello_line, hello_main, start}
use jokerix.Hello.Laws.{times, hello-Ran}

hello_bytes : as_bytes (times 10 hello_line) ≡ times 10 hello_line
hello_bytes = refl

module _ (e : Setting) where
  -- From its entry on, the program hello ends with code 0, wherever its heap stands and whatever its
  -- memory holds; once the kernel has handled a call for each byte that it writes, the line stands
  -- ten times at the end of the console, and nothing else of the system is changed by these calls.
  pub hello-console :
      (event : Event) (context : InterruptContext) (s : System e) (base : ℕ) (h : Heap)
      → Returns
          (λ (code, s').
            (code ≡ 0) × (s' ≡ record s { console = s.console ++ times 10 hello_line }))
          (do
            (out, code, _) ← start hello_main base h
            (_, s') ← put_all e event out context s
            ok (code, s'))
  hello-console event context s base h = Returns-bind (hello-Ran base h).0 λ (out, code, h') r.
      Returns-bind (put_all-console e event out context s) λ (context', s') said.
        let text : as_bytes out ≡ times 10 hello_line = ap as_bytes r.written ∙ hello_bytes in
        returns (r.ended, rw text at said)
