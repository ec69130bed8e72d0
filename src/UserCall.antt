-- ===== src/UserCall.antt =====
-- user/syscall.h: the system calls as programs make them, and what user/io.c does with them. A call
-- is what the registers hold at the instruction ecall.
pub mod Console
use jokerix.Base.{ℕ, List, [], ◌∷◌, update}
use jokerix.Base.Run.{Run, ok, ◌>>=◌}
use jokerix.Context.{InterruptContext}
use jokerix.Trap.Syscall.{Setting, System, Event}
use jokerix.Trap.{user_env_call, handle_interrupt}

-- `SyscallId`
pub data SyscallId : Type 0 where
  read write exit exec : SyscallId

abbrev pub call_number : SyscallId → ℕ
call_number read = 63
call_number write = 64
call_number exit = 93
call_number exec = 221

-- The macro: the arguments are put into a0 to a3 and the number into a7.
unfoldable pub sys_call : SyscallId → ℕ → ℕ → ℕ → ℕ → InterruptContext → InterruptContext
sys_call id a0 a1 a2 a3 context = record context {
  x =
      update (update (update (update (update context.x 10 a0) 11 a1) 12 a2) 13 a3) 17
        (call_number id);
}

abbrev pub user_read : ℕ → ℕ → ℕ → InterruptContext → InterruptContext
user_read fd base len context = sys_call read fd base len 0 context

abbrev pub user_write : ℕ → InterruptContext → InterruptContext
user_write c context = sys_call write c 0 0 0 context

abbrev pub user_exit : ℕ → InterruptContext → InterruptContext
user_exit code context = sys_call exit code 0 0 0 context

abbrev pub user_exec : ℕ → InterruptContext → InterruptContext
user_exec path context = sys_call exec path 0 0 0 context

-- getc: the byte comes to the address of `c`.
unfoldable pub getc : ℕ → InterruptContext → InterruptContext
getc c_addr context = user_read 0 c_addr 1 context

unfoldable pub putchar : ℕ → InterruptContext → InterruptContext
putchar c context = user_write c context

-- A text that a program writes: one call of putchar after the other, each handled by the kernel
-- before the program goes on behind it.
module _ (e : Setting) where
  unfoldable pub put_all :
      Event → List ℕ → InterruptContext → System e → Run (InterruptContext × System e)
  put_all event [] context s = ok (context, s)
  put_all event (c ∷ cs) context s = do
    (_, context', s') ← handle_interrupt e event (putchar c context) user_env_call s
    put_all event cs context' s'
