-- ===== src/UserIo.antt =====
-- user/io.c: what a program writes, as the bytes that it hands to the system call, one for each call
-- of putchar. The functions have the text of kernel/printf.c, with putchar for consolePutchar.
use jokerix.Base.{ℕ, Bool, List}
use jokerix.Base.Run.{Run, ok, ◌>>=◌}
use jokerix.Print.{print_int, print_ptr}
use jokerix.Print.Format.{Arg, printf, panic_text}

unfoldable pub user_print_int : ℕ → ℕ → Bool → Run (List ℕ)
user_print_int xx base sign = print_int xx base sign

unfoldable pub user_print_ptr : ℕ → List ℕ
user_print_ptr x = print_ptr x

unfoldable pub user_printf : List ℕ → List Arg → Run (List ℕ)
user_printf fmt args = printf fmt args

-- What panic writes before the program ends with code 1.
unfoldable pub user_panic : List ℕ → Run (List ℕ × ℕ)
user_panic s = do out ← panic_text s; ok (out, 1)
