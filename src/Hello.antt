-- ===== src/Hello.antt =====
-- user/entry.c, user/hello.c and user/hello2.c: how a program starts, and two programs that write a
-- line ten times. What a program writes is the list of its bytes, as in UserIo.
pub mod Laws
pub mod Console
use jokerix.Base.{ℕ, zero, suc, ◌+◌, List, [], ◌∷◌, ◌++◌, update}
use jokerix.Base.Run.{Run, ok, ◌>>=◌}
use jokerix.Heap.{BuddyTree, Heap}
use jokerix.UserHeap.{malloc, user_init_heap}
use jokerix.UserIo.{user_printf, user_panic}

-- `for(i = 0; i < 8; i ++) c[i] = i;`, with `n` rounds to go.
unfoldable pub number_bytes : ℕ → ℕ → ℕ → (ℕ → ℕ) → ℕ → ℕ
number_bytes zero i c bytes = bytes
number_bytes (suc n) i c bytes = number_bytes n (i + 1) c (update bytes (c + i) i)

-- The loop of ten calls of printf.
unfoldable pub print_lines : ℕ → List ℕ → Run (List ℕ)
print_lines zero line = ok []
print_lines (suc n) line = do out ← user_printf line []; rest ← print_lines n line; ok (out ++ rest)

-- main of both programs, which differ in the line; `base` is where the heap of the program stands.
-- Its result is 0.
unfoldable pub main_of : List ℕ → ℕ → Heap → Run (List ℕ × ℕ × Heap)
main_of line base h = do
  (c, h') ← malloc base 8 h
  out ← print_lines 10 line
  ok (out, 0, record h' { bytes = number_bytes 8 0 c h'.bytes })

-- `"Hello world from user mode program!\n"`
abbrev pub hello_line : List ℕ
hello_line =
    b'H' ∷ b'e' ∷ b'l' ∷ b'l' ∷ b'o' ∷ b' ' ∷ b'w' ∷ b'o' ∷ b'r' ∷ b'l' ∷ b'd' ∷ b' ' ∷ b'f' ∷ b'r'
    ∷ b'o' ∷ b'm' ∷ b' ' ∷ b'u' ∷ b's' ∷ b'e' ∷ b'r' ∷ b' ' ∷ b'm' ∷ b'o' ∷ b'd' ∷ b'e' ∷ b' '
    ∷ b'p' ∷ b'r' ∷ b'o' ∷ b'g' ∷ b'r' ∷ b'a' ∷ b'm' ∷ b'!' ∷ b'\n' ∷ []

-- `"Hello world from user mode program 2 !\n"`
abbrev pub hello2_line : List ℕ
hello2_line =
    b'H' ∷ b'e' ∷ b'l' ∷ b'l' ∷ b'o' ∷ b' ' ∷ b'w' ∷ b'o' ∷ b'r' ∷ b'l' ∷ b'd' ∷ b' ' ∷ b'f' ∷ b'r'
    ∷ b'o' ∷ b'm' ∷ b' ' ∷ b'u' ∷ b's' ∷ b'e' ∷ b'r' ∷ b' ' ∷ b'm' ∷ b'o' ∷ b'd' ∷ b'e' ∷ b' '
    ∷ b'p' ∷ b'r' ∷ b'o' ∷ b'g' ∷ b'r' ∷ b'a' ∷ b'm' ∷ b' ' ∷ b'2' ∷ b' ' ∷ b'!' ∷ b'\n' ∷ []

unfoldable pub hello_main : ℕ → Heap → Run (List ℕ × ℕ × Heap)
hello_main base h = main_of hello_line base h

unfoldable pub hello2_main : ℕ → Heap → Run (List ℕ × ℕ × Heap)
hello2_main base h = main_of hello2_line base h

-- `"No main linked!\n"`
abbrev pub no_main : List ℕ
no_main =
    b'N' ∷ b'o' ∷ b' ' ∷ b'm' ∷ b'a' ∷ b'i' ∷ b'n' ∷ b' ' ∷ b'l' ∷ b'i' ∷ b'n' ∷ b'k' ∷ b'e' ∷ b'd'
    ∷ b'!' ∷ b'\n' ∷ []

-- main of user/entry.c, for a program without one: its panic ends the program.
unfoldable pub missing_main : ℕ → Heap → Run (List ℕ × ℕ × Heap)
missing_main base h = do (out, code) ← user_panic no_main; ok (out, code, h)

-- _start: what the program writes, the code that it hands to sys_exit, and its heap.
unfoldable pub start :
    (main : ℕ → Heap → Run (List ℕ × ℕ × Heap)) → ℕ → Heap → Run (List ℕ × ℕ × Heap)
start main base h = do tree ← user_init_heap h.tree; main base (record h { tree = tree })
