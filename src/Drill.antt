-- ===== src/Drill.antt =====
-- What the kernel runs to try its parts: testAlloc of kernel/main.c, and the entry points
-- tempThreadFunc and helloThread of kernel/thread.c. The text is the list of the bytes that go to
-- the console; a thread's text is what it writes itself, whoever else has the processor in between.
use jokerix.Base.{ℕ, zero, suc, ◌%◌, ◌^◌, List, [], ◌∷◌, ◌++◌}
use jokerix.Base.Run.{Run, ok, ◌>>=◌}
use jokerix.Print.Format.{int, pointer, printf}
use jokerix.Frame.Memory.{Memory, alloc_frame, dealloc_frame}
use jokerix.Processor.{Processor, exit_from_cpu}

-- `"alloc %p\n"` and `"dealloc %p\n"`
abbrev alloc_line : List ℕ
alloc_line = b'a' ∷ b'l' ∷ b'l' ∷ b'o' ∷ b'c' ∷ b' ' ∷ b'%' ∷ b'p' ∷ b'\n' ∷ []

abbrev dealloc_line : List ℕ
dealloc_line = b'd' ∷ b'e' ∷ alloc_line

-- `printf("alloc %p\n", allocFrame())`
unfoldable pub alloc_and_print : Memory → Run (ℕ × List ℕ × Memory)
alloc_and_print m = do
  (f, m') ← alloc_frame m
  out ← printf alloc_line (pointer f ∷ [])
  ok (f, out, m')

unfoldable pub test_alloc : Memory → Run (List ℕ × Memory)
test_alloc m = do
  (_, out1, m1) ← alloc_and_print m
  (f, out2, m2) ← alloc_and_print m1
  (_, out3, m3) ← alloc_and_print m2
  out4 ← printf dealloc_line (pointer f ∷ [])
  m4 ← dealloc_frame m3 f
  (_, out5, m5) ← alloc_and_print m4
  (_, out6, m6) ← alloc_and_print m5
  ok (out1 ++ out2 ++ out3 ++ out4 ++ out5 ++ out6, m6)

-- `"Begin of thread %d\n"`
abbrev begin_line : List ℕ
begin_line =
    b'B' ∷ b'e' ∷ b'g' ∷ b'i' ∷ b'n' ∷ b' ' ∷ b'o' ∷ b'f' ∷ b' ' ∷ b't' ∷ b'h' ∷ b'r' ∷ b'e' ∷ b'a'
    ∷ b'd' ∷ b' ' ∷ b'%' ∷ b'd' ∷ b'\n' ∷ []

-- `"\nEnd of thread %d\n"`
abbrev end_line : List ℕ
end_line =
    b'\n' ∷ b'E' ∷ b'n' ∷ b'd' ∷ b' ' ∷ b'o' ∷ b'f' ∷ b' ' ∷ b't' ∷ b'h' ∷ b'r' ∷ b'e' ∷ b'a' ∷ b'd'
    ∷ b' ' ∷ b'%' ∷ b'd' ∷ b'\n' ∷ []

-- The loop of helloThread, with `n` rounds to go.
unfoldable pub print_numbers : ℕ → ℕ → Run (List ℕ)
print_numbers zero arg = ok []
print_numbers (suc n) arg = do
  out ← printf (b'%' ∷ b'd' ∷ []) (int (arg % 2 ^ 32) ∷ [])
  rest ← print_numbers n arg
  ok (out ++ rest)

unfoldable pub hello_thread : ℕ → ℕ → Processor → Run (List ℕ × Processor)
hello_thread context arg cpu = do
  first ← printf begin_line (int (arg % 2 ^ 32) ∷ [])
  numbers ← print_numbers 800 arg
  last ← printf end_line (int (arg % 2 ^ 32) ∷ [])
  cpu' ← exit_from_cpu context cpu
  ok (first ++ numbers ++ last, cpu')

-- `"The char passed by is "` and `"Hello world from tempThread!\n"`
abbrev passed_text : List ℕ
passed_text =
    b'T' ∷ b'h' ∷ b'e' ∷ b' ' ∷ b'c' ∷ b'h' ∷ b'a' ∷ b'r' ∷ b' ' ∷ b'p' ∷ b'a' ∷ b's' ∷ b's' ∷ b'e'
    ∷ b'd' ∷ b' ' ∷ b'b' ∷ b'y' ∷ b' ' ∷ b'i' ∷ b's' ∷ b' ' ∷ []

abbrev temp_line : List ℕ
temp_line =
    b'H' ∷ b'e' ∷ b'l' ∷ b'l' ∷ b'o' ∷ b' ' ∷ b'w' ∷ b'o' ∷ b'r' ∷ b'l' ∷ b'd' ∷ b' ' ∷ b'f' ∷ b'r'
    ∷ b'o' ∷ b'm' ∷ b' ' ∷ b't' ∷ b'e' ∷ b'm' ∷ b'p' ∷ b'T' ∷ b'h' ∷ b'r' ∷ b'e' ∷ b'a' ∷ b'd'
    ∷ b'!' ∷ b'\n' ∷ []

-- Up to the switch back to the thread that it came from.
unfoldable pub temp_thread_func : ℕ → Run (List ℕ)
temp_thread_func c = do
  first ← printf passed_text []
  last ← printf temp_line []
  ok (first ++ (c % 2 ^ 8) ∷ b'\n' ∷ last)
