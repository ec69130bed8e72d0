-- ===== src/Tests/Programs.antt =====
-- printf, the context of a thread and a new kernel thread at small inputs.
use jokerix.Heap.{Heap}
use jokerix.UserIo.{user_panic}
use jokerix.Hello.{no_main, missing_main, start}
use jokerix.Base.{ℕ, ◌+◌, ◌^◌, ◌<◌, ◌≤◌, ◌≡◌, ◌⊎◌, refl, List, [], ◌∷◌, ◌++◌, some, arith}
use jokerix.Base.Run.{Run, ok, Returns, ◌>>=◌}
use jokerix.Heap.{init_tree}
use jokerix.Heap.Block.{free, HasRoom}
use jokerix.Heap.Init.{init_tree-IsTree}
use jokerix.Print.{print_int, print_digits, digit}
use jokerix.Print.Format.{panic_text, int, text, printf, directive, int_arg, text_arg}
use jokerix.Context.{ThreadContext, Machine, push_context_to_stack}
use jokerix.Context.Laws.{LaidOut, push_context_to_stack-read}
use jokerix.Create.{Platform, Kernel, new_kernel_thread}
use jokerix.Create.Laws.{Started, fresh_context, new_kernel_thread_lem}

-- `printf("%d %s%", 42, "ok")`
print_two :
    printf
      (b'%' ∷ b'd' ∷ b' ' ∷ b'%' ∷ b's' ∷ b'%' ∷ [])
      (int 42 ∷ text (some (b'o' ∷ b'k' ∷ [])) ∷ [])
    ≡ ok (b'4' ∷ b'2' ∷ b' ' ∷ b'o' ∷ b'k' ∷ [])
unfolding printf directive int_arg text_arg print_int print_digits digit
print_two = refl

abbrev pub context : ThreadContext
context = record { ra = 1; satp = 2; s = λ i. 3; ic = record { x = λ i. 4; sstatus = 5; sepc = 6 } }

push_context_to_stack-read_example :
    let (ptr, after) = push_context_to_stack context 1000 (λ a. 0) in
    (ptr + 384 ≡ 1000)
    × LaidOut after ptr context
    × ((b : ℕ) → (b < ptr) ⊎ (1000 ≤ b) → after b ≡ 0)
push_context_to_stack-read_example =
    push_context_to_stack-read context 1000 (λ a. 0) (omega arith) (omega arith)

abbrev pub machine : Machine
machine = record { restore = 0x80201000; sstatus = 0; satp = 8; raw = context }

abbrev pub platform : Platform
platform = record {
  heap = 0x80400000;
  layout = record {
    text_start = 0x80200000;
    rodata_start = 0x80210000;
    data_start = 0x80220000;
    bss_start = 0x80230000;
    kernel_end = 0x80c00000;
  };
  machine = machine;
}

-- A heap of 1 MiB.
abbrev kernel : Kernel
kernel = record {
  tree = init_tree (2 ^ 14) (record { size = 0; longest = λ i. 0 });
  memory = record {
    sta = record { node = λ i. 1; first_single = 1; length = 1; start_ppn = 0 };
    bytes = λ a. 0;
  };
}

new_kernel_thread_lem_example :
    Returns
      (λ (thread, k'). Started platform 14 free kernel (fresh_context machine 0x80202000) thread k')
      (new_kernel_thread platform 0x80202000 kernel)
new_kernel_thread_lem_example =
    new_kernel_thread_lem platform 0x80202000 14 free kernel
      (init_tree-IsTree (record { size = 0; longest = λ i. 0 }) 14 (omega arith))
      (HasRoom.here (omega arith)) (omega arith)

abbrev user_heap : Heap
user_heap = record { tree = record { size = 0; longest = λ i. 0 }; bytes = λ a. 0 }

abbrev ended : Run (List ℕ × ℕ)
ended = do (out, code, _) ← start missing_main 0x20000 user_heap; ok (out, code)

-- A program without a main says so and ends with code 1.
ends_at_once :
    ended ≡ ok (b'p' ∷ b'a' ∷ b'n' ∷ b'i' ∷ b'c' ∷ b':' ∷ b' ' ∷ no_main ++ b'\n' ∷ [], 1)
unfolding start missing_main user_panic panic_text printf jokerix.UserHeap.user_init_heap
    jokerix.Heap.buddy_init
ends_at_once = refl
