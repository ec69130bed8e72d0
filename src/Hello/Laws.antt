-- ===== src/Hello/Laws.antt =====
-- What user/hello.c and user/hello2.c do from their entry on.
use jokerix.Base.{
  ℕ, zero, suc, ◌+◌, ◌^◌, ◌≤◌, ◌<◌, ◌≡◌, refl, ◌∙◌, ◌⊎◌, inl, inr, arith, ◌==◌, List, [], ◌++◌,
  Bool-cases, update,
}
use jokerix.Base.Run.{ok, Returns, returns, Returns-bind}
use jokerix.Print.Format.{printf}
use jokerix.Heap.{Heap, fix_size}
use jokerix.Heap.Block.{free, HasRoom}
use jokerix.Heap.Live.{Taken-bound}
use jokerix.UserIo.{user_printf}
use jokerix.UserHeap.{user_heap_size, user_block_count}
use jokerix.UserHeap.Laws.{user_init_heap-IsTree, malloc_gives}
use jokerix.Hello.{
  number_bytes, print_lines, main_of, hello_line, hello2_line, hello_main, hello2_main, start,
}

number_bytes-apart :
    (n i c : ℕ) (bytes : ℕ → ℕ) (b : ℕ)
    → (b < c + i) ⊎ (c + i + n ≤ b)
    → number_bytes n i c bytes b ≡ bytes b
unfolding number_bytes
number_bytes-apart zero i c bytes b out = refl
number_bytes-apart (suc n) i c bytes b out =
    number_bytes-apart n (i + 1) c (update bytes (c + i) i) b (ground arith) ∙ ground arith

number_bytes_at :
    (n i c : ℕ) (bytes : ℕ → ℕ) (k : ℕ) → i ≤ k → k < i + n → number_bytes n i c bytes (c + k) ≡ k
unfolding number_bytes
number_bytes_at zero i c bytes k le lt = absurd (omega arith)
number_bytes_at (suc n) i c bytes k le lt = elim (Bool-cases (i == k)) [
  | inl here ↦
      number_bytes-apart n (i + 1) c (update bytes (c + i) i) (c + k) (inl (ground arith))
      ∙ ground arith
  | inr later ↦ number_bytes_at n (i + 1) c (update bytes (c + i) i) k (ground arith) (omega arith)
]

-- A line `n` times.
abbrev pub times : ℕ → List ℕ → List ℕ
times zero line = []
times (suc n) line = line ++ times n line

print_lines-times :
    (n : ℕ) (line : List ℕ) → user_printf line [] ≡ ok line → print_lines n line ≡ ok (times n line)
unfolding print_lines
print_lines-times zero line plain = refl
print_lines-times (suc n) line plain = rw (plain, print_lines-times n line plain)

hello_plain : user_printf hello_line [] ≡ ok hello_line
unfolding user_printf printf
hello_plain = refl

hello2_plain : user_printf hello2_line [] ≡ ok hello2_line
unfolding user_printf printf
hello2_plain = refl

-- How the programs end: ten lines are written, the code is 0, and eight bytes of the heap count up.
pub record Ran (line : List ℕ) (base : ℕ) (h : Heap) (out : List ℕ) (code : ℕ) (h' : Heap)
    : Type 0 where
  pub written : out ≡ times 10 line
  pub ended : code ≡ 0
  pub c : ℕ
  pub in_heap : (base ≤ c) × (c + 8 ≤ base + user_heap_size)
  pub counted : (k : ℕ) → k < 8 → h'.bytes (c + k) ≡ k
  pub kept : (a : ℕ) → (a < base) ⊎ (base + user_heap_size ≤ a) → h'.bytes a ≡ h.bytes a

one_block : fix_size (user_block_count 8) ≡ 2 ^ 0
unfolding user_block_count fix_size
one_block = refl

few_blocks : user_block_count 8 ≤ 2 ^ 31
unfolding user_block_count
few_blocks = omega arith

-- From its entry on, a program of this kind ends so, wherever its heap stands and whatever its
-- memory holds.
start-Ran :
    (line : List ℕ) (base : ℕ) (h : Heap)
    → user_printf line [] ≡ ok line
    → Returns (λ (out, code, h'). Ran line base h out code h') (start (main_of line) base h)
unfolding start main_of
start-Ran line base h plain = Returns-bind (user_init_heap-IsTree h.tree) λ tree one_free.
    Returns-bind
      (malloc_gives base 7 0 8 free (record h { tree = tree }) one_free (omega arith) few_blocks
        one_block (HasRoom.here (omega arith)))
      λ (c, h') g.
        let low : g.offset + 2 ^ 0 ≤ 2 ^ 7 = Taken-bound g.taken in
        let at = g.at in
        rw (print_lines-times 10 line plain) (
          returns (record {
            written = refl;
            ended = refl;
            c = c;
            in_heap = (omega arith, omega arith);
            counted = λ k lt. number_bytes_at 8 0 c h'.bytes k (omega arith) (omega arith);
            kept = λ a out.
                number_bytes-apart 8 0 c h'.bytes a (ground arith) ∙ g.kept a (λ p q. ground arith);
          }))

-- Both programs, wherever their heap stands and whatever their memory holds: they write their line
-- ten times, put 0 to 7 into eight bytes of their heap, change nothing outside of it, and end with
-- code 0.
pub hello-Ran :
    (base : ℕ) (h : Heap)
    → Returns (λ (out, code, h'). Ran hello_line base h out code h') (start hello_main base h)
      × Returns (λ (out, code, h'). Ran hello2_line base h out code h') (start hello2_main base h)
unfolding hello_main hello2_main
hello-Ran base h =
    (start-Ran hello_line base h hello_plain, start-Ran hello2_line base h hello2_plain)
