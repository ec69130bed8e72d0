-- ===== src/Context/Laws.antt =====
-- The context that a new thread finds on its stack (kernel/thread.c) is the one that was built for
-- it.
use jokerix.Base.{
  ℕ, ◌+◌, ◌-◌, ◌*◌, ◌^◌, ◌≤◌, ◌<◌, ◌≡◌, refl, ◌∙◌, ◌⊎◌, inl, inr, arith, ltb, leb, ◌&&◌,
  if◌then◌else◌, Bool-cases,
}
use jokerix.Base.Words.{sub64}
use jokerix.Base.Bytes.{
  load_bytes, store_words, store_words-apart, store_words-keeps, store_words-read,
}
use jokerix.Context.{
  ThreadContext, context_word, context_size, push_context_to_stack, append_arguments,
}

-- Where the fields of a context stand: ra at 0, satp at 8, s from 16 on, the registers x from 112 on,
-- sstatus at 368 and sepc at 376. A field that fits into a register is read there.
pub record LaidOut (bytes : ℕ → ℕ) (ptr : ℕ) (c : ThreadContext) : Type 0 where
  pub ra : c.ra < 2 ^ 64 → load_bytes 8 bytes ptr ≡ c.ra
  pub satp : c.satp < 2 ^ 64 → load_bytes 8 bytes (ptr + 8) ≡ c.satp
  pub s : (i : ℕ) → i < 12 → c.s i < 2 ^ 64 → load_bytes 8 bytes (ptr + 16 + i * 8) ≡ c.s i
  pub x : (i : ℕ) → i < 32 → c.ic.x i < 2 ^ 64 → load_bytes 8 bytes (ptr + 112 + i * 8) ≡ c.ic.x i
  pub sstatus : c.ic.sstatus < 2 ^ 64 → load_bytes 8 bytes (ptr + 368) ≡ c.ic.sstatus
  pub sepc : c.ic.sepc < 2 ^ 64 → load_bytes 8 bytes (ptr + 376) ≡ c.ic.sepc

-- One word of what is stored.
word_at :
    (c : ThreadContext) (ptr i at v : ℕ) (bytes : ℕ → ℕ)
    → i < 48
    → at ≡ ptr + i * 8
    → context_word c i ≡ v
    → v < 2 ^ 64
    → load_bytes 8 (store_words 8 48 (context_word c) ptr bytes) at ≡ v
word_at c ptr i at v bytes lt e word fits =
    rw e (store_words-read 8 48 (context_word c) ptr bytes i lt (rw word fits) ∙ word)

stored-LaidOut :
    (c : ThreadContext) (ptr : ℕ) (bytes : ℕ → ℕ)
    → LaidOut (store_words 8 48 (context_word c) ptr bytes) ptr c
unfolding context_word
stored-LaidOut c ptr bytes = record {
  ra = λ fits. word_at c ptr 0 ptr c.ra bytes (omega arith) (omega arith) refl fits;
  satp = λ fits. word_at c ptr 1 (ptr + 8) c.satp bytes (omega arith) (omega arith) refl fits;
  s = λ i lt fits.
      word_at c ptr (i + 2) (ptr + 16 + i * 8) (c.s i) bytes (omega arith) (omega arith)
        (ground arith) fits;
  x = λ i lt fits.
      word_at c ptr (i + 14) (ptr + 112 + i * 8) (c.ic.x i) bytes (omega arith) (omega arith)
        (ground arith) fits;
  sstatus =
      λ fits. word_at c ptr 46 (ptr + 368) c.ic.sstatus bytes (omega arith) (omega arith) refl fits;
  sepc = λ fits. word_at c ptr 47 (ptr + 376) c.ic.sepc bytes (omega arith) (omega arith) refl fits;
}

-- The context is laid out in the 384 bytes below the top of the stack, each field at its place, and
-- no other byte changes.
pub push_context_to_stack-read :
    (self : ThreadContext) (stack_top : ℕ) (bytes : ℕ → ℕ)
    → context_size ≤ stack_top
    → stack_top < 2 ^ 64
    → let (ptr, after) = push_context_to_stack self stack_top bytes in
      (ptr + 384 ≡ stack_top)
      × LaidOut after ptr self
      × ((b : ℕ) → (b < ptr) ⊎ (stack_top ≤ b) → after b ≡ bytes b)
unfolding push_context_to_stack
push_context_to_stack-read self stack_top bytes room wide =
    let at : sub64 stack_top context_size ≡ stack_top - context_size = omega arith in
    rw at (
      omega arith,
      stored-LaidOut self (stack_top - context_size) bytes,
      λ b out.
          store_words-apart 8 48 (context_word self) (stack_top - context_size) bytes b
            (ground arith),
    )

-- appendArguments sets the words of x10 to x17 in the context at an address, if they fit into
-- registers, and keeps the other words.
append_arguments_lem :
    (ptr : ℕ) (args bytes : ℕ → ℕ) (i : ℕ)
    → ((j : ℕ) → j < 8 → args j < 2 ^ 64)
    → load_bytes 8 (append_arguments ptr args bytes) (ptr + i * 8)
      ≡ (if leb 24 i && ltb i 32 then args (i - 24) else load_bytes 8 bytes (ptr + i * 8))
unfolding append_arguments
append_arguments_lem ptr args bytes i fits = elim (Bool-cases (leb 24 i && ltb i 32)) [
  | inl inside ↦
      let at : ptr + i * 8 ≡ ptr + 8 * 24 + (i - 24) * 8 = ground arith in
      rw (inside, at)
        (store_words-read 8 8 args (ptr + 8 * 24) bytes (i - 24) (ground arith)
          (fits (i - 24) (ground arith)))
  | inr outside ↦
      rw outside (store_words-keeps 8 8 args (ptr + 8 * 24) bytes (ptr + i * 8) (ground arith))
]
