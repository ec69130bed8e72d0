-- ===== src/Trap/Exec.antt =====
-- sysExec of kernel/syscall.c for a command that the file system does not have.
use jokerix.Base.{
  ℕ, zero, suc, ◌+◌, ◌<◌, ◌≡◌, ◌≢◌, refl, ap, ◌∙◌, arith, false, none, List, [], ◌∷◌, ◌++◌, ◌==◌,
}
use jokerix.Base.Lists.{length}
use jokerix.Base.Run.{ok, Returns, returns}
use jokerix.Base.Words.{add64}
use jokerix.Context.{InterruptContext}
use jokerix.Create.{execute_cpu}
use jokerix.Fs.{root_inode, lookup}
use jokerix.Fs.Names.{IsNamed}
use jokerix.Fs.Path.{join, AllNames, resolve, lookup-absolute}
use jokerix.Trap.Syscall.{
  Setting, System, Event, returned, sys_exec_id, current_addr, not_found, user_string, sys_exec,
  syscall, handle_syscall,
}
use jokerix.Trap.{called, user_env_call, handle_interrupt}

-- From an address on, the bytes of the process are the chars, which are not 0, and then 0.
abbrev pub Spells : (ℕ → ℕ) → (ℕ → ℕ) → ℕ → List ℕ → Type 0
Spells addr bytes va [] = bytes (addr va) ≡ 0
Spells addr bytes va (c ∷ cs) = (bytes (addr va) ≡ c) × (c ≢ 0) × Spells addr bytes (va + 1) cs

user_string-Spells :
    (fuel : ℕ) (addr bytes : ℕ → ℕ) (va : ℕ) (cs : List ℕ)
    → Spells addr bytes va cs
    → length cs < fuel
    → user_string fuel addr bytes va ≡ ok cs
unfolding user_string
user_string-Spells zero addr bytes va cs s enough = absurd (omega arith)
user_string-Spells (suc fuel) addr bytes va [] s enough = rw s refl
user_string-Spells (suc fuel) addr bytes va (c ∷ cs) s enough =
    let some_char : (c == 0) ≡ false = ground (arith, s.1) in
    rw (s.0, user_string-Spells fuel addr bytes (va + 1) cs s.2 (omega (arith, enough)), some_char)
      refl

module _ (e : Setting) where
  -- If the fuel is enough for the string and its names: a program that has a path from the root
  -- executed, where the names of the path lead to no file, gets 0, and only the message on the console
  -- is new.
  pub handle_interrupt-missing :
      (event : Event) (context : InterruptContext) (s : System e) (name : ℕ → List ℕ)
      (path : List (List ℕ))
      → context.x 17 ≡ sys_exec_id
      → Spells (current_addr e s) s.store.heap.bytes (context.x 10) (b'/' ∷ join path)
      → length (b'/' ∷ join path) < e.path_fuel
      → IsNamed e.image name
      → AllNames path
      → length path < e.path_fuel
      → resolve e.image name (root_inode e.image) path ≡ none
      → Returns
          (λ (outcome, context', s').
            (outcome ≡ called (returned 0))
            × (context'.x 10 ≡ 0)
            × (context'.sepc ≡ add64 context.sepc 4)
            × (s' ≡ record s { console = s.console ++ not_found }))
          (handle_interrupt e event context user_env_call s)
  unfolding handle_interrupt handle_syscall syscall sys_exec execute_cpu
  handle_interrupt-missing event context s name path id spells long named names deep missing =
      let read =
        user_string-Spells e.path_fuel (current_addr e s) s.store.heap.bytes (context.x 10)
          (b'/' ∷ join path) spells long in
      let nothing : lookup e.path_fuel e.image none (b'/' ∷ join path) ≡ ok none =
        lookup-absolute e.path_fuel e.image name none path named names deep ∙ ap ok missing in
      rw (id, read, nothing) (returns (refl, refl, refl, refl))
