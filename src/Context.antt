-- ===== src/Context.antt =====
-- kernel/context.h and the functions of kernel/thread.c that lay out the context of a thread on its
-- stack: from there switchContext and the end of an interrupt load the registers.
pub mod Laws
use jokerix.Base.{
  ℕ, zero, suc, ◌+◌, ◌-◌, ◌*◌, ◌^◌, bit_and, bit_or, ltb, ◌==◌, if◌then◌else◌, update,
}
use jokerix.Base.Words.{sub64}
use jokerix.Base.Bytes.{store_words}

pub record InterruptContext : Type 0 where
  pub x : ℕ → ℕ
  pub sstatus : ℕ
  pub sepc : ℕ

pub record ThreadContext : Type 0 where
  pub ra : ℕ
  pub satp : ℕ
  pub s : ℕ → ℕ
  pub ic : InterruptContext

-- sizeof(ThreadContext): 48 words of 8 bytes.
abbrev pub context_size : ℕ
context_size = 384

-- The words of a `ThreadContext` in its layout: ra, satp, s[12], x[32], sstatus, sepc.
unfoldable pub context_word : ThreadContext → ℕ → ℕ
context_word c i =
    if i == 0
    then c.ra
    else if i == 1
    then c.satp
    else if ltb i 14
    then c.s (i - 2)
    else if ltb i 46
    then c.ic.x (i - 14)
    else if i == 46
    then c.ic.sstatus
    else c.ic.sepc

-- The address of the context, and the memory.
unfoldable pub push_context_to_stack : ThreadContext → ℕ → (ℕ → ℕ) → ℕ × (ℕ → ℕ)
push_context_to_stack self stack_top bytes =
    let ptr = sub64 stack_top context_size in (ptr, store_words 8 48 (context_word self) ptr bytes)

abbrev pub sstatus_spp : ℕ
sstatus_spp = 2 ^ 8

abbrev pub sstatus_spie : ℕ
sstatus_spie = 2 ^ 5

abbrev pub sstatus_sie : ℕ
sstatus_sie = 2 ^ 1

-- `sstatus & ~bit`
abbrev pub without : ℕ → ℕ → ℕ
without sstatus bit = bit_and sstatus (2 ^ 64 - 1 - bit)

-- What a new thread's context depends on besides the arguments: the address of __restore, the
-- registers sstatus and satp, and what the two local variables hold that the code sets in part.
pub record Machine : Type 0 where
  pub restore : ℕ
  pub sstatus : ℕ
  pub satp : ℕ
  pub raw : ThreadContext

-- The context of a kernel thread.
unfoldable pub kernel_context : Machine → ℕ → ℕ → ℕ → ThreadContext
kernel_context mach entry kernel_stack_top satp = record {
  ra = mach.restore;
  satp = satp;
  s = mach.raw.s;
  ic = record {
    x = update mach.raw.ic.x 2 kernel_stack_top;
    sstatus = without (bit_or (bit_or mach.sstatus sstatus_spp) sstatus_spie) sstatus_sie;
    sepc = entry;
  };
}

unfoldable pub new_kernel_thread_context : Machine → ℕ → ℕ → ℕ → (ℕ → ℕ) → ℕ × (ℕ → ℕ)
new_kernel_thread_context mach entry kernel_stack_top satp bytes =
    push_context_to_stack (kernel_context mach entry kernel_stack_top satp) kernel_stack_top bytes

-- The context of a user thread.
unfoldable pub user_context : Machine → ℕ → ℕ → ℕ → ThreadContext
user_context mach entry ustack_top satp = record {
  ra = mach.restore;
  satp = satp;
  s = mach.raw.s;
  ic = record {
    x = update mach.raw.ic.x 2 ustack_top;
    sstatus = without (bit_or (without mach.sstatus sstatus_spp) sstatus_spie) sstatus_sie;
    sepc = entry;
  };
}

unfoldable pub new_user_thread_context : Machine → ℕ → ℕ → ℕ → ℕ → (ℕ → ℕ) → ℕ × (ℕ → ℕ)
new_user_thread_context mach entry ustack_top kstack_top satp bytes =
    push_context_to_stack (user_context mach entry ustack_top satp) kstack_top bytes

-- appendArguments: the registers x10 to x17 in the context at an address.
unfoldable pub append_arguments : ℕ → (ℕ → ℕ) → (ℕ → ℕ) → ℕ → ℕ
append_arguments context_addr args bytes = store_words 8 8 args (context_addr + 8 * 24) bytes
