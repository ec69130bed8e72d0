-- ===== src/Frame/Memory/Laws.antt =====
-- The frames of kernel/memory.c: a frame is a cleared page that nobody else holds.
use jokerix.Base.{ℕ, ◌+◌, ◌-◌, ◌*◌, ◌/◌, ◌%◌, ◌^◌, ◌≤◌, ◌<◌, ◌≡◌, refl, ◌⊎◌, ◌↔◌, arith}
use jokerix.Base.Words.{add64, sub64}
use jokerix.Base.Run.{Returns, returns, Returns-bind, Returns-map}
use jokerix.Frame.Init.{fill_lem, new_allocator_frees}
use jokerix.Frame.Pages.{IsValid, IsManaged, IsFree, Marked, alloc_takes, dealloc_frees, leaf}
use jokerix.Frame.Memory.{
  Memory, page_size, access_va_via_pa, kernel_begin_vaddr, kernel_begin_paddr, alloc_frame,
  dealloc_frame, init_frame_allocator,
}

-- `addr` is the address of a page that was free in `m`; `m'` is `m` with this page taken and its
-- bytes cleared.
pub record Framed (m : Memory) (addr : ℕ) (m' : Memory) : Type 0 where
  pub aligned : addr % page_size ≡ 0
  pub managed : IsManaged m.sta (addr / page_size)
  pub free : IsFree m.sta (addr / page_size)
  pub marked : Marked m.sta (addr / page_size) 1 m'.sta
  pub cleared : (i : ℕ) → i < page_size → m'.bytes (access_va_via_pa addr + i) ≡ 0
  pub kept :
      (a : ℕ)
      → (a < access_va_via_pa addr) ⊎ (access_va_via_pa addr + page_size ≤ a)
      → m'.bytes a ≡ m.bytes a

-- While some managed page is free, `alloc_frame` returns the address of a free managed page, with
-- all of its bytes cleared, no other byte changed and no other page taken.
pub alloc_frame_clears :
    (m : Memory) (f : ℕ)
    → IsValid m.sta
    → IsManaged m.sta f
    → IsFree m.sta f
    → Returns (λ (addr, m'). Framed m addr m') (alloc_frame m)
unfolding alloc_frame
alloc_frame_clears m f w mf e = Returns-bind (alloc_takes m.sta w f mf e) λ (ppn, sta) (mq, fq, k).
    let whole : (ppn * 2 ^ 12) % 2 ^ 64 ≡ ppn * page_size = omega (arith, mq, w.wide, w.fits) in
    let number : ppn * page_size / page_size ≡ ppn = omega arith in
    let at = fill_lem page_size (access_va_via_pa (ppn * page_size)) 0 m.bytes in
    rw whole (
      returns (record {
        aligned = omega arith;
        managed = rw number mq;
        free = rw number fq;
        marked = rw number k;
        cleared = λ i h. ground (arith, at (access_va_via_pa (ppn * page_size) + i));
        kept = λ a out. ground (arith, at a);
      }))

-- In a valid tree a managed frame that is taken and given back by an address in it is free
-- again; no other page and no byte changes.
dealloc_frame_frees :
    (m : Memory) (addr : ℕ)
    → IsValid m.sta
    → IsManaged m.sta (addr / page_size)
    → m.sta.node (leaf m.sta (addr / page_size)) ≡ 1
    → Returns
        (λ m'. Marked m.sta (addr / page_size) 0 m'.sta × (m'.bytes ≡ m.bytes))
        (dealloc_frame m addr)
unfolding dealloc_frame
dealloc_frame_frees m addr w mq e =
    Returns-bind (dealloc_frees m.sta w (addr / page_size) mq e) λ sta k. returns (k, refl)

-- At start-up the pages that can be handed out are those behind the page in which the address
-- kernel_end lies, without the last one of the memory; all of them are free. So where the image of
-- the kernel ends with a page, the page that starts at kernel_end is not handed out.
pub init_frame_allocator_frees :
    (old : ℕ → ℕ) (kernel_end : ℕ)
    → kernel_begin_vaddr ≤ kernel_end
    → kernel_end < 0xffffffff87fff000
    → Returns
        (λ s.
          IsValid s
          × ((q : ℕ)
              → IsManaged s q ↔ ((kernel_end - 0xffffffff00000000) / page_size < q) × (q < 0x87fff))
          × ((q : ℕ) → IsManaged s q → IsFree s q))
        (init_frame_allocator old kernel_end)
unfolding init_frame_allocator
init_frame_allocator_frees old kernel_end low high =
    let first = (kernel_end - 0xffffffff00000000) / page_size + 1 in
    let start : add64 (add64 (sub64 kernel_end kernel_begin_vaddr) kernel_begin_paddr / 2 ^ 12) 1
        ≡ first =
      omega arith in
    rw start (
      Returns-map
        (new_allocator_frees old first 0x88000 (omega arith) (omega arith) (omega arith)
          (omega arith))
        λ s r. (r.0, λ q. (λ m. omega (arith, (r.1 q).0 m), λ h. (r.1 q).1 (omega arith)), r.2))
