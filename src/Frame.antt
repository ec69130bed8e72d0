-- ===== src/Frame.antt =====
-- kernel/memory.c: the frame allocator over the segment tree `sta`.
pub mod Init
pub mod Memory
pub mod Pages
pub mod Tree
use jokerix.Base.{
  ℕ, zero, suc, ◌+◌, ◌-◌, ◌*◌, ◌/◌, ◌%◌, ◌^◌, bit_and, ltb, leb, ◌==◌, if◌then◌else◌, update,
}
use jokerix.Base.Run.{Run, ok, panic, fault, out_of_fuel, ◌>>=◌}
use jokerix.Base.Words.{add64, sub64}

-- MAX_PHYSICAL_PAGES << 1, the length of `sta.node`.
abbrev pub node_count : ℕ
node_count = 0x10000

-- `sta`. A node is 1 where every page below it is taken.
pub record Sta : Type 0 where
  pub node : ℕ → ℕ
  pub first_single : ℕ
  pub length : ℕ
  pub start_ppn : ℕ

-- `while(firstSingle < length + 2) firstSingle <<= 1`, on fuel: after 64 rounds a 64-bit word is 0
-- and stays so.
pub tree_size : ℕ → ℕ → ℕ → Run ℕ
tree_size zero bound size = out_of_fuel
tree_size (suc fuel) bound size =
    let wider = tree_size fuel bound ((size * 2) % 2 ^ 64) in
    if ltb size bound then wider else ok size

-- `for(i = first; i < first + count; i ++) node[i] = v`
pub fill : ℕ → ℕ → ℕ → (ℕ → ℕ) → ℕ → ℕ
fill zero first v node = node
fill (suc count) first v node = fill count (first + 1) v (update node first v)

-- What every inner node is set to: `node[i << 1] & node[(i << 1) | 1]`.
abbrev pub both : (ℕ → ℕ) → ℕ → ℕ
both node i = bit_and (node (i * 2)) (node (i * 2 + 1))

-- `for(i = n; i >= 1; i --) node[i] = node[i << 1] & node[(i << 1) | 1]`
pub build : ℕ → (ℕ → ℕ) → ℕ → ℕ
build zero node = node
build (suc n) node = build n (update node (suc n) (both node (suc n)))

-- newAllocator. The array of nodes keeps what it held outside the tree. A tree that outgrows
-- `sta.node` is written past its end.
unfoldable pub new_allocator : (ℕ → ℕ) → ℕ → ℕ → Run Sta
unfolding tree_size fill build
new_allocator old start end = do
  let length = sub64 end start
  size ← tree_size 65 (add64 length 2) 1
  let node = fill (length - 1) (size + 1) 0 (fill (size * 2 - 1) 1 1 old)
  if ltb node_count (size * 2)
      then fault
      else ok (record {
        node = build (size - 1) node;
        first_single = size;
        length = length;
        start_ppn = sub64 start 1;
      })

-- `while(p < firstSingle)` of alloc: to the left child if it is not full, else to the right.
pub descend : ℕ → ℕ → (ℕ → ℕ) → ℕ → Run ℕ
descend zero size node p = out_of_fuel
descend (suc fuel) size node p =
    let below = descend fuel size node (if node (p * 2) == 0 then p * 2 else p * 2 + 1) in
    if ltb p size then below else ok p

-- `while(p > 0)` of alloc and dealloc: recomputes the nodes from `p` to the root.
pub ascend : ℕ → (ℕ → ℕ) → ℕ → Run (ℕ → ℕ)
ascend zero node p = out_of_fuel
ascend (suc fuel) node p =
    let above = ascend fuel (update node p (both node p)) (p / 2) in
    if ltb 0 p then above else ok node

-- `node[p] = v; p >>= 1; while(p > 0) …`
pub mark : ℕ → Sta → ℕ → Run Sta
unfolding ascend
mark v s p = do node ← ascend (p + 1) (update s.node p v) (p / 2); ok (record s { node = node })

-- alloc: the page number and the new tree.
unfoldable pub alloc : Sta → Run (ℕ × Sta)
unfolding descend mark
alloc s = if s.node 1 == 1 then panic else do
  p ← descend (s.first_single + 1) s.first_single s.node 1
  s' ← mark 1 s p
  ok (add64 (sub64 p s.first_single) s.start_ppn, s')

-- dealloc. A page that is not marked as taken is only reported on the console.
unfoldable pub dealloc : Sta → ℕ → Run Sta
unfolding mark
dealloc s ppn =
    let p = add64 (sub64 ppn s.start_ppn) s.first_single in
    if leb node_count p then fault else if s.node p == 1 then mark 0 s p else ok s
