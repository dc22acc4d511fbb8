-- ===== src/Heap.antt =====
-- src/kernel/memory.c: arenas and their blocks, `sys_malloc` and `sys_free`.
-- A block is its address. The fields of the arenas and the links of the free blocks are tables of
-- their own beside the words of `Memory`; `memset` clears the words and the links. A descriptor is
-- named by its index in the array that the running thread uses. `fuel` bounds the walks of
-- `elem_find`. Everything runs under the lock of the pool.
pub mod SizeClass
pub mod Allocate
mod Tests
use tros.Prelude.{
  ℕ, zero, suc, ◌+◌, ◌-◌, ◌*◌, ◌/◌, ◌%◌, ◌^◌, Bool, true, false, not, ◌&&◌, ◌||◌, Option, none,
  some, List, [], ◌∷◌, ltb, leb, ◌==◌, if◌then◌else◌, add32, sub32, get_elem?, Run, ok, panic,
  ◌>>=◌, ◌>>◌, assert,
}
use tros.LinkList.{
  Ptr, Links, Ends, null, list_append, list_remove, list_pop, list_empty, elem_find,
}
use tros.Memory.{pg_size, Pool, PoolFlags, pf_kernel, pf_user, Memory, pool_of, clear, malloc_page}
use tros.Memory.Release.{mfree_page}
use tros.Memory.Setup.{arena_size}

-- `struct mem_block_desc`
pub record MemBlockDesc : Type 0 where
  pub block_size : ℕ
  pub blocks_per_arena : ℕ
  pub free_list : Ends

-- `struct arena`; `desc` is the index of the descriptor, and `none` is NULL.
pub record Arena : Type 0 where
  pub desc : Option ℕ
  pub cnt : ℕ
  pub large : Bool

pub record Heap : Type 0 where
  pub memory : Memory
  pub links : Links
  pub arenas : ℕ → Arena
  pub k_block_descs : List MemBlockDesc
  pub u_block_desc : List MemBlockDesc

abbrev pub put_arena : Heap → (addr : ℕ) → Arena → Heap
put_arena h addr a = record h { arenas = λ p. if addr == p then a else h.arenas p }

-- `memset(addr, 0, size)`
abbrev pub clear_block : Heap → (addr size : ℕ) → Heap
clear_block h addr size = record h {
  memory = clear h.memory addr size;
  links = record {
    prev = λ p. if leb addr p && ltb p (addr + size) then null else h.links.prev p;
    next = λ p. if leb addr p && ltb p (addr + size) then null else h.links.next p;
  };
}

-- The pool and the descriptors that the running thread uses.
abbrev pub flags_of : Heap → PoolFlags
flags_of h = if h.memory.has_pgdir then pf_user else pf_kernel

abbrev pub descs_of : Heap → List MemBlockDesc
descs_of h = if h.memory.has_pgdir then h.u_block_desc else h.k_block_descs

abbrev pub arena2block : (a idx block_size : ℕ) → Ptr
arena2block a idx block_size = add32 (a + arena_size) (idx * block_size)

abbrev pub block2arena : Ptr → ℕ
block2arena b = b / 2 ^ 12 * 2 ^ 12

-- The loop over the descriptors, from one index on: the first whose blocks hold `size` bytes.
unfoldable pub match_desc : List MemBlockDesc → (size desc_idx : ℕ) → ℕ
match_desc [] size desc_idx = desc_idx
match_desc (d ∷ ds) size desc_idx =
    let rest = match_desc ds size (desc_idx + 1) in if leb size d.block_size then desc_idx else rest

-- The branch of `sys_malloc` for more than 1024 bytes.
unfoldable pub malloc_large : Heap → (size : ℕ) → Run (ℕ × Heap)
malloc_large h size = do
  let page_cnt = (size + arena_size + (pg_size - 1)) % 2 ^ 32 / pg_size
  r ← malloc_page h.memory (flags_of h) page_cnt
  let h1 = record h { memory = r.1 }
  if r.0 == 0 then ok (0, h1) else (do
    let h2 = clear_block h1 r.0 (page_cnt * pg_size)
    ok (r.0 + arena_size, put_arena h2 r.0 (record { desc = none; cnt = page_cnt; large = true })))

-- The loop that puts the blocks of a new arena into the free list.
unfoldable pub split_loop : (fuel left : ℕ) → Links → MemBlockDesc → (a block_idx : ℕ) → Run Links
split_loop fuel zero m d a block_idx = ok m
split_loop fuel (suc left) m d a block_idx = do
  let b = arena2block a block_idx d.block_size
  found ← elem_find fuel m d.free_list b
  assert (not found)
  split_loop fuel left (list_append m d.free_list b) d a (block_idx + 1)

-- A new arena for the free list, if it is empty; false if there is no page for it.
unfoldable pub refill : (fuel : ℕ) → Heap → MemBlockDesc → (desc_idx : ℕ) → Run (Bool × Heap)
unfolding split_loop
refill fuel h d desc_idx =
    if list_empty h.links d.free_list
    then (do
      r ← malloc_page h.memory (flags_of h) 1
      let h1 = record h { memory = r.1 }
      if r.0 == 0 then ok (false, h1) else (do
        let h2 = clear_block h1 r.0 pg_size
        let h3 =
            put_arena h2 r.0
              (record { desc = some desc_idx; cnt = d.blocks_per_arena; large = false })
        m ← split_loop fuel d.blocks_per_arena h3.links d r.0 0
        ok (true, record h3 { links = m })))
    else ok (true, h)

-- The first block of the free list.
unfoldable pub take_block : Heap → MemBlockDesc → ℕ × Heap
take_block h d =
    let popped = list_pop h.links d.free_list in
    let b = popped.0 in
    let h1 = clear_block (record h { links = popped.1 }) b d.block_size in
    let a = h1.arenas (block2arena b) in
    (b, put_arena h1 (block2arena b) (record a { cnt = sub32 a.cnt 1 }))

-- The branch of `sys_malloc` for up to 1024 bytes. C has no test that the index is one of the array.
unfoldable pub malloc_small :
    (fuel : ℕ) → Heap → Option MemBlockDesc → (desc_idx : ℕ) → Run (ℕ × Heap)
unfolding refill take_block
malloc_small fuel h none desc_idx = panic
malloc_small fuel h (some d) desc_idx = do
  r ← refill fuel h d desc_idx
  ok (if r.0 then take_block r.1 d else (0, r.1))

unfoldable pub sys_malloc : (fuel : ℕ) → Heap → (size : ℕ) → Run (ℕ × Heap)
unfolding match_desc malloc_large malloc_small
sys_malloc fuel h size =
    let pool_size = (pool_of h.memory (flags_of h)).pool_size in
    let desc_idx = match_desc (descs_of h) size 0 in
    if not (ltb 0 size && ltb size pool_size)
    then ok (0, h)
    else if ltb 1024 size
    then malloc_large h size
    else malloc_small fuel h (get_elem? (descs_of h) desc_idx) desc_idx

-- The loop that takes the blocks of an arena out of the free list.
unfoldable pub unsplit_loop : (fuel left : ℕ) → Links → MemBlockDesc → (a block_idx : ℕ) → Run Links
unsplit_loop fuel zero m d a block_idx = ok m
unsplit_loop fuel (suc left) m d a block_idx = do
  let b = arena2block a block_idx d.block_size
  found ← elem_find fuel m d.free_list b
  assert found
  unsplit_loop fuel left (list_remove m b) d a (block_idx + 1)

-- The branch of `sys_free` for a block of an arena.
unfoldable pub free_small : (fuel : ℕ) → Heap → Option MemBlockDesc → (ptr : ℕ) → Run Heap
unfolding unsplit_loop
free_small fuel h none ptr = panic
free_small fuel h (some d) ptr = do
  let a = h.arenas (block2arena ptr)
  let cnt = add32 a.cnt 1
  let h1 = record h { links = list_append h.links d.free_list ptr }
  let h2 = put_arena h1 (block2arena ptr) (record a { cnt = cnt })
  if cnt == d.blocks_per_arena
      then (do
        m ← unsplit_loop fuel d.blocks_per_arena h2.links d (block2arena ptr) 0
        memory ← mfree_page h2.memory (flags_of h2) (block2arena ptr) 1
        ok (record h2 { links = m; memory = memory }))
      else ok h2

abbrev pub desc_at : List MemBlockDesc → Option ℕ → Option MemBlockDesc
desc_at ds none = none
desc_at ds (some i) = get_elem? ds i

abbrev pub is_null : Option ℕ → Bool
is_null none = true
is_null (some i) = false

unfoldable pub sys_free : (fuel : ℕ) → Heap → (ptr : ℕ) → Run Heap
unfolding free_small
sys_free fuel h ptr =
    let a = h.arenas (block2arena ptr) in
    if ptr == 0 then ok h else (do
      assert (h.memory.has_pgdir || leb 0xc0100000 ptr)
      if is_null a.desc && a.large
          then (do
            memory ← mfree_page h.memory (flags_of h) (block2arena ptr) a.cnt
            ok (record h { memory = memory }))
          else free_small fuel h (desc_at (descs_of h) a.desc) ptr)

-- `running_thread()->pgdir = NULL` round the call.
abbrev pub as_kernel : Heap → Heap
as_kernel h = record h { memory = record h.memory { has_pgdir = false } }

abbrev pub with_pgdir : Bool → Heap → Heap
with_pgdir b h = record h { memory = record h.memory { has_pgdir = b } }

pub sys_malloc_kernel : (fuel : ℕ) → Heap → (size : ℕ) → Run (ℕ × Heap)
unfolding sys_malloc
sys_malloc_kernel fuel h size = do
  r ← sys_malloc fuel (as_kernel h) size
  ok (r.0, with_pgdir h.memory.has_pgdir r.1)

pub sys_free_kernel : (fuel : ℕ) → Heap → (ptr : ℕ) → Run Heap
unfolding sys_free
sys_free_kernel fuel h ptr = do
  h' ← sys_free fuel (as_kernel h) ptr
  ok (with_pgdir h.memory.has_pgdir h')
