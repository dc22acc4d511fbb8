-- ===== src/Memory/Setup.antt =====
-- src/kernel/memory.c: `mem_pool_init` and `block_desc_init`, as the numbers that they compute.
use tros.Prelude.{ℕ, zero, suc, ◌+◌, ◌-◌, ◌*◌, ◌/◌, ◌%◌, ◌^◌, ◌≤◌, List, [], ◌∷◌, arith, sub32}
use tros.Memory.{pg_size}

-- Where `mem_pool_init` puts the pools and their bitmaps.
pub record Layout : Type 0 where
  pub kbm_length : ℕ
  pub ubm_length : ℕ
  pub kp_start : ℕ
  pub up_start : ℕ
  pub kernel_pool_size : ℕ
  pub user_pool_size : ℕ
  pub kernel_bits : ℕ
  pub user_bits : ℕ
  pub vaddr_bits : ℕ

abbrev pub mem_bitmap_base : ℕ
mem_bitmap_base = 0xc009a000

-- `page_table_size + 0x100000`
abbrev pub used_mem : ℕ
used_mem = pg_size * 256 + 0x100000

abbrev pub layout_of : (kernel_free_pages user_free_pages : ℕ) → Layout
layout_of kernel_free_pages user_free_pages = record {
  kbm_length = kernel_free_pages / 8;
  ubm_length = user_free_pages / 8;
  kp_start = used_mem;
  up_start = used_mem + kernel_free_pages * pg_size;
  kernel_pool_size = kernel_free_pages * pg_size;
  user_pool_size = user_free_pages * pg_size;
  kernel_bits = mem_bitmap_base;
  user_bits = mem_bitmap_base + kernel_free_pages / 8;
  vaddr_bits = mem_bitmap_base + (kernel_free_pages / 8 + user_free_pages / 8);
}

-- `all_free_pages` is a `uint16_t`.
pub mem_pool_init : (all_mem : ℕ) → Layout
mem_pool_init all_mem =
    let free_mem = sub32 all_mem used_mem in
    let all_free_pages = free_mem / pg_size % 2 ^ 16 in
    let kernel_free_pages = all_free_pages / 2 in
    layout_of kernel_free_pages (all_free_pages - kernel_free_pages)

-- The pools and the bitmaps of a layout do not overlap, and end in the memory that they may use:
-- the pools below the end of memory, the bitmaps before the stack of the main thread.
pub record Fits (all_mem : ℕ) (l : Layout) : Type 0 where
  pub kernel_frames : l.kp_start + l.kbm_length * 8 * pg_size ≤ l.up_start
  pub user_frames : l.up_start + l.ubm_length * 8 * pg_size ≤ all_mem
  pub kernel_bitmap : l.kernel_bits + l.kbm_length ≤ l.user_bits
  pub user_bitmap : l.user_bits + l.ubm_length ≤ l.vaddr_bits
  pub vaddr_bitmap : l.vaddr_bits + l.kbm_length ≤ 0xc009e000

-- Whatever the size of memory above the 2 MB that are in use, up to 4 GB, the pools that
-- `mem_pool_init` makes lie within memory, and its three bitmaps follow each other below the main
-- thread's stack page.
pub mem_pool_init-Fits :
    (all_mem : ℕ) → used_mem ≤ all_mem → all_mem ≤ 2 ^ 32 - 1 → Fits all_mem (mem_pool_init all_mem)
unfolding mem_pool_init
mem_pool_init-Fits all_mem low high = record {
  kernel_frames = omega arith;
  user_frames = omega arith;
  kernel_bitmap = omega arith;
  user_bitmap = omega arith;
  vaddr_bitmap = omega arith;
}

-- Of a memory with 256 MB or more above the 2 MB that are in use, up to 4 GB, at least 256 MB are in
-- neither pool, since the number of free pages is cut to 16 bits.
pub mem_pool_init-wraps :
    (all_mem : ℕ)
    → used_mem + 2 ^ 28 ≤ all_mem
    → all_mem ≤ 2 ^ 32 - 1
    → (mem_pool_init all_mem).kernel_pool_size + (mem_pool_init all_mem).user_pool_size + 2 ^ 28
      ≤ all_mem - used_mem
unfolding mem_pool_init
mem_pool_init-wraps all_mem low high = omega arith

-- `sizeof(struct arena)`: a pointer, a `uint32_t` and a `bool`.
abbrev pub arena_size : ℕ
arena_size = 12

-- A descriptor: its `block_size` and `blocks_per_arena`.
pub record BlockDesc : Type 0 where
  pub block_size : ℕ
  pub blocks_per_arena : ℕ

-- The loop over the descriptors; `block_size` is a `uint16_t`.
unfoldable pub desc_loop : (left block_size : ℕ) → List BlockDesc
desc_loop zero block_size = []
desc_loop (suc left) block_size =
    record { block_size = block_size; blocks_per_arena = (pg_size - arena_size) / block_size }
    ∷ desc_loop left (block_size * 2 % 2 ^ 16)

unfoldable pub block_desc_init : List BlockDesc
unfolding desc_loop
block_desc_init = desc_loop 7 16
