-- ===== src/Memory/Tests.antt =====
-- Runs of the page functions, and the theorems at a small machine.
use tros.Prelude.{
  ℕ, ◌<◌, ◌≡◌, refl, ◌⊎◌, true, false, Option, some, arith, ◌==◌, if◌then◌else◌, Run, ok, panic,
  out_of_fuel,
}
use tros.Bitmap.{Bitmap, bitmap_scan, update_bit, bitmap_set}
use tros.Bitmap.Laws.{IsSound, size}
use tros.Memory.{
  Pool, VirtualAddr, Memory, pf_kernel, pf_user, palloc, reserve, malloc_page, page_table_add,
  addr_v2p,
}
use tros.Memory.Setup.{Fits, mem_pool_init, mem_pool_init-Fits}
use tros.Memory.PageTable.{IsMapped}
use tros.Memory.Frames.{IsPool, TookFrame, taken, palloc-TookFrame}
use tros.Memory.Pages.{Grown, malloc_page-Grown}

-- Sixteen pages, the first of them taken.
abbrev first_taken : Bitmap
first_taken = record { btmp_bytes_len = 2; bits = λ i. if i == 0 then 1 else 0 }

first_taken-IsSound : IsSound first_taken
first_taken-IsSound = record { bytes = λ i. ground arith; small = omega arith }

abbrev frames : Pool
frames = record { pool_bitmap = first_taken; phy_addr_start = 0x200000; pool_size = 0x10000 }

frames-IsPool : IsPool frames
frames-IsPool = record { sound = first_taken-IsSound; start = omega arith; bounded = omega arith }

abbrev heap : VirtualAddr
heap = record { vaddr_bitmap = first_taken; vaddr_start = 0xc0100000 }

-- The directory has a table for the 4 MB from 0xc0000000 on, which is empty.
abbrev machine : Memory
machine = record {
  kernel_pool = frames;
  user_pool = record frames { phy_addr_start = 0x300000 };
  kernel_vaddr = heap;
  userprog_vaddr = record heap { vaddr_start = 0x8048000 };
  has_pgdir = false;
  words = λ a. if a == 0xfffffc00 then 0x101007 else 0;
}

abbrev memory_of : Run (ℕ × Memory) → Memory
memory_of (ok r) = r.1
memory_of panic = machine
memory_of out_of_fuel = machine

abbrev state_of : Run Memory → Memory
state_of (ok m) = m
state_of panic = machine
state_of out_of_fuel = machine

abbrev pool_after : Run (ℕ × Pool) → Pool
pool_after (ok r) = r.1
pool_after panic = frames
pool_after out_of_fuel = frames

abbrev range_after : Run (Option (ℕ × VirtualAddr)) → VirtualAddr
range_after (ok (some r)) = r.1
range_after r = heap

two_pages :
    malloc_page machine pf_kernel 2 ≡ ok (0xc0101000, memory_of (malloc_page machine pf_kernel 2))
unfolding malloc_page bitmap_scan bitmap_set update_bit palloc
two_pages = refl

translated : addr_v2p (memory_of (malloc_page machine pf_kernel 2)) 0xc0102345 ≡ 0x202345
unfolding malloc_page bitmap_scan bitmap_set update_bit palloc addr_v2p
translated = refl

-- A user page needs a new page table, which is a frame of the kernel pool.
user_page : addr_v2p (memory_of (malloc_page machine pf_user 1)) 0x8049004 ≡ 0x301004
unfolding malloc_page bitmap_scan bitmap_set update_bit palloc addr_v2p
user_page = refl

malloc_page-Grown_example : Grown machine (memory_of (malloc_page machine pf_kernel 2)) 0xc0101000 2
malloc_page-Grown_example =
    malloc_page-Grown machine (memory_of (malloc_page machine pf_kernel 2)) pf_kernel 2 0xc0101000
      two_pages (omega arith) (omega arith)

added :
    page_table_add machine 0xc0105000 0x209000
    ≡ ok (state_of (page_table_add machine 0xc0105000 0x209000))
unfolding page_table_add
added = refl

abbrev mapped_machine : Memory
mapped_machine = state_of (page_table_add machine 0xc0105000 0x209000)

added_next :
    page_table_add mapped_machine 0xc0106000 0x20a000
    ≡ ok (state_of (page_table_add mapped_machine 0xc0106000 0x20a000))
unfolding page_table_add
added_next = refl

IsMapped-there : IsMapped mapped_machine 0xc0105000
unfolding page_table_add
IsMapped-there = (refl, refl)

palloc-TookFrame_example :
    ((addr : ℕ) × (p' : Pool) × (palloc frames ≡ ok (addr, p')) × TookFrame frames addr p')
    ⊎ ((palloc frames ≡ panic) × ((i : ℕ) → i < size frames.pool_bitmap → taken frames i ≡ true))
palloc-TookFrame_example = palloc-TookFrame frames frames-IsPool

frame_taken : palloc frames ≡ ok (0x201000, pool_after (palloc frames))
unfolding palloc bitmap_scan bitmap_set
frame_taken = refl

range_reserved : reserve heap 3 ≡ ok (some (0xc0101000, range_after (reserve heap 3)))
unfolding reserve bitmap_scan bitmap_set
range_reserved = refl

-- 32 MB of memory.
mem_pool_init-Fits_example : Fits 0x2000000 (mem_pool_init 0x2000000)
mem_pool_init-Fits_example = mem_pool_init-Fits 0x2000000 (omega arith) (omega arith)
