-- ===== src/Memory.antt =====
-- src/kernel/memory.c and include/kernel/memory.h: pages.
-- `words` is the 32-bit word at each virtual address; the page directory and the page tables are
-- seen in it through the entry of the directory that refers to itself, at 0xffc00000 and above.
-- Every function runs under the lock of its pool. The bitmaps of the pools are in memory of their
-- own. Masks are written as divisions: `x & 0xfffff000` is `x / 2 ^ 12 * 2 ^ 12`. An address 0 is
-- NULL.
pub mod Release
pub mod Setup
pub mod PageTable
pub mod Frames
pub mod Pages
pub mod Reserve
mod Tests
use tros.Prelude.{
  ℕ, zero, suc, ◌+◌, ◌-◌, ◌*◌, ◌/◌, ◌%◌, ◌^◌, Bool, true, false, not, ◌&&◌, Option, none, some, ltb,
  leb, ◌==◌, if◌then◌else◌, add32, sub32, Run, ok, panic, ◌>>=◌, ◌>>◌, assert,
}
use tros.Bitmap.{Bitmap, bitmap_scan, bitmap_set}

abbrev pub pg_size : ℕ
pg_size = 4096

-- `struct pool` without its lock.
pub record Pool : Type 0 where
  pub pool_bitmap : Bitmap
  pub phy_addr_start : ℕ
  pub pool_size : ℕ

pub record VirtualAddr : Type 0 where
  pub vaddr_bitmap : Bitmap
  pub vaddr_start : ℕ

pub data PoolFlags : Type 0 where
  pf_kernel pf_user : PoolFlags

-- The globals of memory.c, the `userprog_vaddr` of the running thread, whether it has a `pgdir`,
-- and the words of its address space.
pub record Memory : Type 0 where
  pub kernel_pool : Pool
  pub user_pool : Pool
  pub kernel_vaddr : VirtualAddr
  pub userprog_vaddr : VirtualAddr
  pub has_pgdir : Bool
  pub words : ℕ → ℕ

-- while (cnt < pg_cnt) bitmap_set(…, bit_idx_start + cnt++, value);
unfoldable pub set_bits : (pg_cnt : ℕ) → Bitmap → (bit_idx value : ℕ) → Run Bitmap
set_bits zero btmp bit_idx value = ok btmp
set_bits (suc pg_cnt) btmp bit_idx value = do
  btmp' ← bitmap_set btmp bit_idx value
  set_bits pg_cnt btmp' (bit_idx + 1) value

unfoldable pub reserve_found :
    VirtualAddr → (pg_cnt : ℕ) → Option ℕ → Run (Option (ℕ × VirtualAddr))
unfolding set_bits
reserve_found v pg_cnt none = ok none
reserve_found v pg_cnt (some bit_idx_start) = do
  btmp ← set_bits pg_cnt v.vaddr_bitmap bit_idx_start 1
  ok (some (add32 v.vaddr_start (bit_idx_start * pg_size), record v { vaddr_bitmap = btmp }))

-- What both branches of `vaddr_get` do to their bitmap.
unfoldable pub reserve : VirtualAddr → (pg_cnt : ℕ) → Run (Option (ℕ × VirtualAddr))
unfolding reserve_found
reserve v pg_cnt = do found ← bitmap_scan v.vaddr_bitmap pg_cnt; reserve_found v pg_cnt found

abbrev pub kernel_reserved : Memory → Option (ℕ × VirtualAddr) → ℕ × Memory
kernel_reserved m none = (0, m)
kernel_reserved m (some (vaddr, v)) = (vaddr, record m { kernel_vaddr = v })

abbrev pub user_reserved : Memory → Option (ℕ × VirtualAddr) → Run (ℕ × Memory)
user_reserved m none = ok (0, m)
user_reserved m (some (vaddr, v)) = do
  assert (ltb vaddr (0xc0000000 - pg_size))
  ok (vaddr, record m { userprog_vaddr = v })

unfoldable pub vaddr_get : Memory → PoolFlags → (pg_cnt : ℕ) → Run (ℕ × Memory)
unfolding reserve
vaddr_get m pf_kernel pg_cnt = do r ← reserve m.kernel_vaddr pg_cnt; ok (kernel_reserved m r)
vaddr_get m pf_user pg_cnt = do r ← reserve m.userprog_vaddr pg_cnt; user_reserved m r

abbrev pub pde_idx : ℕ → ℕ
pde_idx addr = addr / 2 ^ 22

abbrev pub pte_idx : ℕ → ℕ
pte_idx addr = addr / 2 ^ 12 % 2 ^ 10

abbrev pub pte_ptr : ℕ → ℕ
pte_ptr vaddr = 0xffc00000 + (vaddr / 2 ^ 22 * 2 ^ 22) / 2 ^ 10 + pte_idx vaddr * 4

abbrev pub pde_ptr : ℕ → ℕ
pde_ptr vaddr = 0xfffff000 + pde_idx vaddr * 4

unfoldable pub palloc_found : Pool → Option ℕ → Run (ℕ × Pool)
palloc_found p none = ok (0, p)
palloc_found p (some bit_idx) = do
  btmp ← bitmap_set p.pool_bitmap bit_idx 1
  ok (add32 (bit_idx * pg_size) p.phy_addr_start, record p { pool_bitmap = btmp })

unfoldable pub palloc : Pool → Run (ℕ × Pool)
unfolding palloc_found
palloc m_pool = do found ← bitmap_scan m_pool.pool_bitmap 1; palloc_found m_pool found

abbrev pub store : Memory → (addr word : ℕ) → Memory
store m addr word = record m { words = λ a. if addr == a then word else m.words a }

-- `memset(addr, 0, size)` on whole words.
abbrev pub clear : Memory → (addr size : ℕ) → Memory
clear m addr size = record m {
  words = λ a. if leb addr a && ltb a (addr + size) then 0 else m.words a;
}

-- `*entry & 0x00000001`
abbrev pub is_present : ℕ → Bool
is_present word = word % 2 == 1

-- `page_phyaddr | PG_US_U | PG_RW_W | PG_P_1`
abbrev pub entry : ℕ → ℕ
entry page_phyaddr = page_phyaddr / 8 * 8 + 7

-- The branch of `page_table_add` for a table that is there.
unfoldable pub add_entry : Memory → (vaddr page_phyaddr : ℕ) → Run Memory
add_entry m vaddr page_phyaddr = do
  assert (not (is_present (m.words (pte_ptr vaddr))))
  ok (store m (pte_ptr vaddr) (entry page_phyaddr))

-- The branch of `page_table_add` that makes the table first.
unfoldable pub add_table : Memory → (vaddr page_phyaddr : ℕ) → Run Memory
add_table m vaddr page_phyaddr = do
  r ← palloc m.kernel_pool
  let m1 = store (record m { kernel_pool = r.1 }) (pde_ptr vaddr) (entry r.0)
  let m2 = clear m1 (pte_ptr vaddr / 2 ^ 12 * 2 ^ 12) pg_size
  assert (not (is_present (m2.words (pte_ptr vaddr))))
  ok (store m2 (pte_ptr vaddr) (entry page_phyaddr))

unfoldable pub page_table_add : Memory → (vaddr page_phyaddr : ℕ) → Run Memory
unfolding add_entry add_table
page_table_add m vaddr page_phyaddr =
    if is_present (m.words (pde_ptr vaddr))
    then add_entry m vaddr page_phyaddr
    else add_table m vaddr page_phyaddr

abbrev pub pool_of : Memory → PoolFlags → Pool
pool_of m pf_kernel = m.kernel_pool
pool_of m pf_user = m.user_pool

abbrev pub put_pool : Memory → PoolFlags → Pool → Memory
put_pool m pf_kernel p = record m { kernel_pool = p }
put_pool m pf_user p = record m { user_pool = p }

-- A frame of the pool for one page: `palloc` and `page_table_add`. False if there is none.
unfoldable pub map_page : Memory → PoolFlags → (vaddr : ℕ) → Run (Bool × Memory)
unfolding page_table_add
map_page m pf vaddr = do
  r ← palloc (pool_of m pf)
  let m1 = put_pool m pf r.1
  if r.0 == 0 then ok (false, m1) else do m2 ← page_table_add m1 vaddr r.0; ok (true, m2)

-- while (cnt-- > 0) …
unfoldable pub malloc_loop : (cnt : ℕ) → Memory → PoolFlags → (vaddr : ℕ) → Run (Bool × Memory)
unfolding map_page
malloc_loop zero m pf vaddr = ok (true, m)
malloc_loop (suc cnt) m pf vaddr = do
  r ← map_page m pf vaddr
  if r.0 then malloc_loop cnt r.1 pf (add32 vaddr pg_size) else ok (false, r.1)

unfoldable pub malloc_page : Memory → PoolFlags → (pg_cnt : ℕ) → Run (ℕ × Memory)
unfolding vaddr_get malloc_loop
malloc_page m pf pg_cnt = do
  assert (ltb 0 pg_cnt && ltb pg_cnt 3840)
  v ← vaddr_get m pf pg_cnt
  if v.0 == 0
      then ok (0, v.1)
      else do r ← malloc_loop pg_cnt v.1 pf v.0; ok (if r.0 then v.0 else 0, r.1)

abbrev pub cleared : (pg_cnt : ℕ) → ℕ × Memory → ℕ × Memory
cleared pg_cnt (vaddr, m) = (vaddr, if vaddr == 0 then m else clear m vaddr (pg_cnt * pg_size))

pub get_kernel_pages : Memory → (pg_cnt : ℕ) → Run (ℕ × Memory)
unfolding malloc_page
get_kernel_pages m pg_cnt = do r ← malloc_page m pf_kernel pg_cnt; ok (cleared pg_cnt r)

pub get_user_pages : Memory → (pg_cnt : ℕ) → Run (ℕ × Memory)
unfolding malloc_page
get_user_pages m pg_cnt = do r ← malloc_page m pf_user pg_cnt; ok (cleared pg_cnt r)

-- The bit that `get_a_page` sets for the page, if the caller may ask for it.
unfoldable pub claim_bit : Memory → PoolFlags → (vaddr : ℕ) → Run Memory
claim_bit m pf_user vaddr =
    if m.has_pgdir
    then (do
      btmp ←
          bitmap_set m.userprog_vaddr.vaddr_bitmap
            (sub32 vaddr m.userprog_vaddr.vaddr_start / pg_size) 1
      ok (record m { userprog_vaddr = record m.userprog_vaddr { vaddr_bitmap = btmp } }))
    else panic
claim_bit m pf_kernel vaddr =
    if not m.has_pgdir
    then (do
      assert (ltb 0 (sub32 vaddr m.kernel_vaddr.vaddr_start / pg_size))
      btmp ←
          bitmap_set m.kernel_vaddr.vaddr_bitmap (sub32 vaddr m.kernel_vaddr.vaddr_start / pg_size)
            1
      ok (record m { kernel_vaddr = record m.kernel_vaddr { vaddr_bitmap = btmp } }))
    else panic

abbrev pub mapped_at : (vaddr : ℕ) → Bool × Memory → ℕ × Memory
mapped_at vaddr (true, m) = (vaddr, m)
mapped_at vaddr (false, m) = (0, m)

unfoldable pub get_a_page : Memory → PoolFlags → (vaddr : ℕ) → Run (ℕ × Memory)
unfolding claim_bit map_page
get_a_page m pf vaddr = do
  m1 ← claim_bit m pf vaddr
  r ← map_page m1 pf vaddr
  ok (mapped_at vaddr r)

unfoldable pub get_a_page_without_opvaddrbitmap :
    Memory → PoolFlags → (vaddr : ℕ) → Run (ℕ × Memory)
unfolding map_page
get_a_page_without_opvaddrbitmap m pf vaddr = do r ← map_page m pf vaddr; ok (mapped_at vaddr r)

unfoldable pub addr_v2p : Memory → (vaddr : ℕ) → ℕ
addr_v2p m vaddr = add32 (m.words (pte_ptr vaddr) / 2 ^ 12 * 2 ^ 12) (vaddr % 2 ^ 12)
