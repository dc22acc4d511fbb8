-- ===== src/Memory/Release.antt =====
-- src/kernel/memory.c: giving pages back.
use tros.Prelude.{
  ℕ, zero, suc, ◌-◌, ◌/◌, ◌%◌, Bool, ◌&&◌, ltb, leb, ◌==◌, if◌then◌else◌, add32, sub32, Run, ok,
  ◌>>=◌, ◌>>◌, assert,
}
use tros.Bitmap.{bitmap_set}
use tros.Memory.{
  pg_size, Pool, VirtualAddr, PoolFlags, pf_kernel, pf_user, Memory, set_bits, pte_ptr, store,
  addr_v2p,
}

-- The bit of a frame in its pool, cleared.
unfoldable pub free_frame : Pool → (pg_phy_addr : ℕ) → Run Pool
free_frame p pg_phy_addr = do
  btmp ← bitmap_set p.pool_bitmap (sub32 pg_phy_addr p.phy_addr_start / pg_size) 0
  ok (record p { pool_bitmap = btmp })

-- Also `free_a_phy_page`, which has the same body.
unfoldable pub pfree : Memory → (pg_phy_addr : ℕ) → Run Memory
unfolding free_frame
pfree m pg_phy_addr =
    if leb m.user_pool.phy_addr_start pg_phy_addr
    then (do p ← free_frame m.user_pool pg_phy_addr; ok (record m { user_pool = p }))
    else (do p ← free_frame m.kernel_pool pg_phy_addr; ok (record m { kernel_pool = p }))

-- `*pte &= ~PG_P_1`
unfoldable pub page_table_pte_remove : Memory → (vaddr : ℕ) → Memory
page_table_pte_remove m vaddr =
    store m (pte_ptr vaddr) (m.words (pte_ptr vaddr) - m.words (pte_ptr vaddr) % 2)

unfoldable pub release_range : VirtualAddr → (vaddr pg_cnt : ℕ) → Run VirtualAddr
release_range v vaddr pg_cnt = do
  btmp ← set_bits pg_cnt v.vaddr_bitmap (sub32 vaddr v.vaddr_start / pg_size) 0
  ok (record v { vaddr_bitmap = btmp })

unfoldable pub vaddr_remove : Memory → PoolFlags → (vaddr pg_cnt : ℕ) → Run Memory
unfolding release_range
vaddr_remove m pf_kernel vaddr pg_cnt = do
  v ← release_range m.kernel_vaddr vaddr pg_cnt
  ok (record m { kernel_vaddr = v })
vaddr_remove m pf_user vaddr pg_cnt = do
  v ← release_range m.userprog_vaddr vaddr pg_cnt
  ok (record m { userprog_vaddr = v })

abbrev pub in_user_pool : Memory → ℕ → Bool
in_user_pool m p = leb m.user_pool.phy_addr_start p

abbrev pub in_kernel_pool : Memory → ℕ → Bool
in_kernel_pool m p = leb m.kernel_pool.phy_addr_start p && ltb p m.user_pool.phy_addr_start

-- while (page_cnt < pg_cnt) …, with `vaddr` one page before the next one.
unfoldable pub mfree_loop : (pg_cnt : ℕ) → (Memory → ℕ → Bool) → Memory → (vaddr : ℕ) → Run Memory
unfolding pfree page_table_pte_remove
mfree_loop zero in_pool m vaddr = ok m
mfree_loop (suc pg_cnt) in_pool m before = do
  let vaddr = add32 before pg_size
  let pg_phy_addr = addr_v2p m vaddr
  assert ((pg_phy_addr % pg_size == 0) && in_pool m pg_phy_addr)
  m1 ← pfree m pg_phy_addr
  mfree_loop pg_cnt in_pool (page_table_pte_remove m1 vaddr) vaddr

unfoldable pub mfree_page : Memory → PoolFlags → (vaddr pg_cnt : ℕ) → Run Memory
unfolding vaddr_remove mfree_loop
mfree_page m pf vaddr pg_cnt = do
  assert (leb 1 pg_cnt && (vaddr % pg_size == 0))
  let pg_phy_addr = addr_v2p m vaddr
  assert ((pg_phy_addr % pg_size == 0) && leb 0x102000 pg_phy_addr)
  let in_pool = if in_user_pool m pg_phy_addr then in_user_pool else in_kernel_pool
  m1 ← mfree_loop pg_cnt in_pool m (sub32 vaddr pg_size)
  vaddr_remove m1 pf vaddr pg_cnt
