-- ===== src/Inode/Blocks.antt =====
-- `inode_bitmap_alloc`, `block_bitmap_alloc` and `bitmap_sync` of src/fs/file.c, and `inode_release`
-- of src/fs/inode.c, which gives back what they took.
use tros.Prelude.{
  ℕ, zero, suc, ◌+◌, ◌-◌, ◌*◌, ◌/◌, Bool, not, Option, none, some, ltb, ◌==◌, if◌then◌else◌, add32,
  sub32, Run, ok, ◌>>=◌, ◌>>◌, assert,
}
use tros.Bitmap.{Bitmap, bitmap_set, bitmap_scan}
use tros.Disk.{Buffer, Disk, in_time, ide_read, ide_write, word_at}
use tros.Inode.{Inode, SuperBlock, Partition, Fs, inode_open, inode_close, inode_delete}

-- `none` is the result -1.
unfoldable pub inode_bitmap_alloc : Partition → Run (Option ℕ × Partition)
inode_bitmap_alloc part = do
  found ← bitmap_scan part.inode_bitmap 1
  elim found [
    | none ↦ ok (none, part)
    | some bit_idx ↦ bitmap_set part.inode_bitmap bit_idx 1 >>= λ bits.
        ok (some bit_idx, record part { inode_bitmap = bits })
  ]

-- The result is the address of the sector.
unfoldable pub block_bitmap_alloc : Partition → Run (Option ℕ × Partition)
block_bitmap_alloc part = do
  found ← bitmap_scan part.block_bitmap 1
  elim found [
    | none ↦ ok (none, part)
    | some bit_idx ↦ bitmap_set part.block_bitmap bit_idx 1 >>= λ bits.
        ok (some (add32 part.sb.data_start_lba bit_idx), record part { block_bitmap = bits })
  ]

-- `enum bitmap_type`
pub data BitmapType : Type 0 where
  for_inodes for_blocks : BitmapType

abbrev pub bitmap_lba : SuperBlock → BitmapType → ℕ
bitmap_lba sb for_inodes = sb.inode_bitmap_lba
bitmap_lba sb for_blocks = sb.block_bitmap_lba

abbrev pub bitmap_of : Partition → BitmapType → Bitmap
bitmap_of part for_inodes = part.inode_bitmap
bitmap_of part for_blocks = part.block_bitmap

abbrev pub put_bitmap : Partition → BitmapType → Bitmap → Partition
put_bitmap part for_inodes btmp = record part { inode_bitmap = btmp }
put_bitmap part for_blocks btmp = record part { block_bitmap = btmp }

unfoldable pub bitmap_sync : Partition → Disk → (bit_idx : ℕ) → BitmapType → Run Disk
unfolding ide_write
bitmap_sync part disk bit_idx btmp_type =
    let off_sec = bit_idx / 4096 in
    let bitmap_off : Buffer = λ i. (bitmap_of part btmp_type).bits (off_sec * 512 + i) in
    ide_write in_time disk (add32 (bitmap_lba part.sb btmp_type) off_sec) bitmap_off 1

-- `bitmap_set` to `value` and `bitmap_sync`, as the callers of the two write them.
unfoldable pub set_and_sync : Fs → BitmapType → (bit_idx value : ℕ) → Run Fs
unfolding bitmap_sync
set_and_sync fs btmp_type bit_idx value = do
  btmp ← bitmap_set (bitmap_of fs.part btmp_type) bit_idx value
  let part : Partition = put_bitmap fs.part btmp_type btmp
  disk ← bitmap_sync part fs.disk bit_idx btmp_type
  ok (record fs { part = part; disk = disk })

unfoldable pub release_block : Fs → (lba : ℕ) → Run Fs
unfolding set_and_sync
release_block fs lba = do
  let block_bitmap_idx = sub32 lba fs.part.sb.data_start_lba
  assert (ltb 0 block_bitmap_idx)
  set_and_sync fs for_blocks block_bitmap_idx 0

-- while (block_idx < block_cnt) …: `left` is how many are left.
unfoldable pub release_blocks : (left : ℕ) → (all_blocks : ℕ → ℕ) → (block_idx : ℕ) → Fs → Run Fs
unfolding release_block
release_blocks zero all_blocks block_idx fs = ok fs
release_blocks (suc left) all_blocks block_idx fs = do
  fs1 ← if all_blocks block_idx == 0 then ok fs else release_block fs (all_blocks block_idx)
  release_blocks left all_blocks (block_idx + 1) fs1

abbrev pub has_table : Inode → Bool
has_table inode = not (inode.i_sectors 12 == 0)

-- The array `all_blocks`: the direct blocks, and those of the indirect table, if there is one.
unfoldable pub gather_blocks : Disk → Inode → Run (ℕ → ℕ)
unfolding ide_read
gather_blocks disk inode =
    if has_table inode
    then (do
      table ← ide_read in_time disk (inode.i_sectors 12) (λ i. 0) 1
      ok (λ k.
          if ltb k 12
          then inode.i_sectors k
          else if ltb k 140
          then word_at table ((k - 12) * 4)
          else 0))
    else ok (λ k. if ltb k 12 then inode.i_sectors k else 0)

abbrev pub block_cnt : Inode → ℕ
block_cnt inode = if has_table inode then 140 else 12

unfoldable pub release_data : Fs → Inode → Run Fs
unfolding gather_blocks release_block release_blocks
release_data fs inode = do
  all_blocks ← gather_blocks fs.disk inode
  fs1 ← if has_table inode then release_block fs (inode.i_sectors 12) else ok fs
  release_blocks (block_cnt inode) all_blocks 0 fs1

-- `kmalloced`, `inode_buf` and `io_buf` are what `kmalloc` and `sys_malloc` give.
unfoldable pub inode_release : Fs → (inode_no kmalloced : ℕ) → (inode_buf io_buf : Buffer) → Run Fs
unfolding inode_open release_data set_and_sync inode_delete inode_close
inode_release fs inode_no kmalloced inode_buf io_buf = do
  opened ← inode_open fs inode_no kmalloced inode_buf
  let inode = opened.1.inodes opened.0
  assert (inode.i_no == inode_no)
  fs1 ← release_data opened.1 inode
  fs2 ← set_and_sync fs1 for_inodes inode_no 0
  disk ← inode_delete fs2.part fs2.disk inode_no io_buf
  ok (inode_close (record fs2 { disk = disk }) opened.0)
