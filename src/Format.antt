-- ===== src/Format.antt =====
-- `partition_format` and `mount_partition` of src/fs/fs.c.
-- Memory from `sys_malloc` is zero, as `Heap` has it, and `partition_format` uses it without a test
-- for NULL. `mount_partition` is modelled for the partition whose name is the one that is looked for.
pub mod Layout
pub mod Bits
pub mod Mount
pub mod RoundTrip
mod Tests
use tros.Prelude.{
  ℕ, zero, suc, ◌+◌, ◌-◌, ◌*◌, ◌/◌, ◌%◌, ◌^◌, bit_and, bit_or, Bool, true, false, not, ◌&&◌, ◌||◌,
  List, [], ltb, leb, ◌==◌, if◌then◌else◌, add32, sub32, Option, none, some, Run, ok, panic, ◌>>=◌,
  ◌>>◌, assert,
}
use tros.Bitmap.{Bitmap}
use tros.Disk.{Buffer, Disk, in_time, ide_read, ide_write, zero_range, word_at, to_bytes}
use tros.Inode.{SuperBlock, Inode, Partition, inode_size, inode_words}

-- DIV_ROUND_UP
abbrev pub div_round_up : ℕ → ℕ → ℕ
div_round_up x step = sub32 (add32 x step) 1 / step

abbrev pub inode_table_sects : ℕ
inode_table_sects = div_round_up (inode_size * 4096) 512

-- The sectors that are neither metadata of a fixed size nor the boot sector.
abbrev pub free_sects : (sec_cnt : ℕ) → ℕ
free_sects sec_cnt = sub32 sec_cnt (1 + 1 + div_round_up 4096 4096 + inode_table_sects)

-- The number of blocks that can be used.
unfoldable pub block_bitmap_bit_len : (sec_cnt : ℕ) → ℕ
block_bitmap_bit_len sec_cnt = sub32 (free_sects sec_cnt) (div_round_up (free_sects sec_cnt) 4096)

-- The super block of a partition.
unfoldable pub layout : (start_lba sec_cnt : ℕ) → SuperBlock
unfolding block_bitmap_bit_len
layout start_lba sec_cnt =
    let block_bitmap_sects = div_round_up (block_bitmap_bit_len sec_cnt) 4096 in
    let block_bitmap_lba = add32 start_lba 2 in
    let inode_bitmap_lba = add32 block_bitmap_lba block_bitmap_sects in
    let inode_table_lba = add32 inode_bitmap_lba (div_round_up 4096 4096) in
    record {
      magic = 0x19590318;
      sec_cnt = sec_cnt;
      inode_cnt = 4096;
      part_lba_base = start_lba;
      block_bitmap_lba = block_bitmap_lba;
      block_bitmap_sects = block_bitmap_sects;
      inode_bitmap_lba = inode_bitmap_lba;
      inode_bitmap_sects = div_round_up 4096 4096;
      inode_table_lba = inode_table_lba;
      inode_table_sects = inode_table_sects;
      data_start_lba = add32 inode_table_lba inode_table_sects;
      root_inode_no = 0;
      dir_entry_size = 24;
    }

-- while (bit_idx <= block_bitmap_last_bit) …, of which `left` passes are left.
unfoldable pub clear_bits : (left bit_idx byte : ℕ) → ℕ
clear_bits zero bit_idx byte = byte
clear_bits (suc left) bit_idx byte =
    clear_bits left (bit_idx + 1) (bit_and byte (255 - 2 ^ bit_idx))

-- `memset(buf + off, 0xff, size)`
abbrev pub fill_range : Buffer → (off size : ℕ) → Buffer
fill_range buf off size i = if leb off i && ltb i (off + size) then 0xff else buf i

abbrev pub put_byte : Buffer → (i v : ℕ) → Buffer
put_byte buf i v j = if i == j then v else buf j

-- The block bitmap as it is written.
unfoldable pub block_bitmap_buf : (bit_len : ℕ) → Buffer
unfolding clear_bits
block_bitmap_buf bit_len =
    let last_byte = bit_len / 8 in
    let last_bit = bit_len % 8 in
    let last_size = 512 - last_byte % 512 in
    let buf1 = put_byte (λ i. 0) 0 (bit_or 0 1) in
    let buf2 = fill_range buf1 last_byte last_size in
    put_byte buf2 last_byte (clear_bits (last_bit + 1) 0 (buf2 last_byte))

abbrev pub inode_bitmap_buf : Buffer
inode_bitmap_buf = put_byte (λ i. 0) 0 (bit_or 0 1)

abbrev pub root_inode : SuperBlock → Inode
root_inode sb = record {
  i_no = 0;
  i_size = sb.dir_entry_size * 2;
  i_open_cnts = 0;
  write_deny = 0;
  i_sectors = λ k. if k == 0 then sb.data_start_lba else 0;
}

-- The table of inodes, with the root directory's.
unfoldable pub inode_table_buf : SuperBlock → Buffer
inode_table_buf sb i = if ltb i inode_size then to_bytes (inode_words (root_inode sb)) i else 0

-- The entries "." and ".." of the root directory: a name of 16 bytes, `i_no` and `f_type`.
abbrev pub root_dir_buf : Buffer
root_dir_buf i =
    if (i == 0) || (i == 24) || (i == 25) then 46 else if (i == 20) || (i == 44) then 2 else 0

-- The words of a super block; `pad` is what the stack holds behind them.
unfoldable pub sb_words : SuperBlock → (pad : ℕ → ℕ) → ℕ → ℕ
sb_words sb pad k =
    if k == 0
    then sb.magic
    else if k == 1
    then sb.sec_cnt
    else if k == 2
    then sb.inode_cnt
    else if k == 3
    then sb.part_lba_base
    else if k == 4
    then sb.block_bitmap_lba
    else if k == 5
    then sb.block_bitmap_sects
    else if k == 6
    then sb.inode_bitmap_lba
    else if k == 7
    then sb.inode_bitmap_sects
    else if k == 8
    then sb.inode_table_lba
    else if k == 9
    then sb.inode_table_sects
    else if k == 10
    then sb.data_start_lba
    else if k == 11
    then sb.root_inode_no
    else if k == 12
    then sb.dir_entry_size
    else pad k

-- The writes of `partition_format`: the super block, the bitmaps, the table of inodes, and the root
-- directory.
unfoldable pub write_metadata :
    (start_lba : ℕ) → SuperBlock → (super block_bitmap table : Buffer) → Disk → Run Disk
unfolding ide_write
write_metadata start_lba sb super block_bitmap table disk = do
  disk1 ← ide_write in_time disk (add32 start_lba 1) super 1
  disk2 ← ide_write in_time disk1 sb.block_bitmap_lba block_bitmap sb.block_bitmap_sects
  disk3 ← ide_write in_time disk2 sb.inode_bitmap_lba inode_bitmap_buf sb.inode_bitmap_sects
  disk4 ← ide_write in_time disk3 sb.inode_table_lba table sb.inode_table_sects
  ide_write in_time disk4 sb.data_start_lba root_dir_buf 1

unfoldable pub partition_format : (start_lba sec_cnt : ℕ) → (pad : ℕ → ℕ) → Disk → Run Disk
unfolding layout sb_words block_bitmap_buf inode_table_buf write_metadata
partition_format start_lba sec_cnt pad disk =
    let sb = layout start_lba sec_cnt in
    write_metadata start_lba sb (to_bytes (sb_words sb pad))
      (block_bitmap_buf (block_bitmap_bit_len sec_cnt)) (inode_table_buf sb) disk

-- The super block at the front of a buffer.
unfoldable pub load_sb : Buffer → SuperBlock
load_sb buf = record {
  magic = word_at buf 0;
  sec_cnt = word_at buf 4;
  inode_cnt = word_at buf 8;
  part_lba_base = word_at buf 12;
  block_bitmap_lba = word_at buf 16;
  block_bitmap_sects = word_at buf 20;
  inode_bitmap_lba = word_at buf 24;
  inode_bitmap_sects = word_at buf 28;
  inode_table_lba = word_at buf 32;
  inode_table_sects = word_at buf 36;
  data_start_lba = word_at buf 40;
  root_inode_no = word_at buf 44;
  dir_entry_size = word_at buf 48;
}

-- A bitmap read from the disk; `bits` is what `sys_malloc` gives, and without it the kernel panics.
unfoldable pub load_bitmap : Disk → (lba sects : ℕ) → (bits : Option Buffer) → Run Bitmap
unfolding ide_read
load_bitmap disk lba sects none = panic
load_bitmap disk lba sects (some bits) = do
  read ← ide_read in_time disk lba bits sects
  ok (record { btmp_bytes_len = sects * 512 % 2 ^ 32; bits = read })

-- What `sys_malloc` gives to the four calls of `mount_partition`: whether there is memory for the
-- super block, and the memory of the bitmaps. `sb_buf` is not compared with NULL.
pub record Malloced : Type 0 where
  pub sb_there : Bool
  pub block_bits : Option Buffer
  pub inode_bits : Option Buffer

-- Behind the read of the super block.
unfoldable pub load_bitmaps : (start_lba sec_cnt : ℕ) → Malloced → Disk → SuperBlock → Run Partition
unfolding load_bitmap
load_bitmaps start_lba sec_cnt malloced disk sb = do
  block_bitmap ← load_bitmap disk sb.block_bitmap_lba sb.block_bitmap_sects malloced.block_bits
  inode_bitmap ← load_bitmap disk sb.inode_bitmap_lba sb.inode_bitmap_sects malloced.inode_bits
  ok record {
    start_lba = start_lba;
    sec_cnt = sec_cnt;
    sb = sb;
    block_bitmap = block_bitmap;
    inode_bitmap = inode_bitmap;
    open_inodes = [];
  }

unfoldable pub mount_partition : (start_lba sec_cnt : ℕ) → Malloced → Disk → Run Partition
unfolding load_sb load_bitmaps
mount_partition start_lba sec_cnt malloced disk = do
  assert malloced.sb_there
  sb_buf ← ide_read in_time disk (add32 start_lba 1) (λ i. 0) 1
  load_bitmaps start_lba sec_cnt malloced disk (load_sb sb_buf)
