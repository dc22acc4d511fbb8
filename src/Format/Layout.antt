-- ===== src/Format/Layout.antt =====
-- The sectors of a partition as `partition_format` of src/fs/fs.c lays them out.
use tros.Prelude.{ℕ, ◌+◌, ◌*◌, ◌^◌, ◌<◌, ◌≤◌, ◌≡◌, arith}
use tros.Inode.{SuperBlock}
use tros.Format.{block_bitmap_bit_len, layout}

-- The parts of a partition follow each other behind the boot sector, the super block and each other
-- up to the data area; the bitmap has a bit for every block, and all blocks are in the partition.
pub record Fitted (start_lba sec_cnt : ℕ) (sb : SuperBlock) : Type 0 where
  pub block_bitmap : sb.block_bitmap_lba ≡ start_lba + 2
  pub inode_bitmap : sb.inode_bitmap_lba ≡ sb.block_bitmap_lba + sb.block_bitmap_sects
  pub inode_table : sb.inode_table_lba ≡ sb.inode_bitmap_lba + 1
  pub data_start : sb.data_start_lba ≡ sb.inode_table_lba + 608
  pub one_bitmap : sb.inode_bitmap_sects ≡ 1
  pub table : sb.inode_table_sects ≡ 608
  pub bits : block_bitmap_bit_len sec_cnt ≤ sb.block_bitmap_sects * 4096
  pub tight : sb.block_bitmap_sects * 4096 < block_bitmap_bit_len sec_cnt + 4096
  pub blocks : sb.data_start_lba + block_bitmap_bit_len sec_cnt ≤ start_lba + sec_cnt
  pub one_block : 0 < block_bitmap_bit_len sec_cnt

-- For a partition of 613 sectors or more, with sector numbers of 32 bits, the parts are in order, the
-- block bitmap has the sectors for its bits and no more, and every block lies in the partition.
pub layout-Fitted :
    (start_lba sec_cnt : ℕ)
    → 613 ≤ sec_cnt
    → start_lba + sec_cnt + 8192 < 2 ^ 32
    → Fitted start_lba sec_cnt (layout start_lba sec_cnt)
unfolding layout block_bitmap_bit_len
layout-Fitted start_lba sec_cnt large small = record {
  block_bitmap = omega arith;
  inode_bitmap = omega arith;
  inode_table = omega arith;
  data_start = omega arith;
  one_bitmap = omega arith;
  table = omega arith;
  bits = omega arith;
  tight = omega arith;
  blocks = omega arith;
  one_block = omega arith;
}
