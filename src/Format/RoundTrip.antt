-- ===== src/Format/RoundTrip.antt =====
-- A partition that has been formatted and is mounted (src/fs/fs.c).
use tros.Prelude.{ℕ, ◌*◌, ◌%◌, ◌^◌, [], ◌<◌, ◌≡◌, true, some}
use tros.Disk.{Buffer, Disk, read_sectors}
use tros.Inode.{SuperBlock, Partition}
use tros.Inode.Slots.{Same, slot, OnDisk}
use tros.Inode.Mirror.{LaidOut}
use tros.Format.{
  layout, block_bitmap_bit_len, block_bitmap_buf, inode_bitmap_buf, root_inode, Malloced,
}

-- The partition has the super block, the bitmaps and the root directory that were laid out for it.
pub record Mounted (start_lba sec_cnt : ℕ) (part : Partition) (disk : Disk) : Type 0 where
  pub sb : part.sb ≡ layout start_lba sec_cnt
  pub block_bits :
      (i : ℕ)
      → i < part.sb.block_bitmap_sects * 512
      → part.block_bitmap.bits i ≡ block_bitmap_buf (block_bitmap_bit_len sec_cnt) i
  pub inode_bits : (i : ℕ) → i < 512 → part.inode_bitmap.bits i ≡ inode_bitmap_buf i
  pub root : Same (slot part disk 0) (root_inode part.sb)
  pub on_disk : OnDisk part
  pub laid_out : LaidOut part.sb

-- Every `sys_malloc` gives memory.
abbrev pub all_malloced : (block_bits inode_bits : Buffer) → Malloced
all_malloced block_bits inode_bits = record {
  sb_there = true;
  block_bits = some block_bits;
  inode_bits = some inode_bits;
}

-- What `mount_partition` makes of what it reads, with memory for all of it.
module _ (start_lba sec_cnt : ℕ) (after : Disk) (bits1 bits2 : Buffer) where
  mounted : SuperBlock → Partition
  mounted sb = record {
    start_lba = start_lba;
    sec_cnt = sec_cnt;
    sb = sb;
    block_bitmap = record {
      btmp_bytes_len = sb.block_bitmap_sects * 512 % 2 ^ 32;
      bits = read_sectors after sb.block_bitmap_lba bits1 sb.block_bitmap_sects;
    };
    inode_bitmap = record {
      btmp_bytes_len = sb.inode_bitmap_sects * 512 % 2 ^ 32;
      bits = read_sectors after sb.inode_bitmap_lba bits2 sb.inode_bitmap_sects;
    };
    open_inodes = [];
  }
