-- ===== src/Inode/Sample.antt =====
-- A small partition for the tests of the file system, with an inode in memory or none.
use tros.Prelude.{ℕ, List, [], ◌∷◌, ◌==◌, if◌then◌else◌}
use tros.Bitmap.{Bitmap}
use tros.Disk.{Disk}
use tros.Inode.{SuperBlock, Inode, Partition, Fs}
use tros.Inode.Sync.{zero_inode}

abbrev pub sb : SuperBlock
sb = record {
  magic = 0x19590318;
  sec_cnt = 10000;
  inode_cnt = 4096;
  part_lba_base = 2048;
  block_bitmap_lba = 2050;
  block_bitmap_sects = 3;
  inode_bitmap_lba = 2053;
  inode_bitmap_sects = 1;
  inode_table_lba = 2054;
  inode_table_sects = 608;
  data_start_lba = 2662;
  root_inode_no = 0;
  dir_entry_size = 24;
}

abbrev pub empty : ℕ → Bitmap
empty n = record { btmp_bytes_len = n; bits = λ i. 0 }

abbrev pub part : List ℕ → Partition
part open_inodes = record {
  start_lba = 2048;
  sec_cnt = 10000;
  sb = sb;
  block_bitmap = empty 1536;
  inode_bitmap = empty 512;
  open_inodes = open_inodes;
}

-- Inode 300, of one block.
abbrev pub file : Inode
file = record {
  i_no = 300;
  i_size = 10;
  i_open_cnts = 1;
  write_deny = 1;
  i_sectors = λ k. if k == 0 then 2700 else 0;
}

abbrev pub low_file : Inode
low_file = record file { i_no = 5 }

abbrev pub blank : Disk
blank = λ lba i. 0

-- Nothing is open.
abbrev pub idle : Fs
idle = record { part = part []; disk = blank; inodes = λ p. zero_inode }

-- The inode at 16 is open.
abbrev pub one_open : Fs
one_open = record {
  part = part (16 ∷ []);
  disk = blank;
  inodes = λ p. if p == 16 then file else zero_inode;
}
