-- ===== src/Inode.antt =====
-- src/fs/inode.c, include/fs/inode.h and include/fs/super_block.h, with `inode_bitmap_alloc`,
-- `block_bitmap_alloc` and `bitmap_sync` of src/fs/file.c.
-- The partition is the mounted one (`cur_part`). A `struct inode` in memory is found at its address,
-- a number; `open_inodes` is the list of these addresses, which `LinkList` proves the links to be.
-- The memory that `kmalloc` gives is an argument, and so is the memory of a buffer.
pub mod Slots
pub mod Sync
pub mod Blocks
pub mod Release
pub mod Mirror
pub mod Opening
pub mod Sample
mod Tests
use tros.Prelude.{
  ℕ, zero, suc, ◌+◌, ◌-◌, ◌*◌, ◌/◌, ◌%◌, ◌^◌, Bool, true, false, not, ◌&&◌, Option, none, some,
  List, [], ◌∷◌, ltb, leb, ◌==◌, if◌then◌else◌, add32, sub32, Run, ok, ◌>>=◌, ◌>>◌, assert,
}
use tros.Bitmap.{Bitmap, bitmap_set, bitmap_scan}
use tros.Disk.{Buffer, Disk, in_time, ide_read, ide_write, overlay, zero_range, word_at, to_bytes}

-- `struct super_block`, without the bytes that fill up its sector.
pub record SuperBlock : Type 0 where
  pub magic : ℕ
  pub sec_cnt : ℕ
  pub inode_cnt : ℕ
  pub part_lba_base : ℕ
  pub block_bitmap_lba : ℕ
  pub block_bitmap_sects : ℕ
  pub inode_bitmap_lba : ℕ
  pub inode_bitmap_sects : ℕ
  pub inode_table_lba : ℕ
  pub inode_table_sects : ℕ
  pub data_start_lba : ℕ
  pub root_inode_no : ℕ
  pub dir_entry_size : ℕ

-- `struct inode` without `inode_tag`; `write_deny` is an `int`.
pub record Inode : Type 0 where
  pub i_no : ℕ
  pub i_size : ℕ
  pub i_open_cnts : ℕ
  pub write_deny : ℕ
  pub i_sectors : ℕ → ℕ

pub record Partition : Type 0 where
  pub start_lba : ℕ
  pub sec_cnt : ℕ
  pub sb : SuperBlock
  pub block_bitmap : Bitmap
  pub inode_bitmap : Bitmap
  pub open_inodes : List ℕ

-- The partition, its disk, and the inodes in memory.
pub record Fs : Type 0 where
  pub part : Partition
  pub disk : Disk
  pub inodes : ℕ → Inode

-- sizeof(struct inode)
abbrev pub inode_size : ℕ
inode_size = 76

-- The words of an inode in memory. The two of `inode_tag` are 0, as in every inode that is written.
unfoldable pub inode_words : Inode → ℕ → ℕ
inode_words inode k =
    if k == 0
    then inode.i_no
    else if k == 1
    then inode.i_size
    else if k == 2
    then inode.i_open_cnts
    else if k == 3
    then inode.write_deny
    else if ltb k 17
    then inode.i_sectors (k - 4)
    else 0

-- The inode that lies at an offset of a buffer.
unfoldable pub load_inode : Buffer → (off : ℕ) → Inode
load_inode buf off = record {
  i_no = word_at buf off;
  i_size = word_at buf (off + 4);
  i_open_cnts = word_at buf (off + 8);
  write_deny = word_at buf (off + 12);
  i_sectors = λ k. word_at buf (off + (k + 4) * 4);
}

pub record InodePosition : Type 0 where
  pub two_sec : Bool
  pub sec_lba : ℕ
  pub off_size : ℕ

unfoldable pub inode_locate : Partition → (inode_no : ℕ) → Run InodePosition
inode_locate part inode_no = do
  assert (ltb inode_no 4096)
  let off_size = inode_no * inode_size
  let off_size_in_sec = off_size % 512
  let left_in_sec = 512 - off_size_in_sec
  ok record {
    two_sec = ltb left_in_sec inode_size;
    sec_lba = add32 part.sb.inode_table_lba (off_size / 512);
    off_size = off_size_in_sec;
  }

-- The sectors at a position, read, changed and written.
unfoldable pub rewrite_sectors : Disk → InodePosition → Buffer → (Buffer → Buffer) → Run Disk
unfolding ide_read ide_write
rewrite_sectors disk inode_pos io_buf change = do
  let cnt = if inode_pos.two_sec then 2 else 1
  buf ← ide_read in_time disk inode_pos.sec_lba io_buf cnt
  ide_write in_time disk inode_pos.sec_lba (change buf) cnt

-- The copy `pure_inode`.
abbrev pub pure_inode : Inode → Inode
pure_inode inode = record inode { i_open_cnts = 0; write_deny = 0 }

-- `inode_no` is a `uint8_t`.
unfoldable pub inode_sync : Partition → Disk → Inode → (io_buf : Buffer) → Run Disk
unfolding inode_locate rewrite_sectors
inode_sync part disk inode io_buf = do
  let inode_no = inode.i_no % 256
  inode_pos ← inode_locate part inode_no
  assert (leb inode_pos.sec_lba (add32 part.start_lba part.sec_cnt))
  let src = to_bytes (inode_words (pure_inode inode))
  rewrite_sectors disk inode_pos io_buf (λ buf. overlay buf inode_pos.off_size src inode_size)

abbrev pub put_inode : (ℕ → Inode) → ℕ → Inode → ℕ → Inode
put_inode inodes p inode q = if p == q then inode else inodes q

-- The loop of `inode_open` over `open_inodes`.
unfoldable pub find_open : (ℕ → Inode) → (elems : List ℕ) → (inode_no : ℕ) → Option ℕ
find_open inodes [] inode_no = none
find_open inodes (elem ∷ elems) inode_no =
    if (inodes elem).i_no == inode_no then some elem else find_open inodes elems inode_no

-- `inode_open` of an inode that is not open; `inode_found` and `inode_buf` are what `kmalloc` and
-- `sys_malloc` give.
unfoldable pub inode_load : Fs → (inode_no inode_found : ℕ) → (inode_buf : Buffer) → Run (ℕ × Fs)
unfolding inode_locate ide_read
inode_load fs inode_no inode_found inode_buf = do
  inode_pos ← inode_locate fs.part inode_no
  let cnt = if inode_pos.two_sec then 2 else 1
  buf ← ide_read in_time fs.disk inode_pos.sec_lba inode_buf cnt
  let inode = load_inode buf inode_pos.off_size
  ok (
    inode_found,
    record {
      part = record fs.part { open_inodes = inode_found ∷ fs.part.open_inodes };
      disk = fs.disk;
      inodes = put_inode fs.inodes inode_found (record inode { i_open_cnts = 1 });
    },
  )

abbrev pub count_open : Inode → Inode
count_open inode = record inode { i_open_cnts = add32 inode.i_open_cnts 1 }

-- What follows the search.
abbrev pub count_or_load : Option ℕ → Fs → (inode_no kmalloced : ℕ) → Buffer → Run (ℕ × Fs)
count_or_load (some p) fs inode_no kmalloced inode_buf =
    ok (p, record fs { inodes = put_inode fs.inodes p (count_open (fs.inodes p)) })
count_or_load none fs inode_no kmalloced inode_buf = inode_load fs inode_no kmalloced inode_buf

unfoldable pub inode_open : Fs → (inode_no kmalloced : ℕ) → (inode_buf : Buffer) → Run (ℕ × Fs)
unfolding find_open
inode_open fs inode_no kmalloced inode_buf =
    count_or_load (find_open fs.inodes fs.part.open_inodes inode_no) fs inode_no kmalloced inode_buf

-- `list_remove` of an element.
pub remove : ℕ → List ℕ → List ℕ
remove p [] = []
remove p (q ∷ qs) = if p == q then qs else q ∷ remove p qs

-- `kfree` gives the memory back, which then is no longer used.
unfoldable pub inode_close : Fs → (inode : ℕ) → Fs
unfolding remove
inode_close fs p =
    let inode = fs.inodes p in
    let cnts = sub32 inode.i_open_cnts 1 in
    let fs1 = record fs { inodes = put_inode fs.inodes p (record inode { i_open_cnts = cnts }) } in
    if cnts == 0
    then record fs1 { part = record fs.part { open_inodes = remove p fs.part.open_inodes } }
    else fs1

unfoldable pub inode_delete : Partition → Disk → (inode_no : ℕ) → (io_buf : Buffer) → Run Disk
unfolding inode_locate rewrite_sectors
inode_delete part disk inode_no io_buf = do
  assert (ltb inode_no 4096)
  inode_pos ← inode_locate part inode_no
  assert (leb inode_pos.sec_lba (add32 part.start_lba part.sec_cnt))
  rewrite_sectors disk inode_pos io_buf (λ buf. zero_range buf inode_pos.off_size inode_size)

-- The other fields keep what the memory holds.
pub inode_init : (inode_no : ℕ) → Inode → Inode
inode_init inode_no new_inode = record {
  i_no = inode_no;
  i_size = 0;
  i_open_cnts = 0;
  write_deny = 0;
  i_sectors = λ k. if ltb k 13 then 0 else new_inode.i_sectors k;
}
