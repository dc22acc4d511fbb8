-- ===== src/Format/Mount.antt =====
-- `mount_partition` reads what `partition_format` has written (src/fs/fs.c).
use tros.Prelude.{
  ℕ, ◌+◌, ◌-◌, ◌*◌, ◌^◌, ◌<◌, ◌≤◌, ◌≡◌, ◌⊎◌, refl, ap, ◌∙◌, true, false, ◌&&◌, arith, ltb, leb, inl,
  add32, ok,
}
use tros.Disk.{Buffer, Disk, max_lba, ide_write-write_sectors, write_sectors, word_at, to_bytes}
use tros.Disk.Words.{word_at-to_bytes, word_at-eq}
use tros.Inode.{SuperBlock}
use tros.Format.{inode_bitmap_buf, root_dir_buf, sb_words, write_metadata, load_sb}
use tros.Format.Layout.{Fitted}

write_inside :
    (disk : Disk) (lba : ℕ) (buf : Buffer) (n s i : ℕ)
    → lba ≤ s
    → s < lba + n
    → write_sectors disk lba buf n s i ≡ buf ((s - lba) * 512 + i)
unfolding write_sectors
write_inside disk lba buf n s i lo hi =
    let t : (leb lba s && ltb s (lba + n)) ≡ true = ground arith in rw t refl

write_outside :
    (disk : Disk) (lba : ℕ) (buf : Buffer) (n s i : ℕ)
    → (s < lba) ⊎ (lba + n ≤ s)
    → write_sectors disk lba buf n s i ≡ disk s i
unfolding write_sectors
write_outside disk lba buf n s i out =
    let t : (leb lba s && ltb s (lba + n)) ≡ false = ground arith in rw t refl

module _ (start_lba sec_cnt : ℕ) (sb : SuperBlock) (super bitmap table : Buffer) (disk : Disk)
    (f : Fitted start_lba sec_cnt sb) (known : start_lba + sec_cnt ≤ max_lba + 1) where
  -- What the writes leave on the disk.
  abbrev pub written : Disk
  written =
      let disk1 = write_sectors disk (add32 start_lba 1) super 1 in
      let disk2 = write_sectors disk1 sb.block_bitmap_lba bitmap sb.block_bitmap_sects in
      let disk3 = write_sectors disk2 sb.inode_bitmap_lba inode_bitmap_buf sb.inode_bitmap_sects in
      let disk4 = write_sectors disk3 sb.inode_table_lba table sb.inode_table_sects in
      write_sectors disk4 sb.data_start_lba root_dir_buf 1

  -- All these sectors are known to the driver.
  pub write_metadata-written : write_metadata start_lba sb super bitmap table disk ≡ ok written
  unfolding write_metadata
  write_metadata-written =
      let w1 =
        ide_write-write_sectors disk (add32 start_lba 1) super 1
          (omega
            (arith, known, f.blocks, f.block_bitmap, f.inode_bitmap, f.inode_table, f.data_start))
          (omega arith) in
      let disk1 = write_sectors disk (add32 start_lba 1) super 1 in
      let w2 =
        ide_write-write_sectors disk1 sb.block_bitmap_lba bitmap sb.block_bitmap_sects
          (omega
            (arith, known, f.blocks, f.block_bitmap, f.inode_bitmap, f.inode_table, f.data_start))
          (omega (arith, f.bits, f.one_block)) in
      let disk2 = write_sectors disk1 sb.block_bitmap_lba bitmap sb.block_bitmap_sects in
      let w3 =
        ide_write-write_sectors disk2 sb.inode_bitmap_lba inode_bitmap_buf sb.inode_bitmap_sects
          (omega (arith, known, f.blocks, f.inode_table, f.data_start))
          (omega (arith, f.one_bitmap)) in
      let disk3 = write_sectors disk2 sb.inode_bitmap_lba inode_bitmap_buf sb.inode_bitmap_sects in
      let w4 =
        ide_write-write_sectors disk3 sb.inode_table_lba table sb.inode_table_sects
          (omega (arith, known, f.blocks, f.data_start)) (omega (arith, f.table)) in
      let disk4 = write_sectors disk3 sb.inode_table_lba table sb.inode_table_sects in
      let w5 =
        ide_write-write_sectors disk4 sb.data_start_lba root_dir_buf 1
          (omega (arith, known, f.blocks, f.one_block)) (omega arith) in
      rw (w1, w2, w3, w4) w5

  pub super_sector : (i : ℕ) → written (start_lba + 1) i ≡ super i
  super_sector i =
      let one : add32 start_lba 1 ≡ start_lba + 1 =
        omega (arith, f.blocks, f.block_bitmap, f.inode_bitmap, f.inode_table, f.data_start) in
      let z : (start_lba + 1 - (start_lba + 1)) * 512 + i ≡ i = omega arith in
      write_outside _ _ _ _ _ i
        (inl (omega (arith, f.block_bitmap, f.inode_bitmap, f.inode_table, f.data_start)))
      ∙ write_outside _ _ _ _ _ i
          (inl (omega (arith, f.block_bitmap, f.inode_bitmap, f.inode_table)))
      ∙ write_outside _ _ _ _ _ i (inl (omega (arith, f.block_bitmap, f.inode_bitmap)))
      ∙ write_outside _ _ _ _ _ i (inl (omega (arith, f.block_bitmap)))
      ∙ rw one (
          write_inside disk (start_lba + 1) super 1 (start_lba + 1) i (omega arith) (omega arith)
          ∙ ap super z)

  pub block_bitmap_sector :
      (s i : ℕ)
      → sb.block_bitmap_lba ≤ s
      → s < sb.inode_bitmap_lba
      → written s i ≡ bitmap ((s - sb.block_bitmap_lba) * 512 + i)
  block_bitmap_sector s i lo hi =
      write_outside _ _ _ _ s i (inl (omega (arith, f.inode_table, f.data_start)))
      ∙ write_outside _ _ _ _ s i (inl (omega (arith, f.inode_table)))
      ∙ write_outside _ _ _ _ s i (inl hi)
      ∙ write_inside _ _ _ _ s i lo (omega (arith, f.inode_bitmap))

  pub inode_bitmap_sector : (i : ℕ) → written sb.inode_bitmap_lba i ≡ inode_bitmap_buf i
  inode_bitmap_sector i =
      let z : (sb.inode_bitmap_lba - sb.inode_bitmap_lba) * 512 + i ≡ i = omega arith in
      write_outside _ _ _ _ _ i (inl (omega (arith, f.inode_table, f.data_start)))
      ∙ write_outside _ _ _ _ _ i (inl (omega (arith, f.inode_table)))
      ∙ write_inside _ _ _ _ _ i (omega arith) (omega (arith, f.one_bitmap))
      ∙ ap inode_bitmap_buf z

  pub inode_table_sector :
      (s i : ℕ)
      → sb.inode_table_lba ≤ s
      → s < sb.data_start_lba
      → written s i ≡ table ((s - sb.inode_table_lba) * 512 + i)
  inode_table_sector s i lo hi =
      write_outside _ _ _ _ s i (inl hi)
      ∙ write_inside _ _ _ _ s i lo (omega (arith, f.data_start, f.table))

  pub inode_table_first : (i : ℕ) → written sb.inode_table_lba i ≡ table i
  inode_table_first i =
      let z : (sb.inode_table_lba - sb.inode_table_lba) * 512 + i ≡ i = omega arith in
      inode_table_sector sb.inode_table_lba i (omega arith) (omega (arith, f.data_start))
      ∙ ap table z

-- The super block is read as it was written.
word_back :
    (words : ℕ → ℕ) (buf : Buffer) (k : ℕ)
    → k < 13
    → words k < 2 ^ 32
    → ((i : ℕ) → i < 512 → buf i ≡ to_bytes words i)
    → word_at buf (k * 4) ≡ words k
word_back words buf k h small same =
    word_at-eq buf (to_bytes words) (k * 4) (k * 4) (λ i lt. same (k * 4 + i) (omega arith))
    ∙ word_at-to_bytes words k small

-- The fields of a super block fit their words.
pub record FitsWords (sb : SuperBlock) : Type 0 where
  pub magic : sb.magic < 2 ^ 32
  pub sec_cnt : sb.sec_cnt < 2 ^ 32
  pub inode_cnt : sb.inode_cnt < 2 ^ 32
  pub part_lba_base : sb.part_lba_base < 2 ^ 32
  pub block_bitmap_lba : sb.block_bitmap_lba < 2 ^ 32
  pub block_bitmap_sects : sb.block_bitmap_sects < 2 ^ 32
  pub inode_bitmap_lba : sb.inode_bitmap_lba < 2 ^ 32
  pub inode_bitmap_sects : sb.inode_bitmap_sects < 2 ^ 32
  pub inode_table_lba : sb.inode_table_lba < 2 ^ 32
  pub inode_table_sects : sb.inode_table_sects < 2 ^ 32
  pub data_start_lba : sb.data_start_lba < 2 ^ 32
  pub root_inode_no : sb.root_inode_no < 2 ^ 32
  pub dir_entry_size : sb.dir_entry_size < 2 ^ 32

pub load_sb-back :
    (sb : SuperBlock) (pad : ℕ → ℕ) (buf : Buffer)
    → FitsWords sb
    → ((i : ℕ) → i < 512 → buf i ≡ to_bytes (sb_words sb pad) i)
    → load_sb buf ≡ sb
unfolding load_sb sb_words
load_sb-back sb pad buf v same j = record {
  magic = word_back words buf 0 (omega arith) v.magic same j;
  sec_cnt = word_back words buf 1 (omega arith) v.sec_cnt same j;
  inode_cnt = word_back words buf 2 (omega arith) v.inode_cnt same j;
  part_lba_base = word_back words buf 3 (omega arith) v.part_lba_base same j;
  block_bitmap_lba = word_back words buf 4 (omega arith) v.block_bitmap_lba same j;
  block_bitmap_sects = word_back words buf 5 (omega arith) v.block_bitmap_sects same j;
  inode_bitmap_lba = word_back words buf 6 (omega arith) v.inode_bitmap_lba same j;
  inode_bitmap_sects = word_back words buf 7 (omega arith) v.inode_bitmap_sects same j;
  inode_table_lba = word_back words buf 8 (omega arith) v.inode_table_lba same j;
  inode_table_sects = word_back words buf 9 (omega arith) v.inode_table_sects same j;
  data_start_lba = word_back words buf 10 (omega arith) v.data_start_lba same j;
  root_inode_no = word_back words buf 11 (omega arith) v.root_inode_no same j;
  dir_entry_size = word_back words buf 12 (omega arith) v.dir_entry_size same j;
}
  where
    words : ℕ → ℕ
    words = sb_words sb pad
