-- ===== src/Content/Blocks.antt =====
-- `file_write` and `file_read` of src/fs/file.c around their loops: which blocks a file has, and which
-- ones it gets.
-- `p` is the address of the file's inode. `io_buf` and `all_blocks` are the memory that `sys_malloc`
-- or `kmalloc` gives; none is NULL. `file_read` does not stop when it gets no `io_buf`, so that here it
-- always gets one.
use tros.Prelude.{
  ℕ, zero, suc, ◌+◌, ◌-◌, ◌*◌, ◌/◌, ◌^◌, Bool, true, false, not, ◌&&◌, Option, none, some, ltb, leb,
  ◌==◌, if◌then◌else◌, add32, sub32, Run, ok, ◌>>=◌, ◌>>◌, assert,
}
use tros.Disk.{Buffer, Disk, in_time, ide_read, ide_write, word_at, to_bytes}
use tros.Inode.{Inode, Partition, Fs, put_inode, inode_sync}
use tros.Inode.Blocks.{for_blocks, block_bitmap_alloc, bitmap_sync}
use tros.Content.{write_loop, read_loop}

abbrev pub minus_one : ℕ
minus_one = 2 ^ 32 - 1

abbrev pub put_word : (ℕ → ℕ) → ℕ → ℕ → ℕ → ℕ
put_word words i v j = if i == j then v else words j

-- ide_read(cur_part->my_disk, table, all_blocks + 12, 1)
unfoldable pub read_table : Disk → (table : ℕ) → (ℕ → ℕ) → Run (ℕ → ℕ)
unfolding ide_read
read_table disk table all_blocks = do
  read ← ide_read in_time disk table (λ i. 0) 1
  ok (λ k. if leb 12 k && ltb k 140 then word_at read ((k - 12) * 4) else all_blocks k)

-- The file system and `all_blocks`; `gathered` is false where `file_write` returns -1.
pub record Gather : Type 0 where
  pub fs : Fs
  pub all_blocks : ℕ → ℕ
  pub gathered : Bool

abbrev pub set_sector : Fs → (p idx lba : ℕ) → Fs
set_sector fs p idx lba =
    let inode = fs.inodes p in
    record fs {
      inodes =
          put_inode fs.inodes p (record inode { i_sectors = put_word inode.i_sectors idx lba });
    }

abbrev pub sync_block : Fs → (lba : ℕ) → Run Fs
sync_block fs lba = do
  disk ← bitmap_sync fs.part fs.disk (sub32 lba fs.part.sb.data_start_lba) for_blocks
  ok (record fs { disk = disk })

-- What follows `block_bitmap_alloc` in the loops over the new blocks: a direct block goes into the
-- inode as well.
abbrev pub store_block : (p idx : ℕ) → Gather → Option ℕ × Partition → Run Gather
store_block p idx g (none, part) =
    ok (record { fs = record g.fs { part = part }; all_blocks = g.all_blocks; gathered = false })
store_block p idx g (some lba, part) = do
  let fs1 : Fs = record g.fs { part = part }
  let all_blocks = put_word g.all_blocks idx lba
  fs2 ←
      if ltb idx 12
      then (do assert ((fs1.inodes p).i_sectors idx == 0); ok (set_sector fs1 p idx lba))
      else ok fs1
  fs3 ← sync_block fs2 lba
  ok (record { fs = fs3; all_blocks = all_blocks; gathered = true })

-- while (block_idx < file_will_use_blocks) …, of the three situations: `left` is how many are left.
unfoldable pub add_blocks : (left : ℕ) → (p block_idx : ℕ) → Gather → Run Gather
unfolding block_bitmap_alloc
add_blocks zero p block_idx g = ok g
add_blocks (suc left) p block_idx g = do
  found ← block_bitmap_alloc g.fs.part
  g1 ← store_block p block_idx g found
  if g1.gathered then add_blocks left p (block_idx + 1) g1 else ok g1

-- The table is written if all the blocks were found.
abbrev pub write_table : (table : ℕ) → Gather → Run Gather
write_table table g =
    if g.gathered
    then (do
      disk ← ide_write in_time g.fs.disk table (to_bytes (λ k. g.all_blocks (k + 12))) 1
      ok (record g { fs = record g.fs { disk = disk } }))
    else ok g

-- The second situation, behind the allocation of the table.
abbrev pub new_table : (p has will : ℕ) → Gather → Option ℕ × Partition → Run Gather
new_table p has will g (none, part) =
    ok (record { fs = record g.fs { part = part }; all_blocks = g.all_blocks; gathered = false })
new_table p has will g (some lba, part) = do
  let fs1 : Fs = record g.fs { part = part }
  assert ((fs1.inodes p).i_sectors 12 == 0)
  g1 ← add_blocks (will - has) p has (record g { fs = set_sector fs1 p 12 lba })
  write_table lba g1

-- The blocks that `file_write` writes, of a file with `has` blocks that will have `will`.
unfoldable pub gather_for_write : (p has will : ℕ) → Gather → Run Gather
unfolding read_table add_blocks
gather_for_write p has will g = do
  let sectors = (g.fs.inodes p).i_sectors
  let last : Gather = record g { all_blocks = put_word g.all_blocks (has - 1) (sectors (has - 1)) }
  if will == has
      then (if leb has 12 then ok last else (do
        assert (not (sectors 12 == 0))
        table ← read_table g.fs.disk (sectors 12) g.all_blocks
        ok (record g { all_blocks = table })))
      else if leb will 12
      then (do assert (not (sectors (has - 1) == 0)); add_blocks (will - has) p has last)
      else if leb has 12
      then (do found ← block_bitmap_alloc last.fs.part; new_table p has will last found)
      else (do
        assert (not (sectors 12 == 0))
        table ← read_table g.fs.disk (sectors 12) g.all_blocks
        g1 ← add_blocks (will - has) p has (record g { all_blocks = table })
        write_table (sectors 12) g1)

-- A file that has no block yet gets one.
abbrev pub first_found : (p : ℕ) → Fs → Option ℕ × Partition → Run (Bool × Fs)
first_found p fs (none, part) = ok (false, record fs { part = part })
first_found p fs (some lba, part) = do
  let fs1 = set_sector (record fs { part = part }) p 0 lba
  assert (not (sub32 lba fs1.part.sb.data_start_lba == 0))
  fs2 ← sync_block fs1 lba
  ok (true, fs2)

unfoldable pub first_block : (p : ℕ) → Fs → Run (Bool × Fs)
unfolding block_bitmap_alloc
first_block p fs =
    if (fs.inodes p).i_sectors 0 == 0
    then (do found ← block_bitmap_alloc fs.part; first_found p fs found)
    else ok (true, fs)

-- The loop of `file_write` and what follows it. The new `fd_pos` and `i_size` are those of the loop.
abbrev pub finish_write : (p : ℕ) → (buf io_buf : Buffer) → (count : ℕ) → Gather → Run (ℕ × Fs × ℕ)
finish_write p buf io_buf count g = do
  let inode = g.fs.inodes p
  w ← write_loop (count + 1) g.all_blocks buf count record {
    disk = g.fs.disk;
    i_size = inode.i_size;
    fd_pos = sub32 inode.i_size 1;
    io_buf = io_buf;
    bytes_written = 0;
    size_left = count;
    first_write_block = true;
  }
  let inode1 : Inode = record inode { i_size = w.i_size }
  disk ← inode_sync g.fs.part w.disk inode1 w.io_buf
  ok (
    w.bytes_written,
    record g.fs { disk = disk; inodes = put_inode g.fs.inodes p inode1 },
    w.fd_pos,
  )

-- The result, the file system, and the new `fd_pos`.
unfoldable pub file_write :
    Fs
    → (p fd_pos : ℕ) → (buf : Buffer) → (count : ℕ)
    → (io_buf : Option Buffer) (all_blocks : Option (ℕ → ℕ)) → Run (ℕ × Fs × ℕ)
unfolding first_block gather_for_write write_loop inode_sync
file_write fs p fd_pos buf count none all_blocks = ok (minus_one, fs, fd_pos)
file_write fs p fd_pos buf count (some io_buf) none = ok (minus_one, fs, fd_pos)
file_write fs p fd_pos buf count (some io_buf) (some all_blocks) =
    let new_size = add32 (fs.inodes p).i_size count in
    let has = (fs.inodes p).i_size / 512 + 1 in
    let will = new_size / 512 + 1 in
    if ltb (512 * 140) new_size then ok (minus_one, fs, fd_pos) else (do
      first ← first_block p fs
      if first.0
          then (do
            assert (leb will 140)
            g ←
                gather_for_write p has will
                  (record { fs = first.1; all_blocks = all_blocks; gathered = true })
            if g.gathered then finish_write p buf io_buf count g else ok (minus_one, g.fs, fd_pos))
          else ok (minus_one, first.1, fd_pos))

-- The direct blocks from `first` to `last`.
abbrev pub direct_blocks : (ℕ → ℕ) → (first last : ℕ) → (ℕ → ℕ) → ℕ → ℕ
direct_blocks sectors first last all_blocks k =
    if leb first k && leb k last then sectors k else all_blocks k

-- The blocks that `file_read` reads, from `start` to `stop`.
unfoldable pub gather_for_read : Disk → Inode → (start stop : ℕ) → (ℕ → ℕ) → Run (ℕ → ℕ)
unfolding read_table
gather_for_read disk inode start stop all_blocks =
    let sectors = inode.i_sectors in
    let table = sectors 12 in
    if start == stop
    then (if ltb stop 12
        then ok (put_word all_blocks stop (sectors stop))
        else read_table disk table all_blocks)
    else if ltb stop 12
    then ok (direct_blocks sectors start stop all_blocks)
    else if ltb start 12
    then (do
      assert (not (table == 0))
      read_table disk table (direct_blocks sectors start 11 all_blocks))
    else (do assert (not (table == 0)); read_table disk table all_blocks)

-- What `file_read` does for a number of bytes that the file has.
unfoldable pub read_size :
    Fs
    → (p fd_pos : ℕ) → (buf : Buffer) → (size : ℕ) → (io_buf : Buffer) (all_blocks : ℕ → ℕ)
    → Run (ℕ × Buffer × ℕ)
unfolding gather_for_read read_loop
read_size fs p fd_pos buf size io_buf all_blocks = do
  let start = fd_pos / 512
  let stop = add32 fd_pos size / 512
  assert (ltb start 139 && ltb stop 139)
  gathered ← gather_for_read fs.disk (fs.inodes p) start stop all_blocks
  r ←
      read_loop (size + 1) fs.disk gathered size
        record { buf = buf; fd_pos = fd_pos; io_buf = io_buf; bytes_read = 0; size_left = size }
  ok (r.bytes_read, r.buf, r.fd_pos)

abbrev pub read_blocks :
    Option (ℕ → ℕ)
    → Fs
    → (p fd_pos : ℕ) → (buf : Buffer) → (size : ℕ) → (io_buf : Buffer) → Run (ℕ × Buffer × ℕ)
read_blocks none fs p fd_pos buf size io_buf = ok (minus_one, buf, fd_pos)
read_blocks (some all_blocks) fs p fd_pos buf size io_buf =
    read_size fs p fd_pos buf size io_buf all_blocks

-- The result, what lies at `buf`, and the new `fd_pos`.
unfoldable pub file_read :
    Fs
    → (p fd_pos : ℕ) → (buf : Buffer) → (count : ℕ)
    → (io_buf : Buffer) (all_blocks : Option (ℕ → ℕ)) → Run (ℕ × Buffer × ℕ)
unfolding read_size
file_read fs p fd_pos buf count io_buf all_blocks =
    let i_size = (fs.inodes p).i_size in
    let rest = sub32 i_size fd_pos in
    if ltb i_size (add32 fd_pos count)
    then (if rest == 0
        then ok (minus_one, buf, fd_pos)
        else read_blocks all_blocks fs p fd_pos buf rest io_buf)
    else read_blocks all_blocks fs p fd_pos buf count io_buf
