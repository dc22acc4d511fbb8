-- ===== src/Content.antt =====
-- The contents of files: `file_write` and `file_read` of src/fs/file.c.
-- A loop that writes or reads chunks runs on fuel; one more than the number of bytes is enough, since
-- every chunk has a byte.
pub mod Write
pub mod Read
pub mod Blocks
pub mod Whole
pub mod RoundTrip
mod Tests
use tros.Prelude.{
  ℕ, zero, suc, ◌+◌, ◌-◌, ◌*◌, ◌/◌, ◌%◌, ◌^◌, Bool, true, false, not, ◌&&◌, ◌||◌, Option, none,
  some, ltb, leb, ◌==◌, if◌then◌else◌, add32, sub32, Run, ok, panic, out_of_fuel, ◌>>=◌, ◌>>◌,
  assert,
}
use tros.Disk.{Buffer, Disk, in_time, ide_read, ide_write, overlay, zero_range, word_at, to_bytes}
use tros.Inode.{Inode, Partition, Fs, put_inode, inode_sync}
use tros.Inode.Blocks.{for_blocks, block_bitmap_alloc, bitmap_sync}

-- The variables of the loop of `file_write`.
pub record Writing : Type 0 where
  pub disk : Disk
  pub i_size : ℕ
  pub fd_pos : ℕ
  pub io_buf : Buffer
  pub bytes_written : ℕ
  pub size_left : ℕ
  pub first_write_block : Bool

abbrev pub chunk_at : (pos size_left : ℕ) → ℕ
chunk_at pos size_left =
    let sec_left_bytes = 512 - pos % 512 in
    if ltb size_left sec_left_bytes then size_left else sec_left_bytes

-- One pass of the loop; `src` is the buffer from its first byte on.
unfoldable pub write_chunk : (all_blocks : ℕ → ℕ) → (src : Buffer) → Writing → Run Writing
unfolding ide_read ide_write
write_chunk all_blocks src w = do
  let sec_lba = all_blocks (w.i_size / 512)
  let chunk_size = chunk_at w.i_size w.size_left
  let clear = zero_range w.io_buf 0 512
  io_buf1 ← if w.first_write_block then ide_read in_time w.disk sec_lba clear 1 else ok clear
  let io_buf2 = overlay io_buf1 (w.i_size % 512) (λ k. src (w.bytes_written + k)) chunk_size
  disk ← ide_write in_time w.disk sec_lba io_buf2 1
  ok record {
    disk = disk;
    i_size = add32 w.i_size chunk_size;
    fd_pos = add32 w.fd_pos chunk_size;
    io_buf = io_buf2;
    bytes_written = add32 w.bytes_written chunk_size;
    size_left = sub32 w.size_left chunk_size;
    first_write_block = false;
  }

-- while (bytes_written < count) …
unfoldable pub write_loop :
    (fuel : ℕ) → (all_blocks : ℕ → ℕ) → (src : Buffer) → (count : ℕ) → Writing → Run Writing
unfolding write_chunk
write_loop zero all_blocks src count w = out_of_fuel
write_loop (suc fuel) all_blocks src count w =
    let next = write_chunk all_blocks src w >>= write_loop fuel all_blocks src count in
    if ltb w.bytes_written count then next else ok w

-- The variables of the loop of `file_read`; `buf` is where it puts what it reads.
pub record Reading : Type 0 where
  pub buf : Buffer
  pub fd_pos : ℕ
  pub io_buf : Buffer
  pub bytes_read : ℕ
  pub size_left : ℕ

unfoldable pub read_chunk : Disk → (all_blocks : ℕ → ℕ) → Reading → Run Reading
unfolding ide_read
read_chunk disk all_blocks r = do
  let sec_lba = all_blocks (r.fd_pos / 512)
  let chunk_size = chunk_at r.fd_pos r.size_left
  io_buf1 ← ide_read in_time disk sec_lba (zero_range r.io_buf 0 512) 1
  ok record {
    buf = overlay r.buf r.bytes_read (λ k. io_buf1 (r.fd_pos % 512 + k)) chunk_size;
    fd_pos = add32 r.fd_pos chunk_size;
    io_buf = io_buf1;
    bytes_read = add32 r.bytes_read chunk_size;
    size_left = sub32 r.size_left chunk_size;
  }

-- while (bytes_read < size) …
unfoldable pub read_loop :
    (fuel : ℕ) → Disk → (all_blocks : ℕ → ℕ) → (size : ℕ) → Reading → Run Reading
unfolding read_chunk
read_loop zero disk all_blocks size r = out_of_fuel
read_loop (suc fuel) disk all_blocks size r =
    let next = read_chunk disk all_blocks r >>= read_loop fuel disk all_blocks size in
    if ltb r.bytes_read size then next else ok r
