-- ===== src/Content/RoundTrip.antt =====
-- What the loop of `file_write` has written is what the loop of `file_read` reads (src/fs/file.c).
use tros.Prelude.{ℕ, ◌+◌, ◌-◌, ◌/◌, ◌<◌, ◌≤◌, ◌≡◌, ap, ◌∙◌, true, arith, ok}
use tros.Disk.{Buffer, Disk}
use tros.Content.{Writing, Reading, write_loop, read_loop}
use tros.Content.Read.{byte_at, read_start, read_loop-Got}
use tros.Content.Write.{Touched, Ready, write_loop-Wrote}

-- The variables at the start of the loop of `file_write`.
abbrev pub write_start : Disk → (i_size fd_pos : ℕ) → (io_buf : Buffer) → (count : ℕ) → Writing
write_start disk i_size fd_pos io_buf count = record {
  disk = disk;
  i_size = i_size;
  fd_pos = fd_pos;
  io_buf = io_buf;
  bytes_written = 0;
  size_left = count;
  first_write_block = true;
}

-- If the blocks that `count` bytes behind a file of `z` bytes go to lie in different sectors, which the
-- driver knows, and the sizes fit 32 bits, then both loops return, and the bytes that are read at position `z` are the ones
-- that were written.
pub read_loop-write_loop :
    (disk : Disk) (all : ℕ → ℕ) (src dst io_buf io_buf' : Buffer) (z fd_pos count : ℕ)
    → Ready all (write_start disk z fd_pos io_buf count)
    → (w : Writing) × (r : Reading) × (write_loop
          (count + 1)
          all
          src
          count
          (write_start disk z fd_pos io_buf count)
        ≡ ok w)
      × (read_loop (count + 1) w.disk all count (read_start dst z io_buf' count) ≡ ok r)
      × (r.bytes_read ≡ count)
      × ((k : ℕ) → k < count → r.buf k ≡ src k)
read_loop-write_loop disk all src dst io_buf io_buf' z fd_pos count v =
    let (w, e, g) =
      write_loop-Wrote (count + 1) all src count (write_start disk z fd_pos io_buf count) v
        (omega arith) (omega arith) in
    let (r, e', g') =
      read_loop-Got (count + 1) w.disk all count (read_start dst z io_buf' count) v.size
        (omega (arith, v.total)) (omega arith) (omega arith)
        (λ a lo hi. v.known (a / 512) (touched a lo hi)) in
    (
      w,
      r,
      e,
      e',
      omega (arith, g'.count),
      λ k lt.
          let p : z + (k - 0) ≡ z + k = omega arith in
          let q : 0 + (z + k - z) ≡ k = omega arith in
          g'.new k (omega arith) (omega arith)
          ∙ ap (byte_at w.disk all) p
          ∙ g.new (z + k) (omega arith) (omega arith)
          ∙ ap src q,
    )
  where
    touched :
        (a : ℕ) → z ≤ a → a < z + count → Touched (write_start disk z fd_pos io_buf count) (a / 512)
    touched a lo hi = record { some_left = omega arith; from = omega arith; to = omega arith }
