-- ===== src/Content/Tests.antt =====
-- The theorems on the contents of files at a file of two blocks.
use tros.Prelude.{
  ℕ, ◌*◌, ◌/◌, ◌<◌, ◌≡◌, ◌⊎◌, refl, false, arith, ltb, ◌==◌, if◌then◌else◌, inl, add32, some, ok,
  panic,
}
use tros.Disk.{Buffer}
use tros.Inode.{Fs}
use tros.Inode.Sample.{file, blank, idle}
use tros.Content.{Writing, Reading, write_loop, read_loop}
use tros.Content.Read.{KnownBlocks, read_start}
use tros.Content.Write.{Ready, Wrote, write_loop-Wrote}
use tros.Content.RoundTrip.{write_start, read_loop-write_loop}
use tros.Content.Blocks.{minus_one, file_read, file_write}
use tros.Content.Whole.{block_of, ReadBytes, file_read-ReadBytes, file_write-full}

-- The two blocks of the file.
abbrev two_blocks : ℕ → ℕ
two_blocks k = if k == 0 then 2700 else 2701

-- 100 bytes behind 500.
abbrev start : Writing
start = write_start blank 500 499 (λ i. 7) 100

Ready-start : Ready two_blocks start
Ready-start = record {
  size = omega arith;
  total = omega arith;
  begun = λ e. absurd (ground arith);
  apart = λ j k tj tk e. ground (arith, tj.to, tk.to);
  known = λ j t. ground arith;
}

write_loop-Wrote_example :
    (w' : Writing) × (write_loop 101 two_blocks (λ i. i) 100 start ≡ ok w')
    × Wrote two_blocks (λ i. i) start w'
write_loop-Wrote_example =
    write_loop-Wrote 101 two_blocks (λ i. i) 100 start Ready-start refl (omega arith)

read_loop-write_loop_example :
    (w : Writing) × (r : Reading) × (write_loop 101 two_blocks (λ i. i) 100 start ≡ ok w)
    × (read_loop 101 w.disk two_blocks 100 (read_start (λ i. 0) 500 (λ i. 7) 100) ≡ ok r)
    × (r.bytes_read ≡ 100)
    × ((k : ℕ) → k < 100 → r.buf k ≡ k)
read_loop-write_loop_example =
    read_loop-write_loop blank two_blocks (λ i. i) (λ i. 0) (λ i. 7) (λ i. 7) 500 499 100
      Ready-start

-- Files of some sizes at 16; the second and the third are longer than the blocks in use.
abbrev sized : ℕ → Fs
sized n = record idle { inodes = λ p. record file { i_size = n } }

known_blocks : KnownBlocks (block_of blank file) 0 10
unfolding block_of
known_blocks a lo hi = let z : a / 512 ≡ 0 = omega arith in rw z (omega arith)

file_read-ReadBytes_example :
    (◌≡◌ {A = ℕ} 4 10)
      × (0 < 20)
      × (file_read (sized 10) 16 4 (λ i. 0) 20 (λ i. 7) (some (λ i. 0)) ≡ ok (minus_one, λ i. 0, 4))
    ⊎ ((buf' : Buffer) × (file_read (sized 10) 16 4 (λ i. 0) 20 (λ i. 7) (some (λ i. 0))
          ≡ ok (6, buf', 10))
        × ReadBytes (sized 10) 16 4 6 buf')
file_read-ReadBytes_example =
    file_read-ReadBytes (sized 10) 16 4 (λ i. 0) 20 (λ i. 7) (λ i. 0) (omega arith) (omega arith)
      (omega arith) (inl (omega arith)) known_blocks

file_write-full_example :
    (ltb (512 * 140) (add32 71670 10) ≡ false)
    × (file_write (sized 71670) 16 0 (λ i. 0) 10 (some (λ i. 0)) (some (λ i. 0)) ≡ panic)
file_write-full_example =
    file_write-full (sized 71670) 16 0 (λ i. 0) 10 (λ i. 0) (λ i. 0) (λ e. omega (arith, e)) refl
