-- ===== src/Content/Whole.antt =====
-- `file_read` and `file_write` of src/fs/file.c as wholes.
use tros.Prelude.{
  ℕ, ◌+◌, ◌-◌, ◌*◌, ◌/◌, ◌%◌, ◌^◌, ◌<◌, min, ◌≤◌, ◌≡◌, ◌≢◌, ◌⊎◌, refl, ap, ◌∙◌, true, false, ◌&&◌,
  some, arith, ltb, leb, ◌==◌, if◌then◌else◌, Bool-cases, inl, inr, add32, sub32, ok, panic,
}
use tros.Disk.{Buffer, Disk, max_lba, read_sectors, ide_read-read_sectors, word_at}
use tros.Inode.{Inode, Fs}
use tros.Inode.Release.{indirect, read_word}
use tros.Content.{Reading, read_loop}
use tros.Content.Read.{KnownBlocks, byte_at, read_start, read_loop-Got}
use tros.Content.Blocks.{
  put_word, direct_blocks, minus_one, read_table, gather_for_read, read_size, file_read,
  first_block, file_write,
}

-- The block of a file with a number: a direct one, or one of the indirect table.
unfoldable pub block_of : Disk → Inode → ℕ → ℕ
block_of disk inode k =
    if ltb k 12 then inode.i_sectors k else indirect disk (inode.i_sectors 12) (k - 12)

-- The byte of a file at a position.
unfoldable pub file_byte : Fs → (p pos : ℕ) → ℕ
file_byte fs p pos = byte_at fs.disk (block_of fs.disk (fs.inodes p)) pos

-- A file that reads into its indirect blocks has an indirect table, in a sector that the driver knows.
abbrev pub HasTable : Inode → (stop : ℕ) → Type 0
HasTable inode stop = (stop < 12) ⊎ ((inode.i_sectors 12 ≢ 0) × (inode.i_sectors 12 ≤ max_lba))

module _ (disk : Disk) (inode : Inode) (all : ℕ → ℕ) where
  abbrev table : (ℕ → ℕ) → ℕ → ℕ
  table all k =
      if leb 12 k && ltb k 140
      then word_at (read_sectors disk (inode.i_sectors 12) (λ i. 0) 1) ((k - 12) * 4)
      else all k

  read_table-table :
      (all : ℕ → ℕ)
      → inode.i_sectors 12 ≤ max_lba
      → read_table disk (inode.i_sectors 12) all ≡ ok (table all)
  unfolding read_table
  read_table-table all known =
      rw (ide_read-read_sectors disk (inode.i_sectors 12) (λ i. 0) 1 known (omega arith)) refl

  table-indirect : (all : ℕ → ℕ) (k : ℕ) → 12 ≤ k → k < 140 → table all k ≡ block_of disk inode k
  unfolding block_of
  table-indirect all k lo hi =
      let t : (leb 12 k && ltb k 140) ≡ true = ground arith in
      let u : ltb k 12 ≡ false = ground arith in
      rw (t, u) (read_word disk (inode.i_sectors 12) (k - 12) (omega arith))

  table-direct :
      (all : ℕ → ℕ) (k : ℕ)
      → k < 12
      → all k ≡ inode.i_sectors k
      → table all k ≡ block_of disk inode k
  unfolding block_of
  table-direct all k hi e =
      let t : (leb 12 k && ltb k 140) ≡ false = ground arith in
      let u : ltb k 12 ≡ true = ground arith in rw (t, u) e

  block_of-direct : (k : ℕ) → k < 12 → inode.i_sectors k ≡ block_of disk inode k
  unfolding block_of
  block_of-direct k hi = let u : ltb k 12 ≡ true = ground arith in rw u refl

  direct_blocks-within :
      (first last k : ℕ)
      → first ≤ k
      → k ≤ last
      → direct_blocks inode.i_sectors first last all k ≡ inode.i_sectors k
  direct_blocks-within first last k lo hi =
      let t : (leb first k && leb k last) ≡ true = ground arith in rw t refl

gather_for_read-blocks :
    (disk : Disk) (inode : Inode) (start stop : ℕ) (all : ℕ → ℕ)
    → start ≤ stop
    → stop < 139
    → HasTable inode stop
    → (g : ℕ → ℕ) × (gather_for_read disk inode start stop all ≡ ok g)
      × ((k : ℕ) → start ≤ k → k ≤ stop → g k ≡ block_of disk inode k)
unfolding gather_for_read block_of
gather_for_read-blocks disk inode start stop all le small with_table =
    elim (Bool-cases (start == stop)) [
      | inl same ↦ elim (Bool-cases (ltb stop 12)) [
        | inl direct ↦ (
          put_word all stop (inode.i_sectors stop),
          rw (same, direct) refl,
          λ k lo hi.
              let here : (stop == k) ≡ true = ground arith in
              let eq : stop ≡ k = ground arith in
              rw here (ap inode.i_sectors eq ∙ block_of-direct disk inode all k (ground arith)),
        )
        | inr indirect ↦ (
          table disk inode all all,
          rw (same, indirect) (read_table-table disk inode all all (known (ground arith))),
          λ k lo hi. table-indirect disk inode all all k (ground arith) (omega arith),
        )
      ]
      | inr more ↦ elim (Bool-cases (ltb stop 12)) [
        | inl direct ↦ (
          direct_blocks inode.i_sectors start stop all,
          rw (more, direct) refl,
          λ k lo hi.
              direct_blocks-within disk inode all start stop k lo hi
              ∙ block_of-direct disk inode all k (ground arith),
        )
        | inr indirect ↦
            let t : (inode.i_sectors 12 == 0) ≡ false = ground (arith, with_table) in
            elim (Bool-cases (ltb start 12)) [
              | inl from ↦ (
                table disk inode all (direct_blocks inode.i_sectors start 11 all),
                rw (more, indirect, from, t)
                    (read_table-table disk inode all _ (known (ground arith))),
                λ k lo hi. elim (Bool-cases (ltb k 12)) [
                  | inl low ↦
                      table-direct disk inode all (direct_blocks inode.i_sectors start 11 all) k
                        (ground arith)
                        (direct_blocks-within disk inode all start 11 k lo (ground arith))
                  | inr high ↦
                      table-indirect disk inode all (direct_blocks inode.i_sectors start 11 all) k
                        (ground arith) (omega arith)
                ],
              )
              | inr behind ↦ (
                table disk inode all all,
                rw (more, indirect, behind, t)
                    (read_table-table disk inode all all (known (ground arith))),
                λ k lo hi. table-indirect disk inode all all k (ground arith) (omega arith),
              )
            ]
      ]
    ]
  where
    known : 12 ≤ stop → inode.i_sectors 12 ≤ max_lba
    known high = elim with_table [ inl low ↦ absurd (omega arith) | inr tabled ↦ tabled.1 ]

-- The bytes of the file from `pos` on are in the buffer.
abbrev pub ReadBytes : Fs → (p pos n : ℕ) → Buffer → Type 0
ReadBytes fs p pos n buf = (k : ℕ) → k < n → buf k ≡ file_byte fs p (pos + k)

read_size-run :
    (fs : Fs) (p pos : ℕ) (buf : Buffer) (n : ℕ) (io_buf : Buffer) (all g : ℕ → ℕ) (r : Reading)
    → pos + n < 139 * 512
    → gather_for_read fs.disk (fs.inodes p) (pos / 512) ((pos + n) / 512) all ≡ ok g
    → read_loop (n + 1) fs.disk g n (read_start buf pos io_buf n) ≡ ok r
    → r.bytes_read ≡ n
    → r.fd_pos ≡ pos + n
    → read_size fs p pos buf n io_buf all ≡ ok (n, r.buf, pos + n)
unfolding read_size
read_size-run fs p pos buf n io_buf all g r small e e' count position =
    let stop : add32 pos n ≡ pos + n = omega arith in
    let valid : (ltb (pos / 512) 139 && ltb ((pos + n) / 512) 139) ≡ true = ground arith in
    rw (stop, valid, e, e', count, position) refl

read_size-ReadBytes :
    (fs : Fs) (p pos : ℕ) (buf : Buffer) (n : ℕ) (io_buf : Buffer) (all : ℕ → ℕ)
    → pos + n < 139 * 512
    → HasTable (fs.inodes p) ((pos + n) / 512)
    → KnownBlocks (block_of fs.disk (fs.inodes p)) pos n
    → (buf' : Buffer) × (read_size fs p pos buf n io_buf all ≡ ok (n, buf', pos + n))
      × ReadBytes fs p pos n buf'
unfolding file_byte byte_at
read_size-ReadBytes fs p pos buf n io_buf all small with_table known =
    let (g, e, same) =
      gather_for_read-blocks fs.disk (fs.inodes p) (pos / 512) ((pos + n) / 512) all (omega arith)
        (omega arith) with_table in
    let (r, e', got) =
      read_loop-Got (n + 1) fs.disk g n (read_start buf pos io_buf n) (omega arith) (omega arith)
        (omega arith) (omega arith)
        (λ a lo hi. rw (same (a / 512) (omega arith) (omega arith)) (known a lo hi)) in
    (
      r.buf,
      read_size-run fs p pos buf n io_buf all g r small e e' (omega (arith, got.count))
          got.position,
      λ k lt.
          let z : pos + (k - 0) ≡ pos + k = omega arith in
          (rw z at (got.new k (omega arith) (omega arith)))
          ∙ ap (λ b. fs.disk b ((pos + k) % 512))
              (same ((pos + k) / 512) (omega arith) (omega arith)),
    )

-- For a position in the file and a number of bytes that together fit 32 bits, of a file of fewer than
-- 71168 bytes, with an indirect table if it has 6144 bytes or more, of which the table and all blocks
-- are sectors that the driver knows: `file_read` returns -1 at the end of the file, and
-- elsewhere the number of bytes up to the end of the file, at most the number asked for; these bytes
-- of the file are in the buffer, and the position has moved behind them.
pub file_read-ReadBytes :
    (fs : Fs) (p pos : ℕ) (buf : Buffer) (count : ℕ) (io_buf : Buffer) (all : ℕ → ℕ)
    → pos ≤ (fs.inodes p).i_size
    → (fs.inodes p).i_size < 139 * 512
    → pos + count < 2 ^ 32
    → ((fs.inodes p).i_size < 12 * 512)
      ⊎ (((fs.inodes p).i_sectors 12 ≢ 0) × ((fs.inodes p).i_sectors 12 ≤ max_lba))
    → KnownBlocks (block_of fs.disk (fs.inodes p)) 0 (fs.inodes p).i_size
    → let n = min count ((fs.inodes p).i_size - pos) in
      (pos ≡ (fs.inodes p).i_size)
        × (0 < count)
        × (file_read fs p pos buf count io_buf (some all) ≡ ok (minus_one, buf, pos))
      ⊎ ((buf' : Buffer) × (file_read fs p pos buf count io_buf (some all) ≡ ok (n, buf', pos + n))
          × ReadBytes fs p pos n buf')
unfolding file_read
file_read-ReadBytes fs p pos buf count io_buf all within size small with_table known =
    let whole : add32 pos count ≡ pos + count = omega arith in
    let left : sub32 (fs.inodes p).i_size pos ≡ (fs.inodes p).i_size - pos = omega arith in
    elim (Bool-cases (ltb (fs.inodes p).i_size (pos + count))) [
      | inl beyond ↦
          let n : min count ((fs.inodes p).i_size - pos) ≡ (fs.inodes p).i_size - pos =
            ground arith in
          elim (Bool-cases ((fs.inodes p).i_size - pos == 0)) [
            | inl at_end ↦ inl (ground arith, ground arith, rw (whole, left, beyond, at_end) refl)
            | inr some_left ↦
                let rest : ℕ = (fs.inodes p).i_size - pos in
                let cut : file_read fs p pos buf count io_buf (some all)
                    ≡ read_size fs p pos buf rest io_buf all =
                  rw (whole, left, beyond, some_left) refl in
                let (buf', e, bytes) =
                  read_size-ReadBytes fs p pos buf rest io_buf all (omega arith)
                    (tabled rest (omega arith)) (λ a lo hi. known a (omega arith) (omega arith)) in
                inr (rw n (buf', cut ∙ e, bytes))
          ]
      | inr inside ↦
          let n : min count ((fs.inodes p).i_size - pos) ≡ count = ground arith in
          let asked : file_read fs p pos buf count io_buf (some all)
              ≡ read_size fs p pos buf count io_buf all =
            rw (whole, inside) refl in
          let (buf', e, bytes) =
            read_size-ReadBytes fs p pos buf count io_buf all (ground arith)
              (tabled count (ground arith)) (λ a lo hi. known a (omega arith) (ground arith)) in
          inr (rw n (buf', asked ∙ e, bytes))
    ]
  where
    tabled : (n : ℕ) → pos + n ≤ (fs.inodes p).i_size → HasTable (fs.inodes p) ((pos + n) / 512)
    tabled n le = elim with_table [ inl low ↦ inl (omega arith) | inr some_table ↦ inr some_table ]

-- A file with a first block that `count` more bytes make 71680 bytes long passes the test of
-- `file_write` for the size, and stops at an ASSERT.
pub file_write-full :
    (fs : Fs) (p fd_pos : ℕ) (buf : Buffer) (count : ℕ) (io_buf : Buffer) (all : ℕ → ℕ)
    → (fs.inodes p).i_sectors 0 ≢ 0
    → (fs.inodes p).i_size + count ≡ 512 * 140
    → (ltb (512 * 140) (add32 (fs.inodes p).i_size count) ≡ false)
      × (file_write fs p fd_pos buf count (some io_buf) (some all) ≡ panic)
unfolding file_write first_block
file_write-full fs p fd_pos buf count io_buf all block full =
    let total : add32 (fs.inodes p).i_size count ≡ 71680 = omega arith in
    let begun : ((fs.inodes p).i_sectors 0 == 0) ≡ false = ground arith in
    (rw total refl, rw (total, begun) refl)

-- A read of at least one byte, all of them in the file, that begins or ends in block 139 or a later
-- one stops at an ASSERT, if the sizes fit 32 bits.
pub file_read-last_block :
    (fs : Fs) (p pos : ℕ) (buf : Buffer) (count : ℕ) (io_buf : Buffer) (all : ℕ → ℕ)
    → pos + count ≤ (fs.inodes p).i_size
    → pos + count < 2 ^ 32
    → 139 * 512 ≤ pos + count
    → file_read fs p pos buf count io_buf (some all) ≡ panic
unfolding file_read read_size
file_read-last_block fs p pos buf count io_buf all within small high =
    let whole : add32 pos count ≡ pos + count = omega arith in
    let inside : ltb (fs.inodes p).i_size (pos + count) ≡ false = ground arith in
    let out : (ltb (pos / 512) 139 && ltb ((pos + count) / 512) 139) ≡ false = ground arith in
    rw (whole, inside, out) refl
