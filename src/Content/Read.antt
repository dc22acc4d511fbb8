-- ===== src/Content/Read.antt =====
-- The loop of `file_read` of src/fs/file.c.
use tros.Prelude.{
  ℕ, zero, suc, ◌+◌, ◌-◌, ◌*◌, ◌/◌, ◌%◌, ◌^◌, ◌<◌, ◌≤◌, ◌≡◌, refl, ap, ◌∙◌, true, false, ◌&&◌,
  arith, ltb, leb, if◌then◌else◌, Bool-cases, inl, inr, add32, sub32, ok,
}
use tros.Disk.{Buffer, Disk, max_lba, read_sectors, ide_read-read_sectors, overlay, zero_range}
use tros.Content.{Reading, chunk_at, read_chunk, read_loop}

-- A chunk is no larger than what is left, and not empty unless nothing is left.
pub chunk_at_le : (pos size_left : ℕ) → chunk_at pos size_left ≤ size_left
chunk_at_le pos size_left = ground arith

pub chunk_at_sector : (pos size_left : ℕ) → pos % 512 + chunk_at pos size_left ≤ 512
chunk_at_sector pos size_left = ground arith

pub chunk_at_pos : (pos size_left : ℕ) → 0 < size_left → 0 < chunk_at pos size_left
chunk_at_pos pos size_left h = ground arith

pub chunk_at_full :
    (pos size_left : ℕ)
    → chunk_at pos size_left < size_left
    → pos % 512 + chunk_at pos size_left ≡ 512
chunk_at_full pos size_left h = ground arith

-- The byte of a file at a position, in the sectors that `all_blocks` gives.
unfoldable pub byte_at : Disk → (all_blocks : ℕ → ℕ) → Buffer
byte_at disk all_blocks pos = disk (all_blocks (pos / 512)) (pos % 512)

-- What a pass of the loop leaves.
unfoldable pub got_chunk : Disk → (ℕ → ℕ) → Reading → Reading
got_chunk disk all r =
    let chunk_size = chunk_at r.fd_pos r.size_left in
    let io_buf1 = read_sectors disk (all (r.fd_pos / 512)) (zero_range r.io_buf 0 512) 1 in
    record {
      buf = overlay r.buf r.bytes_read (λ k. io_buf1 (r.fd_pos % 512 + k)) chunk_size;
      fd_pos = add32 r.fd_pos chunk_size;
      io_buf = io_buf1;
      bytes_read = add32 r.bytes_read chunk_size;
      size_left = sub32 r.size_left chunk_size;
    }

pub read_chunk-got_chunk :
    (disk : Disk) (all : ℕ → ℕ) (r : Reading)
    → all (r.fd_pos / 512) ≤ max_lba
    → read_chunk disk all r ≡ ok (got_chunk disk all r)
unfolding read_chunk got_chunk
read_chunk-got_chunk disk all r known =
    rw
      (ide_read-read_sectors disk (all (r.fd_pos / 512)) (zero_range r.io_buf 0 512) 1 known
        (omega arith))
      refl

-- The blocks of the bytes from a position on are sectors that the driver knows.
abbrev pub KnownBlocks : (ℕ → ℕ) → (pos size : ℕ) → Type 0
KnownBlocks all pos size = (a : ℕ) → pos ≤ a → a < pos + size → all (a / 512) ≤ max_lba

-- What a pass of the loop puts into the buffer.
got_chunk-buf :
    (disk : Disk) (all : ℕ → ℕ) (r : Reading) (k : ℕ)
    → (got_chunk disk all r).buf k ≡ (
        if leb r.bytes_read k && ltb k (r.bytes_read + chunk_at r.fd_pos r.size_left)
        then byte_at disk all (r.fd_pos + (k - r.bytes_read))
        else r.buf k)
unfolding got_chunk overlay read_sectors byte_at
got_chunk-buf disk all r k =
    elim (Bool-cases (leb r.bytes_read k && ltb k (r.bytes_read + chunk_at r.fd_pos r.size_left))) [
      | inl within ↦
          let i = r.fd_pos % 512 + (k - r.bytes_read) in
          let small : ltb i (1 * 512) ≡ true = ground arith in
          let q : i / 512 ≡ 0 = ground arith in
          let z : all (r.fd_pos / 512) + 0 ≡ all (r.fd_pos / 512) = omega arith in
          let block : (r.fd_pos + (k - r.bytes_read)) / 512 ≡ r.fd_pos / 512 = ground arith in
          let off : i % 512 ≡ (r.fd_pos + (k - r.bytes_read)) % 512 = ground arith in
          rw (within, small, q, z, block, off) refl
      | inr without ↦ rw without refl
    ]

got_chunk-sizes :
    (disk : Disk) (all : ℕ → ℕ) (r : Reading)
    → r.fd_pos + r.size_left < 2 ^ 32
    → r.bytes_read + r.size_left < 2 ^ 32
    → ((got_chunk disk all r).fd_pos ≡ r.fd_pos + chunk_at r.fd_pos r.size_left)
      × ((got_chunk disk all r).bytes_read ≡ r.bytes_read + chunk_at r.fd_pos r.size_left)
      × ((got_chunk disk all r).size_left ≡ r.size_left - chunk_at r.fd_pos r.size_left)
unfolding got_chunk
got_chunk-sizes disk all r s1 s2 =
    let le = chunk_at_le r.fd_pos r.size_left in
    (omega (arith, le), omega (arith, le), omega (arith, le))

-- From `r` on, what is left has been read into the buffer, and the buffer is otherwise as it was.
pub record Got (disk : Disk) (all : ℕ → ℕ) (r r' : Reading) : Type 0 where
  pub count : r'.bytes_read ≡ r.bytes_read + r.size_left
  pub position : r'.fd_pos ≡ r.fd_pos + r.size_left
  pub new :
      (k : ℕ)
      → r.bytes_read ≤ k
      → k < r.bytes_read + r.size_left
      → r'.buf k ≡ byte_at disk all (r.fd_pos + (k - r.bytes_read))
  pub old : (k : ℕ) → k < r.bytes_read → r'.buf k ≡ r.buf k

Got-next :
    (disk : Disk) (all : ℕ → ℕ) (r r' : Reading)
    → r.fd_pos + r.size_left < 2 ^ 32
    → r.bytes_read + r.size_left < 2 ^ 32
    → Got disk all (got_chunk disk all r) r'
    → Got disk all r r'
unfolding got_chunk
Got-next disk all r r' s1 s2 g =
    let c = chunk_at r.fd_pos r.size_left in
    let le : c ≤ r.size_left = chunk_at_le r.fd_pos r.size_left in
    let e1 : add32 r.fd_pos c ≡ r.fd_pos + c = omega arith in
    let e2 : add32 r.bytes_read c ≡ r.bytes_read + c = omega arith in
    let e3 : sub32 r.size_left c ≡ r.size_left - c = omega arith in
    record {
      count = omega (arith, e2, e3, le, g.count);
      position = omega (arith, e1, e3, le, g.position);
      new = λ k lo hi. elim (Bool-cases (ltb k (r.bytes_read + chunk_at r.fd_pos r.size_left))) [
        | inl here ↦
            let lt : k < r.bytes_read + c = ground arith in
            let within : (leb r.bytes_read k
                  && ltb k (r.bytes_read + chunk_at r.fd_pos r.size_left))
                ≡ true =
              ground arith in
            g.old k (omega (arith, e1, e2, e3)) ∙ (rw within at (got_chunk-buf disk all r k))
        | inr later ↦
            let ge : r.bytes_read + c ≤ k = ground arith in
            g.new k (omega (arith, e1, e2, e3)) (omega (arith, e1, e2, e3))
            ∙ ap (byte_at disk all) (omega (arith, e1, e2, e3, le))
      ];
      old = λ k lt.
          let without : (leb r.bytes_read k && ltb k (r.bytes_read + chunk_at r.fd_pos r.size_left))
              ≡ false =
            ground arith in
          g.old k (omega (arith, e1, e2, e3)) ∙ (rw without at (got_chunk-buf disk all r k));
    }

-- From sizes and positions of 32 bits, and from sectors that the driver knows, with more fuel than
-- bytes left, the loop returns, and it has
-- read the bytes of the file from its position on into the buffer.
pub read_loop-Got :
    (fuel : ℕ) (disk : Disk) (all : ℕ → ℕ) (size : ℕ) (r : Reading)
    → r.fd_pos + r.size_left < 2 ^ 32
    → size < 2 ^ 32
    → r.bytes_read + r.size_left ≡ size
    → r.size_left < fuel
    → KnownBlocks all r.fd_pos r.size_left
    → (r' : Reading) × (read_loop fuel disk all size r ≡ ok r') × Got disk all r r'
unfolding read_loop
read_loop-Got zero disk all size r s1 s2 sum enough known = absurd (omega arith)
read_loop-Got (suc fuel) disk all size r s1 s2 sum enough known =
    elim (Bool-cases (ltb r.bytes_read size)) [
      | inl more ↦
          let c = chunk_at r.fd_pos r.size_left in
          let some_left : 0 < r.size_left = ground arith in
          let le : c ≤ r.size_left = chunk_at_le r.fd_pos r.size_left in
          let pos : 0 < c = chunk_at_pos r.fd_pos r.size_left some_left in
          let sizes = got_chunk-sizes disk all r s1 (omega arith) in
          let (r', e, g) =
            read_loop-Got fuel disk all size (got_chunk disk all r) (omega (arith, sizes, le)) s2
              (omega (arith, sizes, le)) (omega (arith, sizes, le, pos))
              (λ a lo hi. known a (omega (arith, sizes)) (omega (arith, sizes, le))) in
          let here : all (r.fd_pos / 512) ≤ max_lba =
            known r.fd_pos (omega arith) (omega (arith, some_left)) in
          (
            r',
            rw (more, read_chunk-got_chunk disk all r here) e,
            Got-next disk all r r' s1 (omega arith) g,
          )
      | inr done ↦
          let none_left : r.size_left ≡ 0 = ground arith in
          (
            r,
            rw done refl,
            record {
              count = omega (arith, none_left);
              position = omega (arith, none_left);
              new = λ k lo hi. absurd (omega (arith, none_left));
              old = λ k lt. refl;
            },
          )
    ]

-- The variables at the start of the loop.
abbrev pub read_start : (buf : Buffer) → (fd_pos : ℕ) → (io_buf : Buffer) → (size : ℕ) → Reading
read_start buf fd_pos io_buf size = record {
  buf = buf;
  fd_pos = fd_pos;
  io_buf = io_buf;
  bytes_read = 0;
  size_left = size;
}
