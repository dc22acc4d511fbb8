-- ===== src/Content/Write.antt =====
-- The loop of `file_write` of src/fs/file.c.
use tros.Prelude.{
  ℕ, zero, suc, ◌+◌, ◌-◌, ◌*◌, ◌/◌, ◌%◌, ◌^◌, ◌<◌, ◌≤◌, ◌≡◌, ◌≢◌, refl, ap, ◌∙◌, true, false, ◌&&◌,
  arith, ltb, leb, ◌==◌, if◌then◌else◌, Bool-cases, inl, inr, Bool, add32, sub32, ok,
}
use tros.Disk.{
  Buffer, max_lba, in_time, ide_read, ide_read-read_sectors, ide_write-write_sectors, read_sectors,
  write_sectors, overlay, zero_range,
}
use tros.Content.{Writing, chunk_at, write_chunk, write_loop}
use tros.Content.Read.{byte_at, chunk_at_le, chunk_at_sector, chunk_at_pos, chunk_at_full}

-- What a pass of the loop leaves.
unfoldable pub written_chunk : (ℕ → ℕ) → (src : Buffer) → Writing → Writing
written_chunk all src w =
    let chunk_size = chunk_at w.i_size w.size_left in
    let clear = zero_range w.io_buf 0 512 in
    let io_buf1 =
      if w.first_write_block then read_sectors w.disk (all (w.i_size / 512)) clear 1 else clear in
    let io_buf2 = overlay io_buf1 (w.i_size % 512) (λ k. src (w.bytes_written + k)) chunk_size in
    record {
      disk = write_sectors w.disk (all (w.i_size / 512)) io_buf2 1;
      i_size = add32 w.i_size chunk_size;
      fd_pos = add32 w.fd_pos chunk_size;
      io_buf = io_buf2;
      bytes_written = add32 w.bytes_written chunk_size;
      size_left = sub32 w.size_left chunk_size;
      first_write_block = false;
    }

-- The first block is read, and every block is written.
pub write_chunk-written_chunk :
    (all : ℕ → ℕ) (src : Buffer) (w : Writing)
    → all (w.i_size / 512) ≤ max_lba
    → write_chunk all src w ≡ ok (written_chunk all src w)
unfolding write_chunk written_chunk
write_chunk-written_chunk all src w known =
    rw (first_read w.first_write_block, ide_write-write_sectors w.disk lba _ 1 known (omega arith))
      refl
  where
    lba : ℕ
    lba = all (w.i_size / 512)

    clear : Buffer
    clear = zero_range w.io_buf 0 512

    first_read :
        (first : Bool)
        → (if first then ide_read in_time w.disk lba clear 1 else ok clear)
          ≡ ok (if first then read_sectors w.disk lba clear 1 else clear)
    first_read true = ide_read-read_sectors w.disk lba clear 1 known (omega arith)
    first_read false = refl

-- The blocks into which what is left is written.
pub record Touched (w : Writing) (j : ℕ) : Type 0 where
  pub some_left : 0 < w.size_left
  pub from : w.i_size / 512 ≤ j
  pub to : j * 512 < w.i_size + w.size_left

-- The sizes fit 32 bits, the first block that is not read begins a sector, and the blocks that are
-- written lie in different sectors, which the driver knows.
pub record Ready (all : ℕ → ℕ) (w : Writing) : Type 0 where
  pub size : w.i_size + w.size_left < 2 ^ 32
  pub total : w.bytes_written + w.size_left < 2 ^ 32
  pub begun : w.first_write_block ≡ false → 0 < w.size_left → w.i_size % 512 ≡ 0
  pub apart : (j k : ℕ) → Touched w j → Touched w k → all j ≡ all k → j ≡ k
  pub known : (j : ℕ) → Touched w j → all j ≤ max_lba

-- From `w` on, what is left of `src` has been written behind the end of the file: the bytes before the
-- end and the sectors of other blocks are as they were.
pub record Wrote (all : ℕ → ℕ) (src : Buffer) (w w' : Writing) : Type 0 where
  pub count : w'.bytes_written ≡ w.bytes_written + w.size_left
  pub end : w'.i_size ≡ w.i_size + w.size_left
  pub new :
      (a : ℕ)
      → w.i_size ≤ a
      → a < w.i_size + w.size_left
      → byte_at w'.disk all a ≡ src (w.bytes_written + (a - w.i_size))
  pub old :
      (a : ℕ)
      → w.first_write_block ≡ true
      → w.i_size / 512 * 512 ≤ a
      → a < w.i_size
      → byte_at w'.disk all a ≡ byte_at w.disk all a
  pub others : (s : ℕ) → ((j : ℕ) → Touched w j → all j ≢ s) → (i : ℕ) → w'.disk s i ≡ w.disk s i

module _ (all : ℕ → ℕ) (src : Buffer) (w : Writing) where
  abbrev chunk : ℕ
  chunk = chunk_at w.i_size w.size_left

  -- The sector that a pass of the loop writes, and no other.
  written_chunk-sector :
      (s i : ℕ)
      → (all (w.i_size / 512) == s) ≡ false
      → (written_chunk all src w).disk s i ≡ w.disk s i
  unfolding written_chunk write_sectors
  written_chunk-sector s i other =
      let t : (leb (all (w.i_size / 512)) s && ltb s (all (w.i_size / 512) + 1)) ≡ false =
        ground arith in
      rw t refl

  written_chunk-here :
      (i : ℕ)
      → i < 512
      → (written_chunk all src w).disk (all (w.i_size / 512)) i ≡ (
          if leb (w.i_size % 512) i && ltb i (w.i_size % 512 + chunk)
          then src (w.bytes_written + (i - w.i_size % 512))
          else if w.first_write_block
          then w.disk (all (w.i_size / 512)) i
          else 0)
  unfolding written_chunk write_sectors read_sectors overlay zero_range
  written_chunk-here i small =
      let lba = all (w.i_size / 512) in
      let t : (leb lba lba && ltb lba (lba + 1)) ≡ true = ground arith in
      let k : (lba - lba) * 512 + i ≡ i = omega arith in
      let b : ltb i (1 * 512) ≡ true = ground arith in
      let b2 : (leb 0 i && ltb i (0 + 512)) ≡ true = ground arith in
      let q : lba + i / 512 ≡ lba = omega arith in
      let r : i % 512 ≡ i = omega arith in
      rw (t, k)
        (elim (Bool-cases w.first_write_block) [
          | inl first ↦ rw (first, b, q, r) refl
          | inr later ↦ rw (later, b2) refl
        ])

  written_chunk-sizes :
      Ready all w
      → ((written_chunk all src w).i_size ≡ w.i_size + chunk)
        × ((written_chunk all src w).bytes_written ≡ w.bytes_written + chunk)
        × ((written_chunk all src w).size_left ≡ w.size_left - chunk)
  unfolding written_chunk
  written_chunk-sizes v =
      let le = chunk_at_le w.i_size w.size_left in
      (omega (arith, le, v.size), omega (arith, le, v.total), omega (arith, le, v.size))

  -- Of what is left behind a pass, the blocks are later ones.
  Touched-next :
      Ready all w
      → (j : ℕ) → Touched (written_chunk all src w) j
      → Touched w j × (w.i_size / 512 < j)
  Touched-next v j t =
      let e = written_chunk-sizes v in
      let le = chunk_at_le w.i_size w.size_left in
      let full = chunk_at_full w.i_size w.size_left (omega (arith, e, t.some_left)) in
      (
        record {
          some_left = omega (arith, e, t.some_left);
          from = omega (arith, e, t.from);
          to = omega (arith, e, t.to, le);
        },
        omega (arith, e, t.from, full),
      )

  Ready-next : Ready all w → Ready all (written_chunk all src w)
  Ready-next v =
      let e = written_chunk-sizes v in
      let le = chunk_at_le w.i_size w.size_left in
      record {
        size = omega (arith, e, le, v.size);
        total = omega (arith, e, le, v.total);
        begun = λ no_first more.
            let full = chunk_at_full w.i_size w.size_left (omega (arith, e, more)) in
            omega (arith, e, full);
        apart = λ j k tj tk. v.apart j k (Touched-next v j tj).0 (Touched-next v k tk).0;
        known = λ j t. v.known j (Touched-next v j t).0;
      }

  -- The block of the pass stays as the pass has left it.
  kept_block :
      (w' : Writing)
      → Ready all w
      → 0 < w.size_left
      → Wrote all src (written_chunk all src w) w'
      → (i : ℕ)
      → w'.disk (all (w.i_size / 512)) i ≡ (written_chunk all src w).disk (all (w.i_size / 512)) i
  kept_block w' v more g i =
      g.others (all (w.i_size / 512))
        (λ j t same. absurd (
          let next = Touched-next v j t in
          let eq : j ≡ w.i_size / 512 =
            v.apart j (w.i_size / 512) next.0 (first_touched more) same in
          omega (arith, next.1, eq)))
        i
    where
      first_touched : 0 < w.size_left → Touched w (w.i_size / 512)
      first_touched more = record { some_left = more; from = omega arith; to = omega arith }

  Wrote-next :
      (w' : Writing)
      → Ready all w
      → 0 < w.size_left
      → Wrote all src (written_chunk all src w) w'
      → Wrote all src w w'
  unfolding byte_at
  Wrote-next w' v more g =
      let e = written_chunk-sizes v in
      let le = chunk_at_le w.i_size w.size_left in
      let fits = chunk_at_sector w.i_size w.size_left in
      record {
        count = omega (arith, e, le, g.count);
        end = omega (arith, e, le, g.end);
        new = λ a lo hi. elim (Bool-cases (ltb a (w.i_size + chunk))) [
          | inl here ↦
              let lt : a < w.i_size + chunk = ground arith in
              let block : a / 512 ≡ w.i_size / 512 = omega (arith, lt, fits) in
              let within : (leb (w.i_size % 512) (a % 512)
                    && ltb (a % 512) (w.i_size % 512 + chunk))
                  ≡ true =
                ground (arith, fits) in
              let off : a % 512 - w.i_size % 512 ≡ a - w.i_size = omega (arith, lt, fits) in
              rw block (
                kept_block w' v more g (a % 512)
                ∙ written_chunk-here (a % 512) (omega arith)
                ∙ rw (within, off) refl)
          | inr later ↦
              let ge : w.i_size + chunk ≤ a = ground arith in
              let at : (written_chunk all src w).bytes_written
                    + (a - (written_chunk all src w).i_size)
                  ≡ w.bytes_written + (a - w.i_size) =
                omega (arith, e, ge) in
              g.new a (omega (arith, e, ge)) (omega (arith, e, le, hi)) ∙ ap src at
        ];
        old = λ a first lo hi.
            let block : a / 512 ≡ w.i_size / 512 = omega (arith, lo, hi) in
            let before : a % 512 < w.i_size % 512 = omega (arith, lo, hi) in
            let without : (leb (w.i_size % 512) (a % 512) && ltb (a % 512) (w.i_size % 512 + chunk))
                ≡ false =
              ground arith in
            rw block (
              kept_block w' v more g (a % 512)
              ∙ written_chunk-here (a % 512) (omega arith)
              ∙ rw (without, first) refl);
        others = λ s apart i.
            let mine : Touched w (w.i_size / 512) = record {
              some_left = more;
              from = omega arith;
              to = omega arith;
            } in
            let other : (all (w.i_size / 512) == s) ≡ false =
              differ _ s (apart (w.i_size / 512) mine) in
            g.others s (λ j t. apart j (Touched-next v j t).0) i ∙ written_chunk-sector s i other;
      }
    where
      differ : (a b : ℕ) → a ≢ b → (a == b) ≡ false
      differ a b h = ground arith

-- If the blocks to be written lie in different sectors that the driver knows, the sizes fit 32 bits,
-- and a block that is not read first begins a sector, the loop returns with more fuel than bytes
-- left, and what is left has been written.
pub write_loop-Wrote :
    (fuel : ℕ) (all : ℕ → ℕ) (src : Buffer) (count : ℕ) (w : Writing)
    → Ready all w
    → w.bytes_written + w.size_left ≡ count
    → w.size_left < fuel
    → (w' : Writing) × (write_loop fuel all src count w ≡ ok w') × Wrote all src w w'
unfolding write_loop
write_loop-Wrote zero all src count w v sum enough = absurd (omega arith)
write_loop-Wrote (suc fuel) all src count w v sum enough =
    elim (Bool-cases (ltb w.bytes_written count)) [
      | inl more ↦
          let some_left : 0 < w.size_left = ground arith in
          let le = chunk_at_le w.i_size w.size_left in
          let pos = chunk_at_pos w.i_size w.size_left some_left in
          let e = written_chunk-sizes all src w v in
          let (w', run, g) =
            write_loop-Wrote fuel all src count (written_chunk all src w) (Ready-next all src w v)
              (omega (arith, e, le, sum)) (omega (arith, e, le, pos, enough)) in
          let here : all (w.i_size / 512) ≤ max_lba =
            v.known (w.i_size / 512)
              (record { some_left = some_left; from = omega arith; to = omega arith }) in
          (
            w',
            rw (more, write_chunk-written_chunk all src w here) run,
            Wrote-next all src w w' v some_left g,
          )
      | inr done ↦
          let none_left : w.size_left ≡ 0 = ground arith in
          (
            w,
            rw done refl,
            record {
              count = omega (arith, none_left);
              end = omega (arith, none_left);
              new = λ a lo hi. absurd (omega (arith, none_left));
              old = λ a first lo hi. refl;
              others = λ s apart i. refl;
            },
          )
    ]
