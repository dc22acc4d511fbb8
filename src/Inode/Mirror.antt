-- ===== src/Inode/Mirror.antt =====
-- The bitmaps on the disk follow those in memory (`bitmap_sync` of src/fs/file.c).
use tros.Prelude.{
  ℕ, ◌+◌, ◌*◌, ◌/◌, ◌%◌, ◌<◌, ◌≤◌, ◌≡◌, ◌≢◌, refl, sym, ◌∙◌, true, false, arith, ◌==◌, Bool-cases,
  ◌||◌, ◌⊎◌, inl, inr, add32, ok,
}
use tros.Bitmap.{Bitmap, update_bit, bitmap_set}
use tros.Disk.{Buffer, Disk, max_lba, write_sectors, ide_write-write_sectors, from_sector}
use tros.Disk.Words.{from_sector-write_sectors}
use tros.Inode.{SuperBlock, Partition, Fs}
use tros.Inode.Blocks.{
  BitmapType, for_inodes, for_blocks, bitmap_lba, bitmap_of, put_bitmap, bitmap_sync, set_and_sync,
}

abbrev pub bitmap_sects : SuperBlock → BitmapType → ℕ
bitmap_sects sb for_inodes = sb.inode_bitmap_sects
bitmap_sects sb for_blocks = sb.block_bitmap_sects

-- The sectors of the block bitmap lie before those of the inode bitmap, and the driver knows them.
pub record LaidOut (sb : SuperBlock) : Type 0 where
  pub apart : sb.block_bitmap_lba + sb.block_bitmap_sects ≤ sb.inode_bitmap_lba
  pub known : sb.inode_bitmap_lba + sb.inode_bitmap_sects ≤ max_lba + 1

-- The disk behind `bitmap_sync`.
abbrev pub synced : Partition → Disk → (bit_idx : ℕ) → BitmapType → Disk
synced part disk bit_idx btmp_type =
    let bitmap_off : Buffer = λ i. (bitmap_of part btmp_type).bits (bit_idx / 4096 * 512 + i) in
    write_sectors disk (add32 (bitmap_lba part.sb btmp_type) (bit_idx / 4096)) bitmap_off 1

pub bitmap_sync-synced :
    (part : Partition) (disk : Disk) (bit_idx : ℕ) (t : BitmapType)
    → add32 (bitmap_lba part.sb t) (bit_idx / 4096) ≤ max_lba
    → bitmap_sync part disk bit_idx t ≡ ok (synced part disk bit_idx t)
unfolding bitmap_sync
bitmap_sync-synced part disk bit_idx t known =
    ide_write-write_sectors disk (add32 (bitmap_lba part.sb t) (bit_idx / 4096))
      (λ i. (bitmap_of part t).bits (bit_idx / 4096 * 512 + i)) 1 known (omega arith)

-- The sectors of a bitmap hold the bitmap in memory.
unfoldable pub Mirrored : Fs → BitmapType → Type 0
Mirrored fs t =
    (i : ℕ)
    → i < bitmap_sects fs.part.sb t * 512
    → from_sector fs.disk (bitmap_lba fs.part.sb t) i ≡ (bitmap_of fs.part t).bits i

bits-update_bit : (b : Bitmap) (idx v i : ℕ) → i ≢ idx / 8 → (update_bit b idx v).bits i ≡ b.bits i
unfolding update_bit
bits-update_bit b idx v i other = let t : (idx / 8 == i) ≡ false = ground arith in rw t refl

-- One bitmap after one of its bits has been written.
module _ (disk : Disk) (lba sects idx v : ℕ) (b : Bitmap) where
  written : Disk
  written =
      write_sectors disk (add32 lba (idx / 4096))
        (λ i. (update_bit b idx v).bits (idx / 4096 * 512 + i)) 1

  written-same :
      lba + sects ≤ max_lba + 1
      → idx < sects * 4096
      → ((i : ℕ) → i < sects * 512 → from_sector disk lba i ≡ b.bits i)
      → (i : ℕ) → i < sects * 512
      → from_sector written lba i ≡ (update_bit b idx v).bits i
  unfolding written
  written-same small within m i h =
      from_sector-write_sectors disk lba _ _ i
      ∙ elim (Bool-cases (lba + i / 512 == add32 lba (idx / 4096))) [
        | inl here ↦ let e : idx / 4096 * 512 + i % 512 ≡ i = ground arith in rw (here, e) refl
        | inr there ↦ rw there (m i h ∙ sym (bits-update_bit b idx v i (ground arith)))
      ]

  written-other :
      (other i : ℕ)
      → lba + sects ≤ max_lba + 1
      → idx < sects * 4096
      → (other + i / 512 < lba) ⊎ (lba + sects ≤ other + i / 512)
      → from_sector written other i ≡ from_sector disk other i
  unfolding written
  written-other other i small within apart =
      let t : (other + i / 512 == add32 lba (idx / 4096)) ≡ false = ground arith in
      from_sector-write_sectors disk other _ _ i ∙ rw t refl

-- A bit of a bitmap with sectors for it, where the bitmaps are apart and the driver knows their
-- sectors: writing it and syncing it returns, and if the bitmap was
-- mirrored on the disk, then it is again; so is the other bitmap.
pub set_and_sync-Mirrored :
    (fs : Fs) (t u : BitmapType) (idx v : ℕ)
    → LaidOut fs.part.sb
    → idx < bitmap_sects fs.part.sb t * 4096
    → v ≤ 1
    → Mirrored fs u
    → (fs' : Fs) × (set_and_sync fs t idx v ≡ ok fs') × Mirrored fs' u
unfolding set_and_sync bitmap_set bitmap_sync Mirrored written
set_and_sync-Mirrored fs t u idx v out within bit m =
    let valid : ((v == 0) || (v == 1)) ≡ true = ground arith in
    (after fs t idx v, rw (valid, runs t within) refl, cases t u within m)
  where
    after : Fs → BitmapType → ℕ → ℕ → Fs
    after fs t idx v = record {
      part = put_bitmap fs.part t (update_bit (bitmap_of fs.part t) idx v);
      disk = synced (put_bitmap fs.part t (update_bit (bitmap_of fs.part t) idx v)) fs.disk idx t;
      inodes = fs.inodes;
    }

    runs :
        (t : BitmapType)
        → idx < bitmap_sects fs.part.sb t * 4096
        → bitmap_sync (put_bitmap fs.part t (update_bit (bitmap_of fs.part t) idx v)) fs.disk idx t
          ≡ ok
              (synced (put_bitmap fs.part t (update_bit (bitmap_of fs.part t) idx v)) fs.disk idx t)
    runs for_inodes h =
        bitmap_sync-synced
          (put_bitmap fs.part for_inodes (update_bit (bitmap_of fs.part for_inodes) idx v)) fs.disk
          idx for_inodes (omega (arith, out.known))
    runs for_blocks h =
        bitmap_sync-synced
          (put_bitmap fs.part for_blocks (update_bit (bitmap_of fs.part for_blocks) idx v)) fs.disk
          idx for_blocks (omega (arith, out.known, out.apart))

    cases :
        (t u : BitmapType)
        → idx < bitmap_sects fs.part.sb t * 4096
        → Mirrored fs u
        → Mirrored (after fs t idx v) u
    cases for_inodes for_inodes h m =
        written-same fs.disk _ _ idx v fs.part.inode_bitmap out.known h m
    cases for_blocks for_blocks h m =
        written-same fs.disk _ _ idx v fs.part.block_bitmap (omega (arith, out.known, out.apart)) h
          m
    cases for_inodes for_blocks h m = λ i lt.
        written-other fs.disk _ _ idx v fs.part.inode_bitmap _ i out.known h
          (inl (omega (arith, out.apart)))
        ∙ m i lt
    cases for_blocks for_inodes h m = λ i lt.
        written-other fs.disk _ _ idx v fs.part.block_bitmap _ i
          (omega (arith, out.known, out.apart)) h (inr (omega (arith, out.apart)))
        ∙ m i lt
