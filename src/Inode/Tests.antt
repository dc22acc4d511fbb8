-- ===== src/Inode/Tests.antt =====
-- The theorems on inodes at a small partition.
use tros.Prelude.{
  ℕ, ◌≡◌, ◌≢◌, refl, false, List, [], ◌∷◌, arith, ◌==◌, inl, inr, Bool-cases, if◌then◌else◌, ok,
  ◌>>=◌,
}
use tros.Bitmap.{is_set}
use tros.Bitmap.Bits.{IsBytes}
use tros.Disk.{Buffer, Disk}
use tros.Inode.{
  SuperBlock, Inode, Partition, Fs, find_open, put_inode, count_open, remove, pure_inode,
  inode_sync, inode_open, inode_close,
}
use tros.Inode.Sample.{empty, part, file, low_file, blank, idle, one_open}
use tros.Inode.Slots.{Same, Fits, OnDisk, slot}
use tros.Inode.Sync.{zero_inode, inode_sync-slot, inode_open-inode_sync}
use tros.Inode.Blocks.{for_blocks, set_and_sync, inode_release}
use tros.Inode.Release.{AllBlocks, freed_of, inode_release-Freed}
use tros.Inode.Mirror.{Mirrored, set_and_sync-Mirrored}
use tros.Inode.Opening.{Opens, Opened, inode_open-Opens}

OnDisk-part : (ps : List ℕ) → OnDisk (part ps)
OnDisk-part ps = record { within = omega arith; known = omega arith }

Fits-file : Fits file
Fits-file = record { no = omega arith; size = omega arith; sectors = λ k h. ground arith }

Fits-low_file : Fits low_file
Fits-low_file = record { no = omega arith; size = omega arith; sectors = λ k h. ground arith }

inode_sync-slot_example :
    (disk' : Disk) × (inode_sync (part []) blank file (λ i. 0) ≡ ok disk')
    × Same (slot (part []) disk' 44) (pure_inode file)
    × ((m : ℕ) → m ≢ 44 → Same (slot (part []) disk' m) (slot (part []) blank m))
inode_sync-slot_example = inode_sync-slot (part []) blank file (λ i. 0) (OnDisk-part []) Fits-file

inode_open-inode_sync_example :
    (fs' : Fs) × ((inode_sync (part []) blank low_file (λ i. 0) >>= λ disk.
    inode_open (record idle { disk = disk }) 5 16 (λ i. 0))
      ≡ ok (16, fs'))
    × Same (fs'.inodes 16) (record low_file { i_open_cnts = 1; write_deny = 0 })
unfolding find_open
inode_open-inode_sync_example =
    inode_open-inode_sync idle low_file 16 (λ i. 0) (λ i. 0) (OnDisk-part []) Fits-low_file
      (omega arith) refl

-- The inode at 16 opened once more.
abbrev reopened : Fs
reopened = record one_open { inodes = put_inode one_open.inodes 16 (count_open file) }

IsBytes-empty : (n : ℕ) → IsBytes (empty n)
IsBytes-empty n i = omega arith

AllBlocks-reopened : AllBlocks reopened (reopened.inodes 16)
AllBlocks-reopened = record {
  direct = λ k lt some_block. elim (Bool-cases (k == 0)) [
    | inl first ↦ rw first (omega arith, omega arith)
    | inr other ↦ absurd (some_block (rw other refl))
  ];
  table = λ e. absurd (e refl);
  in_table = λ e. absurd (e refl);
}

inode_release-Freed_example :
    (fs' : Fs) × (inode_release one_open 300 48 (λ i. 0) (λ i. 0) ≡ ok fs')
    × ((j : ℕ)
        → is_set fs'.part.block_bitmap j
          ≡ (if freed_of blank (reopened.inodes 16) 2662 j then false else is_set (empty 1536) j))
    × ((j : ℕ)
        → is_set fs'.part.inode_bitmap j ≡ (if 300 == j then false else is_set (empty 512) j))
    × Same (slot (part (16 ∷ [])) fs'.disk 300) zero_inode
unfolding find_open inode_open
inode_release-Freed_example =
    inode_release-Freed one_open reopened 300 48 16 (λ i. 0) (λ i. 0) refl (omega arith) refl
      (OnDisk-part (16 ∷ [])) (IsBytes-empty 1536) (IsBytes-empty 512) AllBlocks-reopened
      (omega arith)

set_and_sync-Mirrored_example :
    (fs' : Fs) × (set_and_sync idle for_blocks 38 1 ≡ ok fs') × Mirrored fs' for_blocks
unfolding Mirrored tros.Disk.from_sector
set_and_sync-Mirrored_example =
    set_and_sync-Mirrored idle for_blocks for_blocks 38 1
      (record { apart = omega arith; known = omega arith }) (omega arith) (omega arith)
      (λ i h. refl)

one_open-Opens : Opens one_open (16 ∷ [])
one_open-Opens = record {
  listed = λ p. ground arith;
  counted = λ p h. ground arith;
  one = λ p q hp hq e. ground arith;
}

idle-Opens : Opens idle []
idle-Opens = record {
  listed = λ p. refl;
  counted = λ p h. absurd (h refl);
  one = λ p q hp hq e. absurd (hp refl);
}

inode_open-Opens_example : Opened (inode_open idle 0 16 (λ i. 0)) 0 []
unfolding slot tros.Inode.load_inode tros.Disk.word_at tros.Disk.from_sector
inode_open-Opens_example =
    inode_open-Opens idle 0 16 (λ i. 0) [] idle-Opens (λ q. omega arith) (OnDisk-part [])
      (omega arith) refl refl
