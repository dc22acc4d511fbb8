-- ===== src/Inode/Release.antt =====
-- What `inode_release` of src/fs/inode.c gives back.
use tros.Prelude.{
  ℕ, zero, suc, ◌+◌, ◌-◌, ◌*◌, ◌/◌, ◌%◌, ◌<◌, ◌≤◌, ◌≡◌, ◌≢◌, refl, sym, ap, ◌∙◌, Bool, true, false,
  not, ◌&&◌, ◌||◌, arith, ltb, ◌==◌, if◌then◌else◌, Bool-cases, inl, inr, add32, sub32, ok,
}
use mathlib.Core.Path.{subst}
use tros.Bitmap.{Bitmap, is_set, update_bit, bitmap_set}
use tros.Bitmap.Bits.{IsBytes, update_bit-IsBytes, is_set-update_bit}
use tros.Disk.{Buffer, Disk, max_lba, read_sectors, ide_read-read_sectors, word_at, from_sector}
use tros.Disk.Words.{word_at-eq}
use tros.Inode.Mirror.{synced, bitmap_sync-synced}
use tros.Inode.{SuperBlock, Inode, Partition, Fs, inode_size, load_inode, inode_open, inode_close}
use tros.Inode.Slots.{Same, OnDisk, slot}
use tros.Inode.Sync.{zero_inode, inode_delete-slot}
use tros.Inode.Blocks.{
  for_inodes, for_blocks, set_and_sync, release_block, release_blocks, has_table, gather_blocks,
  block_cnt, release_data, inode_release,
}

-- The bits that the loop over `left` blocks from `idx` on gives back.
pub freed : (left : ℕ) → (all_blocks : ℕ → ℕ) → (idx base : ℕ) → ℕ → Bool
freed zero all_blocks idx base j = false
freed (suc left) all_blocks idx base j =
    (not (all_blocks idx == 0) && (sub32 (all_blocks idx) base == j))
    || freed left all_blocks (idx + 1) base j

-- From `fs` to `fs'`, the blocks of `gone` have been given back, and nothing else has changed but the
-- disk.
pub record Freed (fs fs' : Fs) (gone : ℕ → Bool) : Type 0 where
  pub bytes : IsBytes fs'.part.block_bitmap
  pub bits :
      (j : ℕ)
      → is_set fs'.part.block_bitmap j ≡ (if gone j then false else is_set fs.part.block_bitmap j)
  pub rest : fs'.part ≡ record fs.part { block_bitmap = fs'.part.block_bitmap }
  pub memory : fs'.inodes ≡ fs.inodes

-- A block in the data area, behind its first sector, with its bit in a sector that the driver knows.
abbrev pub IsBlock : SuperBlock → (lba : ℕ) → Type 0
IsBlock sb lba =
    (0 < sub32 lba sb.data_start_lba)
    × (add32 sb.block_bitmap_lba (sub32 lba sb.data_start_lba / 4096) ≤ max_lba)

pub release_block-Freed :
    (fs : Fs) (lba : ℕ)
    → IsBytes fs.part.block_bitmap
    → IsBlock fs.part.sb lba
    → (fs' : Fs) × (release_block fs lba ≡ ok fs')
      × Freed fs fs' (λ j. sub32 lba fs.part.sb.data_start_lba == j)
unfolding release_block set_and_sync bitmap_set
release_block-Freed fs lba h (some_block, known) =
    let idx = sub32 lba fs.part.sb.data_start_lba in
    let t : ltb 0 idx ≡ true = ground arith in
    let part : Partition = record fs.part {
      block_bitmap = update_bit fs.part.block_bitmap idx 0;
    } in
    (
      record fs { part = part; disk = synced part fs.disk idx for_blocks },
      rw (t, bitmap_sync-synced part fs.disk idx for_blocks known) refl,
      record {
        bytes = update_bit-IsBytes fs.part.block_bitmap idx 0 h;
        bits = λ j. is_set-update_bit fs.part.block_bitmap idx 0 j h;
        rest = refl;
        memory = refl;
      },
    )

Freed-none :
    (fs : Fs) (gone : ℕ → Bool)
    → ((j : ℕ) → gone j ≡ false)
    → IsBytes fs.part.block_bitmap
    → Freed fs fs gone
Freed-none fs gone e h = record { bytes = h; bits = λ j. rw (e j) refl; rest = refl; memory = refl }

Freed-trans :
    (a b c : Fs) (f g gone : ℕ → Bool)
    → ((j : ℕ) → gone j ≡ (f j || g j))
    → Freed a b f
    → Freed b c g
    → Freed a c gone
Freed-trans a b c f g gone either p q = record {
  bytes = q.bytes;
  bits = λ j. ground (arith, either j, p.bits j, q.bits j);
  rest =
      q.rest
      ∙ ap {A = Partition} {B = Partition}
          (λ part. record part { block_bitmap = c.part.block_bitmap }) p.rest;
  memory = q.memory ∙ p.memory;
}

pub release_blocks-Freed :
    (left : ℕ) (all : ℕ → ℕ) (idx : ℕ) (fs : Fs)
    → IsBytes fs.part.block_bitmap
    → ((k : ℕ) → idx ≤ k → k < idx + left → all k ≢ 0 → IsBlock fs.part.sb (all k))
    → (fs' : Fs) × (release_blocks left all idx fs ≡ ok fs')
      × Freed fs fs' (freed left all idx fs.part.sb.data_start_lba)
unfolding release_blocks freed
release_blocks-Freed zero all idx fs h v = (fs, refl, Freed-none fs _ (λ j. refl) h)
release_blocks-Freed (suc left) all idx fs h v = elim (Bool-cases (all idx == 0)) [
  | inl hole ↦
      let (fs', e, f) =
        release_blocks-Freed left all (idx + 1) fs h (λ k p q. v k (omega arith) (omega arith)) in
      (
        fs',
        rw hole e,
        Freed-trans fs fs fs' (λ j. false) _ _ (λ j. rw hole refl) (Freed-none fs _ (λ j. refl) h)
            f,
      )
  | inr block ↦
      let base = fs.part.sb.data_start_lba in
      let (fs1, e1, f1) =
        release_block-Freed fs (all idx) h (v idx (omega arith) (omega arith) (ground arith)) in
      let same : fs1.part.sb ≡ fs.part.sb = ap (λ part. part.sb) f1.rest in
      let (fs', e, f) =
        release_blocks-Freed left all (idx + 1) fs1 f1.bytes
          λ k p q some_block. rw same (v k (omega arith) (omega arith) some_block) in
      (
        fs',
        rw (block, e1) e,
        Freed-trans fs fs1 fs' (λ j. sub32 (all idx) base == j) (freed left all (idx + 1) base) _
            (λ j. rw block refl) f1
            (subst (λ sb. Freed fs1 fs' (freed left all (idx + 1) sb.data_start_lba)) same f),
      )
]

-- The addresses in the sector of an indirect table.
abbrev pub indirect : Disk → (table : ℕ) → ℕ → ℕ
indirect disk table k = word_at (disk table) (k * 4)

-- The blocks of an inode: the 12 direct ones, and if there is an indirect table, its sector and the
-- 128 blocks in it.
pub freed_of : Disk → Inode → (base : ℕ) → ℕ → Bool
freed_of disk inode base j =
    freed 12 inode.i_sectors 0 base j
    || (not (inode.i_sectors 12 == 0)
        && ((sub32 (inode.i_sectors 12) base == j)
            || freed 128 (indirect disk (inode.i_sectors 12)) 0 base j))

-- The blocks of an inode lie in the data area, behind its first sector.
pub record AllBlocks (fs : Fs) (inode : Inode) : Type 0 where
  pub direct : (k : ℕ) → k < 12 → inode.i_sectors k ≢ 0 → IsBlock fs.part.sb (inode.i_sectors k)
  pub table :
      inode.i_sectors 12 ≢ 0
      → (inode.i_sectors 12 ≤ max_lba) × IsBlock fs.part.sb (inode.i_sectors 12)
  pub in_table :
      inode.i_sectors 12 ≢ 0
      → (k : ℕ) → k < 128
      → indirect fs.disk (inode.i_sectors 12) k ≢ 0
      → IsBlock fs.part.sb (indirect fs.disk (inode.i_sectors 12) k)

freed_same :
    (n : ℕ) (f g : ℕ → ℕ) (i j base b : ℕ)
    → ((k : ℕ) → k < n → f (i + k) ≡ g (j + k))
    → freed n f i base b ≡ freed n g j base b
unfolding freed
freed_same zero f g i j base b same = refl
freed_same (suc n) f g i j base b same =
    let z : i + 0 ≡ i = omega arith in
    let z' : j + 0 ≡ j = omega arith in
    let first : f i ≡ g j = rw (z, z') at (same 0 (omega arith)) in
    let later = freed_same n f g (i + 1) (j + 1) base b λ k lt.
      let e : i + 1 + k ≡ i + (k + 1) = omega arith in
      let e' : j + 1 + k ≡ j + (k + 1) = omega arith in rw (e, e') (same (k + 1) (omega arith)) in
    rw (first, later) refl

freed_split :
    (m n : ℕ) (f : ℕ → ℕ) (i base b : ℕ)
    → freed (m + n) f i base b ≡ (freed m f i base b || freed n f (i + m) base b)
unfolding freed
freed_split zero n f i base b =
    let z : 0 + n ≡ n = omega arith in let z' : i + 0 ≡ i = omega arith in rw (z, z') refl
freed_split (suc m) n f i base b =
    let s : suc m + n ≡ suc (m + n) = omega arith in
    let e : i + suc m ≡ i + 1 + m = omega arith in
    rw (s, e) (ground (arith, freed_split m n f (i + 1) base b))

-- A word of a sector that has been read.
pub read_word :
    (disk : Disk) (lba k : ℕ)
    → k < 128
    → word_at (read_sectors disk lba (λ i. 0) 1) (k * 4) ≡ indirect disk lba k
unfolding read_sectors
read_word disk lba k lt =
    word_at-eq (read_sectors disk lba (λ i. 0) 1) (disk lba) (k * 4) (k * 4) λ i h.
      let t : ltb (k * 4 + i) (1 * 512) ≡ true = ground arith in
      let q : lba + (k * 4 + i) / 512 ≡ lba = omega arith in
      let r : (k * 4 + i) % 512 ≡ k * 4 + i = omega arith in rw (t, q, r) refl

-- What the array `all_blocks` holds.
record Gathered (disk : Disk) (inode : Inode) : Type 0 where
  all : ℕ → ℕ
  runs : gather_blocks disk inode ≡ ok all
  direct : (k : ℕ) → k < 12 → all k ≡ inode.i_sectors k
  in_table :
      inode.i_sectors 12 ≢ 0
      → (k : ℕ) → k < 128
      → all (12 + k) ≡ indirect disk (inode.i_sectors 12) k

gather_blocks-Gathered :
    (disk : Disk) (inode : Inode)
    → (inode.i_sectors 12 ≢ 0 → inode.i_sectors 12 ≤ max_lba)
    → Gathered disk inode
unfolding gather_blocks
gather_blocks-Gathered disk inode known = elim (Bool-cases (inode.i_sectors 12 == 0)) [
  | inl none_there ↦ record {
    all = λ k. if ltb k 12 then inode.i_sectors k else 0;
    runs = rw none_there refl;
    direct = λ k lt. let t : ltb k 12 ≡ true = ground arith in rw t refl;
    in_table = λ h k lt. absurd (h (ground arith));
  }
  | inr there ↦
      let read = read_sectors disk (inode.i_sectors 12) (λ i. 0) 1 in
      record {
        all = λ k.
            if ltb k 12
            then inode.i_sectors k
            else if ltb k 140
            then word_at read ((k - 12) * 4)
            else 0;
        runs =
            rw
              (
                there,
                ide_read-read_sectors disk (inode.i_sectors 12) (λ i. 0) 1 (known (ground arith))
                    (omega arith),
              )
              refl;
        direct = λ k lt. let t : ltb k 12 ≡ true = ground arith in rw t refl;
        in_table = λ h k lt.
            let t : ltb (12 + k) 12 ≡ false = ground arith in
            let u : ltb (12 + k) 140 ≡ true = ground arith in
            let e : 12 + k - 12 ≡ k = omega arith in
            rw (t, u, e) (read_word disk (inode.i_sectors 12) k lt);
      }
]

release_table :
    (fs : Fs) (inode : Inode)
    → IsBytes fs.part.block_bitmap
    → AllBlocks fs inode
    → (fs' : Fs) × ((if has_table inode then release_block fs (inode.i_sectors 12) else ok fs)
        ≡ ok fs')
      × Freed fs fs'
          (λ j. has_table inode && (sub32 (inode.i_sectors 12) fs.part.sb.data_start_lba == j))
release_table fs inode h v = elim (Bool-cases (inode.i_sectors 12 == 0)) [
  | inl no_table ↦ rw no_table (fs, refl, Freed-none fs (λ j. false) (λ j. refl) h)
  | inr yes_table ↦
      let r = release_block-Freed fs (inode.i_sectors 12) h (v.table (ground arith)).1 in
      rw yes_table r
]

-- All that the loop of `inode_release` gives back.
gathered_blocks :
    (fs : Fs) (inode : Inode) (g : Gathered fs.disk inode)
    → AllBlocks fs inode
    → (k : ℕ) → k < block_cnt inode
    → g.all k ≢ 0
    → IsBlock fs.part.sb (g.all k)
gathered_blocks fs inode g v k lt h = elim (Bool-cases (ltb k 12)) [
  | inl low ↦ let e = g.direct k (ground arith) in rw e (v.direct k (ground arith) (rw e at h))
  | inr high ↦
      let some_table : inode.i_sectors 12 ≢ 0 = ground arith in
      let s : 12 + (k - 12) ≡ k = ground arith in
      let small : k - 12 < 128 = ground arith in
      let e : g.all k ≡ indirect fs.disk (inode.i_sectors 12) (k - 12) =
        rw s at (g.in_table some_table (k - 12) small) in
      rw e (v.in_table some_table (k - 12) small (rw e at h))
]

freed_of-freed :
    (disk : Disk) (inode : Inode) (g : Gathered disk inode) (base j : ℕ)
    → freed_of disk inode base j ≡ (
        (has_table inode && (sub32 (inode.i_sectors 12) base == j))
        || freed (block_cnt inode) g.all 0 base j)
unfolding freed_of
freed_of-freed disk inode g base j =
    let low : freed 12 g.all 0 base j ≡ freed 12 inode.i_sectors 0 base j =
      freed_same 12 g.all inode.i_sectors 0 0 base j
        (λ k lt. let z : 0 + k ≡ k = omega arith in rw z (g.direct k lt)) in
    elim (Bool-cases (inode.i_sectors 12 == 0)) [
      | inl no_table ↦ rw (no_table, low) (ground arith)
      | inr yes_table ↦
          let both : freed 140 g.all 0 base j
              ≡ (freed 12 g.all 0 base j || freed 128 g.all 12 base j) =
            freed_split 12 128 g.all 0 base j in
          let high : freed 128 g.all 12 base j
              ≡ freed 128 (indirect disk (inode.i_sectors 12)) 0 base j =
            freed_same 128 g.all (indirect disk (inode.i_sectors 12)) 12 0 base j
              (λ k lt. let z : 0 + k ≡ k = omega arith in rw z (g.in_table (ground arith) k lt)) in
          rw yes_table (ground (arith, both, high, low))
    ]

-- If the blocks of the inode lie in the data area behind its first sector, `release_data` returns,
-- and of the block bitmap exactly their bits are cleared; nothing else changes but the disk.
pub release_data-Freed :
    (fs : Fs) (inode : Inode)
    → IsBytes fs.part.block_bitmap
    → AllBlocks fs inode
    → (fs' : Fs) × (release_data fs inode ≡ ok fs')
      × Freed fs fs' (freed_of fs.disk inode fs.part.sb.data_start_lba)
unfolding release_data
release_data-Freed fs inode h v =
    let base = fs.part.sb.data_start_lba in
    let g = gather_blocks-Gathered fs.disk inode (λ some_table. (v.table some_table).0) in
    let (fs1, e1, f1) = release_table fs inode h v in
    let same : fs1.part.sb ≡ fs.part.sb = ap (λ part. part.sb) f1.rest in
    let (fs', e, f) =
      release_blocks-Freed (block_cnt inode) g.all 0 fs1 f1.bytes
        λ k p q some_block. rw same (gathered_blocks fs inode g v k (omega arith) some_block) in
    (
      fs',
      rw (g.runs, e1) e,
      Freed-trans fs fs1 fs' _ (freed (block_cnt inode) g.all 0 base) _
          (λ j. freed_of-freed fs.disk inode g base j) f1
          (subst (λ sb. Freed fs1 fs' (freed (block_cnt inode) g.all 0 sb.data_start_lba)) same f),
    )

-- `inode_close` keeps the bitmaps and the disk.
inode_close-rest :
    (fs : Fs) (p : ℕ)
    → ((inode_close fs p).part.block_bitmap ≡ fs.part.block_bitmap)
      × ((inode_close fs p).part.inode_bitmap ≡ fs.part.inode_bitmap)
      × ((inode_close fs p).disk ≡ fs.disk)
unfolding inode_close
inode_close-rest fs p = elim (Bool-cases (sub32 (fs.inodes p).i_open_cnts 1 == 0)) [
  | inl last ↦ (rw last refl, rw last refl, rw last refl)
  | inr more ↦ (rw more refl, rw more refl, rw more refl)
]

-- If `inode_open` of a number below 4096 returns an inode of that number, its blocks lie in the data
-- area behind its first sector, the driver knows the sectors of the indirect table, of their bits and
-- of the inode bitmap, the bits are bytes, and the table of inodes lies in a partition that the driver
-- knows, then `inode_release` returns: of the block bitmap the bits of the inode's blocks, direct and
-- indirect, and of its indirect table are cleared and no others, of the inode
-- bitmap the bit of the number and no other, and the inode's slot on the disk is zero.
pub inode_release-Freed :
    (fs opened : Fs) (n kmalloced p : ℕ) (inode_buf io_buf : Buffer)
    → inode_open fs n kmalloced inode_buf ≡ ok (p, opened)
    → n < 4096
    → (opened.inodes p).i_no ≡ n
    → OnDisk opened.part
    → IsBytes opened.part.block_bitmap
    → IsBytes opened.part.inode_bitmap
    → AllBlocks opened (opened.inodes p)
    → opened.part.sb.inode_bitmap_lba ≤ max_lba
    → (fs' : Fs) × (inode_release fs n kmalloced inode_buf io_buf ≡ ok fs')
      × ((j : ℕ)
          → is_set fs'.part.block_bitmap j ≡ (
              if freed_of opened.disk (opened.inodes p) opened.part.sb.data_start_lba j
              then false
              else is_set opened.part.block_bitmap j))
      × ((j : ℕ)
          → is_set fs'.part.inode_bitmap j
            ≡ (if n == j then false else is_set opened.part.inode_bitmap j))
      × Same (slot opened.part fs'.disk n) zero_inode
unfolding inode_release set_and_sync bitmap_set slot
inode_release-Freed fs opened n kmalloced p inode_buf io_buf e small numbered on bytes bytes' v
      known =
    let same_no : ((opened.inodes p).i_no == n) ≡ true = ground arith in
    let (fs1, e1, f) = release_data-Freed opened (opened.inodes p) bytes v in
    let bits : Bitmap = update_bit fs1.part.inode_bitmap n 0 in
    let part : Partition = record fs1.part { inode_bitmap = bits } in
    let disk2 : Disk = synced part fs1.disk n for_inodes in
    let same_sb : fs1.part.sb ≡ opened.part.sb = ap (λ part. part.sb) f.rest in
    let lba : add32 fs1.part.sb.inode_bitmap_lba (n / 4096) ≤ max_lba =
      omega (arith, known, ap (λ sb. sb.inode_bitmap_lba) same_sb) in
    let e2 = bitmap_sync-synced part fs1.disk n for_inodes lba in
    let kept : fs1.part.inode_bitmap ≡ opened.part.inode_bitmap =
      ap (λ part. part.inode_bitmap) f.rest in
    let same_bytes : IsBytes fs1.part.inode_bitmap = subst IsBytes (sym kept) bytes' in
    let on' : OnDisk part =
      subst (λ q. OnDisk (record q { block_bitmap = fs1.part.block_bitmap; inode_bitmap = bits }))
        (sym f.rest) (record { within = on.within; known = on.known }) in
    let (disk3, e3, zeroed, others) = inode_delete-slot part disk2 n io_buf on' small in
    let closed = inode_close-rest (record fs1 { part = part; disk = disk3 }) p in
    (
      inode_close (record fs1 { part = part; disk = disk3 }) p,
      rw (e, same_no, e1, e2, e3) refl,
      λ j. ap (λ b. is_set b j) closed.0 ∙ f.bits j,
      λ j.
          ap (λ b. is_set b j) closed.1
          ∙ is_set-update_bit fs1.part.inode_bitmap n 0 j same_bytes
          ∙ ap (λ b. if n == j then false else is_set b j) kept,
      subst
          (λ d.
            Same (load_inode (from_sector d opened.part.sb.inode_table_lba) (n * inode_size))
              zero_inode)
          (sym closed.2)
          (subst (λ t. Same (load_inode (from_sector disk3 t) (n * inode_size)) zero_inode)
            (ap (λ part. part.sb.inode_table_lba) f.rest) zeroed),
    )
