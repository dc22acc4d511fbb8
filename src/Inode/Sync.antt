-- ===== src/Inode/Sync.antt =====
-- `inode_sync`, `inode_delete` and `inode_open` of src/fs/inode.c, on the table of inodes.
use tros.Prelude.{
  ℕ, ◌+◌, ◌-◌, ◌*◌, ◌%◌, ◌<◌, ◌≡◌, ◌≢◌, refl, ◌∙◌, true, false, arith, ◌∷◌, ltb, ◌==◌, ==_self,
  if◌then◌else◌, ok, ◌>>=◌, none,
}
use mathlib.Core.Path.{subst}
use tros.Disk.{Buffer, Disk, read_sectors, overlay, zero_range, word_at, to_bytes}
use tros.Disk.Words.{word_at-to_bytes}
use tros.Inode.{
  Inode, Partition, Fs, inode_size, inode_words, load_inode, pure_inode, inode_sync, inode_delete,
  inode_load, inode_open, find_open, put_inode,
}
use tros.Inode.Slots.{
  Same, Fits, OnDisk, inode_locate-Located, read_sectors-from_sector, load_inode-Same, slot,
  Replaced-rewrite, rewrite_sectors-rewritten, ide_read-Located,
}

pub Same-trans : (a b c : Inode) → Same a b → Same b c → Same a c
Same-trans a b c p q = record {
  no = p.no ∙ q.no;
  size = p.size ∙ q.size;
  cnts = p.cnts ∙ q.cnts;
  deny = p.deny ∙ q.deny;
  sectors = λ k h. p.sectors k h ∙ q.sectors k h;
}

-- What is written is read back, without the two fields that live in memory alone.
pub load_inode-to_bytes :
    (inode : Inode)
    → Fits inode
    → Same (load_inode (to_bytes (inode_words (pure_inode inode))) 0) (pure_inode inode)
unfolding load_inode inode_words
load_inode-to_bytes inode v = record {
  no = word_at-to_bytes words 0 v.no;
  size = word_at-to_bytes words 1 v.size;
  cnts = word_at-to_bytes words 2 (omega arith);
  deny = word_at-to_bytes words 3 (omega arith);
  sectors = λ k h.
      let z : 0 + (k + 4) * 4 ≡ (k + 4) * 4 = omega arith in
      let e = sector_word k h in rw z (word_at-to_bytes words (k + 4) (rw e (v.sectors k h)) ∙ e);
}
  where
    words : ℕ → ℕ
    words = inode_words (pure_inode inode)

    sector_word : (k : ℕ) → k < 13 → words (k + 4) ≡ inode.i_sectors k
    sector_word k h =
        let back : k + 4 - 4 ≡ k = omega arith in
        let b0 : (k + 4 == 0) ≡ false = ground arith in
        let b1 : (k + 4 == 1) ≡ false = ground arith in
        let b2 : (k + 4 == 2) ≡ false = ground arith in
        let b3 : (k + 4 == 3) ≡ false = ground arith in
        let b4 : ltb (k + 4) 17 ≡ true = ground arith in rw (b0, b1, b2, b3, b4, back) refl

word_at-zero : (i : ℕ) → word_at (λ j. 0) i ≡ 0
unfolding word_at
word_at-zero i = refl

abbrev pub zero_inode : Inode
zero_inode = record { i_no = 0; i_size = 0; i_open_cnts = 0; write_deny = 0; i_sectors = λ k. 0 }

-- If the table lies in a partition that the driver knows and the fields fit their words, `inode_sync` of an inode
-- returns, and then the slot of the number `i_no % 256` holds the inode, closed and open to writers,
-- and every other slot is as it was.
pub inode_sync-slot :
    (part : Partition) (disk : Disk) (inode : Inode) (io_buf : Buffer)
    → OnDisk part
    → Fits inode
    → (disk' : Disk) × (inode_sync part disk inode io_buf ≡ ok disk')
      × Same (slot part disk' (inode.i_no % 256)) (pure_inode inode)
      × ((m : ℕ) → m ≢ inode.i_no % 256 → Same (slot part disk' m) (slot part disk m))
unfolding inode_sync overlay slot
inode_sync-slot part disk inode io_buf on v =
    let n = inode.i_no % 256 in
    let src = to_bytes (inode_words (pure_inode inode)) in
    let (pos, e, within, at) = inode_locate-Located part n on (omega arith) in
    let done =
      Replaced-rewrite part disk n pos io_buf (λ buf. overlay buf pos.off_size src inode_size) src
        at (λ b i. refl) in
    (
      _,
      rw (e, within) (rewrite_sectors-rewritten part disk n pos io_buf _ at),
      Same-trans _ _ _
          (load_inode-Same _ src (n * inode_size) 0
            (λ k h. let z : 0 + k ≡ k = omega arith in rw z (done.here k h)))
          (load_inode-to_bytes inode v),
      done.there,
    )

-- If the table lies in a partition that the driver knows and the number is one of its 4096, `inode_delete` returns, and
-- then the slot of the number is zero, and every other slot is as it was.
pub inode_delete-slot :
    (part : Partition) (disk : Disk) (n : ℕ) (io_buf : Buffer)
    → OnDisk part
    → n < 4096
    → (disk' : Disk) × (inode_delete part disk n io_buf ≡ ok disk')
      × Same (slot part disk' n) zero_inode
      × ((m : ℕ) → m ≢ n → Same (slot part disk' m) (slot part disk m))
unfolding inode_delete zero_range slot load_inode
inode_delete-slot part disk n io_buf on small =
    let t : ltb n 4096 ≡ true = ground arith in
    let (pos, e, within, at) = inode_locate-Located part n on small in
    let done =
      Replaced-rewrite part disk n pos io_buf (λ buf. zero_range buf pos.off_size inode_size)
        (λ i. 0) at (λ b i. refl) in
    (
      _,
      rw (e, t, within) (rewrite_sectors-rewritten part disk n pos io_buf _ at),
      Same-trans _ _ _ (load_inode-Same _ (λ i. 0) (n * inode_size) 0 done.here) (record {
        no = word_at-zero 0;
        size = word_at-zero 4;
        cnts = word_at-zero 8;
        deny = word_at-zero 12;
        sectors = λ k h. word_at-zero (0 + (k + 4) * 4);
      }),
      done.there,
    )

-- The inode of a number that is not open: if the number is one of the table's, `inode_open` returns
-- the new address, and there lies what the slot holds, opened once.
pub inode_open-slot :
    (fs : Fs) (n p : ℕ) (buf : Buffer)
    → OnDisk fs.part
    → n < 4096
    → find_open fs.inodes fs.part.open_inodes n ≡ none
    → (fs' : Fs) × (inode_open fs n p buf ≡ ok (p, fs'))
      × Same (fs'.inodes p) (record (slot fs.part fs.disk n) { i_open_cnts = 1 })
      × (fs'.part.open_inodes ≡ p ∷ fs.part.open_inodes)
      × ((q : ℕ) → (p == q) ≡ false → fs'.inodes q ≡ fs.inodes q)
unfolding inode_open inode_load slot
inode_open-slot fs n p buf on small closed =
    let (pos, e, within, at) = inode_locate-Located fs.part n on small in
    let loaded =
      load_inode-Same _ _ pos.off_size (n * inode_size)
        λ k h. read_sectors-from_sector fs.part fs.disk n pos buf k at h in
    let read = read_sectors fs.disk pos.sec_lba buf (if pos.two_sec then 2 else 1) in
    let inode : Inode = record (load_inode read pos.off_size) { i_open_cnts = 1 } in
    let part : Partition = record fs.part { open_inodes = p ∷ fs.part.open_inodes } in
    (
      record { part = part; disk = fs.disk; inodes = put_inode fs.inodes p inode },
      rw (closed, e, ide_read-Located fs.part fs.disk n pos buf at) refl,
      rw (==_self p) (record {
        no = loaded.no;
        size = loaded.size;
        cnts = refl;
        deny = loaded.deny;
        sectors = loaded.sectors;
      }),
      refl,
      λ q other. rw other refl,
    )

-- For an inode with a number below 256 that is not open, whose fields fit their words, and a table in
-- a partition that the driver knows: after
-- `inode_sync`, `inode_open` of the number gives the inode back, opened once and open to writers.
pub inode_open-inode_sync :
    (fs : Fs) (inode : Inode) (p : ℕ) (io_buf inode_buf : Buffer)
    → OnDisk fs.part
    → Fits inode
    → inode.i_no < 256
    → find_open fs.inodes fs.part.open_inodes inode.i_no ≡ none
    → (fs' : Fs) × ((inode_sync fs.part fs.disk inode io_buf >>= λ disk.
          inode_open (record fs { disk = disk }) inode.i_no p inode_buf)
        ≡ ok (p, fs'))
      × Same (fs'.inodes p) (record inode { i_open_cnts = 1; write_deny = 0 })
inode_open-inode_sync fs inode p io_buf inode_buf on v small closed =
    let (disk, e, here, there) = inode_sync-slot fs.part fs.disk inode io_buf on v in
    let (fs', e', opened, listed, others) =
      inode_open-slot (record fs { disk = disk }) inode.i_no p inode_buf on (omega arith) closed in
    let same : inode.i_no % 256 ≡ inode.i_no = omega arith in
    let back : Same (slot fs.part disk inode.i_no) (pure_inode inode) =
      subst (λ n. Same (slot fs.part disk n) (pure_inode inode)) same here in
    (
      fs',
      rw e e',
      record {
        no = opened.no ∙ back.no;
        size = opened.size ∙ back.size;
        cnts = opened.cnts;
        deny = opened.deny ∙ back.deny;
        sectors = λ k h. opened.sectors k h ∙ back.sectors k h;
      },
    )
