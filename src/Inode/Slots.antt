-- ===== src/Inode/Slots.antt =====
-- The table of inodes on the disk, of src/fs/inode.c: what `inode_sync` and `inode_delete` change of
-- it, and what `inode_open` reads from it.
use tros.Prelude.{
  ℕ, Bool, ◌+◌, ◌-◌, ◌*◌, ◌/◌, ◌%◌, ◌^◌, ◌<◌, ◌≤◌, ◌≡◌, ◌≢◌, refl, ◌∙◌, true, false, ◌&&◌, arith,
  ltb, leb, if◌then◌else◌, Bool-cases, inl, inr, add32, ok,
}
use tros.Disk.{
  Buffer, Disk, max_lba, in_time, ide_read, ide_read-read_sectors, ide_write-write_sectors,
  read_sectors, write_sectors, word_at, from_sector,
}
use tros.Disk.Words.{word_at-eq}
use tros.Inode.{
  Inode, Partition, inode_size, load_inode, InodePosition, inode_locate, rewrite_sectors,
}

-- The inode in a slot of the table.
unfoldable pub slot : Partition → Disk → (inode_no : ℕ) → Inode
slot part disk n = load_inode (from_sector disk part.sb.inode_table_lba) (n * inode_size)

-- The fields of two inodes are the same.
pub record Same (a b : Inode) : Type 0 where
  pub no : a.i_no ≡ b.i_no
  pub size : a.i_size ≡ b.i_size
  pub cnts : a.i_open_cnts ≡ b.i_open_cnts
  pub deny : a.write_deny ≡ b.write_deny
  pub sectors : (k : ℕ) → k < 13 → a.i_sectors k ≡ b.i_sectors k

-- The fields fit their words.
pub record Fits (inode : Inode) : Type 0 where
  pub no : inode.i_no < 2 ^ 32
  pub size : inode.i_size < 2 ^ 32
  pub sectors : (k : ℕ) → k < 13 → inode.i_sectors k < 2 ^ 32

-- The 608 sectors of the table are sectors of the partition, which lies within the sectors that the
-- driver knows.
pub record OnDisk (part : Partition) : Type 0 where
  pub within : part.sb.inode_table_lba + 608 ≤ part.start_lba + part.sec_cnt
  pub known : part.start_lba + part.sec_cnt ≤ max_lba + 1

-- The position of an inode, in the bytes of the table.
pub record Located (part : Partition) (n : ℕ) (pos : InodePosition) : Type 0 where
  pub lba : pos.sec_lba ≡ part.sb.inode_table_lba + n * inode_size / 512
  pub known : pos.sec_lba ≤ max_lba
  pub off : pos.off_size ≡ n * inode_size % 512
  pub two : pos.off_size + inode_size ≤ (if pos.two_sec then 2 else 1) * 512

pub inode_locate-Located :
    (part : Partition) (n : ℕ)
    → OnDisk part
    → n < 4096
    → (pos : InodePosition) × (inode_locate part n ≡ ok pos)
      × (leb pos.sec_lba (add32 part.start_lba part.sec_cnt) ≡ true)
      × Located part n pos
unfolding inode_locate
inode_locate-Located part n on small =
    let t : ltb n 4096 ≡ true = ground arith in
    (
      record {
        two_sec = ltb (512 - n * inode_size % 512) inode_size;
        sec_lba = add32 part.sb.inode_table_lba (n * inode_size / 512);
        off_size = n * inode_size % 512;
      },
      rw t,
      ground (arith, on.within, on.known),
      record {
        lba = omega (arith, on.within, on.known);
        known = omega (arith, on.within, on.known);
        off = refl;
        two = ground arith;
      },
    )

-- What `inode_open` finds in its buffer is what lies in the slot.
pub read_sectors-from_sector :
    (part : Partition) (disk : Disk) (n : ℕ) (pos : InodePosition) (buf : Buffer) (k : ℕ)
    → Located part n pos
    → k < inode_size
    → read_sectors disk pos.sec_lba buf (if pos.two_sec then 2 else 1) (pos.off_size + k)
      ≡ from_sector disk part.sb.inode_table_lba (n * inode_size + k)
unfolding read_sectors from_sector
read_sectors-from_sector part disk n pos buf k at small =
    let t : ltb (pos.off_size + k) ((if pos.two_sec then 2 else 1) * 512) ≡ true =
      ground (arith, at.two) in
    let q : pos.sec_lba + (pos.off_size + k) / 512
        ≡ part.sb.inode_table_lba + (n * inode_size + k) / 512 =
      omega (arith, at.lba, at.off) in
    let r : (pos.off_size + k) % 512 ≡ (n * inode_size + k) % 512 = omega (arith, at.off) in
    rw (t, q, r)

-- A byte in the slot of a number.
abbrev pub in_slot : (n a : ℕ) → Bool
in_slot n a = leb (n * inode_size) a && ltb a (n * inode_size + inode_size)

-- What `rewrite_sectors` leaves on the disk.
unfoldable pub rewritten : Disk → InodePosition → Buffer → (Buffer → Buffer) → Disk
rewritten disk pos io_buf change =
    let cnt = if pos.two_sec then 2 else 1 in
    write_sectors disk pos.sec_lba (change (read_sectors disk pos.sec_lba io_buf cnt)) cnt

some_sectors : (two : Bool) → 0 < (if two then 2 else 1)
some_sectors two = ground arith

pub rewrite_sectors-rewritten :
    (part : Partition) (disk : Disk) (n : ℕ) (pos : InodePosition) (buf : Buffer)
    (change : Buffer → Buffer)
    → Located part n pos
    → rewrite_sectors disk pos buf change ≡ ok (rewritten disk pos buf change)
unfolding rewrite_sectors rewritten
rewrite_sectors-rewritten part disk n pos buf change at =
    rw (ide_read-read_sectors disk pos.sec_lba buf _ at.known (some_sectors pos.two_sec)) (
      ide_write-write_sectors disk pos.sec_lba
        (change (read_sectors disk pos.sec_lba buf (if pos.two_sec then 2 else 1))) _ at.known
        (some_sectors pos.two_sec))

-- The read of `inode_open` returns.
pub ide_read-Located :
    (part : Partition) (disk : Disk) (n : ℕ) (pos : InodePosition) (buf : Buffer)
    → Located part n pos
    → ide_read in_time disk pos.sec_lba buf (if pos.two_sec then 2 else 1)
      ≡ ok (read_sectors disk pos.sec_lba buf (if pos.two_sec then 2 else 1))
ide_read-Located part disk n pos buf at =
    ide_read-read_sectors disk pos.sec_lba buf _ at.known (some_sectors pos.two_sec)

-- A change of the buffer within the slot is a change of the table within the slot.
from_sector-rewrite :
    (part : Partition) (disk : Disk) (n : ℕ) (pos : InodePosition) (buf : Buffer)
    (change : Buffer → Buffer) (new : Buffer)
    → Located part n pos
    → ((b : Buffer) (i : ℕ)
        → change b i ≡ (
            if leb pos.off_size i && ltb i (pos.off_size + inode_size)
            then new (i - pos.off_size)
            else b i))
    → (a : ℕ)
    → from_sector (rewritten disk pos buf change) part.sb.inode_table_lba a ≡ (
        if in_slot n a
        then new (a - n * inode_size)
        else from_sector disk part.sb.inode_table_lba a)
unfolding from_sector rewritten write_sectors read_sectors
from_sector-rewrite part disk n pos buf change new at c a =
    let cnt : ℕ = if pos.two_sec then 2 else 1 in
    let b : Buffer = read_sectors disk pos.sec_lba buf cnt in
    let t = part.sb.inode_table_lba in
    let i = (t + a / 512 - pos.sec_lba) * 512 + a % 512 in
    elim (Bool-cases (leb pos.sec_lba (t + a / 512) && ltb (t + a / 512) (pos.sec_lba + cnt))) [
      | inl within ↦
          rw (within, c b i)
            (elim (Bool-cases (in_slot n a)) [
              | inl inside ↦
                  let here : (leb pos.off_size i && ltb i (pos.off_size + inode_size)) ≡ true =
                    ground (arith, at.lba, at.off) in
                  let e : i - pos.off_size ≡ a - n * inode_size = ground (arith, at.lba, at.off) in
                  rw (inside, here, e) refl
              | inr outside ↦
                  let there : (leb pos.off_size i && ltb i (pos.off_size + inode_size)) ≡ false =
                    ground (arith, at.lba, at.off) in
                  let small : ltb i (cnt * 512) ≡ true = ground (arith, at.lba) in
                  let q : pos.sec_lba + i / 512 ≡ t + a / 512 = ground (arith, at.lba) in
                  let r : i % 512 ≡ a % 512 = ground (arith, at.lba) in
                  rw (outside, there, small, q, r) refl
            ])
      | inr without ↦
          let outside : in_slot n a ≡ false = ground (arith, at.lba, at.off, at.two) in
          rw (without, outside) refl
    ]

-- Equal bytes are equal inodes.
pub load_inode-Same :
    (f g : Buffer) (i j : ℕ)
    → ((k : ℕ) → k < inode_size → f (i + k) ≡ g (j + k))
    → Same (load_inode f i) (load_inode g j)
unfolding load_inode
load_inode-Same f g i j same = record {
  no = word_at-eq f g i j (λ k h. same k (omega arith));
  size = word 4 (omega arith);
  cnts = word 8 (omega arith);
  deny = word 12 (omega arith);
  sectors = λ k h. word ((k + 4) * 4) (omega arith);
}
  where
    word : (m : ℕ) → m + 4 ≤ inode_size → word_at f (i + m) ≡ word_at g (j + m)
    word m h = word_at-eq f g (i + m) (j + m) λ k lt.
        let e : i + m + k ≡ i + (m + k) = omega arith in
        let e' : j + m + k ≡ j + (m + k) = omega arith in rw (e, e') (same (m + k) (omega arith))

-- The slots of a table of which the bytes of one slot have been replaced.
pub record Replaced (part : Partition) (d e : Disk) (n : ℕ) (new : Buffer) : Type 0 where
  pub here :
      (k : ℕ) → k < inode_size → from_sector e part.sb.inode_table_lba (n * inode_size + k) ≡ new k
  pub there : (m : ℕ) → m ≢ n → Same (slot part e m) (slot part d m)

pub Replaced-rewrite :
    (part : Partition) (disk : Disk) (n : ℕ) (pos : InodePosition) (buf : Buffer)
    (change : Buffer → Buffer) (new : Buffer)
    → Located part n pos
    → ((b : Buffer) (i : ℕ)
        → change b i ≡ (
            if leb pos.off_size i && ltb i (pos.off_size + inode_size)
            then new (i - pos.off_size)
            else b i))
    → Replaced part disk (rewritten disk pos buf change) n new
unfolding slot
Replaced-rewrite part disk n pos buf change new at c = record {
  here = λ k h.
      let inside : in_slot n (n * inode_size + k) ≡ true = ground arith in
      let e : n * inode_size + k - n * inode_size ≡ k = omega arith in
      from_sector-rewrite part disk n pos buf change new at c (n * inode_size + k)
      ∙ rw (inside, e) refl;
  there = λ m other. load_inode-Same _ _ (m * inode_size) (m * inode_size) λ k h.
      let outside : in_slot n (m * inode_size + k) ≡ false = ground arith in
      from_sector-rewrite part disk n pos buf change new at c (m * inode_size + k)
      ∙ rw outside refl;
}
