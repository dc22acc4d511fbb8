-- ===== src/Disk.antt =====
-- The disk under src/fs: what `read_sectors` and `write_sectors` of src/device/ide.c give to it, an array of
-- sectors of 512 bytes. A buffer is the memory from a pointer on, byte by byte; a number in it is 32
-- bits, the lowest byte first.
pub mod Words
use tros.Prelude.{
  ℕ, zero, suc, ◌+◌, ◌-◌, ◌*◌, ◌/◌, ◌%◌, ◌^◌, ◌<◌, ◌≤◌, ◌≡◌, refl, arith, Bool, true, ◌&&◌, ltb,
  leb, ◌==◌, if◌then◌else◌, Run, ok, ◌>>=◌, ◌>>◌, assert,
}

abbrev pub Buffer : Type 0
Buffer = ℕ → ℕ

-- The byte at an offset of the sector at an address.
abbrev pub Disk : Type 0
Disk = ℕ → Buffer

abbrev pub sector_size : ℕ
sector_size = 512

-- The last sector that the driver knows, of 80 MB.
abbrev pub max_lba : ℕ
max_lba = 80 * 1024 * 1024 / 512 - 1

-- The `sec_cnt` sectors from `lba` on, over the front of a buffer.
unfoldable pub read_sectors : Disk → (lba : ℕ) → Buffer → (sec_cnt : ℕ) → Buffer
read_sectors disk lba buf sec_cnt i =
    if ltb i (sec_cnt * 512) then disk (lba + i / 512) (i % 512) else buf i

-- The front of a buffer in the `sec_cnt` sectors from `lba` on.
unfoldable pub write_sectors : Disk → (lba : ℕ) → Buffer → (sec_cnt : ℕ) → Disk
write_sectors disk lba buf sec_cnt s i =
    if leb lba s && ltb s (lba + sec_cnt) then buf ((s - lba) * 512 + i) else disk s i

-- `busy_wait`, which reads the ports of the drive, tells of each command whether the drive is ready in
-- time; if it is not, the kernel panics. The chunks of 256 sectors are one command each: `left` is how many of them are left.
unfoldable pub commands : (busy_wait : (lba : ℕ) → Bool) (left lba : ℕ) → Run (Unit {0})
commands busy_wait zero lba = ok tt
commands busy_wait (suc left) lba = do assert (busy_wait lba); commands busy_wait left (lba + 256)

unfoldable pub ide_read :
    (busy_wait : (lba : ℕ) → Bool) → Disk → (lba : ℕ) → Buffer → (sec_cnt : ℕ) → Run Buffer
unfolding commands read_sectors
ide_read busy_wait disk lba buf sec_cnt = do
  assert (leb lba max_lba)
  assert (ltb 0 sec_cnt)
  commands busy_wait ((sec_cnt + 255) / 256) lba
  ok (read_sectors disk lba buf sec_cnt)

unfoldable pub ide_write :
    (busy_wait : (lba : ℕ) → Bool) → Disk → (lba : ℕ) → Buffer → (sec_cnt : ℕ) → Run Disk
unfolding commands write_sectors
ide_write busy_wait disk lba buf sec_cnt = do
  assert (leb lba max_lba)
  assert (ltb 0 sec_cnt)
  commands busy_wait ((sec_cnt + 255) / 256) lba
  ok (write_sectors disk lba buf sec_cnt)

-- The drive of the file system answers every command in time.
abbrev pub in_time : (lba : ℕ) → Bool
in_time lba = true

pub commands-in_time : (left lba : ℕ) → commands in_time left lba ≡ ok tt
unfolding commands
commands-in_time zero lba = refl
commands-in_time (suc left) lba = commands-in_time left (lba + 256)

-- On such a drive, a read or write of some sectors from one that the driver knows returns.
pub ide_read-read_sectors :
    (disk : Disk) (lba : ℕ) (buf : Buffer) (sec_cnt : ℕ)
    → lba ≤ max_lba
    → 0 < sec_cnt
    → ide_read in_time disk lba buf sec_cnt ≡ ok (read_sectors disk lba buf sec_cnt)
unfolding ide_read
ide_read-read_sectors disk lba buf sec_cnt known some_sectors =
    let t : leb lba max_lba ≡ true = ground arith in
    let u : ltb 0 sec_cnt ≡ true = ground arith in rw (t, u, commands-in_time) refl

pub ide_write-write_sectors :
    (disk : Disk) (lba : ℕ) (buf : Buffer) (sec_cnt : ℕ)
    → lba ≤ max_lba
    → 0 < sec_cnt
    → ide_write in_time disk lba buf sec_cnt ≡ ok (write_sectors disk lba buf sec_cnt)
unfolding ide_write
ide_write-write_sectors disk lba buf sec_cnt known some_sectors =
    let t : leb lba max_lba ≡ true = ground arith in
    let u : ltb 0 sec_cnt ≡ true = ground arith in rw (t, u, commands-in_time) refl

-- `memcpy(buf + off, src, size)`
unfoldable pub overlay : Buffer → (off : ℕ) → Buffer → (size : ℕ) → Buffer
overlay buf off src size i = if leb off i && ltb i (off + size) then src (i - off) else buf i

-- `memset(buf + off, 0, size)`
unfoldable pub zero_range : Buffer → (off size : ℕ) → Buffer
zero_range buf off size i = if leb off i && ltb i (off + size) then 0 else buf i

-- The 32-bit number at an offset.
unfoldable pub word_at : Buffer → (off : ℕ) → ℕ
word_at buf off = buf off + buf (off + 1) * 2 ^ 8 + buf (off + 2) * 2 ^ 16 + buf (off + 3) * 2 ^ 24

abbrev pub byte_of : (word index : ℕ) → ℕ
byte_of word index =
    if index == 0
    then word % 256
    else if index == 1
    then word / 2 ^ 8 % 256
    else if index == 2
    then word / 2 ^ 16 % 256
    else word / 2 ^ 24 % 256

-- An array of 32-bit numbers as bytes.
unfoldable pub to_bytes : (ℕ → ℕ) → Buffer
to_bytes words i = byte_of (words (i / 4)) (i % 4)

-- The bytes from a sector on, as one sequence.
unfoldable pub from_sector : Disk → (lba : ℕ) → Buffer
from_sector disk lba a = disk (lba + a / 512) (a % 512)
