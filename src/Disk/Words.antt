-- ===== src/Disk/Words.antt =====
-- Numbers in buffers, and the sectors that a write changes.
use tros.Prelude.{
  ℕ, ◌+◌, ◌-◌, ◌*◌, ◌/◌, ◌%◌, ◌^◌, ◌<◌, ◌≡◌, inl, inr, ◌&&◌, arith, ltb, leb, ◌==◌, if◌then◌else◌,
  Bool-cases, refl, true, false,
}
use mathlib.Core.Path.{subst}
use tros.Disk.{Disk, Buffer, write_sectors, word_at, to_bytes, byte_of, from_sector}

byte_of_word :
    (w : ℕ)
    → w < 2 ^ 32
    → byte_of w 0 + byte_of w 1 * 2 ^ 8 + byte_of w 2 * 2 ^ 16 + byte_of w 3 * 2 ^ 24 ≡ w
byte_of_word w h = omega arith

-- The number that was stored is read back.
pub word_at-to_bytes :
    (words : ℕ → ℕ) (k : ℕ) → words k < 2 ^ 32 → word_at (to_bytes words) (k * 4) ≡ words k
unfolding word_at to_bytes
word_at-to_bytes words k h =
    let q0 : k * 4 / 4 ≡ k = omega arith in
    let q1 : (k * 4 + 1) / 4 ≡ k = omega arith in
    let q2 : (k * 4 + 2) / 4 ≡ k = omega arith in
    let q3 : (k * 4 + 3) / 4 ≡ k = omega arith in
    let r0 : k * 4 % 4 ≡ 0 = omega arith in
    let r1 : (k * 4 + 1) % 4 ≡ 1 = omega arith in
    let r2 : (k * 4 + 2) % 4 ≡ 2 = omega arith in
    let r3 : (k * 4 + 3) % 4 ≡ 3 = omega arith in
    rw (q0, q1, q2, q3, r0, r1, r2, r3) (byte_of_word (words k) h)

-- Equal bytes make equal numbers.
pub word_at-eq :
    (a b : Buffer) (i j : ℕ) → ((k : ℕ) → k < 4 → a (i + k) ≡ b (j + k)) → word_at a i ≡ word_at b j
unfolding word_at
word_at-eq a b i j same =
    let i0 : i + 0 ≡ i = omega arith in
    let j0 : j + 0 ≡ j = omega arith in
    let e0 : a i ≡ b j =
      subst (λ x. a x ≡ b j) i0 (subst (λ y. a (i + 0) ≡ b y) j0 (same 0 (omega arith))) in
    omega (arith, e0, same 1 (omega arith), same 2 (omega arith), same 3 (omega arith))

-- A write of one sector, in the bytes from a sector on.
pub from_sector-write_sectors :
    (disk : Disk) (lba buf_lba : ℕ) (buf : Buffer) (i : ℕ)
    → from_sector (write_sectors disk buf_lba buf 1) lba i
      ≡ (if lba + i / 512 == buf_lba then buf (i % 512) else from_sector disk lba i)
unfolding from_sector write_sectors
from_sector-write_sectors disk lba buf_lba buf i = elim (Bool-cases (lba + i / 512 == buf_lba)) [
  | inl here ↦
      let t : (leb buf_lba (lba + i / 512) && ltb (lba + i / 512) (buf_lba + 1)) ≡ true =
        ground arith in
      let e : (lba + i / 512 - buf_lba) * 512 + i % 512 ≡ i % 512 = ground arith in
      rw (t, here, e) refl
  | inr there ↦
      let t : (leb buf_lba (lba + i / 512) && ltb (lba + i / 512) (buf_lba + 1)) ≡ false =
        ground arith in
      rw (t, there) refl
]
