-- ===== src/Format/Bits.antt =====
-- The block bitmap that `partition_format` of src/fs/fs.c writes.
use tros.Prelude.{
  ℕ, ◌+◌, ◌-◌, ◌*◌, ◌/◌, ◌%◌, ◌<◌, ◌≤◌, ◌≡◌, refl, ap, ◌∙◌, Bool, true, false, not, ◌&&◌, ◌||◌,
  arith, ltb, leb, ◌==◌, if◌then◌else◌, Bool-cases, inl, inr, every, every_lem,
}
use tros.Bitmap.{is_set}
use tros.Bitmap.Bits.{bit, is_set-bit}
use tros.Format.{clear_bits, block_bitmap_buf}

agrees : Bool → Bool → Bool
agrees true b = b
agrees false b = not b

agrees_sound : (a b : Bool) → agrees a b ≡ true → a ≡ b
unfolding agrees
agrees_sound a b h = ground arith

-- The last byte, and the bytes that hold 0, 1 and 0xff.
last_test : ℕ → ℕ → Bool
unfolding agrees bit clear_bits
last_test n k = agrees (bit (clear_bits (n + 1) 0 255) k) (ltb n k)

plain_test : ℕ → Bool
unfolding agrees bit
plain_test k = agrees (bit 0 k) false && agrees (bit 1 k) (k == 0) && agrees (bit 255 k) true

bit-last : (n k : ℕ) → n < 8 → k < 8 → bit (clear_bits (n + 1) 0 255) k ≡ ltb n k
unfolding last_test
bit-last n k hn hk = agrees_sound _ _ (
    every_lem 8 (last_test n) k hk
      (every_lem 8 (λ n. every 8 (last_test n)) n hn (unfold every in refl)))

bit-plain : (k : ℕ) → k < 8 → (bit 0 k ≡ false) × (bit 1 k ≡ (k == 0)) × (bit 255 k ≡ true)
unfolding plain_test
bit-plain k h =
    let t : plain_test k ≡ true = every_lem 8 plain_test k h (unfold every in refl) in
    (
      agrees_sound _ _ (ground (arith, t)),
      agrees_sound _ _ (ground (arith, t)),
      agrees_sound _ _ (ground (arith, t)),
    )

-- The bytes of the bitmap, in the sectors up to that of the last valid byte.
byte-cases :
    (n j : ℕ)
    → 8 ≤ n
    → j < (n / 8 / 512 + 1) * 512
    → block_bitmap_buf n j ≡ (
        if j == n / 8
        then clear_bits (n % 8 + 1) 0 255
        else if ltb (n / 8) j
        then 255
        else if j == 0
        then 1
        else 0)
unfolding block_bitmap_buf
byte-cases n j large within = elim (Bool-cases (j == n / 8)) [
  | inl last ↦
      let flip : (n / 8 == j) ≡ true = ground arith in
      let here : (leb (n / 8) (n / 8) && ltb (n / 8) (n / 8 + (512 - n / 8 % 512))) ≡ true =
        ground arith in
      rw (last, flip, here) refl
  | inr other ↦
      let flip : (n / 8 == j) ≡ false = ground arith in
      elim (Bool-cases (ltb (n / 8) j)) [
        | inl behind ↦
            let filled : (leb (n / 8) j && ltb j (n / 8 + (512 - n / 8 % 512))) ≡ true =
              ground arith in
            rw (other, flip, behind, filled) refl
        | inr before ↦
            let clear : (leb (n / 8) j && ltb j (n / 8 + (512 - n / 8 % 512))) ≡ false =
              ground arith in
            elim (Bool-cases (j == 0)) [
              | inl first ↦
                  let z : (0 == j) ≡ true = ground arith in
                  rw (other, flip, before, clear, first, z) refl
              | inr later ↦
                  let z : (0 == j) ≡ false = ground arith in
                  rw (other, flip, before, clear, later, z) refl
            ]
      ]
]

-- Of `n` valid blocks, 8 or more: in the sectors up to that of bit `n`, the bits that are set are bit
-- 0, which is the root directory's, and those above bit `n`. Bit `n` itself is clear, although the
-- valid blocks have the bits 0 to n - 1.
pub is_set-block_bitmap_buf :
    (n bytes i : ℕ)
    → 8 ≤ n
    → i < (n / 4096 + 1) * 4096
    → is_set (record { btmp_bytes_len = bytes; bits = block_bitmap_buf n }) i
      ≡ ((i == 0) || ltb n i)
is_set-block_bitmap_buf n bytes i large within =
    let k = i % 8 in
    let (zeros, one, ones) = bit-plain k (omega arith) in
    let e = is_set-bit (record { btmp_bytes_len = bytes; bits = block_bitmap_buf n }) i in
    let value = byte-cases n (i / 8) large (omega arith) in
    e ∙ ap (λ b. bit b k) value ∙ elim (Bool-cases (i / 8 == n / 8)) [
      | inl last ↦ rw last (bit-last (n % 8) k (omega arith) (omega arith) ∙ ground arith)
      | inr other ↦ elim (Bool-cases (ltb (n / 8) (i / 8))) [
        | inl behind ↦ rw (other, behind) (ones ∙ ground arith)
        | inr before ↦ elim (Bool-cases (i / 8 == 0)) [
          | inl first ↦ rw (other, before, first) (one ∙ ground arith)
          | inr later ↦ rw (other, before, later) (zeros ∙ ground arith)
        ]
      ]
    ]
