-- ===== src/Bitmap.antt =====
-- src/lib/kernel/bitmap.c and include/lib/kernel/bitmap.h.
-- `bits` is a pointer: what it points to is the memory from there on, byte by byte, so that an
-- access behind the last byte of the bitmap reads and writes what lies there, as in C.
pub mod Bits
pub mod Scan
pub mod Laws
mod Tests
use tros.Prelude.{
  ℕ, zero, suc, ◌+◌, ◌-◌, ◌*◌, ◌/◌, ◌%◌, ◌^◌, ◌<◌, bit_and, bit_or, ◌≡◌, Bool, true, false, not,
  ◌&&◌, ◌||◌, Option, none, some, ltb, ◌==◌, if◌then◌else◌, add32, sub32, Run, ok, panic,
  out_of_fuel, ◌>>=◌, ◌>>◌, assert,
}

pub record Bitmap : Type 0 where
  pub btmp_bytes_len : ℕ
  pub bits : ℕ → ℕ

-- `BITMAP_MASK << odd`
abbrev pub mask : ℕ → ℕ
mask odd = 2 ^ odd

-- `memset(btmp->bits, 0, btmp->btmp_bytes_len)`
pub bitmap_init : Bitmap → Bitmap
bitmap_init btmp = record btmp { bits = λ i. if ltb i btmp.btmp_bytes_len then 0 else btmp.bits i }

-- The C function returns the masked byte itself (`bool` is `int`).
pub bitmap_scan_test : Bitmap → ℕ → ℕ
bitmap_scan_test btmp bit_idx = bit_and (btmp.bits (bit_idx / 8)) (mask (bit_idx % 8))

-- The value of `bitmap_scan_test` as a condition.
pub is_set : Bitmap → ℕ → Bool
unfolding bitmap_scan_test
is_set btmp bit_idx = not (bitmap_scan_test btmp bit_idx == 0)

-- while ((0xff == btmp->bits[idx_byte]) && (idx_byte < btmp->btmp_bytes_len)) idx_byte++;
pub skip_full_bytes : ℕ → Bitmap → ℕ → Run ℕ
skip_full_bytes zero btmp idx_byte = out_of_fuel
skip_full_bytes (suc fuel) btmp idx_byte =
    let next = skip_full_bytes fuel btmp (add32 idx_byte 1) in
    if (0xff == btmp.bits idx_byte) && ltb idx_byte btmp.btmp_bytes_len then next else ok idx_byte

-- while ((uint8_t)(BITMAP_MASK << idx_bit) & btmp->bits[idx_byte]) idx_bit++;
pub skip_set_bits : ℕ → ℕ → ℕ → Run ℕ
skip_set_bits zero byte idx_bit = out_of_fuel
skip_set_bits (suc fuel) byte idx_bit =
    let next = skip_set_bits fuel byte (idx_bit + 1) in
    if bit_and (mask idx_bit % 256) byte == 0 then ok idx_bit else next

-- The last loop of `bitmap_scan`, which counts `bit_left` down; `none` is the -1 of
-- `bit_idx_start`.
pub scan_run : Bitmap → (cnt bit_left next_bit count : ℕ) → Option ℕ
unfolding is_set
scan_run btmp cnt zero next_bit count = none
scan_run btmp cnt (suc bit_left) next_bit count =
    let count' = if is_set btmp next_bit then 0 else add32 count 1 in
    let next = scan_run btmp cnt bit_left (add32 next_bit 1) count' in
    if count' == cnt then some (add32 (sub32 next_bit cnt) 1) else next

-- `none` is the result -1.
unfoldable pub bitmap_scan : Bitmap → ℕ → Run (Option ℕ)
unfolding skip_full_bytes skip_set_bits scan_run
bitmap_scan btmp cnt = do
  idx_byte ← skip_full_bytes (btmp.btmp_bytes_len + 1) btmp 0
  assert (ltb idx_byte btmp.btmp_bytes_len)
  if idx_byte == btmp.btmp_bytes_len then ok none else do
    idx_bit ← skip_set_bits 9 (btmp.bits idx_byte) 0
    let bit_idx_start = (idx_byte * 8 + idx_bit) % 2 ^ 32
    let bit_left = sub32 (btmp.btmp_bytes_len * 8) bit_idx_start
    let next_bit = add32 bit_idx_start 1
    ok (if cnt == 1 then some bit_idx_start else scan_run btmp cnt bit_left next_bit 1)

abbrev pub write_byte : (ℕ → ℕ) → ℕ → ℕ → ℕ → ℕ
write_byte bits i v j = if i == j then v else bits j

-- The write of `bitmap_set`. `&= ~mask` on a byte: of the complement only the low eight bits count.
unfoldable pub update_bit : Bitmap → (bit_idx value : ℕ) → Bitmap
update_bit btmp bit_idx value =
    let byte_idx = bit_idx / 8 in
    let bit_odd = bit_idx % 8 in
    let old = btmp.bits byte_idx in
    let byte = if value == 0 then bit_and old (255 - mask bit_odd) else bit_or old (mask bit_odd) in
    record btmp { bits = write_byte btmp.bits byte_idx byte }

unfoldable pub bitmap_set : Bitmap → (bit_idx value : ℕ) → Run Bitmap
bitmap_set btmp bit_idx value = do
  assert ((value == 0) || (value == 1))
  ok (update_bit btmp bit_idx value)

pub bitmap_get : Bitmap → ℕ → ℕ
bitmap_get btmp bit_idx = bit_and (btmp.bits (bit_idx / 8) / 2 ^ (bit_idx % 8)) 1
