-- ===== src/Bitmap/Bits.antt =====
-- A bitmap as a set of bit indices: what `bitmap_set` writes, `bitmap_scan_test` and `bitmap_get`
-- read.
use tros.Prelude.{
  ℕ, ◌-◌, ◌*◌, ◌/◌, ◌%◌, ◌^◌, ◌<◌, bit_and, bit_or, ◌≡◌, refl, Bool, true, false, not, ◌&&◌, arith,
  ltb, ◌==◌, if◌then◌else◌, every, every_lem,
}
use tros.Bitmap.{Bitmap, mask, bitmap_init, is_set, update_bit, bitmap_get}

-- Bytes are below 256.
abbrev pub IsBytes : Bitmap → Type 0
IsBytes btmp = (i : ℕ) → btmp.bits i < 256

-- Bit `k` of a byte, as `bitmap_scan_test` computes it.
unfoldable pub bit : ℕ → ℕ → Bool
bit x k = not (bit_and x (mask k) == 0)

unfoldable pub both : (ℕ → ℕ → Bool) → Bool
unfolding every
both p = every 256 λ x. every 8 λ k. p x k

pub both_sound : (p : ℕ → ℕ → Bool) (x k : ℕ) → both p ≡ true → x < 256 → k < 8 → p x k ≡ true
unfolding both
both_sound p x k h hx hk =
    every_lem 8 (λ k. p x k) k hk (every_lem 256 (λ x. every 8 λ k. p x k) x hx h)

eqb : Bool → Bool → Bool
eqb true b = b
eqb false b = not b

eqb_sound : (a b : Bool) → eqb a b ≡ true → a ≡ b
unfolding eqb
eqb_sound a b h = ground arith

-- Setting and clearing bit `k` of a byte, seen at bit `j`.
raise : ℕ → ℕ → ℕ → Bool
unfolding bit
raise j x k =
    eqb (bit (bit_or x (mask k)) j) (if k == j then true else bit x j)
    && eqb (bit (bit_and x (255 - mask k)) j) (if k == j then false else bit x j)
    && ltb (bit_or x (mask k)) 256
    && ltb (bit_and x (255 - mask k)) 256

raise_table : every 8 (λ j. both (raise j)) ≡ true
unfolding every both raise eqb
raise_table = refl

raise_sound :
    (x k j : ℕ)
    → x < 256
    → k < 8
    → j < 8
    → (bit (bit_or x (mask k)) j ≡ (if k == j then true else bit x j))
      × (bit (bit_and x (255 - mask k)) j ≡ (if k == j then false else bit x j))
      × (bit_or x (mask k) < 256)
      × (bit_and x (255 - mask k) < 256)
unfolding raise
raise_sound x k j hx hk hj = ground (
  arith,
  both_sound (raise j) x k (every_lem 8 (λ j. both (raise j)) j hj raise_table) hx hk,
  eqb_sound (bit (bit_or x (mask k)) j) (if k == j then true else bit x j),
  eqb_sound (bit (bit_and x (255 - mask k)) j) (if k == j then false else bit x j),
)

pub is_set-bit : (btmp : Bitmap) (i : ℕ) → is_set btmp i ≡ bit (btmp.bits (i / 8)) (i % 8)
unfolding is_set bit
is_set-bit btmp i = refl

same_bit : (i j : ℕ) → i / 8 ≡ j / 8 → i % 8 ≡ j % 8 → i ≡ j
same_bit i j p q = omega arith

pub update_bit-IsBytes : (btmp : Bitmap) (i v : ℕ) → IsBytes btmp → IsBytes (update_bit btmp i v)
unfolding update_bit
update_bit-IsBytes btmp i v h j =
    ground (arith, h j, h (i / 8), raise_sound (btmp.bits (i / 8)) (i % 8) 0)

pub is_set-update_bit :
    (btmp : Bitmap) (i v j : ℕ)
    → IsBytes btmp
    → is_set (update_bit btmp i v) j ≡ (if i == j then not (v == 0) else is_set btmp j)
unfolding update_bit
is_set-update_bit btmp i v j h = ground (
  arith,
  h (i / 8),
  is_set-bit btmp j,
  is_set-bit (update_bit btmp i v) j,
  raise_sound (btmp.bits (i / 8)) (i % 8) (j % 8),
  same_bit i j,
)

low_bit : ℕ → ℕ → Bool
unfolding bit
low_bit x k = bit_and (x / 2 ^ k) 1 == (if bit x k then 1 else 0)

low_bit_table : both low_bit ≡ true
unfolding both low_bit
low_bit_table = refl

-- `bitmap_get` is 1 at a bit that is set and 0 at one that is clear.
pub bitmap_get-is_set :
    (btmp : Bitmap) (i : ℕ) → IsBytes btmp → bitmap_get btmp i ≡ (if is_set btmp i then 1 else 0)
unfolding bitmap_get low_bit
bitmap_get-is_set btmp i h = ground (
  arith,
  h (i / 8),
  is_set-bit btmp i,
  both_sound low_bit (btmp.bits (i / 8)) (i % 8) low_bit_table,
)

bit-zero : (k : ℕ) → k < 8 → bit 0 k ≡ false
unfolding bit
bit-zero k h = ground (arith, every_lem 8 (λ k. bit_and 0 (mask k) == 0) k h (unfold every in refl))

-- `bitmap_init` clears the bits of the bitmap, and those alone.
pub is_set-bitmap_init :
    (btmp : Bitmap) (i : ℕ)
    → is_set (bitmap_init btmp) i
      ≡ (if ltb i (btmp.btmp_bytes_len * 8) then false else is_set btmp i)
unfolding bitmap_init
is_set-bitmap_init btmp i =
    ground (arith, is_set-bit btmp i, is_set-bit (bitmap_init btmp) i, bit-zero (i % 8))
