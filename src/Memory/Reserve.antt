-- ===== src/Memory/Reserve.antt =====
-- Virtual addresses of src/kernel/memory.c: the range that `vaddr_get` reserves in its bitmap, and
-- that `vaddr_remove` releases it.
use tros.Prelude.{
  ℕ, zero, suc, ◌+◌, ◌*◌, ◌/◌, ◌^◌, ◌<◌, ◌≤◌, ◌≡◌, refl, sym, ◌∙◌, true, not, ◌&&◌, ◌||◌, Option,
  none, some, arith, ltb, leb, ◌==◌, if◌then◌else◌, add32, sub32, ok, ok-injective, bind_ok,
}
use mathlib.Core.Path.{subst}
use tros.Bitmap.{Bitmap, is_set, update_bit, bitmap_set, bitmap_scan}
use tros.Bitmap.Bits.{IsBytes, is_set-update_bit, update_bit-IsBytes}
use tros.Bitmap.Scan.{Clear}
use tros.Bitmap.Laws.{size, IsSound, bitmap_scan_sound}
use tros.Memory.{pg_size, VirtualAddr, reserve, reserve_found, set_bits}
use tros.Memory.Release.{release_range}

-- `btmp'` is `btmp` with `value` in the `n` bits from `i` on.
pub record RangeSet (btmp : Bitmap) (n i value : ℕ) (btmp' : Bitmap) : Type 0 where
  pub bytes : IsBytes btmp'
  pub length_same : btmp'.btmp_bytes_len ≡ btmp.btmp_bytes_len
  pub range :
      (j : ℕ)
      → is_set btmp' j ≡ (if leb i j && ltb j (i + n) then not (value == 0) else is_set btmp j)

-- The loops of `vaddr_get` and `vaddr_remove` write their range and nothing else.
pub set_bits-RangeSet :
    (n : ℕ) (btmp : Bitmap) (i value : ℕ)
    → IsBytes btmp
    → value < 2
    → (btmp' : Bitmap) × (set_bits n btmp i value ≡ ok btmp') × RangeSet btmp n i value btmp'
unfolding set_bits bitmap_set update_bit
set_bits-RangeSet zero btmp i value b v =
    (btmp, refl, record { bytes = b; length_same = refl; range = λ j. ground arith })
set_bits-RangeSet (suc n) btmp i value b v =
    let btmp1 = update_bit btmp i value in
    let (btmp2, e, r) =
      set_bits-RangeSet n btmp1 (i + 1) value (update_bit-IsBytes btmp i value b) v in
    let good : ((value == 0) || (value == 1)) ≡ true = ground arith in
    (
      btmp2,
      rw (good, e) refl,
      record {
        bytes = r.bytes;
        length_same = r.length_same;
        range = λ j. ground (arith, r.range j, is_set-update_bit btmp i value j b);
      },
    )

some-injective : {A : Type 0} {a b : A} → some a ≡ some b → a ≡ b
some-injective e = cc

-- What a reservation does that does not end in NULL.
pub record Reserved (v : VirtualAddr) (n addr : ℕ) (v' : VirtualAddr) : Type 0 where
  pub index : ℕ
  pub within : index + n ≤ size v.vaddr_bitmap + 1
  pub was_clear : Clear v.vaddr_bitmap index n
  pub addr_eq : addr ≡ add32 v.vaddr_start (index * pg_size)
  pub start_same : v'.vaddr_start ≡ v.vaddr_start
  pub taken : RangeSet v.vaddr_bitmap n index 1 v'.vaddr_bitmap

-- A reservation of `n` pages, more than none, that succeeds takes a range of pages none of which was reserved, and reserves these and no others.
pub reserve-Reserved :
    (v : VirtualAddr) (n addr : ℕ) (v' : VirtualAddr)
    → IsSound v.vaddr_bitmap
    → 0 < n
    → reserve v n ≡ ok (some (addr, v'))
    → Reserved v n addr v'
unfolding reserve reserve_found
reserve-Reserved v n addr v' sound many e = go (bind_ok (bitmap_scan v.vaddr_bitmap n) e)
  where
    go :
        (found : Option ℕ) × (bitmap_scan v.vaddr_bitmap n ≡ ok found)
          × (reserve_found v n found ≡ ok (some (addr, v')))
        → Reserved v n addr v'
    go (none, e1, e2) = absurd (ground (arith, ok-injective e2))
    go (some i, e1, e2) =
        let (btmp, set, r) = set_bits-RangeSet n v.vaddr_bitmap i 1 sound.bytes (omega arith) in
        let (btmp', e3, e4) = bind_ok (set_bits n v.vaddr_bitmap i 1) e2 in
        let same : btmp ≡ btmp' = ok-injective (sym set ∙ e3) in
        let (fits, free) = bitmap_scan_sound v.vaddr_bitmap n i sound many e1 in
        let pair = some-injective (ok-injective e4) in
        subst (λ r. Reserved v n r.0 r.1) pair
          (record {
            index = i;
            within = fits;
            was_clear = free;
            addr_eq = refl;
            start_same = refl;
            taken = subst (RangeSet v.vaddr_bitmap n i 1) same r;
          })

-- Releasing the range of more than no pages that has just been reserved makes the reserved pages
-- what they were, in a bitmap whose pages and the next one lie below 4 GB.
pub release_range-reserve :
    (v : VirtualAddr) (n addr : ℕ) (v' : VirtualAddr)
    → IsSound v.vaddr_bitmap
    → v.vaddr_start + (size v.vaddr_bitmap + 1) * pg_size ≤ 2 ^ 32
    → 0 < n
    → reserve v n ≡ ok (some (addr, v'))
    → (v'' : VirtualAddr) × (release_range v' addr n ≡ ok v'')
      × ((j : ℕ) → is_set v''.vaddr_bitmap j ≡ is_set v.vaddr_bitmap j)
unfolding release_range
release_range-reserve v n addr v' sound low many e =
    let r = reserve-Reserved v n addr v' sound many e in
    let i = sub32 addr v'.vaddr_start / pg_size in
    let same : i ≡ r.index = ground (arith, r.within, r.addr_eq, r.start_same) in
    let (btmp, set, q) = set_bits-RangeSet n v'.vaddr_bitmap i 0 r.taken.bytes (omega arith) in
    (
      record v' { vaddr_bitmap = btmp },
      rw set refl,
      λ j. ground (arith, same, q.range j, r.taken.range j, r.was_clear j),
    )
