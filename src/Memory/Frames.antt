-- ===== src/Memory/Frames.antt =====
-- The frames of a pool of src/kernel/memory.c: what `palloc` takes and what `pfree` gives back.
use tros.Prelude.{
  ℕ, ◌+◌, ◌*◌, ◌/◌, ◌^◌, ◌<◌, ◌≤◌, ◌≡◌, Bool, true, false, ◌⊎◌, arith, ◌==◌, if◌then◌else◌, refl,
  sym, ◌∙◌, sub32, ok-injective, add32, ok, panic, inl, inr,
}
use mathlib.Core.Path.{subst}
use tros.Bitmap.{is_set, update_bit, bitmap_set}
use tros.Bitmap.Bits.{is_set-update_bit, update_bit-IsBytes}
use tros.Bitmap.Laws.{size, IsSound, bitmap_scan_one}
use tros.Memory.{pg_size, Pool, palloc, palloc_found}
use tros.Memory.Release.{free_frame}

-- A pool whose bitmap is sound and whose frames have addresses below 4 GB, none of them 0.
pub record IsPool (p : Pool) : Type 0 where
  pub sound : IsSound p.pool_bitmap
  pub start : 0 < p.phy_addr_start
  pub bounded : p.phy_addr_start + size p.pool_bitmap * pg_size ≤ 2 ^ 32

-- The frame at an index is taken.
abbrev pub taken : Pool → ℕ → Bool
taken p i = is_set p.pool_bitmap i

-- What `palloc` does: it takes the free frame with the lowest address.
pub record TookFrame (p : Pool) (addr : ℕ) (p' : Pool) : Type 0 where
  pub index : ℕ
  pub within : index < size p.pool_bitmap
  pub addr_eq : addr ≡ p.phy_addr_start + index * pg_size
  pub was_free : taken p index ≡ false
  pub lowest : (i : ℕ) → i < index → taken p i ≡ true
  pub taken_after : (i : ℕ) → taken p' i ≡ (if index == i then true else taken p i)
  pub start_same : p'.phy_addr_start ≡ p.phy_addr_start
  pub size_same : size p'.pool_bitmap ≡ size p.pool_bitmap
  pub pool : IsPool p'

-- `palloc` on a pool takes its lowest free frame and no other, and stops at an ASSERT when every
-- frame is taken. It never returns NULL.
pub palloc-TookFrame :
    (p : Pool)
    → IsPool p
    → ((addr : ℕ) × (p' : Pool) × (palloc p ≡ ok (addr, p')) × TookFrame p addr p')
      ⊎ ((palloc p ≡ panic) × ((i : ℕ) → i < size p.pool_bitmap → taken p i ≡ true))
unfolding palloc palloc_found bitmap_set update_bit
palloc-TookFrame p v = elim (bitmap_scan_one p.pool_bitmap v.sound) [
  | inl (q, e, within, free, low) ↦ inl (
    add32 (q * pg_size) p.phy_addr_start,
    record p { pool_bitmap = update_bit p.pool_bitmap q 1 },
    rw e refl,
    took q within free low,
  )
  | inr (e, full) ↦ inr (rw e refl, full)
]
  where
    took :
        (q : ℕ)
        → q < size p.pool_bitmap
        → taken p q ≡ false
        → ((i : ℕ) → i < q → taken p i ≡ true)
        → TookFrame p
            (add32 (q * pg_size) p.phy_addr_start)
            (record p { pool_bitmap = update_bit p.pool_bitmap q 1 })
    took q within free low = record {
      index = q;
      within = within;
      addr_eq = ground (arith, v.bounded);
      was_free = free;
      lowest = low;
      taken_after = λ i. ground (arith, is_set-update_bit p.pool_bitmap q 1 i v.sound.bytes);
      start_same = refl;
      size_same = refl;
      pool = record {
        sound = record {
          bytes = update_bit-IsBytes p.pool_bitmap q 1 v.sound.bytes;
          small = v.sound.small;
        };
        start = v.start;
        bounded = v.bounded;
      };
    }

freed :
    (p : Pool) (addr : ℕ) (p' : Pool)
    → IsPool p
    → TookFrame p addr p'
    → (p'' : Pool) × (free_frame p' addr ≡ ok p'') × ((i : ℕ) → taken p'' i ≡ taken p i)
unfolding free_frame bitmap_set
freed p addr p' v t =
    let i' = sub32 addr p'.phy_addr_start / pg_size in
    let same : i' ≡ t.index = ground (arith, v.bounded, t.within, t.addr_eq, t.start_same) in
    (
      record p' { pool_bitmap = update_bit p'.pool_bitmap i' 0 },
      refl,
      λ i. ground (
        arith,
        same,
        t.was_free,
        t.taken_after i,
        is_set-update_bit p'.pool_bitmap i' 0 i t.pool.sound.bytes,
      ),
    )

-- Giving back the frame that `palloc` has just taken from a pool makes the taken frames what they
-- were.
pub free_frame-palloc :
    (p : Pool) (addr : ℕ) (p' : Pool)
    → IsPool p
    → palloc p ≡ ok (addr, p')
    → (p'' : Pool) × (free_frame p' addr ≡ ok p'') × ((i : ℕ) → taken p'' i ≡ taken p i)
free_frame-palloc p addr p' v e = elim (palloc-TookFrame p v) [
  | inl (addr1, p1, e1, t) ↦
      freed p addr p' v (subst (λ r. TookFrame p r.0 r.1) (ok-injective (sym e1 ∙ e)) t)
  | inr (e1, full) ↦ absurd (ground (arith, e1))
]
