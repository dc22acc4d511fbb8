-- ===== src/Bitmap/Laws.antt =====
-- What `bitmap_scan` finds, on every outcome, and that a range which it found can be taken.
use tros.Prelude.{
  ℕ, ◌+◌, ◌-◌, ◌*◌, ◌/◌, ◌%◌, ◌^◌, ◌<◌, ◌≤◌, ◌≡◌, ap, true, false, ◌⊎◌, Option, some, arith, ltb,
  ◌==◌, if◌then◌else◌, add32, sub32, Bool-cases, inl, inr, ok, panic,
}
use tros.Bitmap.{Bitmap, is_set, skip_full_bytes, skip_set_bits, scan_run, bitmap_scan}
use tros.Bitmap.Bits.{IsBytes, bit, is_set-bit}
use tros.Bitmap.Scan.{
  Clear, Skipped, skip_full_bytes-Skipped, LowestClear, skip_set_bits-LowestClear, is_set-full,
  Counted, scan_run-first, scan_run_sound,
}

-- The number of bits of the bitmap.
abbrev pub size : Bitmap → ℕ
size btmp = btmp.btmp_bytes_len * 8

-- Bytes of memory, and a length whose number of bits fits `int`.
pub record IsSound (btmp : Bitmap) : Type 0 where
  pub bytes : IsBytes btmp
  pub small : btmp.btmp_bytes_len < 2 ^ 28

-- What the loops before the counting one establish: `start` is the lowest clear bit.
record Started (btmp : Bitmap) (cnt start : ℕ) : Type 0 where
  within : start < size btmp
  clear : is_set btmp start ≡ false
  below : (j : ℕ) → j < start → is_set btmp j ≡ true
  result :
      bitmap_scan btmp cnt
      ≡ ok (if cnt == 1 then some start else scan_run btmp cnt (size btmp - start) (start + 1) 1)

module _ (btmp : Bitmap) (v : IsSound btmp) (cnt : ℕ) where
  bitmap_scan_full :
      (i : ℕ)
      → skip_full_bytes (btmp.btmp_bytes_len + 1) btmp 0 ≡ ok i
      → i ≡ btmp.btmp_bytes_len
      → bitmap_scan btmp cnt ≡ panic
  unfolding bitmap_scan
  bitmap_scan_full i e full = let t : ltb i btmp.btmp_bytes_len ≡ false = ground arith in rw (e, t)

  is_set-below : (i : ℕ) → Skipped btmp 0 i → (j : ℕ) → j < i * 8 → is_set btmp j ≡ true
  is_set-below i s j lt = is_set-full btmp j (s.full (j / 8) (omega arith) (omega arith))

  is_set-in_byte : (i k : ℕ) → k < 8 → is_set btmp (i * 8 + k) ≡ bit (btmp.bits i) k
  is_set-in_byte i k h =
      let q : (i * 8 + k) / 8 ≡ i = omega arith in
      let r : (i * 8 + k) % 8 ≡ k = omega arith in rw (is_set-bit, q, r)

  Started-intro :
      (i k : ℕ)
      → skip_full_bytes (btmp.btmp_bytes_len + 1) btmp 0 ≡ ok i
      → Skipped btmp 0 i
      → i < btmp.btmp_bytes_len
      → skip_set_bits 9 (btmp.bits i) 0 ≡ ok k
      → LowestClear (btmp.bits i) k
      → Started btmp cnt (i * 8 + k)
  unfolding bitmap_scan
  Started-intro i k e s lt e' low = record {
    within = omega (arith, low.within);
    clear = rw (is_set-in_byte i k low.within) low.clear;
    below = λ j h. elim (Bool-cases (ltb j (i * 8))) [
      | inl before ↦ is_set-below i s j (ground arith)
      | inr here ↦ ground (arith, low.within, is_set-in_byte i (j - i * 8), low.below (j - i * 8))
    ];
    result =
        let t : ltb i btmp.btmp_bytes_len ≡ true = ground arith in
        let u : (i == btmp.btmp_bytes_len) ≡ false = ground arith in
        let a : (i * 8 + k) % 2 ^ 32 ≡ i * 8 + k = omega (arith, v.small, low.within) in
        let b : sub32 (size btmp) (i * 8 + k) ≡ size btmp - (i * 8 + k) =
          omega (arith, v.small, low.within) in
        let c : add32 (i * 8 + k) 1 ≡ i * 8 + k + 1 = omega (arith, v.small, low.within) in
        rw (e, t, u, e', a, b, c);
  }

  -- Either the lowest clear bit has been found, or there is none and the ASSERT fails.
  bitmap_scan-cases :
      ((start : ℕ) × Started btmp cnt start)
      ⊎ ((bitmap_scan btmp cnt ≡ panic) × ((j : ℕ) → j < size btmp → is_set btmp j ≡ true))
  bitmap_scan-cases =
      let (i, e, s) =
        skip_full_bytes-Skipped (btmp.btmp_bytes_len + 1) btmp 0 v.small (omega arith)
          (omega arith) in
      elim (Bool-cases (ltb i btmp.btmp_bytes_len)) [
        | inl lt ↦
            let (k, e', low) =
              skip_set_bits-LowestClear (btmp.bits i) (v.bytes i) (s.stop (ground arith)) in
            inl (i * 8 + k, Started-intro i k e s (ground arith) e' low)
        | inr end ↦
            let i_end : i ≡ btmp.btmp_bytes_len = ground (arith, s.to) in
            inr (bitmap_scan_full i e i_end, λ j h. is_set-below i s j (ground arith))
      ]

  Started-Counted : (start : ℕ) → Started btmp cnt start → 1 < cnt → Counted btmp cnt (start + 1) 1
  Started-Counted start s many = record {
    fits = omega arith;
    few = many;
    clear = λ j p q. let e : j ≡ start = omega arith in rw e s.clear;
    before = λ j e. s.below j (omega arith);
  }

  Started-first :
      (start r : ℕ)
      → Started btmp cnt start
      → 0 < cnt
      → r + cnt ≤ size btmp + 1
      → Clear btmp r cnt
      → (q : ℕ) × (bitmap_scan btmp cnt ≡ ok (some q)) × (q ≤ r) × Clear btmp q cnt
  Started-first start r s pos fits run =
      let late : start ≤ r = ground (arith, s.below r, run r) in
      elim (Bool-cases (cnt == 1)) [
        | inl one ↦ (
          start,
          rw (s.result, one),
          late,
          λ j p q. let e : j ≡ start = ground arith in rw e s.clear,
        )
        | inr many ↦
            let left : start + 1 + (size btmp - start) ≡ size btmp + 1 = omega (arith, s.within) in
            rw (s.result, many)
              (wrap (
                scan_run-first btmp cnt (size btmp - start) (start + 1) 1 r
                  (omega (arith, s.within, v.small)) (Started-Counted start s (ground arith)) run
                  (ground arith) (omega (arith, s.within))))
      ]
    where
      wrap :
          {o : Option ℕ}
          → (q : ℕ) × (o ≡ some q) × (q ≤ r) × Clear btmp q cnt
          → (q : ℕ) × (ok o ≡ ok (some q)) × (q ≤ r) × Clear btmp q cnt
      wrap (q, e, le, c) = (q, rw e, le, c)

  Started-sound :
      (start q : ℕ)
      → Started btmp cnt start
      → 0 < cnt
      → bitmap_scan btmp cnt ≡ ok (some q)
      → (q + cnt ≤ size btmp + 1) × Clear btmp q cnt
  Started-sound start q s pos found = elim (Bool-cases (cnt == 1)) [
    | inl one ↦
        let e : start ≡ q = ground (arith, s.result) in
        (ground (arith, s.within), λ j p h. let e' : j ≡ start = ground arith in rw e' s.clear)
    | inr many ↦
        let h =
          scan_run_sound btmp cnt (size btmp - start) (start + 1) 1 q
            (omega (arith, s.within, v.small)) (Started-Counted start s (ground arith))
            (ground (arith, s.result)) in
        (omega (arith, h.0, s.within), h.1)
  ]

-- A search for `cnt` bits, `cnt` at least 1, returns the first place where they are clear: if there
-- is a run of `cnt` clear bits, the result is the start of one, and no later than that one. The
-- first bit behind the bitmap counts as one of its bits as soon as `cnt` is at least 2.
pub bitmap_scan-first :
    (btmp : Bitmap) (cnt r : ℕ)
    → IsSound btmp
    → 0 < cnt
    → r < size btmp
    → r + cnt ≤ size btmp + 1
    → Clear btmp r cnt
    → (q : ℕ) × (bitmap_scan btmp cnt ≡ ok (some q)) × (q ≤ r) × Clear btmp q cnt
bitmap_scan-first btmp cnt r v pos lt fits run = elim (bitmap_scan-cases btmp v cnt) [
  | inl (start, s) ↦ Started-first btmp v cnt start r s pos fits run
  | inr (e, full) ↦ absurd (ground (arith, full r, run r))
]

-- What a search for `cnt` bits, `cnt` at least 1, reports: all `cnt` bits are clear, and at most one
-- of them lies behind the bitmap.
pub bitmap_scan_sound :
    (btmp : Bitmap) (cnt q : ℕ)
    → IsSound btmp
    → 0 < cnt
    → bitmap_scan btmp cnt ≡ ok (some q)
    → (q + cnt ≤ size btmp + 1) × Clear btmp q cnt
bitmap_scan_sound btmp cnt q v pos found = elim (bitmap_scan-cases btmp v cnt) [
  | inl (start, s) ↦ Started-sound btmp v cnt start q s pos found
  | inr (e, full) ↦ absurd (ground arith)
]

-- A search for one bit finds the lowest clear bit of the bitmap, and fails, by its ASSERT, exactly
-- when every bit is set. It never returns -1.
pub bitmap_scan_one :
    (btmp : Bitmap)
    → IsSound btmp
    → ((q : ℕ) × (bitmap_scan btmp 1 ≡ ok (some q))
        × (q < size btmp)
        × (is_set btmp q ≡ false)
        × ((j : ℕ) → j < q → is_set btmp j ≡ true))
      ⊎ ((bitmap_scan btmp 1 ≡ panic) × ((j : ℕ) → j < size btmp → is_set btmp j ≡ true))
bitmap_scan_one btmp v = elim (bitmap_scan-cases btmp v 1) [
  | inl (start, s) ↦ inl (start, s.result, s.within, s.clear, s.below)
  | inr full ↦ inr full
]

-- If the only runs of `cnt` clear bits are those that need the bit behind the bitmap, the search
-- returns such a run: the range that it reports ends one bit outside the bitmap.
pub bitmap_scan-overrun :
    (btmp : Bitmap) (cnt : ℕ)
    → IsSound btmp
    → 1 < cnt
    → cnt ≤ size btmp + 1
    → Clear btmp (size btmp + 1 - cnt) cnt
    → ((r : ℕ) → r + cnt ≤ size btmp → ¬ (Clear btmp r cnt))
    → bitmap_scan btmp cnt ≡ ok (some (size btmp + 1 - cnt))
bitmap_scan-overrun btmp cnt v many fits run alone =
    let (q, e, le, c) =
      bitmap_scan-first btmp cnt (size btmp + 1 - cnt) v (omega arith) (omega arith) (omega arith)
        run in
    elim (Bool-cases (q == size btmp + 1 - cnt)) [
      | inl same ↦
          let same' : q ≡ size btmp + 1 - cnt = ground arith in rw e (ap (λ q. ok (some q)) same')
      | inr other ↦ absurd (alone q (ground arith) c)
    ]
