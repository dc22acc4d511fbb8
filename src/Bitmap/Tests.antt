-- ===== src/Bitmap/Tests.antt =====
-- Runs of the bitmap functions, and the theorems at concrete bitmaps.
use tros.Prelude.{
  ℕ, ◌+◌, ◌<◌, ◌≤◌, ◌≡◌, refl, true, some, arith, ◌==◌, if◌then◌else◌, Bool-cases, inl, inr, ok,
  every, every_lem,
}
use tros.Bitmap.{Bitmap, is_set, bitmap_scan}
use tros.Bitmap.Scan.{Clear}
use tros.Bitmap.Laws.{IsSound, bitmap_scan-first, bitmap_scan-overrun}

-- One byte with its low seven bits taken, and a free byte of other memory behind it.
abbrev tight : Bitmap
tight = record { btmp_bytes_len = 1; bits = λ i. if i == 0 then 0x7f else 0 }

-- Two bytes with bits 0, 1 and 4 taken.
abbrev gaps : Bitmap
gaps = record { btmp_bytes_len = 2; bits = λ i. if i == 0 then 0x13 else 0 }

tight-IsSound : IsSound tight
tight-IsSound = record { bytes = λ i. ground arith; small = omega arith }

gaps-IsSound : IsSound gaps
gaps-IsSound = record { bytes = λ i. ground arith; small = omega arith }

scan_gaps : bitmap_scan gaps 3 ≡ ok (some 5)
unfolding bitmap_scan
scan_gaps = refl

scan_two : bitmap_scan gaps 2 ≡ ok (some 2)
unfolding bitmap_scan
scan_two = refl

scan_tight : bitmap_scan tight 2 ≡ ok (some 7)
unfolding bitmap_scan
scan_tight = refl

gaps-Clear : Clear gaps 6 3
unfolding is_set
gaps-Clear j p q = elim (Bool-cases (j == 6)) [
  | inl e ↦ let e' : j ≡ 6 = ground arith in rw e'
  | inr n ↦ elim (Bool-cases (j == 7)) [
    | inl e ↦ let e' : j ≡ 7 = ground arith in rw e'
    | inr m ↦ let e' : j ≡ 8 = ground arith in rw e'
  ]
]

tight-Clear : Clear tight 7 2
unfolding is_set
tight-Clear j p q = elim (Bool-cases (j == 7)) [
  | inl e ↦ let e' : j ≡ 7 = ground arith in rw e'
  | inr n ↦ let e' : j ≡ 8 = ground arith in rw e'
]

tight_taken : (j : ℕ) → j < 7 → is_set tight j ≡ true
unfolding is_set every
tight_taken j h = every_lem 7 (is_set tight) j h refl

tight_full : (r : ℕ) → r + 2 ≤ 8 → ¬ (Clear tight r 2)
tight_full r fits run = absurd (ground (arith, tight_taken r (omega arith), run r))

bitmap_scan-first_example : (q : ℕ) × (bitmap_scan gaps 3 ≡ ok (some q)) × (q ≤ 6) × Clear gaps q 3
bitmap_scan-first_example =
    bitmap_scan-first gaps 3 6 gaps-IsSound (omega arith) (omega arith) (omega arith) gaps-Clear

bitmap_scan-overrun_example : bitmap_scan tight 2 ≡ ok (some 7)
bitmap_scan-overrun_example =
    bitmap_scan-overrun tight 2 tight-IsSound (omega arith) (omega arith) tight-Clear tight_full
