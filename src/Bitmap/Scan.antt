-- ===== src/Bitmap/Scan.antt =====
-- The loops of `bitmap_scan`.
use tros.Prelude.{
  ℕ, zero, suc, ◌+◌, ◌-◌, ◌/◌, ◌%◌, ◌^◌, ◌<◌, ◌≤◌, ◌≡◌, refl, ◌≢◌, Bool, true, false, not, ◌&&◌,
  ◌||◌, some, arith, ltb, ◌==◌, add32, sub32, Bool-cases, inl, inr, every, every_lem, ok, Run,
}
use mathlib.Core.Path.{subst}
use tros.Bitmap.{Bitmap, is_set, skip_full_bytes, skip_set_bits, scan_run}
use tros.Bitmap.Bits.{bit, both, both_sound, is_set-bit}

-- All bits from `s` on are clear, `n` of them.
abbrev pub Clear : Bitmap → ℕ → ℕ → Type 0
Clear btmp s n = (j : ℕ) → s ≤ j → j < s + n → is_set btmp j ≡ false

-- Where the loop over the bytes stops: behind full bytes only, at one that is not full or behind
-- the last.
pub record Skipped (btmp : Bitmap) (i j : ℕ) : Type 0 where
  pub from : i ≤ j
  pub to : j ≤ btmp.btmp_bytes_len
  pub full : (k : ℕ) → i ≤ k → k < j → btmp.bits k ≡ 0xff
  pub stop : j < btmp.btmp_bytes_len → btmp.bits j ≢ 0xff

Skipped-back :
    (btmp : Bitmap) (i j : ℕ)
    → btmp.btmp_bytes_len < 2 ^ 28
    → btmp.bits i ≡ 0xff
    → i < btmp.btmp_bytes_len
    → Skipped btmp (add32 i 1) j
    → Skipped btmp i j
Skipped-back btmp i j small e lt s = record {
  from = omega arith;
  to = s.to;
  full = λ k p q. ground (arith, s.full k);
  stop = s.stop;
}

pub skip_full_bytes-Skipped :
    (fuel : ℕ) (btmp : Bitmap) (i : ℕ)
    → btmp.btmp_bytes_len < 2 ^ 28
    → i ≤ btmp.btmp_bytes_len
    → btmp.btmp_bytes_len < fuel + i
    → (j : ℕ) × (skip_full_bytes fuel btmp i ≡ ok j) × Skipped btmp i j
unfolding skip_full_bytes
skip_full_bytes-Skipped zero btmp i small le enough = absurd (omega arith)
skip_full_bytes-Skipped (suc fuel) btmp i small le enough =
    elim (Bool-cases ((0xff == btmp.bits i) && ltb i btmp.btmp_bytes_len)) [
      | inl more ↦
          let (j, e, s) =
            skip_full_bytes-Skipped fuel btmp (add32 i 1) small (ground arith) (ground arith) in
          (j, rw more e, Skipped-back btmp i j small (ground arith) (ground arith) s)
      | inr done ↦ (
        i,
        rw done,
        record {
          from = omega arith;
          to = le;
          full = λ k p q. absurd (omega arith);
          stop = λ lt e. ground arith;
        },
      )
    ]

-- The loop over the bits of a byte stops at the lowest clear bit.
stops_at : ℕ → Run ℕ → Bool
unfolding every bit
stops_at x (ok k) = ltb k 8 && not (bit x k) && every k (bit x)
stops_at x r = false

stops_table : every 256 (λ x. (x == 0xff) || stops_at x (skip_set_bits 9 x 0)) ≡ true
unfolding every stops_at skip_set_bits
stops_table = refl

full_table : both (λ x k. not (x == 0xff) || bit x k) ≡ true
unfolding both bit
full_table = refl

pub record LowestClear (x k : ℕ) : Type 0 where
  pub within : k < 8
  pub clear : bit x k ≡ false
  pub below : (j : ℕ) → j < k → bit x j ≡ true

stops_at-LowestClear :
    (x : ℕ) (r : Run ℕ) → stops_at x r ≡ true → (k : ℕ) × (r ≡ ok k) × LowestClear x k
unfolding stops_at
stops_at-LowestClear x (ok k) h = (
  k,
  refl,
  record {
    within = ground arith;
    clear = ground arith;
    below = λ j lt. every_lem k (bit x) j lt (ground arith);
  },
)
stops_at-LowestClear x Run.panic h = absurd (ground arith)
stops_at-LowestClear x Run.out_of_fuel h = absurd (ground arith)

pub skip_set_bits-LowestClear :
    (x : ℕ) → x < 256 → x ≢ 0xff → (k : ℕ) × (skip_set_bits 9 x 0 ≡ ok k) × LowestClear x k
skip_set_bits-LowestClear x h ne = stops_at-LowestClear x (skip_set_bits 9 x 0) (
    ground
      (arith, every_lem 256 (λ x. (x == 0xff) || stops_at x (skip_set_bits 9 x 0)) x h stops_table))

pub is_set-full : (btmp : Bitmap) (j : ℕ) → btmp.bits (j / 8) ≡ 0xff → is_set btmp j ≡ true
is_set-full btmp j e = ground (
  arith,
  is_set-bit btmp j,
  both_sound (λ x k. not (x == 0xff) || bit x k) (btmp.bits (j / 8)) (j % 8) full_table,
)

-- The counting loop finds the first run of `cnt` clear bits that starts no earlier than the bits
-- already counted.
module _ (btmp : Bitmap) (cnt : ℕ) where
  -- `count` bits before `next` are clear, the one before them is set, and no run has ended yet.
  pub record Counted (next count : ℕ) : Type 0 where
    pub fits : count ≤ next
    pub few : count < cnt
    pub clear : Clear btmp (next - count) count
    pub before : (j : ℕ) → j + count + 1 ≡ next → is_set btmp j ≡ true

  Counted-set :
      (next count : ℕ)
      → next + 1 < 2 ^ 32
      → Counted next count
      → is_set btmp next ≡ true
      → Counted (add32 next 1) 0
  Counted-set next count small c set = record {
    fits = omega arith;
    few = omega (arith, c.few);
    clear = λ j p q. absurd (omega arith);
    before = λ j e. let e' : j ≡ next = omega arith in rw e' set;
  }

  Counted-clear :
      (next count : ℕ)
      → next + 1 < 2 ^ 32
      → Counted next count
      → is_set btmp next ≡ false
      → add32 count 1 ≢ cnt
      → Counted (add32 next 1) (add32 count 1)
  Counted-clear next count small c free ne = record {
    fits = omega (arith, c.fits);
    few = omega (arith, c.few, c.fits);
    clear = λ j p q. elim (Bool-cases (j == next)) [
      | inl e ↦ ground arith
      | inr other ↦ c.clear j (ground (arith, c.fits)) (ground (arith, c.fits))
    ];
    before = λ j e. c.before j (omega (arith, c.fits));
  }

  -- The run that the loop is about to report.
  Clear-run :
      (next count : ℕ)
      → next + 1 < 2 ^ 32
      → Counted next count
      → is_set btmp next ≡ false
      → add32 count 1 ≡ cnt
      → Clear btmp (add32 (sub32 next cnt) 1) cnt
  Clear-run next count small c free e j p q = elim (Bool-cases (j == next)) [
    | inl e ↦ ground arith
    | inr other ↦ c.clear j (ground (arith, c.fits)) (ground (arith, c.fits))
  ]

  -- A clear run cannot end at `next` unless it has been counted.
  run-late :
      (next count r : ℕ)
      → next + 1 < 2 ^ 32
      → Counted next count
      → add32 count 1 ≢ cnt
      → Clear btmp r cnt
      → next < r + cnt
      → add32 next 1 < r + cnt
  run-late next count r small c ne run late = elim (Bool-cases (r + cnt == next + 1)) [
    | inl e ↦
        absurd (ground (arith, c.fits, c.few, run (next - count - 1), c.before (next - count - 1)))
    | inr other ↦ ground arith
  ]

  pub scan_run-first :
      (left next count r : ℕ)
      → next + left < 2 ^ 32
      → Counted next count
      → Clear btmp r cnt
      → next < r + cnt
      → r + cnt ≤ next + left
      → (q : ℕ) × (scan_run btmp cnt left next count ≡ some q) × (q ≤ r) × Clear btmp q cnt
  unfolding scan_run
  scan_run-first zero next count r small c run late fits = absurd (omega arith)
  scan_run-first (suc left) next count r small c run late fits =
      elim (Bool-cases (is_set btmp next)) [
        | inl set ↦
            let ne : (0 == cnt) ≡ false = ground (arith, c.few) in
            rw (set, ne)
              (scan_run-first left (add32 next 1) 0 r (omega arith)
                (Counted-set next count (omega arith) c set) run (ground (arith, run next))
                (omega arith))
        | inr free ↦ elim (Bool-cases (add32 count 1 == cnt)) [
          | inl hit ↦ (
            add32 (sub32 next cnt) 1,
            rw (free, hit),
            ground (arith, c.fits),
            Clear-run next count (omega arith) c free (ground arith),
          )
          | inr miss ↦
              rw (free, miss)
                (scan_run-first left (add32 next 1) (add32 count 1) r (omega arith)
                  (Counted-clear next count (omega arith) c free (ground arith)) run
                  (run-late next count r (omega arith) c (ground arith) run late) (omega arith))
        ]
      ]

  -- What the counting loop reports is a run of `cnt` clear bits within the bits that it reads.
  pub scan_run_sound :
      (left next count q : ℕ)
      → next + left < 2 ^ 32
      → Counted next count
      → scan_run btmp cnt left next count ≡ some q
      → (q + cnt ≤ next + left) × Clear btmp q cnt
  unfolding scan_run
  scan_run_sound zero next count q small c e = cc
  scan_run_sound (suc left) next count q small c e = elim (Bool-cases (is_set btmp next)) [
    | inl set ↦
        let h =
          scan_run_sound left (add32 next 1) 0 q (omega arith)
            (Counted-set next count (omega arith) c set) (ground (arith, c.few)) in
        (omega (arith, h.0), h.1)
    | inr free ↦ elim (Bool-cases (add32 count 1 == cnt)) [
      | inl hit ↦
          let e' : add32 (sub32 next cnt) 1 ≡ q = ground arith in
          (
            ground (arith, c.fits),
            subst (λ q. Clear btmp q cnt) e'
                (Clear-run next count (omega arith) c free (ground arith)),
          )
      | inr miss ↦
          let h =
            scan_run_sound left (add32 next 1) (add32 count 1) q (omega arith)
              (Counted-clear next count (omega arith) c free (ground arith)) (ground arith) in
          (omega (arith, h.0), h.1)
    ]
  ]
