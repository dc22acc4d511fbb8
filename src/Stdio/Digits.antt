-- ===== src/Stdio/Digits.antt =====
-- The digits that `itoa` of src/lib/stdio.c writes.
use tros.Prelude.{
  ℕ, zero, suc, ◌+◌, ◌-◌, ◌*◌, ◌/◌, ◌%◌, ◌^◌, ◌<◌, ◌≡◌, ◌⊎◌, refl, sym, ◌∙◌, true, List, [], ◌∷◌,
  ◌++◌, arith, ltb, ◌==◌, if◌then◌else◌, Bool-cases, inl, inr, ok,
}
use mathlib.Core.Path.{subst}
use tros.Stdio.{digit, itoa}

-- The number of a digit's character, and of a list of them behind a number.
abbrev pub digit_value : ℕ → ℕ
digit_value c = if ltb c 65 then c - 48 else c - 55

pub number : (base acc : ℕ) → List ℕ → ℕ
number base acc [] = acc
number base acc (c ∷ cs) = number base (acc * base + digit_value c) cs

number-append :
    (base acc : ℕ) (cs : List ℕ) (c : ℕ)
    → number base acc (cs ++ (c ∷ [])) ≡ number base acc cs * base + digit_value c
unfolding number
number-append base acc [] c = refl
number-append base acc (d ∷ cs) c = number-append base (acc * base + digit_value d) cs c

digit_value-digit : (m : ℕ) → m < 16 → digit_value (digit m) ≡ m
digit_value-digit m h = ground arith

-- The bases with which `itoa` is called.
abbrev pub IsBase : ℕ → Type 0
IsBase base = (base ≡ 10) ⊎ (base ≡ 16)

record Division (base value k : ℕ) : Type 0 where
  whole : value / base * base + value % base ≡ value
  less : value / base < 2 ^ k
  low : value % base < 16

Division-of : (base value k : ℕ) → IsBase base → value < 2 ^ suc k → Division base value k
Division-of base value k (inl ten) h =
    subst (λ b. Division b value k) (sym ten)
      (record { whole = omega arith; less = omega arith; low = omega arith })
Division-of base value k (inr sixteen) h =
    subst (λ b. Division b value k) (sym sixteen)
      (record { whole = omega arith; less = omega arith; low = omega arith })

no_higher : (base value : ℕ) → IsBase base → value < 1 → value / base ≡ 0
no_higher base value (inl ten) h = subst (λ b. value / b ≡ 0) (sym ten) (omega arith)
no_higher base value (inr sixteen) h = subst (λ b. value / b ≡ 0) (sym sixteen) (omega arith)

number-one :
    (base value k : ℕ)
    → Division base value k
    → value / base ≡ 0
    → number base 0 (digit (value % base) ∷ []) ≡ value
unfolding number
number-one base value k v none_left =
    rw (digit_value-digit (value % base) v.low) (rw none_left at v.whole)

-- With fuel for the bits of a number and one more, `itoa` in base 10 or 16 returns, and the digits
-- that it writes are those of the number.
pub itoa-number :
    (k value base : ℕ)
    → IsBase base
    → value < 2 ^ k
    → (cs : List ℕ) × (itoa (suc k) value base ≡ ok cs) × (number base 0 cs ≡ value)
unfolding itoa number
itoa-number zero value base b h =
    let e = no_higher base value b (omega arith) in
    let t : (value / base == 0) ≡ true = ground arith in
    (
      digit (value % base) ∷ [],
      rw t refl,
      number-one base value 0 (Division-of base value 0 b (omega arith)) e,
    )
itoa-number (suc k) value base b h =
    let v = Division-of base value k b h in
    elim (Bool-cases (value / base == 0)) [
      | inl last ↦
          (digit (value % base) ∷ [], rw last refl, number-one base value k v (ground arith))
      | inr more ↦
          let (cs, e, same) = itoa-number k (value / base) base b v.less in
          (
            cs ++ (digit (value % base) ∷ []),
            rw (more, e) refl,
            number-append base 0 cs (digit (value % base))
                ∙ rw (same, digit_value-digit (value % base) v.low) v.whole,
          )
    ]
