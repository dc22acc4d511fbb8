-- ===== src/Stdio/Render.antt =====
-- What `vsprintf` of src/lib/stdio.c writes for a format made of characters and directives.
use tros.Prelude.{
  ℕ, ◌+◌, ◌-◌, ◌%◌, ◌^◌, ◌<◌, ◌≡◌, ◌≢◌, refl, ap, ◌∙◌, false, List, [], ◌∷◌, ◌++◌, arith, ◌==◌,
  if◌then◌else◌, Bool-cases, inl, inr, sub32, ok, ok-injective,
}
use tros.Stdio.{is_negative, put_decimal, vsprintf}
use tros.Stdio.Digits.{number, itoa-number}

-- A character other than `%`, or `%s`, `%c`, `%d` and `%x`.
pub data Piece : Type 0 where
  text : (c : ℕ) → Piece
  string character decimal hexadecimal : Piece

-- The format of the pieces.
abbrev pub source : List Piece → List ℕ
source [] = []
source (text c ∷ ps) = c ∷ source ps
source (string ∷ ps) = 37 ∷ 115 ∷ source ps
source (character ∷ ps) = 37 ∷ 99 ∷ source ps
source (decimal ∷ ps) = 37 ∷ 100 ∷ source ps
source (hexadecimal ∷ ps) = 37 ∷ 120 ∷ source ps

-- The characters of the text are none of `%`.
abbrev pub Plain : List Piece → Type 0
Plain [] = Unit
Plain (text c ∷ ps) = (c ≢ 37) × Plain ps
Plain (string ∷ ps) = Plain ps
Plain (character ∷ ps) = Plain ps
Plain (decimal ∷ ps) = Plain ps
Plain (hexadecimal ∷ ps) = Plain ps

-- The digits of a number with a sign.
pub record Decimal (arg : ℕ) (out : List ℕ) : Type 0 where
  pub digits : List ℕ
  pub written : out ≡ (if is_negative arg then 45 ∷ digits else digits)
  pub magnitude : number 10 0 digits ≡ (if is_negative arg then 2 ^ 32 - arg else arg)

pub record Hexadecimal (arg : ℕ) (out : List ℕ) : Type 0 where
  pub magnitude : number 16 0 out ≡ arg

module _ (strings : ℕ → List ℕ) (args : ℕ → ℕ) where
  -- The characters that stand for the pieces, from argument `n` on.
  pub Rendered : List Piece → (n : ℕ) → (out : List ℕ) → Type 0
  Rendered [] n out = out ≡ []
  Rendered (text c ∷ ps) n out = (rest : List ℕ) × (out ≡ c ∷ rest) × Rendered ps n rest
  Rendered (string ∷ ps) n out =
      (rest : List ℕ) × (out ≡ strings (args n) ++ rest) × Rendered ps (n + 1) rest
  Rendered (character ∷ ps) n out =
      (rest : List ℕ) × (out ≡ args n % 256 ∷ rest) × Rendered ps (n + 1) rest
  Rendered (decimal ∷ ps) n out =
      (here : List ℕ) × (rest : List ℕ) × (out ≡ here ++ rest)
      × Decimal (args n) here
      × Rendered ps (n + 1) rest
  Rendered (hexadecimal ∷ ps) n out =
      (here : List ℕ) × (rest : List ℕ) × (out ≡ here ++ rest)
      × Hexadecimal (args n) here
      × Rendered ps (n + 1) rest

-- The arguments for `%s`, from argument `n` on, are not NULL.
abbrev pub HasStrings : (args : ℕ → ℕ) → List Piece → (n : ℕ) → Type 0
HasStrings args [] n = Unit
HasStrings args (text c ∷ ps) n = HasStrings args ps n
HasStrings args (string ∷ ps) n = (args n ≢ 0) × HasStrings args ps (n + 1)
HasStrings args (character ∷ ps) n = HasStrings args ps (n + 1)
HasStrings args (decimal ∷ ps) n = HasStrings args ps (n + 1)
HasStrings args (hexadecimal ∷ ps) n = HasStrings args ps (n + 1)

put_decimal-Decimal :
    (arg : ℕ) → arg < 2 ^ 32 → (out : List ℕ) × (put_decimal arg ≡ ok out) × Decimal arg out
unfolding put_decimal
put_decimal-Decimal arg small = elim (Bool-cases (is_negative arg)) [
  | inl below ↦
      let (cs, e, v) = itoa-number 32 (sub32 0 arg) 10 (inl refl) (omega arith) in
      let minus : sub32 0 arg ≡ 2 ^ 32 - arg = ground arith in
      (
        45 ∷ cs,
        rw (below, e) refl,
        record { digits = cs; written = rw below refl; magnitude = v ∙ minus ∙ rw below refl },
      )
  | inr above ↦
      let (cs, e, v) = itoa-number 32 arg 10 (inl refl) small in
      (
        cs,
        rw (above, e) refl,
        record { digits = cs; written = rw above refl; magnitude = v ∙ rw above refl },
      )
]

-- A character of the text is written before what follows it.
vsprintf-text :
    (strings : ℕ → List ℕ) (args : ℕ → ℕ) (n c : ℕ) (format out : List ℕ)
    → c ≢ 37
    → vsprintf strings format args n ≡ ok out
    → vsprintf strings (c ∷ format) args n ≡ ok (c ∷ out)
unfolding vsprintf
vsprintf-text strings args n c [] out h e =
    let t : (c == 37) ≡ false = ground arith in rw t (ap (λ o. ok (c ∷ o)) (ok-injective e))
vsprintf-text strings args n c (d ∷ format) out h e =
    let t : (c == 37) ≡ false = ground arith in rw (t, e) refl

-- If the arguments fit 32 bits and those for `%s` are not NULL, `vsprintf` returns on every format made of characters other than `%`
-- and of the directives `%s`, `%c`, `%d` and `%x`, and writes for each of them, in order, the
-- character, the string, the low byte, or the digits of the next argument, as a number with a sign in
-- base 10 and without one in base 16.
pub vsprintf-Rendered :
    (strings : ℕ → List ℕ) (args : ℕ → ℕ) (ps : List Piece) (n : ℕ)
    → Plain ps
    → ((k : ℕ) → args k < 2 ^ 32)
    → HasStrings args ps n
    → (out : List ℕ) × (vsprintf strings (source ps) args n ≡ ok out)
      × Rendered strings args ps n out
unfolding vsprintf Rendered
vsprintf-Rendered strings args [] n plain small there = ([], refl, refl)
vsprintf-Rendered strings args (string ∷ ps) n plain small (some_string, there) =
    let (out, e, r) = vsprintf-Rendered strings args ps (n + 1) plain small there in
    let t : (args n == 0) ≡ false = ground arith in
    (strings (args n) ++ out, rw (t, e) refl, (out, refl, r))
vsprintf-Rendered strings args (character ∷ ps) n plain small there =
    let (out, e, r) = vsprintf-Rendered strings args ps (n + 1) plain small there in
    (args n % 256 ∷ out, rw e refl, (out, refl, r))
vsprintf-Rendered strings args (decimal ∷ ps) n plain small there =
    let (out, e, r) = vsprintf-Rendered strings args ps (n + 1) plain small there in
    let (here, e', d) = put_decimal-Decimal (args n) (small n) in
    (here ++ out, rw (e, e') refl, (here, out, refl, d, r))
vsprintf-Rendered strings args (hexadecimal ∷ ps) n plain small there =
    let (out, e, r) = vsprintf-Rendered strings args ps (n + 1) plain small there in
    let (here, e', v) = itoa-number 32 (args n) 16 (inr refl) (small n) in
    (here ++ out, rw (e, e') refl, (here, out, refl, record { magnitude = v }, r))
vsprintf-Rendered strings args (text c ∷ ps) n (some_char, plain) small there =
    let (out, e, r) = vsprintf-Rendered strings args ps n plain small there in
    (c ∷ out, vsprintf-text strings args n c (source ps) out some_char e, (out, refl, r))
