-- ===== src/Stdio/Tests.antt =====
-- Runs of `vsprintf`, and the theorems at a number and a format.
use tros.Prelude.{ℕ, ◌-◌, ◌^◌, ◌≡◌, refl, inl, List, [], ◌∷◌, arith, ok}
use tros.Stdio.{itoa, vsprintf}
use tros.Stdio.Digits.{number, itoa-number}
use tros.Stdio.Render.{Piece, text, decimal, source, Plain, Rendered, vsprintf-Rendered}

-- "x=%d\n"
abbrev assignment : List Piece
assignment = text 120 ∷ text 61 ∷ decimal ∷ text 10 ∷ []

-- -42 is printed with its sign.
minus_42 :
    vsprintf (λ p. []) (120 ∷ 61 ∷ 37 ∷ 100 ∷ 10 ∷ []) (λ k. 2 ^ 32 - 42) 0
    ≡ ok (120 ∷ 61 ∷ 45 ∷ 52 ∷ 50 ∷ 10 ∷ [])
unfolding vsprintf
minus_42 = refl

itoa-number_example :
    (cs : List ℕ) × (itoa 33 1234567890 10 ≡ ok cs) × (number 10 0 cs ≡ 1234567890)
itoa-number_example = itoa-number 32 1234567890 10 (inl refl) (omega arith)

vsprintf-Rendered_example :
    (out : List ℕ) × (vsprintf (λ p. []) (source assignment) (λ k. 42) 0 ≡ ok out)
    × Rendered (λ p. []) (λ k. 42) assignment 0 out
vsprintf-Rendered_example =
    vsprintf-Rendered (λ p. []) (λ k. 42) assignment 0 plain (λ k. omega arith) tt
  where
    plain : Plain assignment
    plain = (λ e. omega (arith, e), (λ e. omega (arith, e), (λ e. omega (arith, e), tt)))
