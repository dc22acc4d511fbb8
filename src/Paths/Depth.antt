-- ===== src/Paths/Depth.antt =====
-- path_depth_cnt of src/fs/fs.c counts the names of a path.
use tros.Prelude.{
  ℕ, zero, suc, ◌+◌, ◌<◌, ◌^◌, ◌≡◌, ◌≢◌, ◌⊎◌, inl, inr, refl, ap, ◌∙◌, true, false, Option, List,
  [], ◌∷◌, arith, ◌==◌, length, ok, add32,
}
use tros.Paths.{Name, clear_name, or_null, parse_next, depth_loop, path_depth_cnt}
use tros.Paths.Parse.{Left, names, names_fit, IsChars, path_parse-Parsed}

-- The next name behind `rest`, if there is one.
record Advanced (rest : List ℕ) (name : Name) : Type 0 where
  name' : Name
  later : List ℕ
  runs : parse_next (or_null rest) name ≡ ok (name', or_null later)
  left : Left rest later
  effect :
      (names false rest ≡ 0) × (name' ≡ name)
      ⊎ (name' 0 ≢ 0) × (names false rest ≡ suc (names false later)) × (length later < length rest)

parse_next-Advanced :
    (rest : List ℕ) (name : Name) → IsChars rest → names_fit 0 rest ≡ true → Advanced rest name
unfolding parse_next
parse_next-Advanced [] name chars fit = record {
  name' = name;
  later = [];
  runs = refl;
  left = record { fit = refl; chars = tt; shorter = omega arith };
  effect = inl (refl, refl);
}
parse_next-Advanced (c ∷ cs) name chars fit =
    let p = path_parse-Parsed (c ∷ cs) name chars fit in
    record { name' = p.name'; later = p.rest; runs = p.runs; left = p.left; effect = p.effect }

depth_loop_ends :
    (fuel : ℕ) (name : Name) (p : Option (List ℕ)) (depth : ℕ)
    → name 0 ≡ 0
    → 0 < fuel
    → depth_loop fuel name p depth ≡ ok depth
unfolding depth_loop
depth_loop_ends zero name p depth e h = absurd (omega arith)
depth_loop_ends (suc fuel) name p depth e h =
    let z : (name 0 == 0) ≡ true = ground arith in rw z refl

-- A name is in the buffer: it and those behind are counted.
depth_loop-names :
    (fuel : ℕ) (name : Name) (rest : List ℕ) (depth : ℕ)
    → name 0 ≢ 0
    → IsChars rest
    → names_fit 0 rest ≡ true
    → length rest + 1 < fuel
    → depth + suc (names false rest) < 2 ^ 32
    → depth_loop fuel name (or_null rest) depth ≡ ok (depth + suc (names false rest))
unfolding depth_loop
depth_loop-names zero name rest depth some_name chars fit h small = absurd (omega arith)
depth_loop-names (suc fuel) name rest depth some_name chars fit h small =
    let z : (name 0 == 0) ≡ false = ground arith in
    let step : add32 depth 1 ≡ depth + 1 = omega arith in
    let n = parse_next-Advanced rest (clear_name name) chars fit in
    rw (z, n.runs, step)
      (elim n.effect [
        | inl (nothing, same) ↦
            depth_loop_ends fuel n.name' (or_null n.later) (depth + 1) (ap (λ f. f 0) same)
              (omega arith)
            ∙ ap ok (omega (arith, nothing))
        | inr (found, more, shorter) ↦
            depth_loop-names fuel n.name' n.later (depth + 1) found n.left.chars n.left.fit
              (omega (arith, shorter)) (omega (arith, more))
            ∙ ap ok (omega (arith, more))
      ])

-- Of a path with names of at most 16 characters, which has a name or finds the buffer begin with 0,
-- path_depth_cnt returns, with fuel for the characters of the path and two more, the number of names.
pub path_depth_cnt-names :
    (fuel : ℕ) (path : List ℕ) (name : Name)
    → IsChars path
    → names_fit 0 path ≡ true
    → (names false path ≢ 0) ⊎ (name 0 ≡ 0)
    → length path + 1 < fuel
    → names false path < 2 ^ 31
    → path_depth_cnt fuel path name ≡ ok (names false path)
unfolding path_depth_cnt
path_depth_cnt-names fuel path name chars fit start h small =
    let p = path_parse-Parsed path name chars fit in
    rw p.runs (elim p.effect [
      | inl (nothing, same) ↦ elim start [
        | inl some_name ↦ absurd (some_name nothing)
        | inr empty ↦
            depth_loop_ends fuel p.name' (or_null p.rest) 0 (ap (λ f. f 0) same ∙ empty)
              (omega arith)
            ∙ ap ok (omega (arith, nothing))
      ]
      | inr (found, more, shorter) ↦
          depth_loop-names fuel p.name' p.rest 0 found p.left.chars p.left.fit
            (omega (arith, shorter)) (omega (arith, more))
          ∙ ap ok (omega (arith, more))
    ])
