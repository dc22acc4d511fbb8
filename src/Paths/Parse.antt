-- ===== src/Paths/Parse.antt =====
-- path_parse of src/fs/fs.c takes the first name of a path.
use tros.Prelude.{
  ℕ, suc, ◌+◌, ◌<◌, ◌≤◌, ◌≡◌, ◌≢◌, ◌⊎◌, inl, inr, refl, sym, ap, ◌∙◌, Bool, true, false, ◌&&◌, List,
  [], ◌∷◌, arith, ltb, ◌==◌, if◌then◌else◌, Bool-cases, length, ok,
}
use tros.Paths.{
  Name, slash, max_file_name_len, write_char, skip_slashes, copy_name, or_null, path_parse,
}

-- The number of names in a path: the characters other than a slash that stand behind a slash or at
-- its beginning. `inside` tells whether the character before is one of a name.
abbrev pub names : (inside : Bool) → List ℕ → ℕ
names inside [] = 0
names inside (c ∷ cs) =
    let more = names true cs in
    if c == slash then names false cs else if inside then more else suc more

-- Every name is at most 16 characters long, `i` characters of the first being passed.
abbrev pub names_fit : (i : ℕ) → List ℕ → Bool
names_fit i [] = true
names_fit i (c ∷ cs) =
    if c == slash then names_fit 0 cs else ltb i max_file_name_len && names_fit (i + 1) cs

abbrev pub IsChars : List ℕ → Type 0
IsChars [] = Unit
IsChars (c ∷ cs) = (c ≢ 0) × IsChars cs

-- What path_parse leaves of the path.
pub record Left (path rest : List ℕ) : Type 0 where
  pub fit : names_fit 0 rest ≡ true
  pub chars : IsChars rest
  pub shorter : length rest ≤ length path

-- What copying a name from `path` to the index `i` and on gives.
pub record Copied (path : List ℕ) (name : Name) (i : ℕ) : Type 0 where
  pub name' : Name
  pub rest : List ℕ
  pub runs : copy_name path name i ≡ ok (name', rest)
  pub before : (j : ℕ) → j < i → name' j ≡ name j
  pub count : names true path ≡ names false rest
  pub left : Left path rest

pub copy_name-Copied :
    (path : List ℕ) (name : Name) (i : ℕ)
    → IsChars path
    → names_fit i path ≡ true
    → Copied path name i
unfolding copy_name
copy_name-Copied [] name i chars fit = record {
  name' = name;
  rest = [];
  runs = refl;
  before = λ j low. refl;
  count = refl;
  left = record { fit = refl; chars = tt; shorter = omega arith };
}
copy_name-Copied (c ∷ cs) name i (some_char, chars) fit = elim (Bool-cases (c == slash)) [
  | inl same ↦ record {
    name' = name;
    rest = c ∷ cs;
    runs = rw same refl;
    before = λ j low. refl;
    count = rw same refl;
    left = record {
      fit = rw same (grind (arith, fit, same));
      chars = (some_char, chars);
      shorter = omega arith;
    };
  }
  | inr other ↦
      let room : ltb i max_file_name_len ≡ true = grind (arith, fit, other) in
      let fits : names_fit (i + 1) cs ≡ true = grind (arith, fit, other) in
      let r = copy_name-Copied cs (write_char name i c) (i + 1) chars fits in
      record {
        name' = r.name';
        rest = r.rest;
        runs = rw (other, room) r.runs;
        before = λ j low.
            let e : (i == j) ≡ false = ground arith in r.before j (omega arith) ∙ rw e refl;
        count = rw other r.count;
        left = record {
          fit = r.left.fit;
          chars = r.left.chars;
          shorter = omega (arith, r.left.shorter);
        };
      }
]

-- A list that begins with a slash is not what skipping slashes leaves.
abbrev pub IsClean : List ℕ → Type 0
IsClean [] = Unit
IsClean (c ∷ cs) = (c == slash) ≡ false

-- What skipping slashes keeps.
pub record Skipped (path : List ℕ) : Type 0 where
  pub count : names false (skip_slashes path) ≡ names false path
  pub left : Left path (skip_slashes path)
  pub first : IsClean (skip_slashes path)

pub skip_slashes-Skipped : (path : List ℕ) → IsChars path → names_fit 0 path ≡ true → Skipped path
unfolding skip_slashes
skip_slashes-Skipped [] chars fit = record {
  count = refl;
  left = record { fit = refl; chars = tt; shorter = omega arith };
  first = tt;
}
skip_slashes-Skipped (c ∷ cs) (some_char, chars) fit = elim (Bool-cases (c == slash)) [
  | inl same ↦
      let s = skip_slashes-Skipped cs chars (grind (arith, fit, same)) in
      record {
        count = rw same s.count;
        left = record {
          fit = rw same s.left.fit;
          chars = rw same s.left.chars;
          shorter = rw same (omega (arith, s.left.shorter));
        };
        first = rw same s.first;
      }
  | inr other ↦ record {
    count = rw other (rw other refl);
    left = record {
      fit = rw other fit;
      chars = rw other (some_char, chars);
      shorter = rw other (omega arith);
    };
    first = rw other other;
  }
]

-- What path_parse does: without a name in the path it writes nothing; else it writes the first name
-- and leaves the others.
pub record Parsed (path : List ℕ) (name : Name) : Type 0 where
  pub name' : Name
  pub rest : List ℕ
  pub runs : path_parse path name ≡ ok (name', or_null rest)
  pub left : Left path rest
  pub effect :
      (names false path ≡ 0) × (name' ≡ name)
      ⊎ (name' 0 ≢ 0) × (names false path ≡ suc (names false rest)) × (length rest < length path)

parse_skipped :
    (path xs : List ℕ) (name : Name)
    → skip_slashes path ≡ xs
    → names false xs ≡ names false path
    → Left path xs
    → IsClean xs
    → Parsed path name
unfolding path_parse copy_name
parse_skipped path [] name e count left clean = record {
  name' = name;
  rest = [];
  runs = rw e refl;
  left = left;
  effect = inl (sym count, refl);
}
parse_skipped path (c ∷ cs) name e count left clean =
    let fits : names_fit 1 cs ≡ true = grind (arith, left.fit, clean) in
    let r = copy_name-Copied cs (write_char name 0 c) 1 left.chars.1 fits in
    let more : names false path ≡ suc (names true cs) = sym count ∙ rw clean refl in
    record {
      name' = r.name';
      rest = r.rest;
      runs = rw (e, clean, r.runs) refl;
      left = record {
        fit = r.left.fit;
        chars = r.left.chars;
        shorter = omega (arith, r.left.shorter, left.shorter);
      };
      effect = inr (
        (λ z. left.chars.0 (sym (r.before 0 (omega arith)) ∙ z)),
        more ∙ ap suc r.count,
        omega (arith, r.left.shorter, left.shorter),
      );
    }

pub path_parse-Parsed :
    (path : List ℕ) (name : Name) → IsChars path → names_fit 0 path ≡ true → Parsed path name
path_parse-Parsed path name chars fit =
    let s = skip_slashes-Skipped path chars fit in
    parse_skipped path (skip_slashes path) name refl s.count s.left s.first
