-- ===== src/Strings/Compare.antt =====
-- The functions of src/lib/string.c that compare and search strings.
use tros.Prelude.{
  ℕ, zero, suc, ◌+◌, ◌-◌, ◌%◌, ◌<◌, ltb, ap, ◌≡◌, ◌≢◌, inl, inr, refl, true, false, not, ◌&&◌,
  Option, none, some, List, [], ◌∷◌, arith, ◌==◌, if◌then◌else◌, Bool-cases, length, ok,
}
use tros.Strings.{
  Bytes, Sign, minus_one, nought, one, signed, compare_chars, strcmp_loop, strcmp, is_char,
  strrchr_loop, strrchr,
}
use tros.Strings.Copy.{IsString}

-- The value of a byte as a signed number, moved up by 128.
abbrev pub moved_up : ℕ → ℕ
moved_up c = if ltb (c % 256) 128 then c % 256 + 128 else c % 256 - 128

-- -1 if the first character is the smaller one, 0 if they are equal, and 1 if it is the greater one.
abbrev pub order : ℕ → ℕ → Sign
order c d =
    if ltb (moved_up c) (moved_up d)
    then minus_one
    else if moved_up c == moved_up d
    then nought
    else one

-- The order of two lists of characters by their first difference, the end of a list counting as the
-- character 0.
abbrev pub compare_lists : List ℕ → List ℕ → Sign
compare_lists [] [] = nought
compare_lists [] (d ∷ ds) = order 0 d
compare_lists (c ∷ cs) [] = order c 0
compare_lists (c ∷ cs) (d ∷ ds) =
    let rest = compare_lists cs ds in if c == d then rest else order c d

moved_up-signed : (c : ℕ) → signed c ≡ moved_up c
moved_up-signed c = ground arith

compare_chars-order : (c d : ℕ) → compare_chars c d ≡ order c d
unfolding compare_chars
compare_chars-order c d =
    rw (moved_up-signed c, moved_up-signed d)
      (elim (Bool-cases (ltb (moved_up c) (moved_up d))) [
        | inl less ↦ rw less refl
        | inr not_less ↦ elim (Bool-cases (moved_up c == moved_up d)) [
          | inl same ↦
              let t : ltb (moved_up d) (moved_up c) ≡ false = ground arith in
              rw (not_less, same, t) refl
          | inr other ↦
              let t : ltb (moved_up d) (moved_up c) ≡ true = ground arith in
              rw (not_less, other, t) refl
        ]
      ])

strcmp_loop-compare_lists :
    (fuel : ℕ) (m : Bytes) (a b : ℕ) (cs ds : List ℕ)
    → length cs < fuel
    → IsString m a cs
    → IsString m b ds
    → strcmp_loop fuel m a b ≡ ok (compare_lists cs ds)
unfolding strcmp_loop
strcmp_loop-compare_lists zero m a b cs ds h s t = absurd (omega arith)
strcmp_loop-compare_lists (suc fuel) m a b [] [] h s t = rw (s, t) (ap ok (compare_chars-order 0 0))
strcmp_loop-compare_lists (suc fuel) m a b [] (d ∷ ds) h s t =
    rw (s, t.0) (ap ok (compare_chars-order 0 d))
strcmp_loop-compare_lists (suc fuel) m a b (c ∷ cs) [] h (here, some_char, rest) t =
    let e : (c == 0) ≡ false = ground arith in rw (here, t, e) (ap ok (compare_chars-order c 0))
strcmp_loop-compare_lists (suc fuel) m a b (c ∷ cs) (d ∷ ds) h (here, some_char, rest) t =
    let e : (c == 0) ≡ false = ground arith in
    let next = strcmp_loop-compare_lists fuel m (a + 1) (b + 1) cs ds (omega arith) rest t.2 in
    elim (Bool-cases (c == d)) [
      | inl same ↦ rw (here, t.0, e, same) next
      | inr other ↦ rw (here, t.0, e, other) (ap ok (compare_chars-order c d))
    ]

-- strcmp of two strings, neither NULL, with fuel above the length of the first, returns -1, 0 or 1 as
-- the first character in which they differ is smaller as a signed char in the first string, there is
-- none, or it is greater.
pub strcmp-compare_lists :
    (fuel : ℕ) (m : Bytes) (a b : ℕ) (cs ds : List ℕ)
    → a ≢ 0
    → b ≢ 0
    → length cs < fuel
    → IsString m a cs
    → IsString m b ds
    → strcmp fuel m a b ≡ ok (compare_lists cs ds)
unfolding strcmp
strcmp-compare_lists fuel m a b cs ds n k h s t =
    let e : (not (a == 0) && not (b == 0)) ≡ true = ground arith in
    rw e (strcmp_loop-compare_lists fuel m a b cs ds h s t)

-- The address of the last character `ch` in a list that begins at `p`.
abbrev pub last_at : (p ch : ℕ) → Option ℕ → List ℕ → Option ℕ
last_at p ch found [] = found
last_at p ch found (c ∷ cs) = last_at (p + 1) ch (if is_char c ch then some p else found) cs

strrchr_loop-last_at :
    (fuel : ℕ) (m : Bytes) (p ch : ℕ) (found : Option ℕ) (cs : List ℕ)
    → length cs < fuel
    → IsString m p cs
    → strrchr_loop fuel m p ch found ≡ ok (last_at p ch found cs)
unfolding strrchr_loop
strrchr_loop-last_at zero m p ch found cs h s = absurd (omega arith)
strrchr_loop-last_at (suc fuel) m p ch found [] h s =
    let e : (m p == 0) ≡ true = ground arith in rw e refl
strrchr_loop-last_at (suc fuel) m p ch found (c ∷ cs) h (here, some_char, rest) =
    let e : (c == 0) ≡ false = ground arith in
    rw (here, e)
      (strrchr_loop-last_at fuel m (p + 1) ch (if is_char c ch then some p else found) cs
        (omega arith) rest)

-- strrchr of a string that is not NULL returns the address of its last character `ch`, or NULL.
pub strrchr-last_at :
    (fuel : ℕ) (m : Bytes) (str ch : ℕ) (cs : List ℕ)
    → str ≢ 0
    → length cs < fuel
    → IsString m str cs
    → strrchr fuel m str ch ≡ ok (last_at str ch none cs)
unfolding strrchr
strrchr-last_at fuel m str ch cs nonnull h s =
    let e : (str == 0) ≡ false = ground arith in
    rw e (strrchr_loop-last_at fuel m str ch none cs h s)
