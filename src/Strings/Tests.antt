-- ===== src/Strings/Tests.antt =====
-- Runs of the string functions, and the theorems at two short strings.
use tros.Prelude.{◌≡◌, refl, [], ◌∷◌, arith, ◌==◌, if◌then◌else◌, ok, some}
use tros.Strings.{Bytes, minus_one, strcmp, strrchr}
use tros.Strings.Copy.{IsString}
use tros.Strings.Compare.{compare_lists, strcmp-compare_lists}

-- "ab" at 16 and "ac" at 32.
abbrev two_strings : Bytes
two_strings a =
    if a == 16
    then 97
    else if a == 17
    then 98
    else if a == 32
    then 97
    else if a == 33
    then 99
    else 0

IsString-ab : IsString two_strings 16 (97 ∷ 98 ∷ [])
IsString-ab = (refl, λ e. omega arith, (refl, λ e. omega arith, refl))

IsString-ac : IsString two_strings 32 (97 ∷ 99 ∷ [])
IsString-ac = (refl, λ e. omega arith, (refl, λ e. omega arith, refl))

below : strcmp 3 two_strings 16 32 ≡ ok minus_one
unfolding strcmp
below = refl

last_b : strrchr 3 two_strings 16 98 ≡ ok (some 17)
unfolding strrchr
last_b = refl

strcmp-compare_lists_example :
    strcmp 3 two_strings 16 32 ≡ ok (compare_lists (97 ∷ 98 ∷ []) (97 ∷ 99 ∷ []))
strcmp-compare_lists_example =
    strcmp-compare_lists 3 two_strings 16 32 (97 ∷ 98 ∷ []) (97 ∷ 99 ∷ []) (omega arith)
      (omega arith) (omega arith) IsString-ab IsString-ac
