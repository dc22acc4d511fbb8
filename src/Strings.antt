-- ===== src/Strings.antt =====
-- src/lib/string.c: strings and blocks of bytes in memory.
-- A byte is a number below 256, and a `char` is signed: its comparisons go by `signed`. An address
-- is a number without wrap-around. Loops that end at a zero byte run on fuel.
pub mod Copy
pub mod Compare
mod Tests
use tros.Prelude.{
  ℕ, zero, suc, ◌+◌, ◌-◌, ◌%◌, Bool, true, false, not, ◌&&◌, ◌||◌, Option, none, some, ltb, ◌==◌,
  if◌then◌else◌, Run, ok, out_of_fuel, ◌>>=◌, ◌>>◌, assert,
}

abbrev pub Bytes : Type 0
Bytes = ℕ → ℕ

abbrev pub put : Bytes → (addr byte : ℕ) → Bytes
put m addr byte a = if addr == a then byte else m a

-- The order of signed bytes is that of these numbers.
abbrev pub signed : ℕ → ℕ
signed c = (c + 128) % 256

-- The results -1, 0 and 1.
pub data Sign : Type 0 where
  minus_one nought one : Sign

-- `x < y ? -1 : x > y` on characters.
unfoldable pub compare_chars : ℕ → ℕ → Sign
compare_chars x y =
    if ltb (signed x) (signed y)
    then minus_one
    else if ltb (signed y) (signed x)
    then one
    else nought

unfoldable pub memset_loop : (size : ℕ) → Bytes → (dst value : ℕ) → Bytes
memset_loop zero m dst value = m
memset_loop (suc size) m dst value = memset_loop size (put m dst value) (dst + 1) value

pub memset : Bytes → (dst value size : ℕ) → Run Bytes
unfolding memset_loop
memset m dst value size = do assert (not (dst == 0)); ok (memset_loop size m dst value)

unfoldable pub memcpy_loop : (size : ℕ) → Bytes → (dst src : ℕ) → Bytes
memcpy_loop zero m dst src = m
memcpy_loop (suc size) m dst src = memcpy_loop size (put m dst (m src)) (dst + 1) (src + 1)

pub memcpy : Bytes → (dst src size : ℕ) → Run Bytes
unfolding memcpy_loop
memcpy m dst src size = do
  assert (not (dst == 0) && not (src == 0))
  ok (memcpy_loop size m dst src)

unfoldable pub memcmp_loop : (size : ℕ) → Bytes → (a b : ℕ) → Sign
memcmp_loop zero m a b = nought
memcmp_loop (suc size) m a b =
    let rest = memcmp_loop size m (a + 1) (b + 1) in
    if not (m a == m b)
    then (if ltb (signed (m b)) (signed (m a)) then one else minus_one)
    else rest

pub memcmp : Bytes → (a b size : ℕ) → Run Sign
unfolding memcmp_loop
memcmp m a b size = do assert (not (a == 0) || not (b == 0)); ok (memcmp_loop size m a b)

-- while ((*dst_++ = *src_++));
unfoldable pub copy_loop : ℕ → Bytes → (dst src : ℕ) → Run Bytes
copy_loop zero m dst src = out_of_fuel
copy_loop (suc fuel) m dst src =
    let m' = put m dst (m src) in
    let rest = copy_loop fuel m' (dst + 1) (src + 1) in if m src == 0 then ok m' else rest

-- The result of the C function is `dst_`.
unfoldable pub strcpy : ℕ → Bytes → (dst src : ℕ) → Run Bytes
unfolding copy_loop
strcpy fuel m dst src = do assert (not (dst == 0) && not (src == 0)); copy_loop fuel m dst src

-- The two loops of `strncpy`: `left` is `end - src`. The first stops behind a zero byte, and the
-- second clears what is left.
unfoldable pub strncpy : (left : ℕ) → Bytes → (dest src : ℕ) → Bytes
unfolding memset_loop
strncpy zero m dest src = m
strncpy (suc left) m dest src =
    let m' = put m dest (m src) in
    let rest = strncpy left m' (dest + 1) (src + 1) in
    if m src == 0 then memset_loop left m' (dest + 1) 0 else rest

-- while (*p++); the result is `p` behind the zero byte.
unfoldable pub end_loop : ℕ → Bytes → (p : ℕ) → Run ℕ
end_loop zero m p = out_of_fuel
end_loop (suc fuel) m p =
    let rest = end_loop fuel m (p + 1) in if m p == 0 then ok (p + 1) else rest

unfoldable pub strlen : ℕ → Bytes → (str : ℕ) → Run ℕ
unfolding end_loop
strlen fuel m str = do assert (not (str == 0)); p ← end_loop fuel m str; ok (p - str - 1)

unfoldable pub strcmp_loop : ℕ → Bytes → (a b : ℕ) → Run Sign
unfolding compare_chars
strcmp_loop zero m a b = out_of_fuel
strcmp_loop (suc fuel) m a b =
    let rest = strcmp_loop fuel m (a + 1) (b + 1) in
    if not (m a == 0) && (m a == m b) then rest else ok (compare_chars (m a) (m b))

unfoldable pub strcmp : ℕ → Bytes → (a b : ℕ) → Run Sign
unfolding strcmp_loop
strcmp fuel m a b = do assert (not (a == 0) && not (b == 0)); strcmp_loop fuel m a b

-- `left` is `count - i`. At `count` the loop has still read both characters.
unfoldable pub strncmp : (left : ℕ) → Bytes → (lhs rhs : ℕ) → Sign
unfolding compare_chars
strncmp zero m lhs rhs = nought
strncmp (suc left) m lhs rhs =
    let rest = strncmp left m (lhs + 1) (rhs + 1) in
    if not (m lhs == 0) && (m lhs == m rhs) then rest else compare_chars (m lhs) (m rhs)

-- `*str == ch`, where `*str` is signed and `ch` is not.
abbrev pub is_char : (c ch : ℕ) → Bool
is_char c ch = (c == ch) && ltb c 128

-- `none` is NULL.
unfoldable pub strchr_loop : ℕ → Bytes → (str ch : ℕ) → Run (Option ℕ)
strchr_loop zero m str ch = out_of_fuel
strchr_loop (suc fuel) m str ch =
    let rest = strchr_loop fuel m (str + 1) ch in
    if m str == 0 then ok none else if is_char (m str) ch then ok (some str) else rest

pub strchr : ℕ → Bytes → (str ch : ℕ) → Run (Option ℕ)
unfolding strchr_loop
strchr fuel m str ch = do assert (not (str == 0)); strchr_loop fuel m str ch

unfoldable pub strrchr_loop : ℕ → Bytes → (str ch : ℕ) → (last_char : Option ℕ) → Run (Option ℕ)
strrchr_loop zero m str ch last_char = out_of_fuel
strrchr_loop (suc fuel) m str ch last_char =
    let rest =
      strrchr_loop fuel m (str + 1) ch (if is_char (m str) ch then some str else last_char) in
    if m str == 0 then ok last_char else rest

unfoldable pub strrchr : ℕ → Bytes → (str ch : ℕ) → Run (Option ℕ)
unfolding strrchr_loop
strrchr fuel m str ch = do assert (not (str == 0)); strrchr_loop fuel m str ch none

-- The result of the C function is `dst_`.
unfoldable pub strcat : ℕ → Bytes → (dst src : ℕ) → Run Bytes
unfolding end_loop copy_loop
strcat fuel m dst src = do
  assert (not (dst == 0) && not (src == 0))
  str ← end_loop fuel m dst
  copy_loop fuel m (str - 1) src

unfoldable pub strchrs_loop : ℕ → Bytes → (p ch ch_cnt : ℕ) → Run ℕ
strchrs_loop zero m p ch ch_cnt = out_of_fuel
strchrs_loop (suc fuel) m p ch ch_cnt =
    let rest = strchrs_loop fuel m (p + 1) ch (if is_char (m p) ch then ch_cnt + 1 else ch_cnt) in
    if m p == 0 then ok ch_cnt else rest

pub strchrs : ℕ → Bytes → (str ch : ℕ) → Run ℕ
unfolding strchrs_loop
strchrs fuel m str ch = do assert (not (str == 0)); strchrs_loop fuel m str ch 0
