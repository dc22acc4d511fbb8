-- ===== src/Strings/Copy.antt =====
-- The functions of src/lib/string.c that write strings.
use tros.Prelude.{
  ℕ, zero, suc, ◌+◌, ◌-◌, ◌<◌, ◌≤◌, ◌≡◌, ◌≢◌, ◌⊎◌, inl, refl, ap, ◌∙◌, true, false, not, ◌&&◌, List,
  [], ◌∷◌, ◌++◌, arith, ◌==◌, length, ok,
}
use mathlib.Core.Path.{subst}
use tros.Strings.{Bytes, put, copy_loop, strcpy, end_loop, strlen, strcat}

-- The characters at `p`, up to the zero byte behind them, are `cs`.
abbrev pub IsString : Bytes → ℕ → List ℕ → Type 0
IsString m p [] = m p ≡ 0
IsString m p (c ∷ cs) = (m p ≡ c) × (c ≢ 0) × IsString m (p + 1) cs

-- Two memories that are equal from `p` on for `n` bytes hold the same string there.
pub IsString-frame :
    (m m' : Bytes) (p : ℕ) (cs : List ℕ)
    → ((a : ℕ) → p ≤ a → a ≤ p + length cs → m' a ≡ m a)
    → IsString m p cs
    → IsString m' p cs
IsString-frame m m' p [] same s = same p (omega arith) (omega arith) ∙ s
IsString-frame m m' p (c ∷ cs) same (here, some_char, rest) = (
  same p (omega arith) (omega arith) ∙ here,
  some_char,
  IsString-frame m m' (p + 1) cs (λ a low high. same a (omega arith) (omega arith)) rest,
)

-- The bytes of one string and its zero, and those of another place, are apart.
abbrev pub Apart : (p m q n : ℕ) → Type 0
Apart p m q n = (p + m < q) ⊎ (q + n < p)

-- A copy of the string `cs` to `dst`: the string is there, and all else is as it was.
pub record Copied (m : Bytes) (dst : ℕ) (cs : List ℕ) (m' : Bytes) : Type 0 where
  pub there : IsString m' dst cs
  pub elsewhere : (a : ℕ) → (a < dst) ⊎ (dst + length cs < a) → m' a ≡ m a

pub copy_loop-Copied :
    (fuel : ℕ) (m : Bytes) (dst src : ℕ) (cs : List ℕ)
    → length cs < fuel
    → IsString m src cs
    → Apart src (length cs) dst (length cs)
    → (m' : Bytes) × (copy_loop fuel m dst src ≡ ok m') × Copied m dst cs m'
unfolding copy_loop
copy_loop-Copied zero m dst src cs h s apart = absurd (omega arith)
copy_loop-Copied (suc fuel) m dst src [] h s apart =
    let e : (m src == 0) ≡ true = ground arith in
    (
      put m dst (m src),
      rw e refl,
      record { there = ground arith; elsewhere = λ a far. ground arith },
    )
copy_loop-Copied (suc fuel) m dst src (c ∷ cs) h (here, some_char, rest) apart =
    let e : (m src == 0) ≡ false = ground arith in
    let m1 = put m dst (m src) in
    let kept = IsString-frame m m1 (src + 1) cs (λ a low high. ground arith) rest in
    let (m', run, copied) =
      copy_loop-Copied fuel m1 (dst + 1) (src + 1) cs (omega arith) kept (ground arith) in
    (
      m',
      rw e run,
      record {
        there = (copied.elsewhere dst (inl (omega arith)) ∙ ground arith, some_char, copied.there);
        elsewhere = λ a far. copied.elsewhere a (ground arith) ∙ ground arith;
      },
    )

-- Where `dst` and `src` are not NULL, `src` is a string and the bytes that it takes at `dst` are none
-- of its own, strcpy returns, the string is at `dst` then, and no other byte has changed.
pub strcpy-Copied :
    (fuel : ℕ) (m : Bytes) (dst src : ℕ) (cs : List ℕ)
    → dst ≢ 0
    → src ≢ 0
    → length cs < fuel
    → IsString m src cs
    → Apart src (length cs) dst (length cs)
    → (m' : Bytes) × (strcpy fuel m dst src ≡ ok m') × Copied m dst cs m'
unfolding strcpy
strcpy-Copied fuel m dst src cs d n h s apart =
    let (m', run, copied) = copy_loop-Copied fuel m dst src cs h s apart in
    let e : (not (dst == 0) && not (src == 0)) ≡ true = ground arith in (m', rw e run, copied)

-- The loop to the end of a string.
pub end_loop-length :
    (fuel : ℕ) (m : Bytes) (p : ℕ) (cs : List ℕ)
    → length cs < fuel
    → IsString m p cs
    → end_loop fuel m p ≡ ok (p + length cs + 1)
unfolding end_loop
end_loop-length zero m p cs h s = absurd (omega arith)
end_loop-length (suc fuel) m p [] h s =
    let e : (m p == 0) ≡ true = ground arith in rw e (ap ok (omega arith))
end_loop-length (suc fuel) m p (c ∷ cs) h (here, some_char, rest) =
    let e : (m p == 0) ≡ false = ground arith in
    let same : p + 1 + length cs + 1 ≡ p + suc (length cs) + 1 = omega arith in
    rw e (end_loop-length fuel m (p + 1) cs (omega arith) rest ∙ ap ok same)

-- strlen of a string is the number of its characters, on any fuel above it.
pub strlen-length :
    (fuel : ℕ) (m : Bytes) (str : ℕ) (cs : List ℕ)
    → str ≢ 0
    → length cs < fuel
    → IsString m str cs
    → strlen fuel m str ≡ ok (length cs)
unfolding strlen
strlen-length fuel m str cs nonnull h s =
    let e : (str == 0) ≡ false = ground arith in
    let same : str + length cs + 1 - str - 1 ≡ length cs = omega arith in
    rw (e, end_loop-length fuel m str cs h s) (ap ok same)

IsString-append :
    (m : Bytes) (p : ℕ) (cs ds : List ℕ) (m' : Bytes)
    → IsString m p cs
    → ((a : ℕ) → a < p + length cs → m' a ≡ m a)
    → IsString m' (p + length cs) ds
    → IsString m' p (cs ++ ds)
IsString-append m p [] ds m' s same t =
    let e : p + 0 ≡ p = omega arith in subst (λ q. IsString m' q ds) e t
IsString-append m p (c ∷ cs) ds m' (here, some_char, rest) same t = (
  same p (omega arith) ∙ here,
  some_char,
  IsString-append m (p + 1) cs ds m' rest (λ a low. same a (omega arith))
      (let e : p + suc (length cs) ≡ p + 1 + length cs = omega arith in
        subst (λ q. IsString m' q ds) e t),
)

-- Where `dst` and `src` are strings and not NULL, and `src` is apart from the place that the two take
-- together at `dst`, strcat returns, and `dst` is the first followed by the second.
pub strcat-IsString :
    (fuel : ℕ) (m : Bytes) (dst src : ℕ) (cs ds : List ℕ)
    → dst ≢ 0
    → src ≢ 0
    → length cs < fuel
    → length ds < fuel
    → IsString m dst cs
    → IsString m src ds
    → Apart src (length ds) dst (length cs + length ds)
    → (m' : Bytes) × (strcat fuel m dst src ≡ ok m') × IsString m' dst (cs ++ ds)
unfolding strcat
strcat-IsString fuel m dst src cs ds d n h k s t apart =
    let e : (not (dst == 0) && not (src == 0)) ≡ true = ground arith in
    let same : dst + length cs + 1 - 1 ≡ dst + length cs = omega arith in
    let (m', run, copied) = copy_loop-Copied fuel m (dst + length cs) src ds k t (ground arith) in
    (
      m',
      rw (e, end_loop-length fuel m dst cs h s, same) run,
      IsString-append m dst cs ds m' s (λ a low. copied.elsewhere a (inl low)) copied.there,
    )
