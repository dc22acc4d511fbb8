-- ===== src/IoQueue/Contents.antt =====
-- The characters that a queue holds, oldest first.
use tros.Prelude.{
  ℕ, zero, suc, ◌+◌, ◌-◌, ◌%◌, ◌<◌, ◌≡◌, refl, ap, true, false, List, [], ◌∷◌, ◌++◌, arith, ◌==◌,
  length,
}
use tros.IoQueue.{
  bufsize, IoQueue, next_pos, is_ioq_full, is_ioq_empty, write_at, take_char, put_char, ioq_length,
}

pub record IsValid (ioq : IoQueue) : Type 0 where
  pub head_in : ioq.head < bufsize
  pub tail_in : ioq.tail < bufsize

-- `n` characters from `pos` on, going round at the end of the buffer.
abbrev pub span : (ℕ → ℕ) → ℕ → ℕ → List ℕ
span buf pos zero = []
span buf pos (suc n) = buf pos ∷ span buf (next_pos pos) n

abbrev pub count : IoQueue → ℕ
count ioq = (ioq.head + bufsize - ioq.tail) % bufsize

abbrev pub contents : IoQueue → List ℕ
contents ioq = span ioq.buf ioq.tail (count ioq)

pub length-span : (buf : ℕ → ℕ) (pos n : ℕ) → length (span buf pos n) ≡ n
length-span buf pos zero = refl
length-span buf pos (suc n) = ap suc (length-span buf (next_pos pos) n)

-- Writing right behind a span that leaves room extends it.
span-write_at :
    (buf : ℕ → ℕ) (pos n i x : ℕ)
    → pos < bufsize
    → n + 1 < bufsize
    → i ≡ (pos + n) % bufsize
    → span (write_at buf i x) pos (suc n) ≡ span buf pos n ++ (x ∷ [])
span-write_at buf pos zero i x h k e = ground arith
span-write_at buf pos (suc n) i x h k e =
    let other : (i == pos) ≡ false = ground arith in
    rw other (
      ap (λ xs. buf pos ∷ xs)
        (span-write_at buf (next_pos pos) n i x (omega arith) (omega arith) (omega arith)))

-- The buffer holds at most `bufsize - 1` characters; `ioq_length` is their number.
pub ioq_length-contents : (ioq : IoQueue) → IsValid ioq → ioq_length ioq ≡ length (contents ioq)
unfolding ioq_length
ioq_length-contents ioq v = ground (arith, length-span ioq.buf ioq.tail (count ioq))

pub contents-put_char :
    (ioq : IoQueue) (x : ℕ)
    → IsValid ioq
    → is_ioq_full ioq ≡ false
    → IsValid (put_char ioq x) × (contents (put_char ioq x) ≡ contents ioq ++ (x ∷ []))
unfolding put_char
contents-put_char ioq x v free =
    let room : count ioq + 1 < bufsize = ground arith in
    let grown : (next_pos ioq.head + bufsize - ioq.tail) % bufsize ≡ suc (count ioq) =
      ground arith in
    (
      ground arith,
      rw grown (span-write_at ioq.buf ioq.tail (count ioq) ioq.head x v.tail_in room (omega arith)),
    )

pub contents-take_char :
    (ioq : IoQueue)
    → IsValid ioq
    → is_ioq_empty ioq ≡ false
    → IsValid (take_char ioq).1 × (contents ioq ≡ (take_char ioq).0 ∷ contents (take_char ioq).1)
unfolding take_char
contents-take_char ioq v more =
    let n = (ioq.head + bufsize - next_pos ioq.tail) % bufsize in
    let e : count ioq ≡ suc n = ground arith in (ground arith, rw e)

pub contents_empty : (ioq : IoQueue) → IsValid ioq → is_ioq_empty ioq ≡ true → contents ioq ≡ []
contents_empty ioq v e = let z : count ioq ≡ 0 = ground arith in rw z

pub length-contents_full :
    (ioq : IoQueue) → IsValid ioq → is_ioq_full ioq ≡ true → length (contents ioq) ≡ bufsize - 1
length-contents_full ioq v e = ground (arith, length-span ioq.buf ioq.tail (count ioq))

pub length-contents-lt : (ioq : IoQueue) → length (contents ioq) < bufsize
length-contents-lt ioq = omega (arith, length-span ioq.buf ioq.tail (count ioq))
