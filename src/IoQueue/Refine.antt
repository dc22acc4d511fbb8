-- ===== src/IoQueue/Refine.antt =====
-- The queue as a bounded channel: each function does to the characters that the queue holds what
-- the function of the channel says, and waits exactly when that waits.
use tros.Prelude.{
  ℕ, zero, suc, ◌+◌, ◌-◌, ◌<◌, min, ◌≡◌, refl, ap, sym, ◌∙◌, Bool, true, false, Option, none, some,
  List, [], ◌∷◌, ◌++◌, append_assoc, append-nil, arith, ◌==◌, if◌then◌else◌, length, take, drop,
  Bool-cases, inl, inr, length-append, take-nil, take-cons,
}
use tros.IoQueue.{
  bufsize, IoQueue, space_avail, data_avail, notify_one, Turn, waits, returns, is_ioq_full,
  is_ioq_empty, take_char, put_char, ioq_getchar, read_loop, ioq_read_some, ioq_putchar, write_loop,
  ioq_write_some,
}
use tros.IoQueue.Contents.{
  IsValid, contents, contents-put_char, contents-take_char, contents_empty, length-contents_full,
  length-contents-lt,
}

-- A channel that holds at most `capacity` characters.
pub record Channel : Type 0 where
  pub chars : List ℕ
  pub shut : Bool

abbrev pub capacity : ℕ
capacity = bufsize - 1

abbrev pub channel : IoQueue → Channel
channel ioq = record { chars = contents ioq; shut = ioq.closed }

abbrev pub is_nil : List ℕ → Bool
is_nil [] = true
is_nil (x ∷ xs) = false

unfoldable pub receive : Channel → Turn Channel (Option ℕ)
receive c = elim c.chars [
  | [] ↦ if c.shut then returns none c [] else waits data_avail
  | x ∷ xs ↦ returns (some x) (record c { chars = xs }) (notify_one space_avail ∷ [])
]

unfoldable pub receive_some : Channel → ℕ → Turn Channel (List ℕ)
receive_some c limit =
    if is_nil c.chars
    then if c.shut then returns [] c [] else waits data_avail
    else returns (take limit c.chars) (record c { chars = drop limit c.chars })
        (notify_one space_avail ∷ [])

unfoldable pub send : Channel → ℕ → Turn Channel Bool
send c x =
    if c.shut
    then returns false c []
    else if length c.chars == capacity
    then waits space_avail
    else returns true (record c { chars = c.chars ++ (x ∷ []) }) (notify_one data_avail ∷ [])

unfoldable pub send_some : Channel → List ℕ → Turn Channel ℕ
send_some c xs =
    let room = capacity - length c.chars in
    if c.shut
    then returns 0 c []
    else if length c.chars == capacity
    then waits space_avail
    else returns (min room (length xs)) (record c { chars = c.chars ++ take room xs })
        (notify_one data_avail ∷ [])

-- A turn on the queue, seen as one on the channel.
abbrev pub view : {A : Type 0} → Turn IoQueue A → Turn Channel A
view (waits c) = waits c
view (returns a ioq w) = returns a (channel ioq) w

-- The queue that a turn leaves is valid.
abbrev pub LeavesValid : {A : Type 0} → Turn IoQueue A → Type 0
LeavesValid (waits c) = Unit
LeavesValid (returns a ioq w) = IsValid ioq

full_of_length :
    (ioq : IoQueue) → IsValid ioq → is_ioq_full ioq ≡ (length (contents ioq) == capacity)
full_of_length ioq v = elim (Bool-cases (is_ioq_full ioq)) [
  | inl full ↦ ground (arith, length-contents_full ioq v full)
  | inr room ↦ ground (
    arith,
    contents-put_char ioq 0 v room,
    length-append (contents ioq) (0 ∷ []),
    length-contents-lt (put_char ioq 0),
  )
]

-- `ioq_getchar` receives the oldest character; it waits on an open queue that is empty, and returns
-- -1 from a closed one that is empty. The queue that it leaves is valid.
pub ioq_getchar-receive :
    (ioq : IoQueue)
    → IsValid ioq
    → (view (ioq_getchar ioq) ≡ receive (channel ioq)) × LeavesValid (ioq_getchar ioq)
unfolding ioq_getchar receive
ioq_getchar-receive ioq v = elim (Bool-cases (is_ioq_empty ioq)) [
  | inl empty ↦ ground (arith, contents_empty ioq v empty)
  | inr more ↦ ground (arith, contents-take_char ioq v more)
]

-- `ioq_putchar` sends a character behind those that the queue holds; it waits on an open queue that
-- is full, and returns false from a closed one. The queue that it leaves is valid.
pub ioq_putchar-send :
    (ioq : IoQueue) (x : ℕ)
    → IsValid ioq
    → (view (ioq_putchar ioq x) ≡ send (channel ioq) x) × LeavesValid (ioq_putchar ioq x)
unfolding ioq_putchar send
ioq_putchar-send ioq x v = elim (Bool-cases (is_ioq_full ioq)) [
  | inl full ↦ ground (arith, full_of_length ioq v)
  | inr room ↦ ground (arith, full_of_length ioq v, contents-put_char ioq x v room)
]

pub record HasRead (room : ℕ) (ioq : IoQueue) (r : List ℕ × IoQueue) : Type 0 where
  pub chars : r.0 ≡ take room (contents ioq)
  pub rest : contents r.1 ≡ drop room (contents ioq)
  pub closed : r.1.closed ≡ ioq.closed
  pub valid : IsValid r.1

read_loop-HasRead : (room : ℕ) (ioq : IoQueue) → IsValid ioq → HasRead room ioq (read_loop room ioq)
unfolding read_loop
read_loop-HasRead zero ioq v = record { chars = refl; rest = refl; closed = refl; valid = v }
read_loop-HasRead (suc room) ioq v = elim (Bool-cases (is_ioq_empty ioq)) [
  | inl empty ↦
      let none_left = contents_empty ioq v empty in
      rw empty (record { chars = rw none_left; rest = rw none_left; closed = refl; valid = v })
  | inr more ↦
      let step = contents-take_char ioq v more in
      let next = read_loop-HasRead room (take_char ioq).1 step.0 in
      rw more (record {
        chars = rw (step.1, next.chars);
        rest = rw step.1 next.rest;
        closed = next.closed;
        valid = next.valid;
      })
]

-- `ioq_read_some` receives the oldest characters, at most `limit`; it waits on an open queue that is
-- empty, and returns none from a closed one that is empty. The queue that it leaves is valid.
pub ioq_read_some-receive_some :
    (ioq : IoQueue) (limit : ℕ)
    → IsValid ioq
    → (view (ioq_read_some ioq limit) ≡ receive_some (channel ioq) limit)
      × LeavesValid (ioq_read_some ioq limit)
unfolding ioq_read_some receive_some
ioq_read_some-receive_some ioq limit v = elim (Bool-cases (is_ioq_empty ioq)) [
  | inl empty ↦ ground (arith, contents_empty ioq v empty)
  | inr more ↦ ground (arith, contents-take_char ioq v more, read_loop-HasRead limit ioq v)
]

pub record HasWritten (ioq : IoQueue) (xs : List ℕ) (r : ℕ × IoQueue) : Type 0 where
  pub size : r.0 ≡ min (capacity - length (contents ioq)) (length xs)
  pub grown : contents r.1 ≡ contents ioq ++ take (capacity - length (contents ioq)) xs
  pub closed : r.1.closed ≡ ioq.closed
  pub valid : IsValid r.1

-- One more character, and then as many as still fit.
take_after :
    (x : ℕ) (xs cs cs' r : List ℕ)
    → cs' ≡ cs ++ (x ∷ [])
    → length cs < capacity
    → r ≡ cs' ++ take (capacity - length cs') xs
    → r ≡ cs ++ take (capacity - length cs) (x ∷ xs)
take_after x xs cs cs' r e h k =
    let n : capacity - length cs' ≡ capacity - length cs - 1 =
      omega (arith, ap length e, length-append cs (x ∷ [])) in
    rw (take-cons (capacity - length cs) x xs (omega arith))
      (k ∙ rw (n, e) (append_assoc cs (x ∷ []) (take (capacity - length cs - 1) xs)))

write_loop-HasWritten :
    (ioq : IoQueue) (xs : List ℕ) → IsValid ioq → HasWritten ioq xs (write_loop ioq xs)
unfolding write_loop
write_loop-HasWritten ioq [] v = record {
  size = omega arith;
  grown = rw take-nil (sym (append-nil (contents ioq)));
  closed = refl;
  valid = v;
}
write_loop-HasWritten ioq (x ∷ xs) v = elim (Bool-cases (is_ioq_full ioq)) [
  | inl full ↦
      let len = length-contents_full ioq v full in
      rw full (record {
        size = omega arith;
        grown = rw len (sym (append-nil (contents ioq)));
        closed = refl;
        valid = v;
      })
  | inr room ↦
      let step = contents-put_char ioq x v room in
      let len : length (contents (put_char ioq x)) ≡ length (contents ioq) + 1 =
        rw step.1 (length-append (contents ioq) (x ∷ [])) in
      let few = length-contents-lt (put_char ioq x) in
      let next = write_loop-HasWritten (put_char ioq x) xs step.0 in
      rw room (record {
        size = omega (arith, next.size);
        grown =
            take_after x xs (contents ioq) (contents (put_char ioq x)) _ step.1 (omega arith)
              next.grown;
        closed = next.closed;
        valid = next.valid;
      })
]

-- `ioq_write_some` sends as many of the characters as there is room for, and returns their number;
-- it waits on an open queue that is full, and returns 0 from a closed one. The queue that it leaves
-- is valid.
pub ioq_write_some-send_some :
    (ioq : IoQueue) (xs : List ℕ)
    → IsValid ioq
    → (view (ioq_write_some ioq xs) ≡ send_some (channel ioq) xs)
      × LeavesValid (ioq_write_some ioq xs)
unfolding ioq_write_some send_some
ioq_write_some-send_some ioq xs v =
    ground (arith, full_of_length ioq v, write_loop-HasWritten ioq xs v)
