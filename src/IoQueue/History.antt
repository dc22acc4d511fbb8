-- ===== src/IoQueue/History.antt =====
-- Any number of threads on one queue: their turns in any order.
use tros.Prelude.{
  ℕ, ◌-◌, ◌<◌, ◌≡◌, refl, ap, sym, ◌∙◌, Bool, true, false, Option, none, some, List, [], ◌∷◌, ◌++◌,
  append_assoc, append-nil, arith, if◌then◌else◌, length, take, take-append-drop, take-min,
}
use tros.IoQueue.{
  bufsize, IoQueue, Cond, Wake, Turn, waits, returns, ioqueue_init, ioq_getchar, ioq_read_some,
  ioq_putchar, ioq_write_some, ioq_close,
}
use tros.IoQueue.Contents.{IsValid, contents, length-contents-lt}
use mathlib.Core.Path.{subst}
use tros.IoQueue.Refine.{
  Channel, capacity, channel, view, LeavesValid, receive, receive_some, send, send_some,
  ioq_getchar-receive, ioq_putchar-send, ioq_read_some-receive_some, ioq_write_some-send_some,
}

-- One turn that returns, with the characters that it put in and those that it took out.
pub data Step (ioq : IoQueue) : (sent got : List ℕ) → IoQueue → Type 0 where
  getchar :
      {c : ℕ} {ioq' : IoQueue} {w : List Wake}
      → ioq_getchar ioq ≡ returns (some c) ioq' w
      → Step ioq [] (c ∷ []) ioq'
  getchar_end :
      {ioq' : IoQueue} {w : List Wake} → ioq_getchar ioq ≡ returns none ioq' w → Step ioq [] [] ioq'
  read_some :
      (limit : ℕ) {cs : List ℕ} {ioq' : IoQueue} {w : List Wake}
      → ioq_read_some ioq limit ≡ returns cs ioq' w
      → Step ioq [] cs ioq'
  putchar :
      {c : ℕ} {ioq' : IoQueue} {w : List Wake}
      → ioq_putchar ioq c ≡ returns true ioq' w
      → Step ioq (c ∷ []) [] ioq'
  putchar_closed :
      (c : ℕ) {ioq' : IoQueue} {w : List Wake}
      → ioq_putchar ioq c ≡ returns false ioq' w
      → Step ioq [] [] ioq'
  write_some :
      (cs : List ℕ) {n : ℕ} {ioq' : IoQueue} {w : List Wake}
      → ioq_write_some ioq cs ≡ returns n ioq' w
      → Step ioq (take n cs) [] ioq'
  close : Step ioq [] [] (ioq_close ioq).0

-- What all threads together have sent and got, in the order of their turns.
pub data Run (start : IoQueue) : (sent got : List ℕ) → IoQueue → Type 0 where
  here : Run start [] [] start
  next :
      {sent got s g : List ℕ} {ioq ioq' : IoQueue}
      → Run start sent got ioq
      → Step ioq s g ioq'
      → Run start (sent ++ s) (got ++ g) ioq'

-- What a turn does to the characters that the queue holds.
pub record Moved (ioq : IoQueue) (s g : List ℕ) (ioq' : IoQueue) : Type 0 where
  pub order : contents ioq ++ s ≡ g ++ contents ioq'
  pub valid : IsValid ioq'
  pub shut : ioq.closed ≡ true → (s ≡ []) × (ioq'.closed ≡ true)

abbrev taken : Option ℕ → List ℕ
taken none = []
taken (some c) = c ∷ []

-- What a turn of the channel does: the characters behind, those in front, and its closing.
record Kept (c : Channel) (s g : List ℕ) (c' : Channel) : Type 0 where
  order : c.chars ++ s ≡ g ++ c'.chars
  shut : c'.shut ≡ c.shut
  refuse : c.shut ≡ true → s ≡ []

receive-Kept :
    (c c' : Channel) (r : Option ℕ) (w : List Wake)
    → receive c ≡ returns r c' w
    → Kept c [] (taken r) c'
unfolding receive
receive-Kept c c' r w e = go c.chars refl e
  where
    go :
        (xs : List ℕ)
        → c.chars ≡ xs
        → (elim xs [
          | [] ↦ if c.shut then returns none c [] else waits Cond.data_avail
          | x ∷ xs ↦
              returns (some x) (record c { chars = xs }) (Wake.notify_one Cond.space_avail ∷ [])
        ])
          ≡ returns r c' w
        → Kept c [] (taken r) c'
    go [] p e = ground (arith, append-nil c.chars)
    go (x ∷ xs) p e = ground (arith, append-nil c.chars)

receive_some-Kept :
    (c c' : Channel) (limit : ℕ) (cs : List ℕ) (w : List Wake)
    → receive_some c limit ≡ returns cs c' w
    → Kept c [] cs c'
unfolding receive_some
receive_some-Kept c c' limit cs w e =
    ground (arith, append-nil c.chars, take-append-drop limit c.chars)

send-Kept :
    (c c' : Channel) (x : ℕ) (b : Bool) (w : List Wake)
    → send c x ≡ returns b c' w
    → Kept c (if b then x ∷ [] else []) [] c'
unfolding send
send-Kept c c' x b w e = ground (arith, append-nil c.chars)

send_some-Kept :
    (c c' : Channel) (xs : List ℕ) (n : ℕ) (w : List Wake)
    → send_some c xs ≡ returns n c' w
    → Kept c (take n xs) [] c'
unfolding send_some
send_some-Kept c c' xs n w e =
    ground (arith, append-nil c.chars, take-min (capacity - length c.chars) xs)

-- The same of a turn on the queue.
Moved-intro :
    {A : Type 0} (ioq ioq' : IoQueue) (t : Turn IoQueue A) (spec : Turn Channel A) (a : A)
    (s g : List ℕ) (w : List Wake)
    → (view t ≡ spec) × LeavesValid t
    → ((c' : Channel) → spec ≡ returns a c' w → Kept (channel ioq) s g c')
    → t ≡ returns a ioq' w
    → Moved ioq s g ioq'
Moved-intro ioq ioq' t spec a s g w (same, valid) kept e =
    let k = kept (channel ioq') (sym same ∙ ap view e) in
    record {
      order = k.order;
      valid = subst LeavesValid e valid;
      shut = λ c. (k.refuse c, k.shut ∙ c);
    }

-- A turn of any function keeps the order of the characters, leaves the queue valid, and sends
-- nothing to a closed queue, which stays closed.
pub Step-Moved :
    {ioq ioq' : IoQueue} {s g : List ℕ} → IsValid ioq → Step ioq s g ioq' → Moved ioq s g ioq'
unfolding ioq_close
Step-Moved {ioq} v (getchar {c} {ioq'} {w} e) =
    Moved-intro ioq ioq' _ _ (some c) _ _ w (ioq_getchar-receive ioq v)
      (λ c' k. receive-Kept (channel ioq) c' (some c) w k) e
Step-Moved {ioq} v (getchar_end {ioq'} {w} e) =
    Moved-intro ioq ioq' _ _ none _ _ w (ioq_getchar-receive ioq v)
      (λ c' k. receive-Kept (channel ioq) c' none w k) e
Step-Moved {ioq} v (read_some limit {cs} {ioq'} {w} e) =
    Moved-intro ioq ioq' _ _ cs _ _ w (ioq_read_some-receive_some ioq limit v)
      (λ c' k. receive_some-Kept (channel ioq) c' limit cs w k) e
Step-Moved {ioq} v (putchar {c} {ioq'} {w} e) =
    Moved-intro ioq ioq' _ _ true _ _ w (ioq_putchar-send ioq c v)
      (λ c' k. send-Kept (channel ioq) c' c true w k) e
Step-Moved {ioq} v (putchar_closed c {ioq'} {w} e) =
    Moved-intro ioq ioq' _ _ false _ _ w (ioq_putchar-send ioq c v)
      (λ c' k. send-Kept (channel ioq) c' c false w k) e
Step-Moved {ioq} v (write_some cs {n} {ioq'} {w} e) =
    Moved-intro ioq ioq' _ _ n _ _ w (ioq_write_some-send_some ioq cs v)
      (λ c' k. send_some-Kept (channel ioq) c' cs n w k) e
Step-Moved {ioq} v close = ground (arith, append-nil (contents ioq))

Run-IsValid :
    {start ioq : IoQueue} {sent got : List ℕ} → IsValid start → Run start sent got ioq → IsValid ioq
Run-IsValid v here = v
Run-IsValid v (next r st) = (Step-Moved (Run-IsValid v r) st).valid

Run-order :
    {start ioq : IoQueue} {sent got : List ℕ}
    → IsValid start
    → Run start sent got ioq
    → contents start ++ sent ≡ got ++ contents ioq
Run-order {start} v here = append-nil (contents start)
Run-order {start} v (next {sent} {got} {s} {g} {ioq} {ioq'} r st) =
    sym (append_assoc (contents start) sent s)
    ∙ ap (λ xs. xs ++ s) (Run-order v r)
    ∙ append_assoc got (contents ioq) s
    ∙ ap (λ xs. got ++ xs) (Step-Moved (Run-IsValid v r) st).order
    ∙ sym (append_assoc got g (contents ioq'))

-- Whatever threads use a queue from its initialisation on, in whatever order: the characters got
-- from it, followed by those that it holds, are the characters sent to it, in the same order, and it
-- never holds more than `bufsize - 1`.
pub Run-fifo :
    (garbage : ℕ → ℕ) {ioq : IoQueue} {sent got : List ℕ}
    → Run (ioqueue_init garbage) sent got ioq
    → (sent ≡ got ++ contents ioq) × (length (contents ioq) < bufsize)
unfolding ioqueue_init
Run-fifo garbage {ioq} r = (Run-order (omega arith) r, length-contents-lt ioq)

-- Once a queue is closed it stays closed and takes no more characters, whatever the threads do.
pub Run-closed :
    {start ioq : IoQueue} {sent got : List ℕ}
    → IsValid start
    → start.closed ≡ true
    → Run start sent got ioq
    → (sent ≡ []) × (ioq.closed ≡ true)
Run-closed v c here = (refl, c)
Run-closed v c (next {sent} {s} r st) =
    let before = Run-closed v c r in
    let now = (Step-Moved (Run-IsValid v r) st).shut before.1 in (rw (before.0, now.0), now.1)
