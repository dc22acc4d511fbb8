-- ===== src/Pipe/Transfer.antt =====
-- What the loops of `anon_pipe_read` and `anon_pipe_write` move before they return or wait.
use tros.Prelude.{
  ℕ, zero, suc, ◌+◌, ◌-◌, ◌≤◌, ◌≡◌, refl, ap, sym, ◌∙◌, Bool, true, false, ◌||◌, none, some, List,
  [], ◌∷◌, ◌++◌, append_assoc, append-nil, arith, ◌==◌, leb, if◌then◌else◌, length, take, drop,
  Bool-cases, inl, inr, length-append, take-nil, take-cons,
}
use tros.IoQueue.{
  IoQueue, Cond, data_avail, space_avail, Wake, notify_one, Turn, waits, returns, ioq_getchar,
  ioq_putchar,
}
use tros.IoQueue.Contents.{IsValid, contents, length-contents-lt}
use tros.IoQueue.Refine.{
  Channel, capacity, channel, view, LeavesValid, receive, send, ioq_getchar-receive,
  ioq_putchar-send,
}
use tros.Pipe.{Stretch, anon_pipe_read, anon_pipe_write}

view-waits : {A : Type 0} (t : Turn IoQueue A) (c : Cond) → view t ≡ waits c → t ≡ waits c
view-waits (waits d) c e = cc
view-waits (returns a ioq w) c e = absurd (ground arith)

view-returns :
    {A : Type 0} (t : Turn IoQueue A) (a : A) (c : Channel) (w : List Wake)
    → view t ≡ returns a c w
    → LeavesValid t
    → (ioq : IoQueue) × (t ≡ returns a ioq w)
      × (contents ioq ≡ c.chars)
      × (ioq.closed ≡ c.shut)
      × IsValid ioq
view-returns (waits d) a c w e v = absurd (ground arith)
view-returns (returns b ioq w') a c w e v = (ioq, ground arith, ground arith, ground arith, v)

-- What `anon_pipe_read` of `size` characters leaves.
pub record ReadDone (size : ℕ) (chars : List ℕ) (closed : Bool) (s : Stretch) : Type 0 where
  pub moved : s.moved ≡ take size chars
  pub rest : contents s.queue ≡ drop size chars
  pub shut : s.queue.closed ≡ closed
  pub waiting : s.waiting ≡ (if leb size (length chars) || closed then none else some data_avail)
  pub valid : IsValid s.queue

channel_eq :
    (ioq : IoQueue) (chars : List ℕ) (closed : Bool)
    → contents ioq ≡ chars
    → ioq.closed ≡ closed
    → channel ioq ≡ record { chars = chars; shut = closed }
channel_eq ioq chars closed p q = λ i. record { chars = p i; shut = q i }

-- The turn of `ioq_getchar` on a queue with given contents.
getchar-receive :
    (ioq : IoQueue) (chars : List ℕ) (closed : Bool)
    → IsValid ioq
    → contents ioq ≡ chars
    → ioq.closed ≡ closed
    → view (ioq_getchar ioq) ≡ receive (record { chars = chars; shut = closed })
getchar-receive ioq chars closed v p q =
    (ioq_getchar-receive ioq v).0 ∙ ap receive (channel_eq ioq chars closed p q)

pub anon_pipe_read-ReadDone :
    (size : ℕ) (ioq : IoQueue) (chars : List ℕ) (closed : Bool)
    → IsValid ioq
    → contents ioq ≡ chars
    → ioq.closed ≡ closed
    → ReadDone size chars closed (anon_pipe_read ioq size)
unfolding anon_pipe_read receive
anon_pipe_read-ReadDone zero ioq chars closed v p q = record {
  moved = refl;
  rest = p;
  shut = q;
  waiting = ground arith;
  valid = v;
}
anon_pipe_read-ReadDone (suc size) ioq [] true v p q =
    let (ioq', e, p', q', v') =
      view-returns (ioq_getchar ioq) none (record { chars = []; shut = true }) []
        (getchar-receive ioq [] true v p q) (ioq_getchar-receive ioq v).1 in
    rw (e, anon_pipe_read)
      (record { moved = refl; rest = p'; shut = q'; waiting = ground arith; valid = v' })
anon_pipe_read-ReadDone (suc size) ioq [] false v p q =
    rw
      (view-waits (ioq_getchar ioq) data_avail (getchar-receive ioq [] false v p q), anon_pipe_read)
      (record { moved = refl; rest = p; shut = q; waiting = ground arith; valid = v })
anon_pipe_read-ReadDone (suc size) ioq (x ∷ xs) closed v p q =
    let (ioq', e, p', q', v') =
      view-returns (ioq_getchar ioq) (some x) (record { chars = xs; shut = closed })
        (notify_one space_avail ∷ []) (getchar-receive ioq (x ∷ xs) closed v p q)
        (ioq_getchar-receive ioq v).1 in
    let next = anon_pipe_read-ReadDone size ioq' xs closed v' p' q' in
    rw (e, anon_pipe_read)
      (record {
        moved = ap (λ cs. x ∷ cs) next.moved;
        rest = next.rest;
        shut = next.shut;
        waiting = next.waiting ∙ ground arith;
        valid = next.valid;
      })

-- A read of a pipe takes the oldest characters, at most `size`, and leaves the others. It returns at
-- once when there are `size` of them or the pipe is closed, and waits for more otherwise.
pub anon_pipe_read-take :
    (ioq : IoQueue) (size : ℕ)
    → IsValid ioq
    → ReadDone size (contents ioq) ioq.closed (anon_pipe_read ioq size)
anon_pipe_read-take ioq size v =
    anon_pipe_read-ReadDone size ioq (contents ioq) ioq.closed v refl refl

-- What `anon_pipe_write` of `content` leaves.
pub record WriteDone (content chars : List ℕ) (closed : Bool) (s : Stretch) : Type 0 where
  pub moved : s.moved ≡ (if closed then [] else take (capacity - length chars) content)
  pub grown : contents s.queue ≡ chars ++ s.moved
  pub shut : s.queue.closed ≡ closed
  pub waiting : s.waiting ≡ (
      if closed || leb (length content) (capacity - length chars) then none else some space_avail)
  pub valid : IsValid s.queue

putchar-send :
    (ioq : IoQueue) (x : ℕ) (chars : List ℕ) (closed : Bool)
    → IsValid ioq
    → contents ioq ≡ chars
    → ioq.closed ≡ closed
    → view (ioq_putchar ioq x) ≡ send (record { chars = chars; shut = closed }) x
putchar-send ioq x chars closed v p q =
    (ioq_putchar-send ioq x v).0 ∙ ap (λ c. send c x) (channel_eq ioq chars closed p q)

pub anon_pipe_write-WriteDone :
    (content : List ℕ) (ioq : IoQueue) (chars : List ℕ) (closed : Bool)
    → IsValid ioq
    → contents ioq ≡ chars
    → ioq.closed ≡ closed
    → WriteDone content chars closed (anon_pipe_write ioq content)
unfolding anon_pipe_write send
anon_pipe_write-WriteDone [] ioq chars true v p q = record {
  moved = refl;
  grown = p ∙ sym (append-nil chars);
  shut = q;
  waiting = ground arith;
  valid = v;
}
anon_pipe_write-WriteDone [] ioq chars false v p q = record {
  moved = sym (take-nil (capacity - length chars));
  grown = p ∙ sym (append-nil chars);
  shut = q;
  waiting = ground arith;
  valid = v;
}
anon_pipe_write-WriteDone (x ∷ xs) ioq chars true v p q =
    let (ioq', e, p', q', v') =
      view-returns (ioq_putchar ioq x) false (record { chars = chars; shut = true }) []
        (putchar-send ioq x chars true v p q) (ioq_putchar-send ioq x v).1 in
    rw (e, anon_pipe_write)
      (record {
        moved = refl;
        grown = p' ∙ sym (append-nil chars);
        shut = q';
        waiting = refl;
        valid = v';
      })
anon_pipe_write-WriteDone (x ∷ xs) ioq chars false v p q =
    elim (Bool-cases (length chars == capacity)) [
      | inl full ↦
          rw
            (
              view-waits (ioq_putchar ioq x) space_avail
                  (putchar-send ioq x chars false v p q ∙ rw full),
              anon_pipe_write,
            )
            (record {
              moved = (let z : capacity - length chars ≡ 0 = ground arith in rw z);
              grown = p ∙ sym (append-nil chars);
              shut = q;
              waiting = ground arith;
              valid = v;
            })
      | inr room ↦
          let (ioq', e, p', q', v') =
            view-returns (ioq_putchar ioq x) true
              (record { chars = chars ++ (x ∷ []); shut = false }) (notify_one data_avail ∷ [])
              (putchar-send ioq x chars false v p q ∙ rw room) (ioq_putchar-send ioq x v).1 in
          let next = anon_pipe_write-WriteDone xs ioq' (chars ++ (x ∷ [])) false v' p' q' in
          let few = length-contents-lt ioq in
          let len = length-append chars (x ∷ []) in
          rw (e, anon_pipe_write)
            (record {
              moved =
                  rw (take-cons (capacity - length chars) x xs (ground arith))
                    (ap (λ cs. x ∷ cs) (next.moved ∙ ap (λ n. take n xs) (omega (arith, len))));
              grown = next.grown ∙ append_assoc chars (x ∷ []) _;
              shut = next.shut;
              waiting = next.waiting ∙ ground (arith, len);
              valid = next.valid;
            })
    ]

-- A write of a pipe puts its characters behind those that the pipe holds, as many as fit; to a closed
-- pipe it writes none. It waits only when the pipe is open and not all of them fit.
pub anon_pipe_write-take :
    (ioq : IoQueue) (content : List ℕ)
    → IsValid ioq
    → WriteDone content (contents ioq) ioq.closed (anon_pipe_write ioq content)
anon_pipe_write-take ioq content v =
    anon_pipe_write-WriteDone content ioq (contents ioq) ioq.closed v refl refl

take_all : (n : ℕ) (xs : List ℕ) → length xs ≤ n → take n xs ≡ xs
take_all zero [] h = refl
take_all zero (x ∷ xs) h = absurd (omega arith)
take_all (suc n) [] h = refl
take_all (suc n) (x ∷ xs) h = ap (λ r. x ∷ r) (take_all n xs (omega arith))

-- What is written to an open pipe, if it fits, is what a reader gets once it has read what the pipe
-- held before: reading all of it returns the old characters and then the written ones, and neither
-- call waits.
pub anon_pipe_write-read :
    (ioq : IoQueue) (content : List ℕ)
    → IsValid ioq
    → ioq.closed ≡ false
    → length (contents ioq) + length content ≤ capacity
    → let w = anon_pipe_write ioq content in
      let r = anon_pipe_read w.queue (length (contents ioq) + length content) in
      (w.waiting ≡ none) × (r.waiting ≡ none) × (r.moved ≡ contents ioq ++ content)
anon_pipe_write-read ioq content v opened fits =
    let w = anon_pipe_write-take ioq content v in
    let size = length (contents ioq) + length content in
    let r = anon_pipe_read-take (anon_pipe_write ioq content).queue size w.valid in
    let all : take (capacity - length (contents ioq)) content ≡ content =
      take_all (capacity - length (contents ioq)) content (omega arith) in
    let held : contents (anon_pipe_write ioq content).queue ≡ contents ioq ++ content =
      w.grown ∙ ap (λ cs. contents ioq ++ cs) (w.moved ∙ rw opened all) in
    let len : length (contents (anon_pipe_write ioq content).queue) ≡ size =
      ap length held ∙ length-append (contents ioq) content in
    (
      w.waiting ∙ ground arith,
      r.waiting ∙ ground (arith, len),
      r.moved ∙ take_all size _ (omega (arith, len)) ∙ held,
    )
