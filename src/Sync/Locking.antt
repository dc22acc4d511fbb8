-- ===== src/Sync/Locking.antt =====
-- Every step keeps the invariant, and no ASSERT fails.
use tros.Prelude.{
  ℕ, ◌+◌, ◌-◌, ◌<◌, ◌^◌, ◌≡◌, refl, ◌≢◌, ap, true, false, ◌||◌, Option, none, some, List, [], ◌∷◌,
  ◌++◌, arith, ◌==◌, Bool-cases, ==_self, inl, inr, ltb, add32, Run, ok,
}
use mathlib.Core.Path.{subst}
use tros.Sync.{
  mem, Semaphore, Pc, outside, down, blocked, woken, got, held, inside, leaving, unheld, up,
  LockState, is_thread, is_blocked, goto, Choice, again, release, acquire_test, down_pass,
  release_test, up_pass, act, step, lock_init,
}
use tros.Sync.Invariant.{owns, Fields, Distinct, Inv}

-- The step succeeds, and the invariant holds behind it.
abbrev pub Steps : Run LockState → Type 0
Steps r = (s' : LockState) × (r ≡ ok s') × (owner : Option ℕ) × Inv owner s'

pub mem-append : (a : ℕ) (xs : List ℕ) (b : ℕ) → mem a (xs ++ (b ∷ [])) ≡ (mem a xs || (a == b))
mem-append a [] b = ground arith
mem-append a (x ∷ xs) b = ground (arith, mem-append a xs b)

Distinct-append : (xs : List ℕ) (b : ℕ) → Distinct xs → mem b xs ≡ false → Distinct (xs ++ (b ∷ []))
Distinct-append [] b d n = (refl, tt)
Distinct-append (x ∷ xs) b (m, d) n =
    (ground (arith, mem-append x xs b), Distinct-append xs b d (ground arith))

-- The holder, if there is one, is the owner of the semaphore.
holder_is_owner :
    (p : Pc) (o t : ℕ) (holder : Option ℕ) (n : ℕ)
    → owns p ≡ true
    → Fields p o holder n
    → is_thread holder t ≡ true
    → o ≡ t
holder_is_owner outside o t holder n own f e = cc
holder_is_owner _ o t holder n own f e = ground arith

not-holder :
    (s : LockState) (owner : Option ℕ) (t : ℕ)
    → Inv owner s
    → owns (s.pc t) ≡ false
    → is_thread s.holder t ≡ false
not-holder s none t inv out = ground (arith, inv.fields)
not-holder s (some o) t inv out = elim (Bool-cases (is_thread s.holder t)) [
  | inl yes_holder ↦
      let e =
        holder_is_owner (s.pc o) o t s.holder s.holder_repeat_nr (ground (arith, inv.owning o))
          inv.fields.1 yes_holder in
      absurd (ground (arith, inv.owning t))
  | inr other ↦ other
]

-- The fields of the owner's lock, at the place where the owner stands.
owner-Fields :
    (s : LockState) (owner : Option ℕ) (t : ℕ)
    → Inv owner s
    → owns (s.pc t) ≡ true
    → (owner ≡ some t) × (s.semaphore.value ≡ 0) × Fields (s.pc t) t s.holder s.holder_repeat_nr
owner-Fields s none t inv own = absurd (ground (arith, inv.owning t))
owner-Fields s (some o) t inv own =
    let e : o ≡ t = ground (arith, inv.owning t) in
    (
      ap some e,
      inv.fields.0,
      subst (λ o. Fields (s.pc o) o s.holder s.holder_repeat_nr) e inv.fields.1,
    )

blocked_only : (p : Pc) → is_blocked p ≡ true → p ≡ blocked
blocked_only p e = ground arith

module _ (s : LockState) (t : ℕ) where
  -- A thread that does not own the semaphore moves, and nothing else changes.
  Inv-goto :
      (owner : Option ℕ) (p : Pc)
      → Inv owner s
      → owns (s.pc t) ≡ false
      → owns p ≡ false
      → is_blocked (s.pc t) ≡ false
      → is_blocked p ≡ false
      → s.pc t ≢ woken
      → Inv owner (goto s t p)
  Inv-goto none p inv a b c d n = record {
    owning = λ u. ground (arith, inv.owning u);
    fields = inv.fields;
    queued = λ u. ground (arith, inv.queued u);
    distinct = inv.distinct;
    ready = λ u b. ground (arith, inv.ready u);
    wakeful = λ e ne. let (w, h) = inv.wakeful e ne in (w, ground arith);
  }
  Inv-goto (some o) p inv a b c d n =
      let other : (t == o) ≡ false = ground (arith, inv.owning t) in
      record {
        owning = λ u. ground (arith, inv.owning u);
        fields = rw other inv.fields;
        queued = λ u. ground (arith, inv.queued u);
        distinct = inv.distinct;
        ready = λ u b. ground (arith, inv.ready u);
        wakeful = λ e ne. cc;
      }

  -- The owner moves on, and changes no more than the fields of the lock.
  Inv-owner :
      (p : Pc) (holder : Option ℕ) (n : ℕ)
      → Inv (some t) s
      → owns p ≡ true
      → Fields p t holder n
      → Inv (some t) (goto (record s { holder = holder; holder_repeat_nr = n }) t p)
  Inv-owner p holder n inv own f =
      let here : (t == t) ≡ true = ground arith in
      record {
        owning = λ u. ground (arith, inv.owning u);
        fields = (inv.fields.0, rw here f);
        queued = λ u. ground (arith, inv.queued u, inv.queued t, inv.owning t);
        distinct = inv.distinct;
        ready = λ u b. ground (arith, inv.ready u);
        wakeful = λ e ne. cc;
      }

  -- The owner at a known place, with the fields of the lock there.
  at_place :
      (owner : Option ℕ)
      → Inv owner s
      → (p : Pc) → s.pc t ≡ p
      → owns p ≡ true
      → Inv (some t) s × Fields p t s.holder s.holder_repeat_nr
  at_place owner inv p here own =
      let mine = owner-Fields s owner t inv (ground arith) in
      (
        subst (λ o. Inv o s) mine.0 inv,
        subst (λ p. Fields p t s.holder s.holder_repeat_nr) here mine.2,
      )

  -- A pass of `sema_down` takes the semaphore if it is free, and blocks the thread otherwise.
  Steps-down_pass :
      (owner : Option ℕ)
      → Inv owner s
      → owns (s.pc t) ≡ false
      → is_blocked (s.pc t) ≡ false
      → mem t s.thread_ready_list ≡ false
      → Steps (down_pass s t)
  unfolding down_pass
  Steps-down_pass none inv out free runs =
      let value = inv.fields.0 in
      (
        goto (record s { semaphore = record { value = 0; waiters = s.semaphore.waiters } }) t got,
        rw value,
        some t,
        record {
          owning = λ u. ground (arith, inv.owning u);
          fields = (refl, rw (==_self t) (inv.fields.1, inv.fields.2));
          queued = λ u. ground (arith, inv.queued u);
          distinct = inv.distinct;
          ready = λ u b. ground (arith, inv.ready u);
          wakeful = λ e ne. cc;
        },
      )
  Steps-down_pass (some o) inv out free runs =
      let value = inv.fields.0 in
      let absent : mem t s.semaphore.waiters ≡ false = ground (arith, inv.queued t) in
      let other : (t == o) ≡ false = ground (arith, inv.owning t, inv.owning o) in
      let q : Semaphore = record {
        value = s.semaphore.value;
        waiters = s.semaphore.waiters ++ (t ∷ []);
      } in
      (
        goto (record s { semaphore = q }) t blocked,
        rw (value, absent),
        some o,
        record {
          owning = λ u. ground (arith, inv.owning u);
          fields = (value, rw other inv.fields.1);
          queued = λ u. ground (arith, inv.queued u, mem-append u s.semaphore.waiters t);
          distinct = Distinct-append s.semaphore.waiters t inv.distinct absent;
          ready = λ u b. elim (Bool-cases (t == u)) [
            | inl same ↦
                let eq : t ≡ u = ground arith in
                subst (λ u. mem u s.thread_ready_list ≡ false) eq runs
            | inr other_thread ↦ inv.ready u (ground arith)
          ];
          wakeful = λ e ne. cc;
        },
      )

  -- The place where the owner releases the semaphore.
  Steps-up_pass : (owner : Option ℕ) → Inv owner s → s.pc t ≡ up → Steps (up_pass s t)
  unfolding up_pass
  Steps-up_pass owner inv here = go s.semaphore.waiters refl
    where
      mine :
          (owner ≡ some t) × (s.semaphore.value ≡ 0) × Fields (s.pc t) t s.holder s.holder_repeat_nr
      mine = owner-Fields s owner t inv (ground arith)

      lock_fields : (s.holder ≡ none) × (s.holder_repeat_nr ≡ 0)
      lock_fields = subst (λ p. Fields p t s.holder s.holder_repeat_nr) here mine.2

      go : (ws : List ℕ) → s.semaphore.waiters ≡ ws → Steps (up_pass s t)
      go [] none_left = (
        goto (record s { semaphore = record { value = 1; waiters = [] } }) t outside,
        rw (mine.1, none_left),
        none,
        record {
          owning = λ u. ground (arith, inv.owning u, mine);
          fields = (refl, lock_fields.0, lock_fields.1);
          queued = λ u. ground (arith, inv.queued u, ap (mem u) none_left);
          distinct = tt;
          ready = λ u b. ground (arith, inv.ready u);
          wakeful = λ e ne. absurd (ne refl);
        },
      )
      go (w ∷ ws) first =
          let w_blocked : s.pc w ≡ blocked =
            blocked_only (s.pc w) (ground (arith, inv.queued w, ap (mem w) first)) in
          (
            goto
                (goto
                  (record s {
                    semaphore = record { value = 1; waiters = ws };
                    thread_ready_list = w ∷ s.thread_ready_list;
                  })
                  w woken)
                t outside,
            rw (mine.1, first, w_blocked, inv.ready w (ap is_blocked w_blocked)),
            none,
            record {
              owning = λ u. ground (arith, inv.owning u, mine, w_blocked);
              fields = (refl, lock_fields.0, lock_fields.1);
              queued = λ u. ground (arith, inv.queued u, ap (mem u) first);
              distinct = (subst Distinct first inv.distinct).1;
              ready = λ u b. ground (arith, inv.ready u);
              wakeful = λ e ne. (w, ground arith);
            },
          )

  -- The holder that has taken the lock more than once gives back one of these.
  Steps-release_test : Inv (some t) s → s.pc t ≡ inside → Steps (release_test s t)
  unfolding release_test
  Steps-release_test inv here =
      let f = subst (λ p. Fields p t s.holder s.holder_repeat_nr) here inv.fields.1 in
      let held_here : is_thread s.holder t ≡ true = ground (arith, f.0) in
      elim (Bool-cases (ltb 1 s.holder_repeat_nr)) [
        | inl many ↦ (
          record s { holder_repeat_nr = s.holder_repeat_nr - 1 },
          rw (held_here, many),
          some t,
          record {
            owning = inv.owning;
            fields = (inv.fields.0, rw here (f.0, ground arith));
            queued = inv.queued;
            distinct = inv.distinct;
            ready = inv.ready;
            wakeful = inv.wakeful;
          },
        )
        | inr once ↦
            let one : (s.holder_repeat_nr == 1) ≡ true = ground (arith, f.1) in
            (
              goto s t leaving,
              rw (held_here, once, one),
              some t,
              Inv-owner leaving s.holder s.holder_repeat_nr inv refl (f.0, ground arith),
            )
      ]

  Steps-again :
      Inv (some t) s
      → s.pc t ≡ inside
      → s.holder_repeat_nr + 1 < 2 ^ 32
      → Steps (ok (acquire_test s t))
  unfolding acquire_test
  Steps-again inv here few =
      let f = subst (λ p. Fields p t s.holder s.holder_repeat_nr) here inv.fields.1 in
      let held_here : is_thread s.holder t ≡ true = ground (arith, f.0) in
      (
        _,
        rw held_here,
        some t,
        Inv-owner inside s.holder (add32 s.holder_repeat_nr 1) inv refl (f.0, omega arith),
      )

  Steps-enter : (owner : Option ℕ) → Inv owner s → s.pc t ≡ outside → Steps (ok (acquire_test s t))
  unfolding acquire_test
  Steps-enter owner inv here =
      let free : is_thread s.holder t ≡ false = not-holder s owner t inv (ground arith) in
      (
        _,
        rw free,
        owner,
        Inv-goto owner down inv (ground arith) refl (ground arith) refl (ground arith),
      )

  Steps-act :
      (p : Pc) (c : Choice) (owner : Option ℕ)
      → Inv owner s
      → s.pc t ≡ p
      → s.holder_repeat_nr + 1 < 2 ^ 32
      → mem t s.thread_ready_list ≡ false
      → Steps (act p c s t)
  unfolding act
  Steps-act outside c owner inv here few runs = Steps-enter owner inv here
  Steps-act down c owner inv here few runs =
      Steps-down_pass owner inv (ground arith) (ground arith) runs
  Steps-act woken c owner inv here few runs =
      Steps-down_pass owner inv (ground arith) (ground arith) runs
  Steps-act blocked c owner inv here few runs = (s, refl, owner, inv)
  Steps-act got c owner inv here few runs =
      let mine = at_place owner inv got here refl in
      (_, refl, some t, Inv-owner held (some t) s.holder_repeat_nr mine.0 refl (refl, mine.1.1))
  Steps-act held c owner inv here few runs =
      let mine = at_place owner inv held here refl in
      let zero_nr : (s.holder_repeat_nr == 0) ≡ true = ground (arith, mine.1.1) in
      (_, rw zero_nr, some t, Inv-owner inside s.holder 1 mine.0 refl (mine.1.0, omega arith))
  Steps-act inside again owner inv here few runs =
      Steps-again (at_place owner inv inside here refl).0 here few
  Steps-act inside release owner inv here few runs =
      Steps-release_test (at_place owner inv inside here refl).0 here
  Steps-act leaving c owner inv here few runs =
      let mine = at_place owner inv leaving here refl in
      (_, refl, some t, Inv-owner unheld none s.holder_repeat_nr mine.0 refl (refl, mine.1.1))
  Steps-act unheld c owner inv here few runs =
      let mine = at_place owner inv unheld here refl in
      (_, refl, some t, Inv-owner up s.holder 0 mine.0 refl (mine.1.0, refl))
  Steps-act up c owner inv here few runs = Steps-up_pass owner inv here

-- From a state in which the invariant holds, a step of any thread that runs fails no ASSERT, and leads to a
-- state in which it holds again, if the holder takes the lock fewer than 2 ^ 32 times over.
pub step-Steps :
    (s : LockState) (t : ℕ) (c : Choice) (owner : Option ℕ)
    → Inv owner s
    → s.holder_repeat_nr + 1 < 2 ^ 32
    → mem t s.thread_ready_list ≡ false
    → Steps (step s t c)
unfolding step
step-Steps s t c owner inv few runs = Steps-act s t (s.pc t) c owner inv refl few runs

pub lock_init-Inv : Inv none lock_init
unfolding lock_init
lock_init-Inv = record {
  owning = λ t. refl;
  fields = (refl, refl, refl);
  queued = λ t. refl;
  distinct = tt;
  ready = λ t b. refl;
  wakeful = λ e ne. absurd (ne refl);
}
