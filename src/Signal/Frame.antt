-- ===== src/Signal/Frame.antt =====
-- The frame of a signal handler, and the way back from it (src/kernel/signal.c).
use tros.Prelude.{
  ℕ, ◌+◌, ◌-◌, ◌*◌, ◌^◌, ◌<◌, ◌≤◌, ◌≡◌, ◌⊎◌, refl, ◌∙◌, true, false, ◌&&◌, arith, ltb, leb, ◌==◌,
  inr, sub32, ap, Option, none, some, if◌then◌else◌, ==_self,
}
use tros.Disk.{Buffer, overlay, word_at, to_bytes}
use tros.Disk.Words.{word_at-to_bytes, word_at-eq}
use tros.Signal.{
  Context, eax_word, eip_word, esp_word, sys_sigreturn_nr, write_byte, setup_frame, sys_sigreturn,
}

overlay-inside :
    (m : Buffer) (off : ℕ) (src : Buffer) (n k : ℕ) → k < n → overlay m off src n (off + k) ≡ src k
unfolding overlay
overlay-inside m off src n k lt =
    let t : (leb off (off + k) && ltb (off + k) (off + n)) ≡ true = ground arith in
    let e : off + k - off ≡ k = omega arith in rw (t, e) refl

overlay-outside :
    (m : Buffer) (off : ℕ) (src : Buffer) (n a : ℕ)
    → (a < off) ⊎ (off + n ≤ a)
    → overlay m off src n a ≡ m a
unfolding overlay
overlay-outside m off src n a far =
    let t : (leb off a && ltb a (off + n)) ≡ false = ground arith in rw t refl

-- A stack pointer with room for the frame below it.
abbrev pub HasRoom : Context → Type 0
HasRoom c = (91 ≤ c.stk esp_word) × (c.stk esp_word < 2 ^ 32)

-- What the processor does with `mov eax, imm32; int 0x80` at an address: the interrupt has the number
-- in eax, and saves the address behind the two instructions. There is none for other instructions.
unfoldable pub trap : Buffer → (eip : ℕ) → Option (ℕ × ℕ)
trap m eip =
    if (m eip == 0xb8) && (m (eip + 5) == 0xcd) && (m (eip + 6) == 0x80)
    then some (word_at m (eip + 1), eip + 7)
    else none

-- The address that an interrupt saves.
abbrev pub saved_eip : Option (ℕ × ℕ) → ℕ
saved_eip none = 0
saved_eip (some (eax, eip)) = eip

-- Where the handler returns to: the word on top of its stack.
unfoldable pub return_address : Context → ℕ
return_address frame = word_at frame.memory (frame.stk esp_word)

module _ (c : Context) (signum handler : ℕ) (room : HasRoom c) where
  abbrev esp : ℕ
  esp = c.stk esp_word

  -- The memory under the parameter of the handler.
  abbrev code : Buffer
  code =
      write_byte
        (overlay
          (overlay (overlay c.memory (esp - 76) (to_bytes c.stk) 76) (esp - 78)
            (to_bytes (λ k. 0x80cd)) 2)
          (esp - 82) (to_bytes (λ k. sys_sigreturn_nr)) 4)
        (esp - 83) 0xb8

  setup_frame-code :
      ((setup_frame c signum handler).memory
        ≡ overlay
            (overlay code (esp - 87) (to_bytes (λ k. signum)) 4)
            (esp - 91)
            (to_bytes (λ k. esp - 83))
            4)
      × ((setup_frame c signum handler).stk esp_word ≡ esp - 91)
  unfolding setup_frame
  setup_frame-code =
      let s1 : sub32 esp 76 ≡ esp - 76 = omega (arith, room) in
      let s2 : sub32 (esp - 76) 2 ≡ esp - 78 = omega (arith, room) in
      let s3 : sub32 (esp - 78) 4 ≡ esp - 82 = omega (arith, room) in
      let s4 : sub32 (esp - 82) 1 ≡ esp - 83 = omega (arith, room) in
      let s5 : sub32 (esp - 83) 4 ≡ esp - 87 = omega (arith, room) in
      let s6 : sub32 (esp - 87) 4 ≡ esp - 91 = omega (arith, room) in
      (rw (s1, s2, s3, s4, s5, s6) refl, rw (s1, s2, s3, s4, s5, s6) refl)

  setup_frame-handler : (setup_frame c signum handler).stk eip_word ≡ handler
  unfolding setup_frame
  setup_frame-handler = refl

  setup_frame-signum :
      signum < 2 ^ 32
      → word_at
          (setup_frame c signum handler).memory
          ((setup_frame c signum handler).stk esp_word + 4)
        ≡ signum
  setup_frame-signum valid =
      let p : esp - 91 + 4 ≡ esp - 87 = omega (arith, room) in
      rw (setup_frame-code.0, setup_frame-code.1, p)
        (word_at-eq _ (to_bytes (λ k. signum)) (esp - 87) 0 (λ i h.
            let z : 0 + i ≡ i = omega arith in
            rw z (
              overlay-outside _ (esp - 91) _ 4 (esp - 87 + i) (inr (omega (arith, room)))
              ∙ overlay-inside code (esp - 87) (to_bytes (λ k. signum)) 4 i h))
          ∙ word_at-to_bytes (λ k. signum) 0 valid)

  -- Behind the parameter.
  frame_code : (a : ℕ) → esp - 83 ≤ a → (setup_frame c signum handler).memory a ≡ code a
  frame_code a lo = rw setup_frame-code.0 (
      overlay-outside _ (esp - 91) _ 4 a (inr (omega (arith, room)))
      ∙ overlay-outside code (esp - 87) _ 4 a (inr (omega (arith, room))))

  -- The saved registers lie below the stack pointer.
  setup_frame-backup :
      (i : ℕ) → i < 76 → (setup_frame c signum handler).memory (esp - 76 + i) ≡ to_bytes c.stk i
  setup_frame-backup i lt =
      let t : (esp - 83 == esp - 76 + i) ≡ false = ground (arith, room) in
      frame_code (esp - 76 + i) (omega (arith, room))
      ∙ rw t (
          overlay-outside _ (esp - 82) _ 4 (esp - 76 + i) (inr (omega (arith, room)))
          ∙ overlay-outside _ (esp - 78) _ 2 (esp - 76 + i) (inr (omega (arith, room)))
          ∙ overlay-inside c.memory (esp - 76) (to_bytes c.stk) 76 i lt)

  return_address-frame : return_address (setup_frame c signum handler) ≡ esp - 83
  unfolding return_address
  return_address-frame =
      rw (setup_frame-code.0, setup_frame-code.1)
        (word_at-eq _ (to_bytes (λ k. esp - 83)) (esp - 91) 0 (λ i h.
            let z : 0 + i ≡ i = omega arith in
            rw z (overlay-inside _ (esp - 91) (to_bytes (λ k. esp - 83)) 4 i h))
          ∙ word_at-to_bytes (λ k. esp - 83) 0 (omega (arith, room)))

  -- The instructions are those of the system call, and end where the saved registers lie.
  trap-frame :
      (m : Buffer)
      → ((a : ℕ) → esp - 83 ≤ a → a < esp → m a ≡ (setup_frame c signum handler).memory a)
      → trap m (esp - 83) ≡ some (31, esp - 76)
  unfolding trap to_bytes
  trap-frame m kept =
      let at : (a : ℕ) → esp - 83 ≤ a → a < esp → m a ≡ code a =
        λ a lo hi. kept a lo hi ∙ frame_code a lo in
      let b0 : m (esp - 83) ≡ 0xb8 =
        at (esp - 83) (omega arith) (omega (arith, room)) ∙ rw (==_self (esp - 83)) refl in
      let p5 : esp - 83 + 5 ≡ esp - 78 + 0 = omega (arith, room) in
      let p6 : esp - 83 + 6 ≡ esp - 78 + 1 = omega (arith, room) in
      let p7 : esp - 83 + 7 ≡ esp - 76 = omega (arith, room) in
      let int : (i : ℕ) → i < 2 → m (esp - 78 + i) ≡ to_bytes (λ k. 0x80cd) i = λ i lt.
        let t : (esp - 83 == esp - 78 + i) ≡ false = ground (arith, room) in
        at (esp - 78 + i) (omega (arith, room)) (omega (arith, room))
        ∙ rw t (
            overlay-outside _ (esp - 82) _ 4 (esp - 78 + i) (inr (omega (arith, room)))
            ∙ overlay-inside _ (esp - 78) (to_bytes (λ k. 0x80cd)) 2 i lt) in
      let number : word_at m (esp - 83 + 1) ≡ sys_sigreturn_nr =
        word_at-eq m (to_bytes (λ k. sys_sigreturn_nr)) (esp - 83 + 1) 0 (λ i h.
          let p : esp - 83 + 1 + i ≡ esp - 82 + i = omega (arith, room) in
          let z : 0 + i ≡ i = omega arith in
          let t : (esp - 83 == esp - 82 + i) ≡ false = ground (arith, room) in
          rw (p, z)
            (at (esp - 82 + i) (omega (arith, room)) (omega (arith, room))
              ∙ rw t (overlay-inside _ (esp - 82) (to_bytes (λ k. sys_sigreturn_nr)) 4 i h)))
        ∙ word_at-to_bytes (λ k. sys_sigreturn_nr) 0 (omega arith) in
      rw (p5, p6, p7, b0, int 0 (omega arith), int 1 (omega arith), number) refl

-- For a stack pointer with 91 bytes below it, registers of 32 bits, and a handler that leaves the
-- frame above its parameter as it is: the process goes on in the handler, which finds the signal behind
-- its return address; the instructions at its return address make system call 31,
-- sys_sigreturn, and end where the saved registers lie; with the address behind them saved by the
-- interrupt, `sys_sigreturn` restores all 19 registers and returns the saved `eax`.
pub sys_sigreturn-setup_frame :
    (c : Context) (signum handler : ℕ) (back : Context)
    → HasRoom c
    → signum < 2 ^ 32
    → ((k : ℕ) → k < 19 → c.stk k < 2 ^ 32)
    → ((a : ℕ)
        → c.stk esp_word - 83 ≤ a
        → a < c.stk esp_word
        → back.memory a ≡ (setup_frame c signum handler).memory a)
    → back.stk eip_word
      ≡ saved_eip (trap back.memory (return_address (setup_frame c signum handler)))
    → ((setup_frame c signum handler).stk eip_word ≡ handler)
      × (word_at
            (setup_frame c signum handler).memory
            ((setup_frame c signum handler).stk esp_word + 4)
          ≡ signum)
      × (trap back.memory (return_address (setup_frame c signum handler))
          ≡ some (31, c.stk esp_word - 76))
      × ((sys_sigreturn back).0 ≡ c.stk eax_word)
      × ((k : ℕ) → k < 19 → (sys_sigreturn back).1.stk k ≡ c.stk k)
unfolding sys_sigreturn
sys_sigreturn-setup_frame c signum handler back room valid small kept saved =
    let base = c.stk esp_word - 76 in
    let trapped : trap back.memory (return_address (setup_frame c signum handler))
        ≡ some (31, base) =
      rw (return_address-frame c signum handler room)
        (trap-frame c signum handler room back.memory kept) in
    let eip : back.stk eip_word ≡ base = saved ∙ ap saved_eip trapped in
    let restored : (k : ℕ) → k < 19 → word_at back.memory (base + k * 4) ≡ c.stk k = λ k lt.
      word_at-eq back.memory (to_bytes c.stk) (base + k * 4) (k * 4) (λ i h.
        let a : base + k * 4 + i ≡ base + (k * 4 + i) = omega arith in
        rw a (
          kept (base + (k * 4 + i)) (omega arith) (omega (arith, room))
          ∙ setup_frame-backup c signum handler room (k * 4 + i) (omega arith)))
      ∙ word_at-to_bytes c.stk k (small k lt) in
    (
      setup_frame-handler c signum handler room,
      setup_frame-signum c signum handler room valid,
      trapped,
      rw eip (restored eax_word (omega arith)),
      λ k lt. let t : ltb k 19 ≡ true = ground arith in rw (t, eip) (restored k lt),
    )
