-- ===== src/Keyboard/History.antt =====
-- The status variables of src/device/keyboard.c, as facts about the keys that were pressed and
-- released.
use tros.Prelude.{
  ℕ, ◌+◌, ◌-◌, ◌/◌, ◌%◌, ◌^◌, ◌<◌, ◌≡◌, refl, sym, ◌∙◌, Bool, true, false, not, ◌&&◌, ◌||◌, Option,
  none, List, [], ◌∷◌, arith, ltb, ◌==◌, if◌then◌else◌, every, every_lem, Bool-cases, inl, inr, ap,
  ◌⊎◌, ◌≢◌,
}
use mathlib.Core.Path.{subst}
use tros.Keyboard.{
  Keyboard, key_char, make, handle_code, intr_keyboard_handler, with_shift, emit, is_handled,
  pressed, released,
}

-- What a key does: its make code, and whether it went down.
pub record KeyEvent : Type 0 where
  pub code : ℕ
  pub down : Bool

-- The key events that a sequence of bytes from the keyboard spells, after a prefix or not.
abbrev pub events : (prefixed : Bool) → List ℕ → List KeyEvent
events prefixed [] = []
events prefixed (byte ∷ bytes) =
    let code = (if prefixed then 0xe000 else 0) + byte in
    let rest = events false bytes in
    let more = events true bytes in
    if byte == 0xe0
    then more
    else record { code = if ltb byte 0x80 then code else code - 0x80; down = ltb byte 0x80 } ∷ rest

-- Whether the last event of two keys was that one went down.
abbrev pub last_down : (left right : ℕ) → Bool → List KeyEvent → Bool
last_down left right before [] = before
last_down left right before (e ∷ es) =
    last_down left right (if (e.code == left) || (e.code == right) then e.down else before) es

-- How often a key went down, even or odd.
abbrev pub toggled : (key : ℕ) → Bool → List KeyEvent → Bool
toggled key before [] = before
toggled key before (e ∷ es) =
    toggled key (if (e.code == key) && e.down then not before else before) es

abbrev pub handle_all : Keyboard → List ℕ → Keyboard
handle_all k [] = k
handle_all k (byte ∷ bytes) = handle_all (intr_keyboard_handler k byte).0 bytes

abbrev pub AreBytes : List ℕ → Type 0
AreBytes [] = Unit
AreBytes (byte ∷ bytes) = (byte < 2 ^ 8) × AreBytes bytes

-- The keys without a character.
abbrev is_silent : ℕ → Bool
is_silent i = (i == 0x1d) || (i == 0x2a) || (i == 0x36) || (i == 0x38) || (i == 0x3a)

silent_at : Bool → ℕ → Bool
silent_at shift i =
    (i == 0)
    || ((key_char i shift == 0) && is_silent i)
    || (not (key_char i shift == 0) && not (is_silent i))

silent_table : (shift : Bool) → every 0x3b (silent_at shift) ≡ true
unfolding every silent_at key_char
silent_table true = refl
silent_table false = refl

key_char-is_silent :
    (shift : Bool) (i : ℕ) → i < 0x3b → i ≢ 0 → (key_char i shift == 0) ≡ is_silent i
unfolding silent_at
key_char-is_silent shift i lt pos =
    ground (arith, every_lem 0x3b (silent_at shift) i lt (silent_table shift))

-- What a key event does to a status that two keys share.
abbrev status : (left right : ℕ) → Bool → KeyEvent → Bool
status left right before e = if (e.code == left) || (e.code == right) then e.down else before

abbrev event_of : ℕ → KeyEvent
event_of code =
    let down = code / 2 ^ 7 % 2 == 0 in
    record { code = if down then code else code - 2 ^ 7; down = down }

-- `make` with the choice between the two characters of a key left open.
abbrev made : Keyboard → (code : ℕ) → Bool → Keyboard × Option ℕ
made k code shift =
    if is_handled code then emit k code (key_char (code % 2 ^ 8) shift) else (k, none)

-- A make code without a character is recorded by its full code; any other changes nothing.
make-pressed : (k : Keyboard) (code : ℕ) → (make k code).0 ≡ pressed k code
unfolding make emit
make-pressed k code = go (with_shift k code)
  where
    pressed_none : is_silent (code % 2 ^ 8) ≡ false → pressed k code ≡ k
    pressed_none loud = ground arith

    pressed_index : is_handled code ≡ true → pressed k (code % 2 ^ 8) ≡ pressed k code
    pressed_index range = ground arith

    pressed_out : is_handled code ≡ false → pressed k code ≡ k
    pressed_out range = ground arith

    go : (shift : Bool) → (made k code shift).0 ≡ pressed k code
    go shift = elim (Bool-cases (is_handled code)) [
      | inl range ↦
          let known = key_char-is_silent shift (code % 2 ^ 8) (ground arith) (ground arith) in
          elim (Bool-cases (is_silent (code % 2 ^ 8))) [
            | inl quiet ↦ rw (range, known, quiet) (pressed_index range)
            | inr loud ↦ rw (range, known, loud) (sym (pressed_none loud))
          ]
      | inr range ↦ rw range (sym (pressed_out range))
    ]

-- What one event does to the statuses.
record Follows (k k' : Keyboard) (e : KeyEvent) : Type 0 where
  shift : k'.shift_status ≡ status 0x2a 0x36 k.shift_status e
  ctrl : k'.ctrl_status ≡ status 0x1d 0xe01d k.ctrl_status e
  alt : k'.alt_status ≡ status 0x38 0xe038 k.alt_status e
  caps :
      k'.caps_lock_status
      ≡ (if (e.code == 0x3a) && e.down then not k.caps_lock_status else k.caps_lock_status)
  ext : k'.ext_scancode ≡ k.ext_scancode

pressed-Follows :
    (k : Keyboard) (code : ℕ) → Follows k (pressed k code) (record { code = code; down = true })
pressed-Follows k code = record {
  shift = ground arith;
  ctrl = ground arith;
  alt = ground arith;
  caps = ground arith;
  ext = ground arith;
}

released-Follows :
    (k : Keyboard) (code : ℕ) → Follows k (released k code) (record { code = code; down = false })
released-Follows k code = record {
  shift = ground arith;
  ctrl = ground arith;
  alt = ground arith;
  caps = ground arith;
  ext = ground arith;
}

-- The statuses after one code, with or without prefix.
handle_code-down :
    (k : Keyboard) (code : ℕ)
    → code / 2 ^ 7 % 2 ≡ 0
    → Follows k (handle_code k code).0 (record { code = code; down = true })
unfolding handle_code
handle_code-down k code low =
    let b : (code / 2 ^ 7 % 2 == 0) ≡ true = ground arith in
    rw (b, make-pressed k code) (pressed-Follows k code)

handle_code-up :
    (k : Keyboard) (code : ℕ)
    → code / 2 ^ 7 % 2 ≡ 1
    → Follows k (handle_code k code).0 (record { code = code - 2 ^ 7; down = false })
unfolding handle_code
handle_code-up k code high =
    let b : (code / 2 ^ 7 % 2 == 0) ≡ false = ground arith in
    rw b (released-Follows k (code - 2 ^ 7))

-- The statuses agree with a sequence of events.
abbrev pub Agrees : (k k' : Keyboard) → List KeyEvent → Type 0
Agrees k k' es =
    (k'.shift_status ≡ last_down 0x2a 0x36 k.shift_status es)
    × (k'.ctrl_status ≡ last_down 0x1d 0xe01d k.ctrl_status es)
    × (k'.alt_status ≡ last_down 0x38 0xe038 k.alt_status es)
    × (k'.caps_lock_status ≡ toggled 0x3a k.caps_lock_status es)

Agrees-cons :
    (k k1 k' : Keyboard) (e : KeyEvent) (es : List KeyEvent)
    → Follows k k1 e
    → Agrees k1 k' es
    → Agrees k k' (e ∷ es)
Agrees-cons k k1 k' e es f (s, c, a, l) = (
  s ∙ ap (λ b. last_down 0x2a 0x36 b es) f.shift,
  c ∙ ap (λ b. last_down 0x1d 0xe01d b es) f.ctrl,
  a ∙ ap (λ b. last_down 0x38 0xe038 b es) f.alt,
  l ∙ ap (λ b. toggled 0x3a b es) f.caps,
)

-- One byte that is no prefix, before the others.
Agrees-code :
    (k : Keyboard) (code byte : ℕ) (bytes : List ℕ)
    → k.ext_scancode ≡ false
    → (code ≡ byte) ⊎ (code ≡ 0xe000 + byte)
    → byte < 2 ^ 8
    → ((k1 : Keyboard)
        → k1.ext_scancode ≡ false
        → Agrees k1 (handle_all k1 bytes) (events false bytes))
    → Agrees k (handle_all (handle_code k code).0 bytes) (
        record { code = if ltb byte 0x80 then code else code - 0x80; down = ltb byte 0x80 }
        ∷ events false bytes)
Agrees-code k code byte bytes plain which small next = elim (Bool-cases (ltb byte 0x80)) [
  | inl low ↦
      let f = handle_code-down k code (ground arith) in
      rw low (
        Agrees-cons k (handle_code k code).0 (handle_all (handle_code k code).0 bytes)
          (record { code = code; down = true }) (events false bytes) f
          (next (handle_code k code).0 (f.ext ∙ plain)))
  | inr high ↦
      let f = handle_code-up k code (ground arith) in
      rw high (
        Agrees-cons k (handle_code k code).0 (handle_all (handle_code k code).0 bytes)
          (record { code = code - 0x80; down = false }) (events false bytes) f
          (next (handle_code k code).0 (f.ext ∙ plain)))
]

-- A byte as the prefix and as a code.
handler_prefix :
    (k : Keyboard) (byte : ℕ)
    → (byte == 0xe0) ≡ true
    → intr_keyboard_handler k byte ≡ (record k { ext_scancode = true }, none)
unfolding intr_keyboard_handler
handler_prefix k byte e = rw e refl

events_prefix :
    (p : Bool) (byte : ℕ) (bytes : List ℕ)
    → (byte == 0xe0) ≡ true
    → events p (byte ∷ bytes) ≡ events true bytes
events_prefix p byte bytes e = rw e refl

abbrev full_code : Bool → ℕ → ℕ
full_code p byte = (if p then 0xe000 else 0) + byte

handler_code :
    (k : Keyboard) (byte : ℕ)
    → (byte == 0xe0) ≡ false
    → intr_keyboard_handler k byte
      ≡ handle_code (record k { ext_scancode = false }) (full_code k.ext_scancode byte)
unfolding intr_keyboard_handler
handler_code k byte e = elim (Bool-cases k.ext_scancode) [
  | inl ext ↦ rw (e, ext) refl
  | inr plain ↦
      let same : byte ≡ 0 + byte = omega arith in
      rw (e, plain) (ap (λ c. handle_code (record k { ext_scancode = false }) c) same)
]

events_code :
    (p : Bool) (byte : ℕ) (bytes : List ℕ)
    → (byte == 0xe0) ≡ false
    → events p (byte ∷ bytes) ≡ (
        record {
          code = if ltb byte 0x80 then full_code p byte else full_code p byte - 0x80;
          down = ltb byte 0x80;
        }
        ∷ events false bytes)
events_code p byte bytes e = rw e refl

full_code-cases :
    (p : Bool) (byte : ℕ) → (full_code p byte ≡ byte) ⊎ (full_code p byte ≡ 0xe000 + byte)
full_code-cases p byte = ground arith

-- Whatever bytes the keyboard sends, shift counts as held exactly if the last event of the two shift
-- keys was a press, ctrl and alt likewise, and caps lock is what it was, negated once for each press
-- of its key.
pub handle_all-events :
    (k : Keyboard) (bytes : List ℕ)
    → AreBytes bytes
    → Agrees k (handle_all k bytes) (events k.ext_scancode bytes)
handle_all-events k [] b = (refl, refl, refl, refl)
handle_all-events k (byte ∷ bytes) b = elim (Bool-cases (byte == 0xe0)) [
  | inl prefix ↦
      subst (Agrees k (handle_all k (byte ∷ bytes)))
        (sym (events_prefix k.ext_scancode byte bytes prefix))
        (subst (λ r. Agrees k (handle_all r.0 bytes) (events true bytes))
          (sym (handler_prefix k byte prefix))
          (handle_all-events (record k { ext_scancode = true }) bytes b.1))
  | inr other ↦
      subst (Agrees k (handle_all k (byte ∷ bytes)))
        (sym (events_code k.ext_scancode byte bytes other))
        (subst
          (λ r. Agrees k (handle_all r.0 bytes) (
            record {
              code =
                  if ltb byte 0x80
                  then full_code k.ext_scancode byte
                  else full_code k.ext_scancode byte - 0x80;
              down = ltb byte 0x80;
            }
            ∷ events false bytes))
          (sym (handler_code k byte other))
          (Agrees-code (record k { ext_scancode = false }) (full_code k.ext_scancode byte) byte
            bytes refl (full_code-cases k.ext_scancode byte) b.0
            (λ k1 plain.
              subst (λ p. Agrees k1 (handle_all k1 bytes) (events p bytes)) plain
                (handle_all-events k1 bytes b.1))))
]
