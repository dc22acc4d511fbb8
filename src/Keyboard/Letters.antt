-- ===== src/Keyboard/Letters.antt =====
-- What the letter keys of src/device/keyboard.c send, under every combination of shift, caps lock and
-- ctrl.
use tros.Prelude.{
  ℕ, ◌+◌, ◌<◌, ◌≡◌, refl, sym, Bool, true, false, not, ◌&&◌, ◌||◌, Option, none, some, List, [],
  ◌∷◌, arith, ◌==◌, if◌then◌else◌, get_or, every, every_lem,
}
use mathlib.Core.Path.{subst}
use tros.Keyboard.{Keyboard, intr_keyboard_handler}

-- The make code of each letter, from a to z.
abbrev pub letter_codes : List ℕ
letter_codes =
    0x1e ∷ 0x30 ∷ 0x2e ∷ 0x20 ∷ 0x12 ∷ 0x21 ∷ 0x22 ∷ 0x23 ∷ 0x17 ∷ 0x24 ∷ 0x25 ∷ 0x26 ∷ 0x32 ∷ 0x31
    ∷ 0x18 ∷ 0x19 ∷ 0x10 ∷ 0x13 ∷ 0x1f ∷ 0x14 ∷ 0x16 ∷ 0x2f ∷ 0x11 ∷ 0x2d ∷ 0x15 ∷ 0x2c ∷ []

abbrev pub letter_code : ℕ → ℕ
letter_code n = get_or letter_codes n 0

-- The character that a letter should give: control characters from 1 on under ctrl, a capital if
-- exactly one of shift and caps lock is on.
abbrev pub letter : (ctrl shift caps : Bool) → ℕ → ℕ
letter ctrl shift caps n =
    if ctrl then 1 + n else (if (shift || caps) && not (shift && caps) then 65 else 97) + n

eq_char : Option ℕ → ℕ → Bool
eq_char none c = false
eq_char (some d) c = d == c

eq_char_sound : (o : Option ℕ) (c : ℕ) → eq_char o c ≡ true → o ≡ some c
unfolding eq_char
eq_char_sound none c e = absurd (ground arith)
eq_char_sound (some d) c e = let e' : d ≡ c = ground arith in rw e'

abbrev keyboard : (ctrl shift alt caps : Bool) → Keyboard
keyboard ctrl shift alt caps = record {
  ctrl_status = ctrl;
  shift_status = shift;
  alt_status = alt;
  caps_lock_status = caps;
  ext_scancode = false;
}

sends : (ctrl shift alt caps : Bool) → ℕ → Bool
unfolding eq_char
sends ctrl shift alt caps n =
    eq_char (intr_keyboard_handler (keyboard ctrl shift alt caps) (letter_code n)).1
      (letter ctrl shift caps n)

sends_table : (ctrl shift alt caps : Bool) → every 26 (sends ctrl shift alt caps) ≡ true
unfolding every sends intr_keyboard_handler
sends_table true true alt true = refl
sends_table true true alt false = refl
sends_table true false alt true = refl
sends_table true false alt false = refl
sends_table false true alt true = refl
sends_table false true alt false = refl
sends_table false false alt true = refl
sends_table false false alt false = refl

-- When no prefix is pending, the press of the n-th letter key sends the n-th control character under
-- ctrl, and otherwise the n-th letter, a capital if exactly one of shift and caps lock is on.
pub intr_keyboard_handler-letter :
    (k : Keyboard) (n : ℕ)
    → k.ext_scancode ≡ false
    → n < 26
    → (intr_keyboard_handler k (letter_code n)).1
      ≡ some (letter k.ctrl_status k.shift_status k.caps_lock_status n)
unfolding sends
intr_keyboard_handler-letter k n plain lt =
    let k1 = keyboard k.ctrl_status k.shift_status k.alt_status k.caps_lock_status in
    let same : k1 ≡ k = λ i. record k { ext_scancode = sym plain i } in
    subst
      (λ k.
        (intr_keyboard_handler k (letter_code n)).1
        ≡ some (letter k.ctrl_status k.shift_status k.caps_lock_status n))
      same
      (eq_char_sound (intr_keyboard_handler k1 (letter_code n)).1
        (letter k.ctrl_status k.shift_status k.caps_lock_status n)
        (every_lem 26 (sends k.ctrl_status k.shift_status k.alt_status k.caps_lock_status) n lt
          (sends_table k.ctrl_status k.shift_status k.alt_status k.caps_lock_status)))
