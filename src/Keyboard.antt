-- ===== src/Keyboard.antt =====
-- src/device/keyboard.c: the interrupt handler of the keyboard, from scan codes to characters.
-- Masks are written as divisions; `0xe000 | scancode` is a sum, since the code of the port is a byte.
pub mod History
pub mod Letters
mod Tests
use tros.Prelude.{
  ℕ, ◌+◌, ◌-◌, ◌/◌, ◌%◌, ◌^◌, Bool, true, false, not, ◌&&◌, ◌||◌, Option, none, some, List, [], ◌∷◌,
  ltb, leb, ◌==◌, if◌then◌else◌, get_or,
}

-- The characters of a make code, without and with shift, by their numbers.
abbrev pub keymap : List (ℕ × ℕ)
keymap =
    (0, 0)
    ∷ (27, 27)
    ∷ (49, 33)
    ∷ (50, 64)
    ∷ (51, 35)
    ∷ (52, 36)
    ∷ (53, 37)
    ∷ (54, 94)
    ∷ (55, 38)
    ∷ (56, 42)
    ∷ (57, 40)
    ∷ (48, 41)
    ∷ (45, 95)
    ∷ (61, 43)
    ∷ (8, 8)
    ∷ (9, 9)
    ∷ (113, 81)
    ∷ (119, 87)
    ∷ (101, 69)
    ∷ (114, 82)
    ∷ (116, 84)
    ∷ (121, 89)
    ∷ (117, 85)
    ∷ (105, 73)
    ∷ (111, 79)
    ∷ (112, 80)
    ∷ (91, 123)
    ∷ (93, 125)
    ∷ (13, 13)
    ∷ (0, 0)
    ∷ (97, 65)
    ∷ (115, 83)
    ∷ (100, 68)
    ∷ (102, 70)
    ∷ (103, 71)
    ∷ (104, 72)
    ∷ (106, 74)
    ∷ (107, 75)
    ∷ (108, 76)
    ∷ (59, 58)
    ∷ (39, 34)
    ∷ (96, 126)
    ∷ (0, 0)
    ∷ (92, 124)
    ∷ (122, 90)
    ∷ (120, 88)
    ∷ (99, 67)
    ∷ (118, 86)
    ∷ (98, 66)
    ∷ (110, 78)
    ∷ (109, 77)
    ∷ (44, 60)
    ∷ (46, 62)
    ∷ (47, 63)
    ∷ (0, 0)
    ∷ (42, 42)
    ∷ (0, 0)
    ∷ (32, 32)
    ∷ (0, 0)
    ∷ []

-- The statics of keyboard.c.
pub record Keyboard : Type 0 where
  pub ctrl_status : Bool
  pub shift_status : Bool
  pub alt_status : Bool
  pub caps_lock_status : Bool
  pub ext_scancode : Bool

-- ctrl_l_make, ctrl_r_make
abbrev pub is_ctrl : ℕ → Bool
is_ctrl code = (code == 0x1d) || (code == 0xe01d)

-- shift_l_make, shift_r_make
abbrev pub is_shift : ℕ → Bool
is_shift code = (code == 0x2a) || (code == 0x36)

-- alt_l_make, alt_r_make
abbrev pub is_alt : ℕ → Bool
is_alt code = (code == 0x38) || (code == 0xe038)

abbrev pub caps_lock_make : ℕ
caps_lock_make = 0x3a

-- The branch for a break code, with the make code of the key.
abbrev pub released : Keyboard → (make_code : ℕ) → Keyboard
released k make_code =
    if is_ctrl make_code
    then record k { ctrl_status = false }
    else if is_shift make_code
    then record k { shift_status = false }
    else if is_alt make_code
    then record k { alt_status = false }
    else k

-- The keys with two characters.
abbrev pub has_two_chars : ℕ → Bool
has_two_chars code =
    ltb code 0x0e
    || (code == 0x29)
    || (code == 0x1a)
    || (code == 0x1b)
    || (code == 0x2b)
    || (code == 0x27)
    || (code == 0x28)
    || (code == 0x33)
    || (code == 0x34)
    || (code == 0x35)

abbrev pub with_shift : Keyboard → (code : ℕ) → Bool
with_shift k code =
    if has_two_chars code
    then k.shift_status
    else if k.shift_status && k.caps_lock_status
    then false
    else k.shift_status || k.caps_lock_status

-- `keymap[index][shift]`
unfoldable pub key_char : (index : ℕ) → (shift : Bool) → ℕ
key_char index shift = let row = get_or keymap index (0, 0) in if shift then row.1 else row.0

-- The character that is passed on, if any, under ctrl.
unfoldable pub ctrl_char : (cur_char : ℕ) → Option ℕ
ctrl_char cur_char =
    let upper = if leb 97 cur_char && leb cur_char 122 then cur_char - 0x20 else cur_char in
    if leb 65 upper && ltb upper 97 then some (upper - 0x40) else none

-- The record of a key without a character.
abbrev pub pressed : Keyboard → (code : ℕ) → Keyboard
pressed k code =
    if is_ctrl code
    then record k { ctrl_status = true }
    else if is_shift code
    then record k { shift_status = true }
    else if is_alt code
    then record k { alt_status = true }
    else if code == caps_lock_make
    then record k { caps_lock_status = not k.caps_lock_status }
    else k

-- What a key does whose character is `cur_char`.
unfoldable pub emit : Keyboard → (scancode cur_char : ℕ) → Keyboard × Option ℕ
unfolding ctrl_char
emit k scancode cur_char =
    if not (cur_char == 0)
    then (k, if k.ctrl_status then ctrl_char cur_char else some cur_char)
    else (pressed k (scancode % 2 ^ 8), none)

abbrev pub is_handled : (scancode : ℕ) → Bool
is_handled scancode =
    (ltb 0 scancode && ltb scancode 0x3b) || (scancode == 0xe038) || (scancode == 0xe01d)

-- The branch for a make code.
unfoldable pub make : Keyboard → (scancode : ℕ) → Keyboard × Option ℕ
unfolding key_char emit
make k scancode =
    if is_handled scancode
    then emit k scancode (key_char (scancode % 2 ^ 8) (with_shift k scancode))
    else (k, none)

-- A scan code with its prefix.
unfoldable pub handle_code : Keyboard → (scancode : ℕ) → Keyboard × Option ℕ
unfolding make
handle_code k scancode =
    if not (scancode / 2 ^ 7 % 2 == 0)
    then (released k (scancode - 2 ^ 7), none)
    else make k scancode

-- `byte` is what `inb` reads; the character, if any, is what `tty_data_arrived` is given.
unfoldable pub intr_keyboard_handler : Keyboard → (byte : ℕ) → Keyboard × Option ℕ
unfolding handle_code
intr_keyboard_handler k byte =
    if byte == 0xe0
    then (record k { ext_scancode = true }, none)
    else if k.ext_scancode
    then handle_code (record k { ext_scancode = false }) (0xe000 + byte)
    else handle_code k byte
