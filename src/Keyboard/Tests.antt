-- ===== src/Keyboard/Tests.antt =====
-- Runs of the keyboard handler, and the theorems at concrete keys.
use tros.Prelude.{ℕ, ◌≡◌, refl, true, false, some, List, [], ◌∷◌, arith}
use tros.Keyboard.{Keyboard, intr_keyboard_handler}
use tros.Keyboard.History.{events, handle_all, handle_all-events, Agrees}

abbrev idle : Keyboard
idle = record {
  ctrl_status = false;
  shift_status = false;
  alt_status = false;
  caps_lock_status = false;
  ext_scancode = false;
}

-- Right ctrl down, caps lock down and up, right ctrl up, left shift down.
abbrev keys : List ℕ
keys = 0xe0 ∷ 0x1d ∷ 0x3a ∷ 0xba ∷ 0xe0 ∷ 0x9d ∷ 0x2a ∷ []

after_keys : handle_all idle keys ≡ record {
  ctrl_status = false;
  shift_status = true;
  alt_status = false;
  caps_lock_status = true;
  ext_scancode = false;
}
unfolding intr_keyboard_handler
after_keys = refl

-- A press of the key with 2 and @, with shift.
at_sign : (intr_keyboard_handler (record idle { shift_status = true }) 0x03).1 ≡ some 64
unfolding intr_keyboard_handler
at_sign = refl

handle_all-events_example : Agrees idle (handle_all idle keys) (events false keys)
handle_all-events_example = handle_all-events idle keys (
  omega arith,
  (omega arith, (omega arith, (omega arith, (omega arith, (omega arith, (omega arith, tt)))))),
)
