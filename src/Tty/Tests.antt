-- ===== src/Tty/Tests.antt =====
-- Runs of the line discipline.
use tros.Prelude.{false, ◌≡◌, refl, [], ◌∷◌, ◌-◌, ◌^◌}
use tros.Tty.{NTtyData, show_char, receive_char, edit}

abbrev opened : NTtyData
opened = record {
  buffer = record { buf = λ i. 0; head = 0; tail = 0; closed = false };
  line_buf = λ i. 0;
  line_size = 0;
  ctrl = 0;
}

-- A backspace on an empty line.
backspace_empty : (edit opened 8).0.line_size ≡ 2 ^ 32 - 1
unfolding edit
backspace_empty = refl

-- A carriage return is shown as a line feed.
return_shown : (receive_char opened 13).0 ≡ show_char 10 ∷ []
unfolding receive_char
return_shown = refl
