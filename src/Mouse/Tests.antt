-- ===== src/Mouse/Tests.antt =====
-- Runs of the driver of kernel/drivers/mouse/mouse.c, and its theorems at the fresh driver.
use eclipse32_gui.Base.{◌≡◌, refl, false, [], ◌∷◌, arith, replicate}
use eclipse32_gui.Base.Int.{pos, ◌+ℤ◌, ◌-ℤ◌}
use eclipse32_gui.Mouse.{Mouse, empty_event, mouse_irq_handler}
use eclipse32_gui.Mouse.Laws.{IsValid, IsMoved, three_bytes, three_bytes_lem}

-- The file's initial values.
abbrev fresh : Mouse
fresh = record {
  screen_w = 1024;
  screen_h = 768;
  x = pos 512;
  y = pos 384;
  left = false;
  right = false;
  mid = false;
  packet = 0 ∷ 0 ∷ 0 ∷ [];
  byte_idx = 0;
  queue = record { buf = replicate 64 empty_event; rd = 0; wr = 0 };
}

fresh-IsValid : IsValid fresh
unfolding ◌+ℤ◌
fresh-IsValid = omega arith

moves_left_and_up : (three_bytes fresh 9 254 3).x ≡ pos 510
unfolding mouse_irq_handler ◌+ℤ◌ ◌-ℤ◌
moves_left_and_up = refl

three_bytes_lem_example : IsMoved fresh 9 254 3 (three_bytes fresh 9 254 3)
three_bytes_lem_example =
    three_bytes_lem fresh 0 0 0 9 254 3 fresh-IsValid refl refl (omega arith) (omega arith) refl
