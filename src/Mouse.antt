-- ===== src/Mouse.antt =====
-- kernel/drivers/mouse/mouse.c: packet assembly, the cursor position and the event ring. The byte
-- that `inb` reads is an argument of the interrupt handler; the end-of-interrupt command is left out.
pub mod Laws
mod Tests
use eclipse32_gui.Base.{
  ℕ, zero, suc, ◌+◌, ◌-◌, ◌/◌, ◌%◌, Bool, true, false, not, ◌&&◌, ◌||◌, List, if◌then◌else◌, ◌==◌,
  ltb, get_or, set,
}
use eclipse32_gui.Base.Int.{ℤ, pos, negsuc, ◌+ℤ◌, ◌-ℤ◌, ltb_ℤ}
use eclipse32_gui.Ring.{Ring, push, pop, has_event}

-- `mouse_event_t`
pub record MouseEvent : Type 0 where
  pub dx : ℤ
  pub dy : ℤ
  pub btn_left : Bool
  pub btn_right : Bool
  pub btn_middle : Bool

-- The file's static variables.
pub record Mouse : Type 0 where
  pub screen_w : ℕ
  pub screen_h : ℕ
  pub x : ℤ
  pub y : ℤ
  pub left : Bool
  pub right : Bool
  pub mid : Bool
  pub packet : List ℕ
  pub byte_idx : ℕ
  pub queue : Ring MouseEvent

abbrev pub mouse_queue_size : ℕ
mouse_queue_size = 64

-- `byte & (1 << k)`, for the weight `2 ^ k`.
abbrev pub flag : ℕ → ℕ → Bool
flag byte weight = (byte / weight) % 2 == 1

-- `(int32_t)(int8_t)byte`
unfoldable pub int8 : ℕ → ℤ
int8 b = if ltb b 128 then pos b else negsuc (255 - b)

-- The two tests that keep a coordinate on the screen.
unfoldable pub clamp : ℕ → ℤ → ℤ
clamp size v =
    let v' = if ltb_ℤ v (pos 0) then pos 0 else v in
    if not (ltb_ℤ v' (pos size)) then pos size -ℤ pos 1 else v'

-- The motion and the buttons of a full packet.
unfoldable pub apply_packet : Mouse → ℕ → ℤ → ℤ → Mouse
unfolding clamp push
apply_packet s flags dx dy = record s {
  x = clamp s.screen_w (s.x +ℤ dx);
  y = clamp s.screen_h (s.y +ℤ dy);
  left = flag flags 1;
  right = flag flags 2;
  mid = flag flags 4;
  queue = push mouse_queue_size s.queue (record {
    dx = dx;
    dy = dy;
    btn_left = flag flags 1;
    btn_right = flag flags 2;
    btn_middle = flag flags 4;
  });
}

-- The handler once the third byte is in.
unfoldable pub full_packet : Mouse → Mouse
unfolding int8 apply_packet
full_packet s =
    let flags = get_or s.packet 0 0 in
    let dx = int8 (get_or s.packet 1 0) in
    let dy = pos 0 -ℤ int8 (get_or s.packet 2 0) in
    if flag flags 0x40 || flag flags 0x80 then s else apply_packet s flags dx dy

unfoldable pub mouse_irq_handler : Mouse → ℕ → Mouse
unfolding full_packet
mouse_irq_handler s byte =
    if s.byte_idx == 0 && not (flag byte 8)
    then s
    else let packet' = set s.packet s.byte_idx byte in
      if s.byte_idx + 1 == 3
      then full_packet (record s { packet = packet'; byte_idx = 0 })
      else record s { packet = packet'; byte_idx = s.byte_idx + 1 }

abbrev pub empty_event : MouseEvent
empty_event = record {
  dx = pos 0;
  dy = pos 0;
  btn_left = false;
  btn_right = false;
  btn_middle = false;
}

unfoldable pub mouse_has_event : Mouse → Bool
unfolding has_event
mouse_has_event s = has_event mouse_queue_size s.queue

unfoldable pub mouse_get_event : Mouse → MouseEvent × Mouse
unfolding pop
mouse_get_event s =
    let (ev, q) = pop mouse_queue_size empty_event s.queue in (ev, record s { queue = q })
