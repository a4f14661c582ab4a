-- ===== src/Mouse/Laws.antt =====
-- The cursor of kernel/drivers/mouse/mouse.c stays on the screen, and a full packet moves it.
use eclipse32_gui.Base.{
  ℕ, ◌+◌, ◌-◌, ◌/◌, ◌%◌, ◌^◌, ltb, ◌⊎◌, false, ◌<◌, ◌≡◌, refl, Bool, true, not, ◌&&◌, ◌||◌, [], ◌∷◌,
  if◌then◌else◌, ◌==◌, get_or, set, length, length-set, arith, Bool-cases, inl, inr,
}
use eclipse32_gui.Base.Int.{ℤ, pos, ◌+ℤ◌, ◌-ℤ◌, ◌≤ℤ◌}
use eclipse32_gui.Ring.Refine.{IsRing, contents, enqueue, push_refines, push-IsRing}
use eclipse32_gui.Mouse.{
  Mouse, MouseEvent, flag, int8, clamp, apply_packet, full_packet, mouse_irq_handler, empty_event,
}

-- The coordinate names a column or row of the screen.
abbrev pub OnScreen : ℕ → ℤ → Type 0
OnScreen size v = (pos 0 ≤ℤ v) × (v +ℤ pos 1 ≤ℤ pos size)

pub record IsValid (s : Mouse) : Type 0 where
  pub wide : 0 < s.screen_w
  pub high : 0 < s.screen_h
  pub x_in : OnScreen s.screen_w s.x
  pub y_in : OnScreen s.screen_h s.y
  pub assembling : s.byte_idx < 3
  pub packet_size : length s.packet ≡ 3
  pub queue_in : IsRing 64 empty_event s.queue

clamp-OnScreen : (size : ℕ) (v : ℤ) → 0 < size → OnScreen size (clamp size v)
unfolding clamp ◌+ℤ◌ ◌-ℤ◌
clamp-OnScreen size v h = ground arith

apply_packet-IsValid :
    (s : Mouse) (flags : ℕ) (dx dy : ℤ) → IsValid s → IsValid (apply_packet s flags dx dy)
unfolding apply_packet
apply_packet-IsValid s flags dx dy v = record {
  wide = v.wide;
  high = v.high;
  x_in = clamp-OnScreen s.screen_w (s.x +ℤ dx) v.wide;
  y_in = clamp-OnScreen s.screen_h (s.y +ℤ dy) v.high;
  assembling = v.assembling;
  packet_size = v.packet_size;
  queue_in = push-IsRing 64 empty_event s.queue (event flags dx dy) v.queue_in;
}
  where
    event : ℕ → ℤ → ℤ → MouseEvent
    event flags dx dy = record {
      dx = dx;
      dy = dy;
      btn_left = flag flags 1;
      btn_right = flag flags 2;
      btn_middle = flag flags 4;
    }

full_packet-IsValid : (s : Mouse) → IsValid s → IsValid (full_packet s)
unfolding full_packet
full_packet-IsValid s v =
    elim (Bool-cases (flag (get_or s.packet 0 0) 0x40 || flag (get_or s.packet 0 0) 0x80)) [
      | inl e ↦ rw e v
      | inr e ↦ rw e (
          apply_packet-IsValid s (get_or s.packet 0 0) (int8 (get_or s.packet 1 0))
            (pos 0 -ℤ int8 (get_or s.packet 2 0)) v)
    ]

-- Whatever byte arrives, the interrupt handler keeps the cursor on the screen, the packet index
-- below 3 and the event ring in order.
pub mouse_irq_handler-IsValid :
    (s : Mouse) (byte : ℕ) → IsValid s → IsValid (mouse_irq_handler s byte)
unfolding mouse_irq_handler
mouse_irq_handler-IsValid s byte v = elim (Bool-cases (s.byte_idx == 0 && not (flag byte 8))) [
  | inl e ↦ rw e v
  | inr e ↦ rw e (elim (Bool-cases (s.byte_idx + 1 == 3)) [
    | inl t ↦ rw t (
        full_packet-IsValid (record s { packet = set s.packet s.byte_idx byte; byte_idx = 0 })
          (record {
            wide = v.wide;
            high = v.high;
            x_in = v.x_in;
            y_in = v.y_in;
            assembling = omega arith;
            packet_size = omega (arith, length-set s.packet s.byte_idx byte, v.packet_size);
            queue_in = v.queue_in;
          }))
    | inr t ↦ rw t (record {
      wide = v.wide;
      high = v.high;
      x_in = v.x_in;
      y_in = v.y_in;
      assembling = ground (arith, v.assembling);
      packet_size = omega (arith, length-set s.packet s.byte_idx byte, v.packet_size);
      queue_in = v.queue_in;
    })
  ])
]

-- Bit `k` of a byte.
abbrev pub bit : ℕ → ℕ → Bool
bit byte k = byte / 2 ^ k % 2 == 1

-- A byte as a number of 8 bits with a sign.
abbrev pub signed : ℕ → ℤ
signed byte = if ltb byte 128 then pos byte else pos byte -ℤ pos 256

-- The place on a line of `size` points that is nearest to `v`.
abbrev pub IsNearest : ℕ → ℤ → ℤ → Type 0
IsNearest size v r =
    ((r ≡ v) × OnScreen size v)
    ⊎ ((r ≡ pos 0) × (v +ℤ pos 1 ≤ℤ pos 0))
    ⊎ ((r ≡ pos (size - 1)) × (pos size ≤ℤ v))

-- The handler on three bytes.
abbrev pub three_bytes : Mouse → ℕ → ℕ → ℕ → Mouse
three_bytes s b0 b1 b2 = mouse_irq_handler (mouse_irq_handler (mouse_irq_handler s b0) b1) b2

-- What a packet tells.
abbrev pub told : ℕ → ℕ → ℕ → MouseEvent
told b0 b1 b2 = record {
  dx = signed b1;
  dy = pos 0 -ℤ signed b2;
  btn_left = bit b0 0;
  btn_right = bit b0 1;
  btn_middle = bit b0 2;
}

-- The state `t` after a packet in the state `s`.
abbrev pub IsMoved : Mouse → ℕ → ℕ → ℕ → Mouse → Type 0
IsMoved s b0 b1 b2 t =
    IsNearest s.screen_w (s.x +ℤ signed b1) t.x
    × IsNearest s.screen_h (s.y +ℤ (pos 0 -ℤ signed b2)) t.y
    × (t.left ≡ bit b0 0)
    × (t.right ≡ bit b0 1)
    × (t.mid ≡ bit b0 2)
    × (contents 64 empty_event t.queue
        ≡ enqueue 64 empty_event (contents 64 empty_event s.queue) (told b0 b1 b2))

-- A coordinate that stays on the screen is kept; one that leaves it stops at the edge it crossed.
pub clamp_lem :
    (size : ℕ) (v : ℤ)
    → 0 < size
    → (OnScreen size v → clamp size v ≡ v)
      × (v +ℤ pos 1 ≤ℤ pos 0 → clamp size v ≡ pos 0)
      × (pos size ≤ℤ v → clamp size v ≡ pos (size - 1))
unfolding clamp ◌+ℤ◌ ◌-ℤ◌
clamp_lem size v h = (λ o. ground arith, λ o. ground arith, λ o. ground arith)

-- On a driver whose ring is in order, a packet's event goes behind those that wait, unless 63 wait;
-- then it is lost.
pub apply_packet_queues :
    (s : Mouse) (flags : ℕ) (dx dy : ℤ)
    → IsRing 64 empty_event s.queue
    → contents 64 empty_event (apply_packet s flags dx dy).queue
      ≡ enqueue 64 empty_event (contents 64 empty_event s.queue) (record {
        dx = dx;
        dy = dy;
        btn_left = flag flags 1;
        btn_right = flag flags 2;
        btn_middle = flag flags 4;
      })
unfolding apply_packet
apply_packet_queues s flags dx dy v = push_refines 64 empty_event s.queue _ v

int8_lem : (b : ℕ) → b < 256 → int8 b ≡ signed b
unfolding int8 ◌-ℤ◌
int8_lem b h = ground (arith, h)

clamp-IsNearest : (size : ℕ) (v : ℤ) → 0 < size → IsNearest size v (clamp size v)
unfolding clamp ◌+ℤ◌ ◌-ℤ◌
clamp-IsNearest size v h = ground (arith, h)

apply_packet-IsMoved :
    (s : Mouse) (b0 b1 b2 : ℕ)
    → IsValid s
    → IsMoved s b0 b1 b2 (apply_packet s b0 (signed b1) (pos 0 -ℤ signed b2))
unfolding apply_packet
apply_packet-IsMoved s b0 b1 b2 v = (
  clamp-IsNearest s.screen_w (s.x +ℤ signed b1) v.wide,
  clamp-IsNearest s.screen_h (s.y +ℤ (pos 0 -ℤ signed b2)) v.high,
  refl,
  refl,
  refl,
  apply_packet_queues s b0 (signed b1) (pos 0 -ℤ signed b2) v.queue_in,
)

-- The packet is complete, and nothing else of the state has changed.
abbrev pub seen : Mouse → ℕ → ℕ → ℕ → Mouse
seen s b0 b1 b2 = record s { packet = b0 ∷ b1 ∷ b2 ∷ []; byte_idx = 0 }

seen-IsValid : (s : Mouse) (b0 b1 b2 : ℕ) → IsValid s → IsValid (seen s b0 b1 b2)
seen-IsValid s b0 b1 b2 v = record {
  wide = v.wide;
  high = v.high;
  x_in = v.x_in;
  y_in = v.y_in;
  assembling = omega arith;
  packet_size = refl;
  queue_in = v.queue_in;
}

three_bytes_cases :
    (s : Mouse) (p0 p1 p2 b0 b1 b2 : ℕ)
    → s.byte_idx ≡ 0
    → s.packet ≡ p0 ∷ p1 ∷ p2 ∷ []
    → bit b0 3 ≡ true
    → three_bytes s b0 b1 b2 ≡ (
        if bit b0 6 || bit b0 7
        then seen s b0 b1 b2
        else apply_packet (seen s b0 b1 b2) b0 (int8 b1) (pos 0 -ℤ int8 b2))
unfolding mouse_irq_handler full_packet
three_bytes_cases s p0 p1 p2 b0 b1 b2 i p f = rw (i, p, f) refl

abbrev pub Told : Bool → Mouse → ℕ → ℕ → ℕ → Mouse → Type 0
Told true s b0 b1 b2 t = t ≡ seen s b0 b1 b2
Told false s b0 b1 b2 t = IsMoved s b0 b1 b2 t

-- In a driver that is in order and between packets, three bytes, the second and the third below 256, of
-- which the first has bit 3 set are one packet. With bit 6 or 7 of the first, an overflow, nothing but the stored packet changes.
-- Otherwise each coordinate becomes the place on the screen that is nearest to where the motion leads,
-- by the second byte to the right and by the third upwards, as numbers of 8 bits with a sign; the left,
-- right and middle button are bits 0, 1 and 2 of the first; and the event goes behind those that wait,
-- unless the ring is full.
pub three_bytes_lem :
    (s : Mouse) (p0 p1 p2 b0 b1 b2 : ℕ)
    → IsValid s
    → s.byte_idx ≡ 0
    → s.packet ≡ p0 ∷ p1 ∷ p2 ∷ []
    → b1 < 256
    → b2 < 256
    → bit b0 3 ≡ true
    → Told (bit b0 6 || bit b0 7) s b0 b1 b2 (three_bytes s b0 b1 b2)
three_bytes_lem s p0 p1 p2 b0 b1 b2 v i p h1 h2 f =
    let whole = three_bytes_cases s p0 p1 p2 b0 b1 b2 i p f in
    elim (Bool-cases (bit b0 6 || bit b0 7)) [
      | inl e ↦ rw (whole, e) refl
      | inr e ↦
          rw (whole, e, int8_lem b1 h1, int8_lem b2 h2)
            (apply_packet-IsMoved (seen s b0 b1 b2) b0 b1 b2 (seen-IsValid s b0 b1 b2 v))
    ]
