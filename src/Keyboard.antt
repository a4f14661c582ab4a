-- ===== src/Keyboard.antt =====
-- kernel/drivers/keyboard/keyboard.c: scancode decoding with the modifier state, and the event ring.
-- The byte that `inb(0x60)` reads is an argument of the handler.
mod Tables
pub mod Decode
pub mod Read
mod Tests
use eclipse32_gui.Base.{
  ℕ, zero, suc, ◌+◌, ◌-◌, ◌*◌, ◌/◌, ◌%◌, Bool, true, false, not, ◌&&◌, ◌||◌, Option, none, some,
  List, [], ◌∷◌, if◌then◌else◌, ◌==◌, ltb, leb, get_or, replicate,
}
use eclipse32_gui.Ring.{Ring, push, pop, has_event}
pub use Tables.{
  KeyCode, unknown, ascii, up, down, left, right, home, end_key, pgup, pgdn, insert, delete, f1, f2,
  f3, f4, f5, f6, f7, f8, f9, f10, f11, f12, esc, tab, backspace, enter, is_ascii,
}
unfoldable pub use Tables.{extended_key, fkey, sc_normal, sc_shifted}

-- `key_event_t`
pub record KeyEvent : Type 0 where
  pub keycode : KeyCode
  pub char : ℕ
  pub released : Bool
  pub shift : Bool
  pub ctrl : Bool
  pub alt : Bool
  pub caps : Bool

abbrev pub empty_event : KeyEvent
empty_event = record {
  keycode = unknown;
  char = 0;
  released = false;
  shift = false;
  ctrl = false;
  alt = false;
  caps = false;
}

-- The modifier state.
pub record Modifiers : Type 0 where
  pub shift_held : Bool
  pub ctrl_held : Bool
  pub alt_held : Bool
  pub caps_lock : Bool
  pub extended : Bool

pub record Keyboard : Type 0 where
  pub mods : Modifiers
  pub queue : Ring KeyEvent

abbrev pub key_buf_size : ℕ
key_buf_size = 256

abbrev xor : Bool → Bool → Bool
xor true b = not b
xor false b = b

-- The character of a regular key: table, then the two tests of the ctrl modifier.
unfoldable pub key_char : Modifiers → ℕ → ℕ
key_char m sc =
    let c =
      if xor m.shift_held m.caps_lock then get_or sc_shifted sc 0 else get_or sc_normal sc 0 in
    let c' = if m.ctrl_held && leb b'a' c && leb c b'z' then c - 96 else c in
    if m.ctrl_held && leb b'A' c' && leb c' b'Z' then c' - 64 else c'

-- The event that a key makes, of the scancode without its top bit.
unfoldable pub make_event : Modifiers → KeyCode → ℕ → Bool → KeyEvent
make_event m k c key_up = record {
  keycode = k;
  char = c;
  released = key_up;
  shift = m.shift_held;
  ctrl = m.ctrl_held;
  alt = m.alt_held;
  caps = m.caps_lock;
}

-- The keys behind the E0 prefix; `none` where the handler returns before the queue.
unfoldable pub decode_extended : Modifiers → ℕ → Bool → Modifiers × Option KeyEvent
unfolding make_event
decode_extended m sc key_up =
    if sc == 0x1d
    then (record m { extended = false; ctrl_held = not key_up }, none)
    else if sc == 0x38
    then (record m { extended = false; alt_held = not key_up }, none)
    else (record m { extended = false }, some (make_event m (extended_key sc) 0 key_up))

unfoldable pub decode_regular : Modifiers → ℕ → Bool → Modifiers × Option KeyEvent
unfolding make_event
decode_regular m sc key_up =
    if sc == 0x2a || sc == 0x36
    then (record m { shift_held = not key_up }, none)
    else if sc == 0x1d
    then (record m { ctrl_held = not key_up }, none)
    else if sc == 0x38
    then (record m { alt_held = not key_up }, none)
    else if sc == 0x3a
    then ((if not key_up then record m { caps_lock = not m.caps_lock } else m), none)
    else if leb 0x3b sc && leb sc 0x44
    then (m, some (make_event m (fkey (sc - 0x3b)) 0 key_up))
    else if sc == 0x57
    then (m, some (make_event m f11 0 key_up))
    else if sc == 0x58
    then (m, some (make_event m f12 0 key_up))
    else (m, some (make_event m ascii (key_char m sc) key_up))

-- The handler up to the queue: the byte's top bit says that the key goes up.
unfoldable pub decode : Modifiers → ℕ → Modifiers × Option KeyEvent
unfolding decode_extended decode_regular
decode m byte =
    if byte == 0xe0
    then (record m { extended = true }, none)
    else if m.extended
    then decode_extended m (byte % 128) (leb 128 byte)
    else decode_regular m (byte % 128) (leb 128 byte)

-- Only presses, and all events of keys that are no characters, are queued.
unfoldable pub enqueue_event : Ring KeyEvent → Option KeyEvent → Ring KeyEvent
unfolding push
enqueue_event q none = q
enqueue_event q (some ev) =
    if not ev.released || not (is_ascii ev.keycode) then push key_buf_size q ev else q

unfoldable pub keyboard_handler : Keyboard → ℕ → Keyboard
unfolding decode enqueue_event
keyboard_handler k byte =
    let (m, ev) = decode k.mods byte in record { mods = m; queue = enqueue_event k.queue ev }

unfoldable pub keyboard_has_event : Keyboard → Bool
unfolding has_event
keyboard_has_event k = has_event key_buf_size k.queue

unfoldable pub keyboard_get_event : Keyboard → KeyEvent × Keyboard
unfolding pop
keyboard_get_event k =
    let (ev, q) = pop key_buf_size empty_event k.queue in (ev, record k { queue = q })

-- `keyboard_getchar` over the events at hand: `none` is where it halts and waits for an interrupt.
-- The fuel is the number of events that may be looked at.
unfoldable pub getchar_loop : ℕ → Ring KeyEvent → Option ℕ × Ring KeyEvent
unfolding pop has_event
getchar_loop zero q = (none, q)
getchar_loop (suc n) q =
    let (ev, q') = pop key_buf_size empty_event q in
    let rest = getchar_loop n q' in
    if not (has_event key_buf_size q)
    then (none, q)
    else if ev.released
    then rest
    else if is_ascii ev.keycode && not (ev.char == 0)
    then (some ev.char, q')
    else rest

unfoldable pub keyboard_getchar : Keyboard → Option ℕ × Keyboard
unfolding getchar_loop
keyboard_getchar k = let (c, q) = getchar_loop key_buf_size k.queue in (c, record k { queue = q })
