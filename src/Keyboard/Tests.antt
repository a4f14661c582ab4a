-- ===== src/Keyboard/Tests.antt =====
-- Runs of the driver of kernel/drivers/keyboard/keyboard.c, and its theorems at a fresh keyboard.
use eclipse32_gui.Base.{ℕ, ◌≡◌, refl, false, none, some, List, [], ◌∷◌, arith, replicate}
use eclipse32_gui.Ring.Trace.{arrive, ask, take, run, run_queue, run_refines}
use eclipse32_gui.Keyboard.{
  Keyboard, Modifiers, empty_event, up, sc_normal, sc_shifted, key_char, extended_key, fkey, decode,
  keyboard_handler, keyboard_get_event, keyboard_getchar,
}
use eclipse32_gui.Keyboard.Read.{IsQueue, events, add_event, keyboard_handler_refines}

abbrev idle_mods : Modifiers
idle_mods = record {
  shift_held = false;
  ctrl_held = false;
  alt_held = false;
  caps_lock = false;
  extended = false;
}

abbrev fresh : Keyboard
fresh = record {
  mods = idle_mods;
  queue = record { buf = replicate 256 empty_event; rd = 0; wr = 0 };
}

fresh-IsQueue : IsQueue fresh
fresh-IsQueue = omega arith

abbrev type_keys : Keyboard → List ℕ → Keyboard
type_keys k [] = k
type_keys k (b ∷ bs) = type_keys (keyboard_handler k b) bs

-- Shift down, `a` down and up, shift up, then the up arrow.
typed :
    (keyboard_getchar (type_keys fresh (0x2a ∷ 0x1e ∷ 0x9e ∷ 0xaa ∷ 0xe0 ∷ 0x48 ∷ []))).0
    ≡ some b'A'
unfolding keyboard_getchar keyboard_handler key_char sc_normal sc_shifted extended_key fkey
typed = refl

arrow : (keyboard_get_event (type_keys fresh (0xe0 ∷ 0x48 ∷ []))).0.keycode ≡ up
unfolding keyboard_get_event keyboard_handler key_char sc_normal sc_shifted extended_key fkey
arrow = refl

-- The minus key of the keypad, scancode 4A, types nothing, and the plus key, 4E, types a minus.
keypad :
    ((keyboard_getchar (type_keys fresh (0x4a ∷ []))).0 ≡ none)
    × ((keyboard_getchar (type_keys fresh (0x4e ∷ []))).0 ≡ some b'-')
unfolding keyboard_getchar keyboard_handler key_char sc_normal sc_shifted extended_key fkey
keypad = (refl, refl)

keyboard_handler_refines_example :
    IsQueue (keyboard_handler fresh 0x1e)
    × (events (keyboard_handler fresh 0x1e) ≡ add_event [] (decode idle_mods 0x1e).1)
keyboard_handler_refines_example = keyboard_handler_refines fresh 0x1e fresh-IsQueue

run_refines_example :
    run 256 empty_event fresh.queue (ask ∷ arrive empty_event ∷ take ∷ [])
    ≡ run_queue 256 empty_event [] (ask ∷ arrive empty_event ∷ take ∷ [])
run_refines_example =
    run_refines 256 empty_event (ask ∷ arrive empty_event ∷ take ∷ []) fresh.queue fresh-IsQueue
