-- ===== src/Keyboard/Read.antt =====
-- The event queue of kernel/drivers/keyboard/keyboard.c, and `keyboard_getchar` over it.
use eclipse32_gui.Base.{
  ℕ, zero, suc, ◌≤◌, ◌≡◌, refl, ap, ◌∙◌, Bool, true, false, not, ◌&&◌, ◌||◌, Option, none, some,
  List, [], ◌∷◌, if◌then◌else◌, ◌==◌, arith, Bool-cases, inl, inr, length,
}
use eclipse32_gui.Ring.{Ring, pop, has_event}
use eclipse32_gui.Ring.Refine.{
  IsRing, contents, enqueue, dequeue, push_refines, pop_refines, push-IsRing, pop-IsRing,
  length-contents, count-lt,
}
use eclipse32_gui.Ring.Trace.{nonempty, has_event_refines}
use eclipse32_gui.Keyboard.{
  Keyboard, KeyEvent, empty_event, is_ascii, decode, enqueue_event, keyboard_handler, getchar_loop,
  keyboard_getchar,
}

abbrev pub events : Keyboard → List KeyEvent
events k = contents 256 empty_event k.queue

abbrev pub IsQueue : Keyboard → Type 0
IsQueue k = IsRing 256 empty_event k.queue

-- An event that is queued: a press, or any event of a key that is no character.
abbrev pub wanted : KeyEvent → Bool
wanted ev = not ev.released || not (is_ascii ev.keycode)

abbrev pub add_event : List KeyEvent → Option KeyEvent → List KeyEvent
add_event q none = q
add_event q (some ev) = if wanted ev then enqueue 256 empty_event q ev else q

enqueue_event_refines :
    (q : Ring KeyEvent) (o : Option KeyEvent)
    → IsRing 256 empty_event q
    → contents 256 empty_event (enqueue_event q o) ≡ add_event (contents 256 empty_event q) o
unfolding enqueue_event
enqueue_event_refines q none v = refl
enqueue_event_refines q (some ev) v = elim (Bool-cases (wanted ev)) [
  | inl e ↦ rw e (push_refines 256 empty_event q ev v)
  | inr e ↦ rw e refl
]

enqueue_event-IsRing :
    (q : Ring KeyEvent) (o : Option KeyEvent)
    → IsRing 256 empty_event q
    → IsRing 256 empty_event (enqueue_event q o)
unfolding enqueue_event
enqueue_event-IsRing q none v = v
enqueue_event-IsRing q (some ev) v = elim (Bool-cases (wanted ev)) [
  | inl e ↦ rw e (push-IsRing 256 empty_event q ev v)
  | inr e ↦ rw e v
]

-- On a keyboard whose ring is in order, an interrupt with any byte keeps the ring in order and adds
-- to the queue the event that the byte decodes to, if there is one, it is no release of a character
-- key, and fewer than 255 events wait; otherwise the queue stays as it is.
pub keyboard_handler_refines :
    (k : Keyboard) (byte : ℕ)
    → IsQueue k
    → IsQueue (keyboard_handler k byte)
      × (events (keyboard_handler k byte) ≡ add_event (events k) (decode k.mods byte).1)
unfolding keyboard_handler
keyboard_handler_refines k byte v = (
  enqueue_event-IsRing k.queue (decode k.mods byte).1 v,
  enqueue_event_refines k.queue (decode k.mods byte).1 v,
)

-- The first character of a queue, with what stands behind it.
abbrev pub types_char : KeyEvent → Bool
types_char ev = not ev.released && (is_ascii ev.keycode && not (ev.char == 0))

abbrev pub first_char : List KeyEvent → Option ℕ × List KeyEvent
first_char [] = (none, [])
first_char (ev ∷ q) = if types_char ev then (some ev.char, q) else first_char q

-- The queue is what `known` says.
getchar_loop_known :
    (n : ℕ) (q : Ring KeyEvent) (known : List KeyEvent)
    → IsRing 256 empty_event q
    → contents 256 empty_event q ≡ known
    → length known ≤ n
    → let (c, q') = getchar_loop n q in (c, contents 256 empty_event q') ≡ first_char known
unfolding getchar_loop
getchar_loop_known zero q [] v e h = ap (λ l. (none, l)) e
getchar_loop_known zero q (ev ∷ rest) v e h = absurd (omega arith)
getchar_loop_known (suc n) q [] v e h = rw (idle) (ap (λ l. (none, l)) e)
  where
    idle : has_event 256 q ≡ false
    idle = has_event_refines 256 empty_event q v ∙ ap (nonempty 256 empty_event) e
getchar_loop_known (suc n) q (ev ∷ rest) v e h =
    let later =
      getchar_loop_known n (pop 256 empty_event q).1 rest (pop-IsRing 256 empty_event q v) left_over
        (omega arith) in
    elim (Bool-cases ev.released) [
      | inl r ↦ rw (busy, taken, r) (later)
      | inr r ↦ elim (Bool-cases (is_ascii ev.keycode && not (ev.char == 0))) [
        | inl c ↦ rw (busy, taken, r, c) (ap (λ l. (some ev.char, l)) left_over)
        | inr c ↦ rw (busy, taken, r, c) later
      ]
    ]
  where
    popped :
        ◌≡◌ {A = KeyEvent × List KeyEvent}
          ((pop 256 empty_event q).0, contents 256 empty_event (pop 256 empty_event q).1)
          (ev, rest)
    popped = pop_refines 256 empty_event q v ∙ ap (dequeue 256 empty_event) e

    busy : has_event 256 q ≡ true
    busy = has_event_refines 256 empty_event q v ∙ ap (nonempty 256 empty_event) e

    taken : (pop 256 empty_event q).0 ≡ ev
    taken = ap (λ p. p.0) popped

    left_over : contents 256 empty_event (pop 256 empty_event q).1 ≡ rest
    left_over = ap (λ p. p.1) popped

-- On a keyboard whose ring is in order, `keyboard_getchar` returns the character of the first
-- queued press of a character key and drops the events up to it; it waits for an interrupt, with
-- the queue emptied, exactly when no such press is queued.
pub keyboard_getchar_refines :
    (k : Keyboard)
    → IsQueue k
    → let (c, k') = keyboard_getchar k in (c, events k') ≡ first_char (events k)
unfolding keyboard_getchar
keyboard_getchar_refines k v =
    getchar_loop_known 256 k.queue (events k) v refl
      (omega (arith, length-contents 256 empty_event k.queue, count-lt 256 empty_event k.queue v))
