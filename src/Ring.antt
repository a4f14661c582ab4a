-- ===== src/Ring.antt =====
-- The event rings of kernel/drivers/keyboard/keyboard.c and kernel/drivers/mouse/mouse.c: an array,
-- a read index and a write index. The keyboard's `key_head` and the mouse's `g_q_tail` are the write
-- index. One slot always stays empty.
pub mod Refine
pub mod Trace
use eclipse32_gui.Base.{
  ℕ, ◌+◌, ◌-◌, ◌%◌, ◌≤◌, ◌<◌, ◌≡◌, Bool, true, false, not, Option, none, some, List, if◌then◌else◌,
  ◌==◌, get_or, set, length,
}

pub record Ring {ℓ} (A : Type ℓ) : Type ℓ where
  pub buf : List A
  pub rd : ℕ
  pub wr : ℕ

module _ {ℓ} {A : Type ℓ} (size : ℕ) where
  -- Queue an event; a full ring drops it.
  unfoldable pub push : Ring A → A → Ring A
  push r x =
      let next = (r.wr + 1) % size in
      if not (next == r.rd) then record r { buf = set r.buf r.wr x; wr = next } else r

  unfoldable pub has_event : Ring A → Bool
  has_event r = not (r.wr == r.rd)

  -- The oldest event; `empty` stands for the zeroed record that an empty ring returns.
  unfoldable pub pop : A → Ring A → A × Ring A
  pop empty r =
      if r.wr == r.rd
      then (empty, r)
      else (get_or r.buf r.rd empty, record r { rd = (r.rd + 1) % size })
