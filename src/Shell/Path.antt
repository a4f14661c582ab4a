-- ===== src/Shell/Path.antt =====
-- `path_resolve` of shell/shell.c.
pub mod Split
pub mod Render
pub mod Laws
pub mod Walk
mod Tests
use eclipse32_gui.Base.{
  ℕ, zero, suc, ◌+◌, ◌-◌, Bool, true, false, not, ◌&&◌, List, [], ◌∷◌, ◌++◌, if◌then◌else◌, ◌==◌,
  ltb, length, take,
}
use eclipse32_gui.Shell.{same_string}

abbrev pub shell_max_path : ℕ
shell_max_path = 256

abbrev pub is_dot : List ℕ → Bool
is_dot w = same_string w (b'.' ∷ [])

abbrev pub is_dot_dot : List ℕ → Bool
is_dot_dot w = same_string w (b'.' ∷ b'.' ∷ [])

abbrev pub last_byte : List ℕ → ℕ → ℕ
last_byte [] d = d
last_byte (c ∷ s) d = last_byte s c

-- The working directory with a slash at its end.
unfoldable pub with_slash : List ℕ → List ℕ
with_slash cwd =
    if ltb 0 (length cwd) && not (last_byte cwd 0 == b'/') then cwd ++ b'/' ∷ [] else cwd

abbrev pub is_absolute : List ℕ → Bool
is_absolute [] = false
is_absolute (c ∷ s) = c == b'/'

-- What `tmp` holds before the normalisation.
unfoldable pub full_path : List ℕ → List ℕ → List ℕ
full_path cwd input =
    let base = with_slash (take 255 cwd) in
    if is_absolute input then take 255 input else base ++ take (255 - length base) input

unfoldable pub before_slash : List ℕ → List ℕ
before_slash [] = []
before_slash (c ∷ s) = if c == b'/' then [] else c ∷ before_slash s

unfoldable pub after_slash : List ℕ → List ℕ
after_slash [] = []
after_slash (c ∷ s) = if c == b'/' then s else after_slash s

-- The loop that cuts the path, with room for `room` segments; a round takes a byte or more, so a
-- round for each byte is enough.
unfoldable pub split_loop : ℕ → ℕ → List ℕ → List (List ℕ)
split_loop zero room s = []
split_loop (suc n) zero s = []
split_loop (suc n) (suc room) [] = []
split_loop (suc n) (suc room) (c ∷ s) =
    let skipped = split_loop n (suc room) s in
    let more = split_loop n room (after_slash (c ∷ s)) in
    if c == b'/' then skipped else before_slash (c ∷ s) ∷ more

abbrev pub pop : List (List ℕ) → List (List ℕ)
pop [] = []
pop (w ∷ stack) = stack

-- The loop over the segments; the stack's top stands first.
unfoldable pub stack_loop : List (List ℕ) → List (List ℕ) → List (List ℕ)
stack_loop [] stack = stack
stack_loop (w ∷ ws) stack =
    let same = stack_loop ws stack in
    let up = stack_loop ws (pop stack) in
    let down = stack_loop ws (w ∷ stack) in
    if is_dot w then same else if is_dot_dot w then up else down

abbrev pub bottom_up : List (List ℕ) → List (List ℕ) → List (List ℕ)
bottom_up [] ws = ws
bottom_up (w ∷ stack) ws = bottom_up stack (w ∷ ws)

-- The loop that writes `out`, which holds what is given.
unfoldable pub join_loop : List ℕ → List (List ℕ) → List ℕ
join_loop out [] = out
join_loop out (w ∷ ws) =
    let open_end = if ltb 1 (length out) then out ++ b'/' ∷ [] else out in
    join_loop (open_end ++ take (255 - length open_end) w) ws

-- `beyond` is what stands in memory from the last byte of `buf` on, which the function does not set.
unfoldable pub path_resolve : List ℕ → List ℕ → List ℕ → List ℕ
path_resolve beyond cwd input =
    let tmp = full_path cwd input in
    let buf = if length tmp == 255 then tmp ++ beyond else tmp in
    join_loop (b'/' ∷ []) (bottom_up (stack_loop (split_loop (length buf) 64 buf) []) [])
