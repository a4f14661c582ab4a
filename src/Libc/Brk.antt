-- ===== src/Libc/Brk.antt =====
-- The system call `brk` of kernel/syscall/syscall.c as the `sbrk` of apps/sdk/libc/unistd.c uses it.
use eclipse32_gui.Base.{
  ℕ, ◌^◌, ◌≤◌, ◌<◌, ◌≡◌, refl, ◌||◌, Option, none, some, ◌==◌, ltb, arith, Bool-cases, inl, inr,
}
use eclipse32_gui.Fat.Files.{to_int32, to_word}
use eclipse32_gui.Syscall.{Sys, sys_brk}
use eclipse32_gui.Syscall.Dispatch.{syscall_dispatch}
use eclipse32_gui.Syscall.Heap.{HeapInOrder, to_word-to_int32}
use eclipse32_gui.Libc.Malloc.{AppHeap, e32_brk, not_negative}

-- The application's heap with the limits that the kernel keeps.
abbrev pub heap_in : Sys → AppHeap → AppHeap
heap_in s h = record h { base = s.brk_base; limit = s.brk_limit; top = s.brk_current }

-- The word in `eax` as an `int`: not negative with a value, negative without one.
abbrev pub Answers : Option ℕ → ℕ → Type 0
Answers none v = (2 ^ 31 ≤ v) × (v < 2 ^ 32)
Answers (some r) v = (v ≡ r) × (r < 2 ^ 31)

not_negative-Answers : (w : ℕ) → w < 2 ^ 32 → Answers (not_negative w) (to_word (to_int32 w))
not_negative-Answers w h = rw (to_word-to_int32 w h) (elim (Bool-cases (ltb w (2 ^ 31))) [
  | inl e ↦ rw e (refl, ground (arith, e))
  | inr e ↦ rw e (ground (arith, e), h)
])

-- What a run of the call leaves, by the word in `eax`.
abbrev pub IsBrk : ℕ → Sys → AppHeap → ℕ → Sys → Type 0
IsBrk addr s h v t =
    Answers (e32_brk addr (heap_in s h)).0 v
    × ((e32_brk addr (heap_in s h)).1 ≡ heap_in t h)
    × HeapInOrder t
    × (t ≡ record s { brk_current = t.brk_current })

-- In a system whose break lies between the heap's bounds, words both, the call with the number 15
-- and an argument that is a word always answers, and as the application's side takes it: where that has no value the answer is negative as an
-- `int`, otherwise it is that value; both sides then have the same bounds and the same break. The break
-- lies between the bounds again, and nothing else of the system has changed.
pub e32_brk_lem :
    (addr b c : ℕ) (s : Sys) (h : AppHeap)
    → addr < 2 ^ 32
    → s.brk_limit < 2 ^ 32
    → HeapInOrder s
    → (v : ℕ) × (t : Sys) × (syscall_dispatch 15 addr b c s ≡ some (v, t)) × IsBrk addr s h v t
unfolding syscall_dispatch sys_brk e32_brk
e32_brk_lem addr b c s h small low order = elim (Bool-cases (s.brk_limit == 0 || s.brk_base == 0)) [
  | inl e ↦ rw e (_, s, refl, ((omega arith, omega arith), refl, order, refl))
  | inr e0 ↦ elim (Bool-cases (addr == 0)) [
    | inl e ↦
        rw (e0, e)
          (
            _,
            s,
            refl,
            (not_negative-Answers s.brk_current (omega (arith, order.1, low)), refl, order, refl),
          )
    | inr e1 ↦ elim (Bool-cases (ltb addr s.brk_base)) [
      | inl e ↦ rw (e0, e1, e) (_, s, refl, ((omega arith, omega arith), refl, order, refl))
      | inr e2 ↦ elim (Bool-cases (ltb s.brk_limit addr)) [
        | inl e ↦ rw (e0, e1, e2, e) (_, s, refl, ((omega arith, omega arith), refl, order, refl))
        | inr e3 ↦
            rw (e0, e1, e2, e3)
              (
                _,
                record s { brk_current = addr },
                refl,
                (
                  not_negative-Answers addr small,
                  refl,
                  (ground (arith, e2), ground (arith, e3)),
                  refl,
                ),
              )
      ]
    ]
  ]
]
