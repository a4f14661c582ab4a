-- ===== src/Syscall/Laws.antt =====
-- The dispatcher of kernel/syscall/syscall.c on numbers that name no call, and the pointers of
-- applications.
use eclipse32_gui.Base.{
  ℕ, zero, suc, ◌+◌, ◌-◌, ◌^◌, ◌≤◌, ◌<◌, ◌≡◌, ◌≢◌, ◌⊎◌, inl, inr, refl, ap, ◌&&◌, none, some, List,
  [], ◌∷◌, ltb, leb, arith, Bool-cases, length,
}
use eclipse32_gui.Syscall.{Sys, Result, translate_app_ptr}
use eclipse32_gui.Syscall.Dispatch.{call_at, calls, call_or_refuse, syscall_dispatch}

call_at_past : (l : List (ℕ → ℕ → ℕ → Sys → Result)) (n : ℕ) → length l < n → call_at l n ≡ none
call_at_past l zero h = absurd (omega arith)
call_at_past [] (suc n) h = refl
call_at_past (f ∷ l) (suc zero) h = absurd (omega arith)
call_at_past (f ∷ l) (suc (suc n)) h = call_at_past l (suc n) (omega arith)

-- A number that names no call gives -38 and changes nothing.
pub syscall_dispatch_unknown :
    (s : Sys) (num a b c : ℕ)
    → (num ≡ 0) ⊎ (20 ≤ num)
    → syscall_dispatch num a b c s ≡ some (2 ^ 32 - 38, s)
unfolding syscall_dispatch
syscall_dispatch_unknown s zero a b c h = refl
syscall_dispatch_unknown s (suc n) a b c h =
    ap (λ o. call_or_refuse o a b c s) (call_at_past calls (suc n) (omega arith))

-- With an image that ends below the end of memory, a pointer of the application with the length of
-- its target leads to the image's base plus the pointer where the whole target lies in the image,
-- and to its own value otherwise.
pub translate_app_ptr_lem :
    (s : Sys) (raw len : ℕ)
    → s.image_base ≢ 0
    → s.image_base + s.image_size ≤ 2 ^ 32
    → ((raw < s.image_size)
        × (raw + len ≤ s.image_size)
        × (translate_app_ptr s raw len ≡ s.image_base + raw))
      ⊎ (((s.image_size ≤ raw) ⊎ (s.image_size < raw + len)) × (translate_app_ptr s raw len ≡ raw))
unfolding translate_app_ptr
translate_app_ptr_lem s raw len h k =
    elim (Bool-cases (ltb raw s.image_size && leb len (s.image_size - raw))) [
      | inl e ↦ inl (ground arith, ground arith, ground arith)
      | inr e ↦ inr (ground arith, ground arith)
    ]
