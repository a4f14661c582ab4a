-- ===== src/Fat/Free.antt =====
-- The freeing of a cluster chain in kernel/fs/fat32/fat32.c, on a drive on which the transfers
-- succeed.
use eclipse32_gui.Base.{
  ℕ, zero, suc, ◌+◌, ◌^◌, subst, ◌≤◌, ◌<◌, ◌≡◌, refl, ap, sym, ◌∙◌, ◌≢◌, ◌⊎◌, inl, inr, Bool, true,
  false, List, [], ◌∷◌, ◌||◌, if◌then◌else◌, ◌==◌, length, arith, eq-cases, ltb, leb, ◌&&◌,
}
use mathlib.Core.Bool.{true≢false}
use eclipse32_gui.Fat.{Fs, u32, end_of_chain, free_chain}
use eclipse32_gui.Fat.Table.{
  Works, InTable, entry, looked, looked-Works, changed, fat_get_entry_lem, fat_set_entry_lem,
  changed-Works, changed_same, changed_other,
}

abbrev pub mem : ℕ → List ℕ → Bool
mem d [] = false
mem d (c ∷ cs) = d == c || mem d cs

-- From the cluster `c` a table leads through exactly the clusters listed, none twice, and then to a
-- number that names no cluster.
abbrev pub Chain : (ℕ → ℕ) → ℕ → List ℕ → Type 0
Chain e c [] = (c < 2) ⊎ (end_of_chain ≤ c)
Chain e c (d ∷ cs) = (c ≡ d) × (2 ≤ c) × (c < end_of_chain) × (mem c cs ≡ false) × Chain e (e c) cs

Chain-of_same :
    (e e' : ℕ → ℕ) (c : ℕ) (cs : List ℕ)
    → ((d : ℕ) → d < 2 ^ 28 → mem d cs ≡ true → e' d ≡ e d)
    → Chain e c cs
    → Chain e' c cs
Chain-of_same e e' c [] same h = h
Chain-of_same e e' c (d ∷ cs) same (q, lo, hi, once, h) = (
  q,
  lo,
  hi,
  once,
  subst (λ x. Chain e' x cs) (sym (same c (omega arith) (rw q (ground arith))))
      (Chain-of_same e e' (e c) cs (λ x l m. same x l (ground arith)) h),
)

ne_of_mem : (x c : ℕ) (cs : List ℕ) → mem x cs ≡ true → mem c cs ≡ false → x ≢ c
ne_of_mem x c cs m o e = true≢false (sym m ∙ ap (λ y. mem y cs) e ∙ o)

module _ (s : Fs) (w : Works s) (n c : ℕ) where
  -- The state after one round.
  abbrev freed : Fs
  freed = changed (looked s w c) (looked-Works s w c) c 0

  free_chain_step :
      2 ≤ c → c < end_of_chain → free_chain (suc n) c s ≡ free_chain n (entry s c) freed
  unfolding free_chain
  free_chain_step lo hi =
      let inside : (leb 2 c && ltb c end_of_chain) ≡ true = ground arith in
      rw inside (
        rw (fat_get_entry_lem s w c)
          (rw (fat_set_entry_lem (looked s w c) (looked-Works s w c) c 0) refl))

free_chain_stop : (s : Fs) (n c : ℕ) → (c < 2) ⊎ (end_of_chain ≤ c) → free_chain n c s ≡ (tt, s)
unfolding free_chain
free_chain_stop s zero c h = refl
free_chain_stop s (suc n) c h =
    let outside : (leb 2 c && ltb c end_of_chain) ≡ false = ground arith in rw outside refl

-- What is left of the table once the clusters listed are free.
abbrev pub Freed : Fs → List ℕ → Fs → Type 0
Freed s cs t = Works t × ((d : ℕ) → InTable s d → entry t d ≡ (if mem d cs then 0 else entry s d))

entry-freed_self : (s : Fs) (w : Works s) (c : ℕ) → entry (freed s w 0 c) c ≡ 0
entry-freed_self s w c = changed_same (looked s w c) (looked-Works s w c) c 0 ∙ refl

entry-freed_other :
    (s : Fs) (w : Works s) (c d : ℕ)
    → InTable s c
    → InTable s d
    → d ≢ c
    → entry (freed s w 0 c) d ≡ entry s d
entry-freed_other s w c d = changed_other (looked s w c) (looked-Works s w c) c d 0

Freed-cons :
    (s : Fs) (w : Works s) (c : ℕ) (cs : List ℕ) (t : Fs)
    → InTable s c
    → mem c cs ≡ false
    → Freed (freed s w 0 c) cs t
    → Freed s (c ∷ cs) t
Freed-cons s w c cs t ic once (wt, h) = (
  wt,
  (λ d id. elim (eq-cases d c) [
    | inl e ↦
        subst (λ x. InTable s x → entry t x ≡ (if x == c || mem x cs then 0 else entry s x)) (sym e)
          (λ i. h c i ∙ rw once (entry-freed_self s w c ∙ ground arith)) id
    | inr ne ↦
        h d id
        ∙ ap (λ x. if mem d cs then 0 else x) (entry-freed_other s w c d ic id ne)
        ∙ ground arith
  ]),
)

-- On a drive that works, the loop that frees a chain sets exactly the entries of the chain's
-- clusters to 0 and leaves every other entry, if it may take as many rounds as the chain has
-- clusters and the table ends below the last sector number.
pub free_chain_lem :
    (s : Fs) (n c : ℕ) (cs : List ℕ)
    → Works s
    → s.fat_start_lba + 2 ^ 21 < u32
    → Chain (entry s) c cs
    → length cs ≤ n
    → Freed s cs (free_chain n c s).1
free_chain_lem s n c [] w k h l = rw (free_chain_stop s n c h) (w, λ d id. refl)
free_chain_lem s (suc n) c (d ∷ cs) w k (q, lo, hi, once, h) l =
    rw (free_chain_step s w n c lo hi) (
      rw (sym q) (
        Freed-cons s w c cs _ (omega arith, k) once
          (free_chain_lem (freed s w n c) n (entry s c) cs
            (changed-Works (looked s w c) (looked-Works s w c) c 0) k
            (Chain-of_same (entry s) (entry (freed s w n c)) (entry s c) cs
              (λ x lx m.
                entry-freed_other s w c x (omega arith, k) (lx, k) (ne_of_mem x c cs m once))
              h)
            (omega arith))))
free_chain_lem s zero c (d ∷ cs) w k h l = absurd (omega arith)
