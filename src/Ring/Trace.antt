-- ===== src/Ring/Trace.antt =====
-- The interrupt side and the reading side of an event ring, in any order.
use eclipse32_gui.Base.{
  ℕ, suc, ◌-◌, ◌≡◌, refl, ap, ap₂, ◌∙◌, Bool, true, false, List, [], ◌∷◌, ◌==◌, arith, Bool-cases,
  inl, inr,
}
use eclipse32_gui.Ring.{Ring, push, pop, has_event}
use eclipse32_gui.Ring.Refine.{
  IsRing, count, contents, enqueue, dequeue, push_refines, pop_refines, push-IsRing, pop-IsRing,
}

-- What happens to a ring: an interrupt queues an event, a reader asks for one or takes one.
pub data Action {ℓ} (A : Type ℓ) : Type ℓ where
  arrive : A → Action A
  ask : Action A
  take : Action A

-- What the reader sees.
pub data Seen {ℓ} (A : Type ℓ) : Type ℓ where
  told : Bool → Seen A
  got : A → Seen A

module _ {ℓ} {A : Type ℓ} (size : ℕ) (d : A) where
  unfoldable pub run : Ring A → List (Action A) → List (Seen A)
  run r [] = []
  run r (arrive x ∷ acts) = run (push size r x) acts
  run r (ask ∷ acts) = told (has_event size r) ∷ run r acts
  run r (take ∷ acts) = got (pop size d r).0 ∷ run (pop size d r).1 acts

  abbrev pub nonempty : List A → Bool
  nonempty [] = false
  nonempty (x ∷ q) = true

  unfoldable pub run_queue : List A → List (Action A) → List (Seen A)
  run_queue q [] = []
  run_queue q (arrive x ∷ acts) = run_queue (enqueue size d q x) acts
  run_queue q (ask ∷ acts) = told (nonempty q) ∷ run_queue q acts
  run_queue q (take ∷ acts) = got (dequeue size d q).0 ∷ run_queue (dequeue size d q).1 acts

  pub has_event_refines :
      (r : Ring A) → IsRing size d r → has_event size r ≡ nonempty (contents size d r)
  unfolding has_event
  has_event_refines r v = elim (Bool-cases (r.wr == r.rd)) [
    | inl e ↦ let c : count size d r ≡ 0 = ground arith in rw e (rw c refl)
    | inr e ↦
        let c : count size d r ≡ suc (count size d r - 1) = ground (arith, v.rd_in, v.wr_in) in
        rw e (rw c refl)
  ]

  -- Whatever the order of interrupts and reads, a reader of a ring in order sees exactly what a
  -- first-in-first-out queue of at most `size - 1` events shows, which drops what arrives when it is full.
  pub run_refines :
      (acts : List (Action A)) (r : Ring A)
      → IsRing size d r
      → run r acts ≡ run_queue (contents size d r) acts
  unfolding run run_queue
  run_refines [] r v = refl
  run_refines (arrive x ∷ acts) r v =
      run_refines acts (push size r x) (push-IsRing size d r x v)
      ∙ ap (λ q. run_queue q acts) (push_refines size d r x v)
  run_refines (ask ∷ acts) r v = ap₂ ◌∷◌ (ap told (has_event_refines r v)) (run_refines acts r v)
  run_refines (take ∷ acts) r v = ap₂ ◌∷◌ (ap (λ p. got p.0) (pop_refines size d r v)) (
      run_refines acts (pop size d r).1 (pop-IsRing size d r v)
      ∙ ap (λ p. run_queue p.1 acts) (pop_refines size d r v))
