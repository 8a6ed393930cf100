-- ===== src/Rtos/Spinlock/Flags.antt =====
-- The interrupt flags that the lock of interrupt_spinlock.rs saves and gives back.
use mathlib.Core.Path.{subst}
use shawn_core_libraries.Base.{ℕ, ◌==◌, ◌≡◌, refl, sym, ap, ◌∙◌, Bool-cases, inl, inr, ==_iff}
use shawn_core_libraries.Rtos.Spinlock.{
  InterruptContext, RestoresFlags, Place, outside, exchanging, waiting, holding, dropping,
  InterruptSafeSpinlock, at, Step, disable, acquire, fail, spin, retry, mutate, unlock,
  restore_flags, Reachable, start, next,
}

-- The flags that a thread found: its own when it is outside, those that it saved elsewhere.
abbrev Keeps : InterruptContext → (before : ℕ) → Place → (now : ℕ) → Type 0
Keeps c before outside now = now ≡ before
Keeps c before (exchanging s) now = s ≡ c.saved before
Keeps c before (waiting s) now = s ≡ c.saved before
Keeps c before (holding s) now = s ≡ c.saved before
Keeps c before (dropping s) now = s ≡ c.saved before

module _ (c : InterruptContext) (before : ℕ → ℕ) where
  abbrev AllKeep : (places : ℕ → Place) (now : ℕ → ℕ) → Type 0
  AllKeep places now = (j : ℕ) → Keeps c (before j) (places j) (now j)

  -- A step changes the place of one thread, and its flags.
  moved :
      (places : ℕ → Place) (now : ℕ → ℕ) (i : ℕ) (place : Place) (flag : ℕ)
      → AllKeep places now
      → Keeps c (before i) place flag
      → AllKeep (at places i place) (at now i flag)
  moved places now i place flag kept here j = elim (Bool-cases (j == i)) [
    | inl same ↦
        rw same (subst (λ k. Keeps c (before k) place flag) (sym ((==_iff j i).0 same)) here)
    | inr other ↦ rw other (kept j)
  ]

  moved_only :
      (places : ℕ → Place) (now : ℕ → ℕ) (i : ℕ) (place : Place)
      → AllKeep places now
      → Keeps c (before i) place (now i)
      → AllKeep (at places i place) now
  moved_only places now i place kept here j = elim (Bool-cases (j == i)) [
    | inl same ↦
        rw same (subst (λ k. Keeps c (before k) place (now k)) (sym ((==_iff j i).0 same)) here)
    | inr other ↦ rw other (kept j)
  ]

  of_place :
      (places : ℕ → Place) (now : ℕ → ℕ) (i : ℕ) {place : Place}
      → AllKeep places now
      → places i ≡ place
      → Keeps c (before i) place (now i)
  of_place places now i kept at_i = subst (λ q. Keeps c (before i) q (now i)) at_i (kept i)

module _ {T : Type 0} (c : InterruptContext) where
  Step-AllKeep :
      (before : ℕ → ℕ) {l l' : InterruptSafeSpinlock T}
      → RestoresFlags c
      → AllKeep c before l.places l.flags
      → Step c l l'
      → AllKeep c before l'.places l'.flags
  Step-AllKeep before {l = l} law kept (disable i at_i) =
      moved c before l.places l.flags i _ _ kept
        (ap c.saved (of_place c before l.places l.flags i kept at_i))
  Step-AllKeep before {l = l} law kept (acquire i s at_i free) =
      moved_only c before l.places l.flags i (holding s) kept
        (of_place c before l.places l.flags i kept at_i)
  Step-AllKeep before {l = l} law kept (fail i s at_i) =
      moved_only c before l.places l.flags i (waiting s) kept
        (of_place c before l.places l.flags i kept at_i)
  Step-AllKeep before law kept (spin i s at_i taken) = kept
  Step-AllKeep before {l = l} law kept (retry i s at_i free) =
      moved_only c before l.places l.flags i (exchanging s) kept
        (of_place c before l.places l.flags i kept at_i)
  Step-AllKeep before law kept (mutate i s x at_i) = kept
  Step-AllKeep before {l = l} law kept (unlock i s at_i) =
      moved_only c before l.places l.flags i (dropping s) kept
        (of_place c before l.places l.flags i kept at_i)
  Step-AllKeep before {l = l} law kept (restore_flags i s at_i) =
      moved c before l.places l.flags i outside _ kept (
        ap (λ saved. c.restore saved (l.flags i)) (of_place c before l.places l.flags i kept at_i)
        ∙ law (before i) (l.flags i))

  Reachable-AllKeep :
      (x : T) (before : ℕ → ℕ) {l : InterruptSafeSpinlock T}
      → RestoresFlags c
      → Reachable c x before l
      → AllKeep c before l.places l.flags
  Reachable-AllKeep x before law start = λ i. refl
  Reachable-AllKeep x before law (next earlier step) =
      Step-AllKeep before law (Reachable-AllKeep x before law earlier) step

  -- With a host whose restoring undoes its saving: in every state that threads can reach from a new
  -- lock, a thread that is outside the lock has the interrupt flags that it had at first.
  pub flags_restored :
      (x : T) (before : ℕ → ℕ) (l : InterruptSafeSpinlock T) (i : ℕ)
      → RestoresFlags c
      → Reachable c x before l
      → l.places i ≡ outside
      → l.flags i ≡ before i
  flags_restored x before l i law reached at_i =
      of_place c before l.places l.flags i (Reachable-AllKeep x before law reached) at_i
