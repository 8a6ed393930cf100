-- ===== src/Rtos/Spinlock/Exclusion.antt =====
-- Mutual exclusion of the lock of interrupt_spinlock.rs, and the flags that it gives back.
use shawn_core_libraries.Base.{
  ℕ, Bool, true, false, ◌==◌, ◌≡◌, ◌≢◌, refl, sym, ap, ◌∙◌, Bool-cases, inl, inr, arith,
}
use shawn_core_libraries.Rtos.Spinlock.{
  InterruptContext, Place, outside, exchanging, waiting, holding, dropping, InterruptSafeSpinlock,
  at, Step, disable, acquire, fail, spin, retry, mutate, unlock, restore_flags, Reachable, start,
  next,
}

abbrev pub holds : Place → Bool
holds outside = false
holds (exchanging saved_flags) = false
holds (waiting saved_flags) = false
holds (holding saved_flags) = true
holds (dropping saved_flags) = false

at_self :
    (places : ℕ → Place) (i j : ℕ) (place : Place) → j == i ≡ true → at places i place j ≡ place
at_self places i j place same = rw same refl

at_other :
    (places : ℕ → Place) (i j : ℕ) (place : Place) → j == i ≡ false → at places i place j ≡ places j
at_other places i j place other = rw other refl

-- A thread that moves to a place without a guard leaves the guards to the others.
still :
    (places : ℕ → Place) (i j : ℕ) (place : Place)
    → holds place ≡ false
    → holds (at places i place j) ≡ true
    → (holds (places j) ≡ true) × (j ≢ i)
still places i j place none_there h = elim (Bool-cases (j == i)) [
  | inl same ↦ absurd (ground (arith, ap holds (at_self places i j place same)))
  | inr other ↦ (ground (arith, ap holds (at_other places i j place other)), ground arith)
]

-- A thread that moves to a guard, or another one that has one.
gained :
    (places : ℕ → Place) (i j : ℕ) (place : Place)
    → ¬ (holds (places j) ≡ true)
    → holds (at places i place j) ≡ true
    → j ≡ i
gained places i j place nobody h = elim (Bool-cases (j == i)) [
  | inl same ↦ ground arith
  | inr other ↦ absurd (nobody (ground (arith, ap holds (at_other places i j place other))))
]

module _ {T : Type 0} (c : InterruptContext) where
  -- A thread with a guard has the lock taken, and there is one at most.
  record Exclusive (l : InterruptSafeSpinlock T) : Type 0 where
    taken : (i : ℕ) → holds (l.places i) ≡ true → l.locked ≡ true
    alone : (i j : ℕ) → holds (l.places i) ≡ true → holds (l.places j) ≡ true → i ≡ j

  without_guard :
      (l : InterruptSafeSpinlock T) (i : ℕ) (place : Place) (flags : ℕ → ℕ)
      → Exclusive l
      → holds place ≡ false
      → Exclusive (record l { places = at l.places i place; flags = flags })
  without_guard l i place flags v none_there = record {
    taken = λ j h. v.taken j (still l.places i j place none_there h).0;
    alone = λ j k h h'.
        v.alone j k (still l.places i j place none_there h).0
          (still l.places i k place none_there h').0;
  }

  Step-Exclusive : {l l' : InterruptSafeSpinlock T} → Exclusive l → Step c l l' → Exclusive l'
  Step-Exclusive {l = l} v (disable i at_i) =
      without_guard l i (exchanging (c.saved (l.flags i))) _ v refl
  Step-Exclusive {l = l} v (acquire i s at_i free) =
      let nobody : (j : ℕ) → ¬ (holds (l.places j) ≡ true) =
        λ j h. absurd (ground (arith, v.taken j h)) in
      record {
        taken = λ j h. refl;
        alone = λ j k h h'.
            gained l.places i j (holding s) (nobody j) h
            ∙ sym (gained l.places i k (holding s) (nobody k) h');
      }
  Step-Exclusive {l = l} v (fail i s at_i) = without_guard l i (waiting s) l.flags v refl
  Step-Exclusive v (spin i s at_i taken) = v
  Step-Exclusive {l = l} v (retry i s at_i free) = without_guard l i (exchanging s) l.flags v refl
  Step-Exclusive v (mutate i s x at_i) = record { taken = v.taken; alone = v.alone }
  Step-Exclusive {l = l} v (unlock i s at_i) =
      let nobody : (j : ℕ) → ¬ (holds (at l.places i (dropping s) j) ≡ true) = λ j h.
        let (also, other) = still l.places i j (dropping s) refl h in
        other (v.alone j i also (ap holds at_i)) in
      record { taken = λ j h. absurd (nobody j h); alone = λ j k h h'. absurd (nobody j h) }
  Step-Exclusive {l = l} v (restore_flags i s at_i) = without_guard l i outside _ v refl

  Reachable-Exclusive :
      {x : T} {flags : ℕ → ℕ} {l : InterruptSafeSpinlock T} → Reachable c x flags l → Exclusive l
  Reachable-Exclusive start = record {
    taken = λ i h. absurd (ground arith);
    alone = λ i j h h'. absurd (ground arith);
  }
  Reachable-Exclusive (next before step) = Step-Exclusive (Reachable-Exclusive before) step

  -- In every state that threads can reach from a new lock, in any interleaving and with any spurious
  -- failures: two threads that both have a guard are the same thread, and while one has it the lock
  -- is taken.
  pub guards_exclude :
      (x : T) (flags : ℕ → ℕ) (l : InterruptSafeSpinlock T) (i j saved_i saved_j : ℕ)
      → Reachable c x flags l
      → l.places i ≡ holding saved_i
      → l.places j ≡ holding saved_j
      → (i ≡ j) × (l.locked ≡ true)
  guards_exclude x flags l i j saved_i saved_j reached at_i at_j =
      let v = Reachable-Exclusive reached in
      (v.alone i j (ap holds at_i) (ap holds at_j), v.taken i (ap holds at_i))
