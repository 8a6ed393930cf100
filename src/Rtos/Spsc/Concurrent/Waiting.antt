-- ===== src/Rtos/Spsc/Concurrent/Waiting.antt =====
-- What is still to be returned, while slots of spsc_queue.rs are written and indices move.
use shawn_core_libraries.Base.{
  ℕ, zero, suc, ◌+◌, ◌-◌, ◌%◌, ◌<◌, ◌≡◌, ◌≢◌, refl, ap, ◌∙◌, true, List, [], ◌∷◌, ◌++◌, set, length,
  arith,
}
use shawn_core_libraries.Rtos.Ring.{CacheAlignedSlot}
use shawn_core_libraries.Rtos.Ring.Contents.{item_at, items, items-snoc, items-set, length-items}
use shawn_core_libraries.Rtos.Spsc.Concurrent.{
  Consumer, idle, entered, sequenced, taken, validated, cleared,
}
use shawn_core_libraries.Rtos.Spsc.Concurrent.Invariant.{active, waiting}

module _ {ℓ} {T : Type ℓ} (capacity : ℕ) (default : T) where
  -- A write to a slot that none of the items is in.
  pub waiting-set :
      (slots : List (CacheAlignedSlot T)) (tail n k : ℕ) (slot : CacheAlignedSlot T)
      (c : Consumer T)
      → ((i : ℕ) → i < n → k ≢ (tail + i) % capacity)
      → waiting capacity default (set slots k slot) tail n c
        ≡ waiting capacity default slots tail n c
  waiting-set slots tail n k slot idle h = items-set capacity default slots tail n k slot h
  waiting-set slots tail n k slot entered h = items-set capacity default slots tail n k slot h
  waiting-set slots tail n k slot (sequenced f) h = items-set capacity default slots tail n k slot h
  waiting-set slots tail n k slot (taken f x) h = items-set capacity default slots tail n k slot h
  waiting-set slots tail n k slot (validated x) h = items-set capacity default slots tail n k slot h
  waiting-set slots tail n k slot (cleared x) h =
      ap (λ xs. x ∷ xs)
        (items-set capacity default slots (tail + 1) (n - 1) k slot (λ i lt e.
          h (i + 1) (omega (arith, lt))
            (e ∙ ap (λ j. j % capacity) {x = tail + 1 + i} {y = tail + (i + 1)} (omega arith))))

  -- One more item behind the others.
  pub waiting-snoc :
      (slots : List (CacheAlignedSlot T)) (tail n : ℕ) (c : Consumer T)
      → (active c ≡ true → 0 < n)
      → waiting capacity default slots tail (suc n) c
        ≡ waiting capacity default slots tail n c ++ item_at capacity default slots (tail + n) ∷ []
  waiting-snoc slots tail n idle h = items-snoc capacity default slots tail n
  waiting-snoc slots tail n entered h = items-snoc capacity default slots tail n
  waiting-snoc slots tail n (sequenced f) h = items-snoc capacity default slots tail n
  waiting-snoc slots tail n (taken f x) h = items-snoc capacity default slots tail n
  waiting-snoc slots tail n (validated x) h = items-snoc capacity default slots tail n
  waiting-snoc slots tail zero (cleared x) h = absurd (omega (arith, h refl))
  waiting-snoc slots tail (suc k) (cleared x) h =
      ap (λ xs. x ∷ xs)
        (ap (items capacity default slots (tail + 1)) {x = suc (suc k) - 1} {y = suc k}
            (omega arith)
          ∙ items-snoc capacity default slots (tail + 1) k
          ∙ ap
              (λ m.
                items capacity default slots (tail + 1) m
                ++ item_at capacity default slots (tail + 1 + k) ∷ [])
              {x = k} {y = suc k - 1} (omega arith)
          ∙ ap
              (λ i.
                items capacity default slots (tail + 1) (suc k - 1)
                ++ item_at capacity default slots i ∷ [])
              {x = tail + 1 + k} {y = tail + suc k} (omega arith))

  pub length-waiting :
      (slots : List (CacheAlignedSlot T)) (tail n : ℕ) (c : Consumer T)
      → (active c ≡ true → 0 < n)
      → length (waiting capacity default slots tail n c) ≡ n
  length-waiting slots tail n idle h = length-items capacity default slots tail n
  length-waiting slots tail n entered h = length-items capacity default slots tail n
  length-waiting slots tail n (sequenced f) h = length-items capacity default slots tail n
  length-waiting slots tail n (taken f x) h = length-items capacity default slots tail n
  length-waiting slots tail n (validated x) h = length-items capacity default slots tail n
  length-waiting slots tail n (cleared x) h =
      omega (arith, h refl, length-items capacity default slots (tail + 1) (n - 1))
