-- ===== src/Rtos/Ring/Contents.antt =====
-- What a ring holds, from the oldest item to the newest.
use native.Mathlib.Nat.{mod-add-mod}
use shawn_core_libraries.Base.{
  ℕ, zero, suc, ◌+◌, ◌%◌, ◌<◌, ◌≡◌, ◌≢◌, refl, sym, ap, ap₂, ◌∙◌, List, [], ◌∷◌, ◌++◌, length,
  get_or, set, get_or-set_ne, arith,
}
use shawn_core_libraries.Rtos.Ring.{CacheAlignedSlot, RingBuffer, wrapping_sub}

module _ {ℓ} {T : Type ℓ} (capacity : ℕ) (default : T) where
  abbrev pub item_at : List (CacheAlignedSlot T) → ℕ → T
  item_at slots i =
      (get_or slots (i % capacity) (record { data_cell = default; sequence_counter = 0 })).data_cell

  -- The items at the `n` running indices from `from` on.
  abbrev pub items : List (CacheAlignedSlot T) → (from n : ℕ) → List T
  items slots from zero = []
  items slots from (suc n) = item_at slots from ∷ items slots (from + 1) n

  abbrev pub contents : RingBuffer T → List T
  contents r = items r.buffer r.tail (wrapping_sub r.head r.tail)

  pub length-items :
      (slots : List (CacheAlignedSlot T)) (from n : ℕ) → length (items slots from n) ≡ n
  length-items slots from zero = refl
  length-items slots from (suc n) = ap suc (length-items slots (from + 1) n)

  -- The items depend on the slots that the indices name only.
  pub items-same :
      (slots : List (CacheAlignedSlot T)) (a b n : ℕ)
      → a % capacity ≡ b % capacity
      → items slots a n ≡ items slots b n
  items-same slots a b zero e = refl
  items-same slots a b (suc n) e =
      ap₂ (λ x xs. x ∷ xs)
        (ap (λ i. (get_or slots i (record { data_cell = default; sequence_counter = 0 })).data_cell)
          e)
        (items-same slots (a + 1) (b + 1) n next)
    where
      next : (a + 1) % capacity ≡ (b + 1) % capacity
      next =
          sym (mod-add-mod a capacity 1) ∙ ap (λ i. (i + 1) % capacity) e ∙ mod-add-mod b capacity 1

  pub items-snoc :
      (slots : List (CacheAlignedSlot T)) (from n : ℕ)
      → items slots from (suc n) ≡ items slots from n ++ item_at slots (from + n) ∷ []
  items-snoc slots from zero =
      ap (λ i. item_at slots i ∷ []) {x = from} {y = from + 0} (omega arith)
  items-snoc slots from (suc n) =
      ap (λ xs. item_at slots from ∷ xs)
        (items-snoc slots (from + 1) n
          ∙ ap (λ i. items slots (from + 1) n ++ item_at slots i ∷ []) {x = from + 1 + n}
              {y = from + suc n} (omega arith))

  -- A write to a slot that none of the indices names.
  pub items-set :
      (slots : List (CacheAlignedSlot T)) (from n k : ℕ) (slot : CacheAlignedSlot T)
      → ((i : ℕ) → i < n → k ≢ (from + i) % capacity)
      → items (set slots k slot) from n ≡ items slots from n
  items-set slots from zero k slot h = refl
  items-set slots from (suc n) k slot h =
      ap₂ (λ x xs. x ∷ xs)
        (ap (λ s. s.data_cell) (get_or-set_ne slots k (from % capacity) slot _ first))
        (items-set slots (from + 1) n k slot others)
    where
      first : k ≢ from % capacity
      first e =
          h 0 (omega arith) (e ∙ ap (λ i. i % capacity) {x = from} {y = from + 0} (omega arith))

      others : (i : ℕ) → i < n → k ≢ (from + 1 + i) % capacity
      others i lt e =
          h (suc i) (omega arith)
            (e ∙ ap (λ i. i % capacity) {x = from + 1 + i} {y = from + suc i} (omega arith))
