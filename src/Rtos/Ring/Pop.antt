-- ===== src/Rtos/Ring/Pop.antt =====
-- `pop` and `peek` of ring_buffer.rs against the bounded queue.
use native.Mathlib.Nat.{mod-lt}
use shawn_core_libraries.Base.{
  ℕ, suc, ◌+◌, ◌%◌, ◌<◌, ◌≡◌, ◌≢◌, refl, sym, ap, ◌∙◌, true, false, [], ◌∷◌, length-set, set,
  get_or-set, none, some, ◌==◌, bit_and, Bool-cases, inl, inr, arith,
}
use shawn_core_libraries.Rtos.Ring.{
  CacheAlignedSlot, RingBuffer, wrapping_add, slot_at, stable_item, pop, peek,
}
use shawn_core_libraries.Rtos.Ring.Indices.{IsCapacity, wrapped_slot, same_slot, capacity-bounds}
use shawn_core_libraries.Rtos.Ring.Contents.{item_at, items, contents, items-same, items-set}
use shawn_core_libraries.Rtos.Ring.Valid.{dequeue, IsValid, count}

module _ {ℓ} {T : Type ℓ} (capacity : ℕ) (default : T) where
  abbrev popped : RingBuffer T → RingBuffer T
  popped r = record r {
    buffer =
        set r.buffer (r.tail % capacity)
          (record (slot_at capacity default r (r.tail % capacity)) { data_cell = default });
    tail = wrapping_add r.tail 1;
  }

  stable_item_ok :
      (slot : CacheAlignedSlot T)
      → bit_and slot.sequence_counter 1 ≡ 0
      → stable_item slot ≡ some slot.data_cell
  unfolding stable_item
  stable_item_ok slot even = ground arith

  pop_ok :
      (r : RingBuffer T)
      → IsCapacity capacity
      → IsValid capacity default r
      → r.head == r.tail ≡ false
      → pop capacity default r ≡ (some (item_at capacity default r.buffer r.tail), popped r)
  unfolding pop
  pop_ok r c v some_item = ground (
    arith,
    v.ready,
    stable_item_ok (slot_at capacity default r (r.tail % capacity))
        (v.stable (r.tail % capacity) (mod-lt r.tail (capacity-bounds c).0)),
  )

  pop_empty : (r : RingBuffer T) → r.head == r.tail ≡ true → pop capacity default r ≡ (none, r)
  unfolding pop
  pop_empty r empty = ground arith

  peek-pop : (r : RingBuffer T) → peek capacity default r ≡ (pop capacity default r).0
  unfolding peek pop
  peek-pop r = ground arith

  pub popped-IsValid :
      (r : RingBuffer T)
      → IsCapacity capacity
      → IsValid capacity default r
      → r.head == r.tail ≡ false
      → IsValid capacity default (popped r)
  popped-IsValid r c v some_item = record {
    ready = v.ready;
    storage = omega (
      arith,
      v.storage,
      length-set r.buffer (r.tail % capacity)
          (record (slot_at capacity default r (r.tail % capacity)) { data_cell = default }),
    );
    words = ground (arith, v.words);
    used = ground (arith, v.words, v.used);
    stable = λ i below. ground (
      arith,
      v.stable i below,
      v.stable (r.tail % capacity) (mod-lt r.tail (capacity-bounds c).0),
      get_or-set r.buffer (r.tail % capacity) i
          (record (slot_at capacity default r (r.tail % capacity)) { data_cell = default })
          (record { data_cell = default; sequence_counter = 0 }),
    );
  }

  -- The oldest item's slot names none of the others.
  other_slots :
      (r : RingBuffer T) (i : ℕ)
      → IsValid capacity default r
      → i < count capacity default (popped r)
      → r.head == r.tail ≡ false
      → r.tail % capacity ≢ (r.tail + 1 + i) % capacity
  other_slots r i v h some_item e = absurd (
      omega (
        arith,
        same_slot capacity r.tail (r.tail + 1 + i) (omega arith) (ground (arith, v.used, v.words))
            e,
      ))

  pub contents-popped :
      (r : RingBuffer T)
      → IsCapacity capacity
      → IsValid capacity default r
      → r.head == r.tail ≡ false
      → contents capacity default r
        ≡ item_at capacity default r.buffer r.tail ∷ contents capacity default (popped r)
  contents-popped r c v some_item =
      ap (items capacity default r.buffer r.tail) one_less
      ∙ ap (λ xs. item_at capacity default r.buffer r.tail ∷ xs) (sym rest)
    where
      one_less : count capacity default r ≡ suc (count capacity default (popped r))
      one_less = ground (arith, v.words)

      rest :
          contents capacity default (popped r)
          ≡ items capacity default r.buffer (r.tail + 1) (count capacity default (popped r))
      rest =
          items-same capacity default (popped r).buffer (wrapping_add r.tail 1) (r.tail + 1)
            (count capacity default (popped r)) (wrapped_slot (r.tail + 1) c)
          ∙ items-set capacity default r.buffer (r.tail + 1) (count capacity default (popped r))
              (r.tail % capacity) _ (λ i h. other_slots r i v h some_item)

  -- `pop` on a valid ring whose size is a power of two is `dequeue`: it gives the oldest item and
  -- removes it, or nothing if the ring is empty; and the ring stays valid. `peek` gives what `pop`
  -- would.
  pub pop-dequeue :
      (r : RingBuffer T)
      → IsCapacity capacity
      → IsValid capacity default r
      → let (result, r') = pop capacity default r in
        let (expected, q) = dequeue (contents capacity default r) in
        (result ≡ expected)
        × (contents capacity default r' ≡ q)
        × IsValid capacity default r'
        × (peek capacity default r ≡ expected)
  pop-dequeue r c v = elim (Bool-cases (r.head == r.tail)) [
    | inl empty ↦
        let none_left : contents capacity default r ≡ [] =
          ap (items capacity default r.buffer r.tail) {x = count capacity default r} {y = 0}
            (ground arith) in
        rw (peek-pop r, pop_empty r empty, none_left) (refl, refl, v, refl)
    | inr some_item ↦
        rw (peek-pop r, pop_ok r c v some_item, contents-popped r c v some_item)
          (refl, refl, popped-IsValid r c v some_item, refl)
  ]
