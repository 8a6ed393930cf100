-- ===== src/Rtos/Ring/Push.antt =====
-- `push` of ring_buffer.rs against the bounded queue.
use native.Mathlib.Nat.{mod-lt}
use shawn_core_libraries.Base.{
  ℕ, suc, ◌+◌, ◌-◌, ◌%◌, ◌^◌, ◌<◌, ◌≡◌, ◌≢◌, refl, sym, ap, ap₂, ◌∙◌, true, false, [], ◌∷◌, ◌++◌,
  length-set, get_or, set, get_or-set, get_or-set_self, ok, err, leb, bit_and, Bool-cases, inl, inr,
  arith,
}
use shawn_core_libraries.Base.Bits.{bit, bit-bit_and, bit_and-pow}
use shawn_core_libraries.Rtos.Error.{queue_full}
use shawn_core_libraries.Rtos.Ring.{
  CacheAlignedSlot, RingBuffer, wrapping_add, wrapping_sub, slot_at, publish, push,
}
use shawn_core_libraries.Rtos.Ring.Indices.{IsCapacity, wrapped_slot, same_slot, capacity-bounds}
use shawn_core_libraries.Rtos.Ring.Contents.{
  item_at, items, contents, length-items, items-snoc, items-set,
}
use shawn_core_libraries.Rtos.Ring.Valid.{enqueue, IsValid, count}

module _ {ℓ} {T : Type ℓ} (capacity : ℕ) (default : T) where
  -- A published slot is stable.
  publish_stable :
      (item : T) (slot : CacheAlignedSlot T) → bit_and (publish item slot).sequence_counter 1 ≡ 0
  unfolding publish bit
  publish_stable item slot = ground (
    arith,
    bit_and-pow (bit_and (wrapping_add slot.sequence_counter 2) (2 ^ 64 - 1 - 1)) 0,
    bit-bit_and (wrapping_add slot.sequence_counter 2) (2 ^ 64 - 1 - 1) 0,
  )

  abbrev pushed : RingBuffer T → T → RingBuffer T
  pushed r item = record r {
    buffer =
        set r.buffer (r.head % capacity)
          (publish item (slot_at capacity default r (r.head % capacity)));
    head = wrapping_add r.head 1;
  }

  push_ok :
      (r : RingBuffer T) (item : T)
      → IsValid capacity default r
      → leb capacity (count capacity default r) ≡ false
      → push capacity default r item ≡ (ok tt, pushed r item)
  unfolding push
  push_ok r item v room = rw (v.ready, room) refl

  push_full :
      (r : RingBuffer T) (item : T)
      → IsValid capacity default r
      → leb capacity (count capacity default r) ≡ true
      → push capacity default r item ≡ (err queue_full, r)
  unfolding push
  push_full r item v full = ground (arith, v.ready)

  -- The running index behind the newest item, unwrapped, names the slot of `head`.
  head_slot :
      (r : RingBuffer T)
      → IsCapacity capacity
      → IsValid capacity default r
      → r.head % capacity ≡ (r.tail + count capacity default r) % capacity
  head_slot r c v =
      ap (λ i. i % capacity) {x = r.head} {y = (r.tail + count capacity default r) % 2 ^ 64}
        (omega (arith, v.words))
      ∙ wrapped_slot (r.tail + count capacity default r) c

  -- It names none of the items.
  free_slot :
      (r : RingBuffer T) (i : ℕ)
      → IsCapacity capacity
      → IsValid capacity default r
      → leb capacity (count capacity default r) ≡ false
      → i < count capacity default r
      → r.head % capacity ≢ (r.tail + i) % capacity
  free_slot r i c v room h e = absurd (
      omega (
        arith,
        same_slot capacity (r.tail + i) (r.tail + count capacity default r) (omega arith)
            (ground arith) (sym e ∙ head_slot r c v),
      ))

  pub contents-pushed :
      (r : RingBuffer T) (item : T)
      → IsCapacity capacity
      → IsValid capacity default r
      → leb capacity (count capacity default r) ≡ false
      → contents capacity default (pushed r item) ≡ contents capacity default r ++ item ∷ []
  unfolding publish
  contents-pushed r item c v room =
      ap (items capacity default (pushed r item).buffer r.tail) one_more
      ∙ items-snoc capacity default (pushed r item).buffer r.tail (count capacity default r)
      ∙ ap₂ (λ xs x. xs ++ x ∷ [])
          (items-set capacity default r.buffer r.tail (count capacity default r) (r.head % capacity)
            _ (λ i h. free_slot r i c v room h))
          newest
    where
      one_more : wrapping_sub (wrapping_add r.head 1) r.tail ≡ suc (count capacity default r)
      one_more = ground (arith, v.words, capacity-bounds c)

      newest :
          item_at capacity default (pushed r item).buffer (r.tail + count capacity default r) ≡ item
      newest =
          ap
            (λ i.
              (get_or (pushed r item).buffer i
                (record { data_cell = default; sequence_counter = 0 })).data_cell)
            (sym (head_slot r c v))
          ∙ ap (λ slot. slot.data_cell)
              (get_or-set_self r.buffer (r.head % capacity) _ _
                (omega (arith, v.storage, mod-lt r.head (capacity-bounds c).0)))

  pub pushed-IsValid :
      (r : RingBuffer T) (item : T)
      → IsCapacity capacity
      → IsValid capacity default r
      → leb capacity (count capacity default r) ≡ false
      → IsValid capacity default (pushed r item)
  pushed-IsValid r item c v room = record {
    ready = v.ready;
    storage = omega (
      arith,
      v.storage,
      length-set r.buffer (r.head % capacity)
          (publish item (slot_at capacity default r (r.head % capacity))),
    );
    words = ground (arith, v.words);
    used = ground (arith, v.words, v.used);
    stable = λ i below. ground (
      arith,
      v.stable i below,
      publish_stable item (slot_at capacity default r (r.head % capacity)),
      get_or-set r.buffer (r.head % capacity) i
          (publish item (slot_at capacity default r (r.head % capacity)))
          (record { data_cell = default; sequence_counter = 0 }),
    );
  }

  -- `push` on a valid ring whose size is a power of two is `enqueue`: it appends the item, or
  -- reports a full queue and leaves its contents; and the ring stays valid.
  pub push-enqueue :
      (r : RingBuffer T) (item : T)
      → IsCapacity capacity
      → IsValid capacity default r
      → let (result, r') = push capacity default r item in
        let (expected, q) = enqueue capacity (contents capacity default r) item in
        (result ≡ expected) × (contents capacity default r' ≡ q) × IsValid capacity default r'
  push-enqueue r item c v =
      let len = length-items capacity default r.buffer r.tail (count capacity default r) in
      elim (Bool-cases (leb capacity (count capacity default r))) [
        | inl full ↦ rw (push_full r item v full, len, full) (refl, refl, v)
        | inr room ↦
            rw (push_ok r item v room, len, room)
              (refl, contents-pushed r item c v room, pushed-IsValid r item c v room)
      ]
