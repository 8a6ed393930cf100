-- ===== src/Rtos/Spsc/Concurrent/Advance.antt =====
-- The indices of spsc_queue.rs move on: an item is in the queue, or out of it.
use mathlib.Core.List.{append_assoc}
use native.Mathlib.Nat.{mod-add-mod}
use shawn_core_libraries.Base.{
  ℕ, suc, ◌+◌, ◌-◌, ◌%◌, ◌^◌, ◌<◌, ◌≡◌, refl, sym, ap, ap₂, ◌∙◌, [], ◌∷◌, ◌++◌, bit_and, arith, ◌⊎◌,
  inl, inr,
}
use shawn_core_libraries.Rtos.Ring.{wrapping_add}
use shawn_core_libraries.Rtos.Ring.Indices.{IsCapacity, capacity-bounds, wrapped_slot}
use shawn_core_libraries.Rtos.Ring.Contents.{items, item_at, items-same}
use shawn_core_libraries.Rtos.Spsc.{SpscQueue, slot_at}
use shawn_core_libraries.Rtos.Spsc.Concurrent.{
  resting, published, idle, cleared, Machine, head_slot,
}
use shawn_core_libraries.Rtos.Spsc.Concurrent.Slots.{slot_of_head}
use shawn_core_libraries.Rtos.Spsc.Concurrent.Invariant.{
  busy, active, wrote, settled, count, waiting, Inv,
}
use shawn_core_libraries.Rtos.Spsc.Concurrent.Waiting.{waiting-snoc}

module _ {ℓ} {T : Type ℓ} (capacity : ℕ) (default : T) where
  abbrev pub with_head : SpscQueue T → SpscQueue T
  with_head q = record q { head = wrapping_add q.head 1 }

  abbrev pub with_tail : SpscQueue T → SpscQueue T
  with_tail q = record q { tail = wrapping_add q.tail 1 }

  one_more :
      (q : SpscQueue T)
      → IsCapacity capacity
      → q.head < 2 ^ 64
      → q.tail < 2 ^ 64
      → count capacity default q < capacity
      → count capacity default (with_head q) ≡ suc (count capacity default q)
  one_more q c h t room = ground (arith, h, t, room, capacity-bounds c)

  one_less :
      (q : SpscQueue T)
      → q.head < 2 ^ 64
      → q.tail < 2 ^ 64
      → 0 < count capacity default q
      → count capacity default (with_tail q) ≡ count capacity default q - 1
  one_less q h t occupied = ground (arith, h, t, occupied)

  pub head-Inv :
      (m : Machine T) (x : T)
      → IsCapacity capacity
      → Inv capacity default m
      → m.producer ≡ published x
      → Inv capacity default
          (record m { queue = with_head m.queue; producer = resting; pushed = m.pushed ++ x ∷ [] })
  head-Inv m x c v at_work = record {
    storage = v.storage;
    words = (omega arith, v.words.1);
    used = omega (arith, more, space);
    room = λ h. absurd (ground (arith, h));
    present = λ h. omega (arith, more);
    even = even;
    complete = refl;
    in_slot = refl;
    sequence = v.sequence;
    item = v.item;
    history =
        ap (λ xs. xs ++ x ∷ []) v.history
        ∙ append_assoc m.popped _ (x ∷ [])
        ∙ ap (λ xs. m.popped ++ xs)
            (ap₂ (λ xs y. xs ++ y ∷ []) refl newest
              ∙ sym (
                  waiting-snoc capacity default m.queue.buffer m.queue.tail
                    (count capacity default m.queue) m.consumer v.present)
              ∙ ap (λ n. waiting capacity default m.queue.buffer m.queue.tail n m.consumer)
                  (sym more));
  }
    where
      space : count capacity default m.queue < capacity
      space = v.room (ap busy at_work)

      more : count capacity default (with_head m.queue) ≡ suc (count capacity default m.queue)
      more = one_more m.queue c v.words.0 v.words.1 space

      behind : m.queue.head % capacity ≡ (m.queue.tail + count capacity default m.queue) % capacity
      behind = slot_of_head m.queue.head m.queue.tail c v.words.0 v.words.1

      newest :
          x
          ≡ item_at capacity default m.queue.buffer (m.queue.tail + count capacity default m.queue)
      newest =
          sym (ap (λ p. wrote p (head_slot capacity default m.queue).data_cell) at_work)
          ∙ v.in_slot
          ∙ ap (λ i. (slot_at capacity default m.queue i).data_cell) behind

      lt_or_eq :
          (i : ℕ)
          → i < suc (count capacity default m.queue)
          → (i < count capacity default m.queue) ⊎ (i ≡ count capacity default m.queue)
      lt_or_eq i below = ground arith

      even :
          (i : ℕ)
          → i < count capacity default (with_head m.queue)
          → bit_and
              (slot_at capacity default m.queue ((m.queue.tail + i) % capacity)).sequence_counter
              1
            ≡ 0
      even i below = elim (lt_or_eq i (omega (arith, below, more))) [
        | inl old ↦ v.even i old
        | inr last ↦
            ap
              (λ j.
                bit_and
                  (slot_at capacity default m.queue
                    ((m.queue.tail + j) % capacity)).sequence_counter
                  1)
              last
            ∙ ap (λ j. bit_and (slot_at capacity default m.queue j).sequence_counter 1) (sym behind)
            ∙ sym (
                ap
                  (λ p. settled p (bit_and (head_slot capacity default m.queue).sequence_counter 1))
                  at_work)
            ∙ v.complete
      ]

  pub tail-Inv :
      (m : Machine T) (x : T)
      → IsCapacity capacity
      → Inv capacity default m
      → m.consumer ≡ cleared x
      → Inv capacity default
          (record m { queue = with_tail m.queue; consumer = idle; popped = m.popped ++ x ∷ [] })
  tail-Inv m x c v at_work = record {
    storage = v.storage;
    words = (v.words.0, omega arith);
    used = omega (arith, less, v.used);
    room = λ h. omega (arith, less, v.room h);
    present = λ h. absurd (ground (arith, h));
    even = λ i below.
        ap (λ j. bit_and (slot_at capacity default m.queue j).sequence_counter 1) (moved i)
        ∙ v.even (i + 1) (omega (arith, below, less));
    complete = v.complete;
    in_slot = v.in_slot;
    sequence = refl;
    item = refl;
    history =
        v.history
        ∙ ap (λ xs. m.popped ++ xs)
            (ap
                (waiting capacity default m.queue.buffer m.queue.tail
                  (count capacity default m.queue))
                at_work
              ∙ ap (λ xs. x ∷ xs)
                  (items-same capacity default m.queue.buffer (m.queue.tail + 1)
                      (wrapping_add m.queue.tail 1) (count capacity default m.queue - 1)
                      (sym (wrapped_slot (m.queue.tail + 1) c))
                    ∙ ap (items capacity default m.queue.buffer (wrapping_add m.queue.tail 1))
                        (sym less)))
        ∙ sym (append_assoc m.popped (x ∷ []) _);
  }
    where
      occupied : 0 < count capacity default m.queue
      occupied = v.present (ap active at_work)

      less : count capacity default (with_tail m.queue) ≡ count capacity default m.queue - 1
      less = one_less m.queue v.words.0 v.words.1 occupied

      moved :
          (i : ℕ)
          → (wrapping_add m.queue.tail 1 + i) % capacity ≡ (m.queue.tail + (i + 1)) % capacity
      moved i =
          sym (mod-add-mod (wrapping_add m.queue.tail 1) capacity i)
          ∙ ap (λ j. (j + i) % capacity) (wrapped_slot (m.queue.tail + 1) c)
          ∙ mod-add-mod (m.queue.tail + 1) capacity i
          ∙ ap (λ j. j % capacity) {x = m.queue.tail + 1 + i} {y = m.queue.tail + (i + 1)}
              (omega arith)
