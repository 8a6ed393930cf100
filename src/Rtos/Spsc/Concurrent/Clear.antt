-- ===== src/Rtos/Spsc/Concurrent/Clear.antt =====
-- The consumer of spsc_queue.rs clears the slot of `tail`.
use shawn_core_libraries.Base.{
  ℕ, suc, ◌+◌, ◌-◌, ◌%◌, ◌≤◌, ◌<◌, ◌≡◌, refl, sym, ap, ◌∙◌, true, ◌∷◌, ◌++◌, length-set, get_or-set,
  get_or-set_ne, bit_and, arith,
}
use shawn_core_libraries.Rtos.Ring.Indices.{IsCapacity}
use shawn_core_libraries.Rtos.Ring.Contents.{items, items-set}
use shawn_core_libraries.Rtos.Spsc.{SpscQueue, slot_at}
use shawn_core_libraries.Rtos.Spsc.Concurrent.{
  validated, cleared, Machine, head_slot, tail_slot, set_tail_slot,
}
use shawn_core_libraries.Rtos.Spsc.Concurrent.Slots.{head_apart, tail_apart}
use shawn_core_libraries.Rtos.Spsc.Concurrent.Invariant.{
  busy, active, held, wrote_keep, settled_keep, count, waiting, Inv,
}

module _ {ℓ} {T : Type ℓ} (capacity : ℕ) (default : T) where
  abbrev pub emptied : SpscQueue T → SpscQueue T
  emptied q =
      set_tail_slot capacity default q
        (record (tail_slot capacity default q) { data_cell = default })

  -- The oldest item stands alone in its slot.
  first_item :
      (q : SpscQueue T)
      → 0 < count capacity default q
      → count capacity default q ≤ capacity
      → items capacity default q.buffer q.tail (count capacity default q)
        ≡ (tail_slot capacity default q).data_cell
          ∷ items capacity default (emptied q).buffer (q.tail + 1) (count capacity default q - 1)
  first_item q occupied fits =
      ap (items capacity default q.buffer q.tail) {x = count capacity default q}
        {y = suc (count capacity default q - 1)} (omega (arith, occupied))
      ∙ ap (λ xs. (tail_slot capacity default q).data_cell ∷ xs)
          (sym (
            items-set capacity default q.buffer (q.tail + 1) (count capacity default q - 1)
              (q.tail % capacity) _
              (λ i below.
                tail_apart q.tail i (count capacity default q) fits (omega (arith, below)))))

  -- The counters stay, and so does the slot of `head` unless the queue is full.
  counters :
      (q : SpscQueue T) (i : ℕ)
      → bit_and (slot_at capacity default q i).sequence_counter 1 ≡ 0
      → bit_and (slot_at capacity default (emptied q) i).sequence_counter 1 ≡ 0
  counters q i h = ground (
    arith,
    h,
    get_or-set q.buffer (q.tail % capacity) i
        (record (tail_slot capacity default q) { data_cell = default })
        (record { data_cell = default; sequence_counter = 0 }),
  )

  pub clear-Inv :
      (m : Machine T) (x : T)
      → IsCapacity capacity
      → Inv capacity default m
      → m.consumer ≡ validated x
      → Inv capacity default (record m { queue = emptied m.queue; consumer = cleared x })
  clear-Inv m x c v at_work = record {
    storage = omega (
      arith,
      v.storage,
      length-set m.queue.buffer (m.queue.tail % capacity)
          (record (tail_slot capacity default m.queue) { data_cell = default }),
    );
    words = v.words;
    used = v.used;
    room = v.room;
    present = λ h. occupied;
    even = λ i below. counters m.queue ((m.queue.tail + i) % capacity) (v.even i below);
    complete =
        settled_keep m.producer v.complete (λ h. ap (λ s. bit_and s.sequence_counter 1) (newest h));
    in_slot = wrote_keep m.producer v.in_slot (λ h. ap (λ s. s.data_cell) (newest h));
    sequence = refl;
    item = refl;
    history =
        v.history
        ∙ ap (λ xs. m.popped ++ xs)
            (ap
                (waiting capacity default m.queue.buffer m.queue.tail
                  (count capacity default m.queue))
                at_work
              ∙ first_item m.queue occupied v.used
              ∙ ap
                  (λ y.
                    y
                    ∷ items capacity default (emptied m.queue).buffer (m.queue.tail + 1)
                        (count capacity default m.queue - 1))
                  (sym v.item
                    ∙ ap (λ d. held d (tail_slot capacity default m.queue).data_cell) at_work));
  }
    where
      occupied : 0 < count capacity default m.queue
      occupied = v.present (ap active at_work)

      newest :
          busy m.producer ≡ true
          → head_slot capacity default (emptied m.queue) ≡ head_slot capacity default m.queue
      newest h =
          get_or-set_ne m.queue.buffer (m.queue.tail % capacity) (m.queue.head % capacity) _ _ (λ e.
            head_apart m.queue.head m.queue.tail 0 c v.words.0 v.words.1 (v.room h) occupied (
              sym e
              ∙ ap (λ i. i % capacity) {x = m.queue.tail} {y = m.queue.tail + 0} (omega arith)))
