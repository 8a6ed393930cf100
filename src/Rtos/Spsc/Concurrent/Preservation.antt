-- ===== src/Rtos/Spsc/Concurrent/Preservation.antt =====
-- Every step of the threads of spsc_queue.rs keeps the invariant.
use shawn_core_libraries.Base.{
  ℕ, ◌+◌, ◌-◌, ◌%◌, ◌^◌, ◌≤◌, ◌≡◌, refl, sym, ap, ◌∙◌, true, length, bit_and, arith,
}
use shawn_core_libraries.Base.Bits.{bit, bit-bit_and, bit_and-pow}
use shawn_core_libraries.Rtos.Ring.{wrapping_add}
use shawn_core_libraries.Rtos.Ring.Indices.{IsCapacity}
use shawn_core_libraries.Rtos.Ring.Contents.{items}
use shawn_core_libraries.Rtos.Spsc.{SpscQueue, slot_at}
use shawn_core_libraries.Rtos.Spsc.Concurrent.{
  admitted, marked, stored, published, Consumer, idle, entered, sequenced, taken, validated,
  Machine, head_slot, tail_slot, Step, refuse, admit, mark, store, publish, advance_head,
  find_empty, enter, unstable, load_first, read_item, changed, validate, clear, advance_tail,
  launch, Reachable, start, next,
}
use shawn_core_libraries.Rtos.Spsc.Concurrent.Invariant.{
  busy, active, wrote, loaded, held, count, waiting, Inv,
}
use shawn_core_libraries.Rtos.Spsc.Concurrent.Moves.{head_write-Inv, admit-Inv, read-Inv}
use shawn_core_libraries.Rtos.Spsc.Concurrent.Clear.{clear-Inv}
use shawn_core_libraries.Rtos.Spsc.Concurrent.Advance.{head-Inv, tail-Inv}

-- The even store.
cleared_bit : (sequence : ℕ) → bit_and (bit_and (wrapping_add sequence 2) (2 ^ 64 - 1 - 1)) 1 ≡ 0
unfolding bit
cleared_bit sequence = ground (
  arith,
  bit_and-pow (bit_and (wrapping_add sequence 2) (2 ^ 64 - 1 - 1)) 0,
  bit-bit_and (wrapping_add sequence 2) (2 ^ 64 - 1 - 1) 0,
)

module _ {ℓ} {T : Type ℓ} (capacity : ℕ) (default : T) where
  -- The consumer past its test finds the slot of `tail` even.
  pub oldest_even :
      (m : Machine T)
      → Inv capacity default m
      → active m.consumer ≡ true
      → bit_and (tail_slot capacity default m.queue).sequence_counter 1 ≡ 0
  oldest_even m v at_work =
      ap (λ i. bit_and (slot_at capacity default m.queue (i % capacity)).sequence_counter 1)
        {x = m.queue.tail} {y = m.queue.tail + 0} (omega arith)
      ∙ v.even 0 (v.present at_work)

  waiting_as :
      (m : Machine T) {c : Consumer T}
      → m.consumer ≡ c
      → waiting capacity default m.queue.buffer m.queue.tail
          (count capacity default m.queue)
          m.consumer
        ≡ waiting capacity default m.queue.buffer m.queue.tail (count capacity default m.queue) c
  waiting_as m e =
      ap (waiting capacity default m.queue.buffer m.queue.tail (count capacity default m.queue)) e

  Step-Inv :
      {m m' : Machine T}
      → IsCapacity capacity
      → Inv capacity default m
      → Step capacity default m m'
      → Inv capacity default m'
  Step-Inv c v (refuse at_rest full) = v
  Step-Inv {m = m} c v (admit x at_rest space) =
      admit-Inv capacity default m (admitted x) v (ground (arith, space)) (λ low. refl)
        (λ own. refl)
  Step-Inv {m = m} c v (mark x at_work) =
      head_write-Inv capacity default m _ (marked _ x) c v (ap busy at_work) refl refl
  Step-Inv {m = m} c v (store s x at_work) =
      head_write-Inv capacity default m _ (stored s x) c v (ap busy at_work) refl refl
  Step-Inv {m = m} c v (publish s x at_work) =
      head_write-Inv capacity default m _ (published x) c v (ap busy at_work) (cleared_bit s)
        (sym (ap (λ p. wrote p (head_slot capacity default m.queue).data_cell) at_work) ∙ v.in_slot)
  Step-Inv {m = m} c v (advance_head x at_work) = head-Inv capacity default m x c v at_work
  Step-Inv c v (find_empty at_rest empty) = v
  Step-Inv {m = m} c v (enter at_rest some_left) =
      read-Inv capacity default m entered v (λ h. ground (arith, some_left, v.words)) refl refl
        (waiting_as m at_rest)
  Step-Inv {m = m} c v (unstable at_work odd) =
      read-Inv capacity default m idle v (λ h. v.present (ap active at_work)) refl refl
        (waiting_as m at_work)
  Step-Inv {m = m} c v (load_first at_work is_even) =
      read-Inv capacity default m (sequenced _) v (λ h. v.present (ap active at_work)) refl refl
        (waiting_as m at_work)
  Step-Inv {m = m} c v (read_item f at_work) =
      read-Inv capacity default m (taken f _) v (λ h. v.present (ap active at_work))
        (sym (ap (λ k. loaded k (tail_slot capacity default m.queue).sequence_counter) at_work)
          ∙ v.sequence)
        refl (waiting_as m at_work)
  Step-Inv {m = m} c v (changed f x at_work differs) =
      read-Inv capacity default m idle v (λ h. v.present (ap active at_work)) refl refl
        (waiting_as m at_work)
  Step-Inv {m = m} c v (validate f x at_work same) =
      read-Inv capacity default m (validated x) v (λ h. v.present (ap active at_work)) refl
        (sym (ap (λ k. held k (tail_slot capacity default m.queue).data_cell) at_work) ∙ v.item)
        (waiting_as m at_work)
  Step-Inv {m = m} c v (clear x at_work) = clear-Inv capacity default m x c v at_work
  Step-Inv {m = m} c v (advance_tail x at_work) = tail-Inv capacity default m x c v at_work

  launch-Inv :
      (q : SpscQueue T)
      → capacity ≤ length q.buffer
      → q.head ≡ 0
      → q.tail ≡ 0
      → Inv capacity default (launch capacity default q)
  launch-Inv q l h t = record {
    storage = l;
    words = omega (arith, h, t);
    used = omega (arith, h, t);
    room = λ e. absurd (ground (arith, e));
    present = λ e. absurd (ground (arith, e));
    even = λ i below. absurd (omega (arith, h, t, below));
    complete = refl;
    in_slot = refl;
    sequence = refl;
    item = refl;
    history = sym (
        ap (items capacity default q.buffer q.tail) {x = count capacity default q} {y = 0}
          (omega (arith, h, t)));
  }

  pub Reachable-Inv :
      {q : SpscQueue T} {m : Machine T}
      → IsCapacity capacity
      → capacity ≤ length q.buffer
      → q.head ≡ 0
      → q.tail ≡ 0
      → Reachable capacity default q m
      → Inv capacity default m
  Reachable-Inv {q = q} c l h t start = launch-Inv q l h t
  Reachable-Inv c l h t (next before step) = Step-Inv c (Reachable-Inv c l h t before) step
