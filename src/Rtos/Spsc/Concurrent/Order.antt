-- ===== src/Rtos/Spsc/Concurrent/Order.antt =====
-- The threads of spsc_queue.rs in any order of their steps: what `pop` returns.
use shawn_core_libraries.Base.{
  ℕ, ◌+◌, ◌≤◌, ◌≡◌, refl, sym, ap, ◌∙◌, true, List, length, bit_and, arith, ◌==◌, ◌&&◌, ok, take,
  length-append,
}
use shawn_core_libraries.Rtos.Ring.{CacheAlignedSlot}
use shawn_core_libraries.Rtos.Ring.Indices.{IsCapacity}
use shawn_core_libraries.Base.Encoding.{take-append}
use shawn_core_libraries.Rtos.Ring.Queue.{init-IsValid}
use shawn_core_libraries.Rtos.Spsc.Queue.{init-as_ring}
use shawn_core_libraries.Rtos.Spsc.Concurrent.Waiting.{length-waiting}
use shawn_core_libraries.Rtos.Spsc.{SpscQueue, new, init}
use shawn_core_libraries.Rtos.Spsc.Concurrent.{entered, taken, Machine, tail_slot, Reachable}
use shawn_core_libraries.Rtos.Spsc.Concurrent.Invariant.{active, loaded, count, waiting, Inv}
use shawn_core_libraries.Rtos.Spsc.Concurrent.Preservation.{oldest_even, Reachable-Inv}

module _ {ℓ} {T : Type ℓ} (capacity : ℕ) (default : T) where
  init-empty :
      (base_ptr slot_size slot_align size_in_bytes : ℕ) (memory : List (CacheAlignedSlot T))
      {q : SpscQueue T}
      → init capacity default new base_ptr slot_size slot_align size_in_bytes memory ≡ (ok tt, q)
      → (q.head ≡ 0) × (q.tail ≡ 0)
  unfolding init
  init-empty base_ptr slot_size slot_align size_in_bytes memory h = ground arith

  always :
      (base_ptr slot_size slot_align size_in_bytes : ℕ) (memory : List (CacheAlignedSlot T))
      {q : SpscQueue T} {m : Machine T}
      → IsCapacity capacity
      → capacity ≤ length memory
      → init capacity default new base_ptr slot_size slot_align size_in_bytes memory ≡ (ok tt, q)
      → Reachable capacity default q m
      → Inv capacity default m
  always base_ptr slot_size slot_align size_in_bytes memory c l h reached =
      let ready =
        init-IsValid capacity default base_ptr slot_size slot_align size_in_bytes memory c l
          (init-as_ring capacity default base_ptr slot_size slot_align size_in_bytes memory h) in
      let empty = init-empty base_ptr slot_size slot_align size_in_bytes memory h in
      Reachable-Inv capacity default c ready.0.storage empty.0 empty.1 reached

  -- A queue whose size is a power of two below 2^64, set up by `init` over storage of enough slots
  -- and then used by one producer and one consumer, in any interleaving of their steps: the items
  -- that `pop` has returned are the first ones that `push` accepted, in that order, and at most
  -- `capacity` accepted items are still to be returned.
  pub popped_in_order :
      (base_ptr slot_size slot_align size_in_bytes : ℕ) (memory : List (CacheAlignedSlot T))
      (m : Machine T) {q : SpscQueue T}
      → IsCapacity capacity
      → capacity ≤ length memory
      → init capacity default new base_ptr slot_size slot_align size_in_bytes memory ≡ (ok tt, q)
      → Reachable capacity default q m
      → (m.popped ≡ take (length m.popped) m.pushed)
        × (length m.pushed ≤ length m.popped + capacity)
  popped_in_order base_ptr slot_size slot_align size_in_bytes memory m c l h reached =
      let v = always base_ptr slot_size slot_align size_in_bytes memory c l h reached in
      (
        sym (ap (take (length m.popped)) v.history ∙ take-append (length m.popped) m.popped _ refl),
        omega (
          arith,
          ap length v.history,
          length-append m.popped (
              waiting capacity default m.queue.buffer m.queue.tail (count capacity default m.queue)
                m.consumer),
          length-waiting capacity default m.queue.buffer m.queue.tail
              (count capacity default m.queue) m.consumer v.present,
          v.used,
        ),
      )

  -- On a queue set up in the same way, in any interleaving: a consumer whose `pop` has found an item
  -- finds the slot's counter even at its first load, and even and the same at its second.
  pub validation_holds :
      (base_ptr slot_size slot_align size_in_bytes : ℕ) (memory : List (CacheAlignedSlot T))
      (m : Machine T) {q : SpscQueue T}
      → IsCapacity capacity
      → capacity ≤ length memory
      → init capacity default new base_ptr slot_size slot_align size_in_bytes memory ≡ (ok tt, q)
      → Reachable capacity default q m
      → (m.consumer ≡ entered
          → bit_and (tail_slot capacity default m.queue).sequence_counter 1 == 0 ≡ true)
        × ((first_sequence : ℕ) (item : T)
            → m.consumer ≡ taken first_sequence item
            → first_sequence == (tail_slot capacity default m.queue).sequence_counter
                && bit_and (tail_slot capacity default m.queue).sequence_counter 1 == 0
              ≡ true)
  validation_holds base_ptr slot_size slot_align size_in_bytes memory m c l h reached =
      let v = always base_ptr slot_size slot_align size_in_bytes memory c l h reached in
      (
        λ at_work. ground (arith, oldest_even capacity default m v (ap active at_work)),
        λ first_sequence item at_work.
            let unchanged =
              sym (ap (λ k. loaded k (tail_slot capacity default m.queue).sequence_counter) at_work)
              ∙ v.sequence in
            ground (arith, unchanged, oldest_even capacity default m v (ap active at_work)),
      )
