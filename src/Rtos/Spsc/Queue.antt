-- ===== src/Rtos/Spsc/Queue.antt =====
-- The queue of spsc_queue.rs against the ring of ring_buffer.rs and the bounded queue of both.
use shawn_core_libraries.Base.{
  ℕ, ◌%◌, ◌≤◌, ◌≡◌, refl, sym, ap, ◌∙◌, List, [], ◌∷◌, length, ok, Option-cases, inl, inr, arith,
}
use shawn_core_libraries.Rtos.Ring.{CacheAlignedSlot, RingBuffer, stable_item}
use shawn_core_libraries.Rtos.Ring
use shawn_core_libraries.Rtos.Ring.Indices.{IsCapacity}
use shawn_core_libraries.Rtos.Ring.Queue.{
  Call, pushes, pops, Answer, pushed, popped, answers, queue_answers, answers-queue_answers,
}
use shawn_core_libraries.Rtos.Spsc.{SpscQueue, new, init, push, pop, slot_at}

-- The ring with the same storage, indices and flags.
abbrev pub as_ring {ℓ} : {T : Type ℓ} → SpscQueue T → RingBuffer T
as_ring q = record {
  buffer = q.buffer;
  head = q.head;
  tail = q.tail;
  is_initialized = q.is_initialized;
  is_initializing = q.is_initializing;
}

-- A call on the queue.
pub data SpscCall {ℓ} (T : Type ℓ) : Type ℓ where
  spsc_push : T → SpscCall T
  spsc_pop : SpscCall T

module _ {ℓ} {T : Type ℓ} (capacity : ℕ) (default : T) where
  -- The calls on the queue, and the same ones on a ring.
  unfoldable pub spsc_answers : SpscQueue T → List (SpscCall T) → List (Answer T)
  spsc_answers q [] = []
  spsc_answers q (spsc_push x ∷ cs) =
      let (a, q') = push capacity default q x in pushed a ∷ spsc_answers q' cs
  spsc_answers q (spsc_pop ∷ cs) =
      let (a, q') = pop capacity default q in popped a ∷ spsc_answers q' cs

  abbrev pub ring_calls : List (SpscCall T) → List (Call T)
  ring_calls [] = []
  ring_calls (spsc_push x ∷ cs) = pushes x ∷ ring_calls cs
  ring_calls (spsc_pop ∷ cs) = pops ∷ ring_calls cs

  pub push-as_ring :
      (q : SpscQueue T) (x : T)
      → Ring.push capacity default (as_ring q) x
        ≡ ((push capacity default q x).0, as_ring (push capacity default q x).1)
  unfolding push Ring.push
  push-as_ring q x = ground arith

  pub pop-as_ring :
      (q : SpscQueue T)
      → Ring.pop capacity default (as_ring q)
        ≡ ((pop capacity default q).0, as_ring (pop capacity default q).1)
  unfolding pop Ring.pop
  pop-as_ring q =
      elim (Option-cases (stable_item (slot_at capacity default q (q.tail % capacity)))) [
        | inl unstable ↦ ground arith
        | inr (item, stable) ↦ ground arith
      ]

  pub init-as_ring :
      (base_ptr slot_size slot_align size_in_bytes : ℕ) (memory : List (CacheAlignedSlot T))
      {q : SpscQueue T}
      → init capacity default new base_ptr slot_size slot_align size_in_bytes memory ≡ (ok tt, q)
      → Ring.init capacity default Ring.new base_ptr slot_size slot_align size_in_bytes memory
        ≡ (ok tt, as_ring q)
  unfolding init Ring.init
  init-as_ring base_ptr slot_size slot_align size_in_bytes memory h = ground arith

  spsc_answers-answers :
      (q : SpscQueue T) (cs : List (SpscCall T))
      → spsc_answers q cs ≡ answers capacity default (as_ring q) (ring_calls cs)
  unfolding spsc_answers answers
  spsc_answers-answers q [] = refl
  spsc_answers-answers q (spsc_push x ∷ cs) = rw (push-as_ring q x) (
      ap (λ as'. pushed (push capacity default q x).0 ∷ as')
        (spsc_answers-answers (push capacity default q x).1 cs))
  spsc_answers-answers q (spsc_pop ∷ cs) = rw (pop-as_ring q) (
      ap (λ as'. popped (pop capacity default q).0 ∷ as')
        (spsc_answers-answers (pop capacity default q).1 cs))

  -- A new queue whose size is a power of two below 2^64 and that `init` has set up over storage of
  -- enough slots, whatever they held, answers any sequence of pushes and pops as a ring buffer does
  -- that is initialized with the same arguments, and as a first-in first-out queue of at most
  -- `capacity` items that is empty at first.
  pub spsc_answers-queue_answers :
      (base_ptr slot_size slot_align size_in_bytes : ℕ) (memory : List (CacheAlignedSlot T))
      (cs : List (SpscCall T)) {q : SpscQueue T}
      → IsCapacity capacity
      → capacity ≤ length memory
      → init capacity default new base_ptr slot_size slot_align size_in_bytes memory ≡ (ok tt, q)
      → (spsc_answers q cs
          ≡ answers capacity default
              (Ring.init capacity default Ring.new base_ptr slot_size slot_align size_in_bytes
                memory).1
              (ring_calls cs))
        × (spsc_answers q cs ≡ queue_answers capacity default [] (ring_calls cs))
  spsc_answers-queue_answers base_ptr slot_size slot_align size_in_bytes memory cs {q} c l h =
      let same = init-as_ring base_ptr slot_size slot_align size_in_bytes memory h in
      (
        spsc_answers-answers q cs
            ∙ ap (λ r. answers capacity default r.1 (ring_calls cs)) (sym same),
        spsc_answers-answers q cs
            ∙ answers-queue_answers capacity default base_ptr slot_size slot_align size_in_bytes
                memory (ring_calls cs) c l same,
      )
