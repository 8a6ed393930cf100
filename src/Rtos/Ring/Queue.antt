-- ===== src/Rtos/Ring/Queue.antt =====
-- Any sequence of calls on a ring of ring_buffer.rs, from `init` on.
use shawn_core_libraries.Base.{
  ℕ, zero, suc, ◌≤◌, ◌<◌, ◌≡◌, refl, ap, ap₂, ◌∙◌, Option, List, [], ◌∷◌, length, get_or, Result,
  ok, arith,
}
use shawn_core_libraries.Rtos.Error.{IpcError}
use shawn_core_libraries.Rtos.Ring.{
  CacheAlignedSlot, RingBuffer, new, reset_counters, init, push, pop, peek,
}
use shawn_core_libraries.Rtos.Ring.Indices.{IsCapacity}
use shawn_core_libraries.Rtos.Ring.Contents.{contents, items}
use shawn_core_libraries.Rtos.Ring.Valid.{enqueue, dequeue, IsValid, count}
use shawn_core_libraries.Rtos.Ring.Push.{push-enqueue}
use shawn_core_libraries.Rtos.Ring.Pop.{pop-dequeue}

-- A call, and what it answers.
pub data Call {ℓ} (T : Type ℓ) : Type ℓ where
  pushes : T → Call T
  pops : Call T
  peeks : Call T

pub data Answer {ℓ} (T : Type ℓ) : Type ℓ where
  pushed : Result IpcError (Unit {0}) → Answer T
  popped : Option T → Answer T

length-reset_counters {ℓ} :
    {T : Type ℓ} (n : ℕ) (slots : List (CacheAlignedSlot T))
    → length (reset_counters n slots) ≡ length slots
unfolding reset_counters
length-reset_counters zero slots = refl
length-reset_counters (suc n) [] = refl
length-reset_counters (suc n) (slot ∷ slots) = ap suc (length-reset_counters n slots)

reset_counters_even {ℓ} :
    {T : Type ℓ} (n i : ℕ) (slots : List (CacheAlignedSlot T)) (d : CacheAlignedSlot T)
    → i < n
    → n ≤ length slots
    → (get_or (reset_counters n slots) i d).sequence_counter ≡ 0
unfolding reset_counters
reset_counters_even zero i slots d h l = absurd (omega arith)
reset_counters_even (suc n) i [] d h l = absurd (omega arith)
reset_counters_even (suc n) zero (slot ∷ slots) d h l = refl
reset_counters_even (suc n) (suc i) (slot ∷ slots) d h l =
    reset_counters_even n i slots d (omega arith) (omega arith)

module _ {ℓ} {T : Type ℓ} (capacity : ℕ) (default : T) where
  -- The calls on the ring, and on the queue.
  unfoldable pub answers : RingBuffer T → List (Call T) → List (Answer T)
  answers r [] = []
  answers r (pushes x ∷ cs) = let (a, r') = push capacity default r x in pushed a ∷ answers r' cs
  answers r (pops ∷ cs) = let (a, r') = pop capacity default r in popped a ∷ answers r' cs
  answers r (peeks ∷ cs) = popped (peek capacity default r) ∷ answers r cs

  unfoldable pub queue_answers : List T → List (Call T) → List (Answer T)
  queue_answers q [] = []
  queue_answers q (pushes x ∷ cs) =
      let (a, q') = enqueue capacity q x in pushed a ∷ queue_answers q' cs
  queue_answers q (pops ∷ cs) = let (a, q') = dequeue q in popped a ∷ queue_answers q' cs
  queue_answers q (peeks ∷ cs) = popped (dequeue q).0 ∷ queue_answers q cs

  answers_from :
      (r : RingBuffer T) (q : List T) (cs : List (Call T))
      → IsCapacity capacity
      → IsValid capacity default r
      → contents capacity default r ≡ q
      → answers r cs ≡ queue_answers q cs
  unfolding answers queue_answers
  answers_from r q [] c v e = refl
  answers_from r q (pushes x ∷ cs) c v e =
      let (same, left, v') = push-enqueue capacity default r x c v in
      ap₂ (λ a as'. a ∷ as') (ap pushed (same ∙ ap (λ q. (enqueue capacity q x).0) e))
        (answers_from (push capacity default r x).1 (enqueue capacity q x).1 cs c v'
          (left ∙ ap (λ q. (enqueue capacity q x).1) e))
  answers_from r q (pops ∷ cs) c v e =
      let (same, left, v', looks) = pop-dequeue capacity default r c v in
      ap₂ (λ a as'. a ∷ as') (ap popped (same ∙ ap (λ q. (dequeue q).0) e))
        (answers_from (pop capacity default r).1 (dequeue q).1 cs c v'
          (left ∙ ap (λ q. (dequeue q).1) e))
  answers_from r q (peeks ∷ cs) c v e =
      let (same, left, v', looks) = pop-dequeue capacity default r c v in
      ap₂ (λ a as'. a ∷ as') (ap popped (looks ∙ ap (λ q. (dequeue q).0) e))
        (answers_from r q cs c v e)

  -- Initializing a new ring over storage of enough slots makes it valid and empty.
  pub init-IsValid :
      (base_ptr slot_size slot_align size_in_bytes : ℕ) (memory : List (CacheAlignedSlot T))
      {r : RingBuffer T}
      → IsCapacity capacity
      → capacity ≤ length memory
      → init capacity default new base_ptr slot_size slot_align size_in_bytes memory ≡ (ok tt, r)
      → IsValid capacity default r × (contents capacity default r ≡ [])
  unfolding init
  init-IsValid base_ptr slot_size slot_align size_in_bytes memory {r} c l h = (
    record {
      ready = ground arith;
      storage = rw stored (omega (arith, l, length-reset_counters capacity memory));
      words = ground arith;
      used = omega (arith, empty);
      stable = λ i below.
          rw
            (
              stored,
              reset_counters_even capacity i memory
                  (record { data_cell = default; sequence_counter = 0 }) below l,
            )
            refl;
    },
    ap (items capacity default r.buffer r.tail) {x = count capacity default r} {y = 0} empty,
  )
    where
      stored : r.buffer ≡ reset_counters capacity memory
      stored = unfold init in ground arith

      empty : count capacity default r ≡ 0
      empty = unfold init in ground arith

  -- A new ring whose size is a power of two below 2^64 and that `init` has set up over storage of
  -- enough slots, whatever they held, answers any sequence of pushes, pops and peeks as a queue of
  -- at most `capacity` items does that is empty at first: first in, first out, and a push refused
  -- exactly when the queue is full.
  pub answers-queue_answers :
      (base_ptr slot_size slot_align size_in_bytes : ℕ) (memory : List (CacheAlignedSlot T))
      (cs : List (Call T)) {r : RingBuffer T}
      → IsCapacity capacity
      → capacity ≤ length memory
      → init capacity default new base_ptr slot_size slot_align size_in_bytes memory ≡ (ok tt, r)
      → answers r cs ≡ queue_answers [] cs
  answers-queue_answers base_ptr slot_size slot_align size_in_bytes memory cs {r} c l h =
      let (v, e) = init-IsValid base_ptr slot_size slot_align size_in_bytes memory c l h in
      answers_from r [] cs c v e
